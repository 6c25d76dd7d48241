-- ===== src/Json.antt =====
-- The values that the source keeps in `dict[str, Any]`: packets, metadata, claim records.
-- A dict is its list of entries in insertion order, and an f-string is its list of pieces.
use paa_platform.Prelude.{
  ℤ, is_nonzero, String, ◌≡◌, refl, Bool, true, false, not, Option, none, some, List, [], ◌∷◌,
  arith, ◌==◌, eq_iff, if◌then◌else◌,
}

mutual
  pub data Value : Type 0 where
    null : Value
    flag : Bool → Value
    number : ℤ → Value
    text : String → Value
    tuple : Items → Value
    dict : Dict → Value

  pub data Items : Type 0 where
    nil : Items
    cons : Value → Items → Items

  pub data Dict : Type 0 where
    empty : Dict
    entry : String → Value → Dict → Dict

-- `d.get(k)`
unfoldable pub get : Dict → String → Option Value
get empty k = none
get (entry j v d) k = if j == k then some v else get d k

-- `d[k] = v`: an old key keeps its place, a new one comes last.
unfoldable pub put : Dict → String → Value → Dict
put empty k v = entry k v empty
put (entry j w d) k v = if j == k then entry j v d else entry j w (put d k v)

-- `d.setdefault(k, v)`
unfoldable pub set_default : Dict → String → Value → Dict
set_default d k v = elim (get d k) [ none ↦ put d k v | some w ↦ d ]

-- `d.update(e)`, and `{**d, **e}`
unfoldable pub update : Dict → Dict → Dict
unfolding put
update d empty = d
update d (entry k v e) = update (put d k v) e

-- `d or {}` for a dict that may be `None`.
abbrev pub dict_or_empty : Option Dict → Dict
dict_or_empty none = empty
dict_or_empty (some d) = d

abbrev pub opt_text : Option String → Value
opt_text none = null
opt_text (some s) = text s

pub texts : List String → Items
texts [] = nil
texts (s ∷ ss) = cons (text s) (texts ss)

-- What an `and`/`or`/`if` makes of a value.
abbrev pub truth : Value → Bool
truth null = false
truth (flag b) = b
truth (number n) = is_nonzero n
truth (text s) = not (s == "")
truth (tuple nil) = false
truth (tuple (cons v vs)) = true
truth (dict empty) = false
truth (dict (entry k v d)) = true

-- A piece of an f-string: literal text, `{x}` of a text, an integer or a value, and `{x!r}`. How these are
-- written out and the quoting that `!r` does are left open.
pub data Piece : Type 0 where
  lit : String → Piece
  shown : String → Piece
  digits : ℤ → Piece
  repr : Option String → Piece
  str : Value → Piece

abbrev pub Message : Type 0
Message = List Piece

abbrev pub plain : String → Message
plain s = lit s ∷ []

pub get-put :
    (d : Dict) (k j : String) (v : Value) → get (put d k v) j ≡ (if k == j then some v else get d j)
unfolding get put
get-put empty k j v = refl
get-put (entry i w d) k j v = ground (arith, eq_iff k j, eq_iff i k, eq_iff i j, get-put d k j v)

-- `str(v)`, which `write` is for what is no text.
abbrev pub str_of : (Value → String) → Value → String
str_of write (text s) = s
str_of write null = write null
str_of write (flag b) = write (flag b)
str_of write (number n) = write (number n)
str_of write (tuple vs) = write (tuple vs)
str_of write (dict d) = write (dict d)
