-- ===== src/Prelude/Strip.antt =====
-- `str.strip()` of the source: leading and trailing white space is dropped.
use Prim.Native.Nat.{ℕ}
use Prim.Native.Char.{Char, code}
use Prim.Native.String.{String}
use mathlib.Core.Path.{◌≡◌, refl}
use mathlib.Core.Logic.{inl, inr}
use mathlib.Core.Bool.{Bool, false, ◌&&◌, ◌||◌}
use paa_platform.Prelude.Tests.{leb, eqb, if◌then◌else◌, Bool-cases}

-- The code points for which `str.isspace()` holds.
is_space : ℕ → Bool
is_space c =
    (leb 9 c && leb c 13)
    || (leb 28 c && leb c 32)
    || eqb c 0x85
    || eqb c 0xa0
    || eqb c 0x1680
    || (leb 0x2000 c && leb c 0x200a)
    || eqb c 0x2028
    || eqb c 0x2029
    || eqb c 0x202f
    || eqb c 0x205f
    || eqb c 0x3000

abbrev blank : Char → Bool
blank c = is_space (code c)

lstrip : String → String
lstrip String.[] = String.[]
lstrip (String.◌∷◌ c s) = if is_space (code c) then lstrip s else String.◌∷◌ c s

-- A character in front of a stripped rest: it goes if it is white space and nothing follows.
prepend : Char → String → String
prepend c String.[] = if is_space (code c) then String.[] else String.◌∷◌ c String.[]
prepend c (String.◌∷◌ d s) = String.◌∷◌ c (String.◌∷◌ d s)

rstrip : String → String
rstrip String.[] = String.[]
rstrip (String.◌∷◌ c s) = prepend c (rstrip s)

unfoldable pub strip : String → String
unfolding lstrip rstrip prepend is_space
strip s = rstrip (lstrip s)

rstrip-prepend : (c : Char) (s : String) → rstrip s ≡ s → rstrip (prepend c s) ≡ prepend c s
unfolding rstrip prepend
rstrip-prepend c String.[] h = elim (Bool-cases (is_space (code c))) [
  | inl e ↦ rw e
  | inr e ↦ rw e (rw e)
]
rstrip-prepend c (String.◌∷◌ d s) h = rw h

rstrip-rstrip : (s : String) → rstrip (rstrip s) ≡ rstrip s
unfolding rstrip
rstrip-rstrip String.[] = refl
rstrip-rstrip (String.◌∷◌ c s) = rstrip-prepend c (rstrip s) (rstrip-rstrip s)

lstrip-prepend :
    (c : Char) (s : String) → is_space (code c) ≡ false → lstrip (prepend c s) ≡ prepend c s
unfolding lstrip prepend
lstrip-prepend c String.[] h = rw h (rw h)
lstrip-prepend c (String.◌∷◌ d s) h = rw h

lstrip-rstrip-lstrip : (s : String) → lstrip (rstrip (lstrip s)) ≡ rstrip (lstrip s)
unfolding lstrip rstrip
lstrip-rstrip-lstrip String.[] = refl
lstrip-rstrip-lstrip (String.◌∷◌ c s) = elim (Bool-cases (is_space (code c))) [
  | inl e ↦ rw e (lstrip-rstrip-lstrip s)
  | inr e ↦ rw e (lstrip-prepend c (rstrip s) e)
]

-- A stripped text is stripped.
pub strip-strip : (s : String) → strip (strip s) ≡ strip s
strip-strip s = unfold strip in rw lstrip-rstrip-lstrip (rstrip-rstrip (lstrip s))
