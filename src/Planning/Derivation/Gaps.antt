-- ===== src/Planning/Derivation/Gaps.antt =====
-- When a derivation reports gaps.
use paa_platform.Prelude.{
  String, ◌≡◌, ◌↔◌, refl, true, false, List, [], ◌∷◌, arith, eq_iff, member, is_empty, map,
  Bool-cases, inl, inr,
}
use paa_platform.Planning.Records.{ImplementationPlanActivityBlueprint}
use paa_platform.Planning.Derivation.Specs.{duplicate_gaps, detect_gaps}

abbrev pub keys_of : List ImplementationPlanActivityBlueprint → List String
keys_of bs = map (λ b. b.activity_key) bs

-- No key stands twice.
abbrev pub Distinct : List String → Type 0
Distinct [] = Unit
Distinct (k ∷ ks) = (member k ks ≡ false) × Distinct ks

-- No key of the first list is in the second.
abbrev Apart : List String → List String → Type 0
Apart [] seen = Unit
Apart (k ∷ ks) seen = (member k seen ≡ false) × Apart ks seen

Apart-cons :
    (k : String) (ks seen : List String)
    → Apart ks (k ∷ seen) ↔ ((member k ks ≡ false) × Apart ks seen)
Apart-cons k [] seen = ((λ h. (refl, tt)), λ h. tt)
Apart-cons k (j ∷ ks) seen =
    let ih = Apart-cons k ks seen in
    (
      (λ h. (ground (arith, eq_iff j k, eq_iff k j, (ih.0 h.1).0), (ground arith, (ih.0 h.1).1))),
      λ h. (ground (arith, eq_iff j k, eq_iff k j, h.0, h.1.0), ih.1 (ground (arith, h.0), h.1.1)),
    )

duplicate_gaps_none :
    (seen : List String) (bs : List ImplementationPlanActivityBlueprint)
    → (is_empty (duplicate_gaps seen bs) ≡ true) ↔ (Distinct (keys_of bs) × Apart (keys_of bs) seen)
unfolding duplicate_gaps
duplicate_gaps_none seen [] = ((λ h. (tt, tt)), λ h. refl)
duplicate_gaps_none seen (b ∷ bs) =
    let k = b.activity_key in
    let ih = duplicate_gaps_none (k ∷ seen) bs in
    let apart = Apart-cons k (keys_of bs) seen in
    elim (Bool-cases (member k seen)) [
      | inl old ↦ rw old (
        (λ h. absurd (let no : false ≡ true = h in cc)),
        λ h. absurd (let no : true ≡ false = h.1.0 in cc),
      )
      | inr new ↦ rw new (
        (λ h. ((((apart.0 (ih.0 h).1).0), (ih.0 h).0), (refl, (apart.0 (ih.0 h).1).1))),
        λ h. ih.1 (h.0.1, apart.1 (h.0.0, h.1.1)),
      )
    ]

Apart-nil : (ks : List String) → Apart ks []
Apart-nil [] = tt
Apart-nil (k ∷ ks) = (refl, Apart-nil ks)

-- A derivation reports no gap exactly where it has activities and their keys are distinct. A key that a
-- blueprint names as a predecessor and that no blueprint has is not reported.
pub no_gaps_iff :
    (bs : List ImplementationPlanActivityBlueprint)
    → (is_empty (detect_gaps bs) ≡ true) ↔ ((is_empty bs ≡ false) × Distinct (keys_of bs))
unfolding detect_gaps duplicate_gaps
no_gaps_iff [] = (
  (λ h. absurd (let no : false ≡ true = h in cc)),
  λ h. absurd (let no : true ≡ false = h.0 in cc),
)
no_gaps_iff (b ∷ bs) =
    let d = duplicate_gaps_none [] (b ∷ bs) in
    ((λ h. (refl, (d.0 h).0)), λ h. d.1 (h.1, Apart-nil (keys_of (b ∷ bs))))
