-- ===== src/Queue/Claim/Intake.antt =====
-- What an intake accepts, and what it does to the queue and the ledger.
pub mod Conditions
use paa_platform.Queue.Claim.Intake.Conditions.{
  Acceptable, Admissible, Describes, claim_record-Describes, early_block-Admissible,
  packet_block-Acceptable, recorded, supports_lem,
}
use mathlib.Core.Path.{subst}
use paa_platform.Prelude.{
  absurd_some, ◌∙◌, not-both, strip-strip, ◌==◌, ◌||◌, String, ◌≡◌, ◌↔◌, ◌⊎◌, refl, ap, sym, true,
  false, none, List, inl, inr, Option-cases, member, truthy, strip, arith, eq_iff, Option, if-true,
  if-false, some,
}
use paa_platform.Json.{Value, Dict, get, text, opt_text}
use paa_platform.Queue.Models.{QueueClaimRuntimeRequest, QueueClaimRuntimeResult, Adapters}
use paa_platform.Queue.Claim.{
  packet_block, claim_record, intake_result, load_packet, write_claim, finish_intake,
  assemble_queue_intake, packet_message_id, packet_reference,
}
use paa_platform.Queue.Claim.Guards.{
  Block, supported_schema_types, supports_intake_mode, build_blocked_result, early_block,
}
use paa_platform.Queue.Packet.{
  validation_ok, packet_schema_type, is_null, opt_member, packet_message_id, packet_reference,
}

module _ {S : Type 0} (adapters : Adapters S) (request : QueueClaimRuntimeRequest) (s : S) where
  -- What the queue gives for the request, and the state it leaves.
  abbrev pub loaded : Value × S
  loaded = load_packet adapters request (strip request.intake_mode) s

  abbrev mode : String
  mode = strip request.intake_mode

  abbrev outcome : QueueClaimRuntimeResult × S
  outcome = assemble_queue_intake adapters request s

  -- The three ways an intake can go.
  intake_lem :
      ((Admissible adapters.supported_queue_names request → ⊥)
        × ((b : Block) × (outcome ≡ (build_blocked_result request b, s))))
      ⊎ ((Admissible adapters.supported_queue_names request
            × (Acceptable adapters loaded.0 → ⊥)
            × ((b : Block) × (outcome ≡ (build_blocked_result request b, loaded.1))))
          ⊎ (Admissible adapters.supported_queue_names request
              × Acceptable adapters loaded.0
              × (outcome ≡ finish_intake adapters request mode loaded.0 loaded.1)))
  unfolding assemble_queue_intake
  intake_lem =
      let early = early_block-Admissible adapters.supported_queue_names request in
      let late = packet_block-Acceptable adapters mode loaded.0 in
      elim (Option-cases (early_block adapters.supported_queue_names request)) [
        | inr b ↦ inl (
          (λ a. absurd_some (sym (early.1 a) ∙ b.1)),
          (b.0, rw (b.1, assemble_queue_intake) refl),
        )
        | inl e ↦
            elim (Option-cases
              (packet_block mode loaded.0 (adapters.validate_packet_envelope loaded.0))) [
                | inl p ↦ inr (inr (early.0 e, late.0 p, rw (e, p, assemble_queue_intake) refl))
                | inr p ↦ inr (
                    inl (
                      early.0 e,
                      (λ a. absurd_some (sym (late.1 a) ∙ p.1)),
                      (p.0, rw (e, p.1, assemble_queue_intake) refl),
                    ))
              ]
      ]

  finish-ok : (packet : Value) (t : S) → (finish_intake adapters request mode packet t).0.ok ≡ true
  unfolding finish_intake intake_result
  finish-ok packet t = ground arith

  finish-claim :
      (packet : Value) (t : S)
      → mode ≡ "claim_next"
      → (finish_intake adapters request mode packet t).1
        ≡ recorded adapters.record_claim (claim_record request packet) t
  unfolding finish_intake write_claim
  finish-claim packet t m = elim (Option-cases adapters.record_claim) [
    | inl n ↦ rw (m, n, finish_intake, write_claim) refl
    | inr (write, e) ↦ rw (m, e, finish_intake, write_claim) refl
  ]

  finish-preview :
      (packet : Value) (t : S)
      → mode ≡ "preview"
      → (finish_intake adapters request mode packet t).1 ≡ t
  unfolding finish_intake
  finish-preview packet t m = rw (m, finish_intake) refl

  loaded-preview : mode ≡ "preview" → loaded ≡ adapters.preview_queue request.queue_name s
  unfolding load_packet
  loaded-preview m = if-true _ _ ((eq_iff mode "preview").1 m)

  loaded-claim :
      mode ≡ "claim_next"
      → loaded ≡ adapters.claim_next_packet request.queue_name request.claimant_name s
  unfolding load_packet
  loaded-claim m =
      if-false _ _ (not-both mode "claim_next" "preview" refl ((eq_iff mode "claim_next").1 m))

  -- An intake succeeds exactly when its request is admissible and the packet that the queue gives is
  -- acceptable.
  pub ok_iff :
      (outcome.0.ok ≡ true)
      ↔ (Admissible adapters.supported_queue_names request × Acceptable adapters loaded.0)
  unfolding build_blocked_result
  ok_iff = elim intake_lem [
    | inl x ↦
        ((λ h. let no : true ≡ false = sym h ∙ ap (λ r. r.0.ok) x.1.1 in cc), λ h. absurd (x.0 h.0))
    | inr (inl x) ↦
        ((λ h. let no : true ≡ false = sym h ∙ ap (λ r. r.0.ok) x.2.1 in cc), λ h. absurd (x.1 h.1))
    | inr (inr x) ↦ ((λ h. (x.0, x.1)), λ h. ap (λ r. r.0.ok) x.2 ∙ finish-ok loaded.0 loaded.1)
  ]

  -- What happens to the queue and the ledger, by what the request asks for.
  pub data Accounted : Type 0 where
    untouched :
        (Admissible adapters.supported_queue_names request → ⊥)
        → outcome.0.ok ≡ false
        → outcome.1 ≡ s
        → Accounted
    looked :
        Admissible adapters.supported_queue_names request
        → mode ≡ "preview"
        → outcome.1 ≡ (adapters.preview_queue request.queue_name s).1
        → Accounted
    taken :
        Admissible adapters.supported_queue_names request
        → mode ≡ "claim_next"
        → outcome.0.ok ≡ false
        → outcome.1 ≡ (adapters.claim_next_packet request.queue_name request.claimant_name s).1
        → Accounted
    claimed :
        Admissible adapters.supported_queue_names request
        → mode ≡ "claim_next"
        → outcome.0.ok ≡ true
        → (claim : Dict)
        → Describes request
            (adapters.claim_next_packet request.queue_name request.claimant_name s).0
            claim
        → outcome.1
          ≡ recorded adapters.record_claim claim
              (adapters.claim_next_packet request.queue_name request.claimant_name s).1
        → Accounted

  -- An intake that is not admissible is not ok and leaves the queue and the ledger as they were. In
  -- preview mode an admissible one looks at the queue once and does nothing else. In claim mode it takes
  -- one packet off the queue: when it is not ok it does nothing else, and when it is ok it writes one
  -- claim, which names the queue, the claimant and the message id, schema type and reference of the
  -- packet that was taken.
  pub intake-accounted : Accounted
  unfolding build_blocked_result
  intake-accounted = elim intake_lem [
    | inl x ↦ untouched x.0 (ap (λ r. r.0.ok) x.1.1) (ap (λ r. r.1) x.1.1)
    | inr (inl x) ↦ elim x.0.mode [
      | inl p ↦ looked x.0 p (ap (λ r. r.1) x.2.1 ∙ ap (λ l. l.1) (loaded-preview p))
      | inr c ↦
          taken x.0 c.0 (ap (λ r. r.0.ok) x.2.1)
            (ap (λ r. r.1) x.2.1 ∙ ap (λ l. l.1) (loaded-claim c.0))
    ]
    | inr (inr x) ↦ elim x.0.mode [
      | inl p ↦ looked x.0 p (
          ap (λ r. r.1) x.2 ∙ finish-preview loaded.0 loaded.1 p ∙ ap (λ l. l.1) (loaded-preview p))
      | inr c ↦
          claimed x.0 c.0 (ap (λ r. r.0.ok) x.2 ∙ finish-ok loaded.0 loaded.1)
            (claim_record request loaded.0)
            (subst (λ l. Describes request l.0 (claim_record request loaded.0)) (loaded-claim c.0)
              (claim_record-Describes request loaded.0))
            (ap (λ r. r.1) x.2
              ∙ finish-claim loaded.0 loaded.1 c.0
              ∙ ap (λ l. recorded adapters.record_claim (claim_record request loaded.0) l.1)
                  (loaded-claim c.0))
    ]
  ]
