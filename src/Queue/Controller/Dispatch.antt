-- ===== src/Queue/Controller/Dispatch.antt =====
-- When the controller hands a packet to the worker, and what it promises of the queue.
use mathlib.Core.Option.{some-injective}
use paa_platform.Prelude.{
  String, ◌≡◌, ◌↔◌, ◌⊎◌, refl, true, false, none, some, inl, inr, Option-cases, strip, strip-strip,
  arith, eq_iff, absurd_some, ◌≢◌, sym, ◌∙◌, Bool-cases, ◌==◌,
}
use paa_platform.Json.{Dict, Value}
use paa_platform.Queue.Controller.{
  supports_packet_schema_type, resolve_packet_payload, build_blocked_result, refusal,
  worker_request, dispatched_result, dispatch, handle_packet, TechLeadWorkerRequest, as_payload,
}
use paa_platform.Queue.Controller.Models.{
  QueuePacketRuntimeRequest, QueuePacketRuntimeResult, Services, TechLeadWorkerRequest,
}

supports-strip :
    (t : String) → supports_packet_schema_type (strip t) ≡ supports_packet_schema_type t
unfolding supports_packet_schema_type
supports-strip t = rw (strip-strip t) refl

refusal-none :
    (request : QueuePacketRuntimeRequest)
    → (refusal request ≡ none) ↔ (
        (request.runtime_mode ≡ "dry_run")
        × (supports_packet_schema_type request.packet_schema_type ≡ true))
unfolding refusal
refusal-none request =
    ground (arith, eq_iff request.runtime_mode "dry_run", supports-strip request.packet_schema_type)

supported-schemas :
    (t : String)
    → supports_packet_schema_type t ≡ true
    → (strip t ≡ "worker_result_packet")
      ⊎ ((strip t ≡ "qa_verification_packet") ⊎ (strip t ≡ "techlead_decision_packet"))
unfolding supports_packet_schema_type
supported-schemas t h = ground (
  arith,
  h,
  eq_iff (strip t) "worker_result_packet",
  eq_iff (strip t) "qa_verification_packet",
  eq_iff (strip t) "techlead_decision_packet",
)

supports-schemas :
    (t : String)
    → (strip t ≡ "worker_result_packet")
      ⊎ ((strip t ≡ "qa_verification_packet") ⊎ (strip t ≡ "techlead_decision_packet"))
    → supports_packet_schema_type t ≡ true
unfolding supports_packet_schema_type
supports-schemas t h = ground (
  arith,
  h,
  eq_iff (strip t) "worker_result_packet",
  eq_iff (strip t) "qa_verification_packet",
  eq_iff (strip t) "techlead_decision_packet",
)

module _ {S : Type 0} (services : Services S) (request : QueuePacketRuntimeRequest) (s : S) where
  abbrev pub outcome : QueuePacketRuntimeResult × S
  outcome = handle_packet services request s

  -- The request brings the payload, or the reader gives it for the path that is named.
  abbrev pub IsPayload : Dict → S → Type 0
  IsPayload payload t =
      ((request.packet_payload ≡ some payload) × (t ≡ s))
      ⊎ ((request.packet_payload ≡ none)
          × (path : String) × (read : String → S → Value × S) × (request.packet_path ≡ some path)
          × (path ≢ "")
          × (services.read_packet ≡ some read)
          × (payload ≡ as_payload (read path s).0)
          × (t ≡ (read path s).1))

  -- A request that can be handled, with the payload and the state after reading it.
  pub record Ready (payload : Dict) (t : S) : Type 0 where
    pub mode : request.runtime_mode ≡ "dry_run"
    pub schema :
        (strip request.packet_schema_type ≡ "worker_result_packet")
        ⊎ ((strip request.packet_schema_type ≡ "qa_verification_packet")
            ⊎ (strip request.packet_schema_type ≡ "techlead_decision_packet"))
    pub given : IsPayload payload t

  pub record Handled : Type 0 where
    pub payload : Dict
    pub read : S
    pub ready : Ready payload read
    pub asked : TechLeadWorkerRequest
    pub asked_schema : asked.packet_schema_type ≡ strip request.packet_schema_type
    pub asked_message : asked.packet_message_id ≡ request.packet_message_id
    pub asked_payload : asked.packet_payload ≡ some payload
    pub asked_mode : asked.runtime_mode ≡ "dry_run"
    pub answer : outcome.0.selected_worker_result ≡ some (services.handle_packet asked read).0
    pub told :
        (outcome.0.ok ≡ (services.handle_packet asked read).0.ok)
        × (outcome.0.reason ≡ (services.handle_packet asked read).0.reason)
    pub state : outcome.1 ≡ (services.handle_packet asked read).1

  pub record Refused : Type 0 where
    pub unready : (payload : Dict) (t : S) → Ready payload t → ⊥
    pub not_ok : outcome.0.ok ≡ false
    pub no_answer : outcome.0.selected_worker_result ≡ none
    pub no_effect : outcome.1 ≡ s

  IsPayload-cases :
      ((payload : Dict) × (t : S) × (resolve_packet_payload services request s ≡ (some payload, t))
        × IsPayload payload t)
      ⊎ ((resolve_packet_payload services request s ≡ (none, s))
          × ((payload : Dict) (t : S) → IsPayload payload t → ⊥))
  unfolding resolve_packet_payload
  IsPayload-cases = elim (Option-cases request.packet_payload) [
    | inr (p, e) ↦ inl (p, s, rw (e, resolve_packet_payload) refl, inl (e, refl))
    | inl n ↦ elim (Option-cases request.packet_path) [
      | inl m ↦ inr (
        rw (n, m, resolve_packet_payload) refl,
        λ payload t h. elim h [
          | inl x ↦ absurd_some (sym n ∙ x.0)
          | inr x ↦ absurd_some (sym m ∙ x.3)
        ],
      )
      | inr (path, e) ↦ elim (Bool-cases (path == "")) [
        | inl b ↦ inr (
          rw (n, e, resolve_packet_payload) (rw b refl),
          λ payload t h. elim h [
            | inl x ↦ absurd_some (sym n ∙ x.0)
            | inr x ↦
                let same : path ≡ x.1 = some-injective _ _ (sym e ∙ x.3) in
                absurd (x.4 (sym same ∙ (eq_iff path "").0 b))
          ],
        )
        | inr b ↦ elim (Option-cases services.read_packet) [
          | inl m ↦ inr (
            rw (n, e, m, resolve_packet_payload) (rw b refl),
            λ payload t h. elim h [
              | inl x ↦ absurd_some (sym n ∙ x.0)
              | inr x ↦ absurd_some (sym m ∙ x.5)
            ],
          )
          | inr (read, d) ↦ inl (
            as_payload (read path s).0,
            (read path s).1,
            rw (n, e, d, resolve_packet_payload) (rw b refl),
            inr (
              n,
              path,
              read,
              e,
              (λ q. let no : true ≡ false = sym ((eq_iff path "").1 q) ∙ b in cc),
              d,
              refl,
              refl,
            ),
          )
        ]
      ]
    ]
  ]

  -- Either the request is a dry run of one of the three schema types, it has a payload or names a path at
  -- which the reader gives one, and the worker is asked once, for that payload, and its answer is the
  -- outcome; or one of these is not so, and the request is refused without a worker result and with
  -- nothing changed. A request is never both.
  pub handled-or-refused : Handled ⊎ Refused
  unfolding handle_packet dispatch build_blocked_result worker_request dispatched_result
  handled-or-refused = elim (Option-cases (refusal request)) [
    | inr b ↦ inr (record {
      unready = λ payload t r. absurd_some (
          sym (
            (refusal-none request).1 (r.mode, supports-schemas request.packet_schema_type r.schema))
          ∙ b.1);
      not_ok = rw (b.1, handle_packet) refl;
      no_answer = rw (b.1, handle_packet) refl;
      no_effect = rw (b.1, handle_packet) refl;
    })
    | inl n ↦ elim IsPayload-cases [
      | inr (m, never) ↦ inr (record {
        unready = λ payload t r. never payload t r.given;
        not_ok = rw (n, handle_packet) (rw (m, dispatch) refl);
        no_answer = rw (n, handle_packet) (rw (m, dispatch) refl);
        no_effect = rw (n, handle_packet) (rw (m, dispatch) refl);
      })
      | inl (payload, t, e, given) ↦
          let legal = (refusal-none request).0 n in
          inl (record {
            payload = payload;
            read = t;
            ready = record {
              mode = legal.0;
              schema = supported-schemas request.packet_schema_type legal.1;
              given = given;
            };
            asked = worker_request request payload;
            asked_schema = refl;
            asked_message = refl;
            asked_payload = refl;
            asked_mode = legal.0;
            answer = rw (n, handle_packet) (rw (e, dispatch) refl);
            told = (
              rw (n, handle_packet) (rw (e, dispatch) refl),
              rw (n, handle_packet) (rw (e, dispatch) refl),
            );
            state = rw (n, handle_packet) (rw (e, dispatch) refl);
          })
    ]
  ]
