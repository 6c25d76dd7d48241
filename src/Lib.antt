-- ===== src/Lib.antt =====
-- The PAA platform runs implementation work as slices: plans of activities, workflow states that move
-- from stage to stage as workers return results, and packets that travel through queues between the
-- roles. This library models the core of the Python package `paa-core` below
-- packages/paa-core/src/paa_core and states what makes it correct.
--
-- The parts, and the files that model them:
-- - Policy: the decision policies, pure functions of a request and a context. Policy/Transition is
--   policies/workflow_transition, Policy/Acceptance policies/acceptance, Policy/Recovery
--   policies/reset_recovery, Policy/Capability policies/deployment_capability; each default.py is one
--   `evaluate_…` function.
-- - Progress: services/implementation_plan_progress. Progress/Classify is `_classify_activity` and the
--   loop of `_build_summary`, Progress/Next `_derive_next_activity_key`, Progress/Summary the rest of
--   `_build_summary` with `_derive_realization_state` and `_derive_authority_state_summary`,
--   Progress/Service the two operations over the plan repository.
-- - Workflow: runtime/workflow/workflow_lifecycle. Workflow/Records and Workflow/Store are the records
--   and tables of repositories/workflow_state and repositories/runtime_event, Workflow/Evaluate and
--   Workflow/Lifecycle are `_evaluate_supported_transition` with its helpers, Workflow/Apply is
--   `apply_workflow_transition`. The lifecycle service asks the transition and recovery policies.
-- - Queue: the intake and handling of packets. Queue/Claim is
--   runtime/orchestration/queue_claim_runtime over adapters, with Queue/Packet for the fields of
--   a packet, Queue/Envelope runtime/transport/packet_envelope.py, Queue/Ledger the claim ledger
--   of runtime/transport/claim_ledger.py, with the choice of its state root in Queue/Ledger/States
--   and the listing of claims in Queue/Ledger/Listing, Queue/Host the adapters of runtime/hosts/techlead.py
--   over broker, ledger and message table, Queue/Retry its loop `_claim_with_retry`,
--   Queue/Controller runtime/orchestration/queue_packet_runtime_controller. Queue/Runtime is the
--   host's `run_once`, which puts intake, packet resolution, controller, workflow transition and
--   assignment in their order and settles the claim, and its `run_loop`. Queue/Admin is the claims
--   of runtime/transport/queue_admin.py over the same ledger and message table.
-- - Decision: the TechLead's decision services. Decision/Recovery is
--   services/techlead_reset_recovery_decision, Decision/Review services/techlead_worker_review_routing,
--   Decision/Acceptance services/techlead_acceptance_decision.
-- - Methodology: the pointer that says where a component stands in the method. Methodology/Records and
--   Methodology/Store are repositories/methodology_execution, Methodology/State is
--   runtime/workflow/methodology_execution_state, Methodology/Projection
--   runtime/workflow/methodology_execution_projection.
-- - Planning: how a plan gets into the tables that Progress reads. Planning/Records and Planning/Store
--   are repositories/implementation_plan, Planning/Updates its updates of plans and activities,
--   Planning/Derivation is services/implementation_plan_derivation. Planning/Store/Listing ends with the
--   repository that Progress takes as a parameter. Planning/Updates/Completion is no code of the
--   repository: it is a caller that completes what the progress service names, time after time.
-- - Json and Prelude: values of `dict[str, Any]`, f-strings as lists of pieces, `str.strip`, Boolean
--   tests and list lemmas that the parts share.
--
-- How the code is read. A dataclass is a record, a literal type a data type, `None` is `none`, an
-- exception is `none` of the result or an outcome of its own that keeps the state reached.
-- Stateful code passes its state along: the store of the lifecycle service, the world behind the
-- queue adapters. A class's table of constants is the definition that tests it. Clocks, fresh
-- keys and `json.loads` are arguments; the keys of activity and dependency rows are a function of what
-- their unique constraint holds. A statement that violates a constraint raises, and leaves the tables
-- as they were. The database orders texts by their code points. A dict is its list of entries in
-- order, a set of keys a list without doubles. The broker, the active roles of the team, the
-- execution package and packet resolution, the transition adapter, the assignment publisher and the
-- worker service are parameters. The loops of the code run over lists and are recursion on them; the
-- retry loop and the runtime loop are recursion on the number of attempts and iterations left.
--
-- Bounds. Counts are natural numbers and issue numbers and ranks integers without bound, as in
-- Python; the upsert of an activity raises where its sequence order is none that the INTEGER
-- column holds. The completion ratio is the pair of its counts; the test `>= 0.75` on the float is
-- the test on the counts, which agree for lists of fewer than 2^52 elements.
--
-- Not modelled: logging; the progress metadata, which repeats fields of the summary; SQL enum
-- casts, the casts of ids to uuid, so that every id is a text that they accept, foreign keys and
-- lost connections, so that a write of the workflow tables does not fail; sending and queue
-- resolution; the authority events of the plan repository; the preflight of the methodology
-- runtime; the remaining decision services, packets, workers, component design planning, bridges,
-- producer, governance, API and command line.
pub mod Prelude
pub mod Json
pub mod Policy
pub mod Progress
pub mod Workflow
pub mod Queue
pub mod Decision
pub mod Methodology
pub mod Planning
