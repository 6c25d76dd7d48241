-- ===== src/Methodology/Projection/Modes/Inputs.antt =====
-- Which execution a projection request resolves to.
use mathlib.Core.Option.{some-injective}
use paa_platform.Prelude.{
  String, ◌≡◌, ◌⊎◌, refl, sym, ap, ◌∙◌, Bool, true, none, some, List, [], ◌∷◌, Memᴰ, Bool-cases,
  Option-cases, absurd_some, inl, inr, find, find-passes, named, eq_iff, opt_eq_iff, arith, ◌↔◌,
}
use paa_platform.Methodology.Records.{MethodologyExecutionRecord}
use paa_platform.Methodology.Store.{
  Store, MethodologyExecutionProjectionInputRecord, has_execution_id, has_primary_ref,
  get_methodology_execution, find_methodology_execution_by_primary_ref,
  load_methodology_execution_projection_inputs, list_methodology_execution_events,
  list_methodology_execution_bindings,
}
use paa_platform.Methodology.Projection.{projected_id, resolve_projection_input}
use paa_platform.Methodology.Projection.Models.{MethodologyExecutionProjectionRequest}

-- An element that is found, and the search for one that is there.
find-Memᴰ {ℓ} : {A : Type ℓ} (p : A → Bool) (xs : List A) (a : A) → find p xs ≡ some a → Memᴰ a xs
unfolding find
find-Memᴰ p [] a h = absurd_some h
find-Memᴰ p (x ∷ xs) a h = elim (Bool-cases (p x)) [
  | inl e ↦ Memᴰ.head (sym (some-injective _ _ (rw e at h)))
  | inr e ↦ Memᴰ.tail (find-Memᴰ p xs a (rw e at h))
]

not-found {ℓ} :
    {A : Type ℓ} (p : A → Bool) (xs : List A) (a : A)
    → find p xs ≡ none
    → Memᴰ a xs
    → p a ≡ true
    → ⊥
unfolding find
not-found p [] a h m t = elim m [ ]
not-found p (x ∷ xs) a h (Memᴰ.head e) t =
    let here : p x ≡ true = ap p (sym e) ∙ t in absurd_some (sym (rw here at h))
not-found p (x ∷ xs) a h (Memᴰ.tail m) t = elim (Bool-cases (p x)) [
  | inl e ↦ absurd_some (sym (rw e at h))
  | inr e ↦ not-found p xs a (rw e at h) m t
]

-- The primary reference of a request: both texts are there and not empty.
pub record RefersTo (request : MethodologyExecutionProjectionRequest)
    (r : MethodologyExecutionRecord) : Type 0 where
  pub no_id : request.methodology_execution_id ≡ none
  pub project : named request.project_id ≡ some r.project_id
  pub item : String
  pub item_named : named request.work_item_id ≡ some item
  pub of_item : r.work_item_id ≡ some item
  pub component : r.component_id ≡ request.component_id

-- An execution that the request identifies: by its id, or else by the primary reference of the row that
-- has its id.
pub record Identified (store : Store) (request : MethodologyExecutionProjectionRequest)
    (r : MethodologyExecutionRecord) : Type 0 where
  pub there : Memᴰ r store.executions
  pub by :
      (request.methodology_execution_id ≡ some r.methodology_execution_id)
      ⊎ ((q : MethodologyExecutionRecord) × Memᴰ q store.executions
          × (q.methodology_execution_id ≡ r.methodology_execution_id)
          × RefersTo request q)

module _ (store : Store) (request : MethodologyExecutionProjectionRequest) where
  -- What the input is loaded for.
  loaded_cases :
      (id : String)
      → ((input : MethodologyExecutionProjectionInputRecord)
          × (load_methodology_execution_projection_inputs store id ≡ some input)
          × Memᴰ input.execution store.executions
          × (input.execution.methodology_execution_id ≡ id))
        ⊎ ((load_methodology_execution_projection_inputs store id ≡ none)
            × ((r : MethodologyExecutionRecord)
                → Memᴰ r store.executions
                → r.methodology_execution_id ≡ id
                → ⊥))
  unfolding load_methodology_execution_projection_inputs get_methodology_execution
  loaded_cases id = elim (Option-cases (find (has_execution_id id) store.executions)) [
    | inl n ↦ inr (
      rw (n, load_methodology_execution_projection_inputs, get_methodology_execution) refl,
      λ r m same.
          not-found (has_execution_id id) store.executions r n m
            ((eq_iff r.methodology_execution_id id).1 same),
    )
    | inr (r, e) ↦ inl (
      record {
        execution = r;
        events = list_methodology_execution_events store id;
        bindings = list_methodology_execution_bindings store id;
      },
      rw (e, load_methodology_execution_projection_inputs, get_methodology_execution) refl,
      find-Memᴰ _ _ r e,
      (eq_iff r.methodology_execution_id id).0 (find-passes _ _ r e),
    )
  ]

  has_ref :
      (project item : String) (q : MethodologyExecutionRecord)
      → (has_primary_ref project item request.component_id q ≡ true) ↔ (
          (q.project_id ≡ project)
          × (q.work_item_id ≡ some item)
          × (q.component_id ≡ request.component_id))
  has_ref project item q = ground (
    arith,
    eq_iff q.project_id project,
    opt_eq_iff q.work_item_id (some item),
    opt_eq_iff q.component_id request.component_id,
  )

  -- The id that is looked for, and what there is without one.
  id_cases :
      ((id : String) × (projected_id store request ≡ some id)
        × ((request.methodology_execution_id ≡ some id)
            ⊎ ((request.methodology_execution_id ≡ none)
                × (q : MethodologyExecutionRecord) × Memᴰ q store.executions
                × (q.methodology_execution_id ≡ id)
                × RefersTo request q)))
      ⊎ ((projected_id store request ≡ none)
          × (request.methodology_execution_id ≡ none)
          × ((q : MethodologyExecutionRecord) → Memᴰ q store.executions → RefersTo request q → ⊥))
  unfolding projected_id find_methodology_execution_by_primary_ref
  id_cases = elim (Option-cases request.methodology_execution_id) [
    | inr (id, e) ↦ inl (id, rw (e, projected_id) refl, inl e)
    | inl n ↦ elim (Option-cases (named request.project_id)) [
      | inl a ↦ inr (rw (n, a, projected_id) refl, n, λ q m x. absurd_some (sym a ∙ x.project))
      | inr (project, a) ↦ elim (Option-cases (named request.work_item_id)) [
        | inl b ↦
            inr (rw (n, a, b, projected_id) refl, n, λ q m x. absurd_some (sym b ∙ x.item_named))
        | inr (item, b) ↦
            elim (Option-cases
              (find (has_primary_ref project item request.component_id) store.executions)) [
                | inl c ↦ inr (
                  rw (n, a, b, c, projected_id, find_methodology_execution_by_primary_ref) refl,
                  n,
                  λ q m x.
                      not-found (has_primary_ref project item request.component_id) store.executions
                        q c m
                        ((has_ref project item q).1 (
                          some-injective _ _ (sym x.project ∙ a),
                          x.of_item ∙ sym x.item_named ∙ b,
                          x.component,
                        )),
                )
                | inr (q, c) ↦
                    let fits = (has_ref project item q).0 (find-passes _ _ q c) in
                    inl (
                      q.methodology_execution_id,
                      rw (n, a, b, c, projected_id, find_methodology_execution_by_primary_ref) refl,
                      inr (
                        n,
                        q,
                        find-Memᴰ _ _ q c,
                        refl,
                        record {
                          no_id = n;
                          project = a ∙ ap some (sym fits.0);
                          item = item;
                          item_named = b;
                          of_item = fits.1;
                          component = fits.2;
                        },
                      ),
                    )
              ]
      ]
    ]
  ]

  -- The input that a request resolves to is of an execution that it identifies; without one there is none.
  pub input_cases :
      ((input : MethodologyExecutionProjectionInputRecord) × (resolve_projection_input store request
          ≡ some input)
        × Identified store request input.execution)
      ⊎ ((resolve_projection_input store request ≡ none)
          × ((r : MethodologyExecutionRecord) → Identified store request r → ⊥))
  unfolding resolve_projection_input
  input_cases = elim id_cases [
    | inr (e, n, never) ↦ inr (
      rw (e, resolve_projection_input) refl,
      λ r x. elim x.by [ inl i ↦ absurd_some (sym n ∙ i) | inr q ↦ never q.0 q.1 q.3 ],
    )
    | inl (id, e, why) ↦ elim (loaded_cases id) [
      | inl (input, l, there, same) ↦ inl (
        input,
        rw (e, resolve_projection_input) l,
        record {
          there = there;
          by = elim why [
            | inl i ↦ inl (i ∙ ap some (sym same))
            | inr q ↦ inr (q.1, q.2, q.3 ∙ sym same, q.4)
          ];
        },
      )
      | inr (l, never) ↦ inr (
        rw (e, resolve_projection_input) l,
        λ r x. elim why [
          | inr q ↦ never q.1 q.2 q.3
          | inl i ↦ elim x.by [
            | inl j ↦ never r x.there (some-injective _ _ (sym j ∙ i))
            | inr q ↦ absurd_some (sym q.3.no_id ∙ i)
          ]
        ],
      )
    ]
  ]
