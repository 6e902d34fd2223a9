-- ===== src/Saga/Roundtrip.antt =====
-- What GetSaga reads back after SaveSaga and after UpdateStepStatus.
use draftea_payment.Prelude.{
  ℕ, ◌≡◌, sym, ap, ap₂, subst, ◌∙◌, Option, none, some, List, [], ◌∷◌, arith, Option-cases, inl,
  inr, some-injective,
}
use draftea_payment.Events.Types.{Metadata}
use draftea_payment.Saga.Model.{StepStatus, SagaStep, Saga}
use draftea_payment.Saga.Sql.{
  Json, SagaRow, SagaDb, find_row, upsert_row, merge_row, to_row, from_row, save_saga, get_saga,
  write_status, update_step_status,
}

module _ {J : Type 0} where
  pub find_row-upsert_row_new :
      (new : SagaRow J) (rs : List (SagaRow J))
      → find_row new.id rs ≡ none
      → find_row new.id (upsert_row new rs) ≡ some new
  unfolding find_row upsert_row
  find_row-upsert_row_new new [] h = ground arith
  find_row-upsert_row_new new (r ∷ rs) h = ground (arith, find_row-upsert_row_new new rs)

  find_row-upsert_row_old :
      (new old : SagaRow J) (rs : List (SagaRow J))
      → find_row new.id rs ≡ some old
      → find_row new.id (upsert_row new rs) ≡ some (merge_row new old)
  unfolding find_row upsert_row
  find_row-upsert_row_old new old [] h = absurd (cc h)
  find_row-upsert_row_old new old (r ∷ rs) h = ground (arith, find_row-upsert_row_old new old rs)

  pub find_row_id :
      (id : ℕ) (r : SagaRow J) (rs : List (SagaRow J)) → find_row id rs ≡ some r → r.id ≡ id
  unfolding find_row
  find_row_id id r [] h = absurd (cc h)
  find_row_id id r (q ∷ qs) h = ground (arith, find_row_id id r qs)

module _ {E J : Type 0} (json : Json E J) where
  -- What GetSaga reads of a row, where no statement fails.
  get_saga_found :
      (id : ℕ) (row : SagaRow J) (d : SagaDb J)
      → d.faults ≡ []
      → find_row id d.sagas ≡ some row
      → (get_saga json id d).1 ≡ some (from_row json row)
  unfolding get_saga
  get_saga_found id row d healthy found = ground arith

  get_saga_row :
      (id : ℕ) (s : Saga E) (d : SagaDb J)
      → d.faults ≡ []
      → (get_saga json id d).1 ≡ some s
      → (row : SagaRow J) × (find_row id d.sagas ≡ some row) × (from_row json row ≡ s)
  get_saga_row id s d healthy read = elim (Option-cases (find_row id d.sagas)) [
    | inl h ↦ absurd (unfold get_saga in ground arith)
    | inr (row, h) ↦ (row, h, some-injective (sym (get_saga_found id row d healthy h) ∙ read))
  ]

  saved_table :
      (s : Saga E) (d : SagaDb J)
      → d.faults ≡ []
      → let d' = (save_saga json s d).0 in
        (d'.sagas ≡ upsert_row (to_row json s) d.sagas) × (d'.faults ≡ [])
  unfolding save_saga
  saved_table s d healthy = (ground arith, ground arith)

  read_table :
      (id : ℕ) (d : SagaDb J)
      → d.faults ≡ []
      → let d' = (get_saga json id d).0 in (d'.sagas ≡ d.sagas) × (d'.faults ≡ [])
  unfolding get_saga
  read_table id d healthy = (ground arith, ground arith)

  -- A saga with a new identifier that SaveSaga stores is what GetSaga reads back, while no statement
  -- fails and where its steps and its context come back from JSON as they were.
  pub get_saga-save_saga :
      (s : Saga E) (d : SagaDb J)
      → d.faults ≡ []
      → find_row s.id d.sagas ≡ none
      → json.unmarshal_steps (json.marshal_steps s.steps) ≡ s.steps
      → json.unmarshal_context (json.marshal_context s.context) ≡ s.context
      → (get_saga json s.id (save_saga json s d).0).1 ≡ some s
  get_saga-save_saga s d healthy new steps context =
      let (rows, healthy') = saved_table s d healthy in
      let row = find_row-upsert_row_new (to_row json s) d.sagas new in
      get_saga_found s.id (to_row json s) (save_saga json s d).0 healthy' (rw rows row)
      ∙ ap₂ (λ (ss : List (SagaStep E)) (m : Metadata). some (record s { steps = ss; context = m }))
          steps context

  update_row_read :
      (id step : ℕ) (status : StepStatus) (output : Option Metadata) (error : Option E)
      (row : SagaRow J) (d : SagaDb J)
      → d.faults ≡ []
      → find_row id d.sagas ≡ some row
      → let s = from_row json row in
        let steps = write_status json step status output error s.steps in
        json.unmarshal_steps (json.marshal_steps steps) ≡ steps
        → json.unmarshal_context (json.marshal_context s.context) ≡ s.context
        → (get_saga json id (update_step_status json id step status output error d)).1
          ≡ some (record s { steps = steps })
  unfolding update_step_status
  update_row_read id step status output error row d healthy found kept context =
      let s = from_row json row in
      let s' = record s { steps = write_status json step status output error s.steps } in
      let (same, healthy') = read_table id d healthy in
      let d' = (get_saga json id d).0 in
      let (rows, healthy'') = saved_table s' d' healthy' in
      let own = find_row_id id row d.sagas found in
      let there : find_row row.id d'.sagas ≡ some row =
        subst (λ (n : ℕ). find_row n d'.sagas ≡ some row) (sym own)
          (ap (find_row id) same ∙ found) in
      let merged = find_row-upsert_row_old (to_row json s') row d'.sagas there in
      let stored =
        subst
          (λ (n : ℕ).
            find_row n (save_saga json s' d').0.sagas ≡ some (merge_row (to_row json s') row))
          own (ap (find_row row.id) rows ∙ merged) in
      rw (get_saga_found id row d healthy found, update_step_status)
        (get_saga_found id (merge_row (to_row json s') row) (save_saga json s' d').0 healthy''
            stored
          ∙ ap₂
              (λ (ss : List (SagaStep E)) (m : Metadata).
                some (record s { steps = ss; context = m }))
              kept context)

  -- After UpdateStepStatus GetSaga reads the saga as it was, but with the status, and the output and
  -- the error where they are given, in the first step with the identifier, while no statement fails
  -- and where the new steps and the context come back from JSON as they were.
  pub get_saga-update_step_status :
      (id step : ℕ) (status : StepStatus) (output : Option Metadata) (error : Option E) (s : Saga E)
      (d : SagaDb J)
      → d.faults ≡ []
      → (get_saga json id d).1 ≡ some s
      → let steps = write_status json step status output error s.steps in
        json.unmarshal_steps (json.marshal_steps steps) ≡ steps
        → json.unmarshal_context (json.marshal_context s.context) ≡ s.context
        → (get_saga json id (update_step_status json id step status output error d)).1
          ≡ some (record s { steps = steps })
  get_saga-update_step_status id step status output error s d healthy read kept context =
      let (row, found, same) = get_saga_row id s d healthy read in
      subst
        (λ (s : Saga E).
          let steps = write_status json step status output error s.steps in
          json.unmarshal_steps (json.marshal_steps steps) ≡ steps
          → json.unmarshal_context (json.marshal_context s.context) ≡ s.context
          → (get_saga json id (update_step_status json id step status output error d)).1
            ≡ some (record s { steps = steps }))
        same (update_row_read id step status output error row d healthy found) kept context
