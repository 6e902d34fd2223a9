-- ===== src/Saga/Sql.antt =====
-- pkg/database/repositories.go: SagaRepository, with the table `sagas`. The columns steps and
-- context are JSON: the encoder and the decoder are parameters, and a decoding that fails leaves
-- what the decoder gives. `faults` says of the statements to come which of them PostgreSQL cannot
-- execute.
use draftea_payment.Prelude.{
  ℕ, String, ◌+◌, map, Bool, true, false, Option, none, some, List, [], ◌∷◌, if◌then◌else◌, ◌==◌,
  keep, ltb,
}
use draftea_payment.Events.Types.{Metadata}
use draftea_payment.Saga.Model.{SagaState, StepStatus, SagaStep, Saga, Repository}

-- encoding/json on the steps and on the context, with texts of type `J`.
pub record Json (E J : Type 0) : Type 0 where
  pub marshal_steps : List (SagaStep E) → J
  pub unmarshal_steps : J → List (SagaStep E)
  pub marshal_context : Metadata → J
  pub unmarshal_context : J → Metadata

-- A row of the table.
pub record SagaRow (J : Type 0) : Type 0 where
  pub id : ℕ
  pub saga_type : String
  pub state : SagaState
  pub steps : J
  pub current_step : ℕ
  pub context : J
  pub created_at : ℕ
  pub updated_at : ℕ
  pub completed_at : Option ℕ
  pub correlation_id : ℕ
  pub user_id : ℕ

-- `clock` is the time of the next statement that reads the clock.
pub record SagaDb (J : Type 0) : Type 0 where
  pub sagas : List (SagaRow J)
  pub clock : ℕ
  pub faults : List Bool

-- The next statement: whether it fails, and the database after it.
abbrev pub statement : {J : Type 0} → SagaDb J → Bool × SagaDb J
statement d = elim d.faults [
  | [] ↦ (false, record d { clock = d.clock + 1 })
  | b ∷ bs ↦ (b, record d { clock = d.clock + 1; faults = bs })
]

-- WHERE state IN ('started', 'in_progress', 'failed')
abbrev is_pending : SagaState → Bool
is_pending SagaState.started = true
is_pending SagaState.in_progress = true
is_pending SagaState.failed = true
is_pending _ = false

module _ {J : Type 0} where
  -- WHERE id = $1
  unfoldable pub find_row : ℕ → List (SagaRow J) → Option (SagaRow J)
  find_row id [] = none
  find_row id (r ∷ rs) = if r.id == id then some r else find_row id rs

  -- UPDATE sagas SET … WHERE id = $3
  unfoldable pub update_row : ℕ → (SagaRow J → SagaRow J) → List (SagaRow J) → List (SagaRow J)
  update_row id f [] = []
  update_row id f (r ∷ rs) = (if r.id == id then f r else r) ∷ update_row id f rs

  -- INSERT … ON CONFLICT (id) DO UPDATE SET: six columns of the new row take the place of the old.
  abbrev pub merge_row : SagaRow J → SagaRow J → SagaRow J
  merge_row new old = record old {
    state = new.state;
    steps = new.steps;
    current_step = new.current_step;
    context = new.context;
    updated_at = new.updated_at;
    completed_at = new.completed_at;
  }

  unfoldable pub upsert_row : SagaRow J → List (SagaRow J) → List (SagaRow J)
  upsert_row new [] = new ∷ []
  upsert_row new (r ∷ rs) =
      let rest = upsert_row new rs in if r.id == new.id then merge_row new r ∷ rs else r ∷ rest

  -- ORDER BY created_at ASC
  abbrev insert_oldest_first : SagaRow J → List (SagaRow J) → List (SagaRow J)
  insert_oldest_first r [] = r ∷ []
  insert_oldest_first r (q ∷ qs) =
      if ltb q.created_at r.created_at then q ∷ insert_oldest_first r qs else r ∷ q ∷ qs

  abbrev oldest_first : List (SagaRow J) → List (SagaRow J)
  oldest_first [] = []
  oldest_first (r ∷ rs) = insert_oldest_first r (oldest_first rs)

module _ {E J : Type 0} (json : Json E J) where
  abbrev pub to_row : Saga E → SagaRow J
  to_row s = record {
    id = s.id;
    saga_type = s.saga_type;
    state = s.state;
    steps = json.marshal_steps s.steps;
    current_step = s.current_step;
    context = json.marshal_context s.context;
    created_at = s.created_at;
    updated_at = s.updated_at;
    completed_at = s.completed_at;
    correlation_id = s.correlation_id;
    user_id = s.user_id;
  }

  abbrev pub from_row : SagaRow J → Saga E
  from_row r = record {
    id = r.id;
    saga_type = r.saga_type;
    state = r.state;
    steps = json.unmarshal_steps r.steps;
    current_step = r.current_step;
    context = json.unmarshal_context r.context;
    created_at = r.created_at;
    updated_at = r.updated_at;
    completed_at = r.completed_at;
    correlation_id = r.correlation_id;
    user_id = r.user_id;
  }

  -- SaveSaga
  unfoldable pub save_saga : Saga E → SagaDb J → SagaDb J × Bool
  save_saga s d =
      let (fault, d') = statement d in
      if fault then (d', false) else (record d' { sagas = upsert_row (to_row s) d.sagas }, true)

  -- GetSaga
  unfoldable pub get_saga : ℕ → SagaDb J → SagaDb J × Option (Saga E)
  get_saga id d =
      let (fault, d') = statement d in
      if fault
      then (d', none)
      else elim (find_row id d.sagas) [ none ↦ (d', none) | some r ↦ (d', some (from_row r)) ]

  -- UpdateSagaState
  unfoldable pub update_saga_state : ℕ → SagaState → SagaDb J → SagaDb J
  update_saga_state id state d =
      let (fault, d') = statement d in
      let written =
        update_row id (λ (r : SagaRow J). record r { state = state; updated_at = d.clock })
          d.sagas in
      if fault then d' else record d' { sagas = written }

  -- The loop of UpdateStepStatus: the first step with the identifier. A nil output and an empty
  -- error, which are `none`, leave what is there.
  unfoldable pub write_status :
      ℕ → StepStatus → Option Metadata → Option E → List (SagaStep E) → List (SagaStep E)
  write_status step status output error [] = []
  write_status step status output error (s ∷ ss) =
      let written = record s {
        status = status;
        output = elim output [ none ↦ s.output | some o ↦ some o ];
        error = elim error [ none ↦ s.error | some x ↦ some x ];
      } in
      if s.id == step then written ∷ ss else s ∷ write_status step status output error ss

  -- UpdateStepStatus: the saga is read, changed and saved again.
  unfoldable pub update_step_status :
      ℕ → ℕ → StepStatus → Option Metadata → Option E → SagaDb J → SagaDb J
  update_step_status id step status output error d =
      let (d', found) = get_saga id d in
      elim found [
        | none ↦ d'
        | some s ↦
            (save_saga (record s { steps = write_status step status output error s.steps }) d').0
      ]

  -- GetPendingSagas
  unfoldable pub get_pending_sagas : SagaDb J → SagaDb J × Option (List (Saga E))
  get_pending_sagas d =
      let (fault, d') = statement d in
      if fault
      then (d', none)
      else (d', some (map from_row (oldest_first (keep (λ r. is_pending r.state) d.sagas))))

  abbrev pub sql : Repository E (SagaDb J)
  sql = record {
    save_saga = save_saga;
    get_saga = get_saga;
    update_saga_state = update_saga_state;
    update_step_status = update_step_status;
    get_pending_sagas = get_pending_sagas;
  }
