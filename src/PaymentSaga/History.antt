-- ===== src/PaymentSaga/History.antt =====
-- A saga's history: what its operations leave in the event store.
use Prim.Native.String.{◌++◌ as text_append}
use draftea_payment.Prelude.{
  ℕ, ◌≡◌, ◌≢◌, ◌⊎◌, refl, sym, ap, ◌∙◌, String, Option, none, some, List, [], ◌∷◌, ◌++◌, map,
  Result, ok, err, CtxError, eq_refl, Option-cases, some-injective, inl, inr,
}
use mathlib.Core.List.{append_assoc, append-nil}
use draftea_payment.EventStore.Event.{Event, new_event}
use draftea_payment.EventStore.Memory.{
  Store, append_event, commit_event, stamp, record_event, notify_subscribers,
}
use draftea_payment.EventStore.Log.{of_aggregate, of_aggregate_snoc}
use draftea_payment.EventStore.Append.{append_event_outcome, append_event_error}
use draftea_payment.PaymentSaga.Operations.{
  saga_started, step_added, step_completed, step_compensated, step_failed, saga_completed,
  saga_failed, SagaCall, SagaError, SagaEvent, PaymentSaga, append_saga_event, start_payment_saga,
  add_step, complete_step, fail_step, compensate_step, complete_saga, fail_saga,
}

-- An operation on the saga, with its arguments.
pub data Operation (V : Type 0) : Type 0 where
  starts : String → String → Operation V
  adds : String → String → V → Operation V
  completes compensates : String → Operation V
  fails : String → String → Operation V
  finishes : Operation V
  gives_up : String → Operation V

-- The type of the event that stands for it.
abbrev pub kind_of : {V : Type 0} → Operation V → String
kind_of (starts payment user) = "SagaStarted"
kind_of (adds step name v) = "StepAdded"
kind_of (completes step) = "StepCompleted"
kind_of (compensates step) = "StepCompensated"
kind_of (fails step message) = "StepFailed"
kind_of finishes = "SagaCompleted"
kind_of (gives_up message) = "SagaFailed"

-- The data of that event, before its encoding.
abbrev pub data_of : {V : Type 0} → ℕ → Operation V → SagaEvent V
data_of now (starts payment user) = saga_started payment user
data_of now (adds step name v) = step_added step name v "pending" now
data_of now (completes step) = step_completed step now
data_of now (compensates step) = step_compensated step now
data_of now (fails step message) = step_failed step now message
data_of now finishes = saga_completed now
data_of now (gives_up message) = saga_failed now message

-- What the event of an operation shows, under the inputs of its call: its type and its encoded data.
abbrev pub entry_of : {D V : Type 0} → String → SagaCall D V × Operation V → String × Option D
entry_of id (c, op) = (kind_of op, c.encode id (data_of c.now op))

abbrev error_of : Result SagaError PaymentSaga → Option SagaError
error_of (ok saga) = none
error_of (err x) = some x

-- What the log shows of an event: its type and its data.
abbrev pub entry : {D : Type 0} → Event D → String × Option D
entry e = (e.event_type, some e.event_data)

map_snoc :
    {A B : Type 0} (f : A → B) (xs : List A) (x : A) → map f (xs ++ x ∷ []) ≡ map f xs ++ f x ∷ []
map_snoc f [] x = refl
map_snoc f (y ∷ xs) x = ap (λ l. f y ∷ l) (map_snoc f xs x)

module _ {D : Type 0} where
  -- The types of an aggregate's events and their data, in the order of the log.
  abbrev pub entries : String → Store D → List (String × Option D)
  entries id s = map entry (of_aggregate id s.events)

  entries-append_event :
      (ctx : Option CtxError) (now : ℕ) (e : Event D) (s : Store D)
      → (append_event ctx now e s).2 ≡ none
      → entries e.aggregate_id (append_event ctx now e s).0
        ≡ entries e.aggregate_id s ++ entry e ∷ []
  entries-append_event (some x) now e s h = absurd (unfold append_event in cc h)
  entries-append_event none now e s h = elim (append_event_outcome now e s) [
    | inl (x, refused) ↦ absurd (cc (h, ap (λ r. r.2) refused))
    | inr stored ↦
        let own = eq_refl e.aggregate_id in
        rw stored (
          unfold commit_event stamp record_event notify_subscribers in
          (rw (of_aggregate_snoc e.aggregate_id s.events _, own)
            (map_snoc entry (of_aggregate e.aggregate_id s.events) _)))
  ]

-- What an operation that succeeds adds to the saga's history, and one that fails does not.
abbrev pub IsRecorded :
    {D : Type 0} → String → String × Option D → Store D → Store D × Option SagaError → Type 0
IsRecorded id new s r =
    ((r.1 ≡ none) × (entries id r.0 ≡ entries id s ++ new ∷ [])) ⊎ ((r.1 ≢ none) × (r.0 ≡ s))

new_event_fields :
    {D : Type 0} (uuid : String) (now : ℕ) (d m : Option D) (agg agg_type kind by corr : String)
    (e : Event D)
    → new_event uuid now d m agg agg_type kind by corr ≡ some e
    → (e.aggregate_id ≡ agg) × (entry e ≡ (kind, d))
unfolding new_event
new_event_fields uuid now none m agg agg_type kind by corr e h = absurd (cc h)
new_event_fields uuid now (some d) none agg agg_type kind by corr e h = absurd (cc h)
new_event_fields uuid now (some d) (some m) agg agg_type kind by corr e h =
    let same = some-injective h in (sym (ap (λ v. v.aggregate_id) same), sym (ap entry same))

module _ {D V : Type 0} where
  unfoldable pub perform :
      String → SagaCall D V → Operation V → Store D → Store D × Option SagaError
  perform id c (starts payment user) s =
      let (s', r) = start_payment_saga c id payment user s in (s', error_of r)
  perform id c (adds step name v) s = add_step c id step name v s
  perform id c (completes step) s = complete_step c id step s
  perform id c (compensates step) s = compensate_step c id step s
  perform id c (fails step message) s = fail_step c id step message s
  perform id c finishes s = complete_saga c id s
  perform id c (gives_up message) s = fail_saga c id message s

  append_saga_event-IsRecorded :
      (c : SagaCall D V) (id kind : String) (d : SagaEvent V) (by : String) (s : Store D)
      → IsRecorded id (kind, c.encode id d) s (append_saga_event c id kind d by s)
  unfolding append_saga_event
  append_saga_event-IsRecorded c id kind d by s =
      let made =
        new_event c.event_id c.now (c.encode id d) c.event_metadata id "PaymentSaga" kind by
          (text_append "saga-" id) in
      elim (Option-cases made) [
        | inl unmade ↦ inr (
          rw (unmade, append_saga_event) (λ h. absurd (cc h)),
          rw (unmade, append_saga_event) refl,
        )
        | inr (e, done) ↦
            let (same_id, same_kind) =
              new_event_fields c.event_id c.now (c.encode id d) c.event_metadata id "PaymentSaga"
                kind by (text_append "saga-" id) e done in
            elim (Option-cases (append_event c.ctx c.now e s).2) [
              | inr (x, refused) ↦ inr (
                rw (done, append_saga_event, refused, append_saga_event) (λ h. absurd (cc h)),
                rw (done, append_saga_event) (append_event_error c.ctx c.now e s refused).0,
              )
              | inl stored ↦ inl (
                rw (done, append_saga_event, stored, append_saga_event) refl,
                rw (done, append_saga_event)
                    (ap (λ i. entries i (append_event c.ctx c.now e s).0) (sym same_id)
                      ∙ entries-append_event c.ctx c.now e s stored
                      ∙ ap (λ i. entries i s ++ entry e ∷ []) same_id
                      ∙ ap (λ k. entries id s ++ k ∷ []) same_kind),
              )
            ]
      ]

  perform-IsRecorded :
      (id : String) (c : SagaCall D V) (op : Operation V) (s : Store D)
      → IsRecorded id (entry_of id (c, op)) s (perform id c op s)
  unfolding perform add_step complete_step fail_step compensate_step complete_saga fail_saga
      start_payment_saga
  perform-IsRecorded id c (starts payment user) s =
      let (s', r) = append_saga_event c id "SagaStarted" (saga_started payment user) user s in
      elim (append_saga_event-IsRecorded c id "SagaStarted" (saga_started payment user) user s) [
        | inl (fine, more) ↦ inl (rw (fine, perform, start_payment_saga) refl, more)
        | inr (failed, same) ↦ elim (Option-cases r) [
          | inl fine ↦ absurd (failed fine)
          | inr (x, broken) ↦
              inr (rw (broken, perform, start_payment_saga) (λ h. absurd (cc h)), same)
        ]
      ]
  perform-IsRecorded id c (adds step name v) s = append_saga_event-IsRecorded c id _ _ _ s
  perform-IsRecorded id c (completes step) s = append_saga_event-IsRecorded c id _ _ _ s
  perform-IsRecorded id c (compensates step) s = append_saga_event-IsRecorded c id _ _ _ s
  perform-IsRecorded id c (fails step message) s = append_saga_event-IsRecorded c id _ _ _ s
  perform-IsRecorded id c finishes s = append_saga_event-IsRecorded c id _ _ _ s
  perform-IsRecorded id c (gives_up message) s = append_saga_event-IsRecorded c id _ _ _ s

  -- Operations on a saga one after the other, with the list of those that succeeded
  -- and of the inputs of their calls.
  pub data Performed (id : String)
      : Store D → List (SagaCall D V × Operation V) → Store D → Type 0 where
    none_yet : (s : Store D) → Performed id s [] s
    succeeds :
        (s t : Store D) (ops : List (SagaCall D V × Operation V)) (c : SagaCall D V)
        (op : Operation V)
        → Performed id s ops t
        → (perform id c op t).1 ≡ none
        → Performed id s (ops ++ (c, op) ∷ []) (perform id c op t).0
    refused :
        (s t : Store D) (ops : List (SagaCall D V × Operation V)) (c : SagaCall D V)
        (op : Operation V)
        → Performed id s ops t
        → (perform id c op t).1 ≢ none
        → Performed id s ops (perform id c op t).0

  -- The events of a saga are the operations on it that succeeded, one for each and in their
  -- order: each has the type of its operation and, as its data, the encoding of the operation's
  -- arguments, of the status "pending" for a new step, and of the call's time, but for a start.
  -- An operation that failed has added none.
  pub entries-Performed :
      (id : String) (s t : Store D) (ops : List (SagaCall D V × Operation V))
      → Performed id s ops t
      → entries id t ≡ entries id s ++ map (entry_of id) ops
  entries-Performed id _ _ _ (none_yet s) = sym (append-nil (entries id s))
  entries-Performed id _ _ _ (succeeds s t ops c op before fine) =
      elim (perform-IsRecorded id c op t) [
        | inr (failed, same) ↦ absurd (failed fine)
        | inl (_, more) ↦
            more
            ∙ ap (λ l. l ++ entry_of id (c, op) ∷ []) (entries-Performed id s t ops before)
            ∙ append_assoc (entries id s) (map (entry_of id) ops) (entry_of id (c, op) ∷ [])
            ∙ ap (λ l. entries id s ++ l) (sym (map_snoc (entry_of id) ops (c, op)))
      ]
  entries-Performed id _ _ _ (refused s t ops c op before failed) =
      elim (perform-IsRecorded id c op t) [
        | inl (fine, _) ↦ absurd (failed fine)
        | inr (_, same) ↦ ap (entries id) same ∙ entries-Performed id s t ops before
      ]
