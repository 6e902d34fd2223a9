-- ===== src/Concurrency/OneLock.antt =====
-- pkg/eventstore/concurrency_control.go, getLock: one lock for each user, however its calls
-- interleave.
use draftea_payment.Prelude.{
  ℕ, zero, suc, ◌<◌, ◌≡◌, ◌↔◌, ◌⊎◌, refl, sym, ap, ◌∙◌, String, none, some, List, [], ◌∷◌, ◌++◌,
  arith, get_elem?, set, All, Dict, lookup, insert, lookup-insert, lookup-insert_self, str_eq,
  eq_iff, Bool-cases, Option-cases, inl, inr, some-injective, subst,
}
use draftea_payment.Concurrency.LockTable.{
  Progress, returned, GetLock, LockTable, new_user_lock_manager, find_lock, make_lock, after_call,
  LockStep, starts, looks, makes, LockSteps, idle, then,
}

-- A call that returned has the lock that the table has for its user.
abbrev IsHeld : Dict ℕ → GetLock → Type 0
IsHeld locks c = (lock : ℕ) → c.progress ≡ returned lock → lookup c.user_id locks ≡ some lock

record IsSound (t : LockTable) : Type 0 where
  held : All (IsHeld t.locks) t.calls
  older : (user : String) (lock : ℕ) → lookup user t.locks ≡ some lock → lock < t.next_lock
  apart :
      (user user' : String) (lock : ℕ)
      → lookup user t.locks ≡ some lock
      → lookup user' t.locks ≡ some lock
      → user ≡ user'

All-snoc :
    {A : Type 0} (P : A → Type 0) (xs : List A) (x : A) → All P xs → P x → All P (xs ++ x ∷ [])
All-snoc P [] x h k = (k, tt)
All-snoc P (y ∷ ys) x h k = (h.0, All-snoc P ys x h.1 k)

All-set :
    {A : Type 0} (P : A → Type 0) (xs : List A) (i : ℕ) (x : A)
    → All P xs
    → P x
    → All P (set xs i x)
All-set P [] i x h k = tt
All-set P (y ∷ ys) zero x h k = (k, h.1)
All-set P (y ∷ ys) (suc i) x h k = (h.0, All-set P ys i x h.1 k)

All-map :
    {A : Type 0} (P Q : A → Type 0) (xs : List A) → ((x : A) → P x → Q x) → All P xs → All Q xs
All-map P Q [] f h = tt
All-map P Q (y ∷ ys) f h = (f y h.0, All-map P Q ys f h.1)

All-get_elem? :
    {A : Type 0} (P : A → Type 0) (xs : List A) (i : ℕ) (x : A)
    → All P xs
    → get_elem? xs i ≡ some x
    → P x
All-get_elem? P [] i x h k = absurd (cc k)
All-get_elem? P (y ∷ ys) zero x h k = subst P (some-injective k) h.0
All-get_elem? P (y ∷ ys) (suc i) x h k = All-get_elem? P ys i x h.1 k

returned-injective : {m n : ℕ} → returned m ≡ returned n → m ≡ n
returned-injective h = cc h

find_lock_lem :
    (user : String) (t : LockTable) (lock : ℕ)
    → find_lock user t ≡ returned lock
    → lookup user t.locks ≡ some lock
unfolding find_lock
find_lock_lem user t lock h = elim (Option-cases (lookup user t.locks)) [
  | inl missing ↦ absurd (cc (rw (missing, find_lock) at h))
  | inr (found, there) ↦ there ∙ ap some (returned-injective (rw (there, find_lock) at h))
]

lookup-insert_new :
    (user other : String) (n lock : ℕ) (locks : Dict ℕ)
    → lookup user locks ≡ none
    → lookup other locks ≡ some lock
    → lookup other (insert user n locks) ≡ some lock
lookup-insert_new user other n lock locks missing there = elim (Bool-cases (str_eq user other)) [
  | inl same ↦
      let e = (eq_iff user other).0 same in
      absurd (cc (sym missing ∙ ap (λ u. lookup u locks) e ∙ there))
  | inr apart ↦ lookup-insert user other n locks ∙ rw apart there
]

lookup-insert_cases :
    (user other : String) (n lock : ℕ) (locks : Dict ℕ)
    → lookup other (insert user n locks) ≡ some lock
    → ((user ≡ other) × (n ≡ lock)) ⊎ (lookup other locks ≡ some lock)
lookup-insert_cases user other n lock locks there =
    let entry = lookup-insert user other n locks in
    elim (Bool-cases (str_eq user other)) [
      | inl same ↦ inl ((eq_iff user other).0 same, some-injective (sym (rw same at entry) ∙ there))
      | inr apart ↦ inr (sym (rw apart at entry) ∙ there)
    ]

make_lock-IsSound :
    (user : String) (t : LockTable)
    → IsSound t
    → IsSound (make_lock user t).0
      × (lookup user (make_lock user t).0.locks ≡ some (make_lock user t).1)
unfolding make_lock
make_lock-IsSound user t c = elim (Option-cases (lookup user t.locks)) [
  | inr (found, there) ↦ rw (there, make_lock) (c, there)
  | inl missing ↦
      let locks' = insert user t.next_lock t.locks in
      rw (missing, make_lock)
        (
          record {
            held =
                All-map (IsHeld t.locks) (IsHeld locks') t.calls
                  (λ call own lock at.
                    lookup-insert_new user call.user_id t.next_lock lock t.locks missing
                      (own lock at))
                  c.held;
            older = λ other lock at.
                elim (lookup-insert_cases user other t.next_lock lock t.locks at) [
                  | inl (_, new) ↦ omega arith
                  | inr old ↦ omega (arith, c.older other lock old)
                ];
            apart = λ other other' lock at at'.
                elim (lookup-insert_cases user other t.next_lock lock t.locks at) [
                  | inl (mine, new) ↦
                      elim (lookup-insert_cases user other' t.next_lock lock t.locks at') [
                        | inl (mine', _) ↦ sym mine ∙ mine'
                        | inr old' ↦ absurd (omega (arith, c.older other' lock old'))
                      ]
                  | inr old ↦ elim (lookup-insert_cases user other' t.next_lock lock t.locks at') [
                    | inl (_, new) ↦ absurd (omega (arith, c.older other lock old))
                    | inr old' ↦ c.apart other other' lock old old'
                  ]
                ];
          },
          lookup-insert_self user t.next_lock t.locks,
        )
]

calls-make_lock : (user : String) (t : LockTable) → (make_lock user t).0.calls ≡ t.calls
unfolding make_lock
calls-make_lock user t = ground arith

after_call-IsSound :
    (i : ℕ) (user : String) (p : Progress) (t : LockTable)
    → IsSound t
    → ((lock : ℕ) → p ≡ returned lock → lookup user t.locks ≡ some lock)
    → IsSound (after_call i user p t)
after_call-IsSound i user p t c h = record {
  held = All-set (IsHeld t.locks) t.calls i (record { user_id = user; progress = p }) c.held h;
  older = c.older;
  apart = c.apart;
}

LockStep-IsSound : (t u : LockTable) → LockStep t u → IsSound t → IsSound u
LockStep-IsSound _ _ (starts t user) c = record {
  held = All-snoc (IsHeld t.locks) t.calls _ c.held (λ lock h. absurd (cc h));
  older = c.older;
  apart = c.apart;
}
LockStep-IsSound _ _ (looks t i user at) c =
    after_call-IsSound i user (find_lock user t) t c (find_lock_lem user t)
LockStep-IsSound _ _ (makes t i user at) c =
    let (kept, there) = make_lock-IsSound user t c in
    after_call-IsSound i user _ _ kept (λ lock h. there ∙ ap some (returned-injective h))

LockSteps-IsSound : (t u : LockTable) → LockSteps t u → IsSound t → IsSound u
LockSteps-IsSound _ _ (idle t) c = c
LockSteps-IsSound _ _ (then t u v before step) c =
    LockStep-IsSound u v step (LockSteps-IsSound t u before c)

new_user_lock_manager-IsSound : IsSound new_user_lock_manager
unfolding lookup
new_user_lock_manager-IsSound = record {
  held = tt;
  older = λ user lock h. absurd (cc h);
  apart = λ user user' lock h h'. absurd (cc h);
}

-- However the steps of the calls of getLock interleave, from a new manager on: two calls that have
-- returned have the same lock exactly if they are for the same user.
pub get_lock_unique :
    (t : LockTable) (i j : ℕ) (user user' : String) (lock lock' : ℕ)
    → LockSteps new_user_lock_manager t
    → get_elem? t.calls i ≡ some (record { user_id = user; progress = returned lock })
    → get_elem? t.calls j ≡ some (record { user_id = user'; progress = returned lock' })
    → (user ≡ user') ↔ (lock ≡ lock')
get_lock_unique t i j user user' lock lock' steps at at' =
    let c = LockSteps-IsSound new_user_lock_manager t steps new_user_lock_manager-IsSound in
    let own = All-get_elem? (IsHeld t.locks) t.calls i _ c.held at lock refl in
    let own' = All-get_elem? (IsHeld t.locks) t.calls j _ c.held at' lock' refl in
    (
      λ e. some-injective (sym own ∙ ap (λ u. lookup u t.locks) e ∙ own'),
      λ e. c.apart user user' lock own (own' ∙ ap some (sym e)),
    )
