-- ===== src/Recovery/Compensated.antt =====
-- What compensation does: the order of its steps, and how a failing step ends.
use draftea_payment.Prelude.{
  ℕ, zero, suc, ◌≤◌, ◌<◌, ◌≡◌, refl, sym, ap, ◌∙◌, String, some, List, [], ◌∷◌, ◌++◌, arith, length,
  Bool-cases, inl, inr, str_eq, take, take_all, get_elem?,
}
use mathlib.Core.List.{append-nil, append_assoc}
use draftea_payment.Recovery.Compensation.{
  SagaView, CompensationStep, add_compensation, build_below, build_compensation_steps,
}

-- Undoing in the reverse order: what came first is undone last.
abbrev pub undo : List String → List CompensationStep
undo [] = []
undo (c ∷ cs) = undo cs ++ add_compensation c []

add_compensation_lem :
    (c : String) (steps : List CompensationStep)
    → add_compensation c steps ≡ steps ++ add_compensation c []
unfolding add_compensation
add_compensation_lem c steps = elim (Bool-cases (str_eq c "funds_deducted")) [
  | inl deducted ↦ rw deducted refl
  | inr other ↦ elim (Bool-cases (str_eq c "external_processing")) [
    | inl processed ↦ rw (other, processed) refl
    | inr neither ↦ rw (other, neither) (sym (append-nil steps))
  ]
]

undo_snoc : (cs : List String) (c : String) → undo (cs ++ c ∷ []) ≡ add_compensation c [] ++ undo cs
undo_snoc [] c = sym (append-nil (add_compensation c []))
undo_snoc (x ∷ cs) c =
    ap (λ l. l ++ add_compensation x []) (undo_snoc cs c)
    ∙ append_assoc (add_compensation c []) (undo cs) (add_compensation x [])

take_next :
    (i : ℕ) (cs : List String)
    → i < length cs
    → (c : String) × (get_elem? cs i ≡ some c) × (take (suc i) cs ≡ take i cs ++ c ∷ [])
take_next i [] h = absurd (omega arith)
take_next zero (c ∷ cs) h = (c, refl, refl)
take_next (suc i) (x ∷ cs) h =
    let (c, at, next) = take_next i cs (omega arith) in (c, at, ap (λ l. x ∷ l) next)

build_below_lem :
    (i : ℕ) (cs : List String) (steps : List CompensationStep)
    → i ≤ length cs
    → build_below i cs steps ≡ steps ++ undo (take i cs)
unfolding build_below
build_below_lem zero cs steps h = sym (append-nil steps)
build_below_lem (suc i) cs steps h =
    let (c, at, next) = take_next i cs (omega arith) in
    rw (at, build_below)
      (build_below_lem i cs (add_compensation c steps) (omega arith)
        ∙ ap (λ l. l ++ undo (take i cs)) (add_compensation_lem c steps)
        ∙ append_assoc steps (add_compensation c []) (undo (take i cs))
        ∙ ap (λ l. steps ++ l) (sym (undo_snoc (take i cs) c) ∙ ap undo (sym next)))

-- buildCompensationSteps plans the undoing of every completed step that can be undone, the last one
-- first.
pub build_compensation_steps_lem :
    (saga : SagaView) → build_compensation_steps saga ≡ undo saga.completed_steps
unfolding build_compensation_steps
build_compensation_steps_lem saga =
    build_below_lem (length saga.completed_steps) saga.completed_steps [] (omega arith)
    ∙ ap undo (take_all (length saga.completed_steps) saga.completed_steps (omega arith))
