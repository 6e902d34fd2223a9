-- ===== src/Recovery/Substring.antt =====
-- pkg/eventstore/error_handling.go: contains and containsSubstring, on the bytes of the texts.
use draftea_payment.Prelude.{
  ℕ, zero, suc, ◌+◌, ◌-◌, ◌≤◌, ◌<◌, ◌≡◌, ◌↔◌, refl, sym, ap, ◌∙◌, Bool, true, false, ◌&&◌, ◌||◌,
  List, [], ◌∷◌, ◌++◌, arith, if◌then◌else◌, length, length-append, take, drop, leb, ltb, ◌==◌,
  Bool-cases, inl, inr, take-append-drop, ==_iff, take_all,
}
use mathlib.Core.List.{append-nil}

abbrev pub Text : Type 0
Text = List ℕ

-- Go's `==` on strings.
unfoldable pub text_eq : Text → Text → Bool
text_eq [] [] = true
text_eq [] (c ∷ t) = false
text_eq (c ∷ s) [] = false
text_eq (c ∷ s) (c' ∷ t) = (c == c') && text_eq s t

-- `s[i:i+n]`
abbrev pub slice : ℕ → ℕ → Text → Text
slice i n s = take n (drop i s)

-- The loop of containsSubstring from index `i` on, with so many rounds left.
unfoldable pub contains_from : ℕ → ℕ → Text → Text → Bool
contains_from zero i s substr = false
contains_from (suc rounds) i s substr =
    let later = contains_from rounds (suc i) s substr in
    if text_eq (slice i (length substr) s) substr then true else later

-- containsSubstring: the rounds are those with `i <= len(s)-len(substr)`.
unfoldable pub contains_substring : Text → Text → Bool
contains_substring s substr = contains_from (suc (length s) - length substr) 0 s substr

unfoldable pub contains : Text → Text → Bool
contains s substr =
    leb (length substr) (length s)
    && (text_eq s substr
        || (ltb (length substr) (length s)
            && (text_eq (take (length substr) s) substr
                || (text_eq (drop (length s - length substr) s) substr
                    || contains_substring s substr))))

pub text_eq_iff : (s t : Text) → (text_eq s t ≡ true) ↔ (s ≡ t)
unfolding text_eq
text_eq_iff [] [] = (λ h. refl, λ h. refl)
text_eq_iff [] (c ∷ t) = ground arith
text_eq_iff (c ∷ s) [] = ground arith
text_eq_iff (c ∷ s) (c' ∷ t) =
    let ih = text_eq_iff s t in let same = ==_iff c c' in ground (arith, ih, same)

-- A text that is found at an index splits the other one there.
abbrev pub Occurs : Text → Text → Type 0
Occurs substr s = (before : Text) × (after : Text) × (s ≡ before ++ (substr ++ after))

drop-append : (xs ys : Text) → drop (length xs) (xs ++ ys) ≡ ys
drop-append [] ys = refl
drop-append (x ∷ xs) ys = drop-append xs ys

take-append : (xs ys : Text) → take (length xs) (xs ++ ys) ≡ xs
take-append [] ys = refl
take-append (x ∷ xs) ys = ap (λ l. x ∷ l) (take-append xs ys)

slice-Occurs :
    (i : ℕ) (substr s : Text) → text_eq (slice i (length substr) s) substr ≡ true → Occurs substr s
slice-Occurs i substr s h =
    let n = length substr in
    let same = (text_eq_iff (slice i n s) substr).0 h in
    (
      take i s,
      drop n (drop i s),
      sym (take-append-drop i s)
          ∙ ap (λ l. take i s ++ l)
              (sym (take-append-drop n (drop i s)) ∙ ap (λ l. l ++ drop n (drop i s)) same),
    )

contains_from-Occurs :
    (rounds i : ℕ) (s substr : Text) → contains_from rounds i s substr ≡ true → Occurs substr s
unfolding contains_from
contains_from-Occurs zero i s substr h = absurd (cc h)
contains_from-Occurs (suc rounds) i s substr h =
    elim (Bool-cases (text_eq (slice i (length substr) s) substr)) [
      | inl found ↦ slice-Occurs i substr s found
      | inr other ↦ contains_from-Occurs rounds (suc i) s substr (ground arith)
    ]

contains_from-found :
    (rounds i j : ℕ) (s substr : Text)
    → i ≤ j
    → j < i + rounds
    → text_eq (slice j (length substr) s) substr ≡ true
    → contains_from rounds i s substr ≡ true
unfolding contains_from
contains_from-found zero i j s substr h k found = absurd (omega arith)
contains_from-found (suc rounds) i j s substr h k found = elim (Bool-cases (i == j)) [
  | inl here ↦ let same = (==_iff i j).0 here in rw (same, found) refl
  | inr later ↦
      let rest = contains_from-found rounds (suc i) j s substr (ground arith) (omega arith) found in
      ground arith
]

slice_found :
    (s before after substr : Text)
    → s ≡ before ++ (substr ++ after)
    → slice (length before) (length substr) s ≡ substr
slice_found s before after substr h =
    ap (slice (length before) (length substr)) h
    ∙ ap (take (length substr)) (drop-append before (substr ++ after))
    ∙ take-append substr after

contains_substring-Occurs :
    (s before after substr : Text)
    → s ≡ before ++ (substr ++ after)
    → contains_substring s substr ≡ true
unfolding contains_substring
contains_substring-Occurs s before after substr h =
    let count : length s ≡ length before + (length substr + length after) =
      ap length h
      ∙ length-append before (substr ++ after)
      ∙ ap (λ n. length before + n) (length-append substr after) in
    contains_from-found _ 0 (length before) s substr (omega arith) (omega arith)
      ((text_eq_iff _ substr).1 (slice_found s before after substr h))

contains-Occurs : (s substr : Text) → contains s substr ≡ true → Occurs substr s
unfolding contains contains_substring
contains-Occurs s substr h = elim (Bool-cases (text_eq s substr)) [
  | inl same ↦ ([], [], (text_eq_iff s substr).0 same ∙ sym (append-nil substr))
  | inr other ↦ elim (Bool-cases (text_eq (take (length substr) s) substr)) [
    | inl first ↦ slice-Occurs 0 substr s first
    | inr not_first ↦ elim (Bool-cases (text_eq (drop (length s - length substr) s) substr)) [
      | inl last ↦ (
        take (length s - length substr) s,
        [],
        sym (take-append-drop (length s - length substr) s)
            ∙ ap (λ l. take (length s - length substr) s ++ l)
                ((text_eq_iff _ substr).0 last ∙ sym (append-nil substr)),
      )
      | inr not_last ↦
          contains_from-Occurs (suc (length s) - length substr) 0 s substr (ground arith)
    ]
  ]
]

-- What contains decides: the one text stands somewhere in the other.
pub contains_iff : (s substr : Text) → (contains s substr ≡ true) ↔ Occurs substr s
unfolding contains
contains_iff s substr = (
  λ h. contains-Occurs s substr h,
  λ (before, after, whole).
      let count : length s ≡ length before + (length substr + length after) =
        ap length whole
        ∙ length-append before (substr ++ after)
        ∙ ap (λ n. length before + n) (length-append substr after) in
      let found = contains_substring-Occurs s before after substr whole in
      elim (Bool-cases (ltb (length substr) (length s))) [
        | inl longer ↦ ground arith
        | inr as_long ↦
            let start : slice 0 (length substr) s ≡ substr =
              ap (λ k. slice k (length substr) s)
                (let none_before : 0 ≡ length before = ground arith in none_before)
              ∙ slice_found s before after substr whole in
            let same : s ≡ substr = sym (take_all (length substr) s (ground arith)) ∙ start in
            let equal = (text_eq_iff s substr).1 same in ground arith
      ],
)
