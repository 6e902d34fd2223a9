-- ===== src/Prelude/Maps.antt =====
-- A Go map with string keys, as an association list. A missing key is `none`.
use Prim.Native.String.{String}
use text.Mathlib.TextEquality.{eq_iff}
use text.Mathlib.TextPositions.{eq_refl}
use mathlib.Core.Path.{◌≡◌, refl, ◌∙◌}
use mathlib.Core.List.{List, [], ◌∷◌}
use mathlib.Core.Option.{Option, none, some}
use native.Mathlib.Omega.{arith}
use draftea_payment.Prelude.Tests.{str_eq, if◌then◌else◌}

abbrev pub Dict {ℓ} : Type ℓ → Type ℓ
Dict V = List (String × V)

module _ {ℓ} {V : Type ℓ} where
  unfoldable pub lookup : String → Dict V → Option V
  lookup key [] = none
  lookup key (entry ∷ rest) = if str_eq entry.0 key then some entry.1 else lookup key rest

  unfoldable pub insert : String → V → Dict V → Dict V
  insert key value [] = (key, value) ∷ []
  insert key value (entry ∷ rest) =
      let later = insert key value rest in
      if str_eq entry.0 key then (key, value) ∷ rest else entry ∷ later

  -- Go's `m[k]`, with the zero value of the type for a missing key.
  unfoldable pub lookup_or : V → String → Dict V → V
  unfolding lookup
  lookup_or zero_value key dict = elim (lookup key dict) [ none ↦ zero_value | some v ↦ v ]

  pub lookup-insert :
      (key key' : String) (value : V) (dict : Dict V)
      → lookup key' (insert key value dict)
        ≡ (if str_eq key key' then some value else lookup key' dict)
  unfolding lookup insert
  lookup-insert key key' value [] = refl
  lookup-insert key key' value ((found, old) ∷ rest) =
      let ih = lookup-insert key key' value rest in
      ground (eq_iff key key', eq_iff found key, eq_iff found key', arith)

  pub lookup-insert_self :
      (key : String) (value : V) (dict : Dict V) → lookup key (insert key value dict) ≡ some value
  lookup-insert_self key value dict = lookup-insert key key value dict ∙ rw (eq_refl key) refl

  pub lookup_or-insert :
      (d : V) (k j : String) (v : V) (m : Dict V)
      → lookup_or d j (insert k v m) ≡ (if str_eq k j then v else lookup_or d j m)
  unfolding lookup_or
  lookup_or-insert d k j v m = ground (arith, lookup-insert k j v m)
