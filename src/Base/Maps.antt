-- ===== src/Base/Maps.antt =====
-- Go maps with string keys as association lists. The order of the list is the order in which a
-- `range` loop meets the entries; no theorem fixes it, so each holds for every order.
use Prim.Native.Nat.{suc}
use mathlib.Core.Path.{◌≡◌, refl}
use mathlib.Core.Option.{Option, none, some}
use mathlib.Core.List.{List, [], ◌∷◌}
use native.Mathlib.Omega.{arith}
use go_relay.Base.Tests.{if◌then◌else◌}
use go_relay.Base.Lists.{length}
use go_relay.Base.Strings.{Text, text_eq, text_eq_iff}

abbrev pub Table {ℓ} : Type ℓ → Type ℓ
Table V = List (Text × V)

module _ {ℓ} {V : Type ℓ} where
  -- m[k], `none` for a missing key.
  unfoldable pub lookup : Text → Table V → Option V
  lookup k [] = none
  lookup k ((j, v) ∷ m) = if text_eq j k then some v else lookup k m

  -- m[k] = v
  unfoldable pub insert : Text → V → Table V → Table V
  insert k v [] = (k, v) ∷ []
  insert k v ((j, w) ∷ m) = if text_eq j k then (j, v) ∷ m else (j, w) ∷ insert k v m

  -- delete(m, k)
  unfoldable pub erase : Text → Table V → Table V
  erase k [] = []
  erase k ((j, w) ∷ m) = let rest = erase k m in if text_eq j k then rest else (j, w) ∷ rest

  -- for k := range m
  unfoldable pub keys : Table V → List Text
  keys [] = []
  keys ((k, v) ∷ m) = k ∷ keys m

  pub lookup-insert :
      (k j : Text) (v : V) (m : Table V)
      → lookup j (insert k v m) ≡ (if text_eq k j then some v else lookup j m)
  unfolding lookup insert
  lookup-insert k j v [] = refl
  lookup-insert k j v ((i, w) ∷ m) =
      ground (arith, text_eq_iff k j, text_eq_iff i k, text_eq_iff i j, lookup-insert k j v m)

  pub lookup-erase :
      (k j : Text) (m : Table V) → lookup j (erase k m) ≡ (if text_eq k j then none else lookup j m)
  unfolding lookup erase
  lookup-erase k j [] = ground arith
  lookup-erase k j ((i, w) ∷ m) =
      ground (arith, text_eq_iff k j, text_eq_iff i k, text_eq_iff i j, lookup-erase k j m)

-- Every key stands once, as in a Go map.
abbrev pub IsTable {ℓ} : {V : Type ℓ} → Table V → Type ℓ
IsTable [] = Unit
IsTable ((k, v) ∷ m) = (lookup k m ≡ none) × IsTable m

module _ {ℓ} {V : Type ℓ} where
  pub insert-IsTable : (k : Text) (v : V) (m : Table V) → IsTable m → IsTable (insert k v m)
  unfolding insert
  insert-IsTable k v [] h = (unfold lookup in refl, tt)
  insert-IsTable k v ((j, w) ∷ m) h =
      ground
        (arith, lookup-insert k j v m, insert-IsTable k v m h.1, text_eq_iff j k, text_eq_iff k j)

  pub erase-IsTable : (k : Text) (m : Table V) → IsTable m → IsTable (erase k m)
  unfolding erase
  erase-IsTable k [] h = h
  erase-IsTable k ((j, w) ∷ m) h = ground (arith, lookup-erase k j m, erase-IsTable k m h.1)

  pub erase_absent : (k : Text) (m : Table V) → lookup k m ≡ none → erase k m ≡ m
  unfolding lookup erase
  erase_absent k [] h = refl
  erase_absent k ((j, w) ∷ m) h = ground (arith, erase_absent k m)

  pub length-erase_present :
      (k : Text) (m : Table V) {v : V}
      → IsTable m
      → lookup k m ≡ some v
      → length m ≡ suc (length (erase k m))
  unfolding lookup erase
  length-erase_present k [] t h = ground arith
  length-erase_present k ((j, w) ∷ m) {v} t h =
      ground (arith, text_eq_iff j k, length-erase_present k m {v = v} t.1, erase_absent k m)
