-- ===== src/Versions.antt =====
-- relay/bundle/version_list.go. The versions and their order are those of the semver library and the
-- sorting is that of package sort: an interface with what the list relies on.
pub mod Refines
mod Tests
use go_relay.Base.{
  ℕ, suc, ◌+◌, ◌≡◌, ◌↔◌, Bool, true, false, Option, none, some, List, [], ◌∷◌, ◌++◌, Text, text_eq,
  All, if◌then◌else◌,
}

-- How often a value occurs, by its equality test.
abbrev pub occurrences {ℓ} : {V : Type ℓ} → (V → V → Bool) → V → List V → ℕ
occurrences equal v [] = 0
occurrences equal v (w ∷ ws) = (if equal v w then 1 else 0) + occurrences equal v ws

-- No member is less than a later one.
abbrev pub IsDescending {ℓ} : {V : Type ℓ} → (V → V → Bool) → List V → Type 0
IsDescending less_than [] = Unit
IsDescending less_than (v ∷ vs) = All (λ w. less_than v w ≡ false) vs × IsDescending less_than vs

-- `equal` is Go's `==` on versions, `show` the method String. `sort` is sort.Sort with LargestFirst.
pub record Semver (V : Type 0) : Type 0 where
  pub less_than : V → V → Bool
  pub equal : V → V → Bool
  pub show : V → Text
  pub sort : List V → List V
  pub less_than_irrefl : (v : V) → less_than v v ≡ false
  pub equal_iff : (v w : V) → (equal v w ≡ true) ↔ (v ≡ w)
  pub show_iff : (v w : V) → (text_eq (show v) (show w) ≡ true) ↔ (v ≡ w)
  pub sort_permutes : (v : V) (vs : List V) → occurrences equal v (sort vs) ≡ occurrences equal v vs
  pub sort_descends : (vs : List V) → IsDescending less_than (sort vs)

module _ {V : Type 0} (semver : Semver V) where
  abbrev pub has : V → List V → Bool
  has version [] = false
  has version (v ∷ vs) = if semver.equal v version then true else has version vs

  abbrev pub new_version_list : List V
  new_version_list = []

  unfoldable pub add : V → List V → List V
  add version members =
      if has version members then members else semver.sort (members ++ version ∷ [])

  unfoldable pub remove : V → List V → List V
  remove version [] = []
  remove version (v ∷ vs) =
      let rest = remove version vs in
      if text_eq (semver.show v) (semver.show version) then vs else v ∷ rest

  unfoldable pub largest : List V → Option V
  largest [] = none
  largest (v ∷ vs) = some v
