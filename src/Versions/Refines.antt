-- ===== src/Versions/Refines.antt =====
-- A version list is a set of versions, kept in descending order.
use go_relay.Base.{
  ℕ, ◌+◌, ◌-◌, ◌≤◌, ◌≡◌, refl, sym, ap, ◌∙◌, subst, inl, inr, Bool, true, false, not, ◌&&◌, ◌||◌,
  Option, none, some, List, [], ◌∷◌, ◌++◌, text_eq, All, arith, Bool-cases, if◌then◌else◌,
}
use go_relay.Versions.{
  Semver, occurrences, IsDescending, has, new_version_list, add, remove, largest,
}

pub data Op (V : Type 0) : Type 0 where
  adds : V → Op V
  removes : V → Op V

abbrev pub bit : Bool → ℕ
bit true = 1
bit false = 0

module _ {V : Type 0} (semver : Semver V) where
  abbrev pub run : List (Op V) → List V
  run [] = new_version_list semver
  run (adds v ∷ ops) = add semver v (run ops)
  run (removes v ∷ ops) = remove semver v (run ops)

  -- The set that the operations, the last one first, make.
  abbrev pub is_member : List (Op V) → V → Bool
  is_member [] v = false
  is_member (adds w ∷ ops) v = semver.equal v w || is_member ops v
  is_member (removes w ∷ ops) v = not (semver.equal v w) && is_member ops v

  abbrev count : V → List V → ℕ
  count = occurrences semver.equal

  count-append :
      (v w : V) (vs : List V)
      → count v (vs ++ w ∷ []) ≡ count v vs + (if semver.equal v w then 1 else 0)
  count-append v w [] = omega arith
  count-append v w (x ∷ vs) = omega (arith, count-append v w vs)

  equal_comm : (v w : V) → semver.equal v w ≡ semver.equal w v
  equal_comm v w = ground (arith, semver.equal_iff v w, semver.equal_iff w v)

  -- A version is there exactly if it occurs.
  has_iff : (v : V) (vs : List V) → bit (has semver v vs) ≤ count v vs
  has_iff v [] = omega arith
  has_iff v (w ∷ vs) = ground (arith, equal_comm v w, has_iff v vs)

  no_count : (v : V) (vs : List V) → has semver v vs ≡ false → count v vs ≡ 0
  no_count v [] h = refl
  no_count v (w ∷ vs) h = ground (arith, h, equal_comm v w, no_count v vs)

  count-remove :
      (v w : V) (vs : List V)
      → count v (remove semver w vs) ≡ count v vs - (if semver.equal v w then 1 else 0)
  unfolding remove
  count-remove v w [] = ground arith
  count-remove v w (x ∷ vs) = elim (Bool-cases (text_eq (semver.show x) (semver.show w))) [
    | inl same ↦ rw (same, (semver.show_iff x w).0 same) (omega arith)
    | inr other ↦
        rw (other, count-remove v w vs)
          (apart_lem (semver.equal v x) (semver.equal v w) refl refl other)
  ]
    where
      apart_lem :
          (p q : Bool)
          → semver.equal v x ≡ p
          → semver.equal v w ≡ q
          → text_eq (semver.show x) (semver.show w) ≡ false
          → (if p then 1 else 0) + (count v vs - (if q then 1 else 0))
            ≡ (if p then 1 else 0) + count v vs - (if q then 1 else 0)
      apart_lem true true a b o = absurd (
          let same =
            (semver.show_iff x w).1
              (sym ((semver.equal_iff v x).0 a) ∙ (semver.equal_iff v w).0 b) in
          ground (arith, o, same))
      apart_lem true false a b o = omega arith
      apart_lem false q a b o = omega arith

  -- What a removal keeps is descending still.
  All-remove : (P : V → Type 0) (w : V) (vs : List V) → All P vs → All P (remove semver w vs)
  unfolding remove
  All-remove P w [] h = tt
  All-remove P w (x ∷ vs) h =
      by_test (text_eq (semver.show x) (semver.show w)) (All-remove P w vs h.1)
    where
      by_test :
          (b : Bool) → All P (remove semver w vs) → All P (if b then vs else x ∷ remove semver w vs)
      by_test true rest = h.1
      by_test false rest = (h.0, rest)

  remove-IsDescending :
      (w : V) (vs : List V)
      → IsDescending semver.less_than vs
      → IsDescending semver.less_than (remove semver w vs)
  unfolding remove
  remove-IsDescending w [] h = tt
  remove-IsDescending w (x ∷ vs) h =
      by_test (text_eq (semver.show x) (semver.show w)) (remove-IsDescending w vs h.1)
    where
      by_test :
          (b : Bool)
          → IsDescending semver.less_than (remove semver w vs)
          → IsDescending semver.less_than (if b then vs else x ∷ remove semver w vs)
      by_test true rest = h.1
      by_test false rest = (All-remove _ w vs h.0, rest)

  added_once :
      (vs : List V) (m : V → Bool) (v w : V) (b : Bool)
      → has semver w vs ≡ b
      → count v vs ≡ bit (m v)
      → count w vs ≡ bit (m w)
      → count v (if b then vs else semver.sort (vs ++ w ∷ [])) ≡ bit (semver.equal v w || m v)
  added_once vs m v w true h cv cw = elim (Bool-cases (semver.equal v w)) [
    | inl same ↦
        (let there : 1 ≤ count v vs =
            subst (λ u. 1 ≤ count u vs) (sym ((semver.equal_iff v w).0 same))
              (ground (arith, h, has_iff w vs)) in
          ground (arith, same, there, cv))
    | inr other ↦ ground (arith, other, cv)
  ]
  added_once vs m v w false h cv cw =
      rw (semver.sort_permutes v (vs ++ w ∷ []), count-append v w vs)
        (let gone : (semver.equal v w ≡ true → count v vs ≡ 0) =
            λ same. ap (λ u. count u vs) ((semver.equal_iff v w).0 same) ∙ no_count w vs h in
          ground (arith, gone, cv))

  sorted_either :
      (b : Bool) (vs ws : List V)
      → IsDescending semver.less_than vs
      → IsDescending semver.less_than (if b then vs else semver.sort ws)
  sorted_either true vs ws h = h
  sorted_either false vs ws h = semver.sort_descends ws

  -- A list is the set that the operations make: each member is there once, in descending order, and
  -- nothing else is.
  IsRefined : List (Op V) → List V → Type 0
  IsRefined ops vs =
      ((v : V) → count v vs ≡ bit (is_member ops v)) × IsDescending semver.less_than vs

  run-IsRefined : (ops : List (Op V)) → IsRefined ops (run ops)
  unfolding IsRefined add
  run-IsRefined [] = (λ v. refl, tt)
  run-IsRefined (adds w ∷ ops) =
      let (c, d) = run-IsRefined ops in
      (
        λ v. added_once (run ops) (is_member ops) v w (has semver w (run ops)) refl (c v) (c w),
        sorted_either _ _ _ d,
      )
  run-IsRefined (removes w ∷ ops) =
      let (c, d) = run-IsRefined ops in
      (λ v. rw (count-remove v w (run ops), c v) (ground arith), remove-IsDescending w (run ops) d)

  All-of_count : (P : V → Type 0) (vs : List V) → All P vs → (v : V) → 1 ≤ count v vs → P v
  All-of_count P [] h v l = absurd (ground (arith, l))
  All-of_count P (w ∷ vs) h v l = elim (Bool-cases (semver.equal v w)) [
    | inl same ↦ subst P (sym ((semver.equal_iff v w).0 same)) h.0
    | inr other ↦ All-of_count P vs h.1 v (ground (arith, other, l))
  ]

  -- No member is greater, or there is none.
  abbrev pub IsLargest : List (Op V) → Option V → Type 0
  IsLargest ops none = (v : V) → is_member ops v ≡ false
  IsLargest ops (some v) =
      (is_member ops v ≡ true) × ((w : V) → (is_member ops w && semver.less_than v w) ≡ false)

  largest-IsLargest :
      (ops : List (Op V)) (vs : List V) → IsRefined ops vs → IsLargest ops (largest semver vs)
  unfolding largest IsRefined
  largest-IsLargest ops [] (c, d) = λ v. ground (arith, c v)
  largest-IsLargest ops (x ∷ xs) (c, d) = (
    ground (arith, c x, (semver.equal_iff x x).1 refl),
    λ w. elim (Bool-cases (is_member ops w)) [
      | inl there ↦ rw (
        there,
        All-of_count (λ u. semver.less_than x u ≡ false) (x ∷ xs) (semver.less_than_irrefl x, d.0) w
            (ground (arith, c w, there)),
      )
      | inr gone ↦ rw gone
    ],
  )

  -- However versions are added and removed, the list holds each version of the set that the
  -- operations make exactly once and no other, in descending order, and `Largest` is a member of the
  -- set that no member exceeds, or nil if the set is empty.
  pub run_lem :
      (ops : List (Op V))
      → ((v : V) → occurrences semver.equal v (run ops) ≡ bit (is_member ops v))
        × IsDescending semver.less_than (run ops)
        × IsLargest ops (largest semver (run ops))
  unfolding IsRefined
  run_lem ops = let r = run-IsRefined ops in (r.0, r.1, largest-IsLargest ops (run ops) r)
