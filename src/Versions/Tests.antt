-- ===== src/Versions/Tests.antt =====
-- Versions that are texts, ordered by their lengths, and sorted by insertion.
use go_relay.Base.{
  ◌+◌, ◌≡◌, refl, Bool, true, false, List, [], ◌∷◌, Text, lit, text_eq, text_eq_iff, length, ltb,
  All, arith, if◌then◌else◌,
}
use go_relay.Versions.{Semver, occurrences, IsDescending, add, remove, largest}
use go_relay.Versions.Refines.{Op, adds, removes, run, run_lem, bit, is_member, IsLargest}

abbrev shorter : Text → Text → Bool
shorter v w = ltb (length v) (length w)

abbrev insert : Text → List Text → List Text
insert v [] = v ∷ []
insert v (w ∷ ws) = if shorter v w then w ∷ insert v ws else v ∷ w ∷ ws

abbrev sort : List Text → List Text
sort [] = []
sort (v ∷ vs) = insert v (sort vs)

occurrences-insert :
    (v w : Text) (vs : List Text)
    → occurrences text_eq v (insert w vs)
      ≡ (if text_eq v w then 1 else 0) + occurrences text_eq v vs
occurrences-insert v w [] = refl
occurrences-insert v w (x ∷ vs) = ground (arith, occurrences-insert v w vs)

occurrences-sort :
    (v : Text) (vs : List Text) → occurrences text_eq v (sort vs) ≡ occurrences text_eq v vs
occurrences-sort v [] = refl
occurrences-sort v (w ∷ vs) = omega (arith, occurrences-insert v w (sort vs), occurrences-sort v vs)

abbrev IsAbove : Text → List Text → Type 0
IsAbove v = All (λ w. shorter v w ≡ false)

IsAbove-insert :
    (v w : Text) (vs : List Text) → shorter v w ≡ false → IsAbove v vs → IsAbove v (insert w vs)
IsAbove-insert v w [] h a = (h, tt)
IsAbove-insert v w (x ∷ vs) h a = by_test (shorter w x) (IsAbove-insert v w vs h a.1)
  where
    by_test :
        (b : Bool) → IsAbove v (insert w vs) → IsAbove v (if b then x ∷ insert w vs else w ∷ x ∷ vs)
    by_test true rest = (a.0, rest)
    by_test false rest = (h, a)

IsAbove-trans : (v w : Text) (vs : List Text) → shorter v w ≡ false → IsAbove w vs → IsAbove v vs
IsAbove-trans v w [] h a = tt
IsAbove-trans v w (x ∷ vs) h a = (ground (arith, h, a.0), IsAbove-trans v w vs h a.1)

insert-IsDescending :
    (v : Text) (vs : List Text) → IsDescending shorter vs → IsDescending shorter (insert v vs)
insert-IsDescending v [] d = (tt, tt)
insert-IsDescending v (w ∷ vs) d = by_test (shorter v w) refl (insert-IsDescending v vs d.1)
  where
    by_test :
        (b : Bool)
        → shorter v w ≡ b
        → IsDescending shorter (insert v vs)
        → IsDescending shorter (if b then w ∷ insert v vs else v ∷ w ∷ vs)
    by_test true e rest = (IsAbove-insert w v vs (ground (arith, e)) d.0, rest)
    by_test false e rest = ((e, IsAbove-trans v w vs e d.0), d)

sort-IsDescending : (vs : List Text) → IsDescending shorter (sort vs)
sort-IsDescending [] = tt
sort-IsDescending (v ∷ vs) = insert-IsDescending v (sort vs) (sort-IsDescending vs)

shorter_irrefl : (v : Text) → shorter v v ≡ false
shorter_irrefl v = ground arith

abbrev semver : Semver Text
semver = record {
  less_than = shorter;
  equal = text_eq;
  show = λ v. v;
  sort = sort;
  less_than_irrefl = shorter_irrefl;
  equal_iff = text_eq_iff;
  show_iff = text_eq_iff;
  sort_permutes = occurrences-sort;
  sort_descends = sort-IsDescending;
}

abbrev ops : List (Op Text)
ops =
    adds (lit "1")
    ∷ removes (lit "10.0")
    ∷ adds (lit "1.10")
    ∷ adds (lit "1")
    ∷ adds (lit "10.0")
    ∷ []

two_left : run semver ops ≡ lit "1.10" ∷ lit "1" ∷ []
unfolding add remove text_eq
two_left = refl

run_lem_example :
    ((v : Text) → occurrences text_eq v (run semver ops) ≡ bit (is_member semver ops v))
    × IsDescending shorter (run semver ops)
    × IsLargest semver ops (largest semver (run semver ops))
run_lem_example = run_lem semver ops
