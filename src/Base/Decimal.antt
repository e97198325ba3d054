-- ===== src/Base/Decimal.antt =====
-- `fmt.Sprintf("%d", n)` of a natural number and strconv.ParseUint in base 10.
use Prim.Native.Nat.{ℕ, zero, suc, ◌+◌, ◌-◌, ◌*◌, ◌/◌, ◌%◌, ◌^◌, ◌<◌}
use mathlib.Core.Path.{◌≡◌, refl, ap, ◌∙◌}
use mathlib.Core.Logic.{inl, inr}
use mathlib.Core.Bool.{true, ◌&&◌}
use mathlib.Core.Option.{Option, none, some}
use mathlib.Core.List.{[], ◌∷◌}
use native.Mathlib.Omega.{arith}
use go_relay.Base.Tests.{ltb, leb, if◌then◌else◌, Bool-cases}
use go_relay.Base.Strings.{Text}

-- The digits of n in front of `acc`; fuel above n is enough.
unfoldable pub digits : ℕ → ℕ → Text → Text
digits zero n acc = acc
digits (suc f) n acc =
    let rest = digits f (n / 10) ((48 + n % 10) ∷ acc) in
    if ltb n 10 then (48 + n % 10) ∷ acc else rest

unfoldable pub show_nat : ℕ → Text
unfolding digits
show_nat n = digits (suc n) n []

unfoldable pub read_digits : ℕ → Text → Option ℕ
read_digits n [] = some n
read_digits n (c ∷ s) = if leb 48 c && leb c 57 then read_digits (n * 10 + (c - 48)) s else none

abbrev pub max_uint64 : ℕ
max_uint64 = 2 ^ 64 - 1

-- The value that ParseUint returns beside its error: 0 for bad syntax, the maximum when out of
-- range.
unfoldable pub parse_uint : Text → ℕ
unfolding read_digits
parse_uint [] = 0
parse_uint (c ∷ s) = elim (read_digits 0 (c ∷ s)) [
  | none ↦ 0
  | some n ↦ if ltb max_uint64 n then max_uint64 else n
]

read_digits-digit :
    (m d : ℕ) (acc : Text) → d < 10 → read_digits m ((48 + d) ∷ acc) ≡ read_digits (m * 10 + d) acc
unfolding read_digits
read_digits-digit m d acc h =
    let low : leb 48 (48 + d) ≡ true = ground arith in
    let high : leb (48 + d) 57 ≡ true = ground arith in
    let value : m * 10 + (48 + d - 48) ≡ m * 10 + d = omega arith in
    rw (low, high) (ap (λ k. read_digits k acc) value)

read-digits : (f n : ℕ) (acc : Text) → n < f → read_digits 0 (digits f n acc) ≡ read_digits n acc
unfolding digits
read-digits zero n acc h = elim h [ ]
read-digits (suc f) n acc h = elim (Bool-cases (ltb n 10)) [
  | inl e ↦
      let small : n % 10 ≡ n = ground arith in
      rw e
        (read_digits-digit 0 (n % 10) acc (omega arith) ∙ ap (λ k. read_digits k acc) (omega arith))
  | inr e ↦
      let value : n / 10 * 10 + n % 10 ≡ n = omega arith in
      rw e (
        read-digits f (n / 10) _ (ground arith)
        ∙ read_digits-digit (n / 10) (n % 10) acc (omega arith)
        ∙ ap (λ k. read_digits k acc) value)
]

-- Printed text is not empty.
digits_cons : (f n c : ℕ) (acc : Text) → (d : ℕ) × (s : Text) × (digits f n (c ∷ acc) ≡ d ∷ s)
unfolding digits
digits_cons zero n c acc = (c, acc, refl)
digits_cons (suc f) n c acc = elim (Bool-cases (ltb n 10)) [
  | inl e ↦ (48 + n % 10, c ∷ acc, rw e)
  | inr e ↦ rw e (digits_cons f (n / 10) (48 + n % 10) (c ∷ acc))
]

pub show_nat_cons : (n : ℕ) → (d : ℕ) × (s : Text) × (show_nat n ≡ d ∷ s)
unfolding show_nat
show_nat_cons n = elim (Bool-cases (ltb n 10)) [
  | inl e ↦ (48 + n % 10, [], rw e)
  | inr e ↦ rw e (digits_cons n (n / 10) (48 + n % 10) [])
]

read-parse_uint :
    (n : ℕ) (s : Text)
    → ((d : ℕ) × (t : Text) × (s ≡ d ∷ t))
    → read_digits 0 s ≡ some n
    → n < 2 ^ 64
    → parse_uint s ≡ n
unfolding parse_uint
read-parse_uint n [] (d, t, p) e h = cc p
read-parse_uint n (c ∷ s) p e h = rw (e, parse_uint) (ground arith)

read-show_nat : (n : ℕ) → read_digits 0 (show_nat n) ≡ some n
unfolding show_nat read_digits
read-show_nat n = read-digits (suc n) n [] (omega arith)

-- A uint64 is read back as it was printed.
pub parse_uint-show_nat : (n : ℕ) → n < 2 ^ 64 → parse_uint (show_nat n) ≡ n
parse_uint-show_nat n h = read-parse_uint n (show_nat n) (show_nat_cons n) (read-show_nat n) h
