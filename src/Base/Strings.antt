-- ===== src/Base/Strings.antt =====
-- Go strings as lists of bytes, and the functions of package strings that the program calls.
use Prim.Native.Nat.{ℕ, zero, suc, ◌+◌, ◌-◌}
use Prim.Native.Char.{code}
use Prim.Native.String.{String}
use mathlib.Core.Path.{◌≡◌, refl}
use mathlib.Core.Logic.{◌↔◌}
use mathlib.Core.Bool.{Bool, true, false, ◌&&◌}
use mathlib.Core.Option.{Option, none, some}
use mathlib.Core.List.{List, [], ◌∷◌, ◌++◌, map, reverse}
use native.Mathlib.Omega.{arith}
use go_relay.Base.Tests.{leb, ◌==◌, if◌then◌else◌}

abbrev pub Text : Type 0
Text = List ℕ

-- A string constant of the source.
abbrev pub lit : String → Text
lit String.[] = []
lit (String.◌∷◌ c s) = code c ∷ lit s

-- `a == b` on strings.
unfoldable pub text_eq : Text → Text → Bool
text_eq [] [] = true
text_eq [] (b ∷ t) = false
text_eq (a ∷ s) [] = false
text_eq (a ∷ s) (b ∷ t) = (a == b) && text_eq s t

pub text_eq_iff : (s t : Text) → (text_eq s t ≡ true) ↔ (s ≡ t)
unfolding text_eq
text_eq_iff [] [] = ground arith
text_eq_iff [] (b ∷ t) = ground arith
text_eq_iff (a ∷ s) [] = ground arith
text_eq_iff (a ∷ s) (b ∷ t) = ground (arith, text_eq_iff s t)

pub text_eq_refl : (s : Text) → text_eq s s ≡ true
text_eq_refl s = (text_eq_iff s s).1 refl

-- strings.HasPrefix
unfoldable pub has_prefix : Text → Text → Bool
has_prefix s [] = true
has_prefix [] (b ∷ p) = false
has_prefix (a ∷ s) (b ∷ p) = (a == b) && has_prefix s p

pub has_prefix-append : (p s : Text) → has_prefix (p ++ s) p ≡ true
unfolding has_prefix
has_prefix-append [] s = refl
has_prefix-append (b ∷ p) s = ground (arith, has_prefix-append p s)

-- strings.HasSuffix
unfoldable pub has_suffix : Text → Text → Bool
unfolding has_prefix
has_suffix s p = has_prefix (reverse s) (reverse p)

-- strings.Split on a separator of one byte: the pieces, at least one.
unfoldable pub split_go : ℕ → Text → Text × List Text
split_go c [] = ([], [])
split_go c (a ∷ s) =
    let (piece, rest) = split_go c s in if a == c then ([], piece ∷ rest) else (a ∷ piece, rest)

unfoldable pub split : Text → ℕ → List Text
unfolding split_go
split s c = let (piece, rest) = split_go c s in piece ∷ rest

-- strings.Join with a separator of one byte.
unfoldable pub join : ℕ → List Text → Text
join c [] = []
join c (p ∷ []) = p
join c (p ∷ q ∷ ps) = p ++ (c ∷ join c (q ∷ ps))

-- The split at the first separator byte, if there is one.
unfoldable pub cut : ℕ → Text → Option (Text × Text)
cut c [] = none
cut c (a ∷ s) = elim (a == c) [
  | true ↦ some ([], s)
  | false ↦ elim (cut c s) [ none ↦ none | some (l, r) ↦ some (a ∷ l, r) ]
]

-- strings.SplitN on a separator of one byte: at most n pieces, the last one unsplit.
unfoldable pub split_n : ℕ → ℕ → Text → List Text
unfolding cut
split_n zero c s = []
split_n (suc zero) c s = s ∷ []
split_n (suc (suc n)) c s = elim (cut c s) [ none ↦ s ∷ [] | some (l, r) ↦ l ∷ split_n (suc n) c r ]

-- strings.Trim with a cutset of one byte.
unfoldable pub trim_left : ℕ → Text → Text
trim_left c [] = []
trim_left c (a ∷ s) = if a == c then trim_left c s else a ∷ s

unfoldable pub trim : Text → ℕ → Text
unfolding trim_left
trim s c = reverse (trim_left c (reverse (trim_left c s)))

-- strings.TrimSuffix with a suffix of one byte.
unfoldable pub trim_suffix : Text → ℕ → Text
trim_suffix [] c = []
trim_suffix (a ∷ []) c = if a == c then [] else a ∷ []
trim_suffix (a ∷ b ∷ s) c = a ∷ trim_suffix (b ∷ s) c

-- strings.ToLower and strings.ToUpper on ASCII.
unfoldable pub lower : ℕ → ℕ
lower a = if leb b'A' a && leb a b'Z' then a + 32 else a

unfoldable pub upper : ℕ → ℕ
upper a = if leb b'a' a && leb a b'z' then a - 32 else a

unfoldable pub to_lower : Text → Text
unfolding lower
to_lower s = map lower s

unfoldable pub to_upper : Text → Text
unfolding upper
to_upper s = map upper s

-- No byte of the text is `c`.
abbrev pub Free : ℕ → Text → Type 0
Free c [] = Unit
Free c (a ∷ s) = ((a == c) ≡ false) × Free c s

pub cut_first : (c : ℕ) (l r : Text) → Free c l → cut c (l ++ (c ∷ r)) ≡ some (l, r)
unfolding cut
cut_first c [] r h = ground arith
cut_first c (a ∷ l) r h = ground (arith, cut_first c l r h.1)
