-- ===== src/Base/StringLaws.antt =====
-- What the string functions do, against concatenation.
use Prim.Native.Nat.{ℕ, ◌≤◌, ◌<◌}
use mathlib.Core.Path.{◌≡◌, refl, ap}
use mathlib.Core.Logic.{◌≢◌, ◌⊎◌, inl, inr}
use kaf_claw.Base.Tests.{Bool-cases}
use mathlib.Core.Bool.{true, false}
use mathlib.Core.List.{[], ◌∷◌, ◌++◌}
use mathlib.Core.Option.{some}
use native.Mathlib.Omega.{arith}
use kaf_claw.Base.Lists.{length, length-append}
use kaf_claw.Base.Strings.{
  Text, text_eq_iff, text_ne, text_eq_refl, has_prefix, strip_suffix, lower, to_lower, strip_prefix,
  trim_left, trim_right, trim_space, is_space, is_empty,
}

pub append_of_has_prefix : (s p : Text) → has_prefix s p ≡ true → (rest : Text) × (s ≡ p ++ rest)
unfolding has_prefix
append_of_has_prefix s [] h = (s, refl)
append_of_has_prefix [] (b ∷ p) h = cc
append_of_has_prefix (a ∷ s) (b ∷ p) h =
    let (rest, e) = append_of_has_prefix s p (ground arith) in (rest, ground arith)

pub has_prefix-append : (p rest : Text) → has_prefix (p ++ rest) p ≡ true
unfolding has_prefix
has_prefix-append [] rest = refl
has_prefix-append (b ∷ p) rest = ground (arith, has_prefix-append p rest)

longer_ne : (c : ℕ) (r p : Text) → c ∷ (r ++ p) ≢ p
longer_ne c r p e = omega (arith, ap length e, length-append r p)

pub strip_suffix-append : (r p : Text) → strip_suffix (r ++ p) p ≡ some r
unfolding strip_suffix
strip_suffix-append [] [] = refl
strip_suffix-append [] (c ∷ p) = ground (arith, text_eq_refl (c ∷ p))
strip_suffix-append (c ∷ r) p =
    ground (arith, text_ne (c ∷ (r ++ p)) p (longer_ne c r p), strip_suffix-append r p)

pub append_of_strip_suffix : (s p r : Text) → strip_suffix s p ≡ some r → s ≡ r ++ p
unfolding strip_suffix
append_of_strip_suffix [] [] r h = ground arith
append_of_strip_suffix [] (b ∷ p) r h = ground arith
append_of_strip_suffix (c ∷ s) p [] h =
    ground (arith, text_eq_iff (c ∷ s) p, append_of_strip_suffix s p [])
append_of_strip_suffix (c ∷ s) p (d ∷ r) h =
    ground (arith, text_eq_iff (c ∷ s) p, append_of_strip_suffix s p r)

lower_idem : (c : ℕ) → lower (lower c) ≡ lower c
unfolding lower
lower_idem c = ground arith

-- `strings.ToLower` twice is `strings.ToLower` once.
pub to_lower_idem : (s : Text) → to_lower (to_lower s) ≡ to_lower s
unfolding to_lower
to_lower_idem [] = refl
to_lower_idem (c ∷ s) = cc (lower_idem c, to_lower_idem s)

length-trim_left-le : (s : Text) → length (trim_left s) ≤ length s
unfolding trim_left
length-trim_left-le [] = omega arith
length-trim_left-le (c ∷ s) = ground (arith, length-trim_left-le s)

length-trim_right-le : (s : Text) → length (trim_right s) ≤ length s
unfolding trim_right
length-trim_right-le [] = omega arith
length-trim_right-le (c ∷ s) = ground (arith, length-trim_right-le s)

trim_left-cases : (s : Text) → (trim_left s ≡ s) ⊎ (length (trim_left s) < length s)
unfolding trim_left
trim_left-cases [] = inl refl
trim_left-cases (c ∷ s) = elim (Bool-cases (is_space c)) [
  | inl e ↦ inr (ground (arith, length-trim_left-le s))
  | inr e ↦ inl (ground arith)
]

-- A text that trimming leaves alone has no white space at either end.
pub trimmed_ends : (s : Text) → trim_space s ≡ s → (trim_left s ≡ s) × (trim_right s ≡ s)
unfolding trim_space
trimmed_ends s e = elim (trim_left-cases s) [
  | inl same ↦ (same, ground arith)
  | inr short ↦ absurd (omega (arith, length-trim_right-le (trim_left s), ap length e))
]

trim_right_idem : (s : Text) → trim_right (trim_right s) ≡ trim_right s
unfolding trim_right
trim_right_idem [] = refl
trim_right_idem (c ∷ s) = ground (arith, trim_right_idem s)

starts_plain : (c : ℕ) (s : Text) → is_space c ≡ false → trim_left (c ∷ s) ≡ c ∷ s
unfolding trim_left
starts_plain c s h = rw h

trim_left-trim_right : (s : Text) → trim_left s ≡ s → trim_left (trim_right s) ≡ trim_right s
unfolding trim_left trim_right
trim_left-trim_right [] h = refl
trim_left-trim_right (c ∷ s) h = elim (Bool-cases (is_space c)) [
  | inl e ↦ absurd (omega (arith, length-trim_left-le s, ap length (spaced e)))
  | inr e ↦ ground arith
]
  where
    spaced : is_space c ≡ true → trim_left s ≡ c ∷ s
    spaced e = ground arith

trim_left_idem : (s : Text) → trim_left (trim_left s) ≡ trim_left s
unfolding trim_left
trim_left_idem [] = refl
trim_left_idem (c ∷ s) = ground (arith, trim_left_idem s)

-- `strings.TrimSpace` twice is `strings.TrimSpace` once.
pub trim_space_idem : (s : Text) → trim_space (trim_space s) ≡ trim_space s
unfolding trim_space
trim_space_idem s =
    rw (trim_left-trim_right (trim_left s) (trim_left_idem s)) (trim_right_idem (trim_left s))

pub strip_prefix-append : (p s : Text) → strip_prefix (p ++ s) p ≡ some s
unfolding strip_prefix
strip_prefix-append [] [] = refl
strip_prefix-append [] (c ∷ s) = refl
strip_prefix-append (c ∷ p) s = ground (arith, strip_prefix-append p s)

is_space-lower : (c : ℕ) → is_space (lower c) ≡ is_space c
unfolding is_space lower
is_space-lower c = ground arith

pub is_empty-to_lower : (s : Text) → is_empty (to_lower s) ≡ is_empty s
unfolding to_lower
is_empty-to_lower [] = refl
is_empty-to_lower (c ∷ s) = refl

to_lower-trim_left : (s : Text) → to_lower (trim_left s) ≡ trim_left (to_lower s)
unfolding to_lower trim_left
to_lower-trim_left [] = refl
to_lower-trim_left (c ∷ s) = ground (arith, is_space-lower c, to_lower-trim_left s)

to_lower-trim_right : (s : Text) → to_lower (trim_right s) ≡ trim_right (to_lower s)
unfolding to_lower trim_right
to_lower-trim_right [] = refl
to_lower-trim_right (c ∷ s) =
    ground (arith, is_space-lower c, to_lower-trim_right s, is_empty-to_lower (trim_right s))

-- Trimming and lowering commute.
pub to_lower-trim_space : (s : Text) → to_lower (trim_space s) ≡ trim_space (to_lower s)
unfolding trim_space
to_lower-trim_space s = cc (to_lower-trim_right (trim_left s), to_lower-trim_left s)
