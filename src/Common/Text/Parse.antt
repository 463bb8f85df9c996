-- ===== src/Common/Text/Parse.antt =====
-- `str::parse` of a `u32`.
use Prim.Native.Nat.{ℕ, zero, suc, ◌+◌, ◌-◌, ◌*◌, ◌/◌, ◌%◌, ◌^◌, ◌<◌}
use mathlib.Core.Path.{◌≡◌, refl, ◌∙◌, ap}
use mathlib.Core.Logic.{inl, inr}
use mathlib.Core.Bool.{false, ◌&&◌}
use mathlib.Core.List.{[], ◌∷◌, ◌++◌}
use mathlib.Core.Option.{Option, none, some}
use native.Mathlib.Omega.{arith}
use asapcollector_public.Common.Tests.{◌==◌, ltb, leb, if◌then◌else◌, tests, Bool-cases, lt→ltb}
use asapcollector_public.Common.Text.{Text, digits, decimal}

-- The number that the digits denote, in front of which `acc` was read.
unfoldable pub parse_digits : ℕ → Text → Option ℕ
parse_digits acc [] = some acc
parse_digits acc (b ∷ s) =
    let rest = parse_digits (acc * 10 + (b - 48)) s in if leb 48 b && leb b 57 then rest else none

-- The range of a `u32`; the number grows with each digit, so one check at the end is enough.
abbrev in_u32 : Option ℕ → Option ℕ
in_u32 none = none
in_u32 (some n) = if ltb n (2 ^ 32) then some n else none

abbrev unsigned : Text → Option ℕ
unsigned [] = none
unsigned (b ∷ s) = in_u32 (parse_digits 0 (b ∷ s))

unfoldable pub parse_u32 : Text → Option ℕ
parse_u32 [] = none
parse_u32 (b ∷ s) = if b == b'+' then unsigned s else unsigned (b ∷ s)

abbrev next_digit : ℕ → Option ℕ → Option ℕ
next_digit d none = none
next_digit d (some v) = parse_digits v (d ∷ [])

parse_digits-append :
    (acc : ℕ) (s : Text) (d : ℕ)
    → parse_digits acc (s ++ d ∷ []) ≡ next_digit d (parse_digits acc s)
unfolding parse_digits
parse_digits-append acc [] d = refl
parse_digits-append acc (b ∷ s) d = elim (Bool-cases (leb 48 b && leb b 57)) [
  | inl e ↦ rw e (parse_digits-append (acc * 10 + (b - 48)) s d)
  | inr e ↦ rw e refl
]

parse_digits_one : (v n : ℕ) → n < 10 → parse_digits v ((48 + n) ∷ []) ≡ some (v * 10 + n)
unfolding parse_digits
parse_digits_one v n h = ground arith

parse_digits-digits : (f n : ℕ) → n < f → parse_digits 0 (digits f n) ≡ some n
unfolding digits
parse_digits-digits zero n h = elim h [ ]
parse_digits-digits (suc f) n h = elim (Bool-cases (ltb n 10)) [
  | inl e ↦ rw e (parse_digits_one 0 n (omega tests) ∙ ap some (omega arith))
  | inr e ↦
      rw
        (
          e,
          parse_digits-append 0 (digits f (n / 10)) (48 + n % 10),
          parse_digits-digits f (n / 10) (omega tests),
          parse_digits_one (n / 10) (n % 10) (omega arith),
        )
        (ap some (omega arith))
]

abbrev Starts : Text → Type 0
Starts s = (b : ℕ) × (rest : Text) × (s ≡ b ∷ rest)

Starts-append : (s : Text) (d : ℕ) → Starts (s ++ d ∷ [])
Starts-append [] d = (d, [], refl)
Starts-append (b ∷ s) d = (b, s ++ d ∷ [], refl)

digits-Starts : (f n : ℕ) → Starts (digits (suc f) n)
unfolding digits
digits-Starts f n = elim (Bool-cases (ltb n 10)) [
  | inl e ↦ rw e (48 + n, [], refl)
  | inr e ↦ rw e (Starts-append (digits f (n / 10)) (48 + n % 10))
]

not_plus : (b v : ℕ) (s : Text) → parse_digits 0 (b ∷ s) ≡ some v → (b == b'+') ≡ false
unfolding parse_digits
not_plus b v s h = ground arith

pub parse_u32-decimal : (n : ℕ) → n < 2 ^ 32 → parse_u32 (decimal n) ≡ some n
unfolding parse_u32 decimal
parse_u32-decimal n small =
    let (b, s, e) = digits-Starts n n in
    let parsed : parse_digits 0 (b ∷ s) ≡ some n =
      rw (← e) (parse_digits-digits (suc n) n (omega arith)) in
    rw (e, not_plus b n s parsed, parsed, lt→ltb n (2 ^ 32) small) refl
