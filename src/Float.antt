-- ===== src/Float.antt =====
-- `f64` as its 64 bits: the tests and conversions that the runtime makes. Arithmetic on floats is a
-- parameter (Float/Math).
pub mod Math
use asapcollector_public.Common.{
  ℕ, ◌+◌, ◌-◌, ◌*◌, ◌/◌, ◌%◌, ◌^◌, ◌≡◌, refl, Bool, true, false, ◌&&◌, ◌||◌, not, max, ltb, leb,
  ◌==◌, if◌then◌else◌,
}

abbrev pub F64 : Type 0
F64 = ℕ

exponent : F64 → ℕ
exponent x = (x / 2 ^ 52) % 2048

fraction : F64 → ℕ
fraction x = x % 2 ^ 52

magnitude : F64 → ℕ
magnitude x = x % 2 ^ 63

unfoldable pub is_finite : F64 → Bool
unfolding exponent
is_finite x = not (exponent x == 2047)

is_nan : F64 → Bool
unfolding exponent fraction
is_nan x = (exponent x == 2047) && not (fraction x == 0)

-- The place of a number in the order of `<`: both zeros stand at `2 ^ 63`.
rank : F64 → ℕ
unfolding magnitude
rank x = if ltb x (2 ^ 63) then 2 ^ 63 + magnitude x else 2 ^ 63 - magnitude x

-- `a < b`, `a <= b` and `a == b`: false on NaN.
unfoldable pub float_lt : F64 → F64 → Bool
unfolding is_nan rank
float_lt a b = not (is_nan a || is_nan b) && ltb (rank a) (rank b)

pub float_le : F64 → F64 → Bool
unfolding is_nan rank
float_le a b = not (is_nan a || is_nan b) && leb (rank a) (rank b)

pub float_eq : F64 → F64 → Bool
unfolding is_nan rank
float_eq a b = not (is_nan a || is_nan b) && (rank a == rank b)

-- The size of a finite number, in units of `2 ^ -1075`.
scaled : F64 → ℕ
unfolding exponent fraction
scaled x = (if exponent x == 0 then fraction x else 2 ^ 52 + fraction x) * 2 ^ max (exponent x) 1

-- `x.fract() == 0.0` of a finite number.
unfoldable pub is_integral : F64 → Bool
unfolding scaled
is_integral x = scaled x % 2 ^ 1075 == 0

-- `x as u64` and `x as i32` of a number that is not negative.
truncate : F64 → ℕ
unfolding scaled
truncate x = scaled x / 2 ^ 1075

pub as_u64 : F64 → ℕ
unfolding truncate
as_u64 x = if leb (truncate x) (2 ^ 64 - 1) then truncate x else 2 ^ 64 - 1

unfoldable pub as_i32 : F64 → ℕ
unfolding truncate
as_i32 x = if leb (truncate x) (2 ^ 31 - 1) then truncate x else 2 ^ 31 - 1

abbrev pub zero_f64 : F64
zero_f64 = 0

abbrev pub one_f64 : F64
one_f64 = 0x3ff0000000000000

abbrev pub eight_f64 : F64
eight_f64 = 0x4020000000000000

abbrev pub two_hundred_f64 : F64
two_hundred_f64 = 0x4069000000000000

-- `i32::MAX as f64`
abbrev pub i32_max_f64 : F64
i32_max_f64 = 0x41dfffffffc00000

as_i32_two_hundred : as_i32 two_hundred_f64 ≡ 200
unfolding as_i32
as_i32_two_hundred = refl

as_i32_max : as_i32 i32_max_f64 ≡ 2147483647
unfolding as_i32
as_i32_max = refl

is_integral_half : is_integral 0x3fe0000000000000 ≡ false
unfolding is_integral
is_integral_half = refl

zeros_equal : float_eq 0 0x8000000000000000 ≡ true
unfolding float_eq
zeros_equal = refl
