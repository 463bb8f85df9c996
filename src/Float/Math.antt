-- ===== src/Float/Math.antt =====
-- The arithmetic and the formatting of `f64`, which the processor and the standard library do: a
-- parameter of what uses it. The order of `total_cmp` is defined.
use asapcollector_public.Common.{ℕ, ◌-◌, ◌+◌, ◌%◌, ◌^◌, Bool, List, leb, ltb, if◌then◌else◌}
use asapcollector_public.Common.Text.{Text}
use asapcollector_public.Float.{F64}

pub record FloatLib : Type 0 where
  -- `n as f64` of a `u64`
  pub of_u64 : ℕ → F64
  -- `n as f64` of the bits of an `i64`
  pub of_i64 : ℕ → F64
  -- `x.round() as i64`, as its bits
  pub round_i64 : F64 → ℕ
  pub add : F64 → F64 → F64
  pub sub : F64 → F64 → F64
  pub mul : F64 → F64 → F64
  pub div : F64 → F64 → F64
  -- `a.max(b)`
  pub larger : F64 → F64 → F64
  -- `x.round() as usize`
  pub round_usize : F64 → ℕ
  -- `iter().sum::<f64>()`
  pub sum : List F64 → F64
  -- `x.to_string()`
  pub display : F64 → Text
  -- `format!("{x:.n}")`
  pub fixed : ℕ → F64 → Text

-- `x.abs()`
abbrev pub abs : F64 → F64
abs x = x % 2 ^ 63

-- The place of the bits of a number in the order of `total_cmp`.
abbrev total_rank : F64 → ℕ
total_rank x = if ltb x (2 ^ 63) then 2 ^ 63 + x else 2 ^ 64 - x - 1

-- `a.total_cmp(b) != Greater`
unfoldable pub total_le : F64 → F64 → Bool
total_le a b = leb (total_rank a) (total_rank b)
