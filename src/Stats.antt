-- ===== src/Stats.antt =====
-- `StatsSnapshot` of asap-precompute-rs/src/precompute.rs.
use asapcollector_public.Common.{ℕ, ◌+◌, ◌%◌, ◌-◌, u64_mod}

-- `active_series` is an `i64`, as its 64 bits.
pub record StatsSnapshot : Type 0 where
  pub input_observations : ℕ
  pub input_envelopes : ℕ
  pub output_envelopes : ℕ
  pub active_series : ℕ
  pub dropped_overflow : ℕ
  pub dropped_late : ℕ
  pub last_tick_ms : ℕ
  pub last_emitted_envelopes : ℕ

abbrev pub no_stats : StatsSnapshot
no_stats = record {
  input_observations = 0;
  input_envelopes = 0;
  output_envelopes = 0;
  active_series = 0;
  dropped_overflow = 0;
  dropped_late = 0;
  last_tick_ms = 0;
  last_emitted_envelopes = 0;
}

-- `active_series += 1` and `active_series -= 1`.
abbrev pub one_more_series : StatsSnapshot → StatsSnapshot
one_more_series s = record s { active_series = (s.active_series + 1) % u64_mod }

abbrev pub one_less_series : StatsSnapshot → StatsSnapshot
one_less_series s = record s { active_series = (s.active_series + u64_mod - 1) % u64_mod }
