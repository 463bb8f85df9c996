-- ===== src/KllWindows.antt =====
-- `KllWindowStore` of asap-precompute-rs/src/kll_windows.rs: tumbling panes of KLL sketches, kept
-- for a retention time. A `BTreeMap` is the list of its entries in ascending order of the keys.
pub mod Ingest
pub mod Query
pub mod Retention
use asapcollector_public.Common.{
  ℕ, ◌+◌, ◌-◌, ◌*◌, ◌/◌, ◌%◌, Bool, true, false, ◌&&◌, ◌||◌, not, Option, none, some, List, [], ◌∷◌,
  ◌++◌, map, any, length, ltb, leb, ◌==◌, if◌then◌else◌, u64_mod, u64_max, saturating_add,
}
use asapcollector_public.Common.Text.{Text, text, text_eq}
use asapcollector_public.Common.Trees.{split_off}
use asapcollector_public.Common.Assoc.{
  Assoc, lookup, push, alter, contains_key, keys, text_key, number_key,
}
use asapcollector_public.Float.{
  F64, is_finite, float_lt, float_le, float_eq, is_integral, as_i32, zero_f64, one_f64, eight_f64,
  two_hundred_f64, i32_max_f64,
}
use asapcollector_public.Envelope.{KeyValue, SketchEnvelope, kll_sketch, same_type}
use asapcollector_public.Error.{
  PrecomputeError, Result, ok, err, series_cap_exceeded, late_data, agg_id_mismatch, other,
}
use asapcollector_public.Observation.{Observation, is_float}
use asapcollector_public.Matchers.{series_attrs}
use asapcollector_public.Config.{
  PrecomputeConfig, Duration, matches, series_key_for_entry, sketch_param_get, param,
}
use asapcollector_public.Sketch.{merge}
use asapcollector_public.Kll.{KllLib, new_kll, from_snapshot, update, kll_sketch_ops}

abbrev pub invalid : Text → PrecomputeError
invalid message = other (text "KLL windows: " ++ message)

pub record PaneSeries (K : Type 0) : Type 0 where
  pub sketch : K
  pub resource_labels : List KeyValue
  pub labels : List KeyValue
  pub count : ℕ

abbrev pub Pane : Type 0 → Type 0
Pane K = Assoc Text (PaneSeries K)

pub record KllWindowStore (K : Type 0) : Type 0 where
  pub config : PrecomputeConfig
  pub pane_ms : ℕ
  pub retention_ms : ℕ
  pub closed_until : ℕ
  pub panes : Assoc ℕ (Pane K)
  pub k : ℕ
  pub seed : Option ℕ

abbrev pub is_multiple_of : ℕ → ℕ → Bool
is_multiple_of n m = if m == 0 then n == 0 else n % m == 0

abbrev pub saturating_sub : ℕ → ℕ → ℕ
saturating_sub a b = a - b

-- Not a finite number of `[0, 1]`.
abbrev pub is_bad_quantile : F64 → Bool
is_bad_quantile q = not (is_finite q) || not (float_le zero_f64 q && float_le q one_f64)

abbrev pub non_zero_bits : Option F64 → Option ℕ
non_zero_bits none = none
non_zero_bits (some v) = if float_eq v zero_f64 then none else some v

-- The distinct keys of a list.
unfoldable pub distinct : List Text → List Text
distinct [] = []
distinct (x ∷ xs) = let rest = distinct xs in if any (text_eq x) xs then rest else x ∷ rest

module _ {K : Type 0} where
  -- `flat_map(|pane| pane.keys()).collect::<HashSet<_>>()`
  pane_keys : Assoc ℕ (Pane K) → List Text
  pane_keys [] = []
  pane_keys ((start, pane) ∷ panes) = keys pane ++ pane_keys panes

  unfoldable pub cutoff : KllWindowStore K → ℕ
  cutoff s = saturating_sub s.closed_until s.retention_ms

  unfoldable pub advance : ℕ → KllWindowStore K → KllWindowStore K
  unfolding split_off
  advance now_ms s =
      let boundary = (now_ms / s.pane_ms) * s.pane_ms in
      if leb boundary s.closed_until then s else record s {
        closed_until = boundary;
        panes = split_off (saturating_sub boundary s.retention_ms) s.panes;
      }

  pub retained_panes : KllWindowStore K → ℕ
  retained_panes s = length s.panes

  unfoldable pub retained_series : KllWindowStore K → ℕ
  unfolding pane_keys distinct
  retained_series s = length (distinct (pane_keys s.panes))

  unfoldable pub admit : Text → KllWindowStore K → Result (Unit {0})
  unfolding retained_series
  admit key s =
      if (s.config.max_series == 0) || any (λ p. contains_key key p.1) s.panes
      then ok tt
      else if leb s.config.max_series (retained_series s)
      then err series_cap_exceeded
      else ok tt

  unfoldable pub labels_of :
      KllWindowStore K → List KeyValue → List KeyValue → List KeyValue × List KeyValue
  labels_of s resource labels = if s.config.global_aggregation then ([], []) else (
    if s.config.omit_resource_attrs then [] else resource,
    series_attrs labels s.config.aggregate_by,
  )

abbrev pub Stored : Type 0 → Type 0
Stored K = Result (Unit {0}) × KllWindowStore K
