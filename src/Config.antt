-- ===== src/Config.antt =====
-- asap-precompute-rs/src/config.rs
use asapcollector_public.Common.{
  ℕ, ◌/◌, ◌%◌, ◌*◌, Bool, true, false, Option, none, some, List, [], ◌∷◌, ◌++◌, find, ◌==◌, not,
  ◌||◌, if◌then◌else◌, u64_mod,
}
use asapcollector_public.Common.Text.{Text, text, decimal}
use asapcollector_public.Common.Assoc.{Assoc, lookup, text_key}
use asapcollector_public.Float.{F64, is_finite, float_lt, is_integral, as_u64, zero_f64}
use asapcollector_public.Envelope.{
  KeyValue, SketchType, unspecified, dd_sketch, kll_sketch, hll_sketch, count_sketch,
  count_min_sketch, count_min_sketch_with_heap, exact,
}
use asapcollector_public.Observation.{Observation}
use asapcollector_public.Matchers.{LabelMatcher, matches_all, series_key, write_series_key}

pub data AggregationMode : Type 0 where
  tumbling sliding batch : AggregationMode

pub data OnOverflow : Type 0 where
  drop block evict_oldest : OnOverflow

-- `std::time::Duration`, in nanoseconds.
abbrev pub Duration : Type 0
Duration = ℕ

-- `as_millis() as u64` and `as_secs()`.
abbrev pub as_millis : Duration → ℕ
as_millis d = d / 1000000 % u64_mod

abbrev pub as_secs : Duration → ℕ
as_secs d = d / 1000000000

abbrev pub from_millis : ℕ → Duration
from_millis ms = ms * 1000000

pub record WindowSpec : Type 0 where
  pub size : Duration
  pub slide : Duration
  pub allowed_lateness : Duration

-- `duration_millis`: the number that is written, and the duration read back.
pub serialize : Duration → ℕ
serialize d = as_millis d

pub deserialize : ℕ → Duration
deserialize ms = from_millis ms

abbrev pub SketchParams : Type 0
SketchParams = Assoc Text F64

abbrev pub param : Text → SketchParams → Option F64
param key params = lookup key params

unfoldable pub sketch_param_get : SketchParams → Text → F64 → F64
sketch_param_get params key default = elim (param key params) [ none ↦ default | some v ↦ v ]

pub as_wire_u64 : F64 → Option ℕ
as_wire_u64 v =
    if not (is_finite v) || (float_lt v zero_f64 || not (is_integral v))
    then none
    else some (as_u64 v)

-- `f64::to_string` is a parameter: the shortest decimal that reads back as the number.
module _ (display : F64 → Text) where
  abbrev wire_text : Option F64 → Option Text
  wire_text none = none
  wire_text (some v) = elim (as_wire_u64 v) [ none ↦ none | some n ↦ some (decimal n) ]

  abbrev times : Option ℕ → Option ℕ → Option Text
  times (some a) (some b) = some (decimal a ++ text " x " ++ decimal b)
  times (some a) none = none
  times none b = none

  abbrev error_bounds : Option F64 → Option F64 → Option Text
  error_bounds (some e) (some d) =
      some (text "epsilon=" ++ display e ++ text ", delta=" ++ display d)
  error_bounds (some e) none = none
  error_bounds none d = none

  abbrev count_sketch_size : SketchParams → Option F64 → Option F64 → Option Text
  count_sketch_size params (some w) (some d) = times (as_wire_u64 w) (as_wire_u64 d)
  count_sketch_size params (some w) none =
      error_bounds (param (text "epsilon") params) (param (text "delta") params)
  count_sketch_size params none d =
      error_bounds (param (text "epsilon") params) (param (text "delta") params)

  abbrev matrix_size : Option F64 → Option F64 → Option Text
  matrix_size (some r) (some c) = times (as_wire_u64 r) (as_wire_u64 c)
  matrix_size (some r) none = none
  matrix_size none c = none

  pub sketch_size_string : SketchType → SketchParams → Option Text
  sketch_size_string dd_sketch params = elim (param (text "relative_accuracy") params) [
    | none ↦ none
    | some v ↦ some (display v)
  ]
  sketch_size_string kll_sketch params = wire_text (param (text "k") params)
  sketch_size_string hll_sketch params = some (text "14")
  sketch_size_string count_sketch params =
      count_sketch_size params (param (text "width") params) (param (text "depth") params)
  sketch_size_string count_min_sketch params =
      matrix_size (param (text "rows") params) (param (text "columns") params)
  sketch_size_string count_min_sketch_with_heap params =
      matrix_size (param (text "rows") params) (param (text "columns") params)
  sketch_size_string unspecified params = none
  sketch_size_string exact params = none

pub record PrecomputeConfig : Type 0 where
  pub agg_id : ℕ
  pub sketch_type : SketchType
  pub mode : AggregationMode
  pub window : WindowSpec
  pub open window use *
  pub matchers : List LabelMatcher
  pub aggregate_by : List Text
  pub transmit_sketch : Bool
  pub quantiles : List F64
  pub sketch_params : SketchParams
  pub max_series : ℕ
  pub on_overflow : OnOverflow
  pub metric_name : Text
  -- an `i32`, as its bits
  pub temporality : ℕ
  pub omit_resource_attrs : Bool
  pub global_aggregation : Bool
  pub emit_window_stats : Bool

abbrev pub default_config : PrecomputeConfig
default_config = record {
  agg_id = 0;
  sketch_type = unspecified;
  mode = tumbling;
  window = record { size = 0; slide = 0; allowed_lateness = 0 };
  matchers = [];
  aggregate_by = [];
  transmit_sketch = true;
  quantiles = [];
  sketch_params = [];
  max_series = 0;
  on_overflow = drop;
  metric_name = [];
  temporality = 0;
  omit_resource_attrs = false;
  global_aggregation = false;
  emit_window_stats = false;
}

unfoldable pub matches : PrecomputeConfig → Observation → Bool
unfolding matches_all
matches cfg obs = elim cfg.matchers [ [] ↦ true | m ∷ ms ↦ matches_all (m ∷ ms) obs ]

unfoldable pub write_series_key_for : PrecomputeConfig → Text → Observation → Text
write_series_key_for cfg buf obs =
    if cfg.global_aggregation
    then write_series_key buf cfg.agg_id [] [] []
    else if cfg.omit_resource_attrs
    then write_series_key buf cfg.agg_id [] obs.labels cfg.aggregate_by
    else write_series_key buf cfg.agg_id obs.resource_labels obs.labels cfg.aggregate_by

pub series_key_for : PrecomputeConfig → Observation → Text
series_key_for cfg obs = write_series_key_for cfg [] obs

unfoldable pub series_key_for_entry : PrecomputeConfig → List KeyValue → List KeyValue → Text
series_key_for_entry cfg resource_labels labels =
    if cfg.global_aggregation
    then series_key cfg.agg_id [] [] []
    else if cfg.omit_resource_attrs
    then series_key cfg.agg_id [] labels cfg.aggregate_by
    else series_key cfg.agg_id resource_labels labels cfg.aggregate_by

pub record PrecomputeConfigSet : Type 0 where
  pub version : ℕ
  pub configs : List PrecomputeConfig

unfoldable pub find_by_agg_id : PrecomputeConfigSet → ℕ → Option PrecomputeConfig
find_by_agg_id cs agg_id = find (λ c. c.agg_id == agg_id) cs.configs
