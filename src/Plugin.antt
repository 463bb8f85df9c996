-- ===== src/Plugin.antt =====
-- asap-precompute-rs/src/otap/config.rs: the configuration of the `asap_sketches` processor, and the
-- sketch, factory and observer that it names. The sketches, the text of an error and the type of the
-- panes are parameters.
pub mod Dispatch
use asapcollector_public.Common.{
  ℕ, ◌+◌, ◌*◌, ◌/◌, ◌%◌, ◌^◌, Bool, true, false, ◌&&◌, ◌||◌, not, Option, none, some, List, [], ◌∷◌,
  map, leb, ◌==◌, if◌then◌else◌,
}
use asapcollector_public.Common.Maps.{or_default}
use asapcollector_public.Common.Text.{Text, text, text_eq}
use asapcollector_public.Config.{
  Duration, SketchParams, PrecomputeConfig, WindowSpec, sliding, tumbling, drop, sketch_param_get,
}
use asapcollector_public.Envelope.{
  SketchType, dd_sketch, kll_sketch, hll_sketch, count_sketch, count_min_sketch,
  count_min_sketch_with_heap,
}
use asapcollector_public.Error.{PrecomputeError, Result, ok, err}
use asapcollector_public.Float.{
  F64, float_lt, float_eq, is_finite, as_u64, zero_f64, one_f64, two_hundred_f64,
}
use asapcollector_public.Kll.{new_kll}
use asapcollector_public.Rolling
use asapcollector_public.Sketch.{SketchFactory, SketchObserver}
use asapcollector_public.Sketches.{
  Kinds, SketchLib, AnySketch, a_dd, a_kll, a_hll, a_count_sketch, a_count_min, a_count_min_heap,
  dd_observer, any_kll_observer, hll_observer, count_sketch_observer, cms_observer,
  cms_heap_observer,
}
use asapcollector_public.Sketches.Matrix
use asapcollector_public.Sketches.Heap

pub record PluginConfig : Type 0 where
  pub sketch_type : Text
  pub window_size : Duration
  pub window_slide : Duration
  pub output_metric_name : Text
  pub agg_id : ℕ
  pub sketch_params : SketchParams
  pub default_key : Option Text
  pub omit_resource_attrs : Bool
  pub global_aggregation : Bool
  pub emit_window_stats : Bool
  pub transmit_sketch : Bool
  pub quantiles : List F64
  pub aggregate_by : List Text
  pub per_attribute : List Text

pub data ConfigError : Type 0 where
  invalid_sliding_window : Text → ConfigError
  unknown_sketch_type : Text → ConfigError
  invalid_window_size : ℕ → ConfigError

pub data Resolved {ℓ} (A : Type ℓ) : Type ℓ where
  resolved : A → Resolved A
  refused : ConfigError → Resolved A

pub record SketchDispatch (kinds : Kinds) : Type 0 where
  pub sketch_type : SketchType
  pub factory : SketchFactory (AnySketch kinds)
  pub observer : SketchObserver (AnySketch kinds)

-- `to_ascii_lowercase`
abbrev lower : ℕ → ℕ
lower c = if leb b'A' c && leb c b'Z' then c + 32 else c

abbrev pub lowercase : Text → Text
lowercase = map lower

unfoldable pub positive_in_unit_interval : F64 → F64 → F64
positive_in_unit_interval v default =
    if float_lt zero_f64 v && float_lt v one_f64 then v else default

unfoldable pub clamp_positive_int : F64 → ℕ → ℕ
clamp_positive_int v default = if is_finite v && float_lt zero_f64 v then as_u64 v else default

abbrev hundredth_f64 : F64
hundredth_f64 = 0x3f847ae147ae147b

abbrev four_f64 : F64
four_f64 = 0x4010000000000000

abbrev ten_f64 : F64
ten_f64 = 0x4024000000000000

abbrev two_thousand_f64 : F64
two_thousand_f64 = 0x40a0000000000000

abbrev seed_of : F64 → Option ℕ
seed_of v = if not (float_eq v zero_f64) then some v else none

module _ {kinds : Kinds} (lib : SketchLib kinds) where
  -- The arms of `build_dispatch`.
  unfoldable pub dispatch_dd : SketchParams → SketchDispatch kinds
  dispatch_dd params =
      let alpha =
        positive_in_unit_interval (sketch_param_get params (text "relative_accuracy") hundredth_f64)
          hundredth_f64 in
      record {
        sketch_type = dd_sketch;
        factory = λ _. a_dd (lib.dd.with_alpha alpha);
        observer = dd_observer lib;
      }

  unfoldable pub dispatch_kll : SketchParams → SketchDispatch kinds
  dispatch_kll params =
      let k = clamp_positive_int (sketch_param_get params (text "k") two_hundred_f64) 200 in
      let seed = seed_of (sketch_param_get params (text "seed") zero_f64) in
      record {
        sketch_type = kll_sketch;
        factory = λ _. a_kll (new_kll lib.kll (k % 2 ^ 32) seed);
        observer = any_kll_observer lib;
      }

  unfoldable pub dispatch_hll : SketchDispatch kinds
  dispatch_hll = record {
    sketch_type = hll_sketch;
    factory = λ _. a_hll lib.hll.empty;
    observer = hll_observer lib;
  }

  unfoldable pub dispatch_count_sketch : PluginConfig → SketchDispatch kinds
  dispatch_count_sketch config =
      let depth =
        clamp_positive_int (sketch_param_get config.sketch_params (text "depth") four_f64) 4 in
      let width =
        clamp_positive_int (sketch_param_get config.sketch_params (text "width") two_thousand_f64)
          2048 in
      record {
        sketch_type = count_sketch;
        factory = λ _. a_count_sketch (Matrix.new lib.count_sketch depth width);
        observer =
            count_sketch_observer lib (or_default config.output_metric_name config.default_key);
      }

  unfoldable pub dispatch_cms : SketchParams → SketchDispatch kinds
  dispatch_cms params =
      let depth = clamp_positive_int (sketch_param_get params (text "depth") four_f64) 4 in
      let width =
        clamp_positive_int (sketch_param_get params (text "width") two_thousand_f64) 2048 in
      record {
        sketch_type = count_min_sketch;
        factory = λ _. a_count_min (Matrix.new lib.count_min depth width);
        observer = cms_observer lib;
      }

  unfoldable pub dispatch_cms_heap : SketchParams → SketchDispatch kinds
  dispatch_cms_heap params =
      let rows = clamp_positive_int (sketch_param_get params (text "rows") four_f64) 4 in
      let columns =
        clamp_positive_int (sketch_param_get params (text "columns") two_thousand_f64) 2048 in
      let k = clamp_positive_int (sketch_param_get params (text "k") ten_f64) 10 in
      record {
        sketch_type = count_min_sketch_with_heap;
        factory = λ _. a_count_min_heap (Heap.new lib.count_min_heap rows columns k);
        observer = cms_heap_observer lib;
      }

  unfoldable pub build_dispatch : PluginConfig → Resolved (SketchDispatch kinds)
  build_dispatch config =
      let normalized = lowercase config.sketch_type in
      let params = config.sketch_params in
      if text_eq normalized (text "ddsketch")
      then resolved (dispatch_dd params)
      else if text_eq normalized (text "kll")
      then resolved (dispatch_kll params)
      else if text_eq normalized (text "hll")
      then resolved dispatch_hll
      else if text_eq normalized (text "countsketch")
      then resolved (dispatch_count_sketch config)
      else if text_eq normalized (text "countminsketch")
      then resolved (dispatch_cms params)
      else if text_eq normalized (text "countminsketch_heap")
      then resolved (dispatch_cms_heap params)
      else refused (unknown_sketch_type config.sketch_type)

  unfoldable pub precompute_config : PluginConfig → SketchDispatch kinds → PrecomputeConfig
  precompute_config config dispatch = record {
    agg_id = config.agg_id;
    sketch_type = dispatch.sketch_type;
    mode = if not (config.window_slide == 0) then sliding else tumbling;
    window = record {
      size = config.window_size;
      slide = config.window_slide;
      allowed_lateness = 0;
    };
    matchers = [];
    aggregate_by = config.aggregate_by;
    transmit_sketch = config.transmit_sketch;
    quantiles = config.quantiles;
    sketch_params = config.sketch_params;
    max_series = 0;
    on_overflow = drop;
    metric_name = config.output_metric_name;
    temporality = 1;
    omit_resource_attrs = config.omit_resource_attrs;
    global_aggregation = config.global_aggregation;
    emit_window_stats = config.emit_window_stats;
  }

  module _ (display : PrecomputeError → Text) where
    abbrev pub check_sliding :
        PrecomputeConfig × SketchDispatch kinds
        → Result (Rolling.RollingState kinds.Kll)
        → Resolved (PrecomputeConfig × SketchDispatch kinds)
    check_sliding pair (ok state) = resolved pair
    check_sliding pair (err e) = refused (invalid_sliding_window (display e))

    abbrev pub with_dispatch :
        PluginConfig
        → Resolved (SketchDispatch kinds)
        → Resolved (PrecomputeConfig × SketchDispatch kinds)
    with_dispatch config (refused e) = refused e
    with_dispatch config (resolved dispatch) =
        let pcfg = precompute_config config dispatch in
        if not (config.window_slide == 0)
        then check_sliding (pcfg, dispatch) (Rolling.new pcfg)
        else resolved (pcfg, dispatch)

    unfoldable pub resolve : PluginConfig → Resolved (PrecomputeConfig × SketchDispatch kinds)
    resolve config =
        if config.window_size == 0
        then refused (invalid_window_size (config.window_size / 1000000))
        else with_dispatch config (build_dispatch config)
