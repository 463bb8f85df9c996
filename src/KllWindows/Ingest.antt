-- ===== src/KllWindows/Ingest.antt =====
-- `new`, `observe` and `merge_pane` of asap-precompute-rs/src/kll_windows.rs.
use asapcollector_public.Common.{
  ℕ, ◌+◌, ◌*◌, ◌/◌, Bool, true, false, ◌&&◌, ◌||◌, not, Option, none, some, List, [], ◌∷◌, any, ltb,
  leb, ◌==◌, if◌then◌else◌, u64_mod, saturating_add,
}
use asapcollector_public.Common.Text.{Text, text}
use asapcollector_public.Common.Trees.{entry}
use asapcollector_public.Common.Assoc.{lookup, push, alter, contains_key, text_key, number_key}
use asapcollector_public.Float.{
  F64, is_finite, float_lt, is_integral, as_i32, eight_f64, two_hundred_f64, i32_max_f64,
}
use asapcollector_public.Envelope.{KeyValue, SketchEnvelope, kll_sketch, same_type}
use asapcollector_public.Error.{Result, ok, err, late_data, agg_id_mismatch}
use asapcollector_public.Observation.{Observation, is_float}
use asapcollector_public.Config.{
  PrecomputeConfig, Duration, matches, series_key_for_entry, sketch_param_get, param,
}
use asapcollector_public.Sketch.{merge}
use asapcollector_public.Kll.{KllLib, new_kll, from_snapshot, update, kll_sketch_ops}
use asapcollector_public.KllWindows.{
  invalid, PaneSeries, Pane, KllWindowStore, Stored, is_multiple_of, is_bad_quantile, non_zero_bits,
  cutoff, advance, admit, labels_of,
}

abbrev aligned_message : Text
aligned_message = text "retention must be a positive multiple of a nonzero millisecond pane"

abbrev pub bad_retention : Duration → Duration → Bool
bad_retention pane retention =
    let pane_ms = pane / 1000000 in
    let retention_ms = retention / 1000000 in
    not (is_multiple_of pane 1000000)
    || (not (is_multiple_of retention 1000000)
        || ((pane_ms == 0)
            || (ltb retention_ms pane_ms || not (is_multiple_of retention_ms pane_ms))))

abbrev is_bad_k : F64 → Bool
is_bad_k k =
    not (is_finite k) || (float_lt k eight_f64 || (float_lt i32_max_f64 k || not (is_integral k)))

abbrev pub is_empty_payload : List ℕ → Bool
is_empty_payload [] = true
is_empty_payload (b ∷ payload) = false

module _ {K : Type 0} where
  unfoldable pub new : PrecomputeConfig → Duration → Duration → Result (KllWindowStore K)
  new config pane retention =
      let pane_ms = pane / 1000000 in
      let retention_ms = retention / 1000000 in
      let k = sketch_param_get config.sketch_params (text "k") two_hundred_f64 in
      if leb u64_mod pane_ms
      then err (invalid (text "pane duration overflow"))
      else if leb u64_mod retention_ms
      then err (invalid (text "retention duration overflow"))
      else if bad_retention pane retention
      then err (invalid aligned_message)
      else if not (same_type config.sketch_type kll_sketch)
      then err (invalid (text "requires KLL"))
      else if is_bad_k k
      then err (invalid (text "k must be an integer between 8 and i32::MAX"))
      else if any is_bad_quantile config.quantiles
      then err (invalid (text "quantiles must be finite values in [0, 1]"))
      else ok (record {
        config = config;
        pane_ms = pane_ms;
        retention_ms = retention_ms;
        closed_until = 0;
        panes = [];
        k = as_i32 k;
        seed = non_zero_bits (param (text "seed") config.sketch_params);
      })

  -- `entry(key).or_insert_with(fresh)`, and what is then done with the series.
  unfoldable pub upsert : Text → PaneSeries K → (PaneSeries K → PaneSeries K) → Pane K → Pane K
  upsert key fresh f pane =
      if contains_key key pane then alter key f pane else push key (f fresh) pane

  abbrev or_fresh : PaneSeries K → Option (PaneSeries K) → PaneSeries K
  or_fresh fresh none = fresh
  or_fresh fresh (some e) = e

  abbrev in_pane : Text → Option (Pane K) → Option (PaneSeries K)
  in_pane key none = none
  in_pane key (some pane) = lookup key pane

  -- The series that `upsert` works on.
  unfoldable pub series_at : ℕ → Text → PaneSeries K → KllWindowStore K → PaneSeries K
  series_at start key fresh s = or_fresh fresh (in_pane key (lookup start s.panes))

  -- A series of a pane changes, or begins.
  unfoldable pub put :
      ℕ → Text → PaneSeries K → (PaneSeries K → PaneSeries K) → KllWindowStore K → KllWindowStore K
  put start key fresh f s = record s { panes = entry start [] (upsert key fresh f) s.panes }

module _ {K : Type 0} (lib : KllLib K) where
  abbrev empty_series : KllWindowStore K → List KeyValue × List KeyValue → PaneSeries K
  empty_series s (resource, labels) = record {
    sketch = new_kll lib s.k s.seed;
    resource_labels = resource;
    labels = labels;
    count = 0;
  }

  unfoldable pub add_value : F64 → PaneSeries K → PaneSeries K
  add_value v e = record e { sketch = update lib e.sketch v; count = saturating_add e.count 1 }

  abbrev key_of : KllWindowStore K → List KeyValue × List KeyValue → Text
  key_of s (resource, labels) = series_key_for_entry s.config resource labels

  abbrev pub put_admitted :
      ℕ
      → Text
      → PaneSeries K
      → (PaneSeries K → PaneSeries K)
      → KllWindowStore K
      → Result (Unit {0})
      → Stored K
  put_admitted start key fresh f s (err e) = (err e, s)
  put_admitted start key fresh f s (ok _) = (ok tt, put start key fresh f s)

  -- Past the guards of `observe`.
  unfoldable pub observe_pane : Observation → KllWindowStore K → Stored K
  observe_pane obs s =
      let start = (obs.timestamp_ms / s.pane_ms) * s.pane_ms in
      let s' = advance obs.timestamp_ms s in
      let labels = labels_of s' obs.resource_labels obs.labels in
      let key = key_of s' labels in
      put_admitted start key (empty_series s' labels) (add_value obs.value.float) s' (admit key s')

  unfoldable pub observe : Observation → KllWindowStore K → Stored K
  observe obs s =
      let start = (obs.timestamp_ms / s.pane_ms) * s.pane_ms in
      let placed = observe_pane obs s in
      if not (matches s.config obs)
      then (ok tt, s)
      else if not (is_float obs.value.kind) || not (is_finite obs.value.float)
      then (err (invalid (text "expected a finite scalar observation")), s)
      else if ltb obs.timestamp_ms s.closed_until
      then (err late_data, s)
      else if leb u64_mod (start + s.pane_ms)
      then (err (invalid (text "pane end overflow")), s)
      else placed

  -- `entry.sketch.merge(&sketch)?`, then the count.
  unfoldable pub add_pane : K → ℕ → PaneSeries K → Result (Unit {0}) × PaneSeries K
  add_pane source n e =
      let (r, sketch) = merge (kll_sketch_ops lib) e.sketch source in
      elim r [
        | ok _ ↦ (ok tt, record e { sketch = sketch; count = saturating_add e.count n })
        | err x ↦ (err x, record e { sketch = sketch })
      ]

  abbrev pub merge_admitted :
      SketchEnvelope → K → Text → PaneSeries K → KllWindowStore K → Result (Unit {0}) → Stored K
  merge_admitted env source key fresh s (err e) = (err e, s)
  merge_admitted env source key fresh s (ok _) = (
    (add_pane source env.count (series_at env.window_start_ms key fresh s)).0,
    put env.window_start_ms key fresh (λ e. (add_pane source env.count e).1) s,
  )

  -- `merge_pane` from the decoded sketch on.
  unfoldable pub merge_decoded : SketchEnvelope → KllWindowStore K → Result K → Stored K
  merge_decoded env s (err e) = (err e, s)
  merge_decoded env s (ok source) =
      let labels = labels_of s env.resource_labels env.labels in
      let key = key_of s labels in
      let s' = advance env.window_end_ms s in
      if ltb env.window_start_ms (cutoff s)
      then (err late_data, s)
      else merge_admitted env source key (empty_series s' labels) s' (admit key s')

  unfoldable pub merge_pane : SketchEnvelope → KllWindowStore K → Stored K
  merge_pane env s =
      let end_ms = env.window_start_ms + s.pane_ms in
      let merged = merge_decoded env s (from_snapshot lib env.payload) in
      if not (same_type env.sketch_type kll_sketch) || is_empty_payload env.payload
      then (err (invalid (text "inbound pane must contain a full ASAPv1 KLL sketch")), s)
      else if not (s.config.agg_id == 0) && not (env.agg_id == s.config.agg_id)
      then (err (agg_id_mismatch env.agg_id s.config.agg_id), s)
      else if not (is_multiple_of env.window_start_ms s.pane_ms)
          || (leb u64_mod end_ms || not (end_ms == env.window_end_ms))
      then (err (invalid (text "inbound sketch must cover exactly one aligned pane")), s)
      else merged
