-- ===== src/KllWindows/Query.antt =====
-- `query`, `estimate` and `quantile_over_time` of asap-precompute-rs/src/kll_windows.rs.
use asapcollector_public.Common.{
  ℕ, ◌&&◌, ◌||◌, not, Option, none, some, List, [], ◌∷◌, ◌++◌, map, any, ltb, leb, if◌then◌else◌,
}
use asapcollector_public.Common.Text.{Text, text}
use asapcollector_public.Common.Trees.{text_put}
use asapcollector_public.Common.Assoc.{Assoc, lookup, text_key, number_key}
use asapcollector_public.Float.{F64, zero_f64}
use asapcollector_public.Envelope.{SketchEnvelope, kll_sketch}
use asapcollector_public.Error.{◌>>=◌, Result, ok, err}
use asapcollector_public.Sketch.{EstimatePoint}
use asapcollector_public.Kll.{snapshot_kll, estimate_kll, KllLib, new_kll, from_snapshot}
use asapcollector_public.KllWindows.{
  invalid, PaneSeries, Pane, KllWindowStore, is_multiple_of, is_bad_quantile, cutoff,
}
use asapcollector_public.KllWindows.Ingest.{add_pane}

-- `panes.range(start_ms..end_ms)`
unfoldable pub range : {V : Type 0} → ℕ → ℕ → Assoc ℕ V → List V
range start_ms end_ms [] = []
range start_ms end_ms ((j, v) ∷ m) =
    let rest = range start_ms end_ms m in if leb start_ms j && ltb j end_ms then v ∷ rest else rest

module _ {K : Type 0} (lib : KllLib K) where
  abbrev or_empty : KllWindowStore K → PaneSeries K → Option (PaneSeries K) → PaneSeries K
  or_empty s source none = record {
    sketch = new_kll lib s.k s.seed;
    resource_labels = source.resource_labels;
    labels = source.labels;
    count = 0;
  }
  or_empty s source (some e) = e

  abbrev put_ok : Text → Pane K → Result (Unit {0}) × PaneSeries K → Result (Pane K)
  put_ok key merged (ok _, e) = ok (text_put key e merged)
  put_ok key merged (err x, e) = err x

  -- The loops over the panes and over the series of each.
  unfoldable pub add_sources : KllWindowStore K → Pane K → Pane K → Result (Pane K)
  add_sources s merged [] = ok merged
  add_sources s merged ((key, source) ∷ pane) =
      put_ok key merged
        (add_pane lib source.sketch source.count (or_empty s source (lookup key merged)))
      >>= λ merged'. add_sources s merged' pane

  unfoldable pub add_panes : KllWindowStore K → Pane K → List (Pane K) → Result (Pane K)
  add_panes s merged [] = ok merged
  add_panes s merged (pane ∷ panes) =
      add_sources s merged pane >>= λ merged'. add_panes s merged' panes

  unfoldable pub envelope_of : KllWindowStore K → ℕ → ℕ → PaneSeries K → List ℕ → SketchEnvelope
  envelope_of s start_ms end_ms e payload = record {
    schema_version = 1;
    sketch_type = kll_sketch;
    agg_id = s.config.agg_id;
    resource_labels = e.resource_labels;
    labels = e.labels;
    window_start_ms = start_ms;
    window_end_ms = end_ms;
    payload = payload;
    metric_name = s.config.metric_name;
    count = e.count;
    aggregation_temporality = 1;
    value = zero_f64;
  }

  unfoldable pub collect : KllWindowStore K → ℕ → ℕ → Pane K → Result (List SketchEnvelope)
  collect s start_ms end_ms [] = ok []
  collect s start_ms end_ms ((key, e) ∷ merged) = snapshot_kll lib e.sketch >>= λ payload.
      collect s start_ms end_ms merged >>= λ rest.
      ok (envelope_of s start_ms end_ms e payload ∷ rest)

  unfoldable pub query : ℕ → ℕ → KllWindowStore K → Result (List SketchEnvelope)
  query start_ms end_ms s =
      let answer = add_panes s [] (range start_ms end_ms s.panes) >>= λ merged.
      collect s start_ms end_ms merged in
      if leb end_ms start_ms
        || (not (is_multiple_of start_ms s.pane_ms) || not (is_multiple_of end_ms s.pane_ms))
      then err (invalid (text "query bounds must describe a nonempty aligned range"))
      else if ltb s.closed_until end_ms || ltb start_ms (cutoff s)
      then err (invalid (text "query includes an open or expired pane"))
      else answer

  abbrev pub point_envelope : SketchEnvelope → EstimatePoint → SketchEnvelope
  point_envelope env point = record env {
    payload = [];
    value = point.value;
    labels = env.labels ++ point.labels;
  }

  unfoldable pub estimates : List F64 → List SketchEnvelope → Result (List SketchEnvelope)
  estimates quantiles [] = ok []
  estimates quantiles (env ∷ envs) = from_snapshot lib env.payload >>= λ sketch.
      estimates quantiles envs >>= λ rest.
      ok (map (point_envelope env) (estimate_kll lib sketch quantiles 0) ++ rest)

  unfoldable pub quantile_over_time :
      ℕ → ℕ → List F64 → KllWindowStore K → Result (List SketchEnvelope)
  quantile_over_time start_ms end_ms quantiles s =
      let answer = query start_ms end_ms s >>= λ envs. estimates quantiles envs in
      if any is_bad_quantile quantiles
      then err (invalid (text "quantiles must be finite values in [0, 1]"))
      else answer

  unfoldable pub estimate : ℕ → ℕ → KllWindowStore K → Result (List SketchEnvelope)
  estimate start_ms end_ms s = quantile_over_time start_ms end_ms s.config.quantiles s
