-- ===== src/Precompute/Emit.antt =====
-- `tick`, `drain` and the serialization of closed series, of asap-precompute-rs/src/precompute.rs.
use asapcollector_public.Common.{
  ℕ, none, some, List, [], ◌∷◌, ◌++◌, map, length, ◌==◌, if◌then◌else◌, saturating_add,
}
use asapcollector_public.Common.Text.{text, decimal}
use asapcollector_public.Envelope.{KeyValue, SketchEnvelope}
use asapcollector_public.Error.{Result, ok, err}
use asapcollector_public.Matchers.{series_attrs}
use asapcollector_public.Config.{PrecomputeConfig, as_secs}
use asapcollector_public.Sketch.{Sketch, EstimatePoint}
use asapcollector_public.Stats.{StatsSnapshot}
use asapcollector_public.Window.{SeriesEntry, WindowState, Rotation, Outcome}
use asapcollector_public.Window
use asapcollector_public.Window.Rotate
use asapcollector_public.Precompute.{PrecomputeImpl}

-- The labels of every envelope of a series.
unfoldable pub base_labels : {S : Type 0} → PrecomputeConfig → SeriesEntry S → List KeyValue
base_labels cfg entry =
    let attrs = series_attrs entry.labels cfg.aggregate_by in
    let seconds = if cfg.size == 0 then 0 else as_secs cfg.size in
    if cfg.emit_window_stats
    then (attrs ++ record { key = text "sample_count"; value = decimal entry.count } ∷ [])
      ++ record { key = text "window_duration_seconds"; value = decimal seconds } ∷ []
    else attrs

abbrev pub default_top_k : ℕ
default_top_k = 10

module _ {S : Type 0} where
  -- What the two literals of `serialize_series` share.
  unfoldable pub envelope_of : PrecomputeConfig → SeriesEntry S → ℕ → ℕ → SketchEnvelope
  envelope_of cfg entry from_ms to_ms = record {
    schema_version = 1;
    sketch_type = cfg.sketch_type;
    agg_id = cfg.agg_id;
    resource_labels = entry.resource_labels;
    labels = base_labels cfg entry;
    window_start_ms = from_ms;
    window_end_ms = to_ms;
    payload = [];
    metric_name = cfg.metric_name;
    count = entry.count;
    aggregation_temporality = cfg.temporality;
    value = 0;
  }

unfoldable pub estimate_envelope : SketchEnvelope → EstimatePoint → SketchEnvelope
estimate_envelope base p = record base { labels = base.labels ++ p.labels; value = p.value }

abbrev pub with_payload : SketchEnvelope → Result (List ℕ) → Result (List SketchEnvelope)
with_payload base (err e) = err e
with_payload base (ok []) = ok []
with_payload base (ok (b ∷ bytes)) = ok (record base { payload = b ∷ bytes } ∷ [])

abbrev pub or_skipped : Result (List SketchEnvelope) → List SketchEnvelope
or_skipped (ok envs) = envs
or_skipped (err e) = []

abbrev pub emitted : ℕ → List SketchEnvelope → StatsSnapshot → StatsSnapshot
emitted now_ms envs stats = record stats {
  output_envelopes = saturating_add stats.output_envelopes (length envs);
  last_tick_ms = now_ms;
  last_emitted_envelopes = length envs;
}

abbrev pub Emitted : Type 0 → Type 0
Emitted S = List SketchEnvelope × PrecomputeImpl S

module _ {S : Type 0} (ops : Sketch S) where
  unfoldable pub serialize_series :
      SeriesEntry S → PrecomputeConfig → ℕ → ℕ → Result (List SketchEnvelope)
  serialize_series entry cfg from_ms to_ms =
      let base = envelope_of cfg entry from_ms to_ms in
      if cfg.transmit_sketch
      then with_payload base (ops.snapshot entry.sketch)
      else ok (map (estimate_envelope base) (ops.estimate entry.sketch cfg.quantiles default_top_k))

  -- The loop of `finish_rotate`: a series that cannot be serialized is skipped.
  unfoldable pub serialize_all :
      PrecomputeConfig → ℕ → ℕ → List (SeriesEntry S) → List SketchEnvelope
  serialize_all cfg from_ms to_ms [] = []
  serialize_all cfg from_ms to_ms (entry ∷ closed) =
      or_skipped (serialize_series entry cfg from_ms to_ms)
      ++ serialize_all cfg from_ms to_ms closed

  unfoldable pub finish_with : PrecomputeConfig → Rotation S → ℕ → PrecomputeImpl S → Emitted S
  finish_with cfg r now_ms p =
      let envs = serialize_all cfg r.from_ms r.to_ms r.closed in
      (envs, record p { stats = emitted now_ms envs p.stats })

  unfoldable pub finish_rotate : Rotation S → ℕ → PrecomputeImpl S → Emitted S
  finish_rotate r now_ms p = elim r.closed [
    | [] ↦ ([], p)
    | entry ∷ rest ↦ elim p.cfg [ none ↦ ([], p) | some cfg ↦ finish_with cfg r now_ms p ]
  ]

  unfoldable pub tick : ℕ → PrecomputeImpl S → Emitted S
  tick now_ms p = elim p.cfg [
    | none ↦ ([], p)
    | some cfg ↦
        let r = Window.Rotate.rotate cfg now_ms p.window in
        finish_rotate r now_ms (record p { window = r.window })
  ]

  unfoldable pub drain : PrecomputeImpl S → Emitted S
  drain p = elim p.cfg [
    | none ↦ ([], p)
    | some cfg ↦
        let r = Window.Rotate.drain_window cfg p.window in
        finish_rotate r r.to_ms (record p { window = r.window })
  ]
