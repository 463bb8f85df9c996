-- ===== src/Window/Merge.antt =====
-- `observe_envelope` of asap-precompute-rs/src/window.rs: sketches that come in.
use asapcollector_public.Common.{
  ℕ, Bool, true, false, ◌&&◌, Option, none, some, ◌==◌, if◌then◌else◌, wrapping_add,
}
use asapcollector_public.Common.Text.{Text, text}
use asapcollector_public.Common.Assoc.{lookup, push, alter, text_key}
use asapcollector_public.Envelope.{SketchEnvelope}
use asapcollector_public.Error.{Result, err, series_cap_exceeded, other}
use asapcollector_public.Config.{PrecomputeConfig, OnOverflow, evict_oldest, series_key_for_entry}
use asapcollector_public.Sketch.{Sketch, SketchFactory, is_ok}
use asapcollector_public.Stats.{StatsSnapshot, one_more_series}
use asapcollector_public.Window.{SeriesEntry, Series, WindowState, Outcome, init_window, at_cap}

unfoldable pub reference_ms : SketchEnvelope → ℕ
reference_ms env = if env.window_end_ms == 0 then env.window_start_ms else env.window_end_ms

abbrev pub is_refusing : OnOverflow → Bool
is_refusing evict_oldest = false
is_refusing _ = true

module _ {S : Type 0} where
  unfoldable pub envelope_entry : SketchFactory S → SketchEnvelope → SeriesEntry S
  unfolding reference_ms
  envelope_entry factory env = record {
    sketch = factory tt;
    resource_labels = env.resource_labels;
    labels = env.labels;
    last_seen_ms = reference_ms env;
    count = 0;
  }

  -- `entry.sketch.merge_snapshot(&env.payload)?; entry.count += env.count`
  unfoldable pub merge_entry :
      Sketch S → SketchEnvelope → SeriesEntry S → Result (Unit {0}) × SeriesEntry S
  merge_entry ops env e =
      let (r, sketch) = ops.merge_snapshot e.sketch env.payload in
      (
        r,
        record e {
          sketch = sketch;
          count = if is_ok r then wrapping_add e.count env.count else e.count;
        },
      )

module _ {S : Type 0} (cfg : PrecomputeConfig) where
  -- `if !self.series.contains_key(&key) { … }`; `none` is `SeriesCapExceeded`.
  unfoldable pub insert_missing :
      SketchFactory S
      → SketchEnvelope
      → Text
      → Series S
      → StatsSnapshot
      → Option (Series S × StatsSnapshot)
  insert_missing factory env key series stats = elim (lookup key series) [
    | some e ↦ some (series, stats)
    | none ↦
        if at_cap cfg series && is_refusing cfg.on_overflow
        then none
        else some (push key (envelope_entry factory env) series, one_more_series stats)
  ]

  -- The `none` case is the panic of `expect`.
  unfoldable pub merge_at :
      Sketch S → SketchEnvelope → Text → WindowState S → StatsSnapshot → Outcome S
  merge_at ops env key w stats = elim (lookup key w.series) [
    | none ↦ (err (other (text "series entry must exist after insert")), w, stats)
    | some e ↦
        let (r, e') = merge_entry ops env e in
        (r, record w { series = alter key (λ _. e') w.series }, stats)
  ]

  unfoldable pub observe_envelope :
      Sketch S → SketchFactory S → SketchEnvelope → WindowState S → StatsSnapshot → Outcome S
  observe_envelope ops factory env w stats =
      let w' = init_window (reference_ms env) cfg w in
      let key = series_key_for_entry cfg env.resource_labels env.labels in
      elim (insert_missing factory env key w'.series stats) [
        | none ↦ (err series_cap_exceeded, w', stats)
        | some (series, stats') ↦ merge_at ops env key (record w' { series = series }) stats'
      ]
