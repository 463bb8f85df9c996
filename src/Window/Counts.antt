-- ===== src/Window/Counts.antt =====
-- The observation counts of asap-precompute-rs/src/window.rs.
use asapcollector_public.Common.{ℕ, ◌+◌, ◌<◌, ◌≡◌, ◌≢◌, refl, some, arith, if◌then◌else◌, u64_mod}
use asapcollector_public.Common.Text.{Text}
use asapcollector_public.Common.Assoc.{text_key, total, total-alter, total-push, le-total}
use asapcollector_public.Envelope.{SketchEnvelope}
use asapcollector_public.Observation.{Observation}
use asapcollector_public.Config.{PrecomputeConfig, evict_oldest}
use asapcollector_public.Sketch.{Sketch, SketchFactory, SketchObserver, is_ok}
use asapcollector_public.Stats.{StatsSnapshot}
use asapcollector_public.Window.{
  SeriesEntry, Series, WindowState, Outcome, make_room, overflow, observe, observe_known,
  observe_entry, touch, new_entry,
}
use asapcollector_public.Window.Merge.{
  observe_envelope, insert_missing, merge_entry, envelope_entry, reference_ms,
}
use asapcollector_public.Window.Cases.{
  keyed, series-init_window, observe_cases, observe_new_cases, observe_envelope_cases,
}

module _ {S : Type 0} where
  -- The observations that the open window has accepted.
  abbrev pub total_count : Series S → ℕ
  total_count = total (λ e. e.count)

  -- The count goes up by `n` if the call succeeds, and stays if it fails.
  abbrev pub Adds : ℕ → Series S → Outcome S → Type 0
  Adds n series o = total_count o.1.series ≡ total_count series + (if is_ok o.0 then n else 0)

  count-observe_entry :
      (observer : SketchObserver S) (obs : Observation) (e : SeriesEntry S)
      → e.count + 1 < u64_mod
      → (observe_entry observer obs e).1.count
        ≡ e.count + (if is_ok (observe_entry observer obs e).0 then 1 else 0)
  unfolding observe_entry
  count-observe_entry observer obs e h = ground arith

  count-merge_entry :
      (ops : Sketch S) (env : SketchEnvelope) (e : SeriesEntry S)
      → e.count + env.count < u64_mod
      → (merge_entry ops env e).1.count
        ≡ e.count + (if is_ok (merge_entry ops env e).0 then env.count else 0)
  unfolding merge_entry
  count-merge_entry ops env e h = ground arith

  count-new_entry :
      (cfg : PrecomputeConfig) (factory : SketchFactory S) (obs : Observation)
      → (new_entry cfg factory obs).count ≡ 0
  unfolding new_entry
  count-new_entry cfg factory obs = refl

  -- Where nothing is evicted, the series stay.
  room_unchanged :
      (cfg : PrecomputeConfig) (series : Series S) (stats : StatsSnapshot) (series' : Series S)
      (stats' : StatsSnapshot)
      → cfg.on_overflow ≢ evict_oldest
      → make_room cfg series stats ≡ some (series', stats')
      → series' ≡ series
  unfolding make_room overflow
  room_unchanged cfg series stats series' stats' policy h = ground arith

  -- Under `Drop` or `Block`, `observe` adds one to the counts of the window if it succeeds, and
  -- nothing if it fails, as long as their sum stays below the end of `u64`.
  pub observe-Adds :
      (cfg : PrecomputeConfig) (factory : SketchFactory S) (observer : SketchObserver S)
      (obs : Observation) (w : WindowState S) (stats : StatsSnapshot)
      → cfg.on_overflow ≢ evict_oldest
      → total_count w.series + 1 < u64_mod
      → Adds 1 w.series (observe cfg factory observer obs w stats)
  unfolding observe_known touch
  observe-Adds cfg factory observer obs w stats policy small =
      observe_cases (Adds 1 w.series) cfg factory observer obs w stats
        (λ _. rw (series-init_window obs.timestamp_ms cfg w) (omega arith))
        (λ e found. rw (series-init_window obs.timestamp_ms cfg w) (
          omega (
            arith,
            total-alter (λ e. e.count) (keyed cfg obs w).key e
                (observe_entry observer obs (touch obs e)).1 w.series found,
            le-total (λ e. e.count) (keyed cfg obs w).key e w.series found,
            count-observe_entry observer obs (touch obs e),
          )))
        (λ fresh.
          observe_new_cases (Adds 1 w.series) cfg factory observer obs (keyed cfg obs w) stats
            (λ _. rw (series-init_window obs.timestamp_ms cfg w) (omega arith))
            (λ series stats' room.
              let same =
                room_unchanged cfg w.series stats series stats' policy
                  (rw (series-init_window obs.timestamp_ms cfg w) at room) in
              rw same (
                omega (
                  arith,
                  total-push (λ e. e.count) (keyed cfg obs w).key
                      (observe_entry observer obs (new_entry cfg factory obs)).1 w.series,
                  count-observe_entry observer obs (new_entry cfg factory obs),
                  count-new_entry cfg factory obs,
                ))))

  -- Whether the series was there or is made, the total stays.
  total-insert_missing :
      (cfg : PrecomputeConfig) (factory : SketchFactory S) (env : SketchEnvelope) (k : Text)
      (series : Series S) (stats : StatsSnapshot) (series' : Series S) (stats' : StatsSnapshot)
      → insert_missing cfg factory env k series stats ≡ some (series', stats')
      → total_count series' ≡ total_count series
  unfolding insert_missing envelope_entry
  total-insert_missing cfg factory env k series stats series' stats' h =
      ground
        (arith, total-push (λ (e : SeriesEntry S). e.count) k (envelope_entry factory env) series)

  -- `observe_envelope` adds the count of the envelope to the counts of the window if it succeeds,
  -- and nothing if it fails, as long as their sum stays below the end of `u64`.
  pub observe_envelope-Adds :
      (cfg : PrecomputeConfig) (ops : Sketch S) (factory : SketchFactory S) (env : SketchEnvelope)
      (w : WindowState S) (stats : StatsSnapshot)
      → total_count w.series + env.count < u64_mod
      → Adds env.count w.series (observe_envelope cfg ops factory env w stats)
  observe_envelope-Adds cfg ops factory env w stats small =
      observe_envelope_cases (Adds env.count w.series) cfg ops factory env w stats
        (λ _. rw (series-init_window (reference_ms env) cfg w) (omega arith))
        (λ series stats' e inserted found. omega (
          arith,
          total-insert_missing cfg factory env _ w.series stats series stats' inserted,
          total-alter (λ e. e.count) _ e (merge_entry ops env e).1 series found,
          le-total (λ e. e.count) _ e series found,
          count-merge_entry ops env e,
        ))
