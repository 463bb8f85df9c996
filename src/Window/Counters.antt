-- ===== src/Window/Counters.antt =====
-- `active_series` over the calls of asap-precompute-rs/src/window.rs.
use asapcollector_public.Common.{
  ◌%◌, ◌≡◌, Option, none, some, arith, inl, inr, Bool-cases, length, u64_mod, u64_max,
}
use asapcollector_public.Common.Text.{Text}
use asapcollector_public.Common.Assoc.{IsMap, text_key, length-alter, length-remove}
use asapcollector_public.Envelope.{SketchEnvelope}
use asapcollector_public.Observation.{Observation}
use asapcollector_public.Config.{PrecomputeConfig, OnOverflow, drop, block, evict_oldest}
use asapcollector_public.Sketch.{Sketch, SketchFactory, SketchObserver}
use asapcollector_public.Stats.{StatsSnapshot}
use asapcollector_public.Window.{
  Series, WindowState, Outcome, make_room, at_cap, overflow, evict, observe_known, observe,
}
use asapcollector_public.Window.Merge.{
  observe_envelope, insert_missing, envelope_entry, reference_ms,
}
use asapcollector_public.Window.Cases.{
  keyed, series-init_window, observe_cases, observe_new_cases, observe_envelope_cases,
}
use asapcollector_public.Window.Eviction.{oldest_key-Scanned}
use asapcollector_public.Window.Cap.{length-push}

module _ {S : Type 0} where
  -- `active_series` is the number of series, as an `i64`.
  abbrev pub Tracks : StatsSnapshot → Series S → Type 0
  Tracks stats series = stats.active_series ≡ length series % u64_mod

  abbrev pub TracksOutcome : Outcome S → Type 0
  TracksOutcome o = Tracks o.2 o.1.series

  evict-Tracks :
      (series : Series S) (stats : StatsSnapshot)
      → IsMap series
      → Tracks stats series
      → Tracks (evict series stats).1 (evict series stats).0
  unfolding evict
  evict-Tracks series stats m t = elim (oldest_key-Scanned none u64_max series m) [
    | inl (r, since) ↦ rw (r, evict) t
    | inr (k, e, r, (found, since), less) ↦
        rw (r, evict) (omega (arith, length-remove k series e found))
  ]

  overflow-Tracks :
      (policy : OnOverflow) (series : Series S) (stats : StatsSnapshot) (series' : Series S)
      (stats' : StatsSnapshot)
      → IsMap series
      → Tracks stats series
      → overflow policy series stats ≡ some (series', stats')
      → Tracks stats' series'
  unfolding overflow
  overflow-Tracks drop series stats series' stats' m t h = cc
  overflow-Tracks block series stats series' stats' m t h = cc
  overflow-Tracks evict_oldest series stats series' stats' m t h =
      let left : (evict series stats).0 ≡ series' = cc in
      let counted : (evict series stats).1 ≡ stats' = cc in
      rw (← left, ← counted) (evict-Tracks series stats m t)

  make_room-Tracks :
      (cfg : PrecomputeConfig) (series : Series S) (stats : StatsSnapshot) (series' : Series S)
      (stats' : StatsSnapshot)
      → IsMap series
      → Tracks stats series
      → make_room cfg series stats ≡ some (series', stats')
      → Tracks stats' series'
  unfolding make_room
  make_room-Tracks cfg series stats series' stats' m t h = elim (Bool-cases (at_cap cfg series)) [
    | inl full ↦ overflow-Tracks cfg.on_overflow series stats series' stats' m t (rw full at h)
    | inr free ↦
        let kept : ◌≡◌ {A = Option (Series S × StatsSnapshot)} (some (series, stats))
            (some (series', stats')) =
          rw free at h in
        let left : series ≡ series' = cc in
        let counted : stats ≡ stats' = cc in rw (← left, ← counted) t
  ]

  -- A counter that tracks the series of a map does so after `observe`, with or without an
  -- eviction.
  pub observe-Tracks :
      (cfg : PrecomputeConfig) (factory : SketchFactory S) (observer : SketchObserver S)
      (obs : Observation) (w : WindowState S) (stats : StatsSnapshot)
      → IsMap w.series
      → Tracks stats w.series
      → TracksOutcome (observe cfg factory observer obs w stats)
  unfolding observe_known
  observe-Tracks cfg factory observer obs w stats m t =
      observe_cases TracksOutcome cfg factory observer obs w stats
        (λ _. rw (series-init_window obs.timestamp_ms cfg w) t)
        (λ e found.
          rw (series-init_window obs.timestamp_ms cfg w, length-alter (keyed cfg obs w).key) t)
        (λ fresh.
          observe_new_cases TracksOutcome cfg factory observer obs (keyed cfg obs w) stats
            (λ _. rw (series-init_window obs.timestamp_ms cfg w) t)
            (λ series stats' room. rw length-push (
              omega (
                arith,
                make_room-Tracks cfg w.series stats series stats' m t
                    (rw (series-init_window obs.timestamp_ms cfg w) at room),
              ))))

  insert_missing-Tracks :
      (cfg : PrecomputeConfig) (factory : SketchFactory S) (env : SketchEnvelope) (k : Text)
      (series : Series S) (stats : StatsSnapshot) (series' : Series S) (stats' : StatsSnapshot)
      → insert_missing cfg factory env k series stats ≡ some (series', stats')
      → Tracks stats series
      → Tracks stats' series'
  unfolding insert_missing
  insert_missing-Tracks cfg factory env k series stats series' stats' h t =
      ground (arith, length-push k (envelope_entry factory env) series)

  -- And after `observe_envelope`.
  pub observe_envelope-Tracks :
      (cfg : PrecomputeConfig) (ops : Sketch S) (factory : SketchFactory S) (env : SketchEnvelope)
      (w : WindowState S) (stats : StatsSnapshot)
      → Tracks stats w.series
      → TracksOutcome (observe_envelope cfg ops factory env w stats)
  observe_envelope-Tracks cfg ops factory env w stats t =
      observe_envelope_cases TracksOutcome cfg ops factory env w stats
        (λ _. rw (series-init_window (reference_ms env) cfg w) t)
        (λ series stats' e inserted found.
          rw length-alter
            (insert_missing-Tracks cfg factory env _ w.series stats series stats' inserted t))
