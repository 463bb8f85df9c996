-- ===== src/Window/Cap.antt =====
-- The series cap of asap-precompute-rs/src/window.rs.
use asapcollector_public.Common.{
  ◌+◌, ◌≤◌, ◌<◌, ◌≡◌, refl, true, false, none, some, [], ◌∷◌, arith, ◌⊎◌, inl, inr, Bool-cases,
  length, length-append, u64_max,
}
use asapcollector_public.Common.Text.{Text}
use asapcollector_public.Common.Assoc.{
  lookup, push, remove, IsMap, text_key, length-alter, length-remove,
}
use asapcollector_public.Envelope.{SketchEnvelope}
use asapcollector_public.Observation.{Observation}
use asapcollector_public.Config.{
  PrecomputeConfig, OnOverflow, drop, block, evict_oldest, series_key_for_entry,
}
use asapcollector_public.Sketch.{Sketch, SketchFactory, SketchObserver}
use asapcollector_public.Stats.{StatsSnapshot, one_more_series}
use asapcollector_public.Window.{
  SeriesEntry, Series, WindowState, Outcome, make_room, overflow, at_cap, observe, observe_known,
}
use asapcollector_public.Window.Merge.{
  observe_envelope, insert_missing, is_refusing, envelope_entry, reference_ms,
}
use asapcollector_public.Window.Cases.{
  keyed, series-init_window, observe_cases, observe_new_cases, observe_envelope_cases,
}
use asapcollector_public.Window.Eviction.{SeenBefore, make_room-evict_oldest}

pub policy_cases : (p : OnOverflow) → (p ≡ evict_oldest) ⊎ (is_refusing p ≡ true)
policy_cases drop = inr refl
policy_cases block = inr refl
policy_cases evict_oldest = inl refl

module _ {S : Type 0} where
  abbrev pub IsCapped : PrecomputeConfig → Outcome S → Type 0
  IsCapped cfg o = length o.1.series ≤ cfg.max_series

  pub length-push :
      (k : Text) (e : SeriesEntry S) (m : Series S) → length (push k e m) ≡ length m + 1
  length-push k e m = omega (arith, length-append m ((k, e) ∷ []))

  overflow_refuses :
      (p : OnOverflow) (series : Series S) (stats : StatsSnapshot)
      → is_refusing p ≡ true
      → overflow p series stats ≡ none
  unfolding overflow
  overflow_refuses drop series stats h = refl
  overflow_refuses block series stats h = refl
  overflow_refuses evict_oldest series stats h = cc

  pub make_room_refuses :
      (cfg : PrecomputeConfig) (series : Series S) (stats : StatsSnapshot)
      → at_cap cfg series ≡ true
      → is_refusing cfg.on_overflow ≡ true
      → make_room cfg series stats ≡ none
  unfolding make_room
  make_room_refuses cfg series stats full refuses =
      rw full (overflow_refuses cfg.on_overflow series stats refuses)

  make_room_free :
      (cfg : PrecomputeConfig) (series : Series S) (stats : StatsSnapshot)
      → at_cap cfg series ≡ false
      → make_room cfg series stats ≡ some (series, stats)
  unfolding make_room
  make_room_free cfg series stats free = rw free

  length_free :
      (cfg : PrecomputeConfig) (series : Series S)
      → at_cap cfg series ≡ false
      → 0 < cfg.max_series
      → length series < cfg.max_series
  unfolding at_cap
  length_free cfg series free pos = ground arith

  -- After `make_room` there is room.
  length-make_room :
      (cfg : PrecomputeConfig) (series : Series S) (stats : StatsSnapshot) (series' : Series S)
      (stats' : StatsSnapshot)
      → IsMap series
      → SeenBefore u64_max series
      → 0 < cfg.max_series
      → length series ≤ cfg.max_series
      → make_room cfg series stats ≡ some (series', stats')
      → length series' < cfg.max_series
  length-make_room cfg series stats series' stats' m seen pos fits h =
      elim (Bool-cases (at_cap cfg series)) [
        | inl full ↦ elim (policy_cases cfg.on_overflow) [
          | inl e ↦
              let (k, x, oldest, made) = make_room-evict_oldest cfg series stats m seen full e in
              let left : remove k series ≡ series' = cc in
              rw (← left) (omega (arith, length-remove k series x oldest.0))
          | inr refuses ↦ cc (make_room_refuses cfg series stats full refuses)
        ]
        | inr free ↦
            let left : series ≡ series' = cc (make_room_free cfg series stats free) in
            rw (← left) (length_free cfg series free pos)
      ]

  -- `observe` keeps the number of series within a positive cap, under each overflow policy and on
  -- each outcome, if no key stands twice and every series was last seen before the last instant of
  -- `u64`.
  pub observe-IsCapped :
      (cfg : PrecomputeConfig) (factory : SketchFactory S) (observer : SketchObserver S)
      (obs : Observation) (w : WindowState S) (stats : StatsSnapshot)
      → IsMap w.series
      → SeenBefore u64_max w.series
      → 0 < cfg.max_series
      → length w.series ≤ cfg.max_series
      → IsCapped cfg (observe cfg factory observer obs w stats)
  unfolding observe_known
  observe-IsCapped cfg factory observer obs w stats m seen pos fits =
      observe_cases (IsCapped cfg) cfg factory observer obs w stats
        (λ _. rw (series-init_window obs.timestamp_ms cfg w) fits)
        (λ e found.
          rw (series-init_window obs.timestamp_ms cfg w, length-alter (keyed cfg obs w).key) fits)
        (λ fresh.
          observe_new_cases (IsCapped cfg) cfg factory observer obs (keyed cfg obs w) stats
            (λ _. rw (series-init_window obs.timestamp_ms cfg w) fits)
            (λ series stats' room. rw length-push (
              omega (
                arith,
                length-make_room cfg w.series stats series stats' m seen pos fits
                    (rw (series-init_window obs.timestamp_ms cfg w) at room),
              ))))

  length-insert_missing :
      (cfg : PrecomputeConfig) (factory : SketchFactory S) (env : SketchEnvelope) (k : Text)
      (series : Series S) (stats : StatsSnapshot) (series' : Series S) (stats' : StatsSnapshot)
      → is_refusing cfg.on_overflow ≡ true
      → 0 < cfg.max_series
      → length series ≤ cfg.max_series
      → insert_missing cfg factory env k series stats ≡ some (series', stats')
      → length series' ≤ cfg.max_series
  unfolding insert_missing
  length-insert_missing cfg factory env k series stats series' stats' refuses pos fits h =
      ground (arith, length-push k (envelope_entry factory env) series, length_free cfg series)

  -- Under `Drop` and `Block`, `observe_envelope` keeps the number of series within a positive cap,
  -- on each outcome.
  pub observe_envelope-IsCapped :
      (cfg : PrecomputeConfig) (ops : Sketch S) (factory : SketchFactory S) (env : SketchEnvelope)
      (w : WindowState S) (stats : StatsSnapshot)
      → is_refusing cfg.on_overflow ≡ true
      → 0 < cfg.max_series
      → length w.series ≤ cfg.max_series
      → IsCapped cfg (observe_envelope cfg ops factory env w stats)
  observe_envelope-IsCapped cfg ops factory env w stats refuses pos fits =
      observe_envelope_cases (IsCapped cfg) cfg ops factory env w stats
        (λ _. rw (series-init_window (reference_ms env) cfg w) fits)
        (λ series stats' e inserted found. rw length-alter (
          length-insert_missing cfg factory env _ w.series stats series stats' refuses pos fits
            inserted))

  insert_missing_evict :
      (cfg : PrecomputeConfig) (factory : SketchFactory S) (env : SketchEnvelope) (k : Text)
      (series : Series S) (stats : StatsSnapshot)
      → cfg.on_overflow ≡ evict_oldest
      → lookup k series ≡ none
      → insert_missing cfg factory env k series stats
        ≡ some (push k (envelope_entry factory env) series, one_more_series stats)
  unfolding insert_missing
  insert_missing_evict cfg factory env k series stats policy fresh = ground arith

  -- Under `EvictOldest`, an envelope of a new series adds a series at any number of series, and
  -- none is evicted for it: the cap does not hold.
  pub observe_envelope_over_cap :
      (cfg : PrecomputeConfig) (ops : Sketch S) (factory : SketchFactory S) (env : SketchEnvelope)
      (w : WindowState S) (stats : StatsSnapshot)
      → cfg.on_overflow ≡ evict_oldest
      → lookup (series_key_for_entry cfg env.resource_labels env.labels) w.series ≡ none
      → length (observe_envelope cfg ops factory env w stats).1.series ≡ length w.series + 1
  observe_envelope_over_cap cfg ops factory env w stats policy fresh =
      let made = insert_missing_evict cfg factory env _ w.series stats policy fresh in
      observe_envelope_cases (λ o. length o.1.series ≡ length w.series + 1) cfg ops factory env w
        stats (λ refused. cc (made, refused))
        (λ series stats' e inserted found.
          let k = series_key_for_entry cfg env.resource_labels env.labels in
          let pushed : push k (envelope_entry factory env) w.series ≡ series =
            cc (made, inserted) in
          rw (length-alter, ← pushed) (length-push k (envelope_entry factory env) w.series))
