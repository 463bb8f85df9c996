-- ===== src/Precompute/Counters.antt =====
-- `active_series` over the calls of `PrecomputeImpl`, of asap-precompute-rs/src/precompute.rs.
use asapcollector_public.Common.{
  ℕ, ◌+◌, ◌≤◌, ◌<◌, ◌≡◌, ap, ◌∙◌, true, Option, none, some, [], arith, inl, inr, Bool-cases,
  Option-cases, u64_mod,
}
use asapcollector_public.Common.Assoc.{IsMap, text_key}
use asapcollector_public.Envelope.{SketchEnvelope}
use asapcollector_public.Error.{Result}
use asapcollector_public.Observation.{Observation, is_envelope}
use asapcollector_public.Config.{PrecomputeConfig, matches}
use asapcollector_public.Sketch.{Sketch, SketchFactory, SketchObserver}
use asapcollector_public.Stats.{StatsSnapshot}
use asapcollector_public.Window.{Rotation, window_size_ms}
use asapcollector_public.Window.Rotate.{rotate}
use asapcollector_public.Window.Bounds.{IsAligned, rotate_due}
use asapcollector_public.Window.Counters.{Tracks, observe-Tracks, observe_envelope-Tracks}
use asapcollector_public.Precompute.{PrecomputeImpl}
use asapcollector_public.Precompute.Emit.{finish_rotate, finish_with, tick}
use asapcollector_public.Precompute.Ingest.{
  checked_envelope, observe_envelope, observe_scalar, observe_open, observe, agg_ids_differ,
  types_differ, envelope_into_window, scalar_into_window, count_dropped, count_capped,
  counted_observation, counted_envelope,
}

active-count_dropped :
    (r : Result (Unit {0})) (s : StatsSnapshot)
    → (count_dropped r s).active_series ≡ s.active_series
active-count_dropped r s = ground arith

active-count_capped :
    (r : Result (Unit {0})) (s : StatsSnapshot) → (count_capped r s).active_series ≡ s.active_series
active-count_capped r s = ground arith

module _ {S : Type 0} where
  abbrev pub TracksSeries : PrecomputeImpl S → Type 0
  TracksSeries p = Tracks p.stats p.window.series

  scalar-Tracks :
      (cfg : PrecomputeConfig) (obs : Observation) (p : PrecomputeImpl S)
      (factory : Option (SketchFactory S)) (observer : Option (SketchObserver S))
      → IsMap p.window.series
      → TracksSeries p
      → TracksSeries (scalar_into_window cfg obs p factory observer).1
  scalar-Tracks cfg obs p none observer m t = t
  scalar-Tracks cfg obs p (some factory) none m t = t
  scalar-Tracks cfg obs p (some factory) (some observer) m t =
      active-count_dropped _ _ ∙ observe-Tracks cfg factory observer obs p.window p.stats m t

  observe_scalar-Tracks :
      (cfg : PrecomputeConfig) (obs : Observation) (p : PrecomputeImpl S)
      → IsMap p.window.series
      → TracksSeries p
      → TracksSeries (observe_scalar cfg obs p).1
  unfolding observe_scalar
  observe_scalar-Tracks cfg obs p m t = elim (Bool-cases (matches cfg obs)) [
    | inl e ↦ rw e (scalar-Tracks cfg obs p p.sketch_factory p.observer m t)
    | inr e ↦ rw e t
  ]

module _ {S : Type 0} (ops : Sketch S) where
  into_window-Tracks :
      (cfg : PrecomputeConfig) (env : SketchEnvelope) (p : PrecomputeImpl S)
      (factory : Option (SketchFactory S))
      → TracksSeries p
      → TracksSeries (envelope_into_window ops cfg env p factory).1
  into_window-Tracks cfg env p none t = t
  into_window-Tracks cfg env p (some factory) t =
      active-count_capped _ _
      ∙ observe_envelope-Tracks cfg ops factory env p.window (counted_envelope p).stats t

  checked-Tracks :
      (cfg : PrecomputeConfig) (env : SketchEnvelope) (p : PrecomputeImpl S)
      → TracksSeries p
      → TracksSeries (checked_envelope ops cfg env p).1
  unfolding checked_envelope
  checked-Tracks cfg env p t = elim (Bool-cases (agg_ids_differ cfg env)) [
    | inl a ↦ rw a t
    | inr a ↦ elim (Bool-cases (types_differ cfg env)) [
      | inl b ↦ rw (a, b) t
      | inr b ↦ rw (a, b) (into_window-Tracks cfg env p p.sketch_factory t)
    ]
  ]

  -- An envelope, taken in or refused, leaves `active_series` equal to the number of series, if it
  -- was so before.
  pub observe_envelope-TracksSeries :
      (env : SketchEnvelope) (p : PrecomputeImpl S)
      → TracksSeries p
      → TracksSeries (observe_envelope ops env p).1
  unfolding observe_envelope
  observe_envelope-TracksSeries env p t = elim (Bool-cases p.closed) [
    | inl c ↦ simp c t
    | inr c ↦ elim (Option-cases p.cfg) [
      | inl e ↦ simp (c, e) t
      | inr (cfg, e) ↦ simp (c, e) (checked-Tracks cfg env p t)
    ]
  ]

  observe_open-Tracks :
      (cfg : PrecomputeConfig) (obs : Observation) (p : PrecomputeImpl S)
      → IsMap p.window.series
      → TracksSeries p
      → TracksSeries (observe_open ops cfg obs p).1
  unfolding observe_open
  observe_open-Tracks cfg obs p m t =
      let scalar = observe_scalar-Tracks cfg obs (counted_observation p) m t in
      elim (Option-cases obs.value.envelope) [
        | inl e ↦ rw (e, observe_open) scalar
        | inr (env, e) ↦ elim (Bool-cases (is_envelope obs.value.kind)) [
          | inl k ↦
              rw (e, k, observe_open) (observe_envelope-TracksSeries env (counted_observation p) t)
          | inr k ↦ rw (e, k, observe_open) scalar
        ]
      ]

  -- An observation of any kind, taken in or refused, leaves `active_series` equal to the number of
  -- series, if it was so before and no key stands twice.
  pub observe-TracksSeries :
      (obs : Observation) (p : PrecomputeImpl S)
      → IsMap p.window.series
      → TracksSeries p
      → TracksSeries (observe ops obs p).1
  unfolding observe
  observe-TracksSeries obs p m t = elim (Bool-cases p.closed) [
    | inl c ↦ simp c t
    | inr c ↦ elim (Option-cases p.cfg) [
      | inl e ↦ simp (c, e) t
      | inr (cfg, e) ↦ simp (c, e) (observe_open-Tracks cfg obs p m t)
    ]
  ]

  finish_rotate_keeps :
      (r : Rotation S) (now_ms : ℕ) (p : PrecomputeImpl S)
      → ((finish_rotate ops r now_ms p).1.window ≡ p.window)
        × ((finish_rotate ops r now_ms p).1.stats.active_series ≡ p.stats.active_series)
  unfolding finish_rotate finish_with
  finish_rotate_keeps r now_ms p = (ground arith, ground arith)

  -- A tick that closes a sized window empties the map, and leaves `active_series` where it was:
  -- the counter goes on counting series that are gone. The clock is at least one size below the
  -- end of `u64`.
  pub tick_leaves_active_series :
      (p : PrecomputeImpl S) (cfg : PrecomputeConfig) (now_ms : ℕ)
      → p.cfg ≡ some cfg
      → p.window.initialized ≡ true
      → IsAligned cfg p.window
      → 0 < window_size_ms cfg
      → now_ms + window_size_ms cfg < u64_mod
      → p.window.active_end_ms ≤ now_ms
      → let q = (tick ops now_ms p).1 in
        (q.window.series ≡ []) × (q.stats.active_series ≡ p.stats.active_series)
  unfolding tick
  tick_leaves_active_series p cfg now_ms e i a h fits due =
      let (all, empty, _, _, _) = rotate_due cfg now_ms p.window i a h fits due in
      let r = rotate cfg now_ms p.window in
      let (window, active) = finish_rotate_keeps r now_ms (record p { window = r.window }) in
      (rw (e, tick) (ap (λ w. w.series) window ∙ empty), rw (e, tick) active)
