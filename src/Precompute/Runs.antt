-- ===== src/Precompute/Runs.antt =====
-- Runs of calls on `PrecomputeImpl` of asap-precompute-rs/src/precompute.rs, under one
-- configuration.
use asapcollector_public.Common.{
  ℕ, ◌+◌, ◌<◌, ◌≡◌, ◌≢◌, ◌∙◌, sym, true, List, [], ◌∷◌, ◌++◌, arith, inl, inr, if◌then◌else◌,
  sum_by-append, u64_mod, subst,
}
use asapcollector_public.Envelope.{SketchEnvelope}
use asapcollector_public.Observation.{Observation}
use asapcollector_public.Config.{PrecomputeConfig, evict_oldest}
use asapcollector_public.Sketch.{Sketch, SketchObserver, is_ok}
use asapcollector_public.Window.{WindowState, Rotation}
use asapcollector_public.Window.Rotate.{rotate, drain_window}
use asapcollector_public.Window.Soundness.{
  SketchLaws, IsSound, Carries, HandsOver, rotate-HandsOver, drain-HandsOver,
}
use asapcollector_public.Precompute.{PrecomputeImpl}
use asapcollector_public.Precompute.Emit.{finish_rotate, finish_with, tick, drain}
use asapcollector_public.Precompute.Ingest.{observe_envelope, observe}
use asapcollector_public.Precompute.Emission.{sum_counts}
use asapcollector_public.Precompute.Conservation.{
  tick-finish_rotate, drain-finish_rotate, tick-Conserves, drain-Conserves,
}
use asapcollector_public.Precompute.Trace.{
  weight, IsRunning, pending, IsMarking, observe-Takes, observe_envelope-Takes,
}

pub data Call : Type 0 where
  observes : Observation → Call
  observes_envelope : SketchEnvelope → Call
  ticks : ℕ → Call
  drains : Call

module _ {S : Type 0} (ops : Sketch S) where
  unfoldable pub step : Call → PrecomputeImpl S → List SketchEnvelope × PrecomputeImpl S
  step (observes obs) p = ([], (observe ops obs p).1)
  step (observes_envelope env) p = ([], (observe_envelope ops env p).1)
  step (ticks now_ms) p = tick ops now_ms p
  step drains p = drain ops p

  -- What a run emits, in order, and the instance that it leaves.
  unfoldable pub run : List Call → PrecomputeImpl S → List SketchEnvelope × PrecomputeImpl S
  unfolding step
  run [] p = ([], p)
  run (c ∷ calls) p = let (now, q) = step c p in let (later, r) = run calls q in (now ++ later, r)

  -- What the accepted calls of a run count.
  unfoldable pub accepted : PrecomputeConfig → Call → PrecomputeImpl S → ℕ
  accepted cfg (observes obs) p = if is_ok (observe ops obs p).0 then weight cfg obs else 0
  accepted cfg (observes_envelope env) p =
      if is_ok (observe_envelope ops env p).0 then env.count else 0
  accepted cfg (ticks now_ms) p = 0
  accepted cfg drains p = 0

  unfoldable pub all_accepted : PrecomputeConfig → List Call → PrecomputeImpl S → ℕ
  unfolding accepted
  all_accepted cfg [] p = 0
  all_accepted cfg (c ∷ calls) p = accepted cfg c p + all_accepted cfg calls (step c p).1

  finish_rotate_keeps :
      (r : Rotation S) (now_ms : ℕ) (p : PrecomputeImpl S)
      → ((finish_rotate ops r now_ms p).1.window ≡ p.window)
        × ((finish_rotate ops r now_ms p).1.cfg ≡ p.cfg)
        × ((finish_rotate ops r now_ms p).1.observer ≡ p.observer)
  unfolding finish_rotate finish_with
  finish_rotate_keeps r now_ms p = (ground arith, ground arith, ground arith)

module _ {S : Type 0} (ops : Sketch S) (observer : SketchObserver S)
    (laws : SketchLaws ops observer) (cfg : PrecomputeConfig) where
  -- A call whose input has content, and that leaves the counts below the end of `u64`.
  abbrev pub IsAllowed : Call → PrecomputeImpl S → Type 0
  IsAllowed (observes obs) p =
      IsMarking ops observer laws cfg obs
      × (pending ops observer laws cfg p + weight cfg obs < u64_mod)
      × (pending ops observer laws cfg p + 1 < u64_mod)
  IsAllowed (observes_envelope env) p =
      Carries laws env × (pending ops observer laws cfg p + env.count < u64_mod)
  IsAllowed (ticks now_ms) p = Unit
  IsAllowed drains p = Unit

  abbrev pub AllAllowed : List Call → PrecomputeImpl S → Type 0
  AllAllowed [] p = Unit
  AllAllowed (c ∷ calls) p = IsAllowed c p × AllAllowed calls (step ops c p).1

  abbrev Running : PrecomputeImpl S → Type 0
  Running = IsRunning ops observer laws cfg

  abbrev pub held : PrecomputeImpl S → ℕ
  held = pending ops observer laws cfg

  rotation-IsRunning :
      (p : PrecomputeImpl S) (r : Rotation S) (now_ms : ℕ)
      → HandsOver p.window r
      → Running p
      → Running (finish_rotate ops r now_ms (record p { window = r.window })).1
  rotation-IsRunning p r now_ms hands running =
      let (window, configured, observed) =
        finish_rotate_keeps ops r now_ms (record p { window = r.window }) in
      let sound : IsSound laws r.window.series = elim hands [
        | inl (none_closed, kept) ↦ subst (IsSound laws) (sym kept) running.sound
        | inr (all, empty) ↦ subst (IsSound laws) (sym empty) tt
      ] in
      record {
        configured = configured ∙ running.configured;
        observed = observed ∙ running.observed;
        sound = subst (λ (w : WindowState S). IsSound laws w.series) (sym window) sound;
      }

  -- One step: the instance goes on running, and what it held and accepted is what it emitted and holds.
  abbrev Balances : Call → PrecomputeImpl S → Type 0
  Balances c p =
      Running (step ops c p).1
      × (sum_counts (step ops c p).0 + held (step ops c p).1 ≡ held p + accepted ops cfg c p)

  step-Balances :
      (c : Call) (p : PrecomputeImpl S)
      → cfg.on_overflow ≢ evict_oldest
      → cfg.transmit_sketch ≡ true
      → IsAllowed c p
      → Running p
      → Balances c p
  unfolding step accepted
  step-Balances (observes obs) p policy t (marks, small, one) running =
      let (next, count) =
        observe-Takes ops observer laws cfg obs p policy marks small one running in
      (next, omega (arith, count))
  step-Balances (observes_envelope env) p policy t (carries, small) running =
      let (next, count) =
        observe_envelope-Takes ops observer laws cfg env p carries small running in
      (next, omega (arith, count))
  step-Balances (ticks now_ms) p policy t allowed running = (
    subst (λ (o : List SketchEnvelope × PrecomputeImpl S). Running o.1)
        (sym (tick-finish_rotate ops cfg now_ms p running.configured))
        (rotation-IsRunning p (rotate cfg now_ms p.window) now_ms
          (rotate-HandsOver cfg now_ms p.window) running),
    omega (arith, tick-Conserves ops laws cfg now_ms p running.configured t running.sound),
  )
  step-Balances drains p policy t allowed running = (
    subst (λ (o : List SketchEnvelope × PrecomputeImpl S). Running o.1)
        (sym (drain-finish_rotate ops cfg p running.configured))
        (rotation-IsRunning p (drain_window cfg p.window) (drain_window cfg p.window).to_ms
          (drain-HandsOver cfg p.window) running),
    omega (arith, drain-Conserves ops laws cfg p running.configured t running.sound),
  )

  -- Over any run of calls, in the mode that transmits sketches and with no eviction, the counts of
  -- all envelopes emitted and the counts left in the window add up to those that the window held
  -- at first and those of the calls that were accepted. The run keeps one configuration; its input
  -- has content, and the counts in the window stay below the end of `u64`.
  pub run-Balances :
      (calls : List Call) (p : PrecomputeImpl S)
      → cfg.on_overflow ≢ evict_oldest
      → cfg.transmit_sketch ≡ true
      → AllAllowed calls p
      → IsRunning ops observer laws cfg p
      → sum_counts (run ops calls p).0 + held (run ops calls p).1
        ≡ held p + all_accepted ops cfg calls p
  unfolding run all_accepted
  run-Balances [] p policy t allowed running = omega arith
  run-Balances (c ∷ calls) p policy t allowed running =
      let (next, balance) = step-Balances c p policy t allowed.0 running in
      omega (
        arith,
        balance,
        run-Balances calls (step ops c p).1 policy t allowed.1 next,
        sum_by-append (λ (env : SketchEnvelope). env.count) (step ops c p).0
            (run ops calls (step ops c p).1).0,
      )
