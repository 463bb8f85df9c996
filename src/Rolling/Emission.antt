-- ===== src/Rolling/Emission.antt =====
-- What `tick` of `KllRollingPrecompute`, of asap-precompute-rs/src/kll_windows.rs, emits.
use asapcollector_public.Common.{
  ℕ, ◌-◌, ◌*◌, ◌/◌, ◌≤◌, ◌<◌, ◌≡◌, ◌⊎◌, refl, subst, false, ◌||◌, not, Option, none, some, List, [],
  ◌∷◌, map, arith, inl, inr, Bool-cases, All, All-append, any, ltb, leb, ◌==◌,
}
use asapcollector_public.Float.{F64}
use asapcollector_public.Envelope.{SketchEnvelope}
use asapcollector_public.Error.{Result, ok, err, Ensures, >>=-Ensures, Ensures-all}
use asapcollector_public.Sketch.{EstimatePoint}
use asapcollector_public.Kll.{KllLib, snapshot_kll, from_snapshot}
use asapcollector_public.KllWindows.{
  KllWindowStore, Pane, advance, cutoff, is_multiple_of, is_bad_quantile,
}
use asapcollector_public.KllWindows.Query.{
  collect, query, estimate, quantile_over_time, estimates, envelope_of, point_envelope, add_panes,
  range,
}
use asapcollector_public.Window.Soundness.{list_cases}
use asapcollector_public.Rolling.{
  RollingState, tick, emit, answers, or_none_left, boundary, is_emitted, caught_up,
}

-- The envelope describes the range `[start, end)`.
abbrev pub Spans : ℕ → ℕ → SketchEnvelope → Type 0
Spans start end env = (env.window_start_ms ≡ start) × (env.window_end_ms ≡ end)

-- The end of a range, against that of the last range emitted.
abbrev pub After : Option ℕ → ℕ → Type 0
After none end = Unit
After (some last) end = last < end

later : (last : Option ℕ) (end : ℕ) → is_emitted end last ≡ false → After last end
later none end h = tt
later (some last) end h = ground arith

boundary-≤ : (wall : ℕ) (complete : Option ℕ) → boundary wall complete ≤ wall
boundary-≤ wall none = omega arith
boundary-≤ wall (some complete) = ground arith

module _ {K : Type 0} (lib : KllLib K) where
  collect-Spans :
      (s : KllWindowStore K) (start end : ℕ) (merged : Pane K)
      → Ensures (All (Spans start end)) (collect lib s start end merged)
  unfolding collect envelope_of
  collect-Spans s start end [] = tt
  collect-Spans s start end ((key, e) ∷ merged) =
      >>=-Ensures (λ _. Unit {0}) (All (Spans start end)) (snapshot_kll lib e.sketch) _
        (Ensures-all (λ _. Unit {0}) (λ _. tt) (snapshot_kll lib e.sketch))
        (λ payload _.
          >>=-Ensures (All (Spans start end)) (All (Spans start end))
            (collect lib s start end merged) _ (collect-Spans s start end merged)
            (λ rest h. ((refl, refl), h)))

  -- The ranges that the bounds and the panes allow.
  query-Spans :
      (start end : ℕ) (s : KllWindowStore K)
      → Ensures (All (Spans start end)) (query lib start end s)
  unfolding query
  query-Spans start end s =
      elim (Bool-cases (
        leb end start
        || (not (is_multiple_of start s.pane_ms) || not (is_multiple_of end s.pane_ms)))) [
          | inl a ↦ rw a tt
          | inr a ↦ elim (Bool-cases (ltb s.closed_until end || ltb start (cutoff s))) [
            | inl b ↦ rw (a, b) tt
            | inr b ↦
                rw (a, b)
                  (>>=-Ensures (λ _. Unit {0}) (All (Spans start end))
                    (add_panes lib s [] (range start end s.panes)) _
                    (Ensures-all (λ _. Unit {0}) (λ _. tt)
                      (add_panes lib s [] (range start end s.panes)))
                    (λ merged _. collect-Spans s start end merged))
          ]
        ]

  points-Spans :
      (start end : ℕ) (env : SketchEnvelope) (points : List EstimatePoint)
      → Spans start end env
      → All (Spans start end) (map (point_envelope lib env) points)
  points-Spans start end env [] h = tt
  points-Spans start end env (p ∷ points) h = (h, points-Spans start end env points h)

  estimates-Spans :
      (start end : ℕ) (quantiles : List F64) (envs : List SketchEnvelope)
      → All (Spans start end) envs
      → Ensures (All (Spans start end)) (estimates lib quantiles envs)
  unfolding estimates
  estimates-Spans start end quantiles [] h = tt
  estimates-Spans start end quantiles (env ∷ envs) h =
      >>=-Ensures (λ _. Unit {0}) (All (Spans start end)) (from_snapshot lib env.payload) _
        (Ensures-all (λ _. Unit {0}) (λ _. tt) (from_snapshot lib env.payload))
        (λ sketch _.
          >>=-Ensures (All (Spans start end)) (All (Spans start end)) (estimates lib quantiles envs)
            _ (estimates-Spans start end quantiles envs h.1)
            (λ rest r. All-append (Spans start end) _ rest (points-Spans start end env _ h.0) r))

  estimate-Spans :
      (start end : ℕ) (s : KllWindowStore K)
      → Ensures (All (Spans start end)) (estimate lib start end s)
  unfolding estimate quantile_over_time
  estimate-Spans start end s = elim (Bool-cases (any is_bad_quantile s.config.quantiles)) [
    | inl a ↦ rw a tt
    | inr a ↦ rw a (
        >>=-Ensures (All (Spans start end)) (All (Spans start end)) (query lib start end s) _
          (query-Spans start end s) (estimates-Spans start end s.config.quantiles))
  ]

  or_none_left-All :
      (P : SketchEnvelope → Type 0) (r : Result (List SketchEnvelope))
      → Ensures (All P) r
      → All P (or_none_left r)
  or_none_left-All P (ok envs) h = h
  or_none_left-All P (err e) h = tt

  answers-Spans :
      (start end : ℕ) (store : KllWindowStore K)
      → All (Spans start end) (answers lib start end store)
  unfolding answers
  answers-Spans start end store = elim (Bool-cases store.config.transmit_sketch) [
    | inl t ↦ simp t (or_none_left-All (Spans start end) _ (query-Spans start end store))
    | inr t ↦ simp t (or_none_left-All (Spans start end) _ (estimate-Spans start end store))
  ]

  retention-caught_up :
      (now_ms : ℕ) (s : RollingState K)
      → (caught_up lib now_ms s).retention_ms ≡ s.store.retention_ms
  unfolding advance
  retention-caught_up now_ms s = ground arith

  emit_lem :
      (now_ms end : ℕ) (s : RollingState K)
      → After s.last_emit end
      → end ≤ now_ms
      → let o = emit lib now_ms end s in
        (o.0 ≡ [])
        ⊎ ((end : ℕ) × After s.last_emit end
            × (end ≤ now_ms)
            × (o.1.last_emit ≡ some end)
            × All (Spans (end - s.store.retention_ms) end) o.0)
  unfolding emit
  emit_lem now_ms end s after past =
      let spans =
        subst (λ r. All (Spans (end - r) end) (emit lib now_ms end s).0)
          (retention-caught_up now_ms s) (answers-Spans _ end (caught_up lib now_ms s)) in
      elim (list_cases (emit lib now_ms end s).0) [
        | inl none_left ↦ inl none_left
        | inr (x, rest, some_left) ↦ inr (end, after, past, rw some_left refl, spans)
      ]

  boundary-past :
      (now_ms : ℕ) (s : RollingState K)
      → 0 < s.store.pane_ms
      → boundary (now_ms / s.store.pane_ms * s.store.pane_ms) s.upstream_complete_until ≤ now_ms
  boundary-past now_ms s sized =
      let wall : now_ms / s.store.pane_ms * s.store.pane_ms ≤ now_ms = grind arith in
      let below =
        boundary-≤ (now_ms / s.store.pane_ms * s.store.pane_ms) s.upstream_complete_until in
      grind arith

  -- Either a tick emits nothing, or all its envelopes cover the range of the retention time that
  -- ends at one boundary; that boundary is not in the future, comes after the last one emitted, and
  -- is the last one emitted from then on. The panes have a positive size.
  pub tick_lem :
      (now_ms : ℕ) (s : RollingState K)
      → 0 < s.store.pane_ms
      → let o = tick lib now_ms s in
        (o.0 ≡ [])
        ⊎ ((end : ℕ) × After s.last_emit end
            × (end ≤ now_ms)
            × (o.1.last_emit ≡ some end)
            × All (Spans (end - s.store.retention_ms) end) o.0)
  unfolding tick
  tick_lem now_ms s sized =
      let wall = now_ms / s.store.pane_ms * s.store.pane_ms in
      let end = boundary wall s.upstream_complete_until in
      elim (Bool-cases s.closed) [
        | inl c ↦ inl (simp c)
        | inr c ↦ elim (Bool-cases (is_emitted end s.last_emit || (end == 0))) [
          | inl e ↦ inl (simp (c, e))
          | inr e ↦
              simp (c, e)
                (emit_lem now_ms end s (later s.last_emit end (ground arith))
                  (boundary-past now_ms s sized))
        ]
      ]
