-- ===== src/Precompute/Trace.antt =====
-- What one call on `PrecomputeImpl` of asap-precompute-rs/src/precompute.rs counts.
use asapcollector_public.Common.{
  ℕ, ◌+◌, ◌<◌, ◌≡◌, ◌≢◌, Option, none, some, arith, inl, inr, Bool-cases, Option-cases,
  if◌then◌else◌, u64_mod,
}
use asapcollector_public.Envelope.{SketchEnvelope}
use asapcollector_public.Observation.{Observation, is_envelope}
use asapcollector_public.Config.{PrecomputeConfig, evict_oldest, matches}
use asapcollector_public.Sketch.{Sketch, SketchFactory, SketchObserver, is_ok}
use asapcollector_public.Window.Counts.{total_count, observe-Adds, observe_envelope-Adds}
use asapcollector_public.Window.Soundness.{
  SketchLaws, IsSound, Carries, observe-IsSound, observe_envelope-IsSound,
}
use asapcollector_public.Precompute.{PrecomputeImpl}
use asapcollector_public.Precompute.Ingest.{
  Returned, checked_envelope, observe_envelope, observe_scalar, observe_open, observe,
  agg_ids_differ, types_differ, envelope_into_window, scalar_into_window, counted_observation,
  counted_envelope,
}

-- What an observation counts if it is accepted: its envelope's count, or one if it matches.
abbrev scalar_weight : PrecomputeConfig → Observation → ℕ
scalar_weight cfg obs = if matches cfg obs then 1 else 0

unfoldable pub weight : PrecomputeConfig → Observation → ℕ
weight cfg obs = elim obs.value.envelope [
  | none ↦ scalar_weight cfg obs
  | some env ↦ if is_envelope obs.value.kind then env.count else scalar_weight cfg obs
]

module _ {S : Type 0} (ops : Sketch S) (observer : SketchObserver S)
    (laws : SketchLaws ops observer) (cfg : PrecomputeConfig) where
  -- The configuration and the observer are in place, and what has counted has content.
  pub record IsRunning (p : PrecomputeImpl S) : Type 0 where
    pub configured : p.cfg ≡ some cfg
    pub observed : p.observer ≡ some observer
    pub sound : IsSound laws p.window.series

  abbrev pub pending : PrecomputeImpl S → ℕ
  pending p = total_count p.window.series

  -- The call keeps the instance running, and adds `n` if it succeeds and nothing if it fails.
  abbrev pub Takes : ℕ → PrecomputeImpl S → Returned S → Type 0
  Takes n p o = IsRunning o.1 × (pending o.1 ≡ pending p + (if is_ok o.0 then n else 0))

  scalar-Takes :
      (obs : Observation) (p : PrecomputeImpl S) (factory : Option (SketchFactory S))
      → cfg.on_overflow ≢ evict_oldest
      → laws.Takes obs
      → pending p + 1 < u64_mod
      → IsRunning p
      → Takes 1 p (scalar_into_window cfg obs p factory (some observer))
  scalar-Takes obs p none policy takes small r = (r, omega arith)
  scalar-Takes obs p (some factory) policy takes small r = (
    record {
      configured = r.configured;
      observed = r.observed;
      sound = observe-IsSound laws cfg factory obs p.window p.stats takes r.sound;
    },
    observe-Adds cfg factory observer obs p.window p.stats policy small,
  )

  observe_scalar-Takes :
      (obs : Observation) (p : PrecomputeImpl S)
      → cfg.on_overflow ≢ evict_oldest
      → laws.Takes obs
      → pending p + 1 < u64_mod
      → IsRunning p
      → Takes (scalar_weight cfg obs) p (observe_scalar cfg obs p)
  unfolding observe_scalar
  observe_scalar-Takes obs p policy takes small r = elim (Bool-cases (matches cfg obs)) [
    | inl e ↦ simp (e, r.observed) (scalar-Takes obs p p.sketch_factory policy takes small r)
    | inr e ↦ rw e (r, omega arith)
  ]

  envelope-Takes :
      (env : SketchEnvelope) (p : PrecomputeImpl S) (factory : Option (SketchFactory S))
      → Carries laws env
      → pending p + env.count < u64_mod
      → IsRunning p
      → Takes env.count p (envelope_into_window ops cfg env p factory)
  envelope-Takes env p none carries small r = (r, omega arith)
  envelope-Takes env p (some factory) carries small r = (
    record {
      configured = r.configured;
      observed = r.observed;
      sound =
          observe_envelope-IsSound laws cfg factory env p.window (counted_envelope p).stats carries
            r.sound;
    },
    observe_envelope-Adds cfg ops factory env p.window (counted_envelope p).stats small,
  )

  pub observe_envelope-Takes :
      (env : SketchEnvelope) (p : PrecomputeImpl S)
      → Carries laws env
      → pending p + env.count < u64_mod
      → IsRunning p
      → Takes env.count p (observe_envelope ops env p)
  unfolding observe_envelope checked_envelope
  observe_envelope-Takes env p carries small r = elim (Bool-cases p.closed) [
    | inl c ↦ simp c (r, omega arith)
    | inr c ↦ elim (Bool-cases (agg_ids_differ cfg env)) [
      | inl a ↦ simp (c, r.configured, a) (r, omega arith)
      | inr a ↦ elim (Bool-cases (types_differ cfg env)) [
        | inl b ↦ simp (c, r.configured, a, b) (r, omega arith)
        | inr b ↦
            simp (c, r.configured, a, b) (envelope-Takes env p p.sketch_factory carries small r)
      ]
    ]
  ]

  -- What the laws say about an observation: it leaves a mark, and its envelope has content.
  abbrev pub IsMarking : Observation → Type 0
  IsMarking obs =
      laws.Takes obs × ((env : SketchEnvelope) → obs.value.envelope ≡ some env → Carries laws env)

  observe_open-Takes :
      (obs : Observation) (p : PrecomputeImpl S)
      → cfg.on_overflow ≢ evict_oldest
      → IsMarking obs
      → pending p + weight cfg obs < u64_mod
      → pending p + 1 < u64_mod
      → IsRunning p
      → Takes (weight cfg obs) p (observe_open ops cfg obs p)
  unfolding observe_open weight
  observe_open-Takes obs p policy marks small one r =
      let counted : IsRunning (counted_observation p) = record {
        configured = r.configured;
        observed = r.observed;
        sound = r.sound;
      } in
      let scalar = observe_scalar-Takes obs (counted_observation p) policy marks.0 one counted in
      elim (Option-cases obs.value.envelope) [
        | inl e ↦ simp (e, observe_open, weight) scalar
        | inr (env, e) ↦ elim (Bool-cases (is_envelope obs.value.kind)) [
          | inl k ↦
              simp (e, k, observe_open, weight)
                (observe_envelope-Takes env (counted_observation p) (marks.1 env e)
                  (simp (e, k, weight) at small) counted)
          | inr k ↦ simp (e, k, observe_open, weight) scalar
        ]
      ]

  pub observe-Takes :
      (obs : Observation) (p : PrecomputeImpl S)
      → cfg.on_overflow ≢ evict_oldest
      → IsMarking obs
      → pending p + weight cfg obs < u64_mod
      → pending p + 1 < u64_mod
      → IsRunning p
      → Takes (weight cfg obs) p (observe ops obs p)
  unfolding observe
  observe-Takes obs p policy marks small one r = elim (Bool-cases p.closed) [
    | inl c ↦ simp c (r, omega arith)
    | inr c ↦ simp (c, r.configured) (observe_open-Takes obs p policy marks small one r)
  ]
