-- ===== src/Plugin/Dispatch.antt =====
-- What a resolved configuration, of asap-precompute-rs/src/otap/config.rs, names.
use asapcollector_public.Common.{true, ◌≡◌, false, ◌==◌}
use asapcollector_public.Common.Text.{Text}
use asapcollector_public.Config.{PrecomputeConfig}
use asapcollector_public.Error.{Result, ok}
use asapcollector_public.Observation.{Observation, ObservationValueKind, float, hash, bytes}
use asapcollector_public.Envelope.{
  SketchType, hll_sketch, count_sketch, count_min_sketch, count_min_sketch_with_heap,
}
use asapcollector_public.Sketch.{SketchObserver, is_ok}
use asapcollector_public.Kll
use asapcollector_public.Sketches.Dd
use asapcollector_public.Sketches.Hll
use asapcollector_public.Sketches.Matrix
use asapcollector_public.Sketches.Heap
use asapcollector_public.Sketches.{Kinds, AnySketch, type_of}
use asapcollector_public.Plugin.{PluginConfig, Resolved, resolved, refused, SketchDispatch}
use asapcollector_public.Rolling

-- What holds of a configuration that is not refused.
abbrev pub IfResolved {ℓ κ} : {A : Type ℓ} → (A → Type κ) → Resolved A → Type κ
IfResolved P (resolved a) = P a
IfResolved P (refused e) = Unit

-- The kind of values that a sketch of the type is there for: numbers for quantiles, hashes for a
-- cardinality, bytes for counts.
abbrev pub kind_for : SketchType → ObservationValueKind
kind_for hll_sketch = hash
kind_for count_sketch = bytes
kind_for count_min_sketch = bytes
kind_for count_min_sketch_with_heap = bytes
kind_for _ = float

-- An observation is taken, and the sketch stays of its type.
abbrev pub IsTaken : {kinds : Kinds} → SketchType → Result (Unit {0}) × AnySketch kinds → Type 0
IsTaken t r = (is_ok r.0 ≡ true) × (type_of r.1 ≡ t)

-- The observer takes each observation of its kind into each sketch of the type.
abbrev pub TakesAll : {kinds : Kinds} → SketchType → SketchObserver (AnySketch kinds) → Type 0
TakesAll {kinds} t observer =
    (s : AnySketch kinds) (obs : Observation)
    → type_of s ≡ t
    → obs.value.kind ≡ kind_for t
    → IsTaken t (observer s obs)

-- The factory makes sketches of the type that is named, and the observer takes observations into
-- them.
pub record IsConsistent (kinds : Kinds) (d : SketchDispatch kinds) : Type 0 where
  pub factory_type : type_of (d.factory tt) ≡ d.sketch_type
  pub observer_takes : TakesAll d.sketch_type d.observer

-- What a resolved configuration and its dispatch have to do with each other: the runtime is
-- configured for the type of the sketches that the factory makes.
pub record IsRunnable (kinds : Kinds) (config : PluginConfig)
    (p : PrecomputeConfig × SketchDispatch kinds) : Type 0 where
  pub consistent : IsConsistent kinds p.1
  pub same_type : p.0.sketch_type ≡ p.1.sketch_type
  pub sized : (config.window_size == 0) ≡ false
  -- A sliding configuration is one that the rolling runtime accepts.
  pub rolls :
      (config.window_slide == 0) ≡ false
      → (s : Rolling.RollingState kinds.Kll) × (Rolling.new p.0 ≡ ok s)
