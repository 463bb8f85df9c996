-- ===== src/Sketch.antt =====
-- The interface of asap-precompute-rs/src/precompute.rs to the sketches of sketchlib, which are
-- not under this repository: the `Sketch` trait as a record of functions on a type of sketches.
-- A `&mut self` method returns the sketch that it leaves behind, beside its result.
use asapcollector_public.Common.{ℕ, ◌⊎◌, inl, inr, Bool, true, false, List, ◌++◌}
use asapcollector_public.Common.Text.{Text}
use asapcollector_public.Envelope.{KeyValue}
use asapcollector_public.Error.{Result, ok, err, other}
use asapcollector_public.Float.{F64}
use asapcollector_public.Observation.{Observation}

pub record EstimatePoint : Type 0 where
  pub labels : List KeyValue
  pub value : F64

pub record Sketch (S : Type 0) : Type 0 where
  pub snapshot : S → Result (List ℕ)
  pub merge_snapshot : S → List ℕ → Result (Unit {0}) × S
  pub estimate : S → List F64 → ℕ → List EstimatePoint
  pub reset : S → S

-- `SketchFactory` and `SketchObserver`.
abbrev pub SketchFactory : Type 0 → Type 0
SketchFactory S = Unit {0} → S

abbrev pub SketchObserver : Type 0 → Type 0
SketchObserver S = S → Observation → Result (Unit {0}) × S

abbrev pub is_ok {ℓ} : {A : Type ℓ} → Result A → Bool
is_ok (ok a) = true
is_ok (err e) = false

-- `map_err(|e| PrecomputeError::Other(format!("…{e}")))`
abbrev pub lib_result : {A : Type 0} → Text → Text ⊎ A → Result A
lib_result before (inl e) = err (other (before ++ e))
lib_result before (inr a) = ok a

-- An entry of a top-k list: the key's bytes and its count.
pub record FrequencyEntry : Type 0 where
  pub key : List ℕ
  pub count : F64

module _ {S : Type 0} (ops : Sketch S) where
  merge_bytes : S → Result (List ℕ) → Result (Unit {0}) × S
  merge_bytes s (ok bytes) = ops.merge_snapshot s bytes
  merge_bytes s (err e) = (err e, s)

  -- The default `merge`: by way of the other sketch's snapshot.
  pub merge : S → S → Result (Unit {0}) × S
  unfolding merge_bytes
  merge s source = merge_bytes s (ops.snapshot source)
