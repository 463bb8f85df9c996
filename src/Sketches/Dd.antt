-- ===== src/Sketches/Dd.antt =====
-- asap-precompute-rs/src/sketches/ddsketch.rs. `DdSketch` of sketchlib is a parameter.
use asapcollector_public.Common.{ℕ, ◌⊎◌, Option, List, [], ◌∷◌, ◌++◌, map, ◌==◌, if◌then◌else◌}
use asapcollector_public.Common.Maps.{or_default}
use asapcollector_public.Common.Text.{Text, text}
use asapcollector_public.Error.{PrecomputeError, Result, ok, err, other}
use asapcollector_public.Float.{F64}
use asapcollector_public.Kll.{kind_name, clamp_unit}
use asapcollector_public.Observation.{ObservationValueKind, float, hash, bytes, envelope}
use asapcollector_public.Sketch.{Sketch, SketchObserver, EstimatePoint, lib_result}

-- `DdSketch` of sketchlib. A failure is the text of its error; a merge that fails may have changed
-- the sketch.
pub record DdLib (D : Type 0) : Type 0 where
  pub with_alpha : F64 → D
  pub alpha : D → F64
  pub add : D → F64 → D
  pub lib_count : D → ℕ
  pub lib_merge : D → D → (Text ⊎ Unit {0}) × D
  pub value_at_quantile : D → F64 → Option F64
  pub to_asapv1 : D → Text ⊎ List ℕ
  pub from_asapv1 : List ℕ → Text ⊎ D
  pub nan : F64
  pub display : F64 → Text

abbrev unsupported : ObservationValueKind → PrecomputeError
unsupported kind = other (text "DDSketchObserver: unsupported value kind " ++ kind_name kind)

module _ {D : Type 0} (lib : DdLib D) where
  unfoldable pub from_snapshot : List ℕ → Result D
  from_snapshot payload = lib_result (text "DDSketchWrapper decode: ") (lib.from_asapv1 payload)

  unfoldable pub snapshot : D → Result (List ℕ)
  snapshot s =
      if lib.lib_count s == 0
      then ok []
      else lib_result (text "DDSketchWrapper snapshot: ") (lib.to_asapv1 s)

  abbrev pub merged : D → Result D → Result (Unit {0}) × D
  merged s (err e) = (err e, s)
  merged s (ok t) =
      let (r, left) = lib.lib_merge s t in (lib_result (text "DDSketchWrapper merge: ") r, left)

  unfoldable pub merge_snapshot : D → List ℕ → Result (Unit {0}) × D
  merge_snapshot s [] = (ok tt, s)
  merge_snapshot s (b ∷ payload) = merged s (from_snapshot (b ∷ payload))

  unfoldable pub reset : D → D
  reset s = lib.with_alpha (lib.alpha s)

  unfoldable pub quantile : D → F64 → F64
  quantile s q = or_default lib.nan (lib.value_at_quantile s (clamp_unit q))

  unfoldable pub estimate : D → List F64 → ℕ → List EstimatePoint
  estimate s quantiles top_k =
      let point : F64 → EstimatePoint = λ q. record {
        labels = record { key = text "quantile"; value = lib.display q } ∷ [];
        value = quantile s q;
      } in
      if lib.lib_count s == 0 then [] else map point quantiles

  abbrev pub sketch_ops : Sketch D
  sketch_ops = record {
    snapshot = snapshot;
    merge_snapshot = merge_snapshot;
    estimate = estimate;
    reset = reset;
  }

  -- `DDSketchObserver`, on a sketch that is a `DDSketchWrapper`.
  unfoldable pub observer : SketchObserver D
  observer s obs = elim obs.value.kind [
    | float ↦ (ok tt, lib.add s obs.value.float)
    | hash ↦ (err (unsupported hash), s)
    | bytes ↦ (err (unsupported bytes), s)
    | envelope ↦ (err (unsupported envelope), s)
  ]
