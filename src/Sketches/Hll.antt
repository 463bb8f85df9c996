-- ===== src/Sketches/Hll.antt =====
-- asap-precompute-rs/src/sketches/hll.rs. `HyperLogLog` of sketchlib is a parameter.
use asapcollector_public.Common.{ℕ, ◌⊎◌, Bool, List, [], ◌∷◌, ◌++◌, all, ◌==◌, if◌then◌else◌}
use asapcollector_public.Common.Bytes.{le_bytes}
use asapcollector_public.Common.Text.{Text, text}
use asapcollector_public.Error.{PrecomputeError, Result, ok, err, other}
use asapcollector_public.Float.{F64}
use asapcollector_public.Float.Math.{FloatLib}
use asapcollector_public.Kll.{kind_name}
use asapcollector_public.Observation.{ObservationValueKind, float, hash, bytes, envelope}
use asapcollector_public.Sketch.{Sketch, SketchObserver, EstimatePoint, lib_result}

-- `HyperLogLog<Ertl>` of sketchlib. A failure is the text of its error.
pub record HllLib (H : Type 0) : Type 0 where
  pub empty : H
  pub lib_update : H → List ℕ → H
  pub registers : H → List ℕ
  pub lib_merge : H → H → H
  pub lib_estimate : H → ℕ
  pub to_asapv1 : H → Text ⊎ List ℕ
  pub from_asapv1 : List ℕ → Text ⊎ H

abbrev unsupported : ObservationValueKind → PrecomputeError
unsupported kind = other (text "HLLObserver: unsupported value kind " ++ kind_name kind)

module _ {H : Type 0} (lib : HllLib H) where
  unfoldable pub from_snapshot : List ℕ → Result H
  from_snapshot payload = lib_result (text "HLLWrapper decode: ") (lib.from_asapv1 payload)

  unfoldable pub is_empty : H → Bool
  is_empty s = all (λ r. r == 0) (lib.registers s)

  unfoldable pub snapshot : H → Result (List ℕ)
  snapshot s =
      if is_empty s then ok [] else lib_result (text "HLLWrapper snapshot: ") (lib.to_asapv1 s)

  abbrev pub or_kept : H → Result H → Result (Unit {0}) × H
  or_kept s (ok t) = (ok tt, lib.lib_merge s t)
  or_kept s (err e) = (err e, s)

  unfoldable pub merge_snapshot : H → List ℕ → Result (Unit {0}) × H
  merge_snapshot s [] = (ok tt, s)
  merge_snapshot s (b ∷ payload) = or_kept s (from_snapshot (b ∷ payload))

  unfoldable pub reset : H → H
  reset s = lib.empty

  module _ (fl : FloatLib) where
    unfoldable pub estimate_cardinality : H → F64
    estimate_cardinality s = fl.of_u64 (lib.lib_estimate s)

    unfoldable pub estimate : H → List F64 → ℕ → List EstimatePoint
    estimate s quantiles top_k =
        if is_empty s then [] else record { labels = []; value = estimate_cardinality s } ∷ []

    abbrev pub sketch_ops : Sketch H
    sketch_ops = record {
      snapshot = snapshot;
      merge_snapshot = merge_snapshot;
      estimate = estimate;
      reset = reset;
    }

  -- `HLLObserver`, on a sketch that is an `HLLWrapper`.
  unfoldable pub observer : SketchObserver H
  observer s obs = elim obs.value.kind [
    | float ↦ (ok tt, lib.lib_update s (le_bytes 8 obs.value.float))
    | hash ↦ (ok tt, lib.lib_update s (le_bytes 8 obs.value.hash))
    | bytes ↦ (ok tt, lib.lib_update s obs.value.bytes)
    | envelope ↦ (err (unsupported envelope), s)
  ]
