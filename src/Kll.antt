-- ===== src/Kll.antt =====
-- asap-precompute-rs/src/sketches/kll.rs: the wrapper of sketchlib's `Kll`, and its observer.
-- `Kll` and the formatting of an `f64` are not under this repository: they are parameters.
use asapcollector_public.Common.{
  ℕ, ◌⊎◌, inl, inr, Option, none, some, List, [], ◌∷◌, ◌++◌, map, ◌==◌, if◌then◌else◌,
}
use asapcollector_public.Common.Text.{Text, text}
use asapcollector_public.Float.{F64, is_finite, float_lt, zero_f64, one_f64}
use asapcollector_public.Error.{PrecomputeError, Result, ok, err, other}
use asapcollector_public.Observation.{ObservationValueKind, float, hash, bytes, envelope}
use asapcollector_public.Sketch.{Sketch, EstimatePoint, SketchObserver}

-- `Kll<f64>` of sketchlib. A failure is the text of its error.
pub record KllLib (K : Type 0) : Type 0 where
  pub with_k : ℕ → K
  pub with_k_and_seed : ℕ → ℕ → K
  pub lib_update : K → F64 → K
  pub lib_merge : K → K → K
  pub lib_count : K → ℕ
  pub lib_clear : K → K
  pub lib_quantile : K → F64 → F64
  pub to_asapv1 : K → Text ⊎ List ℕ
  pub from_asapv1 : List ℕ → Text ⊎ K
  pub nan : F64
  pub display : F64 → Text

-- `ObservationValueKind::name`
abbrev pub kind_name : ObservationValueKind → Text
kind_name float = text "Float"
kind_name hash = text "Hash"
kind_name bytes = text "Bytes"
kind_name envelope = text "Envelope"

-- `map_err(|e| PrecomputeError::Other(format!("…{e}")))`
abbrev prefixed : {A : Type 0} → Text → Text ⊎ A → Result A
prefixed before (inl e) = err (other (before ++ e))
prefixed before (inr a) = ok a

abbrev pub clamp_unit : F64 → F64
clamp_unit q = if float_lt q zero_f64 then zero_f64 else if float_lt one_f64 q then one_f64 else q

module _ {K : Type 0} (lib : KllLib K) where
  -- `KLLWrapper::new`
  unfoldable pub new_kll : ℕ → Option ℕ → K
  new_kll k none = lib.with_k k
  new_kll k (some seed) = lib.with_k_and_seed k seed

  unfoldable pub from_snapshot : List ℕ → Result K
  from_snapshot payload = prefixed (text "KLLWrapper decode: ") (lib.from_asapv1 payload)

  unfoldable pub update : K → F64 → K
  update s v = if is_finite v then lib.lib_update s v else s

  unfoldable pub update_batch : K → List F64 → K
  update_batch s [] = s
  update_batch s (v ∷ vs) = update_batch (update s v) vs

  unfoldable pub snapshot_kll : K → Result (List ℕ)
  snapshot_kll s =
      if lib.lib_count s == 0
      then ok []
      else prefixed (text "KLLWrapper snapshot: ") (lib.to_asapv1 s)

  abbrev pub merge_decoded : K → Result K → Result (Unit {0}) × K
  merge_decoded s (ok source) = (ok tt, lib.lib_merge s source)
  merge_decoded s (err e) = (err e, s)

  unfoldable pub merge_snapshot_kll : K → List ℕ → Result (Unit {0}) × K
  merge_snapshot_kll s [] = (ok tt, s)
  merge_snapshot_kll s (b ∷ payload) = merge_decoded s (from_snapshot (b ∷ payload))

  unfoldable pub quantile : K → F64 → F64
  quantile s q = if lib.lib_count s == 0 then lib.nan else lib.lib_quantile s (clamp_unit q)

  unfoldable pub estimate_kll : K → List F64 → ℕ → List EstimatePoint
  unfolding quantile
  estimate_kll s quantiles top_k =
      let point : F64 → EstimatePoint = λ q. record {
        labels = record { key = text "quantile"; value = lib.display q } ∷ [];
        value = quantile s q;
      } in
      if lib.lib_count s == 0 then [] else map point quantiles

  -- `impl Sketch for KLLWrapper`
  abbrev pub kll_sketch_ops : Sketch K
  kll_sketch_ops = record {
    snapshot = snapshot_kll;
    merge_snapshot = merge_snapshot_kll;
    estimate = estimate_kll;
    reset = lib.lib_clear;
  }

  -- A value of another kind.
  abbrev unsupported : ObservationValueKind → PrecomputeError
  unsupported kind = other (text "KLLObserver: unsupported value kind " ++ kind_name kind)

  -- `KLLObserver`, on a sketch that is a `KLLWrapper`.
  unfoldable pub kll_observer : SketchObserver K
  kll_observer s obs = elim obs.value.kind [
    | float ↦ (ok tt, update s obs.value.float)
    | hash ↦ (err (unsupported hash), s)
    | bytes ↦ (err (unsupported bytes), s)
    | envelope ↦ (err (unsupported envelope), s)
  ]
