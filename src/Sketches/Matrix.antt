-- ===== src/Sketches/Matrix.antt =====
-- asap-precompute-rs/src/sketches/cms.rs and asap-precompute-rs/src/sketches/countsketch.rs, which
-- wrap the same kind of matrix. `CountMinSketch` and `CountSketch` of sketchlib are parameters; the
-- names in the messages are arguments.
use asapcollector_public.Common.{
  ℕ, ◌⊎◌, Bool, ◌&&◌, not, List, [], ◌∷◌, ◌++◌, all, max, min, ◌==◌, if◌then◌else◌,
}
use asapcollector_public.Common.Text.{Text, text}
use asapcollector_public.Error.{Result, ok, err, other}
use asapcollector_public.Float.Math.{FloatLib}
use asapcollector_public.Matchers.{attributes_key}
use asapcollector_public.Sketch.{Sketch, SketchObserver, lib_result}

-- A matrix of counters; a weight is the bits of an `i64`. A failure is the text of its error.
pub record MatrixLib (M : Type 0) : Type 0 where
  pub with_dimensions : ℕ → ℕ → M
  pub rows : M → ℕ
  pub cols : M → ℕ
  pub update_weighted : M → List ℕ → ℕ → M
  pub storage : M → List ℕ
  pub lib_merge : M → M → M
  pub to_asapv1 : M → Text ⊎ List ℕ
  pub from_asapv1 : List ℕ → Text ⊎ M
  -- `MATRIX_MAX_ROWS`
  pub max_rows : ℕ

module _ {M : Type 0} (lib : MatrixLib M) where
  unfoldable pub new : ℕ → ℕ → M
  new rows cols = lib.with_dimensions (min (max rows 1) lib.max_rows) (max cols 1)

  unfoldable pub reset : M → M
  reset s = lib.with_dimensions (lib.rows s) (lib.cols s)

  abbrev pub same_dimensions : M → M → Bool
  same_dimensions s t = lib.rows s == lib.rows t && lib.cols s == lib.cols t

  module _ (wrapper : Text) where
    unfoldable pub from_snapshot : List ℕ → Result M
    from_snapshot payload = lib_result (wrapper ++ text " decode: ") (lib.from_asapv1 payload)

    unfoldable pub snapshot : M → Result (List ℕ)
    snapshot s =
        if all (λ c. c == 0) (lib.storage s)
        then ok []
        else lib_result (wrapper ++ text " snapshot: ") (lib.to_asapv1 s)

    abbrev pub merged : M → Result M → Result (Unit {0}) × M
    merged s (err e) = (err e, s)
    merged s (ok t) =
        if not (same_dimensions s t)
        then (err (other (wrapper ++ text " merge: dimension mismatch")), s)
        else (ok tt, lib.lib_merge s t)

    unfoldable pub merge_snapshot : M → List ℕ → Result (Unit {0}) × M
    merge_snapshot s [] = (ok tt, s)
    merge_snapshot s (b ∷ payload) = merged s (from_snapshot (b ∷ payload))

    -- `estimate` is the trait's: no points.
    abbrev pub sketch_ops : Sketch M
    sketch_ops = record {
      snapshot = snapshot;
      merge_snapshot = merge_snapshot;
      estimate = λ s quantiles top_k. [];
      reset = reset;
    }

  -- `CMSObserver`, on a sketch that is a `CMSWrapper`.
  unfoldable pub cms_observer : SketchObserver M
  cms_observer s obs = elim obs.value.bytes [
    | [] ↦ (ok tt, lib.update_weighted s (attributes_key obs.labels []) 1)
    | b ∷ rest ↦ (ok tt, lib.update_weighted s (b ∷ rest) 1)
  ]

  abbrev or_key : Text → Text → Text
  or_key default_key [] = default_key
  or_key default_key (c ∷ key) = c ∷ key

  -- `CountSketchObserver`, on a sketch that is a `CountSketchWrapper`.
  unfoldable pub count_sketch_observer : FloatLib → Text → SketchObserver M
  count_sketch_observer fl default_key s obs = elim obs.value.bytes [
    | [] ↦ (ok tt, lib.update_weighted s (or_key default_key (attributes_key obs.labels [])) 1)
    | b ∷ rest ↦ (ok tt, lib.update_weighted s (b ∷ rest) (fl.round_i64 obs.value.float))
  ]
