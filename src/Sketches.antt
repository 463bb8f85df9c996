-- ===== src/Sketches.antt =====
-- asap-precompute-rs/src/sketches: the wrappers of the sketches of sketchlib, which are parameters,
-- and the `Sketch` trait object that one of them stands behind.
pub mod Dd
pub mod Hll
pub mod Matrix
pub mod Heap
pub mod Contract
use asapcollector_public.Common.{ℕ, Bool, true, false, List, [], ◌∷◌, ◌++◌}
use asapcollector_public.Common.Text.{Text, text}
use asapcollector_public.Envelope.{
  SketchType, unspecified, dd_sketch, kll_sketch, hll_sketch, count_sketch, count_min_sketch,
  count_min_sketch_with_heap, exact,
}
use asapcollector_public.Error.{Result, ok, err, other, ◌>>=◌}
use asapcollector_public.Float.{F64}
use asapcollector_public.Float.Math.{FloatLib}
use asapcollector_public.Kll.{KllLib, kll_sketch_ops, kll_observer}
use asapcollector_public.Kll
use asapcollector_public.Observation.{Observation}
use asapcollector_public.Sketch.{Sketch, SketchObserver, EstimatePoint}
use asapcollector_public.Sketches.Dd.{DdLib}
use asapcollector_public.Sketches.Hll.{HllLib}
use asapcollector_public.Sketches.Matrix.{MatrixLib}
use asapcollector_public.Sketches.Heap.{HeapLib}

-- A type of each sketch of sketchlib.
pub record Kinds : Type 1 where
  pub Dd : Type 0
  pub Kll : Type 0
  pub Hll : Type 0
  pub CountSketch : Type 0
  pub CountMin : Type 0
  pub CountMinHeap : Type 0

pub record SketchLib (kinds : Kinds) : Type 0 where
  pub dd : DdLib kinds.Dd
  pub kll : KllLib kinds.Kll
  pub hll : HllLib kinds.Hll
  pub count_sketch : MatrixLib kinds.CountSketch
  pub count_min : MatrixLib kinds.CountMin
  pub count_min_heap : HeapLib kinds.CountMinHeap
  pub float_lib : FloatLib
  pub lossy : List ℕ → Text

-- A `Box<dyn Sketch>`: one of the wrappers.
pub data AnySketch (kinds : Kinds) : Type 0 where
  a_dd : kinds.Dd → AnySketch kinds
  a_kll : kinds.Kll → AnySketch kinds
  a_hll : kinds.Hll → AnySketch kinds
  a_count_sketch : kinds.CountSketch → AnySketch kinds
  a_count_min : kinds.CountMin → AnySketch kinds
  a_count_min_heap : kinds.CountMinHeap → AnySketch kinds

-- The type that a wrapper is for.
abbrev pub type_of : {kinds : Kinds} → AnySketch kinds → SketchType
type_of (a_dd s) = dd_sketch
type_of (a_kll s) = kll_sketch
type_of (a_hll s) = hll_sketch
type_of (a_count_sketch s) = count_sketch
type_of (a_count_min s) = count_min_sketch
type_of (a_count_min_heap s) = count_min_sketch_with_heap

-- The result of a call of one wrapper's method, with the trait object that it leaves.
abbrev pub boxed :
    {kinds : Kinds} {S : Type 0}
    → (S → AnySketch kinds)
    → Result (Unit {0}) × S
    → Result (Unit {0}) × AnySketch kinds
boxed box (r, s) = (r, box s)

abbrev boxed_ok :
    {kinds : Kinds} {S : Type 0} → (S → AnySketch kinds) → Result S → Result (AnySketch kinds)
boxed_ok box (ok s) = ok (box s)
boxed_ok box (err e) = err e

abbrev pub cms_name : Text
cms_name = text "CMSWrapper"

abbrev pub count_sketch_name : Text
count_sketch_name = text "CountSketchWrapper"

module _ {kinds : Kinds} (lib : SketchLib kinds) where
  abbrev dd_ops : Sketch kinds.Dd
  dd_ops = Dd.sketch_ops lib.dd

  abbrev hll_ops : Sketch kinds.Hll
  hll_ops = Hll.sketch_ops lib.hll lib.float_lib

  abbrev count_sketch_ops : Sketch kinds.CountSketch
  count_sketch_ops = Matrix.sketch_ops lib.count_sketch count_sketch_name

  abbrev count_min_ops : Sketch kinds.CountMin
  count_min_ops = Matrix.sketch_ops lib.count_min cms_name

  abbrev count_min_heap_ops : Sketch kinds.CountMinHeap
  count_min_heap_ops = Heap.sketch_ops lib.count_min_heap lib.float_lib lib.lossy

  unfoldable pub snapshot : AnySketch kinds → Result (List ℕ)
  snapshot (a_dd s) = dd_ops.snapshot s
  snapshot (a_kll s) = (kll_sketch_ops lib.kll).snapshot s
  snapshot (a_hll s) = hll_ops.snapshot s
  snapshot (a_count_sketch s) = count_sketch_ops.snapshot s
  snapshot (a_count_min s) = count_min_ops.snapshot s
  snapshot (a_count_min_heap s) = count_min_heap_ops.snapshot s

  unfoldable pub merge_snapshot : AnySketch kinds → List ℕ → Result (Unit {0}) × AnySketch kinds
  merge_snapshot (a_dd s) payload = boxed a_dd (dd_ops.merge_snapshot s payload)
  merge_snapshot (a_kll s) payload = boxed a_kll ((kll_sketch_ops lib.kll).merge_snapshot s payload)
  merge_snapshot (a_hll s) payload = boxed a_hll (hll_ops.merge_snapshot s payload)
  merge_snapshot (a_count_sketch s) payload =
      boxed a_count_sketch (count_sketch_ops.merge_snapshot s payload)
  merge_snapshot (a_count_min s) payload =
      boxed a_count_min (count_min_ops.merge_snapshot s payload)
  merge_snapshot (a_count_min_heap s) payload =
      boxed a_count_min_heap (count_min_heap_ops.merge_snapshot s payload)

  unfoldable pub reset : AnySketch kinds → AnySketch kinds
  reset (a_dd s) = a_dd (dd_ops.reset s)
  reset (a_kll s) = a_kll ((kll_sketch_ops lib.kll).reset s)
  reset (a_hll s) = a_hll (hll_ops.reset s)
  reset (a_count_sketch s) = a_count_sketch (count_sketch_ops.reset s)
  reset (a_count_min s) = a_count_min (count_min_ops.reset s)
  reset (a_count_min_heap s) = a_count_min_heap (count_min_heap_ops.reset s)

  unfoldable pub estimate : AnySketch kinds → List F64 → ℕ → List EstimatePoint
  estimate (a_dd s) quantiles k = dd_ops.estimate s quantiles k
  estimate (a_kll s) quantiles k = (kll_sketch_ops lib.kll).estimate s quantiles k
  estimate (a_hll s) quantiles k = hll_ops.estimate s quantiles k
  estimate (a_count_sketch s) quantiles k = count_sketch_ops.estimate s quantiles k
  estimate (a_count_min s) quantiles k = count_min_ops.estimate s quantiles k
  estimate (a_count_min_heap s) quantiles k = count_min_heap_ops.estimate s quantiles k

  -- The trait object's methods.
  abbrev pub any_ops : Sketch (AnySketch kinds)
  any_ops = record {
    snapshot = snapshot;
    merge_snapshot = merge_snapshot;
    estimate = estimate;
    reset = reset;
  }

  abbrev not_a : Text → AnySketch kinds → Result (Unit {0}) × AnySketch kinds
  not_a message s = (err (other message), s)

  -- The observers, each with its downcast.
  unfoldable pub dd_observer : SketchObserver (AnySketch kinds)
  dd_observer (a_dd s) obs = boxed a_dd (Dd.observer lib.dd s obs)
  dd_observer s obs = not_a (text "DDSketchObserver: sketch is not a DDSketchWrapper") s

  unfoldable pub any_kll_observer : SketchObserver (AnySketch kinds)
  any_kll_observer (a_kll s) obs = boxed a_kll (kll_observer lib.kll s obs)
  any_kll_observer s obs = not_a (text "KLLObserver: sketch is not a KLLWrapper") s

  unfoldable pub hll_observer : SketchObserver (AnySketch kinds)
  hll_observer (a_hll s) obs = boxed a_hll (Hll.observer lib.hll s obs)
  hll_observer s obs = not_a (text "HLLObserver: sketch is not an HLLWrapper") s

  unfoldable pub count_sketch_observer : Text → SketchObserver (AnySketch kinds)
  count_sketch_observer default_key (a_count_sketch s) obs =
      boxed a_count_sketch
        (Matrix.count_sketch_observer lib.count_sketch lib.float_lib default_key s obs)
  count_sketch_observer default_key s obs =
      not_a (text "CountSketchObserver: sketch is not a CountSketchWrapper") s

  unfoldable pub cms_observer : SketchObserver (AnySketch kinds)
  cms_observer (a_count_min s) obs = boxed a_count_min (Matrix.cms_observer lib.count_min s obs)
  cms_observer s obs = not_a (text "CMSObserver: sketch is not a CMSWrapper") s

  unfoldable pub cms_heap_observer : SketchObserver (AnySketch kinds)
  cms_heap_observer (a_count_min_heap s) obs =
      boxed a_count_min_heap (Heap.observer lib.count_min_heap s obs)
  cms_heap_observer s obs = not_a (text "CMSHeapObserver: sketch is not a CMSHeapWrapper") s

  unfoldable pub decode_snapshot : SketchType → List ℕ → Result (AnySketch kinds)
  decode_snapshot dd_sketch payload = boxed_ok a_dd (Dd.from_snapshot lib.dd payload)
  decode_snapshot kll_sketch payload = boxed_ok a_kll (Kll.from_snapshot lib.kll payload)
  decode_snapshot hll_sketch payload = boxed_ok a_hll (Hll.from_snapshot lib.hll payload)
  decode_snapshot count_sketch payload =
      boxed_ok a_count_sketch (Matrix.from_snapshot lib.count_sketch count_sketch_name payload)
  decode_snapshot count_min_sketch payload =
      boxed_ok a_count_min (Matrix.from_snapshot lib.count_min cms_name payload)
  decode_snapshot count_min_sketch_with_heap payload =
      boxed_ok a_count_min_heap (Heap.from_snapshot lib.count_min_heap payload)
  decode_snapshot unspecified payload = err (other (text "sketch.envelope requires a sketch.type"))
  decode_snapshot exact payload = err (other (text "an exact window is not a sketch"))
