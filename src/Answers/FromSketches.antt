-- ===== src/Answers/FromSketches.antt =====
-- `sketch_answers` and `heavy_hitter_accuracy` of asap-precompute-rs/src/answers.rs. The sketches, the
-- power of an `f64` and the text of bytes that are no UTF-8 are parameters.
use asapcollector_public.Common.{
  ℕ, ◌+◌, Bool, ◌&&◌, ◌||◌, Option, none, some, List, [], ◌∷◌, ◌++◌, length, ltb, leb, ◌==◌,
  if◌then◌else◌,
}
use asapcollector_public.Common.Text.{Text, text, decimal}
use asapcollector_public.Common.Assoc.{Assoc, lookup, text_key}
use asapcollector_public.Common.Maps.{put}
use asapcollector_public.Envelope.{
  SketchType, SketchEnvelope, kll_sketch, hll_sketch, count_min_sketch_with_heap,
}
use asapcollector_public.Error.{Result, ok, ◌>>=◌}
use asapcollector_public.Float.{F64, float_le, float_eq, zero_f64, one_f64}
use asapcollector_public.Float.Math.{FloatLib, abs}
use asapcollector_public.Kll
use asapcollector_public.Sketch.{FrequencyEntry}
use asapcollector_public.Sketches.{Kinds, SketchLib}
use asapcollector_public.Sketches.Hll
use asapcollector_public.Sketches.Heap
use asapcollector_public.Answers.{gauge, bounded, filter_map}

-- `HLL_RELATIVE_ERROR`, `Z95`, 2.296, 0.9723 and `E`.
abbrev hll_relative_error : F64
hll_relative_error = 0x3f80a3d70a3d70a4

abbrev z95 : F64
z95 = 0x3fff5c28f5c28f5c

abbrev kll_factor : F64
kll_factor = 0x40025e353f7ced91

abbrev kll_power : F64
kll_power = 0x3fef1d14e3bcd35b

abbrev euler : F64
euler = 0x4005bf0a8b145769

abbrev two_f64 : F64
two_f64 = 0x4000000000000000

module _ {kinds : Kinds} (lib : SketchLib kinds) (pow : F64 → F64 → F64)
    (kll_k : kinds.Kll → ℕ) where
  abbrev fl : FloatLib
  fl = lib.float_lib

  unfoldable pub kll_rank_error : ℕ → F64
  kll_rank_error k = fl.div kll_factor (pow (fl.of_u64 k) kll_power)

  -- The clamp of `at` is that of the wrapper.
  abbrev quantile_at : kinds.Kll → F64 → F64
  quantile_at sk p = Kll.quantile lib.kll sk (Kll.clamp_unit p)

  unfoldable pub kll_answers : SketchEnvelope → List F64 → kinds.Kll → List SketchEnvelope
  kll_answers env [] sk = []
  kll_answers env (q ∷ quantiles) sk =
      let eps = kll_rank_error (kll_k sk) in
      bounded env (text "asap.quantile") ((text "quantile", fl.display q) ∷ []) (quantile_at sk q)
        (quantile_at sk (fl.sub q eps)) (quantile_at sk (fl.add q eps))
      ++ kll_answers env quantiles sk

  unfoldable pub hll_answers : SketchEnvelope → kinds.Hll → List SketchEnvelope
  hll_answers env sk =
      let d = Hll.estimate_cardinality lib.hll fl sk in
      let e = fl.mul (fl.mul z95 hll_relative_error) d in
      bounded env (text "asap.distinct") [] d (fl.sub d e) (fl.add d e)

  unfoldable pub heap_answers : SketchEnvelope → F64 → ℕ → List FrequencyEntry → List SketchEnvelope
  heap_answers env over rank [] = []
  heap_answers env over rank (entry ∷ entries) =
      bounded env (text "asap.topk")
        ((text "key", lib.lossy entry.key) ∷ (text "rank", decimal (rank + 1)) ∷ []) entry.count
        (fl.larger (fl.sub entry.count over) zero_f64) entry.count
      ++ heap_answers env over (rank + 1) entries

  -- The answers of the sketch itself.
  unfoldable pub typed_answers :
      SketchType → SketchEnvelope → List F64 → ℕ → Result (List SketchEnvelope)
  typed_answers kll_sketch env quantiles k = do
    sk ← Kll.from_snapshot lib.kll env.payload
    ok (kll_answers env quantiles sk)
  typed_answers hll_sketch env quantiles k = do
    sk ← Hll.from_snapshot lib.hll env.payload
    ok (hll_answers env sk)
  typed_answers count_min_sketch_with_heap env quantiles k = do
    sk ← Heap.from_snapshot lib.count_min_heap env.payload
    let over = fl.mul (fl.div euler (fl.of_u64 (lib.count_min_heap.cols sk))) (fl.of_u64 env.count)
    ok (heap_answers env over 0 (Heap.top_k lib.count_min_heap fl sk k))
  typed_answers _ env quantiles k = ok []

  unfoldable pub sketch_answers : SketchEnvelope → List F64 → ℕ → Result (List SketchEnvelope)
  sketch_answers env quantiles k = do
    answers ← typed_answers env.sketch_type env quantiles k
    ok (gauge env (text "asap.points") (text "sketch") [] (fl.of_u64 env.count) ∷ answers)

pub record HeavyHitterAccuracy : Type 0 where
  pub truth : ℕ
  pub reported : ℕ
  pub true_positives : ℕ
  pub precision : F64
  pub recall : F64
  pub f1 : F64
  pub average_relative_error : Option F64

abbrev pub Counted : Type 0
Counted = List (Text × F64)

-- `filter(|e| e.1 >= threshold)`
unfoldable pub reaching : F64 → Counted → Counted
reaching threshold [] = []
reaching threshold ((key, c) ∷ list) =
    let rest = reaching threshold list in if float_le threshold c then (key, c) ∷ rest else rest

-- `collect()` into a map: a later count of a key replaces an earlier one.
unfoldable pub collect_counts : Assoc Text F64 → Counted → Assoc Text F64
collect_counts m [] = m
collect_counts m ((key, c) ∷ list) = collect_counts (put key c m) list

module _ (fl : FloatLib) (smaller : F64 → F64 → F64) where
  -- `fold(f64::INFINITY, f64::min)`
  unfoldable pub least_count : F64 → Counted → F64
  least_count least [] = least
  least_count least ((key, c) ∷ list) = least_count (smaller least c) list

  unfoldable pub cut_short : ℕ → F64 → Counted → Bool
  cut_short k threshold list =
      leb k (length list) && float_le threshold (least_count 0x7ff0000000000000 list)

  abbrev error_of : Assoc Text F64 → Text × F64 → Option F64
  error_of truth (key, estimate) = elim (lookup key truth) [
    | none ↦ none
    | some c ↦ some (fl.div (abs (fl.sub estimate c)) c)
  ]

  abbrev ratio : ℕ → ℕ → F64
  ratio n d = if d == 0 then one_f64 else fl.div (fl.of_u64 n) (fl.of_u64 d)

  unfoldable pub accuracy_of : Assoc Text F64 → Counted → HeavyHitterAccuracy
  accuracy_of truth reported =
      let errors = filter_map (error_of truth) reported in
      let tp = length errors in
      let precision = ratio tp (length reported) in
      let recall = ratio tp (length truth) in
      record {
        truth = length truth;
        reported = length reported;
        true_positives = tp;
        precision = precision;
        recall = recall;
        f1 =
            if float_eq (fl.add precision recall) zero_f64
            then zero_f64
            else fl.div (fl.mul (fl.mul two_f64 precision) recall) (fl.add precision recall);
        average_relative_error =
            if ltb 0 tp then some (fl.div (fl.sum errors) (fl.of_u64 tp)) else none;
      }

  unfoldable pub heavy_hitter_accuracy :
      F64 → F64 → ℕ → Counted → Counted → Option HeavyHitterAccuracy
  heavy_hitter_accuracy phi points k exact sketch =
      let threshold = fl.mul phi points in
      if cut_short k threshold exact || cut_short k threshold sketch
      then none
      else some
          (accuracy_of (collect_counts [] (reaching threshold exact)) (reaching threshold sketch))
