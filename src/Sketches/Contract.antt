-- ===== src/Sketches/Contract.antt =====
-- What the `Sketch` trait objects of asap-precompute-rs/src/sketches promise their callers.
use asapcollector_public.Common.{
  ℕ, ◌≡◌, refl, ap, sym, ◌∙◌, ◌⊎◌, ◌&&◌, not, List, ◌∷◌, inl, inr, Bool-cases, ◌==◌,
}
use asapcollector_public.Common.Text.{Text, text}
use asapcollector_public.Envelope.{
  SketchType, unspecified, dd_sketch, kll_sketch, hll_sketch, count_sketch, count_min_sketch,
  count_min_sketch_with_heap, exact,
}
use asapcollector_public.Error.{PrecomputeError, Result, ok, err, Ensures}
use asapcollector_public.Kll
use asapcollector_public.Sketches.Dd
use asapcollector_public.Sketches.Hll
use asapcollector_public.Sketches.Matrix
use asapcollector_public.Sketches.Heap
use asapcollector_public.Sketches.{
  Kinds, SketchLib, AnySketch, a_dd, a_kll, a_hll, a_count_sketch, a_count_min, a_count_min_heap,
  type_of, boxed, boxed_ok, cms_name, count_sketch_name, merge_snapshot, decode_snapshot,
}

-- A call that fails leaves the sketch as it was.
abbrev pub IsAllOrNothing : {S : Type 0} → S → Result (Unit {0}) × S → Type 0
IsAllOrNothing s (ok u, t) = Unit
IsAllOrNothing s (err e, t) = t ≡ s

module _ {M : Type 0} (lib : Matrix.MatrixLib M) (wrapper : Text) where
  merged_matrix : (s : M) (r : Result M) → IsAllOrNothing s (Matrix.merged lib wrapper s r)
  merged_matrix s (err e) = refl
  merged_matrix s (ok t) = elim (Bool-cases (not (Matrix.same_dimensions lib s t))) [
    | inl e ↦ rw e refl
    | inr e ↦ rw e tt
  ]

module _ {C : Type 0} (lib : Heap.HeapLib C) where
  merged_heap : (s : C) (r : Result C) → IsAllOrNothing s (Heap.merged lib s r)
  unfolding Heap.merge_from
  merged_heap s (err e) = refl
  merged_heap s (ok t) =
      elim (Bool-cases (not (lib.rows s == lib.rows t && lib.cols s == lib.cols t))) [
        | inl e ↦ rw e refl
        | inr e ↦ rw e tt
      ]

boxed-IsAllOrNothing :
    {kinds : Kinds} {S : Type 0} (box : S → AnySketch kinds) (s : S) (r : Result (Unit {0}) × S)
    → IsAllOrNothing s r
    → IsAllOrNothing (box s) (boxed box r)
boxed-IsAllOrNothing box s (ok u, t) h = tt
boxed-IsAllOrNothing box s (err e, t) h = ap box h

boxed_ok-type :
    {kinds : Kinds} {S : Type 0} (box : S → AnySketch kinds) (t : SketchType) (r : Result S)
    → ((s : S) → type_of (box s) ≡ t)
    → Ensures (λ s. type_of s ≡ t) (boxed_ok box r)
boxed_ok-type box t (ok s) h = h s
boxed_ok-type box t (err e) h = tt

-- The trait object is a `DDSketchWrapper`, whose merge may fail inside of sketchlib.
abbrev pub IsDd : {kinds : Kinds} → AnySketch kinds → Type 0
IsDd s = type_of s ≡ dd_sketch

-- What a merge has to do, from the snapshot that the payload decodes to.
abbrev pub IsMerged :
    {kinds : Kinds}
    → AnySketch kinds
    → Result (AnySketch kinds)
    → Result (Unit {0}) × AnySketch kinds
    → Type 0
IsMerged s (err e) r = r ≡ (err e, s)
IsMerged s (ok t) r = (type_of r.1 ≡ type_of t) × (IsDd s ⊎ IsAllOrNothing s r)

module _ {kinds : Kinds} {S : Type 0} (box : S → AnySketch kinds) (ty : SketchType) where
  -- The same for one wrapper, whose merge goes by the decoded snapshot.
  boxed-IsMerged :
      (s : S) (decoded : Result S) (merged : Result S → Result (Unit {0}) × S)
      → ((t : S) → type_of (box t) ≡ ty)
      → ((e : PrecomputeError) → merged (err e) ≡ (err e, s))
      → ((t : S) → IsDd (box s) ⊎ IsAllOrNothing s (merged (ok t)))
      → IsMerged (box s) (boxed_ok box decoded) (boxed box (merged decoded))
  boxed-IsMerged s (err e) merged types refuses takes = ap (boxed box) (refuses e)
  boxed-IsMerged s (ok t) merged types refuses takes = (
    types (merged (ok t)).1 ∙ sym (types t),
    elim (takes t) [ inl dd ↦ inl dd | inr kept ↦ inr (boxed-IsAllOrNothing box s _ kept) ],
  )

module _ {kinds : Kinds} (lib : SketchLib kinds) where
  -- A payload with content that `decode_snapshot` refuses for the type of a sketch is refused by the
  -- merge with the same error, and the sketch stays as it was. A payload that decodes leaves a sketch
  -- of the type, and if the merge fails all the same, as for other dimensions, the sketch is as it
  -- was, unless it is a DDSketch, whose own merge may fail.
  pub merge_snapshot-decode_snapshot :
      (s : AnySketch kinds) (b : ℕ) (payload : List ℕ)
      → IsMerged s
          (decode_snapshot lib (type_of s) (b ∷ payload))
          (merge_snapshot lib s (b ∷ payload))
  unfolding merge_snapshot decode_snapshot Dd.merge_snapshot Kll.merge_snapshot_kll
      Hll.merge_snapshot Matrix.merge_snapshot Heap.merge_snapshot
  merge_snapshot-decode_snapshot (a_dd s) b payload =
      boxed-IsMerged a_dd dd_sketch s _ (Dd.merged lib.dd s) (λ t. refl) (λ e. refl) (λ t. inl refl)
  merge_snapshot-decode_snapshot (a_kll s) b payload =
      boxed-IsMerged a_kll kll_sketch s _ (Kll.merge_decoded lib.kll s) (λ t. refl) (λ e. refl)
        (λ t. inr tt)
  merge_snapshot-decode_snapshot (a_hll s) b payload =
      boxed-IsMerged a_hll hll_sketch s _ (Hll.or_kept lib.hll s) (λ t. refl) (λ e. refl)
        (λ t. inr tt)
  merge_snapshot-decode_snapshot (a_count_sketch s) b payload =
      boxed-IsMerged a_count_sketch count_sketch s _
        (Matrix.merged lib.count_sketch count_sketch_name s) (λ t. refl) (λ e. refl)
        (λ t. inr (merged_matrix lib.count_sketch count_sketch_name s (ok t)))
  merge_snapshot-decode_snapshot (a_count_min s) b payload =
      boxed-IsMerged a_count_min count_min_sketch s _ (Matrix.merged lib.count_min cms_name s)
        (λ t. refl) (λ e. refl) (λ t. inr (merged_matrix lib.count_min cms_name s (ok t)))
  merge_snapshot-decode_snapshot (a_count_min_heap s) b payload =
      boxed-IsMerged a_count_min_heap count_min_sketch_with_heap s _
        (Heap.merged lib.count_min_heap s) (λ t. refl) (λ e. refl)
        (λ t. inr (merged_heap lib.count_min_heap s (ok t)))

  -- A snapshot that is decoded for a type gives a sketch of that type.
  pub decode_snapshot-type :
      (t : SketchType) (payload : List ℕ)
      → Ensures (λ s. type_of s ≡ t) (decode_snapshot lib t payload)
  unfolding decode_snapshot
  decode_snapshot-type dd_sketch payload =
      boxed_ok-type {kinds = kinds} a_dd dd_sketch (Dd.from_snapshot lib.dd payload) (λ s. refl)
  decode_snapshot-type kll_sketch payload =
      boxed_ok-type {kinds = kinds} a_kll kll_sketch (Kll.from_snapshot lib.kll payload) (λ s. refl)
  decode_snapshot-type hll_sketch payload =
      boxed_ok-type {kinds = kinds} a_hll hll_sketch (Hll.from_snapshot lib.hll payload) (λ s. refl)
  decode_snapshot-type count_sketch payload =
      boxed_ok-type {kinds = kinds} a_count_sketch count_sketch
        (Matrix.from_snapshot lib.count_sketch (text "CountSketchWrapper") payload) (λ s. refl)
  decode_snapshot-type count_min_sketch payload =
      boxed_ok-type {kinds = kinds} a_count_min count_min_sketch
        (Matrix.from_snapshot lib.count_min (text "CMSWrapper") payload) (λ s. refl)
  decode_snapshot-type count_min_sketch_with_heap payload =
      boxed_ok-type {kinds = kinds} a_count_min_heap count_min_sketch_with_heap
        (Heap.from_snapshot lib.count_min_heap payload) (λ s. refl)
  decode_snapshot-type unspecified payload = tt
  decode_snapshot-type exact payload = tt
