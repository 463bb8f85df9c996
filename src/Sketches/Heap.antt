-- ===== src/Sketches/Heap.antt =====
-- asap-precompute-rs/src/sketches/cms_heap.rs. `CountMinSketchWithHeap` of sketchlib, and the text
-- of bytes that are no UTF-8, are parameters.
use asapcollector_public.Common.{
  ℕ, ◌+◌, ◌⊎◌, Bool, true, false, ◌&&◌, ◌||◌, not, Option, none, some, List, [], ◌∷◌, max, min,
  ◌==◌, if◌then◌else◌,
}
use asapcollector_public.Common.Sorting.{sort}
use asapcollector_public.Common.Text.{Text, text, text_le, decimal}
use asapcollector_public.Error.{Result, ok, err, other}
use asapcollector_public.Float.{F64}
use asapcollector_public.Float.Math.{FloatLib, total_le}
use asapcollector_public.Answers.{take_first, filter_map}
use asapcollector_public.Matchers.{attributes_key}
use asapcollector_public.Sketch.{Sketch, SketchObserver, EstimatePoint, FrequencyEntry, lib_result}

-- An item of the heap: its key, if it is bytes, and its count, as the bits of an `i64`.
abbrev pub HeapItem : Type 0
HeapItem = Option (List ℕ) × ℕ

pub record HeapLib (C : Type 0) : Type 0 where
  pub with_top_k : ℕ → ℕ → ℕ → C
  pub rows : C → ℕ
  pub cols : C → ℕ
  pub capacity : C → ℕ
  pub items : C → List HeapItem
  pub update_weighted : C → List ℕ → ℕ → C
  pub lib_merge : C → C → C
  pub to_asapv1 : C → Text ⊎ List ℕ
  pub from_asapv1 : List ℕ → Text ⊎ C
  -- `MATRIX_MAX_ROWS`
  pub max_rows : ℕ

-- Larger counts first, then by key.
abbrev pub entry_le : FrequencyEntry → FrequencyEntry → Bool
entry_le a b = not (total_le a.count b.count) || (total_le b.count a.count && text_le a.key b.key)

abbrev is_nothing : {A : Type 0} → List A → Bool
is_nothing [] = true
is_nothing (x ∷ xs) = false

module _ {C : Type 0} (lib : HeapLib C) where
  unfoldable pub new : ℕ → ℕ → ℕ → C
  new rows cols top_k = lib.with_top_k (min (max rows 1) lib.max_rows) (max cols 1) (max top_k 1)

  unfoldable pub from_snapshot : List ℕ → Result C
  from_snapshot payload = lib_result (text "CMSHeapWrapper decode: ") (lib.from_asapv1 payload)

  unfoldable pub merge_from : C → C → Result (Unit {0}) × C
  merge_from s t =
      if not (lib.rows s == lib.rows t && lib.cols s == lib.cols t)
      then (err (other (text "CMSHeapWrapper merge: dimension mismatch")), s)
      else (ok tt, lib.lib_merge s t)

  unfoldable pub snapshot : C → Result (List ℕ)
  snapshot s =
      if is_nothing (lib.items s)
      then ok []
      else lib_result (text "CMSHeapWrapper snapshot: ") (lib.to_asapv1 s)

  abbrev pub merged : C → Result C → Result (Unit {0}) × C
  merged s (err e) = (err e, s)
  merged s (ok t) = merge_from s t

  unfoldable pub merge_snapshot : C → List ℕ → Result (Unit {0}) × C
  merge_snapshot s [] = (ok tt, s)
  merge_snapshot s (b ∷ payload) = merged s (from_snapshot (b ∷ payload))

  unfoldable pub reset : C → C
  reset s = lib.with_top_k (lib.rows s) (lib.cols s) (lib.capacity s)

  module _ (fl : FloatLib) where
    abbrev entry_of : HeapItem → Option FrequencyEntry
    entry_of (none, count) = none
    entry_of (some key, count) = some (record { key = key; count = fl.of_i64 count })

    -- The entries of the heap, largest count first.
    unfoldable pub top_k : C → ℕ → List FrequencyEntry
    top_k s k = take_first k (sort entry_le (filter_map entry_of (lib.items s)))

    module _ (lossy : List ℕ → Text) where
      abbrev points_from : ℕ → List FrequencyEntry → List EstimatePoint
      points_from rank [] = []
      points_from rank (entry ∷ entries) =
          record {
            labels =
                record { key = text "key"; value = lossy entry.key }
                ∷ record { key = text "rank"; value = decimal (rank + 1) }
                ∷ [];
            value = entry.count;
          }
          ∷ points_from (rank + 1) entries

      unfoldable pub estimate : C → List F64 → ℕ → List EstimatePoint
      estimate s quantiles k = points_from 0 (top_k s (lib.capacity s))

      abbrev pub sketch_ops : Sketch C
      sketch_ops = record {
        snapshot = snapshot;
        merge_snapshot = merge_snapshot;
        estimate = estimate;
        reset = reset;
      }

  -- `CMSHeapObserver`, on a sketch that is a `CMSHeapWrapper`.
  unfoldable pub observer : SketchObserver C
  observer s obs = elim obs.value.bytes [
    | [] ↦ (ok tt, lib.update_weighted s (attributes_key obs.labels []) 1)
    | b ∷ rest ↦ (ok tt, lib.update_weighted s (b ∷ rest) 1)
  ]
