-- ===== src/Tests/Wrapped.antt =====
-- The theorems on the sketch wrappers and their dispatch, at lists in place of sketches.
use asapcollector_public.Common.{ℕ, inr, none, some, false, true, List, [], ◌∷◌, ◌++◌, map, length}
use asapcollector_public.Common.Text.{Text, text}
use asapcollector_public.Error.{PrecomputeError}
use asapcollector_public.Plugin.{PluginConfig}
use asapcollector_public.Sketches.{
  Kinds, SketchLib, AnySketch, a_count_min_heap, type_of, merge_snapshot, decode_snapshot,
}
use asapcollector_public.Sketches.Contract.{IsMerged, merge_snapshot-decode_snapshot}
use asapcollector_public.Sketches.Heap.{HeapLib}
use asapcollector_public.Sketches.Matrix.{MatrixLib}
use asapcollector_public.Tests.Panes.{kept_values}
use asapcollector_public.Tests.Store.{plain_floats}

-- Lists of numbers in place of each sketch.
abbrev lists : Kinds
lists = record {
  Dd = List ℕ;
  Kll = List ℕ;
  Hll = List ℕ;
  CountSketch = List ℕ;
  CountMin = List ℕ;
  CountMinHeap = List ℕ;
}

abbrev list_matrix : MatrixLib (List ℕ)
list_matrix = record {
  with_dimensions = λ rows cols. [];
  rows = λ s. 4;
  cols = λ s. 2048;
  update_weighted = λ s key weight. weight ∷ s;
  storage = λ s. s;
  lib_merge = λ s t. s ++ t;
  to_asapv1 = λ s. inr s;
  from_asapv1 = λ payload. inr payload;
  max_rows = 20;
}

abbrev list_heap : HeapLib (List ℕ)
list_heap = record {
  with_top_k = λ rows cols k. [];
  rows = λ s. 4;
  cols = λ s. 2048;
  capacity = λ s. 10;
  items = map (λ n. (some (n ∷ []), n));
  update_weighted = λ s key weight. weight ∷ s;
  lib_merge = λ s t. s ++ t;
  to_asapv1 = λ s. inr s;
  from_asapv1 = λ payload. inr payload;
  max_rows = 20;
}

abbrev list_lib : SketchLib lists
list_lib = record {
  dd = record {
    with_alpha = λ alpha. [];
    alpha = λ s. 0;
    add = λ s v. v ∷ s;
    lib_count = λ s. length s;
    lib_merge = λ s t. (inr tt, s ++ t);
    value_at_quantile = λ s q. none;
    to_asapv1 = λ s. inr s;
    from_asapv1 = λ payload. inr payload;
    nan = 0x7ff8000000000000;
    display = λ v. [];
  };
  kll = kept_values;
  hll = record {
    empty = [];
    lib_update = λ s key. key ++ s;
    registers = λ s. s;
    lib_merge = λ s t. s ++ t;
    lib_estimate = λ s. length s;
    to_asapv1 = λ s. inr s;
    from_asapv1 = λ payload. inr payload;
  };
  count_sketch = list_matrix;
  count_min = list_matrix;
  count_min_heap = list_heap;
  float_lib = plain_floats;
  lossy = λ bytes. bytes;
}

-- A heap with as many rows as its list is long: it refuses a snapshot of another length.
abbrev tall_lib : SketchLib lists
tall_lib = record list_lib { count_min_heap = record list_heap { rows = length } }

abbrev values : AnySketch lists
values = a_count_min_heap (4 ∷ 7 ∷ [])

merge_snapshot-decode_snapshot_example :
    IsMerged values
      (decode_snapshot tall_lib (type_of values) (9 ∷ []))
      (merge_snapshot tall_lib values (9 ∷ []))
merge_snapshot-decode_snapshot_example = merge_snapshot-decode_snapshot tall_lib values 9 []

abbrev no_text : PrecomputeError → Text
no_text e = []

abbrev plugin : PluginConfig
plugin = record {
  sketch_type = text "KLL";
  window_size = 10000000000;
  window_slide = 0;
  output_metric_name = text "asap_sketch";
  agg_id = 0;
  sketch_params = [];
  default_key = none;
  omit_resource_attrs = false;
  global_aggregation = false;
  emit_window_stats = false;
  transmit_sketch = true;
  quantiles = [];
  aggregate_by = [];
  per_attribute = [];
}
