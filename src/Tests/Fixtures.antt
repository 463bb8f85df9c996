-- ===== src/Tests/Fixtures.antt =====
-- The inputs that the tests share.
use asapcollector_public.Common.{
  ℕ, ◌+◌, ◌<◌, ◌≡◌, true, false, none, some, List, [], ◌∷◌, arith, ◌==◌, if◌then◌else◌,
}
use asapcollector_public.Common.Text.{text}
use asapcollector_public.Envelope.{KeyValue, SketchEnvelope, kll_sketch}
use asapcollector_public.Error.{Result, ok}
use asapcollector_public.Observation.{Observation, ObservationValueKind}
use asapcollector_public.Config.{
  PrecomputeConfig, default_config, evict_oldest, series_key_for_entry,
}
use asapcollector_public.Sketch.{Sketch, SketchFactory, SketchObserver}
use asapcollector_public.Stats.{no_stats, StatsSnapshot}
use asapcollector_public.Window.{SeriesEntry, Series, WindowState}
use asapcollector_public.Window.Soundness.{SketchLaws}
use asapcollector_public.Precompute.{PrecomputeImpl}

-- A sketch that counts what it has seen.
abbrev pub counter_snapshot : ℕ → Result (List ℕ)
counter_snapshot s = if s == 0 then ok [] else ok (s ∷ [])

abbrev pub counter_merge : ℕ → List ℕ → Result (Unit {0}) × ℕ
counter_merge s [] = (ok tt, s)
counter_merge s (b ∷ bytes) = (ok tt, s + b + 1)

abbrev pub counter : Sketch ℕ
counter = record {
  snapshot = counter_snapshot;
  merge_snapshot = counter_merge;
  estimate = λ s quantiles top_k. [];
  reset = λ s. 0;
}

abbrev pub counter_factory : SketchFactory ℕ
counter_factory _ = 0

abbrev pub counter_observer : SketchObserver ℕ
counter_observer s obs = (ok tt, s + 1)

pub keeps_merged : (s : ℕ) (bytes : List ℕ) → 0 < s → 0 < (counter_merge s bytes).1
keeps_merged s [] h = h
keeps_merged s (b ∷ bytes) h = omega arith

pub counter_filled : (s : ℕ) → 0 < s → counter_snapshot s ≡ ok (s ∷ [])
counter_filled s h = ground arith

abbrev pub counter_laws : SketchLaws counter counter_observer
counter_laws = record {
  Filled = λ s. 0 < s;
  Takes = λ obs. Unit;
  snapshot_filled = λ s h. (s, [], counter_filled s h);
  observe_fills = λ s obs takes r. omega arith;
  observe_keeps = λ s obs h. omega arith;
  merge_fills = λ s b bytes r. omega arith;
  merge_keeps = λ s bytes h. keeps_merged s bytes h;
}

-- One window takes 10 ms, and holds two series.
abbrev pub cfg : PrecomputeConfig
cfg = record default_config {
  agg_id = 7;
  sketch_type = kll_sketch;
  window = record { size = 10000000; slide = 0; allowed_lateness = 0 };
  max_series = 2;
}

abbrev pub evicting : PrecomputeConfig
evicting = record cfg { on_overflow = evict_oldest }

abbrev pub labels : List KeyValue
labels = record { key = text "host"; value = text "a" } ∷ []

abbrev pub observation : Observation
observation = record {
  timestamp_ms = 14;
  metric = text "latency";
  resource_labels = [];
  labels = labels;
  value = record {
    kind = ObservationValueKind.float;
    float = 0;
    hash = 0;
    bytes = [];
    envelope = none;
  };
}

abbrev pub envelope : SketchEnvelope
envelope = record {
  schema_version = 1;
  sketch_type = kll_sketch;
  agg_id = 7;
  resource_labels = [];
  labels = labels;
  window_start_ms = 10;
  window_end_ms = 20;
  payload = 3 ∷ [];
  metric_name = [];
  count = 4;
  aggregation_temporality = 0;
  value = 0;
}

-- A series of two observations, seen at 12, and one of five, seen at 11.
abbrev pub first_entry : SeriesEntry ℕ
first_entry = record { sketch = 2; resource_labels = []; labels = []; last_seen_ms = 12; count = 2 }

abbrev pub second_entry : SeriesEntry ℕ
second_entry = record {
  sketch = 5;
  resource_labels = [];
  labels = [];
  last_seen_ms = 11;
  count = 5;
}

abbrev pub one_series : Series ℕ
one_series = (series_key_for_entry cfg [] [], first_entry) ∷ []

abbrev pub two_series : Series ℕ
two_series = (text "a", first_entry) ∷ (text "b", second_entry) ∷ []

-- The window `[10, 20)`.
abbrev pub window_of : Series ℕ → WindowState ℕ
window_of series = record {
  series = series;
  active_start_ms = 10;
  active_end_ms = 20;
  initialized = true;
  key = [];
}

abbrev pub stats : StatsSnapshot
stats = record no_stats { active_series = 1 }

abbrev pub instance_of : PrecomputeConfig → Series ℕ → PrecomputeImpl ℕ
instance_of c series = record {
  cfg = some c;
  sketch_factory = some counter_factory;
  observer = some counter_observer;
  window = window_of series;
  stats = stats;
  sketch_type = kll_sketch;
  closed = false;
}
