-- ===== src/Window.antt =====
-- asap-precompute-rs/src/window.rs: the window manager. A method returns the new window, and the
-- new counters where it takes them. The map of the series iterates in the order of its list.
pub mod Merge
pub mod Rotate
mod Cases
pub mod Bounds
pub mod Cap
pub mod Eviction
pub mod SeriesKeys
pub mod Counts
pub mod Counters
pub mod Soundness
use asapcollector_public.Common.{
  ℕ, ◌+◌, ◌*◌, ◌/◌, ◌≡◌, Bool, true, false, ◌&&◌, Option, none, some, List, [], ◌∷◌, ltb, leb, ◌==◌,
  if◌then◌else◌, length, u64_max, wrapping_add,
}
use asapcollector_public.Common.Text.{Text, text}
use asapcollector_public.Common.Assoc.{Assoc, lookup, push, alter, remove, values, text_key}
use asapcollector_public.Envelope.{KeyValue, SketchEnvelope}
use asapcollector_public.Error.{Result, ok, err, series_cap_exceeded, late_data, other}
use asapcollector_public.Observation.{Observation}
use asapcollector_public.Config.{
  PrecomputeConfig, OnOverflow, drop, block, evict_oldest, as_millis, write_series_key_for,
  series_key_for_entry,
}
use asapcollector_public.Sketch.{Sketch, SketchFactory, SketchObserver, is_ok}
use asapcollector_public.Stats.{StatsSnapshot, one_more_series, one_less_series}

pub record SeriesEntry (S : Type 0) : Type 0 where
  pub sketch : S
  pub resource_labels : List KeyValue
  pub labels : List KeyValue
  pub last_seen_ms : ℕ
  pub count : ℕ

abbrev pub Series : Type 0 → Type 0
Series S = Assoc Text (SeriesEntry S)

pub record WindowState (S : Type 0) : Type 0 where
  pub series : Series S
  pub active_start_ms : ℕ
  pub active_end_ms : ℕ
  pub initialized : Bool
  pub key : Text

-- What `rotate` and `drain` return, and the window that they leave.
pub record Rotation (S : Type 0) : Type 0 where
  pub closed : List (SeriesEntry S)
  pub from_ms : ℕ
  pub to_ms : ℕ
  pub window : WindowState S

unfoldable pub window_size_ms : PrecomputeConfig → ℕ
window_size_ms cfg = if cfg.size == 0 then 0 else as_millis cfg.size

-- The labels that an entry keeps, under the flags that strip them.
unfoldable pub stored_labels :
    PrecomputeConfig → List KeyValue → List KeyValue → List KeyValue × List KeyValue
stored_labels cfg resource_labels labels =
    if cfg.global_aggregation
    then ([], [])
    else if cfg.omit_resource_attrs
    then ([], labels)
    else (resource_labels, labels)

unfoldable pub is_late : PrecomputeConfig → ℕ → ℕ → Bool
is_late cfg timestamp_ms active_start_ms =
    ltb 0 cfg.allowed_lateness
    && ltb (wrapping_add timestamp_ms (as_millis cfg.allowed_lateness)) active_start_ms

abbrev pub Outcome : Type 0 → Type 0
Outcome S = Result (Unit {0}) × WindowState S × StatsSnapshot

module _ {S : Type 0} where
  abbrev pub new : WindowState S
  new = record {
    series = [];
    active_start_ms = 0;
    active_end_ms = 0;
    initialized = false;
    key = [];
  }

  pub active_series_count : WindowState S → ℕ
  active_series_count w = length w.series

  unfoldable pub init_window : ℕ → PrecomputeConfig → WindowState S → WindowState S
  init_window ref_ms cfg w =
      let size = window_size_ms cfg in
      let start = (ref_ms / size) * size in
      if w.initialized
      then w
      else if size == 0
      then record w { active_start_ms = ref_ms; active_end_ms = ref_ms; initialized = true }
      else record w {
        active_start_ms = start;
        active_end_ms = wrapping_add start size;
        initialized = true;
      }

  unfoldable pub at_cap : PrecomputeConfig → Series S → Bool
  at_cap cfg series = ltb 0 cfg.max_series && leb cfg.max_series (length series)

  -- The loop that looks for the smallest `last_seen_ms`.
  unfoldable pub oldest_key : Option Text → ℕ → Series S → Option Text
  oldest_key best oldest_ms [] = best
  oldest_key best oldest_ms ((k, e) ∷ series) =
      let older = ltb e.last_seen_ms oldest_ms in
      oldest_key (if older then some k else best) (if older then e.last_seen_ms else oldest_ms)
        series

  unfoldable pub evict : Series S → StatsSnapshot → Series S × StatsSnapshot
  evict series stats = elim (oldest_key none u64_max series) [
    | none ↦ (series, stats)
    | some k ↦ (remove k series, one_less_series stats)
  ]

  unfoldable pub overflow :
      OnOverflow → Series S → StatsSnapshot → Option (Series S × StatsSnapshot)
  overflow drop series stats = none
  overflow block series stats = none
  overflow evict_oldest series stats = some (evict series stats)

  -- Room for a new series; `none` is `SeriesCapExceeded`.
  unfoldable pub make_room :
      PrecomputeConfig → Series S → StatsSnapshot → Option (Series S × StatsSnapshot)
  make_room cfg series stats =
      if at_cap cfg series then overflow cfg.on_overflow series stats else some (series, stats)

  -- `observer.observe(entry.sketch, obs)?; entry.count += 1`
  unfoldable pub observe_entry :
      SketchObserver S → Observation → SeriesEntry S → Result (Unit {0}) × SeriesEntry S
  observe_entry observer obs e =
      let (r, sketch) = observer e.sketch obs in
      (r, record e { sketch = sketch; count = if is_ok r then wrapping_add e.count 1 else e.count })

  unfoldable pub touch : Observation → SeriesEntry S → SeriesEntry S
  touch obs e = record e {
    last_seen_ms = if ltb e.last_seen_ms obs.timestamp_ms then obs.timestamp_ms else e.last_seen_ms;
  }

  unfoldable pub new_entry : PrecomputeConfig → SketchFactory S → Observation → SeriesEntry S
  unfolding stored_labels
  new_entry cfg factory obs =
      let (resource_labels, labels) = stored_labels cfg obs.resource_labels obs.labels in
      record {
        sketch = factory tt;
        resource_labels = resource_labels;
        labels = labels;
        last_seen_ms = obs.timestamp_ms;
        count = 0;
      }

module _ {S : Type 0} (cfg : PrecomputeConfig) where
  -- The first branch: the series is known.
  unfoldable pub observe_known :
      SketchObserver S → Observation → WindowState S → SeriesEntry S → StatsSnapshot → Outcome S
  observe_known observer obs w e stats =
      let (r, e') = observe_entry observer obs (touch obs e) in
      (r, record w { series = alter w.key (λ _. e') w.series }, stats)

  -- The rest of the method: a new series, if there is room.
  unfoldable pub observe_new :
      SketchFactory S → SketchObserver S → Observation → WindowState S → StatsSnapshot → Outcome S
  observe_new factory observer obs w stats = elim (make_room cfg w.series stats) [
    | none ↦ (err series_cap_exceeded, w, stats)
    | some (series, stats') ↦
        let (r, e) = observe_entry observer obs (new_entry cfg factory obs) in
        (r, record w { series = push w.key e series }, one_more_series stats')
  ]

  unfoldable pub observe :
      SketchFactory S → SketchObserver S → Observation → WindowState S → StatsSnapshot → Outcome S
  observe factory observer obs w stats =
      let w' = init_window obs.timestamp_ms cfg w in
      let keyed = record w' { key = write_series_key_for cfg w'.key obs } in
      let routed : Outcome S = elim (lookup keyed.key keyed.series) [
        | some e ↦ observe_known observer obs keyed e stats
        | none ↦ observe_new factory observer obs keyed stats
      ] in
      if is_late cfg obs.timestamp_ms w'.active_start_ms then (err late_data, w', stats) else routed
