-- ===== src/ExactNodes.antt =====
-- `ExactBranch` and `ExactMerge` of asap-precompute-rs/src/otap/baseline_nodes.rs: the exact windows
-- of one source, and their merge over the sources. The clock, the debug format of labels and what
-- the engine decodes from a message are parameters.
pub mod Branch
pub mod Closing
pub mod Held
pub mod Sources
use asapcollector_public.Common.{
  ℕ, ◌+◌, ◌-◌, ◌*◌, ◌/◌, ◌%◌, Bool, true, false, ◌&&◌, ◌||◌, not, Option, none, some, List, [], ◌∷◌,
  ◌++◌, map, any, max, ltb, leb, ◌==◌, if◌then◌else◌, wrapping_add, saturating_add, u64_max,
  u64_mod,
}
use asapcollector_public.Common.Text.{Text, text, text_eq, decimal}
use asapcollector_public.Common.Assoc.{Assoc, lookup, alter, remove, text_key, number_key}
use asapcollector_public.Common.Trees.{entry, split_off, before, text_put, text_entry}
use asapcollector_public.Config.{Duration, as_millis}
use asapcollector_public.Envelope.{KeyValue, SketchEnvelope, exact}
use asapcollector_public.Error.{Result, ok, err, PrecomputeError}
use asapcollector_public.Exact.{ExactWindow, empty_window, merge, encode, decode}
use asapcollector_public.Exact.Merging.{value_point, attribute_point, add_point}
use asapcollector_public.Float.{zero_f64}
use asapcollector_public.Matchers.{lookup_label}
use asapcollector_public.Observation.{Observation, is_float}

-- The open windows by their end, and the series of each.
abbrev pub Series : Type 0
Series = Assoc Text (SketchEnvelope × ExactWindow)

abbrev pub Windows : Type 0
Windows = Assoc ℕ Series

unfoldable pub encoded : SketchEnvelope × ExactWindow → SketchEnvelope
encoded (env, w) = record env { count = w.points; payload = encode w }

unfoldable pub encoded_windows : Windows → List SketchEnvelope
encoded_windows [] = []
encoded_windows ((end, series) ∷ windows) = map (λ p. encoded p.1) series ++ encoded_windows windows

-- The function `close`.
unfoldable pub close_windows : ℕ → Windows → List SketchEnvelope × Windows
close_windows until windows =
    let first_open = saturating_add until 1 in
    (encoded_windows (before first_open windows), split_off first_open windows)

-- `emitted_until.max(end)`, for the latest end of the envelopes.
unfoldable pub latest_end : ℕ → List SketchEnvelope → ℕ
latest_end latest [] = latest
latest_end latest (e ∷ es) = latest_end (max latest e.window_end_ms) es

pub record ExactBranchConfig : Type 0 where
  pub window : Duration
  pub group_by : List Text
  pub per_attribute : List Text

pub record ExactBranch : Type 0 where
  pub config : ExactBranchConfig
  pub windows : Windows
  pub emitted_until : ℕ

-- The template of a series.
abbrev template : Text → ℕ → ℕ → List KeyValue → SketchEnvelope
template metric start end labels = record {
  schema_version = 1;
  sketch_type = exact;
  agg_id = 0;
  resource_labels = [];
  labels = labels;
  window_start_ms = start;
  window_end_ms = end;
  payload = [];
  metric_name = metric;
  count = 0;
  aggregation_temporality = 0;
  value = zero_f64;
}

-- The labels of `group_by` that the observation has.
unfoldable pub group_labels : List Text → List KeyValue → List KeyValue
group_labels [] labels = []
group_labels (k ∷ keys) labels =
    let rest = group_labels keys labels in
    elim (lookup_label labels k) [ none ↦ rest | some v ↦ record { key = k; value = v } ∷ rest ]

abbrev is_kept : List Text → Text → Bool
is_kept per_attribute key =
    any (λ k. text_eq k (text "*")) per_attribute || any (λ k. text_eq k key) per_attribute

-- The loop over the labels of an observation.
unfoldable pub count_labels : List Text → Text → ℕ → ℕ → List KeyValue → Series → Series
count_labels per_attribute metric start end [] series = series
count_labels per_attribute metric start end (kv ∷ labels) series =
    count_labels per_attribute metric start end labels (
      if is_kept per_attribute kv.key
      then text_entry (text "a|" ++ kv.key)
          (
            template metric start end (record { key = text "attribute.key"; value = kv.key } ∷ []),
            empty_window,
          )
          (λ p. (p.0, add_point p.1 (attribute_point kv.value))) series
      else series)

abbrev is_no_key : List Text → Bool
is_no_key [] = true
is_no_key (k ∷ keys) = false

-- `as_millis().max(1) as u64`
abbrev branch_size : Duration → ℕ
branch_size d = max (d / 1000000) 1 % u64_mod

module _ (debug : List KeyValue → Text) where
  unfoldable pub add_value : ExactBranchConfig → ℕ → ℕ → Observation → Series → Series
  add_value config start end obs series =
      let labels = group_labels config.group_by obs.labels in
      if is_no_key config.group_by
      then series
      else text_entry (text "q|" ++ debug labels)
          (template obs.metric start end labels, empty_window)
          (λ p. (p.0, add_point p.1 (value_point obs.value.float))) series

  unfoldable pub observe : Observation → ExactBranch → ExactBranch
  observe obs b =
      let size = branch_size b.config.window in
      let start = obs.timestamp_ms / size * size in
      let end = wrapping_add start size in
      let fill : Series → Series = λ series.
        count_labels b.config.per_attribute obs.metric start end obs.labels
          (add_value b.config start end obs series) in
      if not (is_float obs.value.kind)
      then b
      else if leb end b.emitted_until
      then b
      else record b { windows = entry end [] fill b.windows }

  unfoldable pub close : ℕ → ExactBranch → List SketchEnvelope × ExactBranch
  close until b =
      let (out, left) = close_windows until b.windows in
      (out, record b { windows = left; emitted_until = latest_end b.emitted_until out })

  unfoldable pub observe_all : List Observation → ExactBranch → ExactBranch
  observe_all [] b = b
  observe_all (obs ∷ os) b = observe_all os (observe obs b)

  -- What the engine delivers: the observations that a message decodes to, a tick, a shutdown.
  pub data BranchMessage : Type 0 where
    pdata : List Observation → BranchMessage
    timer_tick shutdown other_message : BranchMessage

  -- The first observation of a message closes the windows that it has passed.
  unfoldable pub process_branch :
      BranchMessage → ℕ → ExactBranch → List SketchEnvelope × ExactBranch
  process_branch (pdata []) now_ms b = ([], b)
  process_branch (pdata (obs ∷ os)) now_ms b =
      let (out, closed) = close obs.timestamp_ms b in (out, observe_all (obs ∷ os) closed)
  process_branch timer_tick now_ms b = close (now_ms - 5000) b
  process_branch shutdown now_ms b = close u64_max b
  process_branch other_message now_ms b = ([], b)

pub record ExactMergeConfig : Type 0 where
  pub grace : Duration
  pub sources : ℕ

pub record ExactMerge : Type 0 where
  pub config : ExactMergeConfig
  pub windows : Windows
  pub arrived : Assoc ℕ ℕ
  pub messages : Assoc ℕ ℕ
  pub emitted_until : ℕ

-- The latest window that a message of each source carried, or 0.
unfoldable pub complete_until : ℕ → Assoc ℕ ℕ → ℕ
complete_until sources [] = 0
complete_until sources ((end, n) ∷ messages) =
    let rest = complete_until sources messages in
    if ltb 0 sources && leb sources n then max end rest else rest

unfoldable pub cutoff : ℕ → ExactMerge → ℕ
cutoff now m = max (now - as_millis m.config.grace) (complete_until m.config.sources m.messages)

unfoldable pub due : ℕ → ExactMerge → List SketchEnvelope × ExactMerge
due now m =
    let (out, left) = close_windows (cutoff now m) m.windows in
    (
      out,
      record m {
        messages = split_off (saturating_add (cutoff now m) 1) m.messages;
        windows = left;
        emitted_until = latest_end m.emitted_until out;
      },
    )

-- The slot of a series: merged if it is occupied.
unfoldable pub fill_slot : Text → SketchEnvelope → ExactWindow → Series → Series
fill_slot key env w series = elim (lookup key series) [
  | none ↦ text_put key (env, w) series
  | some p ↦ alter key (λ _. (p.0, merge p.1 w)) series
]

module _ (debug : List KeyValue → Text) where
  -- `series_key` of asap-precompute-rs/src/otap/answer_nodes.rs, and the key of `add`.
  unfoldable pub series_key : SketchEnvelope → Text
  series_key env = env.metric_name ++ b'|' ∷ debug env.labels

  unfoldable pub slot_key : SketchEnvelope → Text
  slot_key env = series_key env ++ b'|' ∷ decimal env.window_start_ms

  abbrev add_window :
      ℕ → SketchEnvelope → ExactMerge → Result ExactWindow → Result Bool × ExactMerge
  add_window now_ms env m (err e) = (err e, m)
  add_window now_ms env m (ok w) = (
    ok true,
    record m {
      arrived = entry env.window_end_ms now_ms (λ _. now_ms) m.arrived;
      windows = entry env.window_end_ms [] (fill_slot (slot_key env) env w) m.windows;
    },
  )

  -- Whether the window was taken; `false` is a late one.
  unfoldable pub add : ℕ → SketchEnvelope → ExactMerge → Result Bool × ExactMerge
  add now_ms env m =
      if leb env.window_end_ms m.emitted_until
      then (ok false, m)
      else add_window now_ms env m (decode env.payload)

  unfoldable pub add_all : ℕ → List SketchEnvelope → ExactMerge → ExactMerge
  add_all now_ms [] m = m
  add_all now_ms (env ∷ envs) m = add_all now_ms envs (add now_ms env m).1

  -- The ends that a message carries, each once, as a `BTreeSet`.
  unfoldable pub carried : List SketchEnvelope → Assoc ℕ (Unit {0})
  carried [] = []
  carried (env ∷ envs) = entry env.window_end_ms tt (λ u. u) (carried envs)

  unfoldable pub count_message : Assoc ℕ (Unit {0}) → ℕ → Assoc ℕ ℕ → Assoc ℕ ℕ
  count_message [] emitted_until messages = messages
  count_message ((end, u) ∷ ends) emitted_until messages =
      count_message ends emitted_until
        (if ltb emitted_until end then entry end 0 (λ n. wrapping_add n 1) messages else messages)

  -- What the engine delivers: the envelopes of a message, a tick, a shutdown.
  pub data MergeMessage : Type 0 where
    envelopes : List SketchEnvelope → MergeMessage
    merge_tick merge_shutdown other_merge : MergeMessage

  -- `arrived.remove(&end)` for each emitted window.
  unfoldable pub forget_arrivals : List SketchEnvelope → Assoc ℕ ℕ → Assoc ℕ ℕ
  forget_arrivals [] arrived = arrived
  forget_arrivals (e ∷ es) arrived = forget_arrivals es (remove e.window_end_ms arrived)

  abbrev emitted : List SketchEnvelope × ExactMerge → List SketchEnvelope × ExactMerge
  emitted (out, m) = (out, record m { arrived = forget_arrivals out m.arrived })

  unfoldable pub process_merge : MergeMessage → ℕ → ExactMerge → List SketchEnvelope × ExactMerge
  process_merge (envelopes envs) now_ms m =
      let added = add_all now_ms envs m in
      emitted (
        due now_ms (record added {
          messages = count_message (carried envs) added.emitted_until added.messages;
        }))
  process_merge merge_tick now_ms m = emitted (due now_ms m)
  process_merge merge_shutdown now_ms m = emitted (due u64_max m)
  process_merge other_merge now_ms m = ([], m)
