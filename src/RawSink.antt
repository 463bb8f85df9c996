-- ===== src/RawSink.antt =====
-- `RawSink` of asap-precompute-rs/src/otap/baseline_nodes.rs: the messages that a store has not
-- answered, and the windows of their points. The clock, the arithmetic of `f64` and whether points
-- can be encoded as log records are parameters.
pub mod Counts
pub mod Waiting
pub mod Messages
pub mod Reports
use asapcollector_public.Common.{
  ℕ, zero, suc, ◌+◌, ◌-◌, ◌*◌, ◌/◌, ◌%◌, Bool, true, false, ◌&&◌, ◌||◌, not, Option, none, some,
  List, [], ◌∷◌, ◌++◌, map, max, min, length, ltb, leb, ◌==◌, if◌then◌else◌, wrapping_add, u64_mod,
  u64_max,
}
use asapcollector_public.Common.Text.{Text, text, text_eq}
use asapcollector_public.Common.Assoc.{Assoc, lookup, alter, remove, number_key}
use asapcollector_public.Common.Maps.{put, or_default}
use asapcollector_public.Common.Sorting.{sort}
use asapcollector_public.Common.Trees.{entry}
use asapcollector_public.Config.{Duration, as_millis}
use asapcollector_public.Envelope.{KeyValue, SketchEnvelope, unspecified}
use asapcollector_public.Observation.{Observation, is_float}
use asapcollector_public.Float.{F64, zero_f64}
use asapcollector_public.Float.Math.{FloatLib, total_le}
use asapcollector_public.Answers.{Extra, gauge, value_at, key_values, is_none_left}

pub record RawSinkConfig : Type 0 where
  pub window : Duration
  pub grace : Duration
  pub labels : Assoc Text Text

pub record RawWindow : Type 0 where
  pub last_ack_ms : ℕ
  pub transit_s : List F64
  pub failed : ℕ
  pub in_flight : ℕ

abbrev pub no_points : RawWindow
no_points = record { last_ack_ms = 0; transit_s = []; failed = 0; in_flight = 0 }

-- The event times of one message, by the end of their window.
abbrev pub Times : Type 0
Times = Assoc ℕ (List ℕ)

pub record RawSink : Type 0 where
  pub config : RawSinkConfig
  pub windows : Assoc ℕ RawWindow
  pub in_flight : Assoc ℕ Times
  pub next_id : ℕ
  pub emitted_until : ℕ
  pub sent_until_ms : ℕ

-- `as_millis().max(1) as u64`
abbrev pub window_size : Duration → ℕ
window_size d = max (d / 1000000) 1 % u64_mod

-- The end of the window of an event time.
unfoldable pub window_end : ℕ → ℕ → ℕ
window_end size t = wrapping_add (t / size * size) size

-- The loop over the points of a message.
unfoldable pub by_window : ℕ → ℕ → List Observation → Times → Times
by_window size emitted_until [] times = times
by_window size emitted_until (p ∷ points) times =
    let end = window_end size p.timestamp_ms in
    by_window size emitted_until points (
      if ltb emitted_until end then entry end [] (λ ts. ts ++ p.timestamp_ms ∷ []) times else times)

unfoldable pub latest_time : ℕ → List Observation → ℕ
latest_time latest [] = latest
latest_time latest (p ∷ points) = latest_time (max latest p.timestamp_ms) points

abbrev pub one_more : RawWindow → RawWindow
one_more w = record w { in_flight = wrapping_add w.in_flight 1 }

unfoldable pub wait_for : Times → Assoc ℕ RawWindow → Assoc ℕ RawWindow
wait_for [] windows = windows
wait_for ((end, ts) ∷ times) windows = wait_for times (entry end no_points one_more windows)

-- The state that `send` leaves; the message has the id that was the next one.
unfoldable pub send : List Observation → RawSink → RawSink
send points s =
    let times = by_window (window_size s.config.window) s.emitted_until points [] in
    record s {
      sent_until_ms = latest_time s.sent_until_ms points;
      windows = wait_for times s.windows;
      next_id = wrapping_add s.next_id 1;
      in_flight = put s.next_id times s.in_flight;
    }

-- The filter of `due`.
unfoldable pub is_ready : ℕ → ℕ → ℕ → ℕ → RawWindow → Bool
is_ready now grace sent_until end w =
    (leb end sent_until || leb (wrapping_add end grace) now)
    && (w.in_flight == 0 || leb (wrapping_add end (10 * grace % u64_mod)) now)

unfoldable pub ready_ends : ℕ → ℕ → ℕ → Assoc ℕ RawWindow → List ℕ
ready_ends now grace sent_until [] = []
ready_ends now grace sent_until ((end, w) ∷ windows) =
    let rest = ready_ends now grace sent_until windows in
    if is_ready now grace sent_until end w then end ∷ rest else rest

-- The points of one message, and of all, that still wait in the window.
unfoldable pub waiting_times : ℕ → Times → ℕ
waiting_times end [] = 0
waiting_times end ((e, ts) ∷ times) =
    let rest = waiting_times end times in if e == end then length ts + rest else rest

unfoldable pub unacknowledged : ℕ → Assoc ℕ Times → ℕ
unacknowledged end [] = 0
unacknowledged end ((id, times) ∷ messages) = waiting_times end times + unacknowledged end messages

-- `retain(|kv| kv.key != "metric")`
unfoldable pub without_metric : List KeyValue → List KeyValue
without_metric [] = []
without_metric (kv ∷ labels) =
    let rest = without_metric labels in if text_eq kv.key (text "metric") then rest else kv ∷ rest

-- The template of a window's gauges; `end - size` wraps.
abbrev raw_template : ℕ → ℕ → ℕ → SketchEnvelope
raw_template size end stored = record {
  schema_version = 0;
  sketch_type = unspecified;
  agg_id = 0;
  resource_labels = [];
  labels = [];
  window_start_ms = (end + u64_mod - size) % u64_mod;
  window_end_ms = end;
  payload = [];
  metric_name = [];
  count = stored;
  aggregation_temporality = 0;
  value = zero_f64;
}

unfoldable pub raw_metric : RawSinkConfig → ℕ → ℕ → Text → Extra → F64 → SketchEnvelope
raw_metric config end stored name extra v =
    let e = gauge (raw_template (as_millis config.window) end stored) name (text "raw") extra v in
    record e { labels = without_metric e.labels ++ key_values config.labels }

abbrev pub both : Option SketchEnvelope → Option SketchEnvelope → Option (List SketchEnvelope)
both none b = none
both (some a) none = none
both (some a) (some b) = some (a ∷ b ∷ [])

abbrev pub appended :
    List SketchEnvelope
    → Option (List SketchEnvelope)
    → Option (List SketchEnvelope)
    → Option (List SketchEnvelope)
appended a none c = none
appended a (some b) none = none
appended a (some b) (some c) = some (a ++ (b ++ c))

module _ (fl : FloatLib) where
  abbrev seconds : ℕ → F64
  seconds ms = fl.div (fl.of_u64 ms) 0x408f400000000000

  unfoldable pub take_answer : ℕ → Bool → List ℕ → RawWindow → RawWindow
  take_answer now stored ts w =
      if stored
      then record w {
        in_flight = w.in_flight - 1;
        last_ack_ms = max w.last_ack_ms now;
        transit_s = w.transit_s ++ map (λ t. seconds (now - t)) ts;
      }
      else record w { in_flight = w.in_flight - 1; failed = wrapping_add w.failed (length ts) }

  unfoldable pub take_answers : ℕ → Bool → Times → Assoc ℕ RawWindow → Assoc ℕ RawWindow
  take_answers now stored [] windows = windows
  take_answers now stored ((end, ts) ∷ times) windows =
      take_answers now stored times (alter end (take_answer now stored ts) windows)

  unfoldable pub answered : ℕ → ℕ → Bool → RawSink → RawSink
  answered id now stored s = record s {
    windows = take_answers now stored (or_default [] (lookup id s.in_flight)) s.windows;
    in_flight = remove id s.in_flight;
  }

  -- The transit quantiles; `none` where an index is out of range and the code panics.
  abbrev pub one_transit : RawSinkConfig → ℕ → List F64 → F64 → Option SketchEnvelope
  one_transit config end values q =
      elim (value_at (fl.round_usize (fl.mul (fl.of_u64 (length values - 1)) q)) values) [
        | none ↦ none
        | some v ↦ some (
            raw_metric config end (length values) (text "asap.raw.transit")
              ((text "quantile", fl.display q) ∷ []) v)
      ]

  unfoldable pub transits : RawSinkConfig → ℕ → List F64 → Option (List SketchEnvelope)
  transits config end values =
      if is_none_left values
      then some []
      else both (one_transit config end (sort total_le values) 0x3fe0000000000000)
          (one_transit config end (sort total_le values) 0x3fefae147ae147ae)

  -- The gauges of one window, before those of the transit.
  unfoldable pub window_gauges : RawSinkConfig → ℕ → ℕ → ℕ → ℕ → RawWindow → List SketchEnvelope
  window_gauges config now clock waiting end w =
      let complete_ms = if ltb 0 waiting then min now clock else w.last_ack_ms in
      let metric : Text → F64 → SketchEnvelope =
        λ name v. raw_metric config end (length w.transit_s) name [] v in
      metric (text "asap.answer.delay") (seconds (complete_ms - end))
      ∷ metric (text "asap.raw.unacknowledged") (fl.of_u64 waiting)
      ∷ metric (text "asap.points") (fl.of_u64 (length w.transit_s))
      ∷ metric (text "asap.raw.failed") (fl.of_u64 w.failed)
      ∷ []

  -- The loop over the ready windows.
  unfoldable pub report : ℕ → ℕ → List ℕ → RawSink → Option (List SketchEnvelope) × RawSink
  report now clock [] s = (some [], s)
  report now clock (end ∷ ends) s =
      let w = or_default no_points (lookup end s.windows) in
      let next =
        report now clock ends
          (record s { windows = remove end s.windows; emitted_until = max s.emitted_until end }) in
      (
        appended (window_gauges s.config now clock (unacknowledged end s.in_flight) end w)
            (transits s.config end w.transit_s) next.0,
        next.1,
      )

  unfoldable pub due : ℕ → ℕ → RawSink → Option (List SketchEnvelope) × RawSink
  due now clock s =
      report now clock (ready_ends now (as_millis s.config.grace) s.sent_until_ms s.windows) s

-- What the engine delivers. An answer carries the id of its message, if any.
pub data RawMessage : Type 0 where
  points : List Observation → RawMessage
  ack nack : Option ℕ → RawMessage
  timer_tick shutdown other : RawMessage

abbrev pub floats : List Observation → List Observation
floats [] = []
floats (o ∷ os) = if is_float o.value.kind then o ∷ floats os else floats os

module _ (fl : FloatLib) (encodes : List Observation → Bool) where
  abbrev pub answer_of : Option ℕ → ℕ → Bool → RawSink → RawSink
  answer_of none clock stored s = s
  answer_of (some id) clock stored s = answered fl id clock stored s

  -- The state changes of `process`, and the gauges that it sends.
  unfoldable pub process : RawMessage → ℕ → RawSink → Option (List SketchEnvelope) × RawSink
  process (points os) clock s =
      let ps = floats os in
      if is_none_left ps
      then (some [], s)
      else due fl clock clock (if encodes ps then send ps s else s)
  process (ack id) clock s = due fl clock clock (answer_of id clock true s)
  process (nack id) clock s = due fl clock clock (answer_of id clock false s)
  process timer_tick clock s = due fl clock clock s
  process shutdown clock s = due fl u64_max clock s
  process other clock s = (some [], s)
