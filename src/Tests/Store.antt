-- ===== src/Tests/Store.antt =====
-- The theorems on the raw sink, at a store that has not answered a message.
use asapcollector_public.Common.{
  some, refl, inr, ◌+◌, ◌-◌, ◌≡◌, Bool, true, List, [], ◌∷◌, arith, length, max,
}
use asapcollector_public.Common.Assoc.{keys, number_key}
use asapcollector_public.Float.Math.{FloatLib}
use asapcollector_public.Observation.{Observation}
use asapcollector_public.RawSink.{
  RawSinkConfig, RawSink, RawMessage, points, ack, answered, take_answers, take_answer, shutdown,
  process, send, by_window, window_end, wait_for, due, ready_ends, is_ready, report, latest_time,
}
use asapcollector_public.Common.Maps.{put, upsert}
use asapcollector_public.Common.Trees.{entry}
use asapcollector_public.RawSink.Counts.{flight}
use asapcollector_public.RawSink.Waiting.{fresh_sink}
use asapcollector_public.RawSink.Messages.{Sent, waiting, noted, start, step, reached_flight}
use asapcollector_public.RawSink.Reports.{IfSome, delay_ends, process-shutdown}
use asapcollector_public.Tests.Fixtures.{observation}

-- Numbers in place of floats.
abbrev pub plain_floats : FloatLib
plain_floats = record {
  of_u64 = λ n. n;
  of_i64 = λ n. n;
  round_i64 = λ x. x;
  add = λ a b. a + b;
  sub = λ a b. a - b;
  mul = λ a b. a;
  div = λ a b. a;
  larger = λ a b. max a b;
  round_usize = λ x. 0;
  sum = λ xs. length xs;
  display = λ x. [];
  fixed = λ n x. [];
}

abbrev always : List Observation → Bool
always os = true

abbrev sink_config : RawSinkConfig
sink_config = record { window = 10000000; grace = 5000000; labels = [] }

abbrev sent : RawMessage
sent = points (observation ∷ [])

abbrev new_sink : RawSink
new_sink = fresh_sink plain_floats always sink_config

-- The sink once it has sent one message, and two, and once the store has answered the first.
abbrev one_sent : RawSink
one_sent = (process plain_floats always sent 15 new_sink).1

abbrev two_sent : RawSink
two_sent = (process plain_floats always sent 16 one_sent).1

abbrev one_answered : RawSink
one_answered = (process plain_floats always (ack (some 0)) 17 two_sent).1

abbrev one_noted : List Sent
one_noted = noted plain_floats always sent new_sink []

abbrev two_noted : List Sent
two_noted = noted plain_floats always sent one_sent one_noted

reached_flight_example :
    flight 20 one_answered.windows
    ≡ waiting 10 20 (noted plain_floats always (ack (some 0)) two_sent two_noted)
unfolding process send by_window window_end wait_for entry due ready_ends is_ready report
    latest_time answered take_answers take_answer put upsert
reached_flight_example =
    reached_flight plain_floats always sink_config
      (noted plain_floats always (ack (some 0)) two_sent two_noted) one_answered 20
      (step (ack (some 0)) 17 two_noted two_sent
        (step sent 16 one_noted one_sent (step sent 15 [] new_sink start (omega arith))
          (omega arith))
        (omega arith))
      (inr refl)

-- The window that ends at 20 waits for one message.
abbrev waiting_sink : RawSink
waiting_sink = record {
  config = sink_config;
  windows = (20, record { last_ack_ms = 0; transit_s = []; failed = 0; in_flight = 1 }) ∷ [];
  in_flight = (0, (20, 14 ∷ []) ∷ []) ∷ [];
  next_id = 1;
  emitted_until = 10;
  sent_until_ms = 14;
}

process-shutdown_example :
    let o = process plain_floats always shutdown 30 waiting_sink in
    IfSome (λ gauges. delay_ends gauges ≡ keys waiting_sink.windows) o.0 × (o.1.windows ≡ [])
process-shutdown_example = process-shutdown plain_floats always 30 waiting_sink (tt, tt)
