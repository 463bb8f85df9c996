-- ===== src/RawSink/Messages.antt =====
-- The messages that `RawSink`, of asap-precompute-rs/src/otap/baseline_nodes.rs, has sent and the
-- store has not answered, and the counts that the windows keep of them.
use asapcollector_public.Common.{
  ℕ, ◌+◌, ◌^◌, ◌<◌, ◌≡◌, refl, sym, ap, ◌∙◌, Bool, true, false, ◌&&◌, none, some, List, [], ◌∷◌,
  ◌++◌, map, any, arith, inl, inr, Bool-cases, ltb, ◌==◌, ==_iff, if◌then◌else◌, u64_max,
}
use asapcollector_public.Common.Assoc.{Assoc, remove, push, contains_key, number_key}
use asapcollector_public.Common.Maps.{put_absent}
use asapcollector_public.Common.Trees.{entry}
use asapcollector_public.Common.Trees.Laws.{IsAscending, entry-IsAscending, lookup-entry}
use asapcollector_public.Answers.{is_none_left}
use asapcollector_public.Float.Math.{FloatLib}
use asapcollector_public.Observation.{Observation}
use asapcollector_public.RawSink.{
  RawSinkConfig, window_size, window_end, RawSink, Times, by_window, send, answered, report, due,
  RawMessage, points, ack, nack, timer_tick, shutdown, other, floats, process,
}
use asapcollector_public.RawSink.Counts.{
  count_in, in_messages, flight, lookup_fresh, count_in_later,
}
use asapcollector_public.RawSink.Waiting.{
  IsTracked, Agrees, fresh_sink, fresh_sink-Agrees, process-Agrees,
}

-- A message on its way: its id, its points, and how far the windows had been reported when it was
-- sent.
pub record Sent : Type 0 where
  pub id : ℕ
  pub reported : ℕ
  pub content : List Observation

-- The point falls into the window, and that was not reported yet.
abbrev pub is_in : ℕ → ℕ → ℕ → Observation → Bool
is_in size end reported p = (window_end size p.timestamp_ms == end) && ltb reported end

-- The number of messages that have points of the window.
abbrev pub waiting : ℕ → ℕ → List Sent → ℕ
waiting size end [] = 0
waiting size end (m ∷ log) =
    (if any (is_in size end m.reported) m.content then 1 else 0) + waiting size end log

abbrev pub without : ℕ → List Sent → List Sent
without id [] = []
without id (m ∷ log) = if m.id == id then log else m ∷ without id log

count_in-contains :
    (end : ℕ) (m : Times) → IsAscending m → count_in end m ≡ (if contains_key end m then 1 else 0)
count_in-contains end [] h = refl
count_in-contains end ((e, ts) ∷ m) h =
    ground (arith, count_in-contains end m h.1, count_in_later e end m h.0)

count_in-entry :
    (e end : ℕ) (f : List ℕ → List ℕ) (m : Times)
    → IsAscending m
    → count_in end (entry e [] f m) ≡ (if e == end then 1 else count_in end m)
count_in-entry e end f m h =
    let all = count_in-contains end (entry e [] f m) (entry-IsAscending e [] f m h) in
    let found = lookup-entry e end [] f m h in
    elim (Bool-cases (e == end)) [
      | inl same ↦ all ∙ rw (contains_key, found, same) refl
      | inr differ ↦ all ∙ rw (contains_key, found, differ) (sym (count_in-contains end m h))
    ]

-- The times of a message hold the window if one of its points does.
count_in-by_window :
    (size end reported : ℕ) (os : List Observation) (times : Times)
    → IsAscending times
    → count_in end (by_window size reported os times)
      ≡ (if any (is_in size end reported) os then 1 else count_in end times)
unfolding by_window
count_in-by_window size end reported [] times h = refl
count_in-by_window size end reported (p ∷ os) times h =
    let e = window_end size p.timestamp_ms in
    let add : List ℕ → List ℕ = λ ts. ts ++ p.timestamp_ms ∷ [] in
    elim (Bool-cases (ltb reported e)) [
      | inl on_time ↦
          let rest =
            count_in-by_window size end reported os (entry e [] add times)
              (entry-IsAscending e [] add times h) in
          let step = count_in-entry e end add times h in
          simp on_time (ground (arith, rest, step, on_time, ==_iff e end))
      | inr late ↦
          let rest = count_in-by_window size end reported os times h in
          simp late (ground (arith, rest, late, ==_iff e end))
    ]

-- What the sink keeps of the messages.
abbrev registered : ℕ → List Sent → Assoc ℕ Times
registered size = map (λ m. (m.id, by_window size m.reported m.content []))

in_messages-registered :
    (size end : ℕ) (log : List Sent) → in_messages end (registered size log) ≡ waiting size end log
in_messages-registered size end [] = refl
in_messages-registered size end (m ∷ log) =
    rw (count_in-by_window size end m.reported m.content [] tt, in_messages-registered size end log)
      refl

remove-registered :
    (size id : ℕ) (log : List Sent)
    → remove id (registered size log) ≡ registered size (without id log)
remove-registered size id [] = refl
remove-registered size id (m ∷ log) = elim (Bool-cases (m.id == id)) [
  | inl e ↦ rw e refl
  | inr e ↦ rw (e, remove-registered size id log) refl
]

registered-push :
    (size : ℕ) (log : List Sent) (m : Sent)
    → push m.id (by_window size m.reported m.content []) (registered size log)
      ≡ registered size (log ++ m ∷ [])
registered-push size [] m = refl
registered-push size (n ∷ log) m =
    ap (λ l. (n.id, by_window size n.reported n.content []) ∷ l) (registered-push size log m)

-- The sink keeps its configuration and these messages.
record Keeps (config : RawSinkConfig) (log : List Sent) (s : RawSink) : Type 0 where
  same_config : s.config ≡ config
  in_flight : s.in_flight ≡ registered (window_size config.window) log

module _ (fl : FloatLib) where
  report-Keeps :
      (config : RawSinkConfig) (log : List Sent) (now clock : ℕ) (ends : List ℕ) (s : RawSink)
      → Keeps config log s
      → Keeps config log (report fl now clock ends s).1
  unfolding report
  report-Keeps config log now clock [] s k = k
  report-Keeps config log now clock (end ∷ ends) s k =
      report-Keeps config log now clock ends _
        (record { same_config = k.same_config; in_flight = k.in_flight })

  due-Keeps :
      (config : RawSinkConfig) (log : List Sent) (now clock : ℕ) (s : RawSink)
      → Keeps config log s
      → Keeps config log (due fl now clock s).1
  unfolding due
  due-Keeps config log now clock s k = report-Keeps config log now clock _ s k

  answered-Keeps :
      (config : RawSinkConfig) (log : List Sent) (id now : ℕ) (stored : Bool) (s : RawSink)
      → Keeps config log s
      → Keeps config (without id log) (answered fl id now stored s)
  unfolding answered
  answered-Keeps config log id now stored s k = record {
    same_config = k.same_config;
    in_flight = ap (remove id) k.in_flight ∙ remove-registered (window_size config.window) id log;
  }

-- The message that `send` hands to the store.
abbrev pub sent_from : List Observation → RawSink → Sent
sent_from os s = record { id = s.next_id; reported = s.emitted_until; content = os }

send-Keeps :
    (config : RawSinkConfig) (log : List Sent) (os : List Observation) (s : RawSink)
    → Agrees s
    → Keeps config log s
    → Keeps config (log ++ sent_from os s ∷ []) (send os s)
unfolding send
send-Keeps config log os s a k =
    let size = window_size config.window in
    let times = by_window (window_size s.config.window) s.emitted_until os [] in
    let same_times : times ≡ by_window size s.emitted_until os [] =
      ap (λ c. by_window (window_size c.window) s.emitted_until os []) k.same_config in
    record {
      same_config = k.same_config;
      in_flight =
          put_absent s.next_id times s.in_flight (lookup_fresh s.next_id s.in_flight a.fresh)
          ∙ (rw (same_times, k.in_flight) (registered-push size log (sent_from os s)));
    }

module _ (fl : FloatLib) (encodes : List Observation → Bool) where
  -- The messages on their way after one more message of the engine: a batch is sent if it has points
  -- that are numbers and can be encoded, and an answer ends the message that it names.
  abbrev pub noted : RawMessage → RawSink → List Sent → List Sent
  noted (points os) s log =
      if is_none_left (floats os)
      then log
      else if encodes (floats os)
      then log ++ sent_from (floats os) s ∷ []
      else log
  noted (ack (some id)) s log = without id log
  noted (nack (some id)) s log = without id log
  noted _ s log = log

  -- The states that messages of the engine lead to from a fresh sink, with the messages that are on
  -- their way; each message of the engine comes with the time of the clock. Fewer than 2 ^ 64 messages
  -- are sent, so that no id is given out twice.
  pub data IsReached (config : RawSinkConfig) : List Sent → RawSink → Type 0 where
    start : IsReached config [] (fresh_sink fl encodes config)
    step :
        (m : RawMessage) (clock : ℕ) (log : List Sent) (s : RawSink)
        → IsReached config log s
        → s.next_id + 1 < 2 ^ 64
        → IsReached config (noted m s log) (process fl encodes m clock s).1

  process-Keeps :
      (config : RawSinkConfig) (m : RawMessage) (clock : ℕ) (log : List Sent) (s : RawSink)
      → Agrees s
      → Keeps config log s
      → Keeps config (noted m s log) (process fl encodes m clock s).1
  unfolding process
  process-Keeps config (points os) clock log s a k = elim (Bool-cases (is_none_left (floats os))) [
    | inl e ↦ simp e k
    | inr e ↦ elim (Bool-cases (encodes (floats os))) [
      | inl sent ↦
          simp (e, sent)
            (due-Keeps fl config _ clock clock _ (send-Keeps config log (floats os) s a k))
      | inr refused ↦ simp (e, refused) (due-Keeps fl config log clock clock s k)
    ]
  ]
  process-Keeps config (ack none) clock log s a k = due-Keeps fl config log clock clock s k
  process-Keeps config (nack none) clock log s a k = due-Keeps fl config log clock clock s k
  process-Keeps config (ack (some id)) clock log s a k =
      due-Keeps fl config _ clock clock _ (answered-Keeps fl config log id clock true s k)
  process-Keeps config (nack (some id)) clock log s a k =
      due-Keeps fl config _ clock clock _ (answered-Keeps fl config log id clock false s k)
  process-Keeps config timer_tick clock log s a k = due-Keeps fl config log clock clock s k
  process-Keeps config shutdown clock log s a k = due-Keeps fl config log u64_max clock s k
  process-Keeps config other clock log s a k = k

  reached-Keeps :
      (config : RawSinkConfig) (log : List Sent) (s : RawSink)
      → IsReached config log s
      → Agrees s × Keeps config log s
  reached-Keeps config _ _ start =
      (fresh_sink-Agrees fl encodes config, record { same_config = refl; in_flight = refl })
  reached-Keeps config _ _ (step m clock log s reached few) =
      let (a, k) = reached-Keeps config log s reached in
      (process-Agrees fl encodes m clock s a few, process-Keeps config m clock log s a k)

  -- In every state that a sink reaches with fewer than 2 ^ 64 messages, a window that is open, or
  -- that ends after all that has been reported, counts exactly the messages that were sent with a
  -- point of it and have not been answered. A point does not count for a window that had been
  -- reported, or passed over by a later report, before its message was sent.
  pub reached_flight :
      (config : RawSinkConfig) (log : List Sent) (s : RawSink) (end : ℕ)
      → IsReached config log s
      → IsTracked s end
      → flight end s.windows ≡ waiting (window_size config.window) end log
  reached_flight config log s end reached tracked =
      let (a, k) = reached-Keeps config log s reached in
      a.counted end tracked
      ∙ ap (in_messages end) k.in_flight
      ∙ in_messages-registered (window_size config.window) end log
