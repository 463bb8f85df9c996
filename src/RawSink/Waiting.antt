-- ===== src/RawSink/Waiting.antt =====
-- The counts of unanswered messages that `RawSink`, of
-- asap-precompute-rs/src/otap/baseline_nodes.rs, keeps for each window.
use asapcollector_public.Common.{
  ℕ, ◌+◌, ◌-◌, ◌^◌, ◌≤◌, ◌<◌, ◌≡◌, ◌⊎◌, refl, sym, ap, subst, ◌∙◌, Bool, true, false, Option, none,
  some, List, [], ◌∷◌, arith, inl, inr, Bool-cases, All, All-map, ltb, ◌==◌, ==_iff, if◌then◌else◌,
  max, tests, wrapping_add, length, u64_max,
}
use asapcollector_public.Common.Assoc.{
  Assoc, lookup, alter, remove, push, contains_key, number_key, All-push,
}
use asapcollector_public.Common.Maps.{put, or_default, put_absent}
use asapcollector_public.Common.Trees.Laws.{
  IsAscending, remove-IsAscending, lookup-remove, All-remove_key,
}
use asapcollector_public.Answers.{is_none_left}
use asapcollector_public.Float.Math.{FloatLib}
use asapcollector_public.Observation.{Observation}
use asapcollector_public.RawSink.{
  RawSinkConfig, window_size, RawWindow, RawSink, Times, no_points, by_window, send, take_answer,
  take_answers, answered, report, due, RawMessage, points, ack, nack, timer_tick, shutdown, other,
  floats, answer_of, process,
}
use asapcollector_public.RawSink.Counts.{
  count_in, in_messages, flight, in_messages-push, in_messages-remove, lookup_fresh,
  by_window-later, count_in_later, wait_for-IsAscending, lookup-wait_for, flight-wait_for,
  by_window-IsAscending, count_in-single, in_messages-bound, length-push, length-remove_le,
}

-- The window is open, or may still be opened.
abbrev pub IsTracked : RawSink → ℕ → Type 0
IsTracked s end = (s.emitted_until < end) ⊎ (contains_key end s.windows ≡ true)

pub record Agrees (s : RawSink) : Type 0 where
  -- A window counts the entries of it that the messages in flight have.
  pub counted : (end : ℕ) → IsTracked s end → flight end s.windows ≡ in_messages end s.in_flight
  pub fresh : All (λ m. m.0 < s.next_id) s.in_flight
  pub single : All (λ m. IsAscending m.1) s.in_flight
  pub few : length s.in_flight ≤ s.next_id
  pub ascending : IsAscending s.windows

-- Sending a message keeps the agreement.
send-Agrees :
    (os : List Observation) (s : RawSink) → Agrees s → s.next_id + 1 < 2 ^ 64 → Agrees (send os s)
unfolding send
send-Agrees os s a few_sent =
    let times = by_window (window_size s.config.window) s.emitted_until os [] in
    let later : All (λ p. s.emitted_until < p.0) times =
      by_window-later (window_size s.config.window) s.emitted_until os [] tt in
    let pushed : put s.next_id times s.in_flight ≡ push s.next_id times s.in_flight =
      put_absent s.next_id times s.in_flight (lookup_fresh s.next_id s.in_flight a.fresh) in
    let total : (end : ℕ)
        → in_messages end (put s.next_id times s.in_flight)
          ≡ in_messages end s.in_flight + count_in end times =
      λ end. ap (in_messages end) pushed ∙ in_messages-push end s.next_id times s.in_flight in
    let before : (end : ℕ) → IsTracked (send os s) end → IsTracked s end = λ end tracked.
      elim (Bool-cases (ltb s.emitted_until end)) [
        | inl e ↦ inl (omega (tests, e))
        | inr e ↦
            let same =
              lookup-wait_for end times s.windows a.ascending
                (count_in_later s.emitted_until end times later (omega (tests, e))) in
            elim tracked [ inl l ↦ inl l | inr c ↦ inr (rw (contains_key, ← same) c) ]
      ] in
    let one_each : IsAscending times =
      by_window-IsAscending (window_size s.config.window) s.emitted_until os [] tt in
    let bound : (end : ℕ) → in_messages end s.in_flight ≤ s.next_id =
      λ end. omega (arith, in_messages-bound end s.in_flight a.single, a.few) in
    record {
      counted = λ end tracked.
          let known = a.counted end (before end tracked) in
          omega (
            arith,
            flight-wait_for end times s.windows a.ascending (omega (arith, known, bound end)),
            known,
            total end,
            bound end,
            count_in-single end times one_each,
          );
      fresh = subst (All (λ m. m.0 < wrapping_add s.next_id 1)) (sym pushed) (
          All-push (λ m. m.0 < wrapping_add s.next_id 1) s.next_id times s.in_flight
            (omega (arith, few_sent)) (All-map (λ m h. omega (arith, h, few_sent)) _ a.fresh));
      single =
          subst (All (λ m. IsAscending m.1)) (sym pushed)
            (All-push (λ m. IsAscending m.1) s.next_id times s.in_flight one_each a.single);
      few =
          omega (arith, ap length pushed, length-push s.next_id times s.in_flight, a.few, few_sent);
      ascending = wait_for-IsAscending times s.windows a.ascending;
    }

module _ (fl : FloatLib) where
  flight-alter :
      (e end now : ℕ) (stored : Bool) (ts : List ℕ) (m : Assoc ℕ RawWindow)
      → flight end (alter e (take_answer fl now stored ts) m)
        ≡ (if e == end then flight end m - 1 else flight end m)
  unfolding take_answer
  flight-alter e end now stored ts [] = ground arith
  flight-alter e end now stored ts ((j, w) ∷ m) = ground (arith, flight-alter e end now stored ts m)

  contains-alter :
      (e end : ℕ) (f : RawWindow → RawWindow) (m : Assoc ℕ RawWindow)
      → contains_key end (alter e f m) ≡ contains_key end m
  contains-alter e end f [] = refl
  contains-alter e end f ((j, w) ∷ m) = ground (arith, contains-alter e end f m)

  alter-keys :
      (P : ℕ → Type 0) (e : ℕ) (f : RawWindow → RawWindow) (m : Assoc ℕ RawWindow)
      → All (λ p. P p.0) m
      → All (λ p. P p.0) (alter e f m)
  alter-keys P e f [] h = tt
  alter-keys P e f ((j, w) ∷ m) h = elim (Bool-cases (j == e)) [
    | inl same ↦ rw same h
    | inr differ ↦ rw differ (h.0, alter-keys P e f m h.1)
  ]

  alter-IsAscending :
      (e : ℕ) (f : RawWindow → RawWindow) (m : Assoc ℕ RawWindow)
      → IsAscending m
      → IsAscending (alter e f m)
  alter-IsAscending e f [] h = tt
  alter-IsAscending e f ((j, w) ∷ m) h = elim (Bool-cases (j == e)) [
    | inl same ↦ rw same h
    | inr differ ↦ rw differ (alter-keys (λ k. j < k) e f m h.0, alter-IsAscending e f m h.1)
  ]

  take_answers-IsAscending :
      (now : ℕ) (stored : Bool) (times : Times) (m : Assoc ℕ RawWindow)
      → IsAscending m
      → IsAscending (take_answers fl now stored times m)
  unfolding take_answers
  take_answers-IsAscending now stored [] m h = h
  take_answers-IsAscending now stored ((e, ts) ∷ times) m h =
      take_answers-IsAscending now stored times _ (alter-IsAscending e _ m h)

  contains-take_answers :
      (end now : ℕ) (stored : Bool) (times : Times) (m : Assoc ℕ RawWindow)
      → contains_key end (take_answers fl now stored times m) ≡ contains_key end m
  unfolding take_answers
  contains-take_answers end now stored [] m = refl
  contains-take_answers end now stored ((e, ts) ∷ times) m =
      contains-take_answers end now stored times _
      ∙ contains-alter e end (take_answer fl now stored ts) m

  flight-take_answers :
      (end now : ℕ) (stored : Bool) (times : Times) (m : Assoc ℕ RawWindow)
      → flight end (take_answers fl now stored times m) ≡ flight end m - count_in end times
  unfolding take_answers
  flight-take_answers end now stored [] m = omega arith
  flight-take_answers end now stored ((e, ts) ∷ times) m =
      let next =
        flight-take_answers end now stored times (alter e (take_answer fl now stored ts) m) in
      let step = flight-alter e end now stored ts m in
      elim (Bool-cases (e == end)) [
        | inl same ↦
            let less : flight end (alter e (take_answer fl now stored ts) m) ≡ flight end m - 1 =
              step ∙ rw same refl in
            rw same (omega (arith, next, less))
        | inr differ ↦
            let kept : flight end (alter e (take_answer fl now stored ts) m) ≡ flight end m =
              step ∙ rw differ refl in
            rw differ (omega (arith, next, kept))
      ]

  -- An answer of the store keeps the agreement, also one to a message that is not known.
  answered-Agrees :
      (id now : ℕ) (stored : Bool) (s : RawSink) → Agrees s → Agrees (answered fl id now stored s)
  unfolding answered
  answered-Agrees id now stored s a =
      let times = or_default [] (lookup id s.in_flight) in
      record {
        counted = λ end tracked.
            let before : IsTracked s end = elim tracked [
              | inl l ↦ inl l
              | inr c ↦ inr (sym (contains-take_answers end now stored times s.windows) ∙ c)
            ] in
            omega (
              arith,
              flight-take_answers end now stored times s.windows,
              a.counted end before,
              in_messages-remove end id s.in_flight,
            );
        fresh = All-remove_key (λ m. m.0 < s.next_id) id s.in_flight a.fresh;
        single = All-remove_key (λ m. IsAscending m.1) id s.in_flight a.single;
        few = omega (arith, length-remove_le id s.in_flight, a.few);
        ascending = take_answers-IsAscending now stored times s.windows a.ascending;
      }

  drop_window : ℕ → RawSink → RawSink
  drop_window end s = record s {
    windows = remove end s.windows;
    emitted_until = max s.emitted_until end;
  }

  drop_window-Agrees : (end : ℕ) (s : RawSink) → Agrees s → Agrees (drop_window end s)
  unfolding drop_window
  drop_window-Agrees end s a = record {
    counted = λ e tracked. elim (Bool-cases (end == e)) [
      | inl same ↦ absurd (no_longer e tracked same)
      | inr differ ↦
          let kept : lookup e (remove end s.windows) ≡ lookup e s.windows =
            lookup-remove end e s.windows a.ascending ∙ rw differ refl in
          ap (λ o. (or_default no_points o).in_flight) kept
          ∙ a.counted e (elim tracked [
            | inl l ↦ inl (omega (arith, l))
            | inr c ↦ inr (rw (contains_key, ← kept) c)
          ])
    ];
    fresh = a.fresh;
    single = a.single;
    few = a.few;
    ascending = remove-IsAscending end s.windows a.ascending;
  }
    where
      no_longer : (e : ℕ) → IsTracked (drop_window end s) e → (end == e) ≡ true → ⊥
      no_longer e (inl l) same = omega (arith, l, (==_iff end e).0 same)
      no_longer e (inr c) same =
          let gone : lookup e (remove end s.windows) ≡ none =
            lookup-remove end e s.windows a.ascending ∙ rw same refl in
          ground (arith, c, gone)

  report-Agrees :
      (now clock : ℕ) (ends : List ℕ) (s : RawSink)
      → Agrees s
      → Agrees (report fl now clock ends s).1
  unfolding report drop_window
  report-Agrees now clock [] s a = a
  report-Agrees now clock (end ∷ ends) s a =
      report-Agrees now clock ends _ (drop_window-Agrees end s a)

  pub due-Agrees : (now clock : ℕ) (s : RawSink) → Agrees s → Agrees (due fl now clock s).1
  unfolding due
  due-Agrees now clock s a = report-Agrees now clock _ s a

module _ (fl : FloatLib) (encodes : List Observation → Bool) where
  answer_of-Agrees :
      (id : Option ℕ) (clock : ℕ) (stored : Bool) (s : RawSink)
      → Agrees s
      → Agrees (answer_of fl encodes id clock stored s)
  answer_of-Agrees none clock stored s a = a
  answer_of-Agrees (some id) clock stored s a = answered-Agrees fl id clock stored s a

  abbrev pub fresh_sink : RawSinkConfig → RawSink
  fresh_sink config = record {
    config = config;
    windows = [];
    in_flight = [];
    next_id = 0;
    emitted_until = 0;
    sent_until_ms = 0;
  }

  pub fresh_sink-Agrees : (config : RawSinkConfig) → Agrees (fresh_sink config)
  fresh_sink-Agrees config = record {
    counted = λ end tracked. refl;
    fresh = tt;
    single = tt;
    few = omega arith;
    ascending = tt;
  }

  pub process-Agrees :
      (m : RawMessage) (clock : ℕ) (s : RawSink)
      → Agrees s
      → s.next_id + 1 < 2 ^ 64
      → Agrees (process fl encodes m clock s).1
  unfolding process
  process-Agrees (points os) clock s a few = elim (Bool-cases (is_none_left (floats os))) [
    | inl e ↦ simp e a
    | inr e ↦ elim (Bool-cases (encodes (floats os))) [
      | inl sent ↦ simp (e, sent) (due-Agrees fl clock clock _ (send-Agrees (floats os) s a few))
      | inr refused ↦ simp (e, refused) (due-Agrees fl clock clock s a)
    ]
  ]
  process-Agrees (ack id) clock s a few =
      due-Agrees fl clock clock _ (answer_of-Agrees id clock true s a)
  process-Agrees (nack id) clock s a few =
      due-Agrees fl clock clock _ (answer_of-Agrees id clock false s a)
  process-Agrees timer_tick clock s a few = due-Agrees fl clock clock s a
  process-Agrees shutdown clock s a few = due-Agrees fl u64_max clock s a
  process-Agrees other clock s a few = a
