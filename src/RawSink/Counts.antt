-- ===== src/RawSink/Counts.antt =====
-- Counts of the messages in flight of `RawSink`, of
-- asap-precompute-rs/src/otap/baseline_nodes.rs, and lookups of its windows.
use asapcollector_public.Common.{
  ℕ, suc, ◌+◌, ◌^◌, ◌≤◌, ◌<◌, ◌≡◌, refl, ap, ◌∙◌, false, none, List, [], ◌∷◌, arith, inl, inr,
  Bool-cases, Option-cases, All, ltb, ◌==◌, ==_iff, if◌then◌else◌, tests, wrapping_add, length,
  length-append,
}
use asapcollector_public.Common.Assoc.{Assoc, lookup, remove, push, contains_key, number_key}
use asapcollector_public.Common.Maps.{or_default}
use asapcollector_public.Common.Trees.{entry}
use asapcollector_public.Common.Trees.Laws.{IsAscending, entry-All, entry-IsAscending, lookup-entry}
use asapcollector_public.Observation.{Observation}
use asapcollector_public.RawSink.{
  RawWindow, Times, no_points, one_more, window_end, by_window, wait_for,
}

-- How many entries of a message, and of all messages, belong to the window.
abbrev pub count_in : ℕ → Times → ℕ
count_in end [] = 0
count_in end ((e, ts) ∷ times) = if e == end then suc (count_in end times) else count_in end times

abbrev pub in_messages : ℕ → Assoc ℕ Times → ℕ
in_messages end [] = 0
in_messages end ((id, times) ∷ messages) = count_in end times + in_messages end messages

-- The count that the window keeps; 0 if there is no window.
abbrev pub flight : ℕ → Assoc ℕ RawWindow → ℕ
flight end windows = (or_default no_points (lookup end windows)).in_flight

pub in_messages-push :
    (end id : ℕ) (times : Times) (m : Assoc ℕ Times)
    → in_messages end (push id times m) ≡ in_messages end m + count_in end times
in_messages-push end id times [] = omega arith
in_messages-push end id times (p ∷ m) = omega (arith, in_messages-push end id times m)

pub in_messages-remove :
    (end id : ℕ) (m : Assoc ℕ Times)
    → in_messages end (remove id m) + count_in end (or_default [] (lookup id m)) ≡ in_messages end m
in_messages-remove end id [] = refl
in_messages-remove end id ((j, times) ∷ m) = elim (Bool-cases (j == id)) [
  | inl e ↦ rw e (omega arith)
  | inr e ↦ rw e (omega (arith, in_messages-remove end id m))
]

pub lookup_fresh : (id : ℕ) (m : Assoc ℕ Times) → All (λ p. p.0 < id) m → lookup id m ≡ none
lookup_fresh id [] h = refl
lookup_fresh id ((j, times) ∷ m) h = ground (arith, lookup_fresh id m h.1)

-- The ends of a message come after all that has been reported.
pub by_window-later :
    (size emitted : ℕ) (os : List Observation) (times : Times)
    → All (λ p. emitted < p.0) times
    → All (λ p. emitted < p.0) (by_window size emitted os times)
unfolding by_window
by_window-later size emitted [] times h = h
by_window-later size emitted (o ∷ os) times h =
    elim (Bool-cases (ltb emitted (window_end size o.timestamp_ms))) [
      | inl e ↦ rw e (
          by_window-later size emitted os _
            (entry-All (λ k v. emitted < k) _ [] _ times (omega (tests, e)) (λ v k. k) h))
      | inr e ↦ rw e (by_window-later size emitted os times h)
    ]

pub count_in_later :
    (emitted end : ℕ) (times : Times)
    → All (λ p. emitted < p.0) times
    → end ≤ emitted
    → count_in end times ≡ 0
count_in_later emitted end [] h le = refl
count_in_later emitted end ((e, ts) ∷ times) h le =
    ground (arith, count_in_later emitted end times h.1)

pub wait_for-IsAscending :
    (times : Times) (m : Assoc ℕ RawWindow) → IsAscending m → IsAscending (wait_for times m)
unfolding wait_for
wait_for-IsAscending [] m h = h
wait_for-IsAscending ((e, ts) ∷ times) m h =
    wait_for-IsAscending times _ (entry-IsAscending e no_points one_more m h)

pub lookup-wait_for :
    (end : ℕ) (times : Times) (m : Assoc ℕ RawWindow)
    → IsAscending m
    → count_in end times ≡ 0
    → lookup end (wait_for times m) ≡ lookup end m
unfolding wait_for
lookup-wait_for end [] m h none_there = refl
lookup-wait_for end ((e, ts) ∷ times) m h none_there =
    lookup-wait_for end times _ (entry-IsAscending e no_points one_more m h) (ground arith)
    ∙ (lookup-entry e end no_points one_more m h ∙ ground arith)

pub flight-entry :
    (e end : ℕ) (m : Assoc ℕ RawWindow)
    → IsAscending m
    → flight end (entry e no_points one_more m)
      ≡ (if e == end then wrapping_add (flight end m) 1 else flight end m)
flight-entry e end m h = elim (Bool-cases (e == end)) [
  | inl same ↦
      let k : e ≡ end = (==_iff e end).0 same in
      rw (flight, lookup-entry e end no_points one_more m h, same)
        (ap (λ i. wrapping_add (flight i m) 1) k)
  | inr differ ↦ rw (flight, lookup-entry e end no_points one_more m h, differ) refl
]

pub flight-wait_for :
    (end : ℕ) (times : Times) (m : Assoc ℕ RawWindow)
    → IsAscending m
    → flight end m < 2 ^ 64
    → flight end (wait_for times m) ≡ wrapping_add (flight end m) (count_in end times)
unfolding wait_for
flight-wait_for end [] m h small = omega arith
flight-wait_for end ((e, ts) ∷ times) m h small =
    let next =
      flight-wait_for end times (entry e no_points one_more m)
        (entry-IsAscending e no_points one_more m h) in
    let step = flight-entry e end m h in
    elim (Bool-cases (e == end)) [
      | inl same ↦
          let moved : flight end (entry e no_points one_more m) ≡ wrapping_add (flight end m) 1 =
            step ∙ rw same refl in
          rw same (omega (arith, next (omega (arith, moved)), moved))
      | inr differ ↦
          let kept : flight end (entry e no_points one_more m) ≡ flight end m =
            step ∙ rw differ refl in
          rw differ (omega (arith, next (omega (arith, kept)), kept))
    ]

pub flight-untracked :
    (end : ℕ) (m : Assoc ℕ RawWindow) → contains_key end m ≡ false → flight end m ≡ 0
flight-untracked end m h = elim (Option-cases (lookup end m)) [
  | inl e ↦ rw (flight, e) refl
  | inr (w, e) ↦ absurd (ground (arith, h, e))
]

pub by_window-IsAscending :
    (size emitted : ℕ) (os : List Observation) (times : Times)
    → IsAscending times
    → IsAscending (by_window size emitted os times)
unfolding by_window
by_window-IsAscending size emitted [] times h = h
by_window-IsAscending size emitted (o ∷ os) times h =
    elim (Bool-cases (ltb emitted (window_end size o.timestamp_ms))) [
      | inl e ↦ rw e (by_window-IsAscending size emitted os _ (entry-IsAscending _ [] _ times h))
      | inr e ↦ rw e (by_window-IsAscending size emitted os times h)
    ]

-- A message has one entry for a window at most.
pub count_in-single : (end : ℕ) (times : Times) → IsAscending times → count_in end times ≤ 1
count_in-single end [] h = omega arith
count_in-single end ((e, ts) ∷ times) h =
    ground (arith, count_in-single end times h.1, count_in_later e end times h.0)

pub in_messages-bound :
    (end : ℕ) (m : Assoc ℕ Times) → All (λ p. IsAscending p.1) m → in_messages end m ≤ length m
in_messages-bound end [] h = omega arith
in_messages-bound end ((id, times) ∷ m) h =
    omega (arith, count_in-single end times h.0, in_messages-bound end m h.1)

pub length-push :
    (id : ℕ) (times : Times) (m : Assoc ℕ Times) → length (push id times m) ≡ length m + 1
length-push id times m = length-append m ((id, times) ∷ [])

pub length-remove_le : (id : ℕ) (m : Assoc ℕ Times) → length (remove id m) ≤ length m
length-remove_le id [] = omega arith
length-remove_le id ((j, times) ∷ m) = ground (arith, length-remove_le id m)
