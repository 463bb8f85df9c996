-- ===== src/WindowMerge/Once.antt =====
-- The open windows of asap-precompute-rs/src/otap/window_merge.rs, and the mark of the emitted ones.
use asapcollector_public.Common.{
  ℕ, ◌+◌, ◌++◌, sym, u64_max, ◌≤◌, ◌<◌, ◌≡◌, refl, ◌∙◌, List, [], ◌∷◌, arith, inl, inr, Bool-cases,
  Option-cases, leb, All, All-append, All-map, max, saturating_add,
}
use native.Mathlib.Nat.{le_refl}
use asapcollector_public.Common.Text.{Text, text_eq, text_lt}
use asapcollector_public.Common.Trees.{before, text_put}
use asapcollector_public.Common.Trees.Laws.{
  IsAscending, before-split_off, entry-All, split_off-All, before-All,
}
use asapcollector_public.Common.Assoc.{Assoc, lookup, text_key, number_key, All-alter, All-lookup}
use asapcollector_public.Envelope.{SketchType, SketchEnvelope}
use asapcollector_public.Error.{result_cases, Result, ok, err}
use asapcollector_public.Config.{Duration}
use asapcollector_public.Sketch.{Sketch}
use asapcollector_public.WindowMerge.{
  Pending, MergeWindow, WindowMerger, merge_key, merge_pending, fill_slot, add, last_end,
  merge_cutoff, with_snapshot, emit_series, emit_windows, due,
}

module _ {V : Type 0} where
  text_put-All :
      (P : V → Type 0) (key : Text) (v : V) (m : Assoc Text V)
      → P v
      → All (λ p. P p.1) m
      → All (λ p. P p.1) (text_put key v m)
  unfolding text_put
  text_put-All P key v [] h a = (h, tt)
  text_put-All P key v ((j, w) ∷ m) h a = elim (Bool-cases (text_eq key j)) [
    | inl e ↦ rw e (h, a.1)
    | inr e ↦ elim (Bool-cases (text_lt key j)) [
      | inl l ↦ rw (e, l) (h, a)
      | inr l ↦ rw (e, l) (a.0, text_put-All P key v m h a.1)
    ]
  ]

module _ {S : Type 0} where
  -- A window that ends after `emitted`, all of whose envelopes end where it does.
  abbrev pub IsOpenWindow : ℕ → ℕ → MergeWindow S → Type 0
  IsOpenWindow emitted end w = (emitted < end) × All (λ p. p.1.envelope.window_end_ms ≡ end) w

  abbrev pub IsOpen : WindowMerger S → Type 0
  IsOpen m = All (λ p. IsOpenWindow m.emitted_until p.0 p.1) m.windows

  last_end_from : (latest : ℕ) (ready : Assoc ℕ (MergeWindow S)) → latest ≤ last_end latest ready
  last_end_from latest [] = le_refl latest
  last_end_from latest ((end, w) ∷ ready) = omega (arith, last_end_from (max latest end) ready)

  last_end_below :
      (latest key : ℕ) (ready : Assoc ℕ (MergeWindow S))
      → latest < key
      → All (λ p. p.0 < key) ready
      → last_end latest ready < key
  last_end_below latest key [] h a = h
  last_end_below latest key ((end, w) ∷ ready) h a =
      last_end_below (max latest end) key ready (omega (arith, h, a.0)) a.1

module _ {S : Type 0} (ops : Sketch S) (decode : SketchType → List ℕ → Result S)
    (debug : List (Text × Text) → Text) where
  end-merge_pending :
      (env : SketchEnvelope) (p : Pending S)
      → (merge_pending ops decode debug env p).1.envelope.window_end_ms ≡ p.envelope.window_end_ms
  unfolding merge_pending
  end-merge_pending env p = ground arith

  fill_slot-ends :
      (env : SketchEnvelope) (w : MergeWindow S)
      → All (λ p. p.1.envelope.window_end_ms ≡ env.window_end_ms) w
      → All
          (λ p. p.1.envelope.window_end_ms ≡ env.window_end_ms)
          (fill_slot ops decode debug env w).1
  unfolding fill_slot
  fill_slot-ends env w a =
      let Ends : Pending S → Type 0 = λ p. p.envelope.window_end_ms ≡ env.window_end_ms in
      let key = merge_key debug env in
      elim (Option-cases (lookup key w)) [
        | inr (p, e) ↦
            simp (e, fill_slot)
              (All-alter (λ q. Ends q.1) key _ w
                (λ _ _. end-merge_pending env p ∙ All-lookup (λ q. Ends q.1) key p w a e) a)
        | inl e ↦ elim (result_cases (decode env.sketch_type env.payload)) [
          | inl (x, d) ↦ simp (e, d, fill_slot) a
          | inr (s, d) ↦
              simp (e, d, fill_slot)
                (text_put-All Ends key (record { envelope = env; sketch = s }) w refl a)
        ]
      ]

  -- Whether the sketch is merged, late or refused, `add` leaves only windows that end after all
  -- that has been emitted, with envelopes that end where their window does, if it was so before.
  pub add-IsOpen :
      (now_ms : ℕ) (env : SketchEnvelope) (m : WindowMerger S)
      → IsOpen m
      → IsOpen (add ops decode debug now_ms env m).1
  unfolding add
  add-IsOpen now_ms env m open_windows = elim (Bool-cases (leb env.window_end_ms m.emitted_until)) [
    | inl late ↦ simp late open_windows
    | inr on_time ↦
        let later : m.emitted_until < env.window_end_ms = ground arith in
        simp on_time (
          entry-All (IsOpenWindow m.emitted_until) env.window_end_ms [] _ m.windows
            (later, fill_slot-ends env [] tt) (λ w h. (later, fill_slot-ends env w h.1))
            open_windows)
  ]

  with_snapshot-ends :
      (end : ℕ) (env : SketchEnvelope) (r : Result (List ℕ)) (rest : List SketchEnvelope)
      → env.window_end_ms ≡ end
      → All (λ env'. env'.window_end_ms ≡ end) rest
      → All (λ env'. env'.window_end_ms ≡ end) (with_snapshot ops decode debug env r rest)
  with_snapshot-ends end env (ok payload) rest h a = (h, a)
  with_snapshot-ends end env (err e) rest h a = a

  emit_series-ends :
      (end : ℕ) (w : MergeWindow S)
      → All (λ p. p.1.envelope.window_end_ms ≡ end) w
      → All (λ env. env.window_end_ms ≡ end) (emit_series ops decode debug w)
  unfolding emit_series
  emit_series-ends end [] a = tt
  emit_series-ends end ((key, p) ∷ w) a =
      with_snapshot-ends end p.envelope (ops.snapshot p.sketch) _ a.0 (emit_series-ends end w a.1)

  -- Later than `emitted`, and no later than `until`.
  abbrev pub IsBetween : ℕ → ℕ → SketchEnvelope → Type 0
  IsBetween emitted until env = (emitted < env.window_end_ms) × (env.window_end_ms ≤ until)

  emit_windows-IsBetween :
      (emitted latest : ℕ) (ready : Assoc ℕ (MergeWindow S))
      → All (λ p. IsOpenWindow emitted p.0 p.1) ready
      → All (IsBetween emitted (last_end latest ready)) (emit_windows ops decode debug ready)
  unfolding emit_windows
  emit_windows-IsBetween emitted latest [] a = tt
  emit_windows-IsBetween emitted latest ((end, w) ∷ ready) a =
      let bound : end ≤ last_end (max latest end) ready =
        omega (arith, last_end_from (max latest end) ready) in
      All-append (IsBetween emitted (last_end (max latest end) ready)) _ _
        (All-map (λ env e. (omega (arith, e, a.0), omega (arith, e, bound))) _
          (emit_series-ends end w a.0.1))
        (emit_windows-IsBetween emitted (max latest end) ready a.1)

  -- `due` emits the windows that end by the cutoff and keeps the later ones, and none is lost: the
  -- emitted windows, followed by those that it leaves, are those that were open. Each envelope ends
  -- after the old mark and no later than the new one, and what is left ends after the new mark. The
  -- open windows stand in the order of their ends, end after the old mark, and have envelopes that end
  -- where they do; the cutoff is below the largest `u64`. A series of an emitted window whose
  -- snapshot fails has no envelope.
  pub due_lem :
      (now_ms : ℕ) (grace : Duration) (sources : ℕ) (m : WindowMerger S)
      → IsOpen m
      → IsAscending m.windows
      → merge_cutoff now_ms grace sources m < u64_max
      → let o = due ops decode debug now_ms grace sources m in
        let cutoff = merge_cutoff now_ms grace sources m in
        All (IsBetween m.emitted_until o.1.emitted_until) o.0
        × IsOpen o.1
        × ((ready : Assoc ℕ (MergeWindow S)) × (m.windows ≡ ready ++ o.1.windows)
            × (o.0 ≡ emit_windows ops decode debug ready)
            × All (λ p. p.0 ≤ cutoff) ready
            × All (λ p. cutoff < p.0) o.1.windows)
  unfolding due
  due_lem now_ms grace sources m open_windows sorted small =
      let cutoff = merge_cutoff now_ms grace sources m in
      let first_open = saturating_add cutoff 1 in
      let next : first_open ≡ cutoff + 1 = ground arith in
      let later = split_off-All (IsOpenWindow m.emitted_until) first_open m.windows open_windows in
      let ready = before-All (IsOpenWindow m.emitted_until) first_open m.windows open_windows in
      (
        emit_windows-IsBetween m.emitted_until m.emitted_until (before first_open m.windows)
            (All-map (λ p h. h.1) _ ready),
        All-map
            (λ p h. (
              last_end_below m.emitted_until p.0 (before first_open m.windows) h.1.0
                  (All-map (λ q g. omega (arith, g.0, h.0)) _ ready),
              h.1.1,
            ))
            _ later,
        (
          before first_open m.windows,
          sym (before-split_off first_open m.windows sorted),
          refl,
          All-map (λ p h. omega (arith, h.0, next)) _ ready,
          All-map (λ p h. omega (arith, h.0, next)) _ later,
        ),
      )
