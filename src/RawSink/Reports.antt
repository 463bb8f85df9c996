-- ===== src/RawSink/Reports.antt =====
-- The windows that `RawSink`, of asap-precompute-rs/src/otap/baseline_nodes.rs, reports.
use asapcollector_public.Common.{
  ℕ, ◌-◌, ◌≡◌, ◌≢◌, refl, sym, subst, ◌∙◌, Bool, true, false, Option, none, some, List, [], ◌∷◌,
  ◌++◌, arith, inl, inr, Bool-cases, Option-cases, All, ◌==◌, ==_iff, ==_refl, if◌then◌else◌,
  u64_max, length,
}
use asapcollector_public.Common.Text.{text, text_eq}
use asapcollector_public.Common.Assoc.{Assoc, lookup, remove, keys, number_key}
use asapcollector_public.Common.Maps.{or_default}
use asapcollector_public.Common.Sorting.{sort}
use asapcollector_public.Common.Trees.Laws.{IsAscending, remove-IsAscending, lookup-remove}
use asapcollector_public.Config.{as_millis}
use asapcollector_public.Envelope.{SketchEnvelope}
use asapcollector_public.Float.{F64}
use asapcollector_public.Float.Math.{FloatLib, total_le}
use asapcollector_public.Observation.{Observation}
use asapcollector_public.Answers.{gauge, value_at}
use asapcollector_public.RawSink.{
  RawSinkConfig, RawWindow, RawSink, no_points, is_ready, ready_ends, raw_metric, one_transit, both,
  transits, window_gauges, appended, report, due, unacknowledged, shutdown, process,
}

-- The ends of the windows whose delay is among the gauges.
pub delay_ends : List SketchEnvelope → List ℕ
delay_ends [] = []
delay_ends (e ∷ es) =
    if text_eq e.metric_name (text "asap.answer.delay")
    then e.window_end_ms ∷ delay_ends es
    else delay_ends es

delay_ends-append :
    (es fs : List SketchEnvelope) → delay_ends (es ++ fs) ≡ delay_ends es ++ delay_ends fs
unfolding delay_ends
delay_ends-append [] fs = refl
delay_ends-append (e ∷ es) fs =
    elim (Bool-cases (text_eq e.metric_name (text "asap.answer.delay"))) [
      | inl h ↦ rw (h, delay_ends-append es fs) refl
      | inr h ↦ rw (h, delay_ends-append es fs) refl
    ]

-- The windows, without those that end at the ends.
remove_all : List ℕ → Assoc ℕ RawWindow → Assoc ℕ RawWindow
remove_all [] m = m
remove_all (end ∷ ends) m = remove_all ends (remove end m)

-- What holds of the gauges, unless the code panics.
abbrev pub IfSome : {A : Type 0} → (A → Type 0) → Option A → Type 0
IfSome P none = Unit
IfSome P (some a) = P a

IsOther : SketchEnvelope → Type 0
IsOther e = text_eq e.metric_name (text "asap.answer.delay") ≡ false

both-no_delay :
    (a b : Option SketchEnvelope)
    → IfSome IsOther a
    → IfSome IsOther b
    → IfSome (λ gs. delay_ends gs ≡ []) (both a b)
unfolding delay_ends IsOther
both-no_delay none b h k = tt
both-no_delay (some a) none h k = tt
both-no_delay (some a) (some b) h k = rw (h, k) refl

appended-delays :
    (end : ℕ) (ends : List ℕ) (a : List SketchEnvelope) (b c : Option (List SketchEnvelope))
    → delay_ends a ≡ end ∷ []
    → IfSome (λ gs. delay_ends gs ≡ []) b
    → IfSome (λ gs. delay_ends gs ≡ ends) c
    → IfSome (λ gs. delay_ends gs ≡ end ∷ ends) (appended a b c)
appended-delays end ends a none c h k l = tt
appended-delays end ends a (some b) none h k l = tt
appended-delays end ends a (some b) (some c) h k l =
    rw (delay_ends-append a (b ++ c), delay_ends-append b c, h, k, l) refl

at_value-IfSome :
    (P : SketchEnvelope → Type 0) (o : Option F64) (f : F64 → SketchEnvelope)
    → ((v : F64) → P (f v))
    → IfSome P (elim o [ none ↦ none | some v ↦ some (f v) ])
at_value-IfSome P none f h = tt
at_value-IfSome P (some v) f h = h v

module _ (fl : FloatLib) where
  one_transit-IsOther :
      (config : RawSinkConfig) (end : ℕ) (values : List F64) (q : F64)
      → IfSome IsOther (one_transit fl config end values q)
  unfolding raw_metric gauge text_eq IsOther
  one_transit-IsOther config end values q =
      at_value-IfSome IsOther
        (value_at (fl.round_usize (fl.mul (fl.of_u64 (length values - 1)) q)) values) _ (λ v. refl)

  transits-no_delay :
      (config : RawSinkConfig) (end : ℕ) (values : List F64)
      → IfSome (λ gs. delay_ends gs ≡ []) (transits fl config end values)
  unfolding transits delay_ends
  transits-no_delay config end [] = refl
  transits-no_delay config end (v ∷ values) =
      both-no_delay _ _ (one_transit-IsOther config end (sort total_le (v ∷ values)) _)
        (one_transit-IsOther config end (sort total_le (v ∷ values)) _)

  window_gauges-delay :
      (config : RawSinkConfig) (now clock waiting end : ℕ) (w : RawWindow)
      → delay_ends (window_gauges fl config now clock waiting end w) ≡ end ∷ []
  unfolding window_gauges raw_metric gauge delay_ends text_eq
  window_gauges-delay config now clock waiting end w = refl

  report-delays :
      (now clock : ℕ) (ends : List ℕ) (s : RawSink)
      → IfSome (λ gs. delay_ends gs ≡ ends) (report fl now clock ends s).0
  unfolding report delay_ends
  report-delays now clock [] s = refl
  report-delays now clock (end ∷ ends) s =
      let w = or_default no_points (lookup end s.windows) in
      appended-delays end ends _ _ _
        (window_gauges-delay s.config now clock (unacknowledged end s.in_flight) end w)
        (transits-no_delay s.config end w.transit_s) (report-delays now clock ends _)

  windows-report :
      (now clock : ℕ) (ends : List ℕ) (s : RawSink)
      → (report fl now clock ends s).1.windows ≡ remove_all ends s.windows
  unfolding report remove_all
  windows-report now clock [] s = refl
  windows-report now clock (end ∷ ends) s = windows-report now clock ends _

remove_all-IsAscending :
    (ends : List ℕ) (m : Assoc ℕ RawWindow) → IsAscending m → IsAscending (remove_all ends m)
unfolding remove_all
remove_all-IsAscending [] m h = h
remove_all-IsAscending (end ∷ ends) m h = remove_all-IsAscending ends _ (remove-IsAscending end m h)

-- What is left was there before, and is none of the removed windows.
lookup-remove_all :
    (ends : List ℕ) (m : Assoc ℕ RawWindow) (end : ℕ) (w : RawWindow)
    → IsAscending m
    → lookup end (remove_all ends m) ≡ some w
    → (lookup end m ≡ some w) × All (λ e. e ≢ end) ends
unfolding remove_all
lookup-remove_all [] m end w h found = (found, tt)
lookup-remove_all (e ∷ ends) m end w h found =
    let earlier = lookup-remove_all ends (remove e m) end w (remove-IsAscending e m h) found in
    let step = lookup-remove e end m h in
    elim (Bool-cases (e == end)) [
      | inl same ↦ absurd (ground (arith, earlier.0, step, same))
      | inr differ ↦
          let kept : lookup end (remove e m) ≡ lookup end m = step ∙ rw differ refl in
          (sym kept ∙ earlier.0, ((λ p. ground (arith, differ, p)), earlier.1))
    ]

ready_ends_complete :
    (now grace sent : ℕ) (m : Assoc ℕ RawWindow) (end : ℕ) (w : RawWindow)
    → lookup end m ≡ some w
    → is_ready now grace sent end w ≡ true
    → All (λ e. e ≢ end) (ready_ends now grace sent m)
    → ⊥
unfolding ready_ends
ready_ends_complete now grace sent [] end w found ready others = cc
ready_ends_complete now grace sent ((j, v) ∷ m) end w found ready others =
    elim (Bool-cases (j == end)) [
      | inl same ↦
          let at_end : j ≡ end = (==_iff j end).0 same in
          let here : v ≡ w = ground (arith, found, same) in
          let first : is_ready now grace sent j v ≡ true =
            subst (λ k. is_ready now grace sent k v ≡ true) (sym at_end)
              (subst (λ u. is_ready now grace sent end u ≡ true) (sym here) ready) in
          (subst
              (λ b.
                All (λ e. e ≢ end)
                  (if b then j ∷ ready_ends now grace sent m else ready_ends now grace sent m))
              first others).0
            at_end
      | inr differ ↦
          let later : lookup end m ≡ some w = ground (arith, found, differ) in
          elim (Bool-cases (is_ready now grace sent j v)) [
            | inl r ↦
                ready_ends_complete now grace sent m end w later ready
                  (subst
                    (λ b.
                      All (λ e. e ≢ end)
                        (if b
                          then j ∷ ready_ends now grace sent m
                          else ready_ends now grace sent m))
                    r others).1
            | inr r ↦ ready_ends_complete now grace sent m end w later ready (
                subst
                  (λ b.
                    All (λ e. e ≢ end)
                      (if b then j ∷ ready_ends now grace sent m else ready_ends now grace sent m))
                  r others)
          ]
    ]

ready_later : (end end' now : ℕ) (w : RawWindow) → is_ready u64_max end' now end w ≡ true
unfolding is_ready
ready_later end end' now w = ground arith

ready_ends-all : (grace sent : ℕ) (m : Assoc ℕ RawWindow) → ready_ends u64_max grace sent m ≡ keys m
unfolding ready_ends
ready_ends-all grace sent [] = refl
ready_ends-all grace sent ((end, w) ∷ m) =
    rw (ready_later end grace sent w, ready_ends-all grace sent m) refl

nothing_there : (m : Assoc ℕ RawWindow) → ((end : ℕ) → lookup end m ≡ none) → m ≡ []
nothing_there [] h = refl
nothing_there ((end, w) ∷ m) h = absurd (ground (arith, h end, ==_refl end))

module _ (fl : FloatLib) where
  -- `due` reports each window that is ready once, in order, and no other one, unless it panics; and
  -- it leaves no window that is ready by the state and the time of the call.
  pub due_lem :
      (now clock : ℕ) (s : RawSink)
      → IsAscending s.windows
      → let o = due fl now clock s in
        let grace = as_millis s.config.grace in
        IfSome (λ gauges. delay_ends gauges ≡ ready_ends now grace s.sent_until_ms s.windows) o.0
        × ((end : ℕ) (w : RawWindow)
            → lookup end o.1.windows ≡ some w
            → is_ready now grace s.sent_until_ms end w ≡ false)
  unfolding due
  due_lem now clock s sorted =
      let grace = as_millis s.config.grace in
      let ends = ready_ends now grace s.sent_until_ms s.windows in
      (
        report-delays fl now clock ends s,
        λ end w found.
            let left =
              lookup-remove_all ends s.windows end w sorted
                (subst (λ m. lookup end m ≡ some w) (windows-report fl now clock ends s) found) in
            elim (Bool-cases (is_ready now grace s.sent_until_ms end w)) [
              | inl ready ↦ absurd (
                  ready_ends_complete now grace s.sent_until_ms s.windows end w left.0 ready left.1)
              | inr not_ready ↦ not_ready
            ],
      )

  -- A shutdown reports every open window once, in the order of their ends, unless it panics, and
  -- leaves no window open, whatever the store has not answered. The open windows stand in the order
  -- of their ends.
  pub process-shutdown :
      (encodes : List Observation → Bool) (clock : ℕ) (s : RawSink)
      → IsAscending s.windows
      → let o = process fl encodes shutdown clock s in
        IfSome (λ gauges. delay_ends gauges ≡ keys s.windows) o.0 × (o.1.windows ≡ [])
  unfolding process
  process-shutdown encodes clock s sorted =
      let grace = as_millis s.config.grace in
      let o = due fl u64_max clock s in
      let (reported, left) = due_lem u64_max clock s sorted in
      (
        subst (λ ends. IfSome (λ gauges. delay_ends gauges ≡ ends) o.0)
            (ready_ends-all grace s.sent_until_ms s.windows) reported,
        nothing_there o.1.windows (λ end. elim (Option-cases (lookup end o.1.windows)) [
          | inl gone ↦ gone
          | inr (w, found) ↦
              absurd (ground (arith, left end w found, ready_later end grace s.sent_until_ms w))
        ]),
      )
