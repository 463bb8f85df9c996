-- ===== src/ExactDetector.antt =====
-- `ExactDetector` of asap-precompute-rs/src/otap/baseline_nodes.rs: the answers and events of one
-- merged window. The arithmetic of `f64` and the debug format of labels are parameters; `none` is
-- an index out of range, on which the code panics.
use asapcollector_public.Common.{
  ℕ, zero, suc, ◌+◌, ◌-◌, ◌&&◌, Option, none, some, List, [], ◌∷◌, ◌++◌, map, length, leb,
  if◌then◌else◌,
}
use asapcollector_public.Common.Assoc.{Assoc, lookup, text_key}
use asapcollector_public.Common.Maps.{put, or_default}
use asapcollector_public.Common.Sorting.{sort}
use asapcollector_public.Common.Text.{Text, text}
use asapcollector_public.Envelope.{KeyValue, SketchEnvelope, unspecified}
use asapcollector_public.Error.{ok, err}
use asapcollector_public.Exact.{ExactWindow, decode}
use asapcollector_public.Float.{F64, float_le}
use asapcollector_public.Float.Math.{FloatLib, total_le}
use asapcollector_public.Answers.{exact_answers, topk_of, value_at, is_none_left}
use asapcollector_public.Answers.Trackers.{
  Event, CardinalityClassifier, NoveltyTracker, DriftTracker, observe_cardinality, observe_novelty,
  observe_drift, ks_distance, remember, tracker_key,
}

pub record ExactDetector : Type 0 where
  pub quantiles : List F64
  pub k : ℕ
  pub cardinality : CardinalityClassifier
  pub novelty : NoveltyTracker
  pub drift : DriftTracker
  pub baselines : Assoc Text (List (List F64))

-- Gauges and events.
abbrev pub Output : Type 0
Output = List SketchEnvelope × List Event

abbrev event_list : Option Event → List Event
event_list none = []
event_list (some e) = e ∷ []

abbrev joined : Output → Output → Output
joined (a, e) (b, f) = (a ++ b, e ++ f)

abbrev joined_some : Output → Option Output → Option Output
joined_some a none = none
joined_some a (some b) = some (joined a b)

abbrev flatten : List (List F64) → List F64
flatten [] = []
flatten (xs ∷ rest) = xs ++ flatten rest

-- `partition_point(|&y| y <= x)` of sorted values: how many stand before the first one above `x`.
unfoldable pub partition_point : F64 → List F64 → ℕ
partition_point x [] = 0
partition_point x (y ∷ values) =
    let rest = partition_point x values in if float_le y x then suc rest else 0

module _ (fl : FloatLib) (debug : List KeyValue → Text) where
  unfoldable pub cdf : List F64 → F64 → F64
  cdf values x = fl.div (fl.of_u64 (partition_point x values)) (fl.of_u64 (length values))

  abbrev at_quantile : List F64 → F64 → Option F64
  at_quantile values q = value_at (fl.round_usize (fl.mul (fl.of_u64 (length values - 1)) q)) values

  abbrev hundredths : ℕ → F64
  hundredths i = fl.div (fl.of_u64 i) 0x4059000000000000

  abbrev cons_two : Option F64 → Option F64 → Option (List F64) → Option (List F64)
  cons_two none b rest = none
  cons_two (some a) none rest = none
  cons_two (some a) (some b) none = none
  cons_two (some a) (some b) (some rest) = some (a ∷ b ∷ rest)

  -- The grid at the hundredths from `i` on, for `n` of them.
  unfoldable pub grid : List F64 → List F64 → ℕ → ℕ → Option (List F64)
  grid sorted baseline i zero = some []
  grid sorted baseline i (suc n) =
      cons_two (at_quantile sorted (hundredths i)) (at_quantile baseline (hundredths i))
        (grid sorted baseline (i + 1) n)

  abbrev half_f64 : F64
  half_f64 = 0x3fe0000000000000

  abbrev tested :
      SketchEnvelope → F64 → Option F64 → Option F64 → DriftTracker → Option Output × DriftTracker
  tested template ks none b t = (none, t)
  tested template ks (some a) none t = (none, t)
  tested template ks (some baseline_p50) (some current_p50) t =
      let (gauges, event, t') =
        observe_drift fl debug template (text "exact") ks baseline_p50 current_p50 t in
      (some (gauges, event_list event), t')

  unfoldable pub test_drift :
      SketchEnvelope → List F64 → List F64 → DriftTracker → Option Output × DriftTracker
  test_drift template sorted baseline t = elim (grid sorted baseline 1 99) [
    | none ↦ (none, t)
    | some xs ↦
        tested template (ks_distance fl debug (cdf sorted) (cdf baseline) xs)
          (at_quantile baseline half_f64) (at_quantile sorted half_f64) t
  ]

  -- The KS test of a window's sorted values against the previous windows.
  unfoldable pub drift_of :
      SketchEnvelope → List F64 → ExactDetector → Option Output × ExactDetector
  drift_of template sorted d =
      let key = tracker_key fl debug template in
      let window = or_default [] (lookup key d.baselines) in
      let outcome =
        if leb 3 (length window) && leb d.drift.rules.min_points (length sorted)
        then test_drift template sorted (sort total_le (flatten window)) d.drift
        else (some ([], []), d.drift) in
      (
        outcome.0,
        record d {
          drift = outcome.1;
          baselines = put key (remember d.drift.rules.baseline_windows sorted window) d.baselines;
        },
      )

  unfoldable pub classify : SketchEnvelope → ExactWindow → ExactDetector → Output × ExactDetector
  classify template w d =
      let (gauges, event, c) =
        observe_cardinality fl debug template (text "exact") (fl.of_u64 (length w.counts)) w.points
          d.cardinality in
      if is_none_left w.counts
      then (([], []), d)
      else ((gauges, event_list event), record d { cardinality = c })

  unfoldable pub note_top :
      SketchEnvelope → List SketchEnvelope → ExactDetector → Output × ExactDetector
  note_top template answers d =
      let top = topk_of answers in
      let (new, n) = observe_novelty fl debug template (text "exact") top d.novelty in
      if is_none_left top
      then (([], []), d)
      else ((map (λ p. p.0) new, map (λ p. p.1) new), record d { novelty = n })

  abbrev drift_if : SketchEnvelope → List F64 → ExactDetector → Option Output × ExactDetector
  drift_if template values d =
      if is_none_left values then (some ([], []), d) else drift_of template values d

  abbrev answer_window :
      SketchEnvelope → ExactWindow → ExactDetector → Option Output × ExactDetector
  answer_window template w d =
      let (classes, d₁) = classify template w d in
      let (answers, sorted) = exact_answers fl template w d.quantiles d.k in
      elim answers [
        | none ↦ (none, d₁)
        | some given ↦
            let (novel, d₂) = note_top template given d₁ in
            let (drifts, d₃) = drift_if template sorted.values d₂ in
            (joined_some (joined classes (joined novel (given, []))) drifts, d₃)
      ]

  unfoldable pub answer : SketchEnvelope → ExactDetector → Option Output × ExactDetector
  answer template d = elim (decode template.payload) [
    | err e ↦ (some ([], []), d)
    | ok w ↦
        answer_window
          (record template { payload = []; sketch_type = unspecified; count = w.points }) w d
  ]
