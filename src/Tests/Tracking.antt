-- ===== src/Tests/Tracking.antt =====
-- The theorems on answers and trackers, at small windows.
use asapcollector_public.Common.{ℕ, ◌≡◌, refl, Option, none, some, List, [], ◌∷◌, ◌++◌, arith, All}
use asapcollector_public.Common.Text.{Text, text, text_eq}
use asapcollector_public.Envelope.{KeyValue, SketchEnvelope}
use asapcollector_public.Exact.{ExactWindow}
use asapcollector_public.Float.{F64}
use asapcollector_public.Answers.{
  gauge, distinct_answers, topk_answers, top_counts, exact_answers, topk_of,
}
use asapcollector_public.Answers.Largest.{IsLargest}
use asapcollector_public.Answers.TopKeys.{IsPlain, scaled_counts, topk_of-exact_answers}
use asapcollector_public.Answers.Trackers.{
  CardinalityClassifier, NoveltyTracker, tracker_key, observe_novelty,
}
use asapcollector_public.Answers.Trackers.Novel.{IsNew, observe_novelty-IsNew}
use asapcollector_public.Answers.Trackers.Told.{Window, last_state, listen, listen_lem}
use asapcollector_public.Matchers.{lookup_label}
use asapcollector_public.Common.Sorting.{sort}
use asapcollector_public.Tests.Fixtures.{envelope}
use asapcollector_public.Tests.Store.{plain_floats}

abbrev no_debug : List KeyValue → Text
no_debug labels = []

abbrev counted : ExactWindow
counted = record { values = []; counts = (text "a", 2) ∷ (text "b", 5) ∷ []; points = 7 }

envelope-IsPlain : IsPlain envelope
unfolding lookup_label text_eq
envelope-IsPlain = record { no_bound = refl; no_rank = refl; no_key = refl }

-- The answers of the window: the points, the distinct keys, and one top key.
abbrev counted_answers : List SketchEnvelope
counted_answers =
    gauge envelope (text "asap.points") (text "exact") [] 7
    ∷ (distinct_answers plain_floats envelope counted.counts
        ++ topk_answers plain_floats envelope 0 (top_counts 1 counted.counts))

answers_given : (exact_answers plain_floats envelope counted [] 1).0 ≡ some counted_answers
unfolding exact_answers sort
answers_given = refl

topk_of-exact_answers_example :
    (top : List (Text × ℕ)) × IsLargest 1 counted.counts top
    × (topk_of counted_answers ≡ scaled_counts plain_floats top)
topk_of-exact_answers_example =
    topk_of-exact_answers plain_floats envelope counted [] 1 counted_answers envelope-IsPlain
      (omega arith) answers_given

abbrev classifier : CardinalityClassifier
classifier = record {
  rules = record { baseline_windows = 10; identifier_ratio = 5; growth = 0; min_points = 1 };
  history = [];
}

abbrev two_windows : List Window
two_windows =
    record { template = envelope; method = text "exact"; distinct = 3; points = 10 }
    ∷ record { template = envelope; method = text "exact"; distinct = 9; points = 10 }
    ∷ []

abbrev nothing_known : Text → Option Text
nothing_known key = none

-- The series of the two windows.
abbrev followed : Text
followed = tracker_key plain_floats no_debug envelope

listen_lem_example :
    let o = listen plain_floats no_debug two_windows classifier nothing_known in
    o.1 followed ≡ last_state o.0 followed
listen_lem_example =
    listen_lem plain_floats no_debug two_windows classifier nothing_known (λ k. refl) followed

-- Three windows with one top key have been seen.
abbrev tracker : NoveltyTracker
tracker = record {
  baseline_windows = 5;
  history = (followed, (text "a" ∷ []) ∷ (text "a" ∷ []) ∷ (text "a" ∷ []) ∷ []) ∷ [];
}

abbrev usual : List (Text × F64)
usual = (text "a", 10) ∷ (text "b", 5) ∷ []

-- A key that has not been seen.
abbrev surprising : List (Text × F64)
surprising = (text "c", 20) ∷ usual

observe_novelty-IsNew_example :
    All
      (λ o. IsNew usual o.1)
      (observe_novelty plain_floats no_debug envelope
        (text "exact")
        surprising
        (observe_novelty plain_floats no_debug envelope (text "exact") usual tracker).1).0
observe_novelty-IsNew_example =
    observe_novelty-IsNew plain_floats no_debug envelope envelope (text "exact") (text "exact")
      usual surprising tracker (omega arith) refl
