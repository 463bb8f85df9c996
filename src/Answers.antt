-- ===== src/Answers.antt =====
-- asap-precompute-rs/src/answers.rs: the answers from exact data, as gauges, and the top keys that
-- are read back from them. The arithmetic of `f64` is a parameter.
pub mod Trackers
pub mod Largest
pub mod TopKeys
pub mod FromSketches
use asapcollector_public.Common.{
  ℕ, zero, suc, ◌+◌, ◌-◌, ◌*◌, ◌^◌, Bool, true, false, ◌&&◌, ◌||◌, not, Option, none, some, List,
  [], ◌∷◌, ◌++◌, map, length, ltb, leb, ◌==◌, if◌then◌else◌,
}
use asapcollector_public.Common.Text.{Text, text, text_eq, text_le, decimal}
use asapcollector_public.Common.Text.Parse.{parse_u32}
use asapcollector_public.Common.Assoc.{Assoc}
use asapcollector_public.Common.Sorting.{sort}
use asapcollector_public.Envelope.{KeyValue, SketchEnvelope, unspecified}
use asapcollector_public.Exact.{ExactWindow}
use asapcollector_public.Float.{F64}
use asapcollector_public.Float.Math.{FloatLib, total_le}
use asapcollector_public.Matchers.{lookup_label}

-- Labels that one answer carries besides those of its series.
abbrev pub Extra : Type 0
Extra = List (Text × Text)

abbrev pub key_values : Extra → List KeyValue
key_values = map (λ p. record { key = p.0; value = p.1 })

unfoldable pub gauge : SketchEnvelope → Text → Text → Extra → F64 → SketchEnvelope
gauge template metric method extra value = record {
  schema_version = 1;
  sketch_type = unspecified;
  agg_id = template.agg_id;
  resource_labels = template.resource_labels;
  labels =
      template.labels
      ++ record { key = text "metric"; value = template.metric_name }
        ∷ record { key = text "method"; value = method }
        ∷ key_values extra;
  window_start_ms = template.window_start_ms;
  window_end_ms = template.window_end_ms;
  payload = [];
  metric_name = metric;
  count = template.count;
  aggregation_temporality = 0;
  value = value;
}

unfoldable pub bounded : SketchEnvelope → Text → Extra → F64 → F64 → F64 → List SketchEnvelope
bounded template metric extra estimate lower upper =
    let one : Text → F64 → SketchEnvelope =
      λ bound v. gauge template metric (text "sketch") (extra ++ (text "bound", bound) ∷ []) v in
    one (text "estimate") estimate ∷ one (text "lower") lower ∷ one (text "upper") upper ∷ []

-- The closure `e` of `exact_answers`.
unfoldable pub exact_gauge : SketchEnvelope → Text → Extra → F64 → SketchEnvelope
exact_gauge template metric extra v =
    gauge template metric (text "exact") (extra ++ (text "bound", text "estimate") ∷ []) v

-- `values[i]`; out of range, the code panics.
abbrev pub value_at : ℕ → List F64 → Option F64
value_at i [] = none
value_at zero (v ∷ values) = some v
value_at (suc i) (v ∷ values) = value_at i values

-- The order of the top keys: larger counts first, then by key.
abbrev pub count_le : Text × ℕ → Text × ℕ → Bool
count_le (k, c) (k', c') = ltb c' c || (c == c' && text_le k k')

abbrev pub take_first : {A : Type 0} → ℕ → List A → List A
take_first zero xs = []
take_first (suc n) [] = []
take_first (suc n) (x ∷ xs) = x ∷ take_first n xs

unfoldable pub top_counts : ℕ → Assoc Text ℕ → List (Text × ℕ)
top_counts k counts = take_first k (sort count_le counts)

abbrev pub cons_answer :
    SketchEnvelope → Option (List SketchEnvelope) → Option (List SketchEnvelope)
cons_answer e none = none
cons_answer e (some rest) = some (e ∷ rest)

abbrev pub is_none_left : {A : Type 0} → List A → Bool
is_none_left [] = true
is_none_left (x ∷ xs) = false

abbrev pub with_answers :
    List SketchEnvelope
    → Option (List SketchEnvelope)
    → List SketchEnvelope
    → Option (List SketchEnvelope)
with_answers front none back = none
with_answers front (some middle) back = some (front ++ (middle ++ back))

module _ (fl : FloatLib) where
  -- The quantiles of sorted values; `none` where an index is out of range and the code panics.
  unfoldable pub quantile_answers :
      SketchEnvelope → List F64 → List F64 → Option (List SketchEnvelope)
  quantile_answers template values [] = some []
  quantile_answers template values (q ∷ quantiles) =
      let rest = quantile_answers template values quantiles in
      let i = fl.round_usize (fl.mul (fl.of_u64 (length values - 1)) q) in
      elim (value_at i values) [
        | none ↦ none
        | some v ↦
            cons_answer
              (exact_gauge template (text "asap.quantile") ((text "quantile", fl.display q) ∷ []) v)
              rest
      ]

  unfoldable pub distinct_answers : SketchEnvelope → Assoc Text ℕ → List SketchEnvelope
  distinct_answers template counts =
      if is_none_left counts
      then []
      else exact_gauge template (text "asap.distinct") [] (fl.of_u64 (length counts)) ∷ []

  -- The answers of the top keys, from the rank on.
  unfoldable pub topk_answers : SketchEnvelope → ℕ → List (Text × ℕ) → List SketchEnvelope
  topk_answers template rank [] = []
  topk_answers template rank ((key, count) ∷ top) =
      exact_gauge template (text "asap.topk")
        ((text "key", key) ∷ (text "rank", decimal (rank + 1)) ∷ []) (fl.of_u64 count)
      ∷ topk_answers template (rank + 1) top

  -- The answers; the window is left with its values sorted.
  unfoldable pub exact_answers :
      SketchEnvelope → ExactWindow → List F64 → ℕ → Option (List SketchEnvelope) × ExactWindow
  exact_answers template window quantiles k =
      let values = sort total_le window.values in
      (
        with_answers
            (gauge template (text "asap.points") (text "exact") [] (fl.of_u64 window.points) ∷ [])
            (if is_none_left values then some [] else quantile_answers template values quantiles)
            (distinct_answers template window.counts
              ++ topk_answers template 0 (top_counts k window.counts)),
        record window { values = values },
      )

-- A key with its rank and its value.
pub record Ranked : Type 0 where
  pub rank : ℕ
  pub key : Text
  pub value : F64

abbrev is_text : Text → Option Text → Bool
is_text t none = false
is_text t (some s) = text_eq s t

abbrev pub ranked_of : Option Text → Option Text → F64 → Option Ranked
ranked_of none key value = none
ranked_of (some rank) key value = elim (parse_u32 rank) [
  | none ↦ none
  | some n ↦ elim key [ none ↦ none | some k ↦ some (record { rank = n; key = k; value = value }) ]
]

unfoldable pub ranked : SketchEnvelope → Option Ranked
ranked e =
    if text_eq e.metric_name (text "asap.topk")
      && is_text (text "estimate") (lookup_label e.labels (text "bound"))
    then ranked_of (lookup_label e.labels (text "rank")) (lookup_label e.labels (text "key"))
        e.value
    else none

abbrev pub filter_map : {A B : Type 0} → (A → Option B) → List A → List B
filter_map f [] = []
filter_map f (x ∷ xs) = elim (f x) [ none ↦ filter_map f xs | some y ↦ y ∷ filter_map f xs ]

abbrev pub rank_le : Ranked → Ranked → Bool
rank_le a b = leb a.rank b.rank

-- The top keys of the answers, by rank; keys of one rank stay in their order.
unfoldable pub topk_of : List SketchEnvelope → List (Text × F64)
topk_of answers = map (λ r. (r.key, r.value)) (sort rank_le (filter_map ranked answers))
