-- ===== src/Answers/TopKeys.antt =====
-- The top keys that `topk_of`, of asap-precompute-rs/src/answers.rs, reads from exact answers.
use asapcollector_public.Common.{
  ℕ, zero, suc, ◌+◌, ◌-◌, ◌^◌, ◌≤◌, ◌<◌, ◌≡◌, refl, sym, ap, subst, false, Option, none, some, List,
  [], ◌∷◌, ◌++◌, map, arith, inl, inr, Bool-cases, Option-cases, length, if◌then◌else◌,
}
use asapcollector_public.Common.Text.{Text, text, text_eq, decimal}
use asapcollector_public.Common.Text.Parse.{parse_u32-decimal}
use asapcollector_public.Common.Assoc.{Assoc}
use asapcollector_public.Common.Sorting.{sort, sort_insert}
use asapcollector_public.Answers.Largest.{IsLargest, top_counts-IsLargest}
use asapcollector_public.Envelope.{KeyValue, SketchEnvelope}
use asapcollector_public.Exact.{ExactWindow}
use asapcollector_public.Float.{F64}
use asapcollector_public.Float.Math.{FloatLib, total_le}
use asapcollector_public.Matchers.{lookup_label}
use asapcollector_public.Answers.{
  gauge, exact_gauge, value_at, cons_answer, with_answers, count_le, take_first, top_counts,
  is_none_left, quantile_answers, distinct_answers, topk_answers, exact_answers, Ranked, ranked,
  ranked_of, filter_map, rank_le, topk_of,
}

-- None of the labels that rank a key is a label of the series.
pub record IsPlain (template : SketchEnvelope) : Type 0 where
  pub no_bound : lookup_label template.labels (text "bound") ≡ none
  pub no_rank : lookup_label template.labels (text "rank") ≡ none
  pub no_key : lookup_label template.labels (text "key") ≡ none

lookup_label-append :
    (k : Text) (xs ys : List KeyValue)
    → lookup_label xs k ≡ none
    → lookup_label (xs ++ ys) k ≡ lookup_label ys k
unfolding lookup_label
lookup_label-append k [] ys h = refl
lookup_label-append k (x ∷ xs) ys h = ground (arith, lookup_label-append k xs ys)

module _ (fl : FloatLib) where
  abbrev pub scaled_counts : List (Text × ℕ) → List (Text × F64)
  scaled_counts = map (λ p. (p.0, fl.of_u64 p.1))

  abbrev ranks_from : ℕ → List (Text × ℕ) → List Ranked
  ranks_from rank [] = []
  ranks_from rank ((key, count) ∷ top) =
      record { rank = rank + 1; key = key; value = fl.of_u64 count } ∷ ranks_from (rank + 1) top

  ranked_of-decimal :
      (rank : ℕ) (key : Text) (v : F64)
      → rank < 2 ^ 32
      → ranked_of (some (decimal rank)) (some key) v
        ≡ some (record { rank = rank; key = key; value = v })
  ranked_of-decimal rank key v small = rw (ranked_of, parse_u32-decimal rank small) refl

  ranked-topk :
      (template : SketchEnvelope) (rank : ℕ) (key : Text) (v : F64)
      → IsPlain template
      → rank < 2 ^ 32
      → ranked (
          exact_gauge template
            (text "asap.topk")
            ((text "key", key) ∷ (text "rank", decimal rank) ∷ [])
            v)
        ≡ some (record { rank = rank; key = key; value = v })
  unfolding ranked exact_gauge gauge lookup_label text_eq
  ranked-topk template rank key v plain small =
      rw
        (
          lookup_label-append (text "bound") template.labels _ plain.no_bound,
          lookup_label-append (text "rank") template.labels _ plain.no_rank,
          lookup_label-append (text "key") template.labels _ plain.no_key,
        )
        (ranked_of-decimal rank key v small)

  -- An answer of another metric ranks nothing.
  ranked_other :
      (template : SketchEnvelope) (metric method : Text) (extra : List (Text × Text)) (v : F64)
      → text_eq metric (text "asap.topk") ≡ false
      → ranked (gauge template metric method extra v) ≡ none
  unfolding ranked gauge
  ranked_other template metric method extra v h = rw h refl

  filter_map-append :
      (xs ys : List SketchEnvelope)
      → filter_map ranked (xs ++ ys) ≡ filter_map ranked xs ++ filter_map ranked ys
  filter_map-append [] ys = refl
  filter_map-append (x ∷ xs) ys = elim (Option-cases (ranked x)) [
    | inl e ↦ rw (filter_map, e) (filter_map-append xs ys)
    | inr (r, e) ↦ rw (filter_map, e) (ap (λ rs. r ∷ rs) (filter_map-append xs ys))
  ]

  filter_map-topk :
      (template : SketchEnvelope) (rank : ℕ) (top : List (Text × ℕ))
      → IsPlain template
      → rank + length top < 2 ^ 32
      → filter_map ranked (topk_answers fl template rank top) ≡ ranks_from rank top
  unfolding topk_answers
  filter_map-topk template rank [] plain small = refl
  filter_map-topk template rank ((key, count) ∷ top) plain small =
      rw
        (
          filter_map,
          ranked-topk template (rank + 1) key (fl.of_u64 count) plain (omega arith),
          filter_map-topk template (rank + 1) top plain (omega arith),
        )
        refl

  filter_map-distinct :
      (template : SketchEnvelope) (counts : Assoc Text ℕ)
      → filter_map ranked (distinct_answers fl template counts) ≡ []
  unfolding distinct_answers exact_gauge text_eq
  filter_map-distinct template [] = refl
  filter_map-distinct template (c ∷ counts) =
      rw
        (
          filter_map,
          ranked_other template (text "asap.distinct") _ _ (fl.of_u64 (length (c ∷ counts))) refl,
        )
        refl

  -- The answers, if there are any, rank nothing.
  RanksNothing : Option (List SketchEnvelope) → Type 0
  RanksNothing none = Unit
  RanksNothing (some answers) = filter_map ranked answers ≡ []

  cons_answer-RanksNothing :
      (e : SketchEnvelope) (rest : Option (List SketchEnvelope))
      → ranked e ≡ none
      → RanksNothing rest
      → RanksNothing (cons_answer e rest)
  unfolding RanksNothing
  cons_answer-RanksNothing e none h k = tt
  cons_answer-RanksNothing e (some rest) h k = rw (filter_map, h) k

  at_value-RanksNothing :
      (o : Option F64) (f : F64 → Option (List SketchEnvelope))
      → ((v : F64) → RanksNothing (f v))
      → RanksNothing (elim o [ none ↦ none | some v ↦ f v ])
  unfolding RanksNothing
  at_value-RanksNothing none f h = tt
  at_value-RanksNothing (some v) f h = h v

  quantile_answers-RanksNothing :
      (template : SketchEnvelope) (values quantiles : List F64)
      → RanksNothing (quantile_answers fl template values quantiles)
  unfolding quantile_answers exact_gauge RanksNothing text_eq
  quantile_answers-RanksNothing template values [] = refl
  quantile_answers-RanksNothing template values (q ∷ quantiles) =
      at_value-RanksNothing
        (value_at (fl.round_usize (fl.mul (fl.of_u64 (length values - 1)) q)) values) _
        (λ v.
          cons_answer-RanksNothing _ (quantile_answers fl template values quantiles)
            (ranked_other template (text "asap.quantile") _ _ v refl)
            (quantile_answers-RanksNothing template values quantiles))

  -- The ranks are ascending already, so sorting by them changes nothing.
  sort_insert-ranks :
      (r : Ranked) (rank : ℕ) (top : List (Text × ℕ))
      → r.rank ≤ rank
      → sort_insert rank_le r (ranks_from rank top) ≡ r ∷ ranks_from rank top
  unfolding sort_insert
  sort_insert-ranks r rank [] h = refl
  sort_insert-ranks r rank (p ∷ top) h = ground arith

  sort-ranks :
      (rank : ℕ) (top : List (Text × ℕ)) → sort rank_le (ranks_from rank top) ≡ ranks_from rank top
  unfolding sort
  sort-ranks rank [] = refl
  sort-ranks rank (p ∷ top) =
      rw (sort-ranks (rank + 1) top) (sort_insert-ranks _ (rank + 1) top (omega arith))

  map-ranks :
      (rank : ℕ) (top : List (Text × ℕ))
      → map (λ r. (r.key, r.value)) (ranks_from rank top) ≡ scaled_counts top
  map-ranks rank [] = refl
  map-ranks rank (p ∷ top) = rw (map-ranks (rank + 1) top) refl

  length-take_first : {A : Type 0} (k : ℕ) (xs : List A) → length (take_first k xs) ≤ k
  length-take_first zero xs = omega arith
  length-take_first (suc k) [] = omega arith
  length-take_first (suc k) (x ∷ xs) = omega (arith, length-take_first k xs)

  -- The top keys that the answers name, once they are there.
  RanksTop : ℕ → Assoc Text ℕ → Option (List SketchEnvelope) → Type 0
  RanksTop k counts none = Unit
  RanksTop k counts (some answers) = topk_of answers ≡ scaled_counts (top_counts k counts)

  with_answers-RanksTop :
      (template : SketchEnvelope) (front : SketchEnvelope) (middle : Option (List SketchEnvelope))
      (counts : Assoc Text ℕ) (k : ℕ)
      → IsPlain template
      → k < 2 ^ 32
      → ranked front ≡ none
      → RanksNothing middle
      → RanksTop k counts (
          with_answers (front ∷ []) middle (
            distinct_answers fl template counts
            ++ topk_answers fl template 0 (top_counts k counts)))
  unfolding RanksTop RanksNothing topk_of top_counts
  with_answers-RanksTop template front none counts k plain small h m = tt
  with_answers-RanksTop template front (some middle) counts k plain small h m =
      let top = top_counts k counts in
      let short : 0 + length top < 2 ^ 32 =
        omega (arith, length-take_first k (sort count_le counts)) in
      rw
        (
          filter_map,
          h,
          filter_map-append middle _,
          m,
          filter_map-append (distinct_answers fl template counts) (topk_answers fl template 0 top),
          filter_map-distinct template counts,
          filter_map-topk template 0 top plain short,
          sort-ranks 0 top,
        )
        (map-ranks 0 top)

  points_ranks_nothing :
      (template : SketchEnvelope) (points : F64)
      → ranked (gauge template (text "asap.points") (text "exact") [] points) ≡ none
  unfolding text_eq
  points_ranks_nothing template points =
      ranked_other template (text "asap.points") (text "exact") [] points refl

  topk_of-top_counts :
      (template : SketchEnvelope) (window : ExactWindow) (quantiles : List F64) (k : ℕ)
      (answers : List SketchEnvelope)
      → IsPlain template
      → k < 2 ^ 32
      → (exact_answers fl template window quantiles k).0 ≡ some answers
      → topk_of answers ≡ scaled_counts (top_counts k window.counts)
  unfolding exact_answers RanksTop RanksNothing
  topk_of-top_counts template window quantiles k answers plain small given =
      let values = sort total_le window.values in
      let middle =
        if is_none_left values then some [] else quantile_answers fl template values quantiles in
      let nothing : RanksNothing middle = elim (Bool-cases (is_none_left values)) [
        | inl e ↦
            subst
              (λ b.
                RanksNothing (if b then some [] else quantile_answers fl template values quantiles))
              (sym e) refl
        | inr e ↦
            subst
              (λ b.
                RanksNothing (if b then some [] else quantile_answers fl template values quantiles))
              (sym e) (quantile_answers-RanksNothing template values quantiles)
      ] in
      subst (RanksTop k window.counts) given (
        with_answers-RanksTop template _ middle window.counts k plain small
          (points_ranks_nothing template (fl.of_u64 window.points)) nothing)

  -- If the exact answers of a window do not panic, then the top keys read back from them are `k` keys
  -- of the window, or all if it has fewer, each with its count, in the order of their ranks, and each
  -- of them ranks above every key that is left out. A key ranks above another if its count is larger,
  -- or if the counts are equal and it is not the later one in the order of the keys. The series has
  -- no label `bound`, `rank` or `key` of its own, and `k` is a number of 32 bits.
  pub topk_of-exact_answers :
      (template : SketchEnvelope) (window : ExactWindow) (quantiles : List F64) (k : ℕ)
      (answers : List SketchEnvelope)
      → IsPlain template
      → k < 2 ^ 32
      → (exact_answers fl template window quantiles k).0 ≡ some answers
      → (top : List (Text × ℕ)) × IsLargest k window.counts top
        × (topk_of answers ≡ scaled_counts top)
  topk_of-exact_answers template window quantiles k answers plain small given = (
    top_counts k window.counts,
    top_counts-IsLargest k window.counts,
    topk_of-top_counts template window quantiles k answers plain small given,
  )
