-- ===== src/Matchers/Admission.antt =====
-- `matches_all` of asap-precompute-rs/src/matchers.rs, against what the matchers mean.
use asapcollector_public.Common.{
  ap, ◌≡◌, ◌≢◌, ◌↔◌, refl, true, Option, none, some, List, [], ◌∷◌, arith, All, Bool-cases, inl,
  inr,
}
use asapcollector_public.Common.Text.{Text, text_eq, text_eq_iff}
use asapcollector_public.Observation.{Observation}
use asapcollector_public.Matchers.{
  LabelMatcher, MatchOp, equal, not_equal, lookup_label, subject_value, passes, or_absent,
  matches_all,
}

-- What a matcher looks at: the metric name, where an empty one counts as missing, or a label.
abbrev pub subject : Observation → Text → Option Text
subject obs [] = elim obs.metric [ [] ↦ none | c ∷ s ↦ some (c ∷ s) ]
subject obs (c ∷ s) = lookup_label obs.labels (c ∷ s)

abbrev pub Holds : MatchOp → Text → Option Text → Type 0
Holds equal value found = found ≡ some value
Holds not_equal value found = found ≢ some value

passes_lem :
    (op : MatchOp) (value : Text) (found : Option Text)
    → (passes op value (or_absent found) ≡ true) ↔ Holds op value found
unfolding passes
passes_lem equal value none = (λ h. cc, λ h. cc)
passes_lem equal value (some v) =
    (λ h. ground (arith, text_eq_iff v value), λ h. ground (arith, text_eq_iff v value))
passes_lem not_equal value none = (λ h e. cc, λ h. refl)
passes_lem not_equal value (some v) = (
  λ h e. ground (arith, text_eq_iff v value),
  λ h. elim (Bool-cases (text_eq v value)) [
    | inl e ↦ absurd (h (ap some ((text_eq_iff v value).0 e)))
    | inr e ↦ rw e
  ],
)

-- A missing subject carries the empty text, which both operators ignore.
passes-subject :
    (m : LabelMatcher) (obs : Observation) (name metric : Text)
    → obs.metric ≡ metric
    → passes m.op m.value (subject_value obs name)
      ≡ passes m.op m.value (or_absent (subject obs name))
unfolding subject_value text_eq
passes-subject m obs [] [] e = rw e
passes-subject m obs [] (c ∷ s) e = rw e
passes-subject m obs (c ∷ s) metric e = refl

admits_lem :
    (m : LabelMatcher) (obs : Observation)
    → (passes m.op m.value (subject_value obs m.name) ≡ true)
      ↔ Holds m.op m.value (subject obs m.name)
admits_lem m obs =
    rw (passes-subject m obs m.name obs.metric refl) (passes_lem m.op m.value (subject obs m.name))

-- An observation is admitted exactly when every matcher holds of its subject, which is the metric
-- name (an empty one counts as missing) for a matcher with no name and else the first label of
-- that name: `Equal` wants the value there, `NotEqual` wants it missing or different.
pub matches_all_lem :
    (ms : List LabelMatcher) (obs : Observation)
    → (matches_all ms obs ≡ true) ↔ All (λ m. Holds m.op m.value (subject obs m.name)) ms
unfolding matches_all
matches_all_lem [] obs = (λ h. tt, λ h. refl)
matches_all_lem (m ∷ ms) obs =
    let (to, from) = matches_all_lem ms obs in
    let (now, back) = admits_lem m obs in
    elim (Bool-cases (passes m.op m.value (subject_value obs m.name))) [
      | inl e ↦ rw e (λ h. (now e, to h), λ h. from h.1)
      | inr e ↦ (λ h. cc, λ h. cc (back h.0))
    ]
