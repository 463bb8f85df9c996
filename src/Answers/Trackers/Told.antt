-- ===== src/Answers/Trackers/Told.antt =====
-- What the events of the cardinality classifier, of asap-precompute-rs/src/answers.rs, tell.
use asapcollector_public.Common.{
  ℕ, ◌≡◌, refl, sym, ap, ◌∙◌, true, Option, none, some, List, [], ◌∷◌, inl, inr, Bool-cases, ltb,
  if◌then◌else◌,
}
use asapcollector_public.Common.Text.{Text, text, text_eq, text_eq_iff}
use asapcollector_public.Common.Assoc.{lookup, text_key}
use asapcollector_public.Common.Maps.{or_default, lookup-put}
use asapcollector_public.Envelope.{KeyValue, SketchEnvelope}
use asapcollector_public.Float.{F64}
use asapcollector_public.Float.Math.{FloatLib}
use asapcollector_public.Matchers.{lookup_label}
use asapcollector_public.Answers.Trackers.{
  Event, Past, CardinalityState, CardinalityClassifier, stable, growing, identifier_like, name,
  same_state, is_state, no_past, tracker_key, baseline_of, state_of, cardinality_event,
  observe_cardinality, remember,
}

-- The arguments of one call of `observe`.
pub record Window : Type 0 where
  pub template : SketchEnvelope
  pub method : Text
  pub distinct : F64
  pub points : ℕ

abbrev named : Option CardinalityState → Option Text
named none = none
named (some s) = some (name s)

-- The name of the last state of a series.
abbrev pub last_state : CardinalityClassifier → Text → Option Text
last_state c key = named (or_default no_past (lookup key c.history)).previous

-- What a listener knows of each series, once it has read the state that an event names.
abbrev hear : Text → Option Event → (Text → Option Text) → Text → Option Text
hear key none known k = known k
hear key (some event) known k =
    if text_eq key k then lookup_label event.attributes (text "state") else known k

same_state→eq : (s t : CardinalityState) → same_state s t ≡ true → s ≡ t
same_state→eq stable stable h = refl
same_state→eq growing growing h = refl
same_state→eq identifier_like identifier_like h = refl
same_state→eq stable growing h = cc
same_state→eq stable identifier_like h = cc
same_state→eq growing stable h = cc
same_state→eq growing identifier_like h = cc
same_state→eq identifier_like stable h = cc
same_state→eq identifier_like growing h = cc

is_state→eq :
    (s : CardinalityState) (o : Option CardinalityState) → is_state s o ≡ true → o ≡ some s
is_state→eq s none h = cc
is_state→eq s (some t) h = ap some (same_state→eq t s h)

module _ (fl : FloatLib) (debug : List KeyValue → Text) where
  -- The classifier and the listener after a list of windows.
  pub listen :
      List Window
      → CardinalityClassifier
      → (Text → Option Text)
      → CardinalityClassifier × (Text → Option Text)
  listen [] c known = (c, known)
  listen (w ∷ windows) c known =
      let o = observe_cardinality fl debug w.template w.method w.distinct w.points c in
      listen windows o.2 (hear (tracker_key fl debug w.template) o.1 known)

  heard :
      (w : Window) (state : CardinalityState) (ratio : F64) (baseline : Option F64)
      → lookup_label
          (cardinality_event fl debug w.template w.method state w.distinct w.points ratio
            baseline).attributes
          (text "state")
        ≡ some (name state)
  unfolding cardinality_event lookup_label text_eq
  heard w state ratio baseline = refl

  observe-told :
      (w : Window) (c : CardinalityClassifier) (known : Text → Option Text)
      → ((k : Text) → known k ≡ last_state c k)
      → let o = observe_cardinality fl debug w.template w.method w.distinct w.points c in
        (k : Text) → hear (tracker_key fl debug w.template) o.1 known k ≡ last_state o.2 k
  unfolding observe_cardinality
  observe-told w c known agrees k =
      let key = tracker_key fl debug w.template in
      let past = or_default no_past (lookup key c.history) in
      let baseline = baseline_of fl debug past.window in
      let ratio = fl.div w.distinct (fl.of_u64 w.points) in
      let state = state_of fl debug c.rules ratio w.distinct baseline in
      let next : Past = record {
        window = remember c.rules.baseline_windows w.distinct past.window;
        previous = some state;
      } in
      elim (Bool-cases (ltb w.points c.rules.min_points)) [
        | inl few ↦ simp few (agrees k)
        | inr enough ↦ elim (Bool-cases (text_eq key k)) [
          | inl same ↦ elim (Bool-cases (is_state state past.previous)) [
            | inl kept ↦
                simp (enough, kept, lookup-put key k next c.history, same)
                  (agrees k
                    ∙ ap (λ i. last_state c i) (sym ((text_eq_iff key k).0 same))
                    ∙ ap named (is_state→eq state past.previous kept))
            | inr changed ↦
                simp (enough, changed, lookup-put key k next c.history, same)
                  (heard w state ratio baseline)
          ]
          | inr differ ↦ elim (Bool-cases (is_state state past.previous)) [
            | inl kept ↦ simp (enough, kept, lookup-put key k next c.history, differ) (agrees k)
            | inr changed ↦
                simp (enough, changed, lookup-put key k next c.history, differ) (agrees k)
          ]
        ]
      ]

  -- A listener that reads only the events, and for each series keeps the state that its last event
  -- names, knows the last state of every series after any number of windows, if it does so before:
  -- the classifier leaves out no change.
  pub listen_lem :
      (windows : List Window) (c : CardinalityClassifier) (known : Text → Option Text)
      → ((k : Text) → known k ≡ last_state c k)
      → (k : Text) → let o = listen windows c known in o.1 k ≡ last_state o.0 k
  unfolding listen
  listen_lem [] c known agrees k = agrees k
  listen_lem (w ∷ windows) c known agrees k =
      listen_lem windows _ _ (observe-told w c known agrees) k
