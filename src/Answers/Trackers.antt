-- ===== src/Answers/Trackers.antt =====
-- The trackers of asap-precompute-rs/src/answers.rs: drift of a distribution, new heavy hitters, and
-- the cardinality of attributes. The debug format of labels is a parameter, as the arithmetic is.
pub mod Told
pub mod Novel
use asapcollector_public.Common.{
  ℕ, suc, ◌+◌, Bool, true, false, ◌&&◌, ◌||◌, not, Option, none, some, List, [], ◌∷◌, ◌++◌, map,
  any, length, ltb, leb, ◌==◌, if◌then◌else◌,
}
use asapcollector_public.Common.Text.{Text, text, text_eq, decimal}
use asapcollector_public.Common.Assoc.{Assoc, lookup, text_key}
use asapcollector_public.Common.Maps.{put, or_default}
use asapcollector_public.Envelope.{KeyValue, SketchEnvelope}
use asapcollector_public.Float.{F64, float_lt, float_le, zero_f64, one_f64}
use asapcollector_public.Float.Math.{FloatLib, abs}
use asapcollector_public.Matchers.{lookup_label}
use asapcollector_public.Answers.{gauge}

pub record Event : Type 0 where
  pub window_end_ms : ℕ
  pub method : Text
  pub kind : Text
  pub attributes : List KeyValue
  pub body : Text

abbrev kv : Text → Text → KeyValue
kv key value = record { key = key; value = value }

pub record DriftRules : Type 0 where
  pub baseline_windows : ℕ
  pub ks_threshold : F64
  pub min_points : ℕ

pub record DriftTracker : Type 0 where
  pub rules : DriftRules
  pub drifting : Assoc Text Bool

pub data CardinalityState : Type 0 where
  stable growing identifier_like : CardinalityState

unfoldable pub name : CardinalityState → Text
name stable = text "stable"
name growing = text "growing"
name identifier_like = text "identifier-like"

-- `==` of states.
abbrev pub same_state : CardinalityState → CardinalityState → Bool
same_state stable stable = true
same_state growing growing = true
same_state identifier_like identifier_like = true
same_state _ _ = false

abbrev is_state : CardinalityState → Option CardinalityState → Bool
is_state s none = false
is_state s (some t) = same_state t s

pub record CardinalityRules : Type 0 where
  pub baseline_windows : ℕ
  pub identifier_ratio : F64
  pub growth : F64
  pub min_points : ℕ

-- The recent counts of a series, and its last state.
pub record Past : Type 0 where
  pub window : List F64
  pub previous : Option CardinalityState

abbrev pub no_past : Past
no_past = record { window = []; previous = none }

pub record CardinalityClassifier : Type 0 where
  pub rules : CardinalityRules
  pub history : Assoc Text Past

pub record NoveltyTracker : Type 0 where
  pub baseline_windows : ℕ
  pub history : Assoc Text (List (List Text))

abbrev tail : {A : Type 0} → List A → List A
tail [] = []
tail (x ∷ xs) = xs

-- `push_back(x)`, then `pop_front()` if there are more than `limit`.
unfoldable pub remember : {A : Type 0} → ℕ → A → List A → List A
remember limit x window =
    if ltb limit (length (window ++ x ∷ [])) then tail (window ++ x ∷ []) else window ++ x ∷ []

abbrev bool_text : Bool → Text
bool_text true = text "true"
bool_text false = text "false"

-- `iter().map(|kv| format!("{}={}", …)).join(",")`
unfoldable pub join : List KeyValue → Text
join [] = []
join (kv ∷ []) = kv.key ++ b'=' ∷ kv.value
join (kv ∷ next ∷ rest) = (kv.key ++ b'=' ∷ kv.value) ++ b',' ∷ join (next ∷ rest)

-- The attribute that a series is about, or nothing.
abbrev attribute_of : SketchEnvelope → Text
attribute_of template = or_default [] (lookup_label template.labels (text "attribute.key"))

module _ (fl : FloatLib) (debug : List KeyValue → Text) where
  -- The fold of `ks_distance`, from the largest gap so far.
  unfoldable pub largest_gap : (F64 → F64) → (F64 → F64) → F64 → List F64 → F64
  largest_gap current baseline largest [] = largest
  largest_gap current baseline largest (x ∷ xs) =
      largest_gap current baseline (fl.larger largest (abs (fl.sub (current x) (baseline x)))) xs

  unfoldable pub ks_distance : (F64 → F64) → (F64 → F64) → List F64 → F64
  ks_distance current baseline xs = largest_gap current baseline zero_f64 xs

  -- `format!("{}|{:?}", …)`
  unfoldable pub tracker_key : SketchEnvelope → Text
  tracker_key template = template.metric_name ++ b'|' ∷ debug template.labels

  abbrev flag : Bool → F64
  flag true = one_f64
  flag false = zero_f64

  unfoldable pub drift_event : SketchEnvelope → Text → Bool → F64 → F64 → F64 → Event
  drift_event template method drift ks baseline_p50 current_p50 =
      let series = join template.labels in
      record {
        window_end_ms = template.window_end_ms;
        method = method;
        kind = text "drift";
        attributes =
            template.labels
            ++ kv (text "drift") (bool_text drift) ∷ kv (text "ks") (fl.fixed 3 ks) ∷ [];
        body =
            template.metric_name
            ++ text " {"
            ++ series
            ++ (if drift
                then text "} drifted from its baseline: KS distance "
                  ++ fl.fixed 3 ks
                  ++ text ", median "
                  ++ fl.fixed 1 baseline_p50
                  ++ text " -> "
                  ++ fl.fixed 1 current_p50
                else text "} is back within its baseline: KS distance " ++ fl.fixed 3 ks);
      }

  unfoldable pub observe_drift :
      SketchEnvelope
      → Text
      → F64
      → F64
      → F64
      → DriftTracker
      → List SketchEnvelope × Option Event × DriftTracker
  observe_drift template method ks baseline_p50 current_p50 t =
      let drift = float_lt t.rules.ks_threshold ks in
      let key = tracker_key template in
      let was = or_default false (lookup key t.drifting) in
      (
        gauge template (text "asap.drift.ks") method [] ks
            ∷ gauge template (text "asap.drift") method [] (flag drift)
            ∷ [],
        if (was && not drift) || (not was && drift)
            then some (drift_event template method drift ks baseline_p50 current_p50)
            else none,
        record t { drifting = put key drift t.drifting },
      )

  unfoldable pub novelty_event : SketchEnvelope → Text → ℕ → ℕ → ℕ → Text → F64 → Event
  novelty_event template method tops windows rank key count =
      let attribute = attribute_of template in
      record {
        window_end_ms = template.window_end_ms;
        method = method;
        kind = text "novelty";
        attributes =
            kv (text "attribute.key") attribute
            ∷ kv (text "key") key
            ∷ kv (text "rank") (decimal (rank + 1))
            ∷ kv (text "count") (fl.fixed 0 count)
            ∷ [];
        body =
            text "new heavy hitter "
            ++ attribute
            ++ text "="
            ++ key
            ++ text ": rank "
            ++ decimal (rank + 1)
            ++ text " with "
            ++ fl.fixed 0 count
            ++ text " points, absent from the top "
            ++ decimal tops
            ++ text " of the previous "
            ++ decimal windows
            ++ text " windows";
      }

  -- Whether a key was a top key of one of the windows.
  abbrev pub was_seen : Text → List (List Text) → Bool
  was_seen key = any (any (λ k. text_eq k key))

  -- The loop over the top keys, from the rank on.
  unfoldable pub new_hitters :
      SketchEnvelope
      → Text
      → ℕ
      → List (List Text)
      → ℕ
      → List (Text × F64)
      → List (SketchEnvelope × Event)
  new_hitters template method tops window rank [] = []
  new_hitters template method tops window rank ((key, count) ∷ top) =
      let rest = new_hitters template method tops window (rank + 1) top in
      if was_seen key window
      then rest
      else (
        gauge template (text "asap.topk.new") method ((text "key", key) ∷ []) count,
        novelty_event template method tops (length window) rank key count,
      )
        ∷ rest

  unfoldable pub observe_novelty :
      SketchEnvelope
      → Text
      → List (Text × F64)
      → NoveltyTracker
      → List (SketchEnvelope × Event) × NoveltyTracker
  observe_novelty template method top t =
      let key = tracker_key template in
      let window = or_default [] (lookup key t.history) in
      (
        if leb 3 (length window) then new_hitters template method (length top) window 0 top else [],
        record t {
          history = put key (remember t.baseline_windows (map (λ p. p.0) top) window) t.history;
        },
      )

  -- The mean of the remembered counts, once there are three.
  unfoldable pub baseline_of : List F64 → Option F64
  baseline_of window =
      if leb 3 (length window)
      then some (fl.div (fl.sum window) (fl.of_u64 (length window)))
      else none

  abbrev has_grown : CardinalityRules → F64 → Option F64 → Bool
  has_grown rules distinct none = false
  has_grown rules distinct (some b) = float_lt (fl.mul b (fl.add one_f64 rules.growth)) distinct

  unfoldable pub state_of : CardinalityRules → F64 → F64 → Option F64 → CardinalityState
  state_of rules ratio distinct baseline =
      if float_le rules.identifier_ratio ratio
      then identifier_like
      else if has_grown rules distinct baseline
      then growing
      else stable

  abbrev baseline_text : Option F64 → Text
  baseline_text none = []
  baseline_text (some b) = text ", baseline " ++ fl.fixed 0 b

  unfoldable pub cardinality_event :
      SketchEnvelope → Text → CardinalityState → F64 → ℕ → F64 → Option F64 → Event
  cardinality_event template method state distinct points ratio baseline =
      let attribute = attribute_of template in
      record {
        window_end_ms = template.window_end_ms;
        method = method;
        kind = text "cardinality";
        attributes =
            kv (text "attribute.key") attribute
            ∷ kv (text "state") (name state)
            ∷ kv (text "distinct") (fl.fixed 0 distinct)
            ∷ kv (text "points") (decimal points)
            ∷ [];
        body =
            text "attribute "
            ++ attribute
            ++ text " of "
            ++ template.metric_name
            ++ text " is "
            ++ name state
            ++ text ": "
            ++ fl.fixed 0 distinct
            ++ text " distinct values in "
            ++ decimal points
            ++ text " points ("
            ++ fl.fixed 0 (fl.mul ratio 0x4059000000000000)
            ++ text "%)"
            ++ baseline_text baseline;
      }

  abbrev state_gauge : SketchEnvelope → Text → CardinalityState → CardinalityState → SketchEnvelope
  state_gauge template method state s =
      gauge template (text "asap.cardinality.state") method ((text "state", name s) ∷ [])
        (flag (same_state s state))

  unfoldable pub observe_cardinality :
      SketchEnvelope
      → Text
      → F64
      → ℕ
      → CardinalityClassifier
      → List SketchEnvelope × Option Event × CardinalityClassifier
  observe_cardinality template method distinct points c =
      let key = tracker_key template in
      let past = or_default no_past (lookup key c.history) in
      let baseline = baseline_of past.window in
      let ratio = fl.div distinct (fl.of_u64 points) in
      let state = state_of c.rules ratio distinct baseline in
      let window = remember c.rules.baseline_windows distinct past.window in
      if ltb points c.rules.min_points then ([], none, c) else (
        gauge template (text "asap.distinct.ratio") method [] ratio
            ∷ map (state_gauge template method state) (stable ∷ growing ∷ identifier_like ∷ []),
        if is_state state past.previous
            then none
            else some (cardinality_event template method state distinct points ratio baseline),
        record c {
          history = put key (record { window = window; previous = some state }) c.history;
        },
      )
