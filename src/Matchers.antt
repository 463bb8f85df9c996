-- ===== src/Matchers.antt =====
-- asap-precompute-rs/src/matchers.rs: label matchers, and the canonical series keys.
pub mod Keys
pub mod Injective
pub mod Admission
pub mod Split
use asapcollector_public.Common.{
  ℕ, ◌≡◌, refl, Bool, true, false, ◌&&◌, ◌||◌, not, Option, none, some, List, [], ◌∷◌, ◌++◌, map,
  any, if◌then◌else◌,
}
use asapcollector_public.Common.Text.{Text, text, text_eq, text_le, text_lt, decimal}
use asapcollector_public.Common.Sorting.{sort}
use asapcollector_public.Envelope.{KeyValue}
use asapcollector_public.Error.{Result, ok, err}
use asapcollector_public.Observation.{Observation, ObservationValue, ObservationValueKind}

pub data MatchOp : Type 0 where
  equal not_equal : MatchOp

pub record LabelMatcher : Type 0 where
  pub name : Text
  pub value : Text
  pub op : MatchOp

-- The first value of `key`.
unfoldable pub lookup_label : List KeyValue → Text → Option Text
lookup_label [] key = none
lookup_label (kv ∷ labels) key =
    if text_eq kv.key key then some kv.value else lookup_label labels key

-- `map(|v| (v, true)).unwrap_or(("", false))`
abbrev or_absent : Option Text → Text × Bool
or_absent none = ([], false)
or_absent (some v) = (v, true)

-- The metric name for a matcher with no name, else the label's value; and whether it is there.
subject_value : Observation → Text → Text × Bool
subject_value obs [] = (obs.metric, not (text_eq obs.metric []))
subject_value obs (c ∷ s) = or_absent (lookup_label obs.labels (c ∷ s))

-- One round of the loop: `false` is the early return.
passes : MatchOp → Text → Text × Bool → Bool
passes equal value (val, present) = not (not present || not (text_eq val value))
passes not_equal value (val, present) = not (present && text_eq val value)

unfoldable pub matches_all : List LabelMatcher → Observation → Bool
unfolding subject_value passes
matches_all [] obs = true
matches_all (m ∷ matchers) obs =
    if passes m.op m.value (subject_value obs m.name) then matches_all matchers obs else false

-- `push_str(k); push('='); push_str(v); push(';')`
push_pair : Text → Text → Text → Text
push_pair buf k v = ((buf ++ k) ++ b'=' ∷ v) ++ b';' ∷ []

-- `labels.windows(2).all(|w| w[0].key < w[1].key)`
abbrev pub is_ascending : List KeyValue → Bool
is_ascending [] = true
is_ascending (a ∷ []) = true
is_ascending (a ∷ b ∷ rest) = text_lt a.key b.key && is_ascending (b ∷ rest)

-- The walk of the fast path.
write_all : Text → List KeyValue → Text
unfolding push_pair
write_all buf [] = buf
write_all buf (kv ∷ labels) = write_all (push_pair buf kv.key kv.value) labels

abbrev push_found : Text → Text → Option Text → Text
push_found buf k none = buf
push_found buf k (some v) = push_pair buf k v

-- The walk over listed keys, which skips a missing key.
write_listed : Text → List KeyValue → List Text → Text
unfolding push_pair
write_listed buf labels [] = buf
write_listed buf labels (k ∷ ks) = write_listed (push_found buf k (lookup_label labels k)) labels ks

unfoldable pub write_attributes_key : Text → List KeyValue → List Text → Text
unfolding write_all write_listed
write_attributes_key buf labels [] =
    if is_ascending labels
    then write_all buf labels
    else write_listed buf labels (sort text_le (map (λ kv. kv.key) labels))
write_attributes_key buf labels (k ∷ ks) = write_listed buf labels (k ∷ ks)

unfoldable pub attributes_key : List KeyValue → List Text → Text
unfolding write_attributes_key
attributes_key labels aggregate_by = write_attributes_key [] labels aggregate_by

-- The stale contents of the buffer are cleared first.
unfoldable pub write_series_key : Text → ℕ → List KeyValue → List KeyValue → List Text → Text
unfolding write_attributes_key
write_series_key buf agg_id resource_labels labels aggregate_by =
    let cleared : Text = [] in
    let id : Text = cleared ++ decimal agg_id in
    let scoped : Text = write_attributes_key (id ++ b'|' ∷ []) resource_labels [] in
    write_attributes_key (scoped ++ b'|' ∷ []) labels aggregate_by

unfoldable pub series_key : ℕ → List KeyValue → List KeyValue → List Text → Text
unfolding write_series_key
series_key agg_id resource_labels labels aggregate_by =
    write_series_key [] agg_id resource_labels labels aggregate_by

listed_attrs : List KeyValue → List Text → List KeyValue
listed_attrs labels [] = []
listed_attrs labels (k ∷ ks) = elim (lookup_label labels k) [
  | none ↦ listed_attrs labels ks
  | some v ↦ record { key = k; value = v } ∷ listed_attrs labels ks
]

unfoldable pub series_attrs : List KeyValue → List Text → List KeyValue
unfolding listed_attrs
series_attrs labels [] = labels
series_attrs labels (k ∷ ks) = listed_attrs labels (k ∷ ks)

abbrev pub attribute_key_label : Text
attribute_key_label = text "attribute.key"

-- The scratch observation as it is handed to the callback for one attribute.
fill_scratch : Observation → KeyValue → Observation → Observation
fill_scratch obs kv scratch = record {
  timestamp_ms = obs.timestamp_ms;
  metric = obs.metric;
  resource_labels = obs.resource_labels;
  labels = record { key = attribute_key_label; value = kv.key } ∷ [];
  value = record (scratch.value) {
    kind = ObservationValueKind.bytes;
    bytes = kv.value;
    envelope = none;
  };
}

abbrev is_selected : List Text → KeyValue → Bool
is_selected keys kv = any (λ k. text_eq k (text "*")) keys || any (λ k. text_eq k kv.key) keys

-- `call?; rest`
abbrev unless_err {ℓ} :
    {St : Type ℓ} → Result (Unit {0}) × St → (St → Result (Unit {0}) × St) → Result (Unit {0}) × St
unless_err (ok _, st) rest = rest st
unless_err (err e, st) rest = (err e, st)

module _ {St : Type 0} (f : Observation → St → Result (Unit {0}) × St) where
  -- The loop over the labels; an error of the callback ends it.
  pub per_attribute_from :
      Observation → List Text → List KeyValue → Observation → St → Result (Unit {0}) × St
  unfolding fill_scratch
  per_attribute_from obs keys [] scratch st = (ok tt, st)
  per_attribute_from obs keys (kv ∷ labels) scratch st =
      let next = fill_scratch obs kv scratch in
      let skipped = per_attribute_from obs keys labels scratch st in
      let called = unless_err (f next st) (per_attribute_from obs keys labels next) in
      if is_selected keys kv then called else skipped

  unfoldable pub per_attribute : Observation → List Text → Observation → St → Result (Unit {0}) × St
  unfolding per_attribute_from
  per_attribute obs keys scratch st = per_attribute_from obs keys obs.labels scratch st
