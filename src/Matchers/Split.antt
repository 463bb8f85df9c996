-- ===== src/Matchers/Split.antt =====
-- The calls that `per_attribute` of asap-precompute-rs/src/matchers.rs makes.
use asapcollector_public.Common.{
  ◌≡◌, ◌⊎◌, refl, ap, map, true, none, List, [], ◌∷◌, any, Bool-cases, inl, inr, arith,
}
use mathlib.Core.Path.{fun_ext}
use asapcollector_public.Common.Text.{Text, text, text_eq, text_eq_iff}
use asapcollector_public.Envelope.{KeyValue}
use asapcollector_public.Error.{Result, ok}
use asapcollector_public.Observation.{Observation, ObservationValueKind}
use asapcollector_public.Matchers.{
  is_selected, unless_err, fill_scratch, attribute_key_label, per_attribute, per_attribute_from,
}

-- The observation for one attribute: its text as bytes, and the numbers of the scratch, which
-- `Bytes` leaves without meaning.
abbrev pub attribute_observation : Observation → Observation → KeyValue → Observation
attribute_observation obs scratch kv = record {
  timestamp_ms = obs.timestamp_ms;
  metric = obs.metric;
  resource_labels = obs.resource_labels;
  labels = record { key = attribute_key_label; value = kv.key } ∷ [];
  value = record {
    kind = ObservationValueKind.bytes;
    float = scratch.value.float;
    hash = scratch.value.hash;
    bytes = kv.value;
    envelope = none;
  };
}

-- The text stands in the list.
abbrev pub IsListed : Text → List Text → Type 0
IsListed t [] = ⊥
IsListed t (k ∷ keys) = (k ≡ t) ⊎ IsListed t keys

any-IsListed : (t : Text) (keys : List Text) → any (λ k. text_eq k t) keys ≡ true → IsListed t keys
any-IsListed t [] h = absurd (ground arith)
any-IsListed t (k ∷ keys) h = elim (Bool-cases (text_eq k t)) [
  | inl e ↦ inl ((text_eq_iff k t).0 e)
  | inr e ↦ inr (any-IsListed t keys (rw e at h))
]

IsListed-any : (t : Text) (keys : List Text) → IsListed t keys → any (λ k. text_eq k t) keys ≡ true
IsListed-any t [] h = absurd h
IsListed-any t (k ∷ keys) (inl e) =
    let same : text_eq k t ≡ true = (text_eq_iff k t).1 e in rw same refl
IsListed-any t (k ∷ keys) (inr later) = elim (Bool-cases (text_eq k t)) [
  | inl e ↦ rw e refl
  | inr e ↦ rw e (IsListed-any t keys later)
]

-- A label is selected if its key is listed, or `*` is.
abbrev pub IsSelected : List Text → KeyValue → Type 0
IsSelected keys kv = IsListed (text "*") keys ⊎ IsListed kv.key keys

-- The second list has the selected labels of the first, in their order.
pub data IsSelection (keys : List Text) : List KeyValue → List KeyValue → Type 0 where
  done : IsSelection keys [] []
  takes :
      (kv : KeyValue) (labels picked : List KeyValue)
      → IsSelected keys kv
      → IsSelection keys labels picked
      → IsSelection keys (kv ∷ labels) (kv ∷ picked)
  skips :
      (kv : KeyValue) (labels picked : List KeyValue)
      → ¬ IsSelected keys kv
      → IsSelection keys labels picked
      → IsSelection keys (kv ∷ labels) picked

is_selected-IsSelected :
    (keys : List Text) (kv : KeyValue) → is_selected keys kv ≡ true → IsSelected keys kv
is_selected-IsSelected keys kv h = elim (Bool-cases (any (λ k. text_eq k (text "*")) keys)) [
  | inl e ↦ inl (any-IsListed (text "*") keys e)
  | inr e ↦ inr (any-IsListed kv.key keys (rw e at h))
]

IsSelected-is_selected :
    (keys : List Text) (kv : KeyValue) → IsSelected keys kv → is_selected keys kv ≡ true
IsSelected-is_selected keys kv (inl all) = rw (IsListed-any (text "*") keys all) refl
IsSelected-is_selected keys kv (inr one) =
    elim (Bool-cases (any (λ k. text_eq k (text "*")) keys)) [
      | inl e ↦ rw e refl
      | inr e ↦ rw (e, IsListed-any kv.key keys one) refl
    ]

selection :
    (keys : List Text) (labels : List KeyValue)
    → (picked : List KeyValue) × IsSelection keys labels picked
selection keys [] = ([], done)
selection keys (kv ∷ labels) =
    let (picked, rest) = selection keys labels in
    elim (Bool-cases (is_selected keys kv)) [
      | inl e ↦ (kv ∷ picked, takes kv labels picked (is_selected-IsSelected keys kv e) rest)
      | inr e ↦ (
        picked,
        skips kv labels picked (λ h. ground (arith, IsSelected-is_selected keys kv h, e)) rest,
      )
    ]

module _ {St : Type 0} (f : Observation → St → Result (Unit {0}) × St) where
  -- One call after the other, up to the first error.
  abbrev pub call_each : List Observation → St → Result (Unit {0}) × St
  call_each [] st = (ok tt, st)
  call_each (o ∷ os) st = unless_err (f o st) (call_each os)

  per_attribute_from_lem :
      (obs : Observation) (keys : List Text) (labels picked : List KeyValue) (scratch : Observation)
      (st : St)
      → IsSelection keys labels picked
      → per_attribute_from f obs keys labels scratch st
        ≡ call_each (map (attribute_observation obs scratch) picked) st
  unfolding per_attribute_from fill_scratch
  per_attribute_from_lem obs keys _ _ scratch st done = refl
  per_attribute_from_lem obs keys _ _ scratch st (takes kv labels picked chosen rest) =
      rw (IsSelected-is_selected keys kv chosen) (
        ap (unless_err (f (attribute_observation obs scratch kv) st)) (
          fun_ext (λ next.
            per_attribute_from_lem obs keys labels picked (fill_scratch obs kv scratch) next rest)))
  per_attribute_from_lem obs keys _ _ scratch st (skips kv labels picked not_chosen rest) =
      elim (Bool-cases (is_selected keys kv)) [
        | inl e ↦ absurd (not_chosen (is_selected-IsSelected keys kv e))
        | inr e ↦ rw e (per_attribute_from_lem obs keys labels picked scratch st rest)
      ]

  -- The callback sees, in the order of the labels and up to its first error, the observation of
  -- each label that is selected, by its key or by `*`, and no other. That observation has the fields
  -- of the attribute, and the float and the hash that the scratch had at first.
  pub per_attribute_lem :
      (obs scratch : Observation) (keys : List Text) (st : St)
      → (picked : List KeyValue) × IsSelection keys obs.labels picked
        × (per_attribute f obs keys scratch st
            ≡ call_each (map (attribute_observation obs scratch) picked) st)
  unfolding per_attribute
  per_attribute_lem obs scratch keys st =
      let (picked, chosen) = selection keys obs.labels in
      (picked, chosen, per_attribute_from_lem obs keys obs.labels picked scratch st chosen)
