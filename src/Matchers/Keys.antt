-- ===== src/Matchers/Keys.antt =====
-- The text that `attributes_key` and `series_key` of asap-precompute-rs/src/matchers.rs write.
use mathlib.Core.List.{Perm, Permᴰ}
use mathlib.Core.List.Perm
use mathlib.Core.Logic.{∥∥₁_elim}
use mathlib.Core.List.{append_assoc, append-nil}
use mathlib.Core.Path.{subst₂}
use asapcollector_public.Common.{
  ℕ, ◌≡◌, refl, sym, ap, ◌∙◌, true, Option, none, some, List, [], ◌∷◌, ◌++◌, map, arith, All,
  All-map, subst, inl, inr, Bool-cases,
}
use asapcollector_public.Common.Text.{
  Text, text_eq_iff, text_eq_refl, text_le, text_lt, text_lt→ne, text_lt→le, text_lt_trans,
  text_le_total, text_le_antisymm, text_le_trans, decimal,
}
use asapcollector_public.Common.Sorting.{sort, sort_insert, sort-perm, IsTotalOrder}
use asapcollector_public.Envelope.{KeyValue}
use asapcollector_public.Matchers.{
  lookup_label, push_pair, is_ascending, write_all, push_found, write_listed, write_attributes_key,
  attributes_key, series_key, write_series_key,
}

-- `k=v;`
abbrev pub pair : Text → Text → Text
pair k v = (k ++ b'=' ∷ v) ++ b';' ∷ []

abbrev pub found_pair : Text → Option Text → Text
found_pair k none = []
found_pair k (some v) = pair k v

-- `k1=v1;k2=v2;` for the listed keys that have a value, in the order of the list.
pub render : List KeyValue → List Text → Text
render labels [] = []
render labels (k ∷ ks) = found_pair k (lookup_label labels k) ++ render labels ks

-- The same for all labels in turn.
unfoldable pub render_all : List KeyValue → Text
render_all [] = []
render_all (kv ∷ labels) = pair kv.key kv.value ++ render_all labels

abbrev pub label_keys : List KeyValue → List Text
label_keys = map (λ kv. kv.key)

push_pair_lem : (buf k v : Text) → push_pair buf k v ≡ buf ++ pair k v
unfolding push_pair
push_pair_lem buf k v = simp append_assoc

push_found_lem : (buf k : Text) (o : Option Text) → push_found buf k o ≡ buf ++ found_pair k o
push_found_lem buf k none = sym (append-nil buf)
push_found_lem buf k (some v) = push_pair_lem buf k v

write_listed_lem :
    (buf : Text) (labels : List KeyValue) (ks : List Text)
    → write_listed buf labels ks ≡ buf ++ render labels ks
unfolding write_listed render
write_listed_lem buf labels [] = sym (append-nil buf)
write_listed_lem buf labels (k ∷ ks) =
    write_listed_lem (push_found buf k (lookup_label labels k)) labels ks
    ∙ ap (λ b. b ++ render labels ks) (push_found_lem buf k (lookup_label labels k))
    ∙ append_assoc buf (found_pair k (lookup_label labels k)) (render labels ks)

write_all_lem :
    (buf : Text) (labels : List KeyValue) → write_all buf labels ≡ buf ++ render_all labels
unfolding write_all render_all
write_all_lem buf [] = sym (append-nil buf)
write_all_lem buf (kv ∷ labels) =
    write_all_lem (push_pair buf kv.key kv.value) labels
    ∙ ap (λ b. b ++ render_all labels) (push_pair_lem buf kv.key kv.value)
    ∙ append_assoc buf (pair kv.key kv.value) (render_all labels)

-- The first key of an ascending list is below the others.
ascending_head :
    (a : KeyValue) (rest : List KeyValue)
    → is_ascending (a ∷ rest) ≡ true
    → All (λ k. text_lt a.key k ≡ true) (label_keys rest)
ascending_head a [] h = tt
ascending_head a (b ∷ rest) h =
    let hb : text_lt a.key b.key ≡ true = ground arith in
    (
      hb,
      All-map (λ k q. text_lt_trans a.key b.key k hb q) (label_keys rest)
          (ascending_head b rest (ground arith)),
    )

ascending_tail :
    (a : KeyValue) (rest : List KeyValue)
    → is_ascending (a ∷ rest) ≡ true
    → is_ascending rest ≡ true
ascending_tail a [] h = refl
ascending_tail a (b ∷ rest) h = ground arith

-- A label is not read for other keys.
render_skip :
    (a : KeyValue) (labels : List KeyValue) (ks : List Text)
    → All (λ k. text_lt a.key k ≡ true) ks
    → render (a ∷ labels) ks ≡ render labels ks
unfolding render lookup_label
render_skip a labels [] h = refl
render_skip a labels (k ∷ ks) h = rw (text_lt→ne a.key k h.0, render_skip a labels ks h.1)

render-label_keys :
    (labels : List KeyValue)
    → is_ascending labels ≡ true
    → render labels (label_keys labels) ≡ render_all labels
unfolding render render_all lookup_label
render-label_keys [] h = refl
render-label_keys (a ∷ rest) h = rw (
  text_eq_refl a.key,
  render_skip a rest (label_keys rest) (ascending_head a rest h),
  render-label_keys rest (ascending_tail a rest h),
)

sort_insert-ascending :
    (a : KeyValue) (rest : List KeyValue)
    → is_ascending (a ∷ rest) ≡ true
    → sort_insert text_le a.key (label_keys rest) ≡ a.key ∷ label_keys rest
unfolding sort
sort_insert-ascending a [] h = refl
sort_insert-ascending a (b ∷ rest) h = rw (text_lt→le a.key b.key (ground arith))

sort-ascending :
    (labels : List KeyValue)
    → is_ascending labels ≡ true
    → sort text_le (label_keys labels) ≡ label_keys labels
unfolding sort
sort-ascending [] h = refl
sort-ascending (a ∷ rest) h =
    rw (sort-ascending rest (ascending_tail a rest h)) (sort_insert-ascending a rest h)

-- The keys that a configuration with this `aggregate_by` selects, in the order of the output.
abbrev pub selected_keys : List KeyValue → List Text → List Text
selected_keys labels [] = sort text_le (label_keys labels)
selected_keys labels (k ∷ ks) = k ∷ ks

pub write_attributes_key_lem :
    (buf : Text) (labels : List KeyValue) (aggregate_by : List Text)
    → write_attributes_key buf labels aggregate_by
      ≡ buf ++ render labels (selected_keys labels aggregate_by)
unfolding write_attributes_key
write_attributes_key_lem buf labels [] = elim (Bool-cases (is_ascending labels)) [
  | inl e ↦ rw (e, sort-ascending labels e, render-label_keys labels e) (write_all_lem buf labels)
  | inr e ↦ rw e (write_listed_lem buf labels (sort text_le (label_keys labels)))
]
write_attributes_key_lem buf labels (k ∷ ks) = write_listed_lem buf labels (k ∷ ks)

-- Both paths of `attributes_key` write `k=v;` for each selected key that has a value: for all
-- keys in sorted order if `aggregate_by` is empty, else for the listed keys in their order.
pub attributes_key_lem :
    (labels : List KeyValue) (aggregate_by : List Text)
    → attributes_key labels aggregate_by ≡ render labels (selected_keys labels aggregate_by)
unfolding attributes_key
attributes_key_lem labels aggregate_by = write_attributes_key_lem [] labels aggregate_by

pub attributes_key-ascending :
    (labels : List KeyValue)
    → is_ascending labels ≡ true
    → attributes_key labels [] ≡ render_all labels
attributes_key-ascending labels h =
    attributes_key_lem labels []
    ∙ ap (render labels) (sort-ascending labels h)
    ∙ render-label_keys labels h

pub series_key_lem :
    (agg_id : ℕ) (resource_labels labels : List KeyValue) (aggregate_by : List Text)
    → series_key agg_id resource_labels labels aggregate_by
      ≡ decimal agg_id
        ++ b'|' ∷ (attributes_key resource_labels [] ++ b'|' ∷ attributes_key labels aggregate_by)
unfolding series_key attributes_key
series_key_lem agg_id resource_labels labels aggregate_by =
    rw
      (
        write_attributes_key_lem _ labels aggregate_by,
        write_attributes_key_lem _ resource_labels [],
      )
      (simp (append_assoc, write_attributes_key_lem))

-- The key that stands in the buffer does not depend on what stood there before.
pub write_series_key_lem :
    (buf : Text) (agg_id : ℕ) (resource_labels labels : List KeyValue) (aggregate_by : List Text)
    → write_series_key buf agg_id resource_labels labels aggregate_by
      ≡ series_key agg_id resource_labels labels aggregate_by
unfolding series_key
write_series_key_lem buf agg_id resource_labels labels aggregate_by = refl

-- No label key stands twice.
abbrev pub IsDistinct : List KeyValue → Type 0
IsDistinct [] = Unit
IsDistinct (kv ∷ labels) = (lookup_label labels kv.key ≡ none) × IsDistinct labels

abbrev SameLookup : List KeyValue → List KeyValue → Type 0
SameLookup l l' = (k : Text) → lookup_label l k ≡ lookup_label l' k

abbrev Carries : List KeyValue → List KeyValue → Type 0
Carries l l' = IsDistinct l → IsDistinct l' × SameLookup l l'

Carries-cons : (a : KeyValue) (l l' : List KeyValue) → Carries l l' → Carries (a ∷ l) (a ∷ l')
unfolding lookup_label
Carries-cons a l l' c d = let (d', same) = c d.1 in ((sym (same a.key) ∙ d.0, d'), λ k. rw (same k))

Carries-swap : (a b : KeyValue) (l : List KeyValue) → Carries (a ∷ b ∷ l) (b ∷ a ∷ l)
unfolding lookup_label
Carries-swap a b l d = (
  (
    ground (arith, text_eq_iff a.key b.key, text_eq_iff b.key a.key),
    (ground (arith, text_eq_iff a.key b.key, text_eq_iff b.key a.key), d.1.1),
  ),
  λ k. ground (
    arith,
    text_eq_iff a.key b.key,
    text_eq_iff b.key a.key,
    text_eq_iff a.key k,
    text_eq_iff b.key k,
  ),
)

permᴰ-Carries : {l l' : List KeyValue} → Permᴰ l l' → Carries l l'
permᴰ-Carries Permᴰ.nil d = (tt, λ k. refl)
permᴰ-Carries (Permᴰ.cons {a} {b} {l₁} {l₂} e p) d =
    subst (λ x. Carries (a ∷ l₁) (x ∷ l₂)) e (Carries-cons a l₁ l₂ (permᴰ-Carries p)) d
permᴰ-Carries (Permᴰ.swap {a} {b} {a'} {b'} {l} e f) d =
    subst₂ (λ x y. Carries (a ∷ b ∷ l) (y ∷ x ∷ l)) e f (Carries-swap a b l) d
permᴰ-Carries (Permᴰ.trans {l₁} {l₂} {l₃} p q) d =
    let (d', same) = permᴰ-Carries p d in
    let (d'', same') = permᴰ-Carries q d' in (d'', λ k. same k ∙ same' k)

render_same : (l l' : List KeyValue) (ks : List Text) → SameLookup l l' → render l ks ≡ render l' ks
unfolding render
render_same l l' [] same = refl
render_same l l' (k ∷ ks) same = rw (same k, render_same l l' ks same)

text_order : IsTotalOrder text_le
text_order = record { total = text_le_total; antisymm = text_le_antisymm; trans = text_le_trans }

texts_set : IsSet (List Text)
texts_set = hlevel

selected_keys-perm :
    {l l' : List KeyValue} (aggregate_by : List Text)
    → Perm l l'
    → selected_keys l aggregate_by ≡ selected_keys l' aggregate_by
selected_keys-perm [] p = sort-perm text_le text_order texts_set (Perm.map _ p)
selected_keys-perm (k ∷ ks) p = refl

-- Labels with distinct keys have the same attribute key in whatever order they stand.
pub attributes_key-perm :
    (l l' : List KeyValue) (aggregate_by : List Text)
    → IsDistinct l
    → Perm l l'
    → attributes_key l aggregate_by ≡ attributes_key l' aggregate_by
attributes_key-perm l l' aggregate_by d p = ∥∥₁_elim p (hlevel) λ q.
    rw
      (
        attributes_key_lem l aggregate_by,
        attributes_key_lem l' aggregate_by,
        selected_keys-perm aggregate_by p,
      )
      (render_same l l' _ (permᴰ-Carries q d).1)
