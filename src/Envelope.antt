-- ===== src/Envelope.antt =====
-- asap-precompute-rs/src/envelope.rs, and `KeyValue` of asap-precompute-rs/src/observation.rs.
use asapcollector_public.Common.{
  ◌↔◌, sym, ap, ◌∙◌, true, ==_iff, ℕ, ◌≡◌, refl, Bool, Option, none, some, List, [], ◌∷◌, find,
  ◌==◌,
}
use asapcollector_public.Common.Text.{Text, text, text_eq}
use asapcollector_public.Float.{F64}

pub data SketchType : Type 0 where
  unspecified dd_sketch kll_sketch hll_sketch count_sketch count_min_sketch : SketchType
  count_min_sketch_with_heap exact : SketchType

pub name : SketchType → Text
name dd_sketch = text "DDSketch"
name kll_sketch = text "KLLSketch"
name hll_sketch = text "HLLSketch"
name count_sketch = text "CountSketch"
name count_min_sketch = text "CountMinSketch"
name count_min_sketch_with_heap = text "CountMinSketchWithHeap"
name exact = text "Exact"
name unspecified = text "Unspecified"

all_types : List SketchType
all_types =
    dd_sketch ∷ kll_sketch ∷ hll_sketch ∷ count_sketch ∷ count_min_sketch
    ∷ count_min_sketch_with_heap ∷ exact ∷ unspecified ∷ []

-- `or_else(|| name.is_empty().then_some(Unspecified))`
or_unspecified : Text → Option SketchType → Option SketchType
or_unspecified [] none = some unspecified
or_unspecified (c ∷ s) none = none
or_unspecified s (some t) = some t

pub from_name : Text → Option SketchType
unfolding name all_types or_unspecified
from_name s = or_unspecified s (find (λ t. text_eq (name t) s) all_types)

-- The discriminant of a variant.
abbrev index : SketchType → ℕ
index unspecified = 0
index dd_sketch = 1
index kll_sketch = 2
index hll_sketch = 3
index count_sketch = 4
index count_min_sketch = 5
index count_min_sketch_with_heap = 6
index exact = 7

-- `==` on sketch types.
abbrev pub same_type : SketchType → SketchType → Bool
same_type a b = index a == index b

kind_at : ℕ → SketchType
kind_at n = elim (find (λ t. index t == n) all_types) [ none ↦ exact | some t ↦ t ]

kind_at-index : (t : SketchType) → kind_at (index t) ≡ t
unfolding kind_at all_types
kind_at-index unspecified = refl
kind_at-index dd_sketch = refl
kind_at-index kll_sketch = refl
kind_at-index hll_sketch = refl
kind_at-index count_sketch = refl
kind_at-index count_min_sketch = refl
kind_at-index count_min_sketch_with_heap = refl
kind_at-index exact = refl

pub same_type_iff : (a b : SketchType) → (same_type a b ≡ true) ↔ (a ≡ b)
same_type_iff a b = (
  λ h. sym (kind_at-index a) ∙ ap kind_at ((==_iff (index a) (index b)).0 h) ∙ kind_at-index b,
  λ e. (==_iff (index a) (index b)).1 (ap index e),
)

pub record KeyValue : Type 0 where
  pub key : Text
  pub value : Text

pub record SketchEnvelope : Type 0 where
  pub schema_version : ℕ
  pub sketch_type : SketchType
  pub agg_id : ℕ
  pub resource_labels : List KeyValue
  pub labels : List KeyValue
  pub window_start_ms : ℕ
  pub window_end_ms : ℕ
  pub payload : List ℕ
  pub metric_name : Text
  pub count : ℕ
  -- an `i32`, as its bits
  pub aggregation_temporality : ℕ
  pub value : F64

-- An envelope whose name field is a canonical name is read back as the type that printed it.
pub from_name-name : (t : SketchType) → from_name (name t) ≡ some t
unfolding from_name text_eq
from_name-name dd_sketch = refl
from_name-name _ = refl
