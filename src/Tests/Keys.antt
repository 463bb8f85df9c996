-- ===== src/Tests/Keys.antt =====
-- The theorems on matchers and series keys, at short labels.
use mathlib.Core.List.Perm
use asapcollector_public.Common.{ℕ, ◌≡◌, ◌↔◌, refl, true, List, [], ◌∷◌, map, arith, All}
use asapcollector_public.Common.Text.{Text, text, text_eq}
use asapcollector_public.Envelope.{KeyValue}
use asapcollector_public.Error.{Result, ok}
use asapcollector_public.Observation.{Observation}
use asapcollector_public.Matchers.{
  LabelMatcher, equal, not_equal, matches_all, attributes_key, per_attribute, lookup_label,
}
use asapcollector_public.Matchers.Keys.{
  selected_keys, render, attributes_key_lem, attributes_key-perm,
}
use asapcollector_public.Matchers.Injective.{IsPlain, series_key_injective}
use asapcollector_public.Matchers.Admission.{Holds, subject, matches_all_lem}
use asapcollector_public.Matchers.Split.{
  call_each, attribute_observation, IsSelection, per_attribute_lem,
}
use asapcollector_public.Tests.Fixtures.{observation}

abbrev host : KeyValue
host = record { key = text "host"; value = text "a" }

abbrev zone : KeyValue
zone = record { key = text "zone"; value = text "z" }

attributes_key_lem_example :
    attributes_key (zone ∷ host ∷ []) []
    ≡ render (zone ∷ host ∷ []) (selected_keys (zone ∷ host ∷ []) [])
attributes_key_lem_example = attributes_key_lem (zone ∷ host ∷ []) []

attributes_key-perm_example :
    attributes_key (zone ∷ host ∷ []) [] ≡ attributes_key (host ∷ zone ∷ []) []
unfolding lookup_label text_eq
attributes_key-perm_example =
    attributes_key-perm (zone ∷ host ∷ []) (host ∷ zone ∷ []) [] (refl, (refl, tt))
      (Perm.swap host zone [])

abbrev matchers : List LabelMatcher
matchers =
    record { name = text "host"; value = text "a"; op = equal }
    ∷ record { name = []; value = text "errors"; op = not_equal }
    ∷ []

matches_all_lem_example :
    (matches_all matchers observation ≡ true)
    ↔ All (λ m. Holds m.op m.value (subject observation m.name)) matchers
matches_all_lem_example = matches_all_lem matchers observation

abbrev id_from : ℕ → ℕ
id_from n = n

abbrev short : KeyValue
short = record { key = text "h"; value = text "a" }

short-IsPlain : IsPlain short
short-IsPlain = record {
  key_eq = (λ e. ground arith, tt);
  key_bar = (λ e. ground arith, tt);
  value_semi = (λ e. ground arith, tt);
}

series_key_injective_example :
    (id_from 7 ≡ 7) × (short ∷ [] ≡ short ∷ []) × (short ∷ [] ≡ short ∷ [])
series_key_injective_example =
    series_key_injective (id_from 7) 7 (short ∷ []) (short ∷ []) (short ∷ []) (short ∷ []) refl refl
      refl refl (short-IsPlain, tt) (short-IsPlain, tt) (short-IsPlain, tt) (short-IsPlain, tt) refl

-- A callback that notes what it sees, and one observation with two labels.
abbrev noted : Observation → List Observation → Result (Unit {0}) × List Observation
noted obs seen = (ok tt, obs ∷ seen)

abbrev two_labels : Observation
two_labels = record observation { labels = zone ∷ host ∷ [] }

abbrev host_only : List Text
host_only = text "host" ∷ []

per_attribute_lem_example :
    (picked : List KeyValue) × IsSelection host_only (zone ∷ host ∷ []) picked
    × (per_attribute noted two_labels host_only observation []
        ≡ call_each noted (map (attribute_observation two_labels observation) picked) [])
per_attribute_lem_example = per_attribute_lem noted two_labels observation host_only []
