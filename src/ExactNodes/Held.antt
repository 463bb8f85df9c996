-- ===== src/ExactNodes/Held.antt =====
-- The window that a series of `ExactBranch` holds, of asap-precompute-rs/src/otap/baseline_nodes.rs,
-- as points are added to it.
use asapcollector_public.Common.{
  ℕ, ◌≡◌, refl, ap, ◌∙◌, ◌&&◌, none, some, List, [], ◌∷◌, ◌++◌, inl, inr, Bool-cases, Option-cases,
  if◌then◌else◌,
}
use asapcollector_public.Common.Text.{Text, text, text_eq, text_eq_iff}
use asapcollector_public.Common.Assoc.{lookup, text_key, number_key}
use asapcollector_public.Common.Trees.{text_entry}
use asapcollector_public.Common.Trees.TextLaws.{IsSorted, text_entry-IsSorted, lookup-text_entry}
use asapcollector_public.Envelope.{KeyValue, SketchEnvelope}
use asapcollector_public.Exact.{ExactWindow, empty_window}
use asapcollector_public.Exact.Merging.{Point, attribute_point, add_point, add_points}
use asapcollector_public.ExactNodes.{Series, is_kept, count_labels}

-- The window of a series; an empty one if there is none.
abbrev pub held : Text → Series → ExactWindow
held key series = elim (lookup key series) [ none ↦ empty_window | some p ↦ p.1 ]

pub add_points-append :
    (w : ExactWindow) (ps qs : List Point)
    → add_points w (ps ++ qs) ≡ add_points (add_points w ps) qs
unfolding add_points
add_points-append w [] qs = refl
add_points-append w (p ∷ ps) qs = add_points-append (add_point w p) ps qs

-- A point goes to the window of its series alone.
pub held-text_entry :
    (k key : Text) (env : SketchEnvelope) (p : Point) (series : Series)
    → IsSorted series
    → held key (text_entry k (env, empty_window) (λ s. (s.0, add_point s.1 p)) series)
      ≡ (if text_eq k key then add_point (held key series) p else held key series)
held-text_entry k key env p series h =
    let found =
      lookup-text_entry k key (env, empty_window) (λ s. (s.0, add_point s.1 p)) series h in
    elim (Bool-cases (text_eq k key)) [
      | inl same ↦
          let at_key : k ≡ key = (text_eq_iff k key).0 same in
          elim (Option-cases (lookup key series)) [
            | inl gone ↦ rw (held, found, same, at_key, gone) refl
            | inr (s, there) ↦ rw (held, found, same, at_key, there) refl
          ]
      | inr differ ↦ rw (held, found, differ) refl
    ]

-- The points that the labels of an observation add to a series.
abbrev pub label_points : List Text → Text → List KeyValue → List Point
label_points per_attribute key [] = []
label_points per_attribute key (kv ∷ labels) =
    if is_kept per_attribute kv.key && text_eq (text "a|" ++ kv.key) key
    then attribute_point kv.value ∷ label_points per_attribute key labels
    else label_points per_attribute key labels

pub count_labels-IsSorted :
    (per_attribute : List Text) (metric : Text) (start end : ℕ) (labels : List KeyValue)
    (series : Series)
    → IsSorted series
    → IsSorted (count_labels per_attribute metric start end labels series)
unfolding count_labels
count_labels-IsSorted per_attribute metric start end [] series h = h
count_labels-IsSorted per_attribute metric start end (kv ∷ labels) series h =
    elim (Bool-cases (is_kept per_attribute kv.key)) [
      | inl kept ↦ rw kept (
          count_labels-IsSorted per_attribute metric start end labels _
            (text_entry-IsSorted _ _ _ series h))
      | inr skipped ↦
          rw skipped (count_labels-IsSorted per_attribute metric start end labels series h)
    ]

pub held-count_labels :
    (per_attribute : List Text) (metric : Text) (start end : ℕ) (key : Text)
    (labels : List KeyValue) (series : Series)
    → IsSorted series
    → held key (count_labels per_attribute metric start end labels series)
      ≡ add_points (held key series) (label_points per_attribute key labels)
unfolding count_labels add_points
held-count_labels per_attribute metric start end key [] series h = refl
held-count_labels per_attribute metric start end key (kv ∷ labels) series h =
    elim (Bool-cases (is_kept per_attribute kv.key)) [
      | inl kept ↦ elim (Bool-cases (text_eq (text "a|" ++ kv.key) key)) [
        | inl same ↦
            rw (kept, same)
              (held-count_labels per_attribute metric start end key labels _
                  (text_entry-IsSorted _ _ _ series h)
                ∙ ap (λ w. add_points w (label_points per_attribute key labels))
                    (held-text_entry (text "a|" ++ kv.key) key _ (attribute_point kv.value) series h
                      ∙ rw same refl))
        | inr differ ↦
            rw (kept, differ)
              (held-count_labels per_attribute metric start end key labels _
                  (text_entry-IsSorted _ _ _ series h)
                ∙ ap (λ w. add_points w (label_points per_attribute key labels))
                    (held-text_entry (text "a|" ++ kv.key) key _ (attribute_point kv.value) series h
                      ∙ rw differ refl))
      ]
      | inr skipped ↦
          rw skipped (held-count_labels per_attribute metric start end key labels series h)
    ]
