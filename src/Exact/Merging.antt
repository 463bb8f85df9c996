-- ===== src/Exact/Merging.antt =====
-- The merge of exact windows, of asap-precompute-rs/src/answers.rs, and the updates that
-- `ExactBranch` of asap-precompute-rs/src/otap/baseline_nodes.rs makes to a window.
use asapcollector_public.Common.{
  ℕ, suc, ◌+◌, ◌^◌, ◌<◌, ◌≡◌, refl, sym, ap, ◌∙◌, none, List, [], ◌∷◌, ◌++◌, if◌then◌else◌, arith,
  wrapping_add, Bool-cases, inl, inr, subst, length, length-append,
}
use asapcollector_public.Common.Text.{Text, text_eq, text_eq_iff}
use asapcollector_public.Common.Assoc.{Assoc, lookup, text_key, IsMap}
use asapcollector_public.Common.Maps.{or_default, upsert-IsMap, lookup-upsert}
use asapcollector_public.Float.{F64}
use asapcollector_public.Exact.{ExactWindow, empty_window, add_count, add_counts, merge}
use mathlib.Core.List.{append-nil, append_assoc}

-- What a point adds to a window: a value, or an attribute's value.
pub data Point : Type 0 where
  value_point : F64 → Point
  attribute_point : Text → Point

-- `w.values.push(v); w.points += 1`, and `*w.counts.entry(s).or_default() += 1; w.points += 1`.
unfoldable pub add_point : ExactWindow → Point → ExactWindow
add_point w (value_point v) = record w {
  values = w.values ++ v ∷ [];
  points = wrapping_add w.points 1;
}
add_point w (attribute_point s) = record w {
  counts = add_count s 1 w.counts;
  points = wrapping_add w.points 1;
}

unfoldable pub add_points : ExactWindow → List Point → ExactWindow
add_points w [] = w
add_points w (p ∷ points) = add_points (add_point w p) points

-- The count of a key; an absent key has none.
abbrev pub count_of : Text → Assoc Text ℕ → ℕ
count_of k counts = or_default 0 (lookup k counts)

-- The windows hold the same values in the same order, the same number of points, and the same count
-- of every key, in whichever order they keep the keys.
pub record Agree (a b : ExactWindow) : Type 0 where
  pub same_values : a.values ≡ b.values
  pub same_points : a.points ≡ b.points
  pub same_counts : (k : Text) → count_of k a.counts ≡ count_of k b.counts

count_of-add_count :
    (k j : Text) (c : ℕ) (m : Assoc Text ℕ)
    → count_of k (add_count j c m)
      ≡ (if text_eq j k then wrapping_add (count_of j m) c else count_of k m)
unfolding add_count
count_of-add_count k j c m = elim (Bool-cases (text_eq j k)) [
  | inl same ↦ rw (lookup-upsert j k 0 (λ n. wrapping_add n c) m, same) refl
  | inr differ ↦ rw (lookup-upsert j k 0 (λ n. wrapping_add n c) m, differ) refl
]

count_of-add_counts :
    (k : Text) (m more : Assoc Text ℕ)
    → IsMap more
    → count_of k m < 2 ^ 64
    → count_of k (add_counts m more) ≡ wrapping_add (count_of k m) (count_of k more)
unfolding add_counts
count_of-add_counts k m [] w h = omega arith
count_of-add_counts k m ((j, c) ∷ more) w h =
    let next = count_of-add_counts k (add_count j c m) more w.1 in
    let step = count_of-add_count k j c m in
    elim (Bool-cases (text_eq j k)) [
      | inl same ↦
          let moved : count_of k (add_count j c m) ≡ wrapping_add (count_of k m) c =
            step ∙ rw same (ap (λ i. wrapping_add (count_of i m) c) ((text_eq_iff j k).0 same)) in
          let none_left : count_of k more ≡ 0 =
            ap (or_default 0) (subst (λ i. lookup i more ≡ none) ((text_eq_iff j k).0 same) w.0) in
          rw same (omega (arith, next (omega (arith, moved)), moved, none_left))
      | inr differ ↦
          let kept : count_of k (add_count j c m) ≡ count_of k m = step ∙ rw differ refl in
          rw differ (omega (arith, next (omega (arith, kept)), kept))
    ]

-- How often an attribute's value stands in the points.
abbrev occurrences : Text → List Point → ℕ
occurrences k [] = 0
occurrences k (value_point v ∷ points) = occurrences k points
occurrences k (attribute_point s ∷ points) =
    if text_eq s k then suc (occurrences k points) else occurrences k points

abbrev point_values : List Point → List F64
point_values [] = []
point_values (value_point v ∷ points) = v ∷ point_values points
point_values (attribute_point s ∷ points) = point_values points

count_of-add_points :
    (k : Text) (w : ExactWindow) (ps : List Point)
    → count_of k w.counts < 2 ^ 64
    → count_of k (add_points w ps).counts ≡ wrapping_add (count_of k w.counts) (occurrences k ps)
unfolding add_points add_point
count_of-add_points k w [] h = omega arith
count_of-add_points k w (value_point v ∷ ps) h =
    count_of-add_points k (add_point w (value_point v)) ps h
count_of-add_points k w (attribute_point s ∷ ps) h =
    let next = count_of-add_points k (add_point w (attribute_point s)) ps in
    let step = count_of-add_count k s 1 w.counts in
    elim (Bool-cases (text_eq s k)) [
      | inl same ↦
          let moved : count_of k (add_count s 1 w.counts) ≡ wrapping_add (count_of k w.counts) 1 =
            step
            ∙ rw same (ap (λ i. wrapping_add (count_of i w.counts) 1) ((text_eq_iff s k).0 same)) in
          rw same (omega (arith, next (omega (arith, moved)), moved))
      | inr differ ↦
          let kept : count_of k (add_count s 1 w.counts) ≡ count_of k w.counts =
            step ∙ rw differ refl in
          rw differ (omega (arith, next (omega (arith, kept)), kept))
    ]

points-add_points :
    (w : ExactWindow) (ps : List Point)
    → w.points < 2 ^ 64
    → (add_points w ps).points ≡ wrapping_add w.points (length ps)
unfolding add_points add_point
points-add_points w [] h = omega arith
points-add_points w (value_point v ∷ ps) h =
    omega (arith, points-add_points (add_point w (value_point v)) ps (omega arith))
points-add_points w (attribute_point s ∷ ps) h =
    omega (arith, points-add_points (add_point w (attribute_point s)) ps (omega arith))

values-add_points :
    (w : ExactWindow) (ps : List Point) → (add_points w ps).values ≡ w.values ++ point_values ps
unfolding add_points add_point
values-add_points w [] = sym (append-nil w.values)
values-add_points w (value_point v ∷ ps) =
    values-add_points (add_point w (value_point v)) ps
    ∙ append_assoc w.values (v ∷ []) (point_values ps)
values-add_points w (attribute_point s ∷ ps) =
    values-add_points (add_point w (attribute_point s)) ps

add_points-IsMap :
    (w : ExactWindow) (ps : List Point) → IsMap w.counts → IsMap (add_points w ps).counts
unfolding add_points add_point add_count
add_points-IsMap w [] h = h
add_points-IsMap w (value_point v ∷ ps) h = add_points-IsMap (add_point w (value_point v)) ps h
add_points-IsMap w (attribute_point s ∷ ps) h =
    add_points-IsMap (add_point w (attribute_point s)) ps
      (upsert-IsMap s 0 (λ n. wrapping_add n 1) w.counts h)

occurrences-append :
    (k : Text) (ps qs : List Point) → occurrences k (ps ++ qs) ≡ occurrences k ps + occurrences k qs
occurrences-append k [] qs = omega arith
occurrences-append k (value_point v ∷ ps) qs = occurrences-append k ps qs
occurrences-append k (attribute_point s ∷ ps) qs = ground (arith, occurrences-append k ps qs)

point_values-append :
    (ps qs : List Point) → point_values (ps ++ qs) ≡ point_values ps ++ point_values qs
point_values-append [] qs = refl
point_values-append (value_point v ∷ ps) qs = rw (point_values-append ps qs)
point_values-append (attribute_point s ∷ ps) qs = point_values-append ps qs

-- The window of a list of points.
abbrev pub window_of : List Point → ExactWindow
window_of = add_points empty_window

values-window_of : (ps : List Point) → (window_of ps).values ≡ point_values ps
values-window_of ps = values-add_points empty_window ps

-- The merge of the windows of two sources agrees with the window of one source that had the points
-- of both: the same values in the same order, the same number of points and the same count of every
-- attribute value, also where a counter of 64 bits wraps.
pub merge-window_of :
    (ps qs : List Point) → Agree (merge (window_of ps) (window_of qs)) (window_of (ps ++ qs))
unfolding merge
merge-window_of ps qs = record {
  same_values =
      rw (values-window_of ps, values-window_of qs, values-window_of (ps ++ qs))
        (sym (point_values-append ps qs));
  same_points = omega (
    arith,
    points-add_points empty_window ps (omega arith),
    points-add_points empty_window qs (omega arith),
    points-add_points empty_window (ps ++ qs) (omega arith),
    length-append ps qs,
  );
  same_counts = λ k.
      let ps_count = count_of-add_points k empty_window ps (omega arith) in
      omega (
        arith,
        ps_count,
        count_of-add_points k empty_window qs (omega arith),
        count_of-add_points k empty_window (ps ++ qs) (omega arith),
        occurrences-append k ps qs,
        count_of-add_counts k (window_of ps).counts (window_of qs).counts
            (add_points-IsMap empty_window qs tt) (omega (arith, ps_count)),
      );
}

-- Merging one more source into a window that agrees with the points so far.
pub merge-Agree :
    (w : ExactWindow) (ps qs : List Point)
    → Agree w (window_of ps)
    → Agree (merge w (window_of qs)) (window_of (ps ++ qs))
unfolding merge
merge-Agree w ps qs a =
    let whole = merge-window_of ps qs in
    record {
      same_values = ap (λ vs. vs ++ (window_of qs).values) a.same_values ∙ whole.same_values;
      same_points =
          ap (λ n. wrapping_add n (window_of qs).points) a.same_points ∙ whole.same_points;
      same_counts = λ k.
          let ps_count = count_of-add_points k empty_window ps (omega arith) in
          omega (
            arith,
            ps_count,
            a.same_counts k,
            whole.same_counts k,
            count_of-add_counts k w.counts (window_of qs).counts
                (add_points-IsMap empty_window qs tt) (omega (arith, ps_count, a.same_counts k)),
            count_of-add_counts k (window_of ps).counts (window_of qs).counts
                (add_points-IsMap empty_window qs tt) (omega (arith, ps_count)),
          );
    }
