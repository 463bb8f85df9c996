-- ===== src/ExactNodes/Branch.antt =====
-- The windows that `ExactBranch`, of asap-precompute-rs/src/otap/baseline_nodes.rs, builds from
-- observations.
use asapcollector_public.ExactNodes.Held.{
  held, add_points-append, held-text_entry, label_points, count_labels-IsSorted, held-count_labels,
}
use asapcollector_public.Common.{
  ℕ, ◌*◌, ◌/◌, ◌<◌, ◌≡◌, refl, sym, ap, subst, ◌∙◌, true, false, ◌&&◌, some, List, [], ◌∷◌, ◌++◌,
  arith, inl, inr, Bool-cases, Option-cases, All, leb, ◌==◌, ==_iff, if◌then◌else◌, wrapping_add,
}
use asapcollector_public.Common.Text.{Text, text, text_eq}
use asapcollector_public.Common.Assoc.{lookup, text_key, number_key, All-lookup}
use asapcollector_public.Common.Maps.{or_default}
use asapcollector_public.Common.Trees.{entry}
use asapcollector_public.Common.Trees.Laws.{IsAscending, lookup-entry, entry-IsAscending, entry-All}
use asapcollector_public.Common.Trees.TextLaws.{IsSorted, text_entry-IsSorted}
use asapcollector_public.Envelope.{KeyValue}
use asapcollector_public.Exact.{ExactWindow}
use asapcollector_public.Exact.Merging.{Point, value_point, add_points}
use asapcollector_public.ExactNodes.{
  ExactBranch, ExactBranchConfig, Series, Windows, group_labels, count_labels, is_no_key,
  branch_size, add_value, observe, observe_all,
}
use asapcollector_public.Observation.{Observation, is_float}

-- The windows stand in the order of their ends, and the series of each in the order of their keys.
pub record IsOrdered (windows : Windows) : Type 0 where
  pub ascending : IsAscending windows
  pub sorted : All (λ p. IsSorted p.1) windows

series_at-IsSorted :
    (end : ℕ) (windows : Windows)
    → IsOrdered windows
    → IsSorted (or_default [] (lookup end windows))
series_at-IsSorted end windows h = elim (Option-cases (lookup end windows)) [
  | inl gone ↦ rw gone tt
  | inr (series, there) ↦
      rw there (All-lookup (λ p. IsSorted p.1) end series windows h.sorted there)
]

-- The window of a series among the open ones.
abbrev pub held_at : ℕ → Text → Windows → ExactWindow
held_at end key windows = held key (or_default [] (lookup end windows))

module _ (debug : List KeyValue → Text) where
  -- The point that the value of an observation adds to a series.
  abbrev pub value_points : ExactBranchConfig → Text → Observation → List Point
  value_points config key obs =
      if is_no_key config.group_by
      then []
      else if text_eq (text "q|" ++ debug (group_labels config.group_by obs.labels)) key
      then value_point obs.value.float ∷ []
      else []

  add_value-IsSorted :
      (config : ExactBranchConfig) (start end : ℕ) (obs : Observation) (series : Series)
      → IsSorted series
      → IsSorted (add_value debug config start end obs series)
  unfolding add_value
  add_value-IsSorted config start end obs series h = elim (Bool-cases (is_no_key config.group_by)) [
    | inl e ↦ simp e h
    | inr e ↦ simp e (text_entry-IsSorted _ _ _ series h)
  ]

  held-add_value :
      (config : ExactBranchConfig) (start end : ℕ) (key : Text) (obs : Observation)
      (series : Series)
      → IsSorted series
      → held key (add_value debug config start end obs series)
        ≡ add_points (held key series) (value_points config key obs)
  unfolding add_value add_points
  held-add_value config start end key obs series h = elim (Bool-cases (is_no_key config.group_by)) [
    | inl e ↦ simp e refl
    | inr e ↦
        let k = text "q|" ++ debug (group_labels config.group_by obs.labels) in
        let found = held-text_entry k key _ (value_point obs.value.float) series h in
        elim (Bool-cases (text_eq k key)) [
          | inl same ↦ simp (e, same) (found ∙ rw same refl)
          | inr differ ↦ simp (e, differ) (found ∙ rw differ refl)
        ]
  ]

  -- The end of the window of an observation.
  abbrev pub end_of : ExactBranchConfig → Observation → ℕ
  end_of config obs =
      wrapping_add (obs.timestamp_ms / branch_size config.window * branch_size config.window)
        (branch_size config.window)

  -- The points of an observation for a series of the window that ends at `end`.
  abbrev pub points_of : ExactBranchConfig → ℕ → Text → Observation → List Point
  points_of config end key obs =
      if is_float obs.value.kind && end_of config obs == end
      then value_points config key obs ++ label_points config.per_attribute key obs.labels
      else []

  abbrev pub all_points_of : ExactBranchConfig → ℕ → Text → List Observation → List Point
  all_points_of config end key [] = []
  all_points_of config end key (obs ∷ os) =
      points_of config end key obs ++ all_points_of config end key os

  -- The series of a window once an observation is in them.
  filled : ExactBranchConfig → Observation → Series → Series
  filled config obs series =
      let size = branch_size config.window in
      let start = obs.timestamp_ms / size * size in
      count_labels config.per_attribute obs.metric start (end_of config obs) obs.labels
        (add_value debug config start (end_of config obs) obs series)

  filled-IsSorted :
      (config : ExactBranchConfig) (obs : Observation) (series : Series)
      → IsSorted series
      → IsSorted (filled config obs series)
  unfolding filled
  filled-IsSorted config obs series h =
      count_labels-IsSorted config.per_attribute obs.metric _ (end_of config obs) obs.labels _
        (add_value-IsSorted config _ (end_of config obs) obs series h)

  held-filled :
      (config : ExactBranchConfig) (key : Text) (obs : Observation) (series : Series)
      → IsSorted series
      → held key (filled config obs series)
        ≡ add_points
            (held key series)
            (value_points config key obs ++ label_points config.per_attribute key obs.labels)
  unfolding filled
  held-filled config key obs series h =
      held-count_labels config.per_attribute obs.metric _ (end_of config obs) key obs.labels _
        (add_value-IsSorted config _ (end_of config obs) obs series h)
      ∙ ap (λ w. add_points w (label_points config.per_attribute key obs.labels))
          (held-add_value config _ (end_of config obs) key obs series h)
      ∙ sym (
          add_points-append (held key series) (value_points config key obs)
            (label_points config.per_attribute key obs.labels))

  entry-IsOrdered :
      (end : ℕ) (fill : Series → Series) (windows : Windows)
      → ((series : Series) → IsSorted series → IsSorted (fill series))
      → IsOrdered windows
      → IsOrdered (entry end [] fill windows)
  entry-IsOrdered end fill windows keeps h = record {
    ascending = entry-IsAscending end [] fill windows h.ascending;
    sorted =
        entry-All (λ k series. IsSorted series) end [] fill windows (keeps [] tt) keeps h.sorted;
  }

  held_at-entry :
      (config : ExactBranchConfig) (end : ℕ) (key : Text) (obs : Observation) (windows : Windows)
      → IsOrdered windows
      → is_float obs.value.kind ≡ true
      → held_at end key (entry (end_of config obs) [] (filled config obs) windows)
        ≡ add_points (held_at end key windows) (points_of config end key obs)
  unfolding add_points
  held_at-entry config end key obs windows h float =
      let found = lookup-entry (end_of config obs) end [] (filled config obs) windows h.ascending in
      let series = or_default [] (lookup end windows) in
      elim (Bool-cases (end_of config obs == end)) [
        | inl same ↦
            let at_end : end_of config obs ≡ end = (==_iff (end_of config obs) end).0 same in
            let there : lookup end (entry (end_of config obs) [] (filled config obs) windows)
                ≡ some (filled config obs series) =
              found
              ∙ rw same
                  (ap (λ e. some (filled config obs (or_default [] (lookup e windows)))) at_end) in
            ap (λ o. held key (or_default [] o)) there
            ∙ held-filled config key obs series (series_at-IsSorted end windows h)
            ∙ simp (float, same) refl
        | inr differ ↦
            let there : lookup end (entry (end_of config obs) [] (filled config obs) windows)
                ≡ lookup end windows =
              found ∙ rw differ refl in
            ap (λ o. held key (or_default [] o)) there ∙ simp (float, differ) refl
      ]

  -- What an observation does to the window of a series that has not been emitted.
  pub record IsKept (end : ℕ) (key : Text) (ps : List Point) (b b' : ExactBranch) : Type 0 where
    pub same_config : b'.config ≡ b.config
    pub same_mark : b'.emitted_until ≡ b.emitted_until
    pub ordered : IsOrdered b'.windows
    pub points : held_at end key b'.windows ≡ add_points (held_at end key b.windows) ps

  observe_on_time :
      (obs : Observation) (b : ExactBranch)
      → is_float obs.value.kind ≡ true
      → leb (end_of b.config obs) b.emitted_until ≡ false
      → observe debug obs b
        ≡ record b { windows = entry (end_of b.config obs) [] (filled b.config obs) b.windows }
  unfolding observe filled
  observe_on_time obs b float on_time = simp (float, on_time) refl

  observe-IsKept :
      (end : ℕ) (key : Text) (obs : Observation) (b : ExactBranch)
      → IsOrdered b.windows
      → b.emitted_until < end
      → IsKept end key (points_of b.config end key obs) b (observe debug obs b)
  unfolding observe add_points
  observe-IsKept end key obs b h after = elim (Bool-cases (is_float obs.value.kind)) [
    | inr other ↦
        simp other (record { same_config = refl; same_mark = refl; ordered = h; points = refl })
    | inl float ↦ elim (Bool-cases (leb (end_of b.config obs) b.emitted_until)) [
      | inl late ↦
          let past : (end_of b.config obs == end) ≡ false = ground (arith, late) in
          simp (float, late, past)
            (record { same_config = refl; same_mark = refl; ordered = h; points = refl })
      | inr on_time ↦
          let points = held_at-entry b.config end key obs b.windows h float in
          let ordered =
            entry-IsOrdered (end_of b.config obs) (filled b.config obs) b.windows
              (filled-IsSorted b.config obs) h in
          subst (IsKept end key (points_of b.config end key obs) b)
            (sym (observe_on_time obs b float on_time))
            (record { same_config = refl; same_mark = refl; ordered = ordered; points = points })
    ]
  ]

  -- Observations leave, for each series of each window that is not yet emitted, the window that it
  -- had with the points of exactly the observations that fall into the window and the series added,
  -- in their order; the configuration and the mark of the emitted windows stay. Before, the windows
  -- stand in the order of their ends and their series in the order of the keys.
  pub observe_all-IsKept :
      (end : ℕ) (key : Text) (os : List Observation) (b : ExactBranch)
      → IsOrdered b.windows
      → b.emitted_until < end
      → IsKept end key (all_points_of b.config end key os) b (observe_all debug os b)
  unfolding observe_all add_points
  observe_all-IsKept end key [] b h after = record {
    same_config = refl;
    same_mark = refl;
    ordered = h;
    points = refl;
  }
  observe_all-IsKept end key (obs ∷ os) b h after =
      let one = observe-IsKept end key obs b h after in
      let rest =
        observe_all-IsKept end key os (observe debug obs b) one.ordered
          (subst (λ n. n < end) (sym one.same_mark) after) in
      record {
        same_config = rest.same_config ∙ one.same_config;
        same_mark = rest.same_mark ∙ one.same_mark;
        ordered = rest.ordered;
        points =
            rest.points
            ∙ ap
                (λ c.
                  add_points (held_at end key (observe debug obs b).windows)
                    (all_points_of c end key os))
                one.same_config
            ∙ ap (λ w. add_points w (all_points_of b.config end key os)) one.points
            ∙ sym (
                add_points-append (held_at end key b.windows) (points_of b.config end key obs)
                  (all_points_of b.config end key os));
      }
