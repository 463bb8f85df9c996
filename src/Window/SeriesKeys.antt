-- ===== src/Window/SeriesKeys.antt =====
-- The keys under which asap-precompute-rs/src/window.rs files its entries.
use asapcollector_public.Common.{
  ◌≡◌, refl, none, some, [], arith, All, subst, Bool-cases, Option-cases, inl, inr, sym,
}
use asapcollector_public.Common.Text.{Text}
use asapcollector_public.Common.Assoc.{
  lookup, push, alter, remove, IsMap, text_key, All-alter, All-push, All-remove, All-lookup,
  alter-IsMap, push-IsMap, remove-IsMap, lookup-remove-none,
}
use asapcollector_public.Envelope.{SketchEnvelope}
use asapcollector_public.Observation.{Observation}
use asapcollector_public.Matchers.Keys.{write_series_key_lem}
use asapcollector_public.Config.{PrecomputeConfig, write_series_key_for, series_key_for_entry}
use asapcollector_public.Sketch.{Sketch, SketchFactory, SketchObserver}
use asapcollector_public.Stats.{StatsSnapshot}
use asapcollector_public.Window.{
  SeriesEntry, Series, WindowState, init_window, stored_labels, make_room, observe, observe_known,
  observe_entry, touch, new_entry,
}
use asapcollector_public.Window.Merge.{
  observe_envelope, reference_ms, insert_missing, merge_entry, envelope_entry,
}
use asapcollector_public.Window.Cases.{
  make_room-result, keyed, series-init_window, observe_cases, observe_new_cases,
  observe_envelope_cases,
}

-- The buffer that is reused for the key does not show in the key.
pub write_series_key_for_lem :
    (cfg : PrecomputeConfig) (buf : Text) (obs : Observation)
    → write_series_key_for cfg buf obs ≡ write_series_key_for cfg [] obs
unfolding write_series_key_for
write_series_key_for_lem cfg buf obs = simp write_series_key_lem

-- For a given configuration, the key of an observation is the key that is rebuilt from the labels
-- that its entry stores, whichever flags strip them.
pub series_key_for_stored :
    (cfg : PrecomputeConfig) (buf : Text) (obs : Observation)
    → let (resource_labels, labels) = stored_labels cfg obs.resource_labels obs.labels in
      series_key_for_entry cfg resource_labels labels ≡ write_series_key_for cfg buf obs
unfolding write_series_key_for series_key_for_entry stored_labels
series_key_for_stored cfg buf obs = elim (Bool-cases cfg.global_aggregation) [
  | inl g ↦ rw (g, write_series_key_lem)
  | inr g ↦ elim (Bool-cases cfg.omit_resource_attrs) [
    | inl o ↦ rw (g, o, write_series_key_lem)
    | inr o ↦ rw (g, o, write_series_key_lem)
  ]
]

new_entry-key :
    {S : Type 0} (cfg : PrecomputeConfig) (factory : SketchFactory S) (buf : Text)
    (obs : Observation)
    → let e = new_entry cfg factory obs in
      write_series_key_for cfg buf obs ≡ series_key_for_entry cfg e.resource_labels e.labels
unfolding new_entry
new_entry-key cfg factory buf obs = sym (series_key_for_stored cfg buf obs)

module _ {S : Type 0} where
  -- No key stands twice, and each entry is filed under the key of its labels.
  pub record IsFiled (cfg : PrecomputeConfig) (series : Series S) : Type 0 where
    pub is_map : IsMap series
    pub filed : All (λ p. p.0 ≡ series_key_for_entry cfg p.1.resource_labels p.1.labels) series

  abbrev IsFiledEntry : PrecomputeConfig → Text × SeriesEntry S → Type 0
  IsFiledEntry cfg p = p.0 ≡ series_key_for_entry cfg p.1.resource_labels p.1.labels

  alter-IsFiled :
      (cfg : PrecomputeConfig) (k : Text) (e e' : SeriesEntry S) (series : Series S)
      → lookup k series ≡ some e
      → e'.resource_labels ≡ e.resource_labels
      → e'.labels ≡ e.labels
      → IsFiled cfg series
      → IsFiled cfg (alter k (λ _. e') series)
  alter-IsFiled cfg k e e' series found r l v = record {
    is_map = alter-IsMap k (λ _. e') series v.is_map;
    filed =
        All-alter (IsFiledEntry cfg) k (λ _. e') series
          (λ _ _. rw (r, l) (All-lookup (IsFiledEntry cfg) k e series v.filed found)) v.filed;
  }

  push-IsFiled :
      (cfg : PrecomputeConfig) (k : Text) (e : SeriesEntry S) (series : Series S)
      → lookup k series ≡ none
      → k ≡ series_key_for_entry cfg e.resource_labels e.labels
      → IsFiled cfg series
      → IsFiled cfg (push k e series)
  push-IsFiled cfg k e series fresh h v = record {
    is_map = push-IsMap k e series fresh v.is_map;
    filed = All-push (IsFiledEntry cfg) k e series h v.filed;
  }

  remove-IsFiled :
      (cfg : PrecomputeConfig) (k : Text) (series : Series S)
      → IsFiled cfg series
      → IsFiled cfg (remove k series)
  remove-IsFiled cfg k series v = record {
    is_map = remove-IsMap k series v.is_map;
    filed = All-remove (IsFiledEntry cfg) k series v.filed;
  }

  room-IsFiled :
      (cfg : PrecomputeConfig) (k : Text) (series : Series S) (stats : StatsSnapshot)
      (series' : Series S) (stats' : StatsSnapshot)
      → make_room cfg series stats ≡ some (series', stats')
      → lookup k series ≡ none
      → IsFiled cfg series
      → IsFiled cfg series' × (lookup k series' ≡ none)
  room-IsFiled cfg k series stats series' stats' h fresh v =
      elim (make_room-result cfg series stats series' stats' h) [
        | inl e ↦ rw e (v, fresh)
        | inr (j, e) ↦ rw e (remove-IsFiled cfg j series v, lookup-remove-none j k series fresh)
      ]

  -- Whatever its outcome, `observe` leaves a map in which each entry is filed under the key of the
  -- labels that it keeps, if it was such a map before.
  pub observe-IsFiled :
      (cfg : PrecomputeConfig) (factory : SketchFactory S) (observer : SketchObserver S)
      (obs : Observation) (w : WindowState S) (stats : StatsSnapshot)
      → IsFiled cfg w.series
      → IsFiled cfg (observe cfg factory observer obs w stats).1.series
  unfolding observe_known observe_entry touch
  observe-IsFiled cfg factory observer obs w stats v =
      observe_cases (λ o. IsFiled cfg o.1.series) cfg factory observer obs w stats
        (λ _. rw (series-init_window obs.timestamp_ms cfg w) v)
        (λ e found.
          rw (series-init_window obs.timestamp_ms cfg w)
            (alter-IsFiled cfg _ e _ w.series found refl refl v))
        (λ fresh.
          observe_new_cases (λ o. IsFiled cfg o.1.series) cfg factory observer obs (keyed cfg obs w)
            stats (λ _. rw (series-init_window obs.timestamp_ms cfg w) v)
            (λ series stats' room.
              let (v', fresh') =
                room-IsFiled cfg (keyed cfg obs w).key w.series stats series stats'
                  (rw (series-init_window obs.timestamp_ms cfg w) at room) fresh v in
              push-IsFiled cfg (keyed cfg obs w).key _ series fresh'
                (new_entry-key cfg factory (init_window obs.timestamp_ms cfg w).key obs) v'))

  insert_missing-IsFiled :
      (cfg : PrecomputeConfig) (factory : SketchFactory S) (env : SketchEnvelope)
      (series : Series S) (stats : StatsSnapshot) (series' : Series S) (stats' : StatsSnapshot)
      → let k = series_key_for_entry cfg env.resource_labels env.labels in
        insert_missing cfg factory env k series stats ≡ some (series', stats')
        → IsFiled cfg series
        → IsFiled cfg series'
  unfolding insert_missing envelope_entry
  insert_missing-IsFiled cfg factory env series stats series' stats' h v =
      let k = series_key_for_entry cfg env.resource_labels env.labels in
      elim (Option-cases (lookup k series)) [
        | inr (e, known) ↦ subst (IsFiled cfg) (ground arith) v
        | inl fresh ↦
            subst (IsFiled cfg) {x = push k (envelope_entry factory env) series} (ground arith)
              (push-IsFiled cfg k (envelope_entry factory env) series fresh refl v)
      ]

  -- Whatever its outcome, `observe_envelope` leaves a map in which each entry is filed under the
  -- key of the labels that it keeps, if it was such a map before.
  pub observe_envelope-IsFiled :
      (cfg : PrecomputeConfig) (ops : Sketch S) (factory : SketchFactory S) (env : SketchEnvelope)
      (w : WindowState S) (stats : StatsSnapshot)
      → IsFiled cfg w.series
      → IsFiled cfg (observe_envelope cfg ops factory env w stats).1.series
  unfolding merge_entry
  observe_envelope-IsFiled cfg ops factory env w stats v =
      observe_envelope_cases (λ o. IsFiled cfg o.1.series) cfg ops factory env w stats
        (λ _. rw (series-init_window (reference_ms env) cfg w) v)
        (λ series stats' e inserted found.
          alter-IsFiled cfg _ e _ series found refl refl
            (insert_missing-IsFiled cfg factory env w.series stats series stats' inserted v))
