-- ===== src/Window/Cases.antt =====
-- Case rules for `observe` and `observe_envelope` of asap-precompute-rs/src/window.rs.
use asapcollector_public.Common.{
  ℕ, u64_max, ◌≡◌, true, none, some, ◌⊎◌, inl, inr, Bool-cases, Option-cases, arith,
}
use asapcollector_public.Common.Text.{Text}
use asapcollector_public.Common.Assoc.{lookup, push, alter, remove, text_key, lookup-push, eq_self}
use asapcollector_public.Envelope.{SketchEnvelope}
use asapcollector_public.Error.{err, late_data, series_cap_exceeded}
use asapcollector_public.Observation.{Observation}
use asapcollector_public.Config.{
  PrecomputeConfig, OnOverflow, drop, block, evict_oldest, write_series_key_for,
  series_key_for_entry,
}
use asapcollector_public.Sketch.{Sketch, SketchFactory, SketchObserver}
use asapcollector_public.Stats.{StatsSnapshot, one_more_series}
use asapcollector_public.Window.{
  SeriesEntry, Series, WindowState, Outcome, init_window, is_late, make_room, observe_entry,
  new_entry, observe_known, observe_new, observe, at_cap, overflow, evict, oldest_key,
}
use asapcollector_public.Window.Merge.{
  reference_ms, insert_missing, merge_at, merge_entry, observe_envelope, envelope_entry,
}

module _ {S : Type 0} where
  -- The window in which `observe` looks its series up.
  abbrev pub keyed : PrecomputeConfig → Observation → WindowState S → WindowState S
  keyed cfg obs w = record (init_window obs.timestamp_ms cfg w) {
    key = write_series_key_for cfg (init_window obs.timestamp_ms cfg w).key obs;
  }

  pub series-init_window :
      (ref_ms : ℕ) (cfg : PrecomputeConfig) (w : WindowState S)
      → (init_window ref_ms cfg w).series ≡ w.series
  unfolding init_window
  series-init_window ref_ms cfg w = ground arith

  overflow-result :
      (policy : OnOverflow) (series : Series S) (stats : StatsSnapshot) (series' : Series S)
      (stats' : StatsSnapshot)
      → overflow policy series stats ≡ some (series', stats')
      → (series' ≡ series) ⊎ ((k : Text) × (series' ≡ remove k series))
  unfolding overflow evict
  overflow-result drop series stats series' stats' h = cc
  overflow-result block series stats series' stats' h = cc
  overflow-result evict_oldest series stats series' stats' h =
      elim (Option-cases (oldest_key none u64_max series)) [
        | inl e ↦ inl (ground arith)
        | inr (k, e) ↦ inr (k, ground arith)
      ]

  -- `make_room` keeps the series, or takes one away.
  pub make_room-result :
      (cfg : PrecomputeConfig) (series : Series S) (stats : StatsSnapshot) (series' : Series S)
      (stats' : StatsSnapshot)
      → make_room cfg series stats ≡ some (series', stats')
      → (series' ≡ series) ⊎ ((k : Text) × (series' ≡ remove k series))
  unfolding make_room
  make_room-result cfg series stats series' stats' h = elim (Bool-cases (at_cap cfg series)) [
    | inl full ↦ overflow-result cfg.on_overflow series stats series' stats' (rw full at h)
    | inr free ↦ inl (ground arith)
  ]

  -- After `insert_missing` the key has an entry.
  insert_missing-lookup :
      (cfg : PrecomputeConfig) (factory : SketchFactory S) (env : SketchEnvelope) (key : Text)
      (m : Series S) (stats : StatsSnapshot) (series : Series S) (stats' : StatsSnapshot)
      → insert_missing cfg factory env key m stats ≡ some (series, stats')
      → (e : SeriesEntry S) × (lookup key series ≡ some e)
  unfolding insert_missing
  insert_missing-lookup cfg factory env key m stats series stats' h =
      elim (Option-cases (lookup key m)) [
        | inr (e, known) ↦ (e, ground arith)
        | inl fresh ↦ (
          envelope_entry factory env,
          ground (arith, lookup-push key key (envelope_entry factory env) m, eq_self key),
        )
      ]

module _ {ℓ} {S : Type 0} (P : Outcome S → Type ℓ) (cfg : PrecomputeConfig)
    (factory : SketchFactory S) (observer : SketchObserver S) (obs : Observation)
    (w : WindowState S) (stats : StatsSnapshot) where
  pub observe_cases :
      (is_late cfg obs.timestamp_ms (init_window obs.timestamp_ms cfg w).active_start_ms ≡ true
        → P (err late_data, init_window obs.timestamp_ms cfg w, stats))
      → ((e : SeriesEntry S)
          → lookup (keyed cfg obs w).key w.series ≡ some e
          → P (observe_known cfg observer obs (keyed cfg obs w) e stats))
      → (lookup (keyed cfg obs w).key w.series ≡ none
          → P (observe_new cfg factory observer obs (keyed cfg obs w) stats))
      → P (observe cfg factory observer obs w stats)
  unfolding observe
  observe_cases late known fresh =
      elim (Bool-cases
        (is_late cfg obs.timestamp_ms (init_window obs.timestamp_ms cfg w).active_start_ms)) [
          | inl l ↦ rw l (late l)
          | inr l ↦ elim (Option-cases (lookup (keyed cfg obs w).key w.series)) [
            | inl e ↦ rw (l, series-init_window obs.timestamp_ms cfg w, e) (fresh e)
            | inr (entry, e) ↦ rw (l, series-init_window obs.timestamp_ms cfg w, e) (known entry e)
          ]
        ]

  -- `observe_new` refuses, or pushes the entry behind what is left.
  pub observe_new_cases :
      (make_room cfg w.series stats ≡ none → P (err series_cap_exceeded, w, stats))
      → ((series : Series S) (stats' : StatsSnapshot)
          → make_room cfg w.series stats ≡ some (series, stats')
          → P (
            (observe_entry observer obs (new_entry cfg factory obs)).0,
            record w {
              series = push w.key (observe_entry observer obs (new_entry cfg factory obs)).1 series;
            },
            one_more_series stats',
          ))
      → P (observe_new cfg factory observer obs w stats)
  unfolding observe_new
  observe_new_cases full room = elim (Option-cases (make_room cfg w.series stats)) [
    | inl e ↦ rw (e, observe_new) (full e)
    | inr ((series, stats'), e) ↦ rw (e, observe_new) (room series stats' e)
  ]

module _ {ℓ} {S : Type 0} (P : Outcome S → Type ℓ) (cfg : PrecomputeConfig) (ops : Sketch S)
    (factory : SketchFactory S) (env : SketchEnvelope) (w : WindowState S)
    (stats : StatsSnapshot) where
  abbrev pub envelope_key : Text
  envelope_key = series_key_for_entry cfg env.resource_labels env.labels

  -- `observe_envelope` refuses, or merges into the entry that is there or was made: the panic of
  -- `expect` is not reached.
  pub observe_envelope_cases :
      (insert_missing cfg factory env envelope_key w.series stats ≡ none
        → P (err series_cap_exceeded, init_window (reference_ms env) cfg w, stats))
      → ((series : Series S) (stats' : StatsSnapshot) (e : SeriesEntry S)
          → insert_missing cfg factory env envelope_key w.series stats ≡ some (series, stats')
          → lookup envelope_key series ≡ some e
          → P (
            (merge_entry ops env e).0,
            record (init_window (reference_ms env) cfg w) {
              series = alter envelope_key (λ _. (merge_entry ops env e).1) series;
            },
            stats',
          ))
      → P (observe_envelope cfg ops factory env w stats)
  unfolding observe_envelope merge_at
  observe_envelope_cases full room =
      elim (Option-cases (insert_missing cfg factory env envelope_key w.series stats)) [
        | inl e ↦ rw (series-init_window (reference_ms env) cfg w, e, observe_envelope) (full e)
        | inr ((series, stats'), e) ↦
            let (entry, found) =
              insert_missing-lookup cfg factory env envelope_key w.series stats series stats' e in
            rw (series-init_window (reference_ms env) cfg w, e, found, observe_envelope, merge_at)
              (room series stats' entry e found)
      ]
