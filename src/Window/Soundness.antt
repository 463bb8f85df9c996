-- ===== src/Window/Soundness.antt =====
-- Counts and sketches of the entries of asap-precompute-rs/src/window.rs, under the laws that a
-- sketch is to have.
use asapcollector_public.Common.{
  ltb, ◌&&◌, ℕ, ◌≡◌, ◌⊎◌, refl, sym, true, some, List, [], ◌∷◌, arith, inl, inr, Bool-cases,
  Option-cases, All, subst,
}
use asapcollector_public.Common.Text.{Text}
use asapcollector_public.Common.Assoc.{
  lookup, push, values, text_key, All-alter, All-push, All-remove, All-lookup,
}
use asapcollector_public.Envelope.{SketchEnvelope}
use asapcollector_public.Error.{ok}
use asapcollector_public.Observation.{Observation}
use asapcollector_public.Config.{PrecomputeConfig}
use asapcollector_public.Sketch.{Sketch, SketchFactory, SketchObserver, is_ok}
use asapcollector_public.Stats.{StatsSnapshot}
use asapcollector_public.Window.{
  window_size_ms, SeriesEntry, Series, WindowState, Rotation, make_room, observe, observe_known,
  observe_entry, touch, new_entry,
}
use asapcollector_public.Window.Merge.{
  observe_envelope, insert_missing, merge_entry, envelope_entry, reference_ms,
}
use asapcollector_public.Window.Rotate.{rotate, rotate_locked, drain_window}
use asapcollector_public.Window.Bounds.{rotate_locked_lem, series-advance_window}
use asapcollector_public.Window.Cases.{
  make_room-result, keyed, series-init_window, observe_cases, observe_new_cases,
  observe_envelope_cases,
}

-- What the runtime relies on: an observation that an observer takes leaves a sketch with content,
-- so does a payload that is merged, and a sketch with content has a snapshot with content.
pub record SketchLaws {S : Type 0} (ops : Sketch S) (observer : SketchObserver S) : Type 1 where
  -- the sketch has content
  pub Filled : S → Type 0
  -- the observation leaves a mark on a sketch: a finite value, for KLL
  pub Takes : Observation → Type 0
  pub snapshot_filled :
      (s : S) → Filled s → (b : ℕ) × (bytes : List ℕ) × (ops.snapshot s ≡ ok (b ∷ bytes))
  pub observe_fills :
      (s : S) (obs : Observation)
      → Takes obs
      → is_ok (observer s obs).0 ≡ true
      → Filled (observer s obs).1
  pub observe_keeps : (s : S) (obs : Observation) → Filled s → Filled (observer s obs).1
  pub merge_fills :
      (s : S) (b : ℕ) (bytes : List ℕ)
      → is_ok (ops.merge_snapshot s (b ∷ bytes)).0 ≡ true
      → Filled (ops.merge_snapshot s (b ∷ bytes)).1
  pub merge_keeps : (s : S) (bytes : List ℕ) → Filled s → Filled (ops.merge_snapshot s bytes).1

module _ {S : Type 0} {ops : Sketch S} {observer : SketchObserver S}
    (laws : SketchLaws ops observer) where
  open laws use {
    Filled, Takes, snapshot_filled, observe_fills, observe_keeps, merge_fills, merge_keeps,
  }

  abbrev pub IsSoundEntry : SeriesEntry S → Type 0
  IsSoundEntry e = Filled e.sketch ⊎ (e.count ≡ 0)

  abbrev pub IsSound : Series S → Type 0
  IsSound = All (λ p. IsSoundEntry p.1)

  -- A payload, or an envelope that counts nothing.
  abbrev pub Carries : SketchEnvelope → Type 0
  Carries env = ((b : ℕ) × (bytes : List ℕ) × (env.payload ≡ b ∷ bytes)) ⊎ (env.count ≡ 0)

  observe_entry-IsSound :
      (obs : Observation) (e : SeriesEntry S)
      → Takes obs
      → IsSoundEntry e
      → IsSoundEntry (observe_entry observer obs e).1
  unfolding observe_entry
  observe_entry-IsSound obs e takes sound = elim (Bool-cases (is_ok (observer e.sketch obs).0)) [
    | inl r ↦ inl (observe_fills e.sketch obs takes r)
    | inr r ↦ elim sound [
      | inl filled ↦ inl (observe_keeps e.sketch obs filled)
      | inr zero_count ↦ inr (rw r zero_count)
    ]
  ]

  merge_entry-IsSound :
      (env : SketchEnvelope) (e : SeriesEntry S)
      → Carries env
      → IsSoundEntry e
      → IsSoundEntry (merge_entry ops env e).1
  unfolding merge_entry
  merge_entry-IsSound env e carries sound = elim sound [
    | inl filled ↦ inl (merge_keeps e.sketch env.payload filled)
    | inr zero_count ↦ elim (Bool-cases (is_ok (ops.merge_snapshot e.sketch env.payload).0)) [
      | inr r ↦ inr (rw r zero_count)
      | inl r ↦ elim carries [
        | inl (b, bytes, p) ↦ inl (
            subst (λ bs. Filled (ops.merge_snapshot e.sketch bs).1) (sym p)
              (merge_fills e.sketch b bytes
                (subst (λ bs. is_ok (ops.merge_snapshot e.sketch bs).0 ≡ true) p r)))
        | inr none_counted ↦ inr (ground arith)
      ]
    ]
  ]

  new_entry-IsSound :
      (cfg : PrecomputeConfig) (factory : SketchFactory S) (obs : Observation)
      → IsSoundEntry (new_entry cfg factory obs)
  unfolding new_entry
  new_entry-IsSound cfg factory obs = inr refl

  room-IsSound :
      (cfg : PrecomputeConfig) (series : Series S) (stats : StatsSnapshot) (series' : Series S)
      (stats' : StatsSnapshot)
      → make_room cfg series stats ≡ some (series', stats')
      → IsSound series
      → IsSound series'
  room-IsSound cfg series stats series' stats' h sound =
      elim (make_room-result cfg series stats series' stats' h) [
        | inl e ↦ rw e sound
        | inr (k, e) ↦ rw e (All-remove (λ p. IsSoundEntry p.1) k series sound)
      ]

  -- Under the laws of the sketch, and for an observation that leaves a mark, `observe` keeps each
  -- entry sound, whatever its outcome: the sketch has content, or the entry has counted nothing.
  pub observe-IsSound :
      (cfg : PrecomputeConfig) (factory : SketchFactory S) (obs : Observation) (w : WindowState S)
      (stats : StatsSnapshot)
      → Takes obs
      → IsSound w.series
      → IsSound (observe cfg factory observer obs w stats).1.series
  unfolding observe_known touch
  observe-IsSound cfg factory obs w stats takes sound =
      observe_cases (λ o. IsSound o.1.series) cfg factory observer obs w stats
        (λ _. rw (series-init_window obs.timestamp_ms cfg w) sound)
        (λ e found. rw (series-init_window obs.timestamp_ms cfg w) (
          All-alter (λ p. IsSoundEntry p.1) (keyed cfg obs w).key _ w.series
            (λ _ _.
              observe_entry-IsSound obs (touch obs e) takes
                (All-lookup (λ p. IsSoundEntry p.1) (keyed cfg obs w).key e w.series sound found))
            sound))
        (λ fresh.
          observe_new_cases (λ o. IsSound o.1.series) cfg factory observer obs (keyed cfg obs w)
            stats (λ _. rw (series-init_window obs.timestamp_ms cfg w) sound)
            (λ series stats' room.
              All-push (λ p. IsSoundEntry p.1) (keyed cfg obs w).key _ series
                (observe_entry-IsSound obs (new_entry cfg factory obs) takes
                  (new_entry-IsSound cfg factory obs))
                (room-IsSound cfg w.series stats series stats'
                  (rw (series-init_window obs.timestamp_ms cfg w) at room) sound)))

  insert_missing-IsSound :
      (cfg : PrecomputeConfig) (factory : SketchFactory S) (env : SketchEnvelope) (k : Text)
      (series : Series S) (stats : StatsSnapshot) (series' : Series S) (stats' : StatsSnapshot)
      → insert_missing cfg factory env k series stats ≡ some (series', stats')
      → IsSound series
      → IsSound series'
  unfolding insert_missing envelope_entry
  insert_missing-IsSound cfg factory env k series stats series' stats' h sound =
      elim (Option-cases (lookup k series)) [
        | inr (e, known) ↦ subst IsSound (ground arith) sound
        | inl fresh ↦
            subst IsSound {x = push k (envelope_entry factory env) series} (ground arith)
              (All-push (λ p. IsSoundEntry p.1) k _ series (inr refl) sound)
      ]

  -- Under the laws of the sketch, and for an envelope that has a payload or counts nothing,
  -- `observe_envelope` keeps each entry sound, whatever its outcome: the sketch has content, or
  -- the entry has counted nothing.
  pub observe_envelope-IsSound :
      (cfg : PrecomputeConfig) (factory : SketchFactory S) (env : SketchEnvelope)
      (w : WindowState S) (stats : StatsSnapshot)
      → Carries env
      → IsSound w.series
      → IsSound (observe_envelope cfg ops factory env w stats).1.series
  observe_envelope-IsSound cfg factory env w stats carries sound =
      observe_envelope_cases (λ o. IsSound o.1.series) cfg ops factory env w stats
        (λ _. rw (series-init_window (reference_ms env) cfg w) sound)
        (λ series stats' e inserted found.
          let sound' =
            insert_missing-IsSound cfg factory env _ w.series stats series stats' inserted sound in
          All-alter (λ p. IsSoundEntry p.1) _ _ series
            (λ _ _.
              merge_entry-IsSound env e carries
                (All-lookup (λ p. IsSoundEntry p.1) _ e series sound' found))
            sound')

pub list_cases :
    {A : Type 0} → (xs : List A) → (xs ≡ []) ⊎ ((x : A) × (rest : List A) × (xs ≡ x ∷ rest))
list_cases [] = inl refl
list_cases (x ∷ rest) = inr (x, rest, refl)

-- A rotation hands out nothing and keeps the series, or hands out every entry and keeps none.
abbrev pub HandsOver : {S : Type 0} → WindowState S → Rotation S → Type 0
HandsOver w r =
    ((r.closed ≡ []) × (r.window.series ≡ w.series))
    ⊎ ((r.closed ≡ values w.series) × (r.window.series ≡ []))

module _ {S : Type 0} (cfg : PrecomputeConfig) where
  rotate_locked-HandsOver :
      (now_ms : ℕ) (w : WindowState S) → HandsOver w (rotate_locked cfg now_ms w)
  rotate_locked-HandsOver now_ms w =
      let (all, next) = rotate_locked_lem cfg now_ms w w.series refl in
      inr (all, rw next (series-advance_window cfg now_ms (record w { series = [] })))

  pub rotate-HandsOver : (now_ms : ℕ) (w : WindowState S) → HandsOver w (rotate cfg now_ms w)
  unfolding rotate
  rotate-HandsOver now_ms w = elim (Bool-cases w.initialized) [
    | inr unset ↦ inl (rw unset refl, rw unset refl)
    | inl i ↦ elim (Bool-cases (ltb 0 (window_size_ms cfg) && ltb now_ms w.active_end_ms)) [
      | inl early ↦ inl (rw (i, early) refl, rw (i, early) refl)
      | inr due ↦
          let same : rotate cfg now_ms w ≡ rotate_locked cfg now_ms w = simp (i, due) in
          subst (HandsOver w) (sym same) (rotate_locked-HandsOver now_ms w)
    ]
  ]

  pub drain-HandsOver : (w : WindowState S) → HandsOver w (drain_window cfg w)
  unfolding drain_window
  drain-HandsOver w = elim (Bool-cases w.initialized) [
    | inr unset ↦ inl (rw unset refl, rw unset refl)
    | inl i ↦ elim (list_cases w.series) [
      | inl e ↦ inl (simp (i, e), simp (i, e))
      | inr (x, rest, e) ↦
          let same : drain_window cfg w ≡ rotate_locked cfg w.active_end_ms w = simp (i, e) in
          subst (HandsOver w) (sym same) (rotate_locked-HandsOver w.active_end_ms w)
    ]
  ]
