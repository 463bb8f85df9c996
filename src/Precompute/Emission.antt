-- ===== src/Precompute/Emission.antt =====
-- The envelopes that `finish_rotate` of asap-precompute-rs/src/precompute.rs makes.
use asapcollector_public.Common.{
  ℕ, ◌<◌, ◌≡◌, ◌≢◌, ◌⊎◌, refl, sym, subst, Bool, true, false, some, List, [], ◌∷◌, map, arith, inl,
  inr, Bool-cases, All, All-append, sum_by, sum_by-append, ◌&&◌, ltb,
}
use asapcollector_public.Envelope.{SketchEnvelope}
use asapcollector_public.Error.{Result, ok, err}
use asapcollector_public.Config.{PrecomputeConfig}
use asapcollector_public.Sketch.{Sketch, EstimatePoint}
use asapcollector_public.Window.{Series, SeriesEntry, WindowState, Rotation, window_size_ms}
use asapcollector_public.Window.Rotate.{rotate, rotate_locked, drain_window}
use asapcollector_public.Window.Bounds.{rotate_not_due}
use asapcollector_public.Precompute.{PrecomputeImpl}
use asapcollector_public.Precompute.Emit.{
  envelope_of, estimate_envelope, with_payload, serialize_series, or_skipped, serialize_all,
  Emitted, finish_rotate, finish_with, tick, drain,
}

-- A sketch envelope has a payload, and an estimate has none.
abbrev pub HasPayload : Bool → SketchEnvelope → Type 0
HasPayload true env = env.payload ≢ []
HasPayload false env = env.payload ≡ []

-- The envelope describes the window `[from_ms, to_ms)` under this configuration.
pub record IsStamped (cfg : PrecomputeConfig) (from_ms to_ms : ℕ) (env : SketchEnvelope)
    : Type 0 where
  pub version : env.schema_version ≡ 1
  pub from_window : env.window_start_ms ≡ from_ms
  pub to_window : env.window_end_ms ≡ to_ms
  pub same_agg : env.agg_id ≡ cfg.agg_id
  pub same_type : env.sketch_type ≡ cfg.sketch_type
  pub same_metric : env.metric_name ≡ cfg.metric_name
  pub payload : HasPayload cfg.transmit_sketch env

abbrev pub sum_counts : List SketchEnvelope → ℕ
sum_counts = sum_by (λ env. env.count)

module _ {S : Type 0} (ops : Sketch S) where
  estimates-IsStamped :
      (cfg : PrecomputeConfig) (from_ms to_ms : ℕ) (entry : SeriesEntry S)
      (points : List EstimatePoint)
      → cfg.transmit_sketch ≡ false
      → All
          (IsStamped cfg from_ms to_ms)
          (map (estimate_envelope (envelope_of cfg entry from_ms to_ms)) points)
  unfolding estimate_envelope envelope_of
  estimates-IsStamped cfg from_ms to_ms entry [] h = tt
  estimates-IsStamped cfg from_ms to_ms entry (p ∷ points) h = (
    record {
      version = refl;
      from_window = refl;
      to_window = refl;
      same_agg = refl;
      same_type = refl;
      same_metric = refl;
      payload = rw h refl;
    },
    estimates-IsStamped cfg from_ms to_ms entry points h,
  )

  payload-IsStamped :
      (cfg : PrecomputeConfig) (from_ms to_ms : ℕ) (entry : SeriesEntry S) (r : Result (List ℕ))
      → cfg.transmit_sketch ≡ true
      → All
          (IsStamped cfg from_ms to_ms)
          (or_skipped (with_payload (envelope_of cfg entry from_ms to_ms) r))
  unfolding envelope_of
  payload-IsStamped cfg from_ms to_ms entry (err e) h = tt
  payload-IsStamped cfg from_ms to_ms entry (ok []) h = tt
  payload-IsStamped cfg from_ms to_ms entry (ok (b ∷ bytes)) h = (
    record {
      version = refl;
      from_window = refl;
      to_window = refl;
      same_agg = refl;
      same_type = refl;
      same_metric = refl;
      payload = rw h (λ e. cc);
    },
    tt,
  )

  series-IsStamped :
      (cfg : PrecomputeConfig) (from_ms to_ms : ℕ) (entry : SeriesEntry S)
      → All
          (IsStamped cfg from_ms to_ms)
          (or_skipped (serialize_series ops entry cfg from_ms to_ms))
  unfolding serialize_series
  series-IsStamped cfg from_ms to_ms entry = elim (Bool-cases cfg.transmit_sketch) [
    | inl t ↦ simp t (payload-IsStamped cfg from_ms to_ms entry (ops.snapshot entry.sketch) t)
    | inr t ↦ simp t (estimates-IsStamped cfg from_ms to_ms entry _ t)
  ]

  -- The envelopes of closed series.
  serialize_all-IsStamped :
      (cfg : PrecomputeConfig) (from_ms to_ms : ℕ) (closed : List (SeriesEntry S))
      → All (IsStamped cfg from_ms to_ms) (serialize_all ops cfg from_ms to_ms closed)
  unfolding serialize_all
  serialize_all-IsStamped cfg from_ms to_ms [] = tt
  serialize_all-IsStamped cfg from_ms to_ms (entry ∷ closed) =
      All-append (IsStamped cfg from_ms to_ms) _ _ (series-IsStamped cfg from_ms to_ms entry)
        (serialize_all-IsStamped cfg from_ms to_ms closed)

  -- The rotation hands out nothing, or the window with its own bounds.
  abbrev HandsOut : WindowState S → Rotation S → Type 0
  HandsOut w r = (r.closed ≡ []) ⊎ ((r.from_ms ≡ w.active_start_ms) × (r.to_ms ≡ w.active_end_ms))

  rotate_locked-HandsOut :
      (cfg : PrecomputeConfig) (now_ms : ℕ) (w : WindowState S) (series : Series S)
      → w.series ≡ series
      → HandsOut w (rotate_locked cfg now_ms w)
  unfolding rotate_locked
  rotate_locked-HandsOut cfg now_ms w [] e = inl (rw e refl)
  rotate_locked-HandsOut cfg now_ms w (x ∷ rest) e = inr (rw e (refl, refl))

  rotate-HandsOut :
      (cfg : PrecomputeConfig) (now_ms : ℕ) (w : WindowState S) → HandsOut w (rotate cfg now_ms w)
  unfolding rotate
  rotate-HandsOut cfg now_ms w = elim (Bool-cases w.initialized) [
    | inl i ↦ elim (Bool-cases (ltb 0 (window_size_ms cfg) && ltb now_ms w.active_end_ms)) [
      | inl early ↦ inl (simp (i, early))
      | inr late ↦
          let same : rotate cfg now_ms w ≡ rotate_locked cfg now_ms w = simp (i, late) in
          subst (HandsOut w) (sym same) (rotate_locked-HandsOut cfg now_ms w w.series refl)
    ]
    | inr i ↦ inl (simp i)
  ]

  drain_from-HandsOut :
      (cfg : PrecomputeConfig) (w : WindowState S) (series : Series S)
      → w.series ≡ series
      → w.initialized ≡ true
      → HandsOut w (drain_window cfg w)
  unfolding drain_window
  drain_from-HandsOut cfg w [] h i = inl (simp (i, h))
  drain_from-HandsOut cfg w (x ∷ rest) h i =
      let same : drain_window cfg w ≡ rotate_locked cfg w.active_end_ms w = simp (i, h) in
      subst (HandsOut w) (sym same) (rotate_locked-HandsOut cfg w.active_end_ms w (x ∷ rest) h)

  drain_window-HandsOut :
      (cfg : PrecomputeConfig) (w : WindowState S) → HandsOut w (drain_window cfg w)
  unfolding drain_window
  drain_window-HandsOut cfg w = elim (Bool-cases w.initialized) [
    | inl i ↦ drain_from-HandsOut cfg w w.series refl i
    | inr i ↦ inl (simp i)
  ]

  finish_rotate-IsStamped :
      (cfg : PrecomputeConfig) (w : WindowState S) (r : Rotation S) (now_ms : ℕ)
      (p : PrecomputeImpl S) (closed : List (SeriesEntry S))
      → p.cfg ≡ some cfg
      → r.closed ≡ closed
      → HandsOut w r
      → All (IsStamped cfg w.active_start_ms w.active_end_ms) (finish_rotate ops r now_ms p).0
  unfolding finish_rotate finish_with
  finish_rotate-IsStamped cfg w r now_ms p [] c e h = rw e tt
  finish_rotate-IsStamped cfg w r now_ms p (x ∷ rest) c e (inl gone) =
      absurd (ground (arith, e, gone))
  finish_rotate-IsStamped cfg w r now_ms p (x ∷ rest) c e (inr (from, to)) =
      rw (e, c, from, to) (serialize_all-IsStamped cfg w.active_start_ms w.active_end_ms (x ∷ rest))

  -- Every envelope that a tick or a drain emits has the bounds that the window had before the call,
  -- the id, type and metric of the installed configuration, and a payload exactly if sketches are
  -- transmitted.
  pub tick-IsStamped :
      (p : PrecomputeImpl S) (cfg : PrecomputeConfig) (now_ms : ℕ)
      → p.cfg ≡ some cfg
      → let w = p.window in
        All (IsStamped cfg w.active_start_ms w.active_end_ms) (tick ops now_ms p).0
        × All (IsStamped cfg w.active_start_ms w.active_end_ms) (drain ops p).0
  unfolding tick drain
  tick-IsStamped p cfg now_ms c =
      let w = p.window in
      let r = rotate cfg now_ms w in
      let d = drain_window cfg w in
      let ticked : tick ops now_ms p ≡ finish_rotate ops r now_ms (record p { window = r.window }) =
        simp (tick, c) in
      let drained : drain ops p ≡ finish_rotate ops d d.to_ms (record p { window = d.window }) =
        simp (drain, c) in
      let Stamped : Emitted S → Type 0 =
        λ o. All (IsStamped cfg w.active_start_ms w.active_end_ms) o.0 in
      (
        subst Stamped (sym ticked) (
            finish_rotate-IsStamped cfg w r now_ms (record p { window = r.window }) r.closed c refl
              (rotate-HandsOut cfg now_ms w)),
        subst Stamped (sym drained) (
            finish_rotate-IsStamped cfg w d d.to_ms (record p { window = d.window }) d.closed c refl
              (drain_window-HandsOut cfg w)),
      )

  -- The sketch has a snapshot with content, or the entry has counted nothing.
  abbrev pub IsSound : SeriesEntry S → Type 0
  IsSound e =
      ((b : ℕ) × (bytes : List ℕ) × (ops.snapshot e.sketch ≡ ok (b ∷ bytes))) ⊎ (e.count ≡ 0)

  payload-count :
      (cfg : PrecomputeConfig) (from_ms to_ms : ℕ) (entry : SeriesEntry S) (r : Result (List ℕ))
      → ((b : ℕ) × (bytes : List ℕ) × (r ≡ ok (b ∷ bytes))) ⊎ (entry.count ≡ 0)
      → sum_counts (or_skipped (with_payload (envelope_of cfg entry from_ms to_ms) r)) ≡ entry.count
  unfolding envelope_of
  payload-count cfg from_ms to_ms entry (err e) (inl (b, bytes, h)) = cc
  payload-count cfg from_ms to_ms entry (err e) (inr h) = omega arith
  payload-count cfg from_ms to_ms entry (ok []) (inl (b, bytes, h)) = absurd (ground arith)
  payload-count cfg from_ms to_ms entry (ok []) (inr h) = omega arith
  payload-count cfg from_ms to_ms entry (ok (b ∷ bytes)) h = omega arith

  serialize_series-transmit :
      (cfg : PrecomputeConfig) (from_ms to_ms : ℕ) (entry : SeriesEntry S)
      → cfg.transmit_sketch ≡ true
      → serialize_series ops entry cfg from_ms to_ms
        ≡ with_payload (envelope_of cfg entry from_ms to_ms) (ops.snapshot entry.sketch)
  unfolding serialize_series
  serialize_series-transmit cfg from_ms to_ms entry t = simp t

  -- In the mode that transmits sketches, the counts of the envelopes add up to the counts of the
  -- series, if each series has a snapshot with content or has counted nothing.
  pub sum_counts-serialize_all :
      (cfg : PrecomputeConfig) (from_ms to_ms : ℕ) (closed : List (SeriesEntry S))
      → cfg.transmit_sketch ≡ true
      → All IsSound closed
      → sum_counts (serialize_all ops cfg from_ms to_ms closed) ≡ sum_by (λ e. e.count) closed
  unfolding serialize_all
  sum_counts-serialize_all cfg from_ms to_ms [] t h = refl
  sum_counts-serialize_all cfg from_ms to_ms (entry ∷ closed) t h =
      rw (serialize_series-transmit cfg from_ms to_ms entry t) (
        omega (
          arith,
          sum_by-append (λ (env : SketchEnvelope). env.count)
              (or_skipped
                (with_payload (envelope_of cfg entry from_ms to_ms) (ops.snapshot entry.sketch)))
              (serialize_all ops cfg from_ms to_ms closed),
          payload-count cfg from_ms to_ms entry (ops.snapshot entry.sketch) h.0,
          sum_counts-serialize_all cfg from_ms to_ms closed t h.1,
        ))

  -- A tick before the end of a sized window emits nothing and changes nothing.
  pub tick_not_due :
      (p : PrecomputeImpl S) (cfg : PrecomputeConfig) (now_ms : ℕ)
      → p.cfg ≡ some cfg
      → 0 < window_size_ms cfg
      → now_ms < p.window.active_end_ms
      → tick ops now_ms p ≡ ([], p)
  unfolding tick finish_rotate
  tick_not_due p cfg now_ms e h early =
      let (nothing, same) = rotate_not_due cfg now_ms p.window h early in rw (e, nothing, same)
