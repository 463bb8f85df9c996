-- ===== src/Precompute/Conservation.antt =====
-- The counts that `tick` and `drain` of asap-precompute-rs/src/precompute.rs take and emit.
use asapcollector_public.Common.{
  ℕ, ◌+◌, ◌≡◌, refl, ap, ◌∙◌, true, some, List, [], ◌∷◌, arith, inl, inr, All, All-map, sum_by,
}
use asapcollector_public.Common.Assoc.{All-values, sum_by-values}
use asapcollector_public.Config.{PrecomputeConfig}
use asapcollector_public.Sketch.{Sketch, SketchObserver}
use asapcollector_public.Window.{SeriesEntry, WindowState, Rotation, Series}
use asapcollector_public.Window.Rotate.{rotate, drain_window}
use asapcollector_public.Window.Counts.{total_count}
use asapcollector_public.Window.Soundness.{
  list_cases, SketchLaws, HandsOver, IsSoundEntry, IsSound, rotate-HandsOver, drain-HandsOver,
}
use asapcollector_public.Precompute.{PrecomputeImpl}
use asapcollector_public.Precompute.Emit.{finish_rotate, finish_with, tick, drain, Emitted}
use asapcollector_public.Precompute.Emission.{sum_counts, sum_counts-serialize_all}
use asapcollector_public.Precompute.Emission

module _ {S : Type 0} (ops : Sketch S) where
  -- What is emitted, and what is still in the window, add up to what the window held.
  abbrev pub Conserves : Series S → Emitted S → Type 0
  Conserves series o = sum_counts o.0 + total_count o.1.window.series ≡ total_count series

  IsSound-closed :
      {observer : SketchObserver S} (laws : SketchLaws ops observer) (e : SeriesEntry S)
      → IsSoundEntry laws e
      → Emission.IsSound ops e
  IsSound-closed laws e (inl filled) = inl (laws.snapshot_filled e.sketch filled)
  IsSound-closed laws e (inr zero_count) = inr zero_count

  finish_rotate-some :
      (cfg : PrecomputeConfig) (r : Rotation S) (now_ms : ℕ) (p : PrecomputeImpl S)
      (x : SeriesEntry S) (rest : List (SeriesEntry S))
      → r.closed ≡ x ∷ rest
      → p.cfg ≡ some cfg
      → finish_rotate ops r now_ms p ≡ finish_with ops cfg r now_ms p
  unfolding finish_rotate
  finish_rotate-some cfg r now_ms p x rest c e = simp (c, e, finish_rotate)

  finish_rotate-none :
      (r : Rotation S) (now_ms : ℕ) (p : PrecomputeImpl S)
      → r.closed ≡ []
      → finish_rotate ops r now_ms p ≡ ([], p)
  unfolding finish_rotate
  finish_rotate-none r now_ms p c = simp (c, finish_rotate)

  sum_counts-finish_rotate :
      (cfg : PrecomputeConfig) (r : Rotation S) (now_ms : ℕ) (p : PrecomputeImpl S)
      → p.cfg ≡ some cfg
      → cfg.transmit_sketch ≡ true
      → All (Emission.IsSound ops) r.closed
      → (sum_counts (finish_rotate ops r now_ms p).0 ≡ sum_by (λ e. e.count) r.closed)
        × ((finish_rotate ops r now_ms p).1.window ≡ p.window)
  unfolding finish_with
  sum_counts-finish_rotate cfg r now_ms p e t sound = elim (list_cases r.closed) [
    | inl c ↦
        (rw (finish_rotate-none r now_ms p c, c) refl, rw (finish_rotate-none r now_ms p c) refl)
    | inr (x, rest, c) ↦ (
      rw (finish_rotate-some cfg r now_ms p x rest c e)
          (sum_counts-serialize_all ops cfg r.from_ms r.to_ms r.closed t sound),
      rw (finish_rotate-some cfg r now_ms p x rest c e) refl,
    )
  ]

  finish_rotate-Conserves :
      {observer : SketchObserver S} (laws : SketchLaws ops observer) (cfg : PrecomputeConfig)
      (w : WindowState S) (r : Rotation S) (now_ms : ℕ) (p : PrecomputeImpl S)
      → p.cfg ≡ some cfg
      → cfg.transmit_sketch ≡ true
      → p.window ≡ r.window
      → IsSound laws w.series
      → HandsOver w r
      → Conserves w.series (finish_rotate ops r now_ms p)
  finish_rotate-Conserves laws cfg w r now_ms p e t same sound (inl (none_closed, kept)) =
      let (sum, next) = sum_counts-finish_rotate cfg r now_ms p e t (rw none_closed tt) in
      omega (
        arith,
        sum,
        ap (λ (v : WindowState S). total_count v.series) (next ∙ same),
        ap total_count kept,
        ap (sum_by (λ (e : SeriesEntry S). e.count)) none_closed,
      )
  finish_rotate-Conserves laws cfg w r now_ms p e t same sound (inr (all, empty)) =
      let sounds : All (Emission.IsSound ops) r.closed = rw all (
        All-values (Emission.IsSound ops) w.series (
          All-map {P = λ q. IsSoundEntry laws q.1} {Q = λ q. Emission.IsSound ops q.1}
            (λ q. IsSound-closed laws q.1) w.series sound)) in
      let (sum, next) = sum_counts-finish_rotate cfg r now_ms p e t sounds in
      omega (
        arith,
        sum,
        ap (λ (v : WindowState S). total_count v.series) (next ∙ same),
        ap total_count empty,
        ap (sum_by (λ (e : SeriesEntry S). e.count)) all,
        sum_by-values (λ (e : SeriesEntry S). e.count) w.series,
      )

  pub tick-finish_rotate :
      (cfg : PrecomputeConfig) (now_ms : ℕ) (p : PrecomputeImpl S)
      → p.cfg ≡ some cfg
      → let r = rotate cfg now_ms p.window in
        tick ops now_ms p ≡ finish_rotate ops r now_ms (record p { window = r.window })
  unfolding tick
  tick-finish_rotate cfg now_ms p e = simp (e, tick)

  pub drain-finish_rotate :
      (cfg : PrecomputeConfig) (p : PrecomputeImpl S)
      → p.cfg ≡ some cfg
      → let r = drain_window cfg p.window in
        drain ops p ≡ finish_rotate ops r r.to_ms (record p { window = r.window })
  unfolding drain
  drain-finish_rotate cfg p e = simp (e, drain)

  -- In the mode that transmits sketches, a tick loses no observation: the counts of the envelopes
  -- that it emits and the counts left in the window add up to those that the window held before.
  -- It relies on the laws of the sketch, and on entries that have counted having content.
  pub tick-Conserves :
      {observer : SketchObserver S} (laws : SketchLaws ops observer) (cfg : PrecomputeConfig)
      (now_ms : ℕ) (p : PrecomputeImpl S)
      → p.cfg ≡ some cfg
      → cfg.transmit_sketch ≡ true
      → IsSound laws p.window.series
      → Conserves p.window.series (tick ops now_ms p)
  tick-Conserves laws cfg now_ms p e t sound =
      let r = rotate cfg now_ms p.window in
      rw (tick-finish_rotate cfg now_ms p e) (
        finish_rotate-Conserves laws cfg p.window r now_ms (record p { window = r.window }) e t refl
          sound (rotate-HandsOver cfg now_ms p.window))

  -- In the mode that transmits sketches, a drain loses no observation: the counts of the envelopes
  -- that it emits and the counts left in the window add up to those that the window held before.
  -- It relies on the laws of the sketch, and on entries that have counted having content.
  pub drain-Conserves :
      {observer : SketchObserver S} (laws : SketchLaws ops observer) (cfg : PrecomputeConfig)
      (p : PrecomputeImpl S)
      → p.cfg ≡ some cfg
      → cfg.transmit_sketch ≡ true
      → IsSound laws p.window.series
      → Conserves p.window.series (drain ops p)
  drain-Conserves laws cfg p e t sound =
      let r = drain_window cfg p.window in
      rw (drain-finish_rotate cfg p e) (
        finish_rotate-Conserves laws cfg p.window r r.to_ms (record p { window = r.window }) e t
          refl sound (drain-HandsOver cfg p.window))
