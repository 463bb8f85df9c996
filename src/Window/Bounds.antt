-- ===== src/Window/Bounds.antt =====
-- The bounds of the active window, of asap-precompute-rs/src/window.rs.
use asapcollector_public.Common.{
  ℕ, ◌+◌, ◌*◌, ◌/◌, ◌≤◌, ◌<◌, ◌≡◌, ◌≢◌, refl, true, false, [], ◌∷◌, arith, u64_mod,
}
use native.Mathlib.Nat.{le_refl}
use native.Mathlib.Decide.{dec_lt}
use asapcollector_public.Common.Assoc.{values}
use asapcollector_public.Config.{PrecomputeConfig}
use asapcollector_public.Window.{WindowState, Series, window_size_ms, init_window}
use asapcollector_public.Window.Rotate.{advance_window, rotate_locked, rotate, drain_window}

-- The multiple of `s` below `n`.
bucket : (n s : ℕ) → 0 < s → (n / s * s ≤ n) × (n < n / s * s + s)
bucket n s h = (grind arith, grind arith)

-- A later multiple is later by a whole `s`.
next_multiple : (a q s n : ℕ) → a * s + s ≤ n → n < q * s + s → a * s + s ≤ q * s
next_multiple a q s n h k = elim (dec_lt a q) [ yes p ↦ grind arith | no p ↦ grind arith ]

module _ {S : Type 0} where
  -- A window of one size whose lower bound is a multiple of the size.
  pub record IsAligned (cfg : PrecomputeConfig) (w : WindowState S) : Type 0 where
    pub index : ℕ
    pub multiple : w.active_start_ms ≡ index * window_size_ms cfg
    pub width : w.active_end_ms ≡ w.active_start_ms + window_size_ms cfg

  -- The half-open interval of the window.
  abbrev pub Covers : WindowState S → ℕ → Type 0
  Covers w t = (w.active_start_ms ≤ t) × (t < w.active_end_ms)

  -- The first window of a sized configuration is aligned and covers the reference timestamp,
  -- unless that is within one size of the end of `u64`.
  pub init_window-IsAligned :
      (cfg : PrecomputeConfig) (ref_ms : ℕ) (w : WindowState S)
      → w.initialized ≡ false
      → 0 < window_size_ms cfg
      → ref_ms + window_size_ms cfg < u64_mod
      → IsAligned cfg (init_window ref_ms cfg w) × Covers (init_window ref_ms cfg w) ref_ms
  unfolding init_window
  init_window-IsAligned cfg ref_ms w u h fits =
      let size = window_size_ms cfg in
      let (below, above) = bucket ref_ms size h in
      (
        record { index = ref_ms / size; multiple = ground arith; width = ground arith },
        (ground arith, ground arith),
      )

  -- A window that is due moves to the aligned window that covers the present.
  advance_window_due :
      (cfg : PrecomputeConfig) (now_ms : ℕ) (w : WindowState S)
      → IsAligned cfg w
      → 0 < window_size_ms cfg
      → now_ms + window_size_ms cfg < u64_mod
      → w.active_end_ms ≤ now_ms
      → let v = advance_window cfg now_ms w in
        IsAligned cfg v × Covers v now_ms × (w.active_end_ms ≤ v.active_start_ms)
  unfolding advance_window
  advance_window_due cfg now_ms w a h fits due =
      let size = window_size_ms cfg in
      let (below, above) = bucket now_ms size h in
      let later : w.active_end_ms ≤ now_ms / size * size =
        rw (a.width, a.multiple)
          (next_multiple a.index (now_ms / size) size now_ms (omega arith) above) in
      (
        record { index = now_ms / size; multiple = ground arith; width = ground arith },
        (ground arith, ground arith),
        ground arith,
      )

  -- A window that is not due stays, and nothing is emitted.
  pub rotate_not_due :
      (cfg : PrecomputeConfig) (now_ms : ℕ) (w : WindowState S)
      → 0 < window_size_ms cfg
      → now_ms < w.active_end_ms
      → ((rotate cfg now_ms w).closed ≡ []) × ((rotate cfg now_ms w).window ≡ w)
  unfolding rotate
  rotate_not_due cfg now_ms w h early = (ground arith, ground arith)

  pub series-advance_window :
      (cfg : PrecomputeConfig) (now_ms : ℕ) (w : WindowState S)
      → (advance_window cfg now_ms w).series ≡ w.series
  unfolding advance_window
  series-advance_window cfg now_ms w = ground arith

  -- `rotate_locked` hands out every entry, and leaves no series in a window advanced to `now_ms`.
  pub rotate_locked_lem :
      (cfg : PrecomputeConfig) (now_ms : ℕ) (w : WindowState S) (series : Series S)
      → w.series ≡ series
      → let r = rotate_locked cfg now_ms w in
        (r.closed ≡ values w.series)
        × (r.window ≡ advance_window cfg now_ms (record w { series = [] }))
  unfolding rotate_locked
  rotate_locked_lem cfg now_ms w [] e = (ground arith, ground arith)
  rotate_locked_lem cfg now_ms w (x ∷ rest) e = (ground arith, ground arith)

  -- What is left of the window when its series have been handed out.
  abbrev emptied : WindowState S → WindowState S
  emptied w = record w { series = [] }

  rotate-eq-locked :
      (cfg : PrecomputeConfig) (now_ms : ℕ) (w : WindowState S)
      → w.initialized ≡ true
      → w.active_end_ms ≤ now_ms
      → rotate cfg now_ms w ≡ rotate_locked cfg now_ms w
  unfolding rotate
  rotate-eq-locked cfg now_ms w i due = ground arith

  drain-eq-locked :
      (cfg : PrecomputeConfig) (w : WindowState S)
      → w.initialized ≡ true
      → w.series ≢ []
      → drain_window cfg w ≡ rotate_locked cfg w.active_end_ms w
  unfolding drain_window
  drain-eq-locked cfg w i h = ground arith

  -- When a sized window is due, `rotate` hands out every entry of it, and the next
  -- window is empty, aligned, covers the present, and starts no earlier than the old one ended. The clock is at least one size below the end of `u64`.
  pub rotate_due :
      (cfg : PrecomputeConfig) (now_ms : ℕ) (w : WindowState S)
      → w.initialized ≡ true
      → IsAligned cfg w
      → 0 < window_size_ms cfg
      → now_ms + window_size_ms cfg < u64_mod
      → w.active_end_ms ≤ now_ms
      → let r = rotate cfg now_ms w in
        (r.closed ≡ values w.series)
        × (r.window.series ≡ [])
        × IsAligned cfg r.window
        × Covers r.window now_ms
        × (w.active_end_ms ≤ r.window.active_start_ms)
  rotate_due cfg now_ms w i a h fits due =
      let (all, next) = rotate_locked_lem cfg now_ms w w.series refl in
      let (aligned, covers, later) =
        advance_window_due cfg now_ms (emptied w)
          (record { index = a.index; multiple = a.multiple; width = a.width }) h fits due in
      rw (rotate-eq-locked cfg now_ms w i due) (
        all,
        rw next (series-advance_window cfg now_ms (emptied w)),
        rw next aligned,
        rw next covers,
        rw next later,
      )

  -- Draining a sized window that has series hands out every entry, whatever the clock says, and
  -- the next window is empty, aligned, and starts exactly where the old one ended. The old end is
  -- at least one size below the end of `u64`.
  pub drain_lem :
      (cfg : PrecomputeConfig) (w : WindowState S)
      → w.initialized ≡ true
      → IsAligned cfg w
      → 0 < window_size_ms cfg
      → w.active_end_ms + window_size_ms cfg < u64_mod
      → w.series ≢ []
      → let r = drain_window cfg w in
        (r.closed ≡ values w.series)
        × (r.window.series ≡ [])
        × IsAligned cfg r.window
        × (r.window.active_start_ms ≡ w.active_end_ms)
  drain_lem cfg w i a h fits some_series =
      let (all, next) = rotate_locked_lem cfg w.active_end_ms w w.series refl in
      let (aligned, covers, later) =
        advance_window_due cfg w.active_end_ms (emptied w)
          (record { index = a.index; multiple = a.multiple; width = a.width }) h fits (le_refl _) in
      rw (drain-eq-locked cfg w i some_series) (
        all,
        rw next (series-advance_window cfg w.active_end_ms (emptied w)),
        rw next aligned,
        rw next (omega arith),
      )
