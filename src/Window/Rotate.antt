-- ===== src/Window/Rotate.antt =====
-- `rotate`, `drain` and their helpers of asap-precompute-rs/src/window.rs.
use asapcollector_public.Common.{
  ℕ, ◌*◌, ◌/◌, ◌&&◌, [], ◌∷◌, ltb, leb, ◌==◌, if◌then◌else◌, wrapping_add,
}
use asapcollector_public.Common.Assoc.{values, text_key}
use asapcollector_public.Config.{PrecomputeConfig}
use asapcollector_public.Window.{WindowState, Rotation, window_size_ms}

module _ {S : Type 0} (cfg : PrecomputeConfig) where
  unfoldable pub advance_window : ℕ → WindowState S → WindowState S
  advance_window now_ms w =
      let size = window_size_ms cfg in
      let bucket_start = (now_ms / size) * size in
      let start = if leb bucket_start w.active_start_ms then w.active_end_ms else bucket_start in
      if size == 0
      then record w { active_start_ms = now_ms; active_end_ms = now_ms }
      else record w { active_start_ms = start; active_end_ms = wrapping_add start size }

  abbrev nothing : WindowState S → Rotation S
  nothing w = record { closed = []; from_ms = 0; to_ms = 0; window = w }

  unfoldable pub rotate_locked : ℕ → WindowState S → Rotation S
  unfolding advance_window
  rotate_locked now_ms w = elim w.series [
    | [] ↦ nothing (advance_window now_ms w)
    | entry ∷ rest ↦ record {
      closed = values (entry ∷ rest);
      from_ms = w.active_start_ms;
      to_ms = w.active_end_ms;
      window = advance_window now_ms (record w { series = [] });
    }
  ]

  unfoldable pub rotate : ℕ → WindowState S → Rotation S
  rotate now_ms w =
      if w.initialized
      then (if ltb 0 (window_size_ms cfg) && ltb now_ms w.active_end_ms
          then nothing w
          else rotate_locked now_ms w)
      else nothing w

  unfoldable pub drain_window : WindowState S → Rotation S
  drain_window w =
      if w.initialized
      then (elim w.series [ [] ↦ nothing w | entry ∷ rest ↦ rotate_locked w.active_end_ms w ])
      else nothing w
