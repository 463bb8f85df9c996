-- ===== src/Tests/Windows.antt =====
-- The theorems on the window, at windows of one and two series.
use asapcollector_public.Common.{ℕ, ◌≤◌, ◌≡◌, refl, some, [], arith, inl, length}
use asapcollector_public.Common.Text.{Text, text_eq, decimal}
use asapcollector_public.Matchers.{series_key}
use asapcollector_public.Common.Assoc.{IsMap, values, remove, text_key}
use asapcollector_public.Config.{series_key_for_entry}
use asapcollector_public.Stats.{one_less_series}
use asapcollector_public.Window.{SeriesEntry, window_size_ms, at_cap, make_room, observe}
use asapcollector_public.Window.Merge.{observe_envelope}
use asapcollector_public.Window.Rotate.{rotate, drain_window}
use asapcollector_public.Window.Bounds.{IsAligned, Covers, rotate_due, drain_lem}
use asapcollector_public.Window.Cap.{
  IsCapped, observe-IsCapped, observe_envelope-IsCapped, observe_envelope_over_cap,
}
use asapcollector_public.Window.Eviction.{Oldest, make_room-evict_oldest}
use asapcollector_public.Window.SeriesKeys.{IsFiled, observe-IsFiled, observe_envelope-IsFiled}
use asapcollector_public.Window.Counts.{Adds, observe-Adds, observe_envelope-Adds}
use asapcollector_public.Window.Soundness.{IsSound, observe-IsSound}
use asapcollector_public.Tests.Fixtures.{
  counter, counter_factory, counter_observer, counter_laws, cfg, evicting, observation, envelope,
  one_series, two_series, window_of, stats,
}

not_twice : IsMap two_series
unfolding text_eq
not_twice = (refl, (refl, tt))

abbrev aligned : IsAligned cfg (window_of one_series)
unfolding window_size_ms
aligned = record { index = 1; multiple = refl; width = refl }

abbrev one_filed : IsFiled cfg one_series
one_filed = record { is_map = (refl, tt); filed = (refl, tt) }

rotate_due_example :
    let r = rotate cfg 25 (window_of one_series) in
    (r.closed ≡ values one_series)
    × (r.window.series ≡ [])
    × IsAligned cfg r.window
    × Covers r.window 25
    × (20 ≤ r.window.active_start_ms)
unfolding window_size_ms
rotate_due_example =
    rotate_due cfg 25 (window_of one_series) refl aligned (omega arith) (omega arith) (omega arith)

drain_lem_example :
    let r = drain_window cfg (window_of one_series) in
    (r.closed ≡ values one_series)
    × (r.window.series ≡ [])
    × IsAligned cfg r.window
    × (r.window.active_start_ms ≡ 20)
unfolding window_size_ms
drain_lem_example =
    drain_lem cfg (window_of one_series) refl aligned (omega arith) (omega arith)
      (λ e. ground arith)

observe-IsCapped_example :
    IsCapped evicting
      (observe evicting counter_factory counter_observer observation (window_of two_series) stats)
observe-IsCapped_example =
    observe-IsCapped evicting counter_factory counter_observer observation (window_of two_series)
      stats not_twice (omega arith, (omega arith, tt)) (omega arith) (omega arith)

observe_envelope-IsCapped_example :
    IsCapped cfg
      (observe_envelope cfg counter counter_factory envelope (window_of two_series) stats)
observe_envelope-IsCapped_example =
    observe_envelope-IsCapped cfg counter counter_factory envelope (window_of two_series) stats refl
      (omega arith) (omega arith)

observe_envelope_over_cap_example :
    length
      (observe_envelope evicting counter counter_factory envelope
        (window_of two_series)
        stats).1.series
    ≡ 3
unfolding series_key_for_entry series_key decimal text_eq
observe_envelope_over_cap_example =
    observe_envelope_over_cap evicting counter counter_factory envelope (window_of two_series) stats
      refl refl

make_room-evict_oldest_example :
    (k : Text) × (e : SeriesEntry ℕ) × Oldest k e two_series
    × (make_room evicting two_series stats ≡ some (remove k two_series, one_less_series stats))
unfolding at_cap
make_room-evict_oldest_example =
    make_room-evict_oldest evicting two_series stats not_twice (omega arith, (omega arith, tt)) refl
      refl

observe-Adds_example :
    Adds 1 one_series
      (observe cfg counter_factory counter_observer observation (window_of one_series) stats)
observe-Adds_example =
    observe-Adds cfg counter_factory counter_observer observation (window_of one_series) stats
      (λ e. ground arith) (omega arith)

observe_envelope-Adds_example :
    Adds 4 one_series
      (observe_envelope cfg counter counter_factory envelope (window_of one_series) stats)
observe_envelope-Adds_example =
    observe_envelope-Adds cfg counter counter_factory envelope (window_of one_series) stats
      (omega arith)

observe-IsSound_example :
    IsSound counter_laws
      (observe cfg counter_factory counter_observer observation
        (window_of one_series)
        stats).1.series
observe-IsSound_example =
    observe-IsSound counter_laws cfg counter_factory observation (window_of one_series) stats tt
      (inl (omega arith), tt)

observe-IsFiled_example :
    IsFiled cfg
      (observe cfg counter_factory counter_observer observation
        (window_of one_series)
        stats).1.series
observe-IsFiled_example =
    observe-IsFiled cfg counter_factory counter_observer observation (window_of one_series) stats
      one_filed

observe_envelope-IsFiled_example :
    IsFiled cfg
      (observe_envelope cfg counter counter_factory envelope (window_of one_series) stats).1.series
observe_envelope-IsFiled_example =
    observe_envelope-IsFiled cfg counter counter_factory envelope (window_of one_series) stats
      one_filed
