-- ===== src/Tests/Runtime.antt =====
-- The theorems on the runtime, at an instance with one or two series.
use asapcollector_public.Common.{
  Option, List, ◌+◌, ◌≡◌, refl, false, some, [], ◌∷◌, arith, inl, All,
}
use asapcollector_public.Common.Assoc.{text_key}
use asapcollector_public.Error.{err}
use asapcollector_public.Config.{PrecomputeConfig, PrecomputeConfigSet, series_key_for_entry}
use asapcollector_public.Window.{window_size_ms, init_window, at_cap, make_room}
use asapcollector_public.Window.Merge
use asapcollector_public.Window.Merge.{insert_missing, merge_entry, envelope_entry, reference_ms}
use asapcollector_public.Common.Text.{decimal, text_eq}
use asapcollector_public.Matchers.{series_key}
use asapcollector_public.Window.Bounds.{IsAligned}
use asapcollector_public.Precompute.{shutdown, update_config}
use asapcollector_public.Precompute.Emit.{tick, drain}
use asapcollector_public.Precompute.Ingest.{
  observe, observe_envelope, checked_envelope, instance_closed,
}
use asapcollector_public.Precompute.Conservation.{Conserves, tick-Conserves, drain-Conserves}
use asapcollector_public.Precompute.Emission.{IsStamped, tick-IsStamped}
use asapcollector_public.Precompute.Emission.{sum_counts}
use asapcollector_public.Precompute.Trace.{weight, IsRunning}
use asapcollector_public.Precompute.Runs.{
  Call, observes, ticks, drains, run, all_accepted, held, run-Balances,
}
use asapcollector_public.Config.{matches}
use asapcollector_public.Precompute.Calls.{
  shutdown_lem, observe_envelope_accepts, update_config_lem, IsFor, IsInstalled,
}
use asapcollector_public.Precompute.Counters.{tick_leaves_active_series}
use asapcollector_public.Tests.Fixtures.{
  counter_observer, counter, counter_laws, cfg, observation, envelope, one_series, two_series,
  instance_of,
}

abbrev aligned : IsAligned cfg (instance_of cfg one_series).window
unfolding window_size_ms
aligned = record { index = 1; multiple = refl; width = refl }

tick-Conserves_example : Conserves counter two_series (tick counter 25 (instance_of cfg two_series))
tick-Conserves_example =
    tick-Conserves counter counter_laws cfg 25 (instance_of cfg two_series) refl refl
      (inl (omega arith), (inl (omega arith), tt))

drain-Conserves_example : Conserves counter two_series (drain counter (instance_of cfg two_series))
drain-Conserves_example =
    drain-Conserves counter counter_laws cfg (instance_of cfg two_series) refl refl
      (inl (omega arith), (inl (omega arith), tt))

tick-IsStamped_example :
    All (IsStamped cfg 10 20) (tick counter 25 (instance_of cfg two_series)).0
    × All (IsStamped cfg 10 20) (drain counter (instance_of cfg two_series)).0
tick-IsStamped_example = tick-IsStamped counter (instance_of cfg two_series) cfg 25 refl

shutdown_lem_example :
    let p = instance_of cfg two_series in
    let q = (shutdown p).1 in
    (observe counter observation q ≡ (err instance_closed, q))
    × (observe_envelope counter envelope q ≡ (err instance_closed, q))
    × ((drain counter q).0 ≡ (drain counter p).0)
shutdown_lem_example = shutdown_lem counter observation envelope (instance_of cfg two_series)

observe_envelope_accepts_example :
    (c : PrecomputeConfig) × ((instance_of cfg []).cfg ≡ some c)
    × IsFor c envelope
    × ((instance_of cfg []).closed ≡ false)
unfolding observe_envelope checked_envelope Merge.observe_envelope insert_missing merge_entry
    init_window at_cap make_room envelope_entry reference_ms series_key_for_entry series_key decimal
    text_eq Merge.merge_at
observe_envelope_accepts_example =
    observe_envelope_accepts counter envelope (instance_of cfg []) refl

abbrev other_config : PrecomputeConfig
other_config = record cfg { agg_id = 9 }

abbrev installed : PrecomputeConfig
installed = record cfg { max_series = 5 }

abbrev config_set : PrecomputeConfigSet
config_set = record { version = 2; configs = other_config ∷ installed ∷ [] }

update_config_lem_example :
    (new : Option PrecomputeConfig) × IsInstalled (some cfg) (other_config ∷ installed ∷ []) new
    × (update_config config_set (instance_of cfg two_series)
        ≡ record (instance_of cfg two_series) { cfg = new })
update_config_lem_example = update_config_lem config_set (instance_of cfg two_series)

tick_leaves_active_series_example :
    let q = (tick counter 25 (instance_of cfg one_series)).1 in
    (q.window.series ≡ []) × (q.stats.active_series ≡ 1)
unfolding window_size_ms
tick_leaves_active_series_example =
    tick_leaves_active_series counter (instance_of cfg one_series) cfg 25 refl refl aligned
      (omega arith) (omega arith) (omega arith)

abbrev running : IsRunning counter counter_observer counter_laws cfg (instance_of cfg two_series)
running = record {
  configured = refl;
  observed = refl;
  sound = (inl (omega arith), (inl (omega arith), tt));
}

abbrev calls : List Call
calls = observes observation ∷ ticks 25 ∷ drains ∷ []

run-Balances_example :
    sum_counts (run counter calls (instance_of cfg two_series)).0
      + held counter counter_observer counter_laws cfg
          (run counter calls (instance_of cfg two_series)).1
    ≡ 7 + all_accepted counter cfg calls (instance_of cfg two_series)
unfolding weight matches
run-Balances_example =
    run-Balances counter counter_observer counter_laws cfg calls (instance_of cfg two_series)
      (λ e. ground arith) refl
      (((tt, λ env e. ground arith), omega arith, omega arith), (tt, (tt, tt))) running
