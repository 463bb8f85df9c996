-- ===== src/Precompute/Ingest.antt =====
-- `observe` and `observe_envelope` of asap-precompute-rs/src/precompute.rs.
use asapcollector_public.Common.{
  Bool, ◌&&◌, not, Option, none, some, ◌==◌, if◌then◌else◌, saturating_add,
}
use asapcollector_public.Common.Text.{text}
use asapcollector_public.Envelope.{SketchEnvelope, unspecified, same_type}
use asapcollector_public.Error.{
  PrecomputeError, Result, ok, err, series_cap_exceeded, late_data, no_config, agg_id_mismatch,
  sketch_type_mismatch, other,
}
use asapcollector_public.Observation.{Observation, is_envelope}
use asapcollector_public.Config.{PrecomputeConfig, matches}
use asapcollector_public.Sketch.{Sketch, SketchFactory, SketchObserver}
use asapcollector_public.Stats.{StatsSnapshot}
use asapcollector_public.Window.{SeriesEntry, WindowState, Rotation, Outcome}
use asapcollector_public.Window
use asapcollector_public.Window.Merge
use asapcollector_public.Precompute.{PrecomputeImpl}

abbrev pub count_overflow : StatsSnapshot → StatsSnapshot
count_overflow s = record s { dropped_overflow = saturating_add s.dropped_overflow 1 }

abbrev pub count_late : StatsSnapshot → StatsSnapshot
count_late s = record s { dropped_late = saturating_add s.dropped_late 1 }

abbrev pub count_dropped : Result (Unit {0}) → StatsSnapshot → StatsSnapshot
count_dropped (err series_cap_exceeded) s = count_overflow s
count_dropped (err late_data) s = count_late s
count_dropped _ s = s

abbrev pub count_capped : Result (Unit {0}) → StatsSnapshot → StatsSnapshot
count_capped (err series_cap_exceeded) s = count_overflow s
count_capped _ s = s

abbrev pub agg_ids_differ : PrecomputeConfig → SketchEnvelope → Bool
agg_ids_differ cfg env =
    not (cfg.agg_id == 0) && (not (env.agg_id == 0) && not (env.agg_id == cfg.agg_id))

abbrev pub types_differ : PrecomputeConfig → SketchEnvelope → Bool
types_differ cfg env =
    not (same_type cfg.sketch_type unspecified)
    && (not (same_type env.sketch_type unspecified)
        && not (same_type env.sketch_type cfg.sketch_type))

abbrev pub instance_closed : PrecomputeError
instance_closed = other (text "instance is closed")

abbrev pub Returned : Type 0 → Type 0
Returned S = Result (Unit {0}) × PrecomputeImpl S

module _ {S : Type 0} where
  abbrev pub counted_observation : PrecomputeImpl S → PrecomputeImpl S
  counted_observation p = record p {
    stats = record (p.stats) { input_observations = saturating_add p.stats.input_observations 1 };
  }

  abbrev pub counted_envelope : PrecomputeImpl S → PrecomputeImpl S
  counted_envelope p = record p {
    stats = record (p.stats) { input_envelopes = saturating_add p.stats.input_envelopes 1 };
  }

  abbrev pub store :
      (Result (Unit {0}) → StatsSnapshot → StatsSnapshot)
      → PrecomputeImpl S
      → Outcome S
      → Returned S
  store tally p o = (o.0, record p { window = o.1; stats = tally o.0 o.2 })

  abbrev pub scalar_into_window :
      PrecomputeConfig
      → Observation
      → PrecomputeImpl S
      → Option (SketchFactory S)
      → Option (SketchObserver S)
      → Returned S
  scalar_into_window cfg obs p none observer =
      (err (other (text "sketch factory not configured")), p)
  scalar_into_window cfg obs p (some factory) none =
      (err (other (text "sketch observer not configured")), p)
  scalar_into_window cfg obs p (some factory) (some observer) =
      store count_dropped p (Window.observe cfg factory observer obs p.window p.stats)

  -- The part of `observe` behind the counter; `p` has counted the observation.
  unfoldable pub observe_scalar : PrecomputeConfig → Observation → PrecomputeImpl S → Returned S
  observe_scalar cfg obs p =
      if matches cfg obs
      then scalar_into_window cfg obs p p.sketch_factory p.observer
      else (ok tt, p)

module _ {S : Type 0} (ops : Sketch S) where
  -- Past the checks: the factory, then the window.
  abbrev pub envelope_into_window :
      PrecomputeConfig → SketchEnvelope → PrecomputeImpl S → Option (SketchFactory S) → Returned S
  envelope_into_window cfg env p none = (err (other (text "sketch factory not configured")), p)
  envelope_into_window cfg env p (some factory) =
      let q = counted_envelope p in
      store count_capped q (Window.Merge.observe_envelope cfg ops factory env q.window q.stats)

  unfoldable pub checked_envelope :
      PrecomputeConfig → SketchEnvelope → PrecomputeImpl S → Returned S
  checked_envelope cfg env p =
      if agg_ids_differ cfg env
      then (err (agg_id_mismatch env.agg_id cfg.agg_id), p)
      else if types_differ cfg env
      then (err (sketch_type_mismatch env.sketch_type cfg.sketch_type), p)
      else envelope_into_window cfg env p p.sketch_factory

  unfoldable pub observe_envelope : SketchEnvelope → PrecomputeImpl S → Returned S
  observe_envelope env p =
      if p.closed
      then (err instance_closed, p)
      else elim p.cfg [ none ↦ (err no_config, p) | some cfg ↦ checked_envelope cfg env p ]

  unfoldable pub observe_open : PrecomputeConfig → Observation → PrecomputeImpl S → Returned S
  observe_open cfg obs p = elim obs.value.envelope [
    | none ↦ observe_scalar cfg obs (counted_observation p)
    | some env ↦
        if is_envelope obs.value.kind
        then observe_envelope env (counted_observation p)
        else observe_scalar cfg obs (counted_observation p)
  ]

  unfoldable pub observe : Observation → PrecomputeImpl S → Returned S
  observe obs p =
      if p.closed
      then (err instance_closed, p)
      else elim p.cfg [ none ↦ (err no_config, p) | some cfg ↦ observe_open cfg obs p ]
