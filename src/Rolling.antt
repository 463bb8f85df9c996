-- ===== src/Rolling.antt =====
-- `KllRollingPrecompute` of asap-precompute-rs/src/kll_windows.rs: sliding KLL estimates over the
-- panes of a `KllWindowStore`. The derived `==` of configurations is a parameter.
pub mod Emission
use asapcollector_public.Common.{
  ℕ, ◌+◌, ◌-◌, ◌*◌, ◌/◌, Bool, true, false, ◌&&◌, ◌||◌, not, Option, none, some, List, [], ◌∷◌,
  find, length, max, min, ltb, leb, ◌==◌, if◌then◌else◌, saturating_add, wrapping_add,
}
use asapcollector_public.Common.Text.{Text, text}
use asapcollector_public.Envelope.{SketchEnvelope}
use asapcollector_public.Error.{Result, ok, err, series_cap_exceeded, late_data}
use asapcollector_public.Observation.{Observation, is_envelope}
use asapcollector_public.Config.{
  PrecomputeConfig, PrecomputeConfigSet, AggregationMode, tumbling, sliding, batch,
}
use asapcollector_public.Sketch.{is_ok}
use asapcollector_public.Stats.{StatsSnapshot, no_stats}
use asapcollector_public.Kll.{KllLib}
use asapcollector_public.KllWindows.{
  KllWindowStore, Stored, invalid, saturating_sub, advance, retained_series,
}
use asapcollector_public.KllWindows.Ingest
use asapcollector_public.KllWindows.Query.{query, estimate}

pub record RollingState (K : Type 0) : Type 0 where
  pub store : KllWindowStore K
  pub last_emit : Option ℕ
  pub upstream_complete_until : Option ℕ
  pub stats : StatsSnapshot
  pub closed : Bool

abbrev is_sliding : AggregationMode → Bool
is_sliding sliding = true
is_sliding _ = false

abbrev pub is_empty : {A : Type 0} → List A → Bool
is_empty [] = true
is_empty (x ∷ xs) = false

-- The drops that a result adds to the counters.
abbrev pub dropped : Result (Unit {0}) → StatsSnapshot → StatsSnapshot
dropped (err late_data) s = record s { dropped_late = wrapping_add s.dropped_late 1 }
dropped (err series_cap_exceeded) s = record s {
  dropped_overflow = wrapping_add s.dropped_overflow 1;
}
dropped _ s = s

-- What an accepted pane says about the upstream.
abbrev pub completed : Result (Unit {0}) → ℕ → Option ℕ → Option ℕ
completed (err e) end complete = complete
completed (ok _) end none = some (max 0 end)
completed (ok _) end (some complete) = some (max complete end)

-- The end of the range that a tick is to emit.
abbrev pub boundary : ℕ → Option ℕ → ℕ
boundary wall none = wall
boundary wall (some complete) = min complete wall

abbrev pub is_emitted : ℕ → Option ℕ → Bool
is_emitted end none = false
is_emitted end (some last) = leb end last

abbrev pub or_none_left : Result (List SketchEnvelope) → List SketchEnvelope
or_none_left (ok envs) = envs
or_none_left (err e) = []

module _ {K : Type 0} where
  abbrev fresh_state : Result (KllWindowStore K) → Result (RollingState K)
  fresh_state (err e) = err e
  fresh_state (ok store) = ok (record {
    store = store;
    last_emit = none;
    upstream_complete_until = none;
    stats = no_stats;
    closed = false;
  })

  unfoldable pub new : PrecomputeConfig → Result (RollingState K)
  new config =
      if not (is_sliding config.mode)
        || ((config.transmit_sketch && not (config.size == config.slide))
            || not (config.allowed_lateness == 0))
      then err
          (invalid (text "overlapping sliding requires scalar output and zero allowed_lateness"))
      else if not config.transmit_sketch && is_empty config.quantiles
      then err (invalid (text "scalar sliding output requires at least one quantile"))
      else fresh_state (Ingest.new config config.slide config.size)

  unfoldable pub active_config : RollingState K → Option PrecomputeConfig
  active_config s = some s.store.config

  unfoldable pub stats_of : RollingState K → StatsSnapshot
  stats_of s = record (s.stats) { active_series = retained_series s.store }

  unfoldable pub shutdown : RollingState K → Result (Unit {0}) × RollingState K
  shutdown s = (ok tt, record s { closed = true })

  unfoldable pub drain : RollingState K → List SketchEnvelope × RollingState K
  drain s = ([], s)

  -- A replacement keeps the counters and the mark of a shutdown.
  abbrev replaced : RollingState K → Result (RollingState K) → RollingState K
  replaced s (err e) = s
  replaced s (ok next) = record next { stats = s.stats; closed = s.closed }

  unfoldable pub update_config :
      (PrecomputeConfig → PrecomputeConfig → Bool)
      → PrecomputeConfigSet
      → RollingState K
      → RollingState K
  update_config same cs s = elim (find (λ c. c.agg_id == s.store.config.agg_id) cs.configs) [
    | none ↦ s
    | some config ↦ if same config s.store.config then s else replaced s (new config)
  ]

module _ {K : Type 0} (lib : KllLib K) where
  abbrev pub Returned : Type 0
  Returned = Result (Unit {0}) × RollingState K

  abbrev count_observation : RollingState K → RollingState K
  count_observation s = record s {
    stats = record (s.stats) { input_observations = saturating_add s.stats.input_observations 1 };
  }

  abbrev count_envelope : RollingState K → RollingState K
  count_envelope s = record s {
    stats = record (s.stats) { input_envelopes = wrapping_add s.stats.input_envelopes 1 };
  }

  -- The result and the store that a call of the store leaves.
  abbrev taken : RollingState K → Option ℕ → Stored K → Returned
  taken s complete (r, store) =
      (r, record s { store = store; upstream_complete_until = complete; stats = dropped r s.stats })

  unfoldable pub observe_envelope : SketchEnvelope → RollingState K → Returned
  observe_envelope env s =
      let o = Ingest.merge_pane lib env s.store in
      if s.closed
      then (err (invalid (text "instance is closed")), s)
      else taken (count_envelope s) (completed o.0 env.window_end_ms s.upstream_complete_until) o

  unfoldable pub observe_any : Observation → RollingState K → Returned
  observe_any obs s =
      if is_envelope obs.value.kind
      then elim obs.value.envelope [
        | none ↦ (err (invalid (text "missing envelope")), s)
        | some env ↦ observe_envelope env s
      ]
      else taken s s.upstream_complete_until (Ingest.observe lib obs s.store)

  unfoldable pub observe : Observation → RollingState K → Returned
  observe obs s =
      if s.closed
      then (err (invalid (text "instance is closed")), s)
      else observe_any obs (count_observation s)

  -- The answers of a store over a range.
  unfoldable pub answers : ℕ → ℕ → KllWindowStore K → List SketchEnvelope
  answers start end store = or_none_left (
      if store.config.transmit_sketch
      then query lib start end store
      else estimate lib start end store)

  -- The panes are closed by the clock, unless an upstream says how far it is.
  abbrev pub caught_up : ℕ → RollingState K → KllWindowStore K
  caught_up now_ms s = elim s.upstream_complete_until [
    | none ↦ advance now_ms s.store
    | some complete ↦ s.store
  ]

  unfoldable pub emit : ℕ → ℕ → RollingState K → List SketchEnvelope × RollingState K
  emit now_ms end s =
      let store = caught_up now_ms s in
      let results = answers (saturating_sub end store.retention_ms) end store in
      (
        results,
        record s {
          store = store;
          last_emit = if is_empty results then s.last_emit else some end;
          stats = record (s.stats) {
            last_tick_ms = now_ms;
            last_emitted_envelopes = length results;
            output_envelopes = wrapping_add s.stats.output_envelopes (length results);
          };
        },
      )

  unfoldable pub tick : ℕ → RollingState K → List SketchEnvelope × RollingState K
  tick now_ms s =
      let end = boundary (now_ms / s.store.pane_ms * s.store.pane_ms) s.upstream_complete_until in
      if s.closed
      then ([], s)
      else if is_emitted end s.last_emit || (end == 0)
      then ([], s)
      else emit now_ms end s
