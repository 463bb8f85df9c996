-- ===== src/Precompute.antt =====
-- `PrecomputeImpl` of asap-precompute-rs/src/precompute.rs. Each method runs to its end before the
-- next one: a call is one step of the state, and takes the mutable parts of the object together.
pub mod Emit
pub mod Ingest
pub mod Emission
pub mod Calls
pub mod Counters
pub mod Conservation
pub mod Trace
pub mod Runs
use asapcollector_public.Common.{
  ℕ, ◌+◌, ◌≡◌, Bool, true, false, ◌&&◌, not, Option, none, some, List, [], ◌∷◌, ◌++◌, map, find,
  first, length, ◌==◌, if◌then◌else◌, saturating_add,
}
use asapcollector_public.Common.Text.{Text, text, decimal}
use asapcollector_public.Envelope.{KeyValue, SketchType, SketchEnvelope, unspecified, same_type}
use asapcollector_public.Error.{
  PrecomputeError, Result, ok, err, series_cap_exceeded, late_data, no_config, agg_id_mismatch,
  sketch_type_mismatch, other,
}
use asapcollector_public.Observation.{Observation, is_envelope}
use asapcollector_public.Matchers.{series_attrs}
use asapcollector_public.Config.{PrecomputeConfig, PrecomputeConfigSet, as_secs, matches}
use asapcollector_public.Sketch.{Sketch, EstimatePoint, SketchFactory, SketchObserver}
use asapcollector_public.Stats.{StatsSnapshot, no_stats}
use asapcollector_public.Window.{SeriesEntry, WindowState, Rotation, Outcome}
use asapcollector_public.Window
use asapcollector_public.Window.Merge
use asapcollector_public.Window.Rotate

pub record PrecomputeImpl (S : Type 0) : Type 0 where
  pub cfg : Option PrecomputeConfig
  pub sketch_factory : Option (SketchFactory S)
  pub observer : Option (SketchObserver S)
  pub window : WindowState S
  pub stats : StatsSnapshot
  pub sketch_type : SketchType
  pub closed : Bool

abbrev or_else : {A : Type 0} → Option A → Option A → Option A
or_else none b = b
or_else (some a) b = some a

abbrev sketch_type_of : Option PrecomputeConfig → SketchType
sketch_type_of none = unspecified
sketch_type_of (some c) = c.sketch_type

-- The config that a set puts in place of the active one.
chosen : Option PrecomputeConfig → List PrecomputeConfig → Option PrecomputeConfig
chosen none configs = first configs
chosen (some active) configs =
    or_else (find (λ c. c.agg_id == active.agg_id) configs) (first configs)

module _ {S : Type 0} where
  pub new :
      Option PrecomputeConfig
      → Option (SketchFactory S)
      → Option (SketchObserver S)
      → PrecomputeImpl S
  new initial_cfg sketch_factory observer = record {
    cfg = initial_cfg;
    sketch_factory = sketch_factory;
    observer = observer;
    window = Window.new;
    stats = no_stats;
    sketch_type = sketch_type_of initial_cfg;
    closed = false;
  }

  unfoldable pub shutdown : PrecomputeImpl S → Result (Unit {0}) × PrecomputeImpl S
  shutdown p = (ok tt, record p { closed = true })

  pub active_config : PrecomputeImpl S → Option PrecomputeConfig
  active_config p = p.cfg

  abbrev install : PrecomputeImpl S → Option PrecomputeConfig → PrecomputeImpl S
  install p none = p
  install p (some c) = record p { cfg = some c }

  unfoldable pub update_config : PrecomputeConfigSet → PrecomputeImpl S → PrecomputeImpl S
  unfolding chosen
  update_config cs p = elim cs.configs [ [] ↦ p | c ∷ rest ↦ install p (chosen p.cfg (c ∷ rest)) ]
