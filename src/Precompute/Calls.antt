-- ===== src/Precompute/Calls.antt =====
-- Which calls of asap-precompute-rs/src/precompute.rs are taken, and what they leave.
use asapcollector_public.Common.{
  ℕ, ◌≡◌, ◌≢◌, ◌⊎◌, refl, ap, subst, true, false, Option, none, some, List, [], ◌∷◌, ◌++◌, arith,
  inl, inr, Bool-cases, Option-cases, All, find, ◌==◌, ==_iff,
}
use asapcollector_public.Common.Maps.{or_default}
use asapcollector_public.Envelope.{SketchEnvelope, unspecified, same_type, same_type_iff}
use asapcollector_public.Error.{err}
use asapcollector_public.Observation.{Observation}
use asapcollector_public.Config.{PrecomputeConfig, PrecomputeConfigSet}
use asapcollector_public.Sketch.{Sketch, is_ok}
use asapcollector_public.Precompute.{PrecomputeImpl, shutdown, chosen, update_config}
use asapcollector_public.Precompute.Emit.{drain, finish_rotate, finish_with}
use asapcollector_public.Precompute.Ingest.{
  observe, observe_envelope, checked_envelope, agg_ids_differ, types_differ, instance_closed,
}

-- The envelope is one for the configuration.
pub record IsFor (cfg : PrecomputeConfig) (env : SketchEnvelope) : Type 0 where
  pub ids : (cfg.agg_id ≡ 0) ⊎ (env.agg_id ≡ 0) ⊎ (env.agg_id ≡ cfg.agg_id)
  pub types :
      (cfg.sketch_type ≡ unspecified)
      ⊎ (env.sketch_type ≡ unspecified)
      ⊎ (env.sketch_type ≡ cfg.sketch_type)

ids_agree :
    (cfg : PrecomputeConfig) (env : SketchEnvelope)
    → agg_ids_differ cfg env ≡ false
    → (cfg.agg_id ≡ 0) ⊎ (env.agg_id ≡ 0) ⊎ (env.agg_id ≡ cfg.agg_id)
ids_agree cfg env h = elim (Bool-cases (cfg.agg_id == 0)) [
  | inl e ↦ inl ((==_iff cfg.agg_id 0).0 e)
  | inr a ↦ elim (Bool-cases (env.agg_id == 0)) [
    | inl e ↦ inr (inl ((==_iff env.agg_id 0).0 e))
    | inr b ↦ inr (inr ((==_iff env.agg_id cfg.agg_id).0 (ground (arith, a, b, h))))
  ]
]

types_agree :
    (cfg : PrecomputeConfig) (env : SketchEnvelope)
    → types_differ cfg env ≡ false
    → (cfg.sketch_type ≡ unspecified)
      ⊎ (env.sketch_type ≡ unspecified)
      ⊎ (env.sketch_type ≡ cfg.sketch_type)
types_agree cfg env h = elim (Bool-cases (same_type cfg.sketch_type unspecified)) [
  | inl e ↦ inl ((same_type_iff cfg.sketch_type unspecified).0 e)
  | inr a ↦ elim (Bool-cases (same_type env.sketch_type unspecified)) [
    | inl e ↦ inr (inl ((same_type_iff env.sketch_type unspecified).0 e))
    | inr b ↦ elim (Bool-cases (same_type env.sketch_type cfg.sketch_type)) [
      | inl e ↦ inr (inr ((same_type_iff env.sketch_type cfg.sketch_type).0 e))
      | inr c ↦ absurd (ground (arith, a, b, c, h))
    ]
  ]
]

module _ {S : Type 0} (ops : Sketch S) where
  -- Once shut down, an instance refuses every observation and every envelope and does not change,
  -- and a drain still emits what it would have emitted before.
  pub shutdown_lem :
      (obs : Observation) (env : SketchEnvelope) (p : PrecomputeImpl S)
      → let q = (shutdown p).1 in
        (observe ops obs q ≡ (err instance_closed, q))
        × (observe_envelope ops env q ≡ (err instance_closed, q))
        × ((drain ops q).0 ≡ (drain ops p).0)
  unfolding shutdown observe observe_envelope drain finish_rotate finish_with
  shutdown_lem obs env p = (refl, refl, ground arith)

  -- An envelope that is taken is one for the installed configuration: the ids are equal unless one
  -- of them is 0, and the types are equal unless one of them is unspecified; and the instance is
  -- not shut down.
  pub observe_envelope_accepts :
      (env : SketchEnvelope) (p : PrecomputeImpl S)
      → is_ok (observe_envelope ops env p).0 ≡ true
      → (cfg : PrecomputeConfig) × (p.cfg ≡ some cfg) × IsFor cfg env × (p.closed ≡ false)
  unfolding observe_envelope checked_envelope
  observe_envelope_accepts env p h = elim (Bool-cases p.closed) [
    | inl c ↦ absurd (ground arith)
    | inr c ↦ elim (Option-cases p.cfg) [
      | inl e ↦ absurd (ground arith)
      | inr (cfg, e) ↦ (
        cfg,
        e,
        record {
          ids = ids_agree cfg env (ground arith);
          types = types_agree cfg env (ground arith);
        },
        c,
      )
    ]
  ]

-- No configuration of the list has the id.
abbrev pub LacksId : ℕ → List PrecomputeConfig → Type 0
LacksId id = All (λ c. c.agg_id ≢ id)

-- The configuration that an update leaves installed, from the one before and the new list.
pub data IsInstalled (old : Option PrecomputeConfig) (configs : List PrecomputeConfig)
    : Option PrecomputeConfig → Type 0 where
  nothing_new : configs ≡ [] → IsInstalled old configs old
  -- The first one of the active id.
  same_id :
      (active c : PrecomputeConfig) (before after : List PrecomputeConfig)
      → old ≡ some active
      → configs ≡ before ++ c ∷ after
      → LacksId active.agg_id before
      → c.agg_id ≡ active.agg_id
      → IsInstalled old configs (some c)
  -- The first one of all, if none has the active id.
  first_one :
      (c : PrecomputeConfig) (rest : List PrecomputeConfig)
      → configs ≡ c ∷ rest
      → ((active : PrecomputeConfig) → old ≡ some active → LacksId active.agg_id configs)
      → IsInstalled old configs (some c)

-- Where a search by id ends.
find-parts :
    (id : ℕ) (l : List PrecomputeConfig)
    → ((find (λ c. c.agg_id == id) l ≡ none) × LacksId id l)
      ⊎ ((c : PrecomputeConfig) × (before : List PrecomputeConfig) × (after : List PrecomputeConfig)
          × (find (λ c. c.agg_id == id) l ≡ some c)
          × (l ≡ before ++ c ∷ after)
          × LacksId id before
          × (c.agg_id ≡ id))
find-parts id [] = inl (refl, tt)
find-parts id (c ∷ l) = elim (Bool-cases (c.agg_id == id)) [
  | inl e ↦ inr (c, [], l, rw (find, e) refl, refl, tt, (==_iff c.agg_id id).0 e)
  | inr e ↦
      let differs : c.agg_id ≢ id = λ h. ground (arith, (==_iff c.agg_id id).1 h, e) in
      elim (find-parts id l) [
        | inl (gone, lacks) ↦ inl (rw (find, e) gone, (differs, lacks))
        | inr (d, before, after, found, parts, lacks, same) ↦ inr (
          d,
          c ∷ before,
          after,
          rw (find, e) found,
          ap (λ t. c ∷ t) parts,
          (differs, lacks),
          same,
        )
      ]
]

chosen-IsInstalled :
    (old : Option PrecomputeConfig) (c : PrecomputeConfig) (rest : List PrecomputeConfig)
    → (new : PrecomputeConfig) × (chosen old (c ∷ rest) ≡ some new)
      × IsInstalled old (c ∷ rest) (some new)
unfolding chosen
chosen-IsInstalled none c rest =
    (c, refl, first_one c rest refl (λ active h. absurd (ground (arith, h))))
chosen-IsInstalled (some active) c rest = elim (find-parts active.agg_id (c ∷ rest)) [
  | inl (gone, lacks) ↦ (
    c,
    rw gone refl,
    first_one c rest refl
        (λ other h. subst (λ o. LacksId (or_default active o).agg_id (c ∷ rest)) h lacks),
  )
  | inr (d, before, after, found, parts, lacks, same) ↦
      (d, rw found refl, same_id active d before after refl parts lacks same)
]

update_config_from :
    {S : Type 0} (cs : PrecomputeConfigSet) (p : PrecomputeImpl S) (configs : List PrecomputeConfig)
    → cs.configs ≡ configs
    → (new : Option PrecomputeConfig) × IsInstalled p.cfg configs new
      × (update_config cs p ≡ record p { cfg = new })
unfolding update_config
update_config_from cs p [] e = (p.cfg, nothing_new refl, rw e refl)
update_config_from cs p (c ∷ rest) e =
    let (new, picked, installed) = chosen-IsInstalled p.cfg c rest in
    (some new, installed, rw (e, picked) refl)

-- An update installs the first configuration of the active id; the first one of the list, if none
-- has that id or none is active; and nothing, if the list is empty. It keeps the window, the
-- counters and the rest of the instance.
pub update_config_lem :
    {S : Type 0} (cs : PrecomputeConfigSet) (p : PrecomputeImpl S)
    → (new : Option PrecomputeConfig) × IsInstalled p.cfg cs.configs new
      × (update_config cs p ≡ record p { cfg = new })
update_config_lem cs p = update_config_from cs p cs.configs refl
