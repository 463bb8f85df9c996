-- ===== src/Window/Eviction.antt =====
-- The series cap of asap-precompute-rs/src/window.rs under `EvictOldest`: which series goes.
use asapcollector_public.Common.{
  ℕ, ◌≤◌, ◌<◌, ◌≡◌, refl, true, Option, none, some, [], ◌∷◌, arith, All, length, ltb, u64_max, ◌⊎◌,
  inl, inr, Bool-cases, tests, ltb→lt, ltb→le,
}
use asapcollector_public.Common.Text.{Text, text_eq, text_eq_iff}
use asapcollector_public.Common.Assoc.{lookup, remove, IsMap, text_key, eq_self}
use asapcollector_public.Config.{PrecomputeConfig, evict_oldest}
use asapcollector_public.Stats.{StatsSnapshot, one_less_series}
use asapcollector_public.Window.{
  SeriesEntry, Series, at_cap, oldest_key, evict, overflow, make_room,
}

module _ {S : Type 0} where
  abbrev pub AllSince : ℕ → Series S → Type 0
  AllSince t = All (λ p. t ≤ p.1.last_seen_ms)

  -- The entry at `k` was last seen no later than any other.
  abbrev pub Oldest : Text → SeriesEntry S → Series S → Type 0
  Oldest k e series = (lookup k series ≡ some e) × AllSince e.last_seen_ms series

  -- What the scan returns: the best so far if nothing is older, or the oldest of the rest.
  abbrev pub Scanned : Option Text → ℕ → Series S → Option Text → Type 0
  Scanned best oldest_ms series r =
      ((r ≡ best) × AllSince oldest_ms series)
      ⊎ ((k : Text) × (e : SeriesEntry S) × (r ≡ some k)
          × Oldest k e series
          × (e.last_seen_ms < oldest_ms))

  AllSince-mono : (s t : ℕ) (series : Series S) → s ≤ t → AllSince t series → AllSince s series
  AllSince-mono s t [] h a = tt
  AllSince-mono s t (p ∷ series) h a = (omega arith, AllSince-mono s t series h a.1)

  lookup_behind :
      (j k : Text) (x e : SeriesEntry S) (series : Series S)
      → lookup j series ≡ none
      → lookup k series ≡ some e
      → lookup k ((j, x) ∷ series) ≡ some e
  lookup_behind j k x e series fresh found = elim (Bool-cases (text_eq j k)) [
    | inl same ↦ cc (fresh, found, (text_eq_iff j k).0 same)
    | inr other ↦ rw other found
  ]

  pub oldest_key-Scanned :
      (best : Option Text) (oldest_ms : ℕ) (series : Series S)
      → IsMap series
      → Scanned best oldest_ms series (oldest_key best oldest_ms series)
  unfolding oldest_key
  oldest_key-Scanned best oldest_ms [] m = inl (refl, tt)
  oldest_key-Scanned best oldest_ms ((j, x) ∷ series) m =
      elim (Bool-cases (ltb x.last_seen_ms oldest_ms)) [
        | inl older ↦ rw older (elim (oldest_key-Scanned (some j) x.last_seen_ms series m.1) [
          | inl (r, since) ↦ inr (j, x, r, (rw (eq_self j), (omega arith, since)), ltb→lt _ _ older)
          | inr (k, e, r, (found, since), less) ↦ inr (
            k,
            e,
            r,
            (lookup_behind j k x e series m.0 found, (omega arith, since)),
            omega (tests, older),
          )
        ])
        | inr newer ↦ rw newer (elim (oldest_key-Scanned best oldest_ms series m.1) [
          | inl (r, since) ↦ inl (r, (ltb→le _ _ newer, since))
          | inr (k, e, r, (found, since), less) ↦ inr (
            k,
            e,
            r,
            (lookup_behind j k x e series m.0 found, (omega (tests, newer), since)),
            less,
          )
        ])
      ]

  abbrev pub SeenBefore : ℕ → Series S → Type 0
  SeenBefore t = All (λ p. p.1.last_seen_ms < t)

  some_seen :
      (series : Series S)
      → 0 < length series
      → SeenBefore u64_max series
      → ¬ AllSince u64_max series
  some_seen [] h seen since = omega arith
  some_seen (p ∷ series) h seen since = omega arith

  at_cap-pos :
      (cfg : PrecomputeConfig) (series : Series S) → at_cap cfg series ≡ true → 0 < length series
  unfolding at_cap
  at_cap-pos cfg series full = ground arith

  -- At the cap under `EvictOldest`, `make_room` removes a series that was last seen no later than
  -- any other, if no key stands twice and every series was last seen before the last instant of
  -- `u64`.
  pub make_room-evict_oldest :
      (cfg : PrecomputeConfig) (series : Series S) (stats : StatsSnapshot)
      → IsMap series
      → SeenBefore u64_max series
      → at_cap cfg series ≡ true
      → cfg.on_overflow ≡ evict_oldest
      → (k : Text) × (e : SeriesEntry S) × Oldest k e series
        × (make_room cfg series stats ≡ some (remove k series, one_less_series stats))
  unfolding make_room overflow evict
  make_room-evict_oldest cfg series stats m seen full policy =
      elim (oldest_key-Scanned none u64_max series m) [
        | inl (r, since) ↦ absurd (some_seen series (at_cap-pos cfg series full) seen since)
        | inr (k, e, r, oldest, less) ↦ (k, e, oldest, rw (full, policy, r, evict))
      ]
