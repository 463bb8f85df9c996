-- ===== src/KllWindows/Retention.antt =====
-- The panes that `KllWindowStore` of asap-precompute-rs/src/kll_windows.rs keeps.
use asapcollector_public.Common.{
  ℕ, ◌+◌, ◌-◌, ◌*◌, ◌/◌, ◌≤◌, ◌<◌, ◌≡◌, refl, sym, true, false, ◌&&◌, ◌||◌, not, [], ◌∷◌, arith,
  Bool-cases, inl, inr, ltb, leb, ◌==◌, if◌then◌else◌, All, u64_mod,
}
use native.Mathlib.Decide.{dec_lt}
use asapcollector_public.Common.Trees.{entry, split_off}
use asapcollector_public.Common.Assoc.{Assoc}
use asapcollector_public.Common.Text.{Text}
use asapcollector_public.Envelope.{SketchEnvelope, kll_sketch, same_type}
use asapcollector_public.Error.{Result, ok, err}
use asapcollector_public.Observation.{Observation, is_float}
use asapcollector_public.Float.{is_finite}
use asapcollector_public.Config.{PrecomputeConfig, Duration, matches}
use asapcollector_public.Kll.{KllLib, from_snapshot}
use asapcollector_public.KllWindows.{
  Stored, PaneSeries, Pane, KllWindowStore, advance, cutoff, admit, is_multiple_of,
}
use asapcollector_public.KllWindows.Ingest.{
  bad_retention, new, put, put_admitted, merge_admitted, is_empty_payload, observe, observe_pane,
  merge_pane, merge_decoded, upsert,
}

-- The start of a pane that is kept while the panes are closed up to `closed`.
pub record IsKept (pane_ms retention_ms closed start : ℕ) : Type 0 where
  pub index : ℕ
  pub aligned : start ≡ index * pane_ms
  pub recent : closed ≤ start + retention_ms

-- The multiple of `s` below `n`.
bucket : (n s : ℕ) → 0 < s → (n / s * s ≤ n) × (n < n / s * s + s)
bucket n s h = (grind arith, grind arith)

-- A watermark below `n` that is a multiple of `s` is at most the multiple of `s` below `n`.
floor_least : (a q s n : ℕ) → a * s ≤ n → n < q * s + s → a * s ≤ q * s
floor_least a q s n h k = elim (dec_lt q a) [ yes p ↦ grind arith | no p ↦ grind arith ]

-- A multiple stands on its own boundary.
starts : (n s : ℕ) → 0 < s → is_multiple_of n s ≡ true → n ≡ n / s * s
starts n s h m = grind arith

module _ {K : Type 0} where
  -- Panes of one size, within the retention time of the watermark, which is the start of a pane.
  pub record IsRetained (s : KllWindowStore K) : Type 0 where
    pub sized : 0 < s.pane_ms
    pub retains : s.pane_ms ≤ s.retention_ms
    pub index : ℕ
    pub aligned : s.closed_until ≡ index * s.pane_ms
    pub kept : All (λ p. IsKept s.pane_ms s.retention_ms s.closed_until p.0) s.panes

  split_off-IsKept :
      (size retention closed boundary : ℕ) (panes : Assoc ℕ (Pane K))
      → All (λ p. IsKept size retention closed p.0) panes
      → All (λ p. IsKept size retention boundary p.0) (split_off (boundary - retention) panes)
  unfolding split_off
  split_off-IsKept size retention closed boundary [] h = tt
  split_off-IsKept size retention closed boundary ((j, v) ∷ panes) h =
      let rest = split_off-IsKept size retention closed boundary panes h.1 in
      elim (Bool-cases (leb (boundary - retention) j)) [
        | inl a ↦
            rw a (record { index = h.0.index; aligned = h.0.aligned; recent = ground arith }, rest)
        | inr a ↦ rw a rest
      ]

  entry-kept :
      (P : ℕ → Type 0) (key : ℕ) (default : Pane K) (f : Pane K → Pane K) (panes : Assoc ℕ (Pane K))
      → P key
      → All (λ p. P p.0) panes
      → All (λ p. P p.0) (entry key default f panes)
  unfolding entry
  entry-kept P key default f [] k h = (k, tt)
  entry-kept P key default f ((j, v) ∷ panes) k h =
      let rest = entry-kept P key default f panes k h.1 in
      elim (Bool-cases (key == j)) [
        | inl a ↦ rw a h
        | inr a ↦ elim (Bool-cases (ltb key j)) [
          | inl b ↦ rw (a, b) (k, h)
          | inr b ↦ rw (a, b) (h.0, rest)
        ]
      ]

  -- Time moves on: the watermark is the last boundary, and only recent panes stay.
  pub advance-IsRetained :
      (now_ms : ℕ) (s : KllWindowStore K) → IsRetained s → IsRetained (advance now_ms s)
  unfolding advance
  advance-IsRetained now_ms s r =
      let boundary = now_ms / s.pane_ms * s.pane_ms in
      elim (Bool-cases (leb boundary s.closed_until)) [
        | inl a ↦ rw a r
        | inr a ↦ simp a (record {
          sized = r.sized;
          retains = r.retains;
          index = now_ms / s.pane_ms;
          aligned = refl;
          kept = split_off-IsKept s.pane_ms s.retention_ms s.closed_until boundary s.panes r.kept;
        })
      ]

  closed-advance :
      (now_ms : ℕ) (s : KllWindowStore K)
      → let boundary = now_ms / s.pane_ms * s.pane_ms in
        (advance now_ms s).closed_until
        ≡ (if leb boundary s.closed_until then s.closed_until else boundary)
  unfolding advance
  closed-advance now_ms s = ground arith

  sizes-advance :
      (now_ms : ℕ) (s : KllWindowStore K)
      → ((advance now_ms s).pane_ms ≡ s.pane_ms)
        × ((advance now_ms s).retention_ms ≡ s.retention_ms)
  unfolding advance
  sizes-advance now_ms s = (ground arith, ground arith)

  put-IsRetained :
      (start : ℕ) (key : Text) (fresh : PaneSeries K) (f : PaneSeries K → PaneSeries K)
      (s : KllWindowStore K)
      → IsKept s.pane_ms s.retention_ms s.closed_until start
      → IsRetained s
      → IsRetained (put start key fresh f s)
  unfolding put
  put-IsRetained start key fresh f s k r = record {
    sized = r.sized;
    retains = r.retains;
    index = r.index;
    aligned = r.aligned;
    kept =
        entry-kept (IsKept s.pane_ms s.retention_ms s.closed_until) start [] (upsert key fresh f)
          s.panes k r.kept;
  }

  -- The pane of a timestamp that is not late is one to keep once time has moved on to it.
  start-IsKept :
      (t : ℕ) (s : KllWindowStore K)
      → IsRetained s
      → s.closed_until ≤ t
      → let s' = advance t s in
        IsKept s'.pane_ms s'.retention_ms s'.closed_until (t / s.pane_ms * s.pane_ms)
  start-IsKept t s r h =
      let (below, above) = bucket t s.pane_ms r.sized in
      let least = floor_least r.index (t / s.pane_ms) s.pane_ms t (rw (sym r.aligned) h) above in
      let (same_pane, same_retention) = sizes-advance t s in
      let closed = closed-advance t s in
      rw (same_pane, same_retention)
        (record {
          index = t / s.pane_ms;
          aligned = refl;
          recent = ground (arith, closed, r.aligned);
        })

module _ {K : Type 0} (lib : KllLib K) where
  abbrev Keeps : Stored K → Type 0
  Keeps o = IsRetained o.1

  admitted-IsRetained :
      (start : ℕ) (key : Text) (fresh : PaneSeries K) (f : PaneSeries K → PaneSeries K)
      (s : KllWindowStore K) (r : Result (Unit {0}))
      → IsKept s.pane_ms s.retention_ms s.closed_until start
      → IsRetained s
      → IsRetained (put_admitted lib start key fresh f s r).1
  admitted-IsRetained start key fresh f s (err e) k r = r
  admitted-IsRetained start key fresh f s (ok _) k r = put-IsRetained start key fresh f s k r

  observe_pane-IsRetained :
      (obs : Observation) (s : KllWindowStore K)
      → s.closed_until ≤ obs.timestamp_ms
      → IsRetained s
      → IsRetained (observe_pane lib obs s).1
  unfolding observe_pane
  observe_pane-IsRetained obs s h r =
      admitted-IsRetained _ _ _ _ (advance obs.timestamp_ms s)
        (admit _ (advance obs.timestamp_ms s)) (start-IsKept obs.timestamp_ms s r h)
        (advance-IsRetained obs.timestamp_ms s r)

  -- An observation, stored or refused, leaves a store that keeps only aligned panes within the
  -- retention time of its watermark, if it was such a store before.
  pub observe-IsRetained :
      (obs : Observation) (s : KllWindowStore K) → IsRetained s → IsRetained (observe lib obs s).1
  unfolding observe
  observe-IsRetained obs s r = elim (Bool-cases (not (matches s.config obs))) [
    | inl a ↦ rw a r
    | inr a ↦ elim (Bool-cases (not (is_float obs.value.kind) || not (is_finite obs.value.float))) [
      | inl b ↦ rw (a, b) r
      | inr b ↦ elim (Bool-cases (ltb obs.timestamp_ms s.closed_until)) [
        | inl c ↦ rw (a, b, c) r
        | inr c ↦
            elim (Bool-cases (leb u64_mod (obs.timestamp_ms / s.pane_ms * s.pane_ms + s.pane_ms))) [
              | inl d ↦ rw (a, b, c, d) r
              | inr d ↦ rw (a, b, c, d) (observe_pane-IsRetained obs s (ground arith) r)
            ]
      ]
    ]
  ]

  merge_admitted-IsRetained :
      (env : SketchEnvelope) (source : K) (key : Text) (fresh : PaneSeries K) (s : KllWindowStore K)
      (r : Result (Unit {0}))
      → IsKept s.pane_ms s.retention_ms s.closed_until env.window_start_ms
      → IsRetained s
      → IsRetained (merge_admitted lib env source key fresh s r).1
  merge_admitted-IsRetained env source key fresh s (err e) k r = r
  merge_admitted-IsRetained env source key fresh s (ok _) k r =
      put-IsRetained env.window_start_ms key fresh _ s k r

  merged-IsKept :
      (env : SketchEnvelope) (s : KllWindowStore K) (index : ℕ)
      → IsRetained s
      → env.window_start_ms ≡ index * s.pane_ms
      → env.window_end_ms ≡ env.window_start_ms + s.pane_ms
      → cutoff s ≤ env.window_start_ms
      → let s' = advance env.window_end_ms s in
        IsKept s'.pane_ms s'.retention_ms s'.closed_until env.window_start_ms
  unfolding cutoff
  merged-IsKept env s index r aligned width recent =
      let (below, above) = bucket env.window_end_ms s.pane_ms r.sized in
      let (same_pane, same_retention) = sizes-advance env.window_end_ms s in
      let closed = closed-advance env.window_end_ms s in
      rw (same_pane, same_retention)
        (record { index = index; aligned = aligned; recent = ground (arith, closed, r.retains) })

  merge_decoded-IsRetained :
      (env : SketchEnvelope) (s : KllWindowStore K) (source : Result K) (index : ℕ)
      → IsRetained s
      → env.window_start_ms ≡ index * s.pane_ms
      → env.window_end_ms ≡ env.window_start_ms + s.pane_ms
      → IsRetained (merge_decoded lib env s source).1
  unfolding merge_decoded
  merge_decoded-IsRetained env s (err e) index r aligned width = r
  merge_decoded-IsRetained env s (ok source) index r aligned width =
      elim (Bool-cases (ltb env.window_start_ms (cutoff s))) [
        | inl late ↦ rw late r
        | inr on_time ↦ rw on_time (
            merge_admitted-IsRetained env source _ _ (advance env.window_end_ms s)
              (admit _ (advance env.window_end_ms s))
              (merged-IsKept env s index r aligned width (ground arith))
              (advance-IsRetained env.window_end_ms s r))
      ]

  -- A pane from upstream, merged or refused, leaves a store that keeps only aligned panes within
  -- the retention time of its watermark, if it was such a store before.
  pub merge_pane-IsRetained :
      (env : SketchEnvelope) (s : KllWindowStore K)
      → IsRetained s
      → IsRetained (merge_pane lib env s).1
  unfolding merge_pane
  merge_pane-IsRetained env s r =
      let end_ms = env.window_start_ms + s.pane_ms in
      elim (Bool-cases
        (not (same_type env.sketch_type kll_sketch) || is_empty_payload env.payload)) [
          | inl a ↦ rw a r
          | inr a ↦
              elim (Bool-cases
                (not (s.config.agg_id == 0) && not (env.agg_id == s.config.agg_id))) [
                  | inl b ↦ rw (a, b) r
                  | inr b ↦
                      elim (Bool-cases (
                        not (is_multiple_of env.window_start_ms s.pane_ms)
                        || (leb u64_mod end_ms || not (end_ms == env.window_end_ms)))) [
                          | inl c ↦ rw (a, b, c) r
                          | inr c ↦
                              rw (a, b, c)
                                (merge_decoded-IsRetained env s (from_snapshot lib env.payload)
                                  (env.window_start_ms / s.pane_ms) r
                                  (starts env.window_start_ms s.pane_ms r.sized (ground arith))
                                  (ground arith))
                        ]
                ]
        ]

new_ok :
    {K : Type 0} (config : PrecomputeConfig) (pane retention : Duration) (s : KllWindowStore K)
    → new config pane retention ≡ ok s
    → (bad_retention pane retention ≡ false)
      × (s.pane_ms ≡ pane / 1000000)
      × (s.retention_ms ≡ retention / 1000000)
      × (s.closed_until ≡ 0)
      × (s.panes ≡ [])
unfolding new
new_ok config pane retention s h =
    (ground arith, ground arith, ground arith, ground arith, ground arith)

-- A store that `new` makes keeps only aligned panes within the retention time: it has none, its
-- pane size is positive, and its retention time is at least one pane.
pub new-IsRetained :
    {K : Type 0} (config : PrecomputeConfig) (pane retention : Duration) (s : KllWindowStore K)
    → new config pane retention ≡ ok s
    → IsRetained s
new-IsRetained config pane retention s h =
    let (sizes, pane_size, retention_size, closed, empty) = new_ok config pane retention s h in
    record {
      sized = ground arith;
      retains = ground arith;
      index = 0;
      aligned = ground arith;
      kept = rw empty tt;
    }
