-- ===== src/Tests/Panes.antt =====
-- The theorems on the panes of KLL sketches, at a list in place of a sketch.
use asapcollector_public.Common.{
  ℕ, ◌-◌, ◌≤◌, ◌≡◌, ◌⊎◌, refl, false, none, some, All, inr, List, [], ◌∷◌, ◌++◌, arith, length,
}
use asapcollector_public.Common.Text.{text}
use asapcollector_public.Float.{F64}
use asapcollector_public.Kll.{KllLib}
use asapcollector_public.KllWindows.{KllWindowStore, PaneSeries}
use asapcollector_public.KllWindows.Ingest.{observe, merge_pane}
use asapcollector_public.KllWindows.Retention.{
  IsRetained, observe-IsRetained, merge_pane-IsRetained,
}
use asapcollector_public.Rolling.{RollingState, tick}
use asapcollector_public.Rolling.Emission.{After, Spans, tick_lem}
use asapcollector_public.Stats.{no_stats}
use asapcollector_public.Tests.Fixtures.{cfg, observation, envelope}

-- A sketch that keeps every value.
abbrev pub kept_values : KllLib (List F64)
kept_values = record {
  with_k = λ k. [];
  with_k_and_seed = λ k seed. [];
  lib_update = λ s v. v ∷ s;
  lib_merge = λ s t. s ++ t;
  lib_count = λ s. length s;
  lib_clear = λ s. [];
  lib_quantile = λ s q. q;
  to_asapv1 = λ s. inr s;
  from_asapv1 = λ payload. inr payload;
  nan = 0x7ff8000000000000;
  display = λ v. [];
}

abbrev pane_entry : PaneSeries (List F64)
pane_entry = record { sketch = 1 ∷ []; resource_labels = []; labels = []; count = 1 }

-- Panes of 10 ms, kept for 30 ms, and closed up to 10.
abbrev store : KllWindowStore (List F64)
store = record {
  config = cfg;
  pane_ms = 10;
  retention_ms = 30;
  closed_until = 10;
  panes = (0, (text "a", pane_entry) ∷ []) ∷ [];
  k = 200;
  seed = none;
}

abbrev store-IsRetained : IsRetained store
store-IsRetained = record {
  sized = omega arith;
  retains = omega arith;
  index = 1;
  aligned = refl;
  kept = (record { index = 0; aligned = refl; recent = omega arith }, tt);
}

observe-IsRetained_example : IsRetained (observe kept_values observation store).1
observe-IsRetained_example = observe-IsRetained kept_values observation store store-IsRetained

merge_pane-IsRetained_example : IsRetained (merge_pane kept_values envelope store).1
merge_pane-IsRetained_example = merge_pane-IsRetained kept_values envelope store store-IsRetained

abbrev made : KllWindowStore (List F64)
made = record {
  config = cfg;
  pane_ms = 10;
  retention_ms = 30;
  closed_until = 0;
  panes = [];
  k = 200;
  seed = none;
}

-- A rolling runtime over the store, which has emitted the range that ends at 10.
abbrev rolling : RollingState (List F64)
rolling = record {
  store = store;
  last_emit = some 10;
  upstream_complete_until = none;
  stats = no_stats;
  closed = false;
}

tick_lem_example :
    let o = tick kept_values 25 rolling in
    (o.0 ≡ [])
    ⊎ ((end : ℕ) × After rolling.last_emit end
        × (end ≤ 25)
        × (o.1.last_emit ≡ some end)
        × All (Spans (end - 30) end) o.0)
tick_lem_example = tick_lem kept_values 25 rolling (omega arith)
