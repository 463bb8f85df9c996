-- ===== src/ExactNodes/Sources.antt =====
-- The windows of many sources in `ExactMerge`, of asap-precompute-rs/src/otap/baseline_nodes.rs.
use asapcollector_public.Common.{
  ℕ, ◌<◌, ◌≡◌, refl, sym, ap, subst, ◌∙◌, false, Option, none, some, List, [], ◌∷◌, ◌++◌, map,
  arith, All, leb, ==_refl,
}
use asapcollector_public.Common.Text.{Text, text_eq_refl, text_eq_iff}
use asapcollector_public.Common.Assoc.{Assoc, lookup, text_key, number_key, lookup-alter}
use asapcollector_public.Common.Maps.{or_default}
use asapcollector_public.Common.Trees.{entry, text_put}
use asapcollector_public.Common.Trees.Laws.{IsAscending, lookup-entry, entry-IsAscending}
use asapcollector_public.Envelope.{KeyValue, SketchEnvelope}
use asapcollector_public.Error.{ok}
use asapcollector_public.Exact.{ExactWindow, merge, encode, decode}
use asapcollector_public.Exact.Merging.{Point, Agree, window_of, merge-Agree}
use asapcollector_public.Exact.RoundTrip.{Fits, decode-encode}
use asapcollector_public.ExactNodes.{ExactMerge, Series, Windows, fill_slot, slot_key, add, add_all}
use mathlib.Core.List.{append-nil, append_assoc}

lookup-text_put :
    {V : Type 0} (k : Text) (v : V) (m : Assoc Text V) → lookup k (text_put k v m) ≡ some v
unfolding text_put
lookup-text_put k v [] = rw (text_eq_refl k) refl
lookup-text_put k v ((j, w) ∷ m) =
    ground (arith, text_eq_iff k j, text_eq_iff j k, text_eq_refl k, lookup-text_put k v m)

-- What a slot holds.
abbrev pub slot : ℕ → Text → ExactMerge → Option (SketchEnvelope × ExactWindow)
slot end key m = lookup key (or_default [] (lookup end m.windows))

lookup-fill_slot :
    (end : ℕ) (key : Text) (env : SketchEnvelope) (w : ExactWindow) (windows : Windows)
    → IsAscending windows
    → lookup end (entry end [] (fill_slot key env w) windows)
      ≡ some (fill_slot key env w (or_default [] (lookup end windows)))
lookup-fill_slot end key env w windows sorted =
    lookup-entry end end [] (fill_slot key env w) windows sorted ∙ rw (==_refl end) refl

fill_slot_vacant :
    (key : Text) (env : SketchEnvelope) (w : ExactWindow) (series : Series)
    → lookup key series ≡ none
    → lookup key (fill_slot key env w series) ≡ some (env, w)
unfolding fill_slot
fill_slot_vacant key env w series h = rw (fill_slot, h) (lookup-text_put key (env, w) series)

fill_slot_occupied :
    (key : Text) (env first : SketchEnvelope) (w merged : ExactWindow) (series : Series)
    → lookup key series ≡ some (first, merged)
    → lookup key (fill_slot key env w series) ≡ some (first, merge merged w)
unfolding fill_slot
fill_slot_occupied key env first w merged series h =
    rw (fill_slot, h)
      (lookup-alter key key (λ _. (first, merge merged w)) series (first, merged) h
        ∙ rw (text_eq_refl key) refl)

-- The window of a source: its envelope carries the points, encoded, in the slot.
pub record IsSource (debug : List KeyValue → Text) (end : ℕ) (key : Text)
    (s : SketchEnvelope × List Point) : Type 0 where
  pub same_end : s.0.window_end_ms ≡ end
  pub same_slot : slot_key debug s.0 ≡ key
  pub carries : s.0.payload ≡ encode (window_of s.1)
  pub fits : Fits (window_of s.1)

-- The points of all sources.
abbrev pub all_points : List (SketchEnvelope × List Point) → List Point
all_points [] = []
all_points ((env, ps) ∷ sources) = ps ++ all_points sources

abbrev pub envelopes_of : List (SketchEnvelope × List Point) → List SketchEnvelope
envelopes_of = map (λ s. s.0)

module _ (debug : List KeyValue → Text) where
  -- A window that is not late is merged into its slot.
  add-slot :
      (now_ms end : ℕ) (key : Text) (env : SketchEnvelope) (ps : List Point) (m : ExactMerge)
      → IsSource debug end key (env, ps)
      → m.emitted_until < end
      → IsAscending m.windows
      → let m' = (add debug now_ms env m).1 in
        (slot end key m'
          ≡ lookup key (fill_slot key env (window_of ps) (or_default [] (lookup end m.windows))))
        × (m'.emitted_until ≡ m.emitted_until)
        × IsAscending m'.windows
  unfolding add
  add-slot now_ms end key env ps m src on_time sorted =
      let decoded : decode env.payload ≡ ok (window_of ps) =
        ap decode src.carries ∙ decode-encode (window_of ps) src.fits in
      let early : leb end m.emitted_until ≡ false = ground arith in
      simp (early, decoded, src.same_end, src.same_slot)
        (
          ap (λ o. lookup key (or_default [] o))
              (lookup-fill_slot end key env (window_of ps) m.windows sorted),
          refl,
          entry-IsAscending end [] (fill_slot key env (window_of ps)) m.windows sorted,
        )

  -- A merge that starts from an occupied slot.
  add_all-occupied :
      (now_ms end : ℕ) (key : Text) (first : SketchEnvelope) (w : ExactWindow) (ps : List Point)
      (sources : List (SketchEnvelope × List Point)) (m : ExactMerge)
      → All (IsSource debug end key) sources
      → m.emitted_until < end
      → IsAscending m.windows
      → slot end key m ≡ some (first, w)
      → Agree w (window_of ps)
      → (merged : ExactWindow) × (slot end key (add_all debug now_ms (envelopes_of sources) m)
          ≡ some (first, merged))
        × Agree merged (window_of (ps ++ all_points sources))
  unfolding add_all
  add_all-occupied now_ms end key first w ps [] m srcs on_time sorted found a =
      (w, found, subst (λ qs. Agree w (window_of qs)) (sym (append-nil ps)) a)
  add_all-occupied now_ms end key first w ps ((env, qs) ∷ sources) m srcs on_time sorted found a =
      let (step, same_mark, sorted') = add-slot now_ms end key env qs m srcs.0 on_time sorted in
      let (merged, at_end, agrees) =
        add_all-occupied now_ms end key first (merge w (window_of qs)) (ps ++ qs) sources
          (add debug now_ms env m).1 srcs.1 (subst (λ n. n < end) (sym same_mark) on_time) sorted'
          (step
            ∙ fill_slot_occupied key env first (window_of qs) w
                (or_default [] (lookup end m.windows)) found)
          (merge-Agree w ps qs a) in
      (
        merged,
        at_end,
        subst (λ rs. Agree merged (window_of rs)) (append_assoc ps qs (all_points sources)) agrees,
      )

  -- If sources send the encoded windows of their points for one slot that is vacant and not yet
  -- emitted, then the slot holds the envelope of the first source, with a window that agrees with
  -- the window of the points of all sources, as one source would have built it. Each window fits its
  -- encoding, and the open windows stand in the order of their ends.
  pub add_all-Agree :
      (now_ms end : ℕ) (key : Text) (env : SketchEnvelope) (ps : List Point)
      (sources : List (SketchEnvelope × List Point)) (m : ExactMerge)
      → All (IsSource debug end key) ((env, ps) ∷ sources)
      → m.emitted_until < end
      → IsAscending m.windows
      → slot end key m ≡ none
      → (merged : ExactWindow) × (slot end key (add_all debug now_ms (env ∷ envelopes_of sources) m)
          ≡ some (env, merged))
        × Agree merged (window_of (ps ++ all_points sources))
  unfolding add_all
  add_all-Agree now_ms end key env ps sources m srcs on_time sorted vacant =
      let (step, same_mark, sorted') = add-slot now_ms end key env ps m srcs.0 on_time sorted in
      add_all-occupied now_ms end key env (window_of ps) ps sources (add debug now_ms env m).1
        srcs.1 (subst (λ n. n < end) (sym same_mark) on_time) sorted'
        (step
          ∙ fill_slot_vacant key env (window_of ps) (or_default [] (lookup end m.windows)) vacant)
        (record { same_values = refl; same_points = refl; same_counts = λ k. refl })
