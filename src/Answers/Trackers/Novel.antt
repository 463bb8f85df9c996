-- ===== src/Answers/Trackers/Novel.antt =====
-- The new heavy hitters of `NoveltyTracker`, of asap-precompute-rs/src/answers.rs.
use asapcollector_public.Common.{
  ℕ, ◌+◌, ◌<◌, ◌≡◌, refl, sym, ◌∙◌, Bool, true, false, some, List, [], ◌∷◌, ◌++◌, map, any, length,
  arith, inl, inr, Bool-cases, ltb, leb, if◌then◌else◌, All, All-map, tests,
}
use asapcollector_public.Common.Text.{Text, text, text_eq, text_eq_refl}
use asapcollector_public.Common.Assoc.{lookup, text_key}
use asapcollector_public.Common.Maps.{or_default, put, lookup-put}
use asapcollector_public.Envelope.{KeyValue, SketchEnvelope}
use asapcollector_public.Float.{F64}
use asapcollector_public.Float.Math.{FloatLib}
use asapcollector_public.Matchers.{lookup_label}
use asapcollector_public.Answers.Trackers.{
  Event, NoveltyTracker, remember, tail, was_seen, new_hitters, novelty_event, observe_novelty,
  tracker_key,
}

module _ {A : Type 0} where
  any_last : (p : A → Bool) (xs : List A) (x : A) → any p (xs ++ x ∷ []) ≡ false → p x ≡ false
  any_last p [] x h = ground arith
  any_last p (y ∷ xs) x h = any_last p xs x (ground arith)

  any-tail :
      (p : A → Bool) (xs : List A) (x : A)
      → 1 < length (xs ++ x ∷ [])
      → any p (tail (xs ++ x ∷ [])) ≡ false
      → p x ≡ false
  any-tail p [] x long h = absurd (omega arith)
  any-tail p (y ∷ xs) x long h = any_last p xs x h

  -- With room for one, the last is remembered.
  any-remember :
      (p : A → Bool) (limit : ℕ) (x : A) (xs : List A)
      → 0 < limit
      → any p (remember limit x xs) ≡ false
      → p x ≡ false
  unfolding remember
  any-remember p limit x xs room h = elim (Bool-cases (ltb limit (length (xs ++ x ∷ [])))) [
    | inl over ↦ any-tail p xs x (omega (tests, over)) (rw over at h)
    | inr fits ↦ any_last p xs x (rw fits at h)
  ]

if_none-All :
    {A : Type 0} (P : A → Type 0) (b : Bool) (xs : List A) → All P xs → All P (if b then xs else [])
if_none-All P true xs h = h
if_none-All P false xs h = tt

-- The event names a key that is none of the top keys.
abbrev pub IsNew : List (Text × F64) → Event → Type 0
IsNew top event =
    (key : Text) × (lookup_label event.attributes (text "key") ≡ some key)
    × (any (λ p. text_eq p.0 key) top ≡ false)

any-map :
    (key : Text) (top : List (Text × F64))
    → any (λ k. text_eq k key) (map (λ p. p.0) top) ≡ any (λ p. text_eq p.0 key) top
any-map key [] = refl
any-map key (p ∷ top) = rw (any-map key top) refl

module _ (fl : FloatLib) (debug : List KeyValue → Text) where
  -- An event for a key that no remembered window has.
  IsUnseen : List (List Text) → SketchEnvelope × Event → Type 0
  IsUnseen window o =
      (key : Text) × (lookup_label o.1.attributes (text "key") ≡ some key)
      × (was_seen fl debug key window ≡ false)

  new_hitters-IsUnseen :
      (template : SketchEnvelope) (method : Text) (tops : ℕ) (window : List (List Text)) (rank : ℕ)
      (top : List (Text × F64))
      → All (IsUnseen window) (new_hitters fl debug template method tops window rank top)
  unfolding new_hitters novelty_event lookup_label text_eq IsUnseen
  new_hitters-IsUnseen template method tops window rank [] = tt
  new_hitters-IsUnseen template method tops window rank ((key, count) ∷ top) =
      let rest = new_hitters-IsUnseen template method tops window (rank + 1) top in
      elim (Bool-cases (was_seen fl debug key window)) [
        | inl seen ↦ rw seen rest
        | inr unseen ↦ rw unseen ((key, refl, unseen), rest)
      ]

  unseen-last :
      (key : Text) (limit : ℕ) (top : List (Text × F64)) (old : List (List Text))
      → 0 < limit
      → was_seen fl debug key (remember limit (map (λ p. p.0) top) old) ≡ false
      → any (λ p. text_eq p.0 key) top ≡ false
  unseen-last key limit top old room h =
      sym (any-map key top)
      ∙ any-remember (any (λ k. text_eq k key)) limit (map (λ p. p.0) top) old room h

  -- A tracker that remembers one window at least reports no key as new that was a top key of the
  -- series' last window.
  pub observe_novelty-IsNew :
      (template next : SketchEnvelope) (method next_method : Text)
      (top next_top : List (Text × F64)) (t : NoveltyTracker)
      → 0 < t.baseline_windows
      → tracker_key fl debug next ≡ tracker_key fl debug template
      → All
          (λ o. IsNew top o.1)
          (observe_novelty fl debug next next_method next_top
            (observe_novelty fl debug template method top t).1).0
  unfolding observe_novelty IsUnseen
  observe_novelty-IsNew template next method next_method top next_top t room same =
      let key = tracker_key fl debug template in
      let old = or_default [] (lookup key t.history) in
      let window = remember t.baseline_windows (map (λ p. p.0) top) old in
      let found : lookup key (put key window t.history) ≡ some window =
        lookup-put key key window t.history ∙ rw (text_eq_refl key) refl in
      let is_new =
        All-map (λ o h. (h.0, h.1, unseen-last h.0 t.baseline_windows top old room h.2)) _
          (new_hitters-IsUnseen next next_method (length next_top) window 0 next_top) in
      rw (same, found) (if_none-All (λ o. IsNew top o.1) (leb 3 (length window)) _ is_new)
