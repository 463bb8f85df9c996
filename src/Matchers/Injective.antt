-- ===== src/Matchers/Injective.antt =====
-- `series_key` and `attributes_key` of asap-precompute-rs/src/matchers.rs: when keys coincide.
use mathlib.Core.Path.{ap₂}
use mathlib.Core.List.{append_assoc, append-nil}
use asapcollector_public.Common.{
  ℕ, ◌≡◌, ◌≢◌, refl, sym, ap, ◌∙◌, true, List, [], ◌∷◌, ◌++◌, arith, All,
}
use asapcollector_public.Common.Text.{
  Text, decimal, decimal_injective, decimal-Lacks, Lacks, text_lt,
}
use asapcollector_public.Envelope.{KeyValue}
use asapcollector_public.Matchers.{is_ascending, attributes_key, series_key}
use asapcollector_public.Matchers.Keys.{render_all, series_key_lem, attributes_key-ascending}

-- A text is read up to the first separator.
split_at :
    (c : ℕ) (s t x y : Text) → Lacks c s → Lacks c t → s ++ c ∷ x ≡ t ++ c ∷ y → (s ≡ t) × (x ≡ y)
split_at c [] [] x y hs ht e = ground arith
split_at c [] (b ∷ t) x y hs ht e = absurd (ht.0 (ground arith))
split_at c (a ∷ s) [] x y hs ht e = absurd (hs.0 (ground arith))
split_at c (a ∷ s) (b ∷ t) x y hs ht e =
    let (p, q) = split_at c s t x y hs.1 ht.1 (ground arith) in (ground arith, q)

-- The key holds neither `=` nor `|`, and the value no `;`.
pub record IsPlain (kv : KeyValue) : Type 0 where
  pub key_eq : Lacks b'=' kv.key
  pub key_bar : Lacks b'|' kv.key
  pub value_semi : Lacks b';' kv.value

render_all-append :
    (a : KeyValue) (rest : List KeyValue) (z : Text)
    → render_all (a ∷ rest) ++ z ≡ a.key ++ b'=' ∷ (a.value ++ b';' ∷ (render_all rest ++ z))
unfolding render_all
render_all-append a rest z = simp append_assoc

-- A label does not begin like the bar behind the labels.
bar_ne_label : (k z x : Text) → Lacks b'|' k → b'|' ∷ x ≢ k ++ b'=' ∷ z
bar_ne_label [] z x h e = ground arith
bar_ne_label (c ∷ k) z x h e = h.0 (ground arith)

KeyValue_path : (a b : KeyValue) → a.key ≡ b.key → a.value ≡ b.value → a ≡ b
KeyValue_path a b p q = λ i. record { key = p i; value = q i }

render_all_injective :
    (l l' : List KeyValue) (x y : Text)
    → All IsPlain l
    → All IsPlain l'
    → render_all l ++ b'|' ∷ x ≡ render_all l' ++ b'|' ∷ y
    → (l ≡ l') × (x ≡ y)
unfolding render_all
render_all_injective [] [] x y h h' e = (refl, ground arith)
render_all_injective [] (b ∷ l') x y h h' e =
    absurd (bar_ne_label b.key _ x h'.0.key_bar (e ∙ render_all-append b l' _))
render_all_injective (a ∷ l) [] x y h h' e =
    absurd (bar_ne_label a.key _ y h.0.key_bar (sym e ∙ render_all-append a l _))
render_all_injective (a ∷ l) (b ∷ l') x y h h' e =
    let (keys, rest) =
      split_at b'=' a.key b.key _ _ h.0.key_eq h'.0.key_eq
        (sym (render_all-append a l _) ∙ e ∙ render_all-append b l' _) in
    let (vals, rest') = split_at b';' a.value b.value _ _ h.0.value_semi h'.0.value_semi rest in
    let (tails, ends) = render_all_injective l l' x y h.1 h'.1 rest' in
    (ap₂ ◌∷◌ (KeyValue_path a b keys vals) tails, ends)

-- With no `aggregate_by`, so that all labels make the key: two series that differ in the aggregation
-- id, in a resource label or in a label have different keys, when the labels are sorted, no label key
-- holds `=` or `|`, and no label value holds `;`.
pub series_key_injective :
    (i i' : ℕ) (r r' l l' : List KeyValue)
    → is_ascending r ≡ true
    → is_ascending r' ≡ true
    → is_ascending l ≡ true
    → is_ascending l' ≡ true
    → All IsPlain r
    → All IsPlain r'
    → All IsPlain l
    → All IsPlain l'
    → series_key i r l [] ≡ series_key i' r' l' []
    → (i ≡ i') × (r ≡ r') × (l ≡ l')
series_key_injective i i' r r' l l' ar ar' al al' pr pr' pl pl' e =
    let (ids, rest) =
      split_at b'|' (decimal i) (decimal i') _ _ (decimal-Lacks b'|' i (omega arith))
        (decimal-Lacks b'|' i' (omega arith))
        (sym (series_key_lem i r l []) ∙ e ∙ series_key_lem i' r' l' []) in
    let (rs, rest') =
      render_all_injective r r' _ _ pr pr'
        (rw (← attributes_key-ascending r ar, ← attributes_key-ascending r' ar') rest) in
    let (ls, _) = render_all_injective l l' [] [] pl pl' (
      ap (λ s. s ++ b'|' ∷ [])
        (rw (← attributes_key-ascending l al, ← attributes_key-ascending l' al') rest')) in
    (decimal_injective i i' ids, rs, ls)

-- Where a value holds separators, two different label sets can share a key: one label whose value
-- is `v;k'=v'` has the key of the two labels `k=v` and `k'=v'`, if `k` stands before `k'`.
pub attributes_key_collision :
    (k v k' v' : Text)
    → text_lt k k' ≡ true
    → attributes_key (record { key = k; value = v ++ b';' ∷ (k' ++ b'=' ∷ v') } ∷ []) []
      ≡ attributes_key (record { key = k; value = v } ∷ record { key = k'; value = v' } ∷ []) []
unfolding render_all
attributes_key_collision k v k' v' h =
    rw
      (
        attributes_key-ascending (record { key = k; value = v ++ b';' ∷ (k' ++ b'=' ∷ v') } ∷ [])
            refl,
        attributes_key-ascending
            (record { key = k; value = v } ∷ record { key = k'; value = v' } ∷ []) (rw h),
      )
      (simp (append_assoc, append-nil))
