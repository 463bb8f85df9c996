-- ===== src/Common/Trees/TextLaws.antt =====
-- Lookups in a `BTreeMap` with text for keys.
use mathlib.Core.Path.{◌≡◌, refl}
use mathlib.Core.Logic.{inl, inr}
use mathlib.Core.Bool.{true, false}
use mathlib.Core.List.{[], ◌∷◌}
use mathlib.Core.Option.{none, some}
use native.Mathlib.Omega.{arith}
use asapcollector_public.Common.Tests.{if◌then◌else◌, Bool-cases}
use asapcollector_public.Common.Lists.{All, All-map}
use asapcollector_public.Common.Text.{
  Text, text_eq, text_lt, text_eq_iff, text_lt_trans, text_lt→ne,
}
use asapcollector_public.Common.Assoc.{Assoc, lookup, text_key}
use asapcollector_public.Common.Maps.{or_default}
use asapcollector_public.Common.Trees.{text_entry}

-- Of two different texts, one comes before the other.
text_lt_total : (s t : Text) → text_eq s t ≡ false → text_lt s t ≡ false → text_lt t s ≡ true
unfolding text_eq text_lt
text_lt_total [] [] h k = cc
text_lt_total [] (b ∷ t) h k = cc
text_lt_total (a ∷ s) [] h k = refl
text_lt_total (a ∷ s) (b ∷ t) h k = ground (arith, text_lt_total s t)

module _ {V : Type 0} where
  abbrev pub Follows : Text → Assoc Text V → Type 0
  Follows k m = All (λ p. text_lt k p.0 ≡ true) m

  -- The keys stand in ascending order.
  abbrev pub IsSorted : Assoc Text V → Type 0
  IsSorted [] = Unit
  IsSorted ((j, v) ∷ m) = Follows j m × IsSorted m

  lookup-Follows : (k : Text) (m : Assoc Text V) → Follows k m → lookup k m ≡ none
  lookup-Follows k [] h = refl
  lookup-Follows k ((j, v) ∷ m) h =
      ground (arith, lookup-Follows k m h.1, text_lt→ne k j, text_eq_iff j k, text_eq_iff k j)

  entry-Follows :
      (i key : Text) (default : V) (f : V → V) (m : Assoc Text V)
      → text_lt i key ≡ true
      → Follows i m
      → Follows i (text_entry key default f m)
  unfolding text_entry
  entry-Follows i key default f [] h a = (h, tt)
  entry-Follows i key default f ((j, v) ∷ m) h a = elim (Bool-cases (text_eq key j)) [
    | inl e ↦ rw e a
    | inr e ↦ elim (Bool-cases (text_lt key j)) [
      | inl l ↦ rw (e, l) (h, a)
      | inr l ↦ rw (e, l) (a.0, entry-Follows i key default f m h a.1)
    ]
  ]

  pub text_entry-IsSorted :
      (key : Text) (default : V) (f : V → V) (m : Assoc Text V)
      → IsSorted m
      → IsSorted (text_entry key default f m)
  unfolding text_entry
  text_entry-IsSorted key default f [] h = (tt, tt)
  text_entry-IsSorted key default f ((j, v) ∷ m) h = elim (Bool-cases (text_eq key j)) [
    | inl e ↦ rw e h
    | inr e ↦ elim (Bool-cases (text_lt key j)) [
      | inl l ↦ rw (e, l) ((l, All-map (λ p q. text_lt_trans key j p.0 l q) m h.0), h)
      | inr l ↦
          rw (e, l)
            (
              entry-Follows j key default f m (text_lt_total key j e l) h.0,
              text_entry-IsSorted key default f m h.1,
            )
    ]
  ]

  pub lookup-text_entry :
      (k j : Text) (default : V) (f : V → V) (m : Assoc Text V)
      → IsSorted m
      → lookup j (text_entry k default f m)
        ≡ (if text_eq k j then some (f (or_default default (lookup k m))) else lookup j m)
  unfolding text_entry
  lookup-text_entry k j default f [] h = refl
  lookup-text_entry k j default f ((i, v) ∷ m) h = elim (Bool-cases (text_eq k i)) [
    | inl e ↦ ground (arith, text_eq_iff k i, text_eq_iff i k, text_eq_iff k j, text_eq_iff i j)
    | inr e ↦ elim (Bool-cases (text_lt k i)) [
      | inl l ↦
          let absent : lookup k m ≡ none =
            lookup-Follows k m (All-map (λ p q. text_lt_trans k i p.0 l q) m h.0) in
          rw (e, l) (ground (arith, absent, text_eq_iff k i, text_eq_iff i k))
      | inr l ↦
          rw (e, l)
            (ground (
              arith,
              lookup-text_entry k j default f m h.1,
              text_eq_iff k i,
              text_eq_iff i k,
              text_eq_iff k j,
              text_eq_iff i j,
            ))
    ]
  ]
