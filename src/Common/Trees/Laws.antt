-- ===== src/Common/Trees/Laws.antt =====
-- Lookups in a `BTreeMap` with numbers for keys.
use Prim.Native.Nat.{ℕ, ◌<◌, ◌≤◌}
use mathlib.Core.Path.{◌≡◌, refl, sym, ap, subst}
use mathlib.Core.Logic.{inl, inr}
use mathlib.Core.List.{[], ◌∷◌, ◌++◌}
use mathlib.Core.Option.{none, some}
use mathlib.Core.Bool.{true, false}
use native.Mathlib.Omega.{arith}
use asapcollector_public.Common.Tests.{◌==◌, ltb, leb, if◌then◌else◌, ==_iff, tests, Bool-cases}
use asapcollector_public.Common.Lists.{All, All-map}
use asapcollector_public.Common.Assoc.{Assoc, lookup, remove, number_key}
use asapcollector_public.Common.Maps.{or_default}
use asapcollector_public.Common.Trees.{entry, split_off, before}

module _ {V : Type 0} where
  -- The keys stand in ascending order.
  abbrev pub IsAscending : Assoc ℕ V → Type 0
  IsAscending [] = Unit
  IsAscending ((j, v) ∷ m) = All (λ p. j < p.0) m × IsAscending m

  -- A key below all others is not there.
  pub lookup-below : (k : ℕ) (m : Assoc ℕ V) → All (λ p. k < p.0) m → lookup k m ≡ none
  lookup-below k [] h = refl
  lookup-below k ((j, v) ∷ m) h = ground (arith, lookup-below k m h.1)

  pub All-remove_key : (P : ℕ × V → Type 0) (k : ℕ) (m : Assoc ℕ V) → All P m → All P (remove k m)
  All-remove_key P k [] a = tt
  All-remove_key P k ((j, w) ∷ m) a = elim (Bool-cases (j == k)) [
    | inl same ↦ rw same a.1
    | inr other ↦ rw other (a.0, All-remove_key P k m a.1)
  ]

  pub remove-IsAscending : (k : ℕ) (m : Assoc ℕ V) → IsAscending m → IsAscending (remove k m)
  remove-IsAscending k [] h = tt
  remove-IsAscending k ((j, v) ∷ m) h = elim (Bool-cases (j == k)) [
    | inl same ↦ rw same h.1
    | inr other ↦ rw other (All-remove_key (λ p. j < p.0) k m h.0, remove-IsAscending k m h.1)
  ]

  -- What is found once a key is removed was there before, under another key.
  pub lookup-remove :
      (k j : ℕ) (m : Assoc ℕ V)
      → IsAscending m
      → lookup j (remove k m) ≡ (if k == j then none else lookup j m)
  lookup-remove k j [] h = elim (Bool-cases (k == j)) [ inl e ↦ rw e refl | inr e ↦ rw e refl ]
  lookup-remove k j ((i, v) ∷ m) h =
      ground (arith, lookup-remove k j m h.1, lookup-below i m h.0, lookup-below j m)

  entry-All-below :
      (i key : ℕ) (default : V) (f : V → V) (m : Assoc ℕ V)
      → i < key
      → All (λ p. i < p.0) m
      → All (λ p. i < p.0) (entry key default f m)
  unfolding entry
  entry-All-below i key default f [] h a = (h, tt)
  entry-All-below i key default f ((j, v) ∷ m) h a = elim (Bool-cases (key == j)) [
    | inl e ↦ rw e a
    | inr e ↦ elim (Bool-cases (ltb key j)) [
      | inl l ↦ rw (e, l) (h, a)
      | inr l ↦ rw (e, l) (a.0, entry-All-below i key default f m h a.1)
    ]
  ]

  pub entry-IsAscending :
      (key : ℕ) (default : V) (f : V → V) (m : Assoc ℕ V)
      → IsAscending m
      → IsAscending (entry key default f m)
  unfolding entry
  entry-IsAscending key default f [] h = (tt, tt)
  entry-IsAscending key default f ((j, v) ∷ m) h = elim (Bool-cases (key == j)) [
    | inl e ↦ rw e h
    | inr e ↦ elim (Bool-cases (ltb key j)) [
      | inl l ↦
          let first : key < j = omega (tests, l) in
          rw (e, l) ((first, All-map (λ p q. omega (arith, q, first)) m h.0), h)
      | inr l ↦
          rw (e, l)
            (
              entry-All-below j key default f m (ground arith) h.0,
              entry-IsAscending key default f m h.1,
            )
    ]
  ]

  pub lookup-entry :
      (k j : ℕ) (default : V) (f : V → V) (m : Assoc ℕ V)
      → IsAscending m
      → lookup j (entry k default f m)
        ≡ (if k == j then some (f (or_default default (lookup k m))) else lookup j m)
  unfolding entry
  lookup-entry k j default f [] h = refl
  lookup-entry k j default f ((i, v) ∷ m) h = elim (Bool-cases (k == i)) [
    | inl e ↦ let same : k ≡ i = (==_iff k i).0 e in ground arith
    | inr e ↦ elim (Bool-cases (ltb k i)) [
      | inl l ↦
          let first : k < i = omega (tests, l) in
          let absent : lookup k m ≡ none =
            lookup-below k m (All-map (λ p q. omega (arith, q, first)) m h.0) in
          rw (e, l) (ground arith)
      | inr l ↦ rw (e, l) (ground (arith, lookup-entry k j default f m h.1))
    ]
  ]

  pub entry-All :
      (P : ℕ → V → Type 0) (key : ℕ) (default : V) (f : V → V) (m : Assoc ℕ V)
      → P key (f default)
      → ((v : V) → P key v → P key (f v))
      → All (λ p. P p.0 p.1) m
      → All (λ p. P p.0 p.1) (entry key default f m)
  unfolding entry
  entry-All P key default f [] h step a = (h, tt)
  entry-All P key default f ((j, v) ∷ m) h step a = elim (Bool-cases (key == j)) [
    | inl e ↦
        let same : key ≡ j = (==_iff key j).0 e in
        rw e (subst (λ i. P i (f v)) same (step v (subst (λ i. P i v) (sym same) a.0)), a.1)
    | inr e ↦ elim (Bool-cases (ltb key j)) [
      | inl l ↦ rw (e, l) (h, a)
      | inr l ↦ rw (e, l) (a.0, entry-All P key default f m h step a.1)
    ]
  ]

  pub split_off-All :
      (P : ℕ → V → Type 0) (key : ℕ) (m : Assoc ℕ V)
      → All (λ p. P p.0 p.1) m
      → All (λ p. (key ≤ p.0) × P p.0 p.1) (split_off key m)
  unfolding split_off
  split_off-All P key [] a = tt
  split_off-All P key ((j, v) ∷ m) a = elim (Bool-cases (leb key j)) [
    | inl e ↦ rw e ((omega (tests, e), a.0), split_off-All P key m a.1)
    | inr e ↦ rw e (split_off-All P key m a.1)
  ]

  pub before-All :
      (P : ℕ → V → Type 0) (key : ℕ) (m : Assoc ℕ V)
      → All (λ p. P p.0 p.1) m
      → All (λ p. (p.0 < key) × P p.0 p.1) (before key m)
  unfolding before
  before-All P key [] a = tt
  before-All P key ((j, v) ∷ m) a = elim (Bool-cases (ltb j key)) [
    | inl e ↦ rw e ((omega (tests, e), a.0), before-All P key m a.1)
    | inr e ↦ rw e (before-All P key m a.1)
  ]

module _ {V : Type 0} where
  before-none : (k : ℕ) (m : Assoc ℕ V) → All (λ p. k ≤ p.0) m → before k m ≡ []
  unfolding before
  before-none k [] h = refl
  before-none k ((j, v) ∷ m) h = ground (arith, before-none k m h.1)

  split_off-whole : (k : ℕ) (m : Assoc ℕ V) → All (λ p. k ≤ p.0) m → split_off k m ≡ m
  unfolding split_off
  split_off-whole k [] h = refl
  split_off-whole k ((j, v) ∷ m) h = ground (arith, split_off-whole k m h.1)

  -- The two parts of a map, one after the other, are the map.
  pub before-split_off : (k : ℕ) (m : Assoc ℕ V) → IsAscending m → before k m ++ split_off k m ≡ m
  unfolding before split_off
  before-split_off k [] h = refl
  before-split_off k ((j, v) ∷ m) h = elim (Bool-cases (leb k j)) [
    | inl e ↦
        let above : All (λ p. k ≤ p.0) m = All-map (λ p q. omega (tests, e, q)) m h.0 in
        let stays : ltb j k ≡ false = ground arith in
        rw (e, stays, before-none k m above, split_off-whole k m above) refl
    | inr e ↦
        let goes : ltb j k ≡ true = ground arith in
        rw (e, goes) (ap (λ l. (j, v) ∷ l) (before-split_off k m h.1))
  ]
