-- ===== src/Common/Assoc.antt =====
-- A `HashMap` as the list of its entries, in the order in which it iterates. That order is not
-- specified; a new entry goes to the end here.
use Prim.Native.Nat.{ℕ, ◌+◌, ◌≤◌}
use mathlib.Core.Path.{◌≡◌, refl, sym, subst}
use mathlib.Core.Logic.{◌↔◌, ◌≢◌, inl, inr}
use mathlib.Core.Bool.{Bool, true, false}
use mathlib.Core.List.{List, [], ◌∷◌, ◌++◌, map}
use mathlib.Core.Option.{Option, none, some}
use native.Mathlib.Omega.{arith}
use asapcollector_public.Common.Tests.{◌==◌, if◌then◌else◌, ==_iff, Bool-cases}
use asapcollector_public.Common.Lists.{length, All, All-append, sum_by}
use asapcollector_public.Common.Text.{Text, text_eq, text_eq_iff}

-- A type of keys, with its equality test.
pub record Key (K : Type 0) : Type 0 where
  pub eq : K → K → Bool
  pub eq_iff : (a b : K) → (eq a b ≡ true) ↔ (a ≡ b)

instance abbrev pub text_key : Key Text
text_key = record { eq = text_eq; eq_iff = text_eq_iff }

instance abbrev pub number_key : Key ℕ
number_key = record { eq = λ a b. a == b; eq_iff = ==_iff }

abbrev pub Assoc : Type 0 → Type 0 → Type 0
Assoc K V = List (K × V)

module _ {K : Type 0} ⦃e : Key K⦄ where
  pub eq_self : (k : K) → e.eq k k ≡ true
  eq_self k = (e.eq_iff k k).1 refl

module _ {K V : Type 0} where
  -- `insert` of a key that is absent.
  abbrev pub push : K → V → Assoc K V → Assoc K V
  push k v m = m ++ (k, v) ∷ []

  abbrev pub keys : Assoc K V → List K
  keys = map (λ p. p.0)

  abbrev pub values : Assoc K V → List V
  values = map (λ p. p.1)

module _ {K V : Type 0} ⦃e : Key K⦄ where
  -- `get`.
  abbrev pub lookup : K → Assoc K V → Option V
  lookup k [] = none
  lookup k ((j, v) ∷ m) = if e.eq j k then some v else lookup k m

  -- `get_mut` followed by a write; an absent key changes nothing.
  abbrev pub alter : K → (V → V) → Assoc K V → Assoc K V
  alter k f [] = []
  alter k f ((j, v) ∷ m) = if e.eq j k then (j, f v) ∷ m else (j, v) ∷ alter k f m

  -- `remove`.
  abbrev pub remove : K → Assoc K V → Assoc K V
  remove k [] = []
  remove k ((j, v) ∷ m) = if e.eq j k then m else (j, v) ∷ remove k m

  abbrev pub contains_key : K → Assoc K V → Bool
  contains_key k m = elim (lookup k m) [ none ↦ false | some v ↦ true ]

  -- No key stands twice.
  abbrev pub IsMap : Assoc K V → Type 0
  IsMap [] = Unit
  IsMap ((k, v) ∷ m) = (lookup k m ≡ none) × IsMap m

  pub lookup-push :
      (k j : K) (v : V) (m : Assoc K V)
      → lookup k m ≡ none
      → lookup j (push k v m) ≡ (if e.eq k j then some v else lookup j m)
  lookup-push k j v [] h = refl
  lookup-push k j v ((i, w) ∷ m) h =
      ground (arith, lookup-push k j v m, e.eq_iff k j, e.eq_iff i k, e.eq_iff i j)

  pub lookup-alter :
      (k j : K) (f : V → V) (m : Assoc K V) (v : V)
      → lookup k m ≡ some v
      → lookup j (alter k f m) ≡ (if e.eq k j then some (f v) else lookup j m)
  lookup-alter k j f [] v h = cc
  lookup-alter k j f ((i, w) ∷ m) v h =
      ground (arith, lookup-alter k j f m v, e.eq_iff k j, e.eq_iff i k, e.eq_iff i j)

  pub lookup-alter-none :
      (k j : K) (f : V → V) (m : Assoc K V) → lookup j m ≡ none → lookup j (alter k f m) ≡ none
  lookup-alter-none k j f [] h = refl
  lookup-alter-none k j f ((i, w) ∷ m) h = ground (arith, lookup-alter-none k j f m)

  pub lookup-remove_ne : (k j : K) (m : Assoc K V) → k ≢ j → lookup j (remove k m) ≡ lookup j m
  lookup-remove_ne k j [] h = refl
  lookup-remove_ne k j ((i, w) ∷ m) h =
      ground (arith, lookup-remove_ne k j m h, e.eq_iff i k, e.eq_iff i j)

  pub lookup-remove-none :
      (k j : K) (m : Assoc K V) → lookup j m ≡ none → lookup j (remove k m) ≡ none
  lookup-remove-none k j [] h = refl
  lookup-remove-none k j ((i, w) ∷ m) h = ground (arith, lookup-remove-none k j m)

  pub lookup-remove_self : (k : K) (m : Assoc K V) → IsMap m → lookup k (remove k m) ≡ none
  lookup-remove_self k [] h = refl
  lookup-remove_self k ((i, w) ∷ m) h = ground (arith, lookup-remove_self k m h.1, e.eq_iff i k)

  pub push-IsMap :
      (k : K) (v : V) (m : Assoc K V) → lookup k m ≡ none → IsMap m → IsMap (push k v m)
  push-IsMap k v [] h w = (refl, tt)
  push-IsMap k v ((i, x) ∷ m) h w =
      ground (arith, lookup-push k i v m, push-IsMap k v m, e.eq_iff k i, e.eq_iff i k)

  pub alter-IsMap : (k : K) (f : V → V) (m : Assoc K V) → IsMap m → IsMap (alter k f m)
  alter-IsMap k f [] w = tt
  alter-IsMap k f ((i, x) ∷ m) w =
      ground (arith, lookup-alter-none k i f m w.0, alter-IsMap k f m w.1)

  pub remove-IsMap : (k : K) (m : Assoc K V) → IsMap m → IsMap (remove k m)
  remove-IsMap k [] w = tt
  remove-IsMap k ((i, x) ∷ m) w = ground (arith, lookup-remove-none k i m w.0, remove-IsMap k m w.1)

  pub length-alter : (k : K) (f : V → V) (m : Assoc K V) → length (alter k f m) ≡ length m
  length-alter k f [] = refl
  length-alter k f ((i, x) ∷ m) = ground (arith, length-alter k f m)

  pub length-remove :
      (k : K) (m : Assoc K V) (v : V) → lookup k m ≡ some v → length (remove k m) + 1 ≡ length m
  length-remove k [] v h = cc
  length-remove k ((i, x) ∷ m) v h = ground (arith, length-remove k m v)

module _ {ℓ} {K V : Type 0} ⦃e : Key K⦄ (P : K × V → Type ℓ) where
  pub All-lookup : (k : K) (v : V) (m : Assoc K V) → All P m → lookup k m ≡ some v → P (k, v)
  All-lookup k v [] a h = cc
  All-lookup k v ((j, w) ∷ m) a h = elim (Bool-cases (e.eq j k)) [
    | inl same ↦
        let found : w ≡ v = ground arith in
        subst (λ p. P p) (λ i. ((e.eq_iff j k).0 same i, found i)) a.0
    | inr other ↦ All-lookup k v m a.1 (ground arith)
  ]

  pub All-alter :
      (k : K) (f : V → V) (m : Assoc K V)
      → ((v : V) → lookup k m ≡ some v → P (k, f v))
      → All P m
      → All P (alter k f m)
  All-alter k f [] h a = tt
  All-alter k f ((j, w) ∷ m) h a = elim (Bool-cases (e.eq j k)) [
    | inl same ↦
        rw same (subst (λ i. P (i, f w)) (sym ((e.eq_iff j k).0 same)) (h w (rw same)), a.1)
    | inr other ↦ rw other (a.0, All-alter k f m (λ v found. h v (rw other found)) a.1)
  ]

  pub All-remove : (k : K) (m : Assoc K V) → All P m → All P (remove k m)
  All-remove k [] a = tt
  All-remove k ((j, w) ∷ m) a = elim (Bool-cases (e.eq j k)) [
    | inl same ↦ rw same a.1
    | inr other ↦ rw other (a.0, All-remove k m a.1)
  ]

  pub All-push : (k : K) (v : V) (m : Assoc K V) → P (k, v) → All P m → All P (push k v m)
  All-push k v m h a = All-append P m ((k, v) ∷ []) a (h, tt)

-- The sum of a number of each entry.
module _ {K V : Type 0} (f : V → ℕ) where
  abbrev pub total : Assoc K V → ℕ
  total [] = 0
  total ((k, v) ∷ m) = f v + total m

  pub total-push : (k : K) (v : V) (m : Assoc K V) → total (push k v m) ≡ total m + f v
  total-push k v [] = omega arith
  total-push k v ((j, w) ∷ m) = omega (arith, total-push k v m)

module _ {K V : Type 0} ⦃e : Key K⦄ (f : V → ℕ) where
  pub total-alter :
      (k : K) (v v' : V) (m : Assoc K V)
      → lookup k m ≡ some v
      → total f (alter k (λ _. v') m) + f v ≡ total f m + f v'
  total-alter k v v' [] h = cc
  total-alter k v v' ((j, w) ∷ m) h = elim (Bool-cases (e.eq j k)) [
    | inl same ↦ let found : w ≡ v = ground arith in rw (same, found) (omega arith)
    | inr other ↦ rw other (omega (arith, total-alter k v v' m (ground arith)))
  ]

  pub le-total : (k : K) (v : V) (m : Assoc K V) → lookup k m ≡ some v → f v ≤ total f m
  le-total k v [] h = cc
  le-total k v ((j, w) ∷ m) h = elim (Bool-cases (e.eq j k)) [
    | inl same ↦ let found : w ≡ v = ground arith in rw (← found) (omega arith)
    | inr other ↦ omega (arith, le-total k v m (ground arith))
  ]

module _ {K V : Type 0} (f : V → ℕ) where
  pub sum_by-values : (m : Assoc K V) → sum_by f (values m) ≡ total f m
  sum_by-values [] = refl
  sum_by-values ((k, v) ∷ m) = omega (arith, sum_by-values m)

module _ {ℓ} {K V : Type 0} (P : V → Type ℓ) where
  pub All-values : (m : Assoc K V) → All (λ p. P p.1) m → All P (values m)
  All-values [] a = tt
  All-values (p ∷ m) a = (a.0, All-values m a.1)
