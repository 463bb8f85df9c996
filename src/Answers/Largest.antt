-- ===== src/Answers/Largest.antt =====
-- What it is to be the keys with the largest counts, and `top_counts`, of
-- asap-precompute-rs/src/answers.rs, which takes them.
use mathlib.Core.List.{Perm}
use mathlib.Core.List.Perm
use asapcollector_public.Common.{
  ℕ, zero, suc, ◌<◌, ◌≡◌, ◌⊎◌, refl, sym, ap, subst, ◌∙◌, true, false, List, [], ◌∷◌, ◌++◌, arith,
  inl, inr, Bool-cases, All, All-map, ltb, length, min, tests, ==_iff,
}
use asapcollector_public.Common.Text.{Text, text_le, text_le_total, text_le_trans}
use asapcollector_public.Common.Assoc.{Assoc}
use asapcollector_public.Common.Sorting.{sort, sort_insert}
use asapcollector_public.Answers.{count_le, take_first, top_counts}

-- The first key has the larger count, or the same count and is not the later one of the two.
abbrev pub RanksAbove : Text × ℕ → Text × ℕ → Type 0
RanksAbove p q = (q.1 < p.1) ⊎ ((p.1 ≡ q.1) × (text_le p.0 q.0 ≡ true))

-- Every key ranks above all that follow it.
abbrev pub IsRanked : List (Text × ℕ) → Type 0
IsRanked [] = Unit
IsRanked (p ∷ ps) = All (RanksAbove p) ps × IsRanked ps

-- The list has the `k` keys of the counts, or all if they are fewer, that rank above the others, in
-- the order of their ranks, each once and with its count.
pub record IsLargest (k : ℕ) (counts top : List (Text × ℕ)) : Type 0 where
  pub others : List (Text × ℕ)
  pub same_keys : Perm (top ++ others) counts
  pub ranked : IsRanked (top ++ others)
  pub size : length top ≡ min k (length counts)

count_le-RanksAbove : (p q : Text × ℕ) → count_le p q ≡ true → RanksAbove p q
count_le-RanksAbove (k, c) (k', c') h = elim (Bool-cases (ltb c' c)) [
  | inl e ↦ inl (omega (tests, e))
  | inr e ↦ inr ((==_iff c c').0 (ground (arith, e, h)), ground (arith, e, h))
]

not_count_le-RanksAbove : (p q : Text × ℕ) → count_le p q ≡ false → RanksAbove q p
not_count_le-RanksAbove (k, c) (k', c') h = elim (Bool-cases (ltb c c')) [
  | inl e ↦ inl (omega (tests, e))
  | inr e ↦
      let same : c ≡ c' = ground (arith, e, h) in
      inr (sym same, text_le_total k k' (ground (arith, same, h)))
]

RanksAbove-trans : (p q r : Text × ℕ) → RanksAbove p q → RanksAbove q r → RanksAbove p r
RanksAbove-trans p q r (inl a) (inl b) = inl (omega (arith, a, b))
RanksAbove-trans p q r (inl a) (inr b) = inl (omega (arith, a, b.0))
RanksAbove-trans p q r (inr a) (inl b) = inl (omega (arith, a.0, b))
RanksAbove-trans p q r (inr a) (inr b) = inr (a.0 ∙ b.0, text_le_trans p.0 q.0 r.0 a.1 b.1)

insert-All :
    (P : Text × ℕ → Type 0) (x : Text × ℕ) (l : List (Text × ℕ))
    → P x
    → All P l
    → All P (sort_insert count_le x l)
unfolding sort_insert
insert-All P x [] h a = (h, tt)
insert-All P x (y ∷ l) h a = elim (Bool-cases (count_le x y)) [
  | inl e ↦ rw e (h, a)
  | inr e ↦ rw e (a.0, insert-All P x l h a.1)
]

insert-IsRanked :
    (x : Text × ℕ) (l : List (Text × ℕ)) → IsRanked l → IsRanked (sort_insert count_le x l)
unfolding sort_insert
insert-IsRanked x [] h = (tt, tt)
insert-IsRanked x (y ∷ l) h = elim (Bool-cases (count_le x y)) [
  | inl e ↦
      let above = count_le-RanksAbove x y e in
      rw e ((above, All-map (λ z r. RanksAbove-trans x y z above r) _ h.0), h)
  | inr e ↦
      rw e
        (insert-All (RanksAbove y) x l (not_count_le-RanksAbove x y e) h.0, insert-IsRanked x l h.1)
]

sort-IsRanked : (l : List (Text × ℕ)) → IsRanked (sort count_le l)
unfolding sort
sort-IsRanked [] = tt
sort-IsRanked (x ∷ l) = insert-IsRanked x _ (sort-IsRanked l)

insert-perm : (x : Text × ℕ) (l : List (Text × ℕ)) → Perm (sort_insert count_le x l) (x ∷ l)
unfolding sort_insert
insert-perm x [] = Perm.refl (x ∷ [])
insert-perm x (y ∷ l) = elim (Bool-cases (count_le x y)) [
  | inl e ↦ rw e (Perm.refl (x ∷ y ∷ l))
  | inr e ↦ rw e (Perm.trans (Perm.cons y (insert-perm x l)) (Perm.swap x y l))
]

sort_keeps : (l : List (Text × ℕ)) → Perm (sort count_le l) l
unfolding sort
sort_keeps [] = Perm.refl []
sort_keeps (x ∷ l) = Perm.trans (insert-perm x _) (Perm.cons x (sort_keeps l))

length-insert :
    (x : Text × ℕ) (l : List (Text × ℕ)) → length (sort_insert count_le x l) ≡ suc (length l)
unfolding sort_insert
length-insert x [] = refl
length-insert x (y ∷ l) = elim (Bool-cases (count_le x y)) [
  | inl e ↦ rw e refl
  | inr e ↦ rw e (ap suc (length-insert x l))
]

length-sort : (l : List (Text × ℕ)) → length (sort count_le l) ≡ length l
unfolding sort
length-sort [] = refl
length-sort (x ∷ l) = length-insert x _ ∙ ap suc (length-sort l)

take_first-parts :
    {A : Type 0} (k : ℕ) (xs : List A)
    → (others : List A) × (take_first k xs ++ others ≡ xs)
      × (length (take_first k xs) ≡ min k (length xs))
take_first-parts zero xs = (xs, refl, omega arith)
take_first-parts (suc k) [] = ([], refl, omega arith)
take_first-parts (suc k) (x ∷ xs) =
    let (others, parts, size) = take_first-parts k xs in
    (others, ap (λ l. x ∷ l) parts, omega (arith, size))

pub top_counts-IsLargest :
    (k : ℕ) (counts : Assoc Text ℕ) → IsLargest k counts (top_counts k counts)
unfolding top_counts
top_counts-IsLargest k counts =
    let sorted = sort count_le counts in
    let (others, parts, size) = take_first-parts k sorted in
    record {
      others = others;
      same_keys = subst (λ l. Perm l counts) (sym parts) (sort_keeps counts);
      ranked = subst IsRanked (sym parts) (sort-IsRanked counts);
      size = omega (arith, size, length-sort counts);
    }
