-- ===== src/Common/Maps.antt =====
-- `insert` and `entry(…).or_default()` of a `HashMap`.
use mathlib.Core.Path.{◌≡◌}
use mathlib.Core.Logic.{inl, inr}
use mathlib.Core.Option.{Option, none, some}
use asapcollector_public.Common.Tests.{if◌then◌else◌, Option-cases}
use asapcollector_public.Common.Assoc.{
  Assoc, Key, lookup, push, alter, IsMap, lookup-push, lookup-alter, push-IsMap, alter-IsMap,
}

-- `unwrap_or(default)`
abbrev pub or_default {ℓ} : {V : Type ℓ} → V → Option V → V
or_default default none = default
or_default default (some v) = v

module _ {K V : Type 0} ⦃e : Key K⦄ where
  -- `f(entry(k).or_insert(default))`
  unfoldable pub upsert : K → V → (V → V) → Assoc K V → Assoc K V
  upsert k default f m = elim (lookup k m) [ none ↦ push k (f default) m | some v ↦ alter k f m ]

  -- `insert(k, v)`
  unfoldable pub put : K → V → Assoc K V → Assoc K V
  put k v = upsert k v (λ _. v)

  pub put_absent : (k : K) (v : V) (m : Assoc K V) → lookup k m ≡ none → put k v m ≡ push k v m
  unfolding put upsert
  put_absent k v m h = rw (upsert, h)

  pub lookup-upsert :
      (k j : K) (d : V) (f : V → V) (m : Assoc K V)
      → lookup j (upsert k d f m)
        ≡ (if e.eq k j then some (f (or_default d (lookup k m))) else lookup j m)
  unfolding upsert
  lookup-upsert k j d f m = elim (Option-cases (lookup k m)) [
    | inl h ↦ rw (upsert, h) (lookup-push k j (f d) m h)
    | inr (v, h) ↦ rw (upsert, h) (lookup-alter k j f m v h)
  ]

  pub upsert-IsMap : (k : K) (d : V) (f : V → V) (m : Assoc K V) → IsMap m → IsMap (upsert k d f m)
  unfolding upsert
  upsert-IsMap k d f m w = elim (Option-cases (lookup k m)) [
    | inl h ↦ rw (upsert, h) (push-IsMap k (f d) m h w)
    | inr (v, h) ↦ rw (upsert, h) (alter-IsMap k f m w)
  ]

  pub lookup-put :
      (k j : K) (v : V) (m : Assoc K V)
      → lookup j (put k v m) ≡ (if e.eq k j then some v else lookup j m)
  unfolding put
  lookup-put k j v m = lookup-upsert k j v (λ _. v) m
