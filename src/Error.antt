-- ===== src/Error.antt =====
-- `PrecomputeError` of asap-precompute-rs/src/precompute.rs, and results that carry it.
use asapcollector_public.Common.{ℕ, ◌≡◌, ◌⊎◌, refl, inl, inr}
use asapcollector_public.Common.Text.{Text}
use asapcollector_public.Envelope.{SketchType}

pub data PrecomputeError : Type 0 where
  series_cap_exceeded : PrecomputeError
  late_data : PrecomputeError
  no_config : PrecomputeError
  -- the envelope's id, the config's id
  agg_id_mismatch : ℕ → ℕ → PrecomputeError
  -- the envelope's type, the config's type
  sketch_type_mismatch : SketchType → SketchType → PrecomputeError
  other : Text → PrecomputeError

pub data Result {ℓ} (A : Type ℓ) : Type ℓ where
  ok : A → Result A
  err : PrecomputeError → Result A

infixl 5 ◌>>=◌
abbrev pub ◌>>=◌ {ℓ κ} : {A : Type ℓ} {B : Type κ} → Result A → (A → Result B) → Result B
ok a >>= f = f a
err e >>= f = err e

-- What holds of a result that is not an error.
abbrev pub Ensures {ℓ κ} : {A : Type ℓ} → (A → Type κ) → Result A → Type κ
Ensures P (ok a) = P a
Ensures P (err e) = Unit

pub >>=-Ensures {ℓ κ μ ν} :
    {A : Type ℓ} {B : Type κ} (P : A → Type μ) (Q : B → Type ν) (r : Result A) (f : A → Result B)
    → Ensures P r
    → ((a : A) → P a → Ensures Q (f a))
    → Ensures Q (r >>= f)
>>=-Ensures P Q (ok a) f h next = next a h
>>=-Ensures P Q (err e) f h next = tt

pub Ensures-all {ℓ κ} :
    {A : Type ℓ} (P : A → Type κ) → ((a : A) → P a) → (r : Result A) → Ensures P r
Ensures-all P h (ok a) = h a
Ensures-all P h (err e) = tt

pub result_cases :
    {A : Type 0} (r : Result A) → ((e : PrecomputeError) × (r ≡ err e)) ⊎ ((a : A) × (r ≡ ok a))
result_cases (ok a) = inr (a, refl)
result_cases (err e) = inl (e, refl)
