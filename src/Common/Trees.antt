-- ===== src/Common/Trees.antt =====
-- A `BTreeMap` as the list of its entries, in ascending order of the keys.
pub mod Laws
pub mod TextLaws
use Prim.Native.Nat.{ℕ}
use mathlib.Core.List.{[], ◌∷◌}
use asapcollector_public.Common.Tests.{◌==◌, ltb, leb, if◌then◌else◌}
use asapcollector_public.Common.Text.{Text, text_eq, text_lt}
use asapcollector_public.Common.Assoc.{Assoc}

-- `BTreeMap::entry(key).or_insert(default)`, and what is then done with the value.
unfoldable pub entry : {V : Type 0} → ℕ → V → (V → V) → Assoc ℕ V → Assoc ℕ V
entry key default f [] = (key, f default) ∷ []
entry key default f ((j, v) ∷ m) =
    if key == j
    then (j, f v) ∷ m
    else if ltb key j
    then (key, f default) ∷ (j, v) ∷ m
    else (j, v) ∷ entry key default f m

-- `BTreeMap::split_off(&cutoff)`: the entries from the key on.
unfoldable pub split_off : {V : Type 0} → ℕ → Assoc ℕ V → Assoc ℕ V
split_off cutoff [] = []
split_off cutoff ((j, v) ∷ m) =
    let rest = split_off cutoff m in if leb cutoff j then (j, v) ∷ rest else rest

-- A value in its place in a `BTreeMap` with text for keys.
unfoldable pub text_put : {V : Type 0} → Text → V → Assoc Text V → Assoc Text V
text_put key v [] = (key, v) ∷ []
text_put key v ((j, w) ∷ m) =
    if text_eq key j
    then (j, v) ∷ m
    else if text_lt key j
    then (key, v) ∷ (j, w) ∷ m
    else (j, w) ∷ text_put key v m

-- The entries before the key, which `split_off` leaves behind.
unfoldable pub before : {V : Type 0} → ℕ → Assoc ℕ V → Assoc ℕ V
before key [] = []
before key ((j, v) ∷ m) = let rest = before key m in if ltb j key then (j, v) ∷ rest else rest

-- `entry(key).or_insert(default)` of a `BTreeMap` with text for keys, and what is then done with the
-- value.
unfoldable pub text_entry : {V : Type 0} → Text → V → (V → V) → Assoc Text V → Assoc Text V
text_entry key default f [] = (key, f default) ∷ []
text_entry key default f ((j, v) ∷ m) =
    if text_eq key j
    then (j, f v) ∷ m
    else if text_lt key j
    then (key, f default) ∷ (j, v) ∷ m
    else (j, v) ∷ text_entry key default f m
