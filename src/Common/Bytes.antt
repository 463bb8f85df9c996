-- ===== src/Common/Bytes.antt =====
-- Little-endian numbers, and the test of `str::from_utf8`.
use Prim.Native.Nat.{ℕ, zero, suc, ◌+◌, ◌-◌, ◌*◌, ◌/◌, ◌%◌, ◌^◌, ◌<◌}
use mathlib.Core.Path.{◌≡◌, refl, ◌∙◌}
use mathlib.Core.Bool.{Bool, true, false, ◌&&◌}
use mathlib.Core.List.{List, [], ◌∷◌}
use mathlib.Core.Option.{Option, none, some}
use native.Mathlib.Omega.{arith}
use asapcollector_public.Common.Tests.{leb, ◌==◌, if◌then◌else◌}
use asapcollector_public.Common.Lists.{length}

-- `n.to_le_bytes()` of a number of `k` bytes.
unfoldable pub le_bytes : ℕ → ℕ → List ℕ
le_bytes zero n = []
le_bytes (suc k) n = n % 256 ∷ le_bytes k (n / 256)

unfoldable pub from_le : List ℕ → ℕ
from_le [] = 0
from_le (b ∷ bytes) = b + 256 * from_le bytes

pub length-le_bytes : (k n : ℕ) → length (le_bytes k n) ≡ k
unfolding le_bytes
length-le_bytes zero n = refl
length-le_bytes (suc k) n = omega (arith, length-le_bytes k (n / 256))

pub from_le-le_bytes_u64 : (n : ℕ) → n < 2 ^ 64 → from_le (le_bytes 8 n) ≡ n
unfolding from_le le_bytes
from_le-le_bytes_u64 n h = omega arith

from_le-le_bytes_u32 : (n : ℕ) → n < 2 ^ 32 → from_le (le_bytes 4 n) ≡ n
unfolding from_le le_bytes
from_le-le_bytes_u32 n h = omega arith

-- `n as u32`
unfoldable pub as_u32 : ℕ → ℕ
as_u32 n = n % 2 ^ 32

pub from_le-as_u32 : (n : ℕ) → n < 2 ^ 32 → from_le (le_bytes 4 (as_u32 n)) ≡ n
unfolding as_u32
from_le-as_u32 n h = from_le-le_bytes_u32 (n % 2 ^ 32) (omega arith) ∙ mod_small
  where
    mod_small : n % 2 ^ 32 ≡ n
    mod_small = omega arith

-- How many continuation bytes a character still needs, and the range of the next one.
record Utf8State : Type 0 where
  pub missing : ℕ
  pub low : ℕ
  pub high : ℕ

abbrev expect : ℕ → ℕ → ℕ → Option Utf8State
expect missing low high = some (record { missing = missing; low = low; high = high })

abbrev first_byte : ℕ → Option Utf8State
first_byte b =
    if leb b 0x7f
    then expect 0 0x80 0xbf
    else if leb 0xc2 b && leb b 0xdf
    then expect 1 0x80 0xbf
    else if b == 0xe0
    then expect 2 0xa0 0xbf
    else if b == 0xed
    then expect 2 0x80 0x9f
    else if leb 0xe1 b && leb b 0xef
    then expect 2 0x80 0xbf
    else if b == 0xf0
    then expect 3 0x90 0xbf
    else if leb 0xf1 b && leb b 0xf3
    then expect 3 0x80 0xbf
    else if b == 0xf4
    then expect 3 0x80 0x8f
    else none

abbrev next_byte : Utf8State → ℕ → Option Utf8State
next_byte s b =
    if s.missing == 0
    then first_byte b
    else if leb s.low b && leb b s.high
    then expect (s.missing - 1) 0x80 0xbf
    else none

utf8_from : Utf8State → List ℕ → Bool
utf8_from s [] = s.missing == 0
utf8_from s (b ∷ bytes) = elim (next_byte s b) [ none ↦ false | some t ↦ utf8_from t bytes ]

unfoldable pub is_utf8 : List ℕ → Bool
unfolding utf8_from
is_utf8 = utf8_from (record { missing = 0; low = 0x80; high = 0xbf })

euro_is_utf8 : is_utf8 (0x41 ∷ 0xe2 ∷ 0x82 ∷ 0xac ∷ []) ≡ true
unfolding is_utf8
euro_is_utf8 = refl

surrogate_is_not_utf8 : is_utf8 (0xed ∷ 0xa0 ∷ 0x80 ∷ []) ≡ false
unfolding is_utf8
surrogate_is_not_utf8 = refl
