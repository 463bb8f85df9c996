-- ===== src/Exact/RoundTrip.antt =====
-- `encode` and `decode` of `ExactWindow`, of asap-precompute-rs/src/answers.rs.
use asapcollector_public.Common.{
  ℕ, ◌^◌, ◌<◌, ◌≡◌, refl, sym, ap, subst, ◌∙◌, true, false, none, List, [], ◌∷◌, ◌++◌, length,
  length-append, All, arith, le→ltb,
}
use asapcollector_public.Common.Text.{Text, text_eq, text_eq_iff}
use asapcollector_public.Common.Assoc.{Assoc, lookup, push, text_key, IsMap}
use asapcollector_public.Common.Bytes.{
  le_bytes, as_u32, is_utf8, length-le_bytes, from_le-le_bytes_u64, from_le-as_u32,
}
use asapcollector_public.Common.Maps.{put_absent}
use asapcollector_public.Error.{ok}
use asapcollector_public.Float.{F64}
use asapcollector_public.Exact.{
  ExactWindow, magic, encode_values, encode_count, encode_counts, encode_body, encode, split_at,
  take, read_u64, read_values, read_key, read_counts, read_window, strip_prefix, decode,
}
use mathlib.Core.List.{append-nil, append_assoc}

abbrev pub IsU64 : ℕ → Type 0
IsU64 n = n < 2 ^ 64

-- A string that a 32-bit length describes.
abbrev pub IsShortText : Text → Type 0
IsShortText s = (length s < 2 ^ 32) × (is_utf8 s ≡ true)

-- The numbers of the window are words, its keys are strings, and no key stands twice.
pub record Fits (w : ExactWindow) : Type 0 where
  pub points_fit : IsU64 w.points
  pub values_fit : All IsU64 w.values
  pub values_len_fits : IsU64 (length w.values)
  pub counts_fit : All (λ e. IsShortText e.0 × IsU64 e.1) w.counts
  pub counts_len_fits : IsU64 (length w.counts)
  pub unique : IsMap w.counts

split_at-append : (xs ys : List ℕ) → split_at (length xs) (xs ++ ys) ≡ (xs, ys)
unfolding split_at
split_at-append [] ys = refl
split_at-append (x ∷ xs) ys = rw (split_at-append xs ys)

take-append : (xs ys : List ℕ) → take (length xs) (xs ++ ys) ≡ ok (xs, ys)
unfolding take
take-append xs ys = rw (
  le→ltb (length (xs ++ ys)) (length xs) (omega (arith, length-append xs ys)),
  split_at-append xs ys,
)

take-le_bytes : (k n : ℕ) (ys : List ℕ) → take k (le_bytes k n ++ ys) ≡ ok (le_bytes k n, ys)
take-le_bytes k n ys =
    subst (λ m. take m (le_bytes k n ++ ys) ≡ ok (le_bytes k n, ys)) (length-le_bytes k n)
      (take-append (le_bytes k n) ys)

read_u64-le_bytes : (n : ℕ) (ys : List ℕ) → IsU64 n → read_u64 (le_bytes 8 n ++ ys) ≡ ok (n, ys)
unfolding read_u64
read_u64-le_bytes n ys h = rw (take-le_bytes 8 n ys, from_le-le_bytes_u64 n h)

read_values-encode_values :
    (values : List F64) (ys : List ℕ)
    → All IsU64 values
    → read_values (length values) (encode_values values ++ ys) ≡ ok (values, ys)
unfolding read_values encode_values
read_values-encode_values [] ys h = refl
read_values-encode_values (v ∷ values) ys h = rw (
  append_assoc (le_bytes 8 v) (encode_values values) ys,
  read_u64-le_bytes v (encode_values values ++ ys) h.0,
  read_values-encode_values values ys h.1,
)

read_key-encode_count :
    (k : Text) (ys : List ℕ)
    → IsShortText k
    → read_key (le_bytes 4 (as_u32 (length k)) ++ (k ++ ys)) ≡ ok (k, ys)
unfolding read_key
read_key-encode_count k ys h = rw (
  take-le_bytes 4 (as_u32 (length k)) (k ++ ys),
  from_le-as_u32 (length k) h.0,
  take-append k ys,
  h.1,
)

absent-append :
    (j k : Text) (v : ℕ) (front back : Assoc Text ℕ)
    → lookup j (front ++ (k, v) ∷ back) ≡ none
    → text_eq k j ≡ false
absent-append j k v [] back h = ground arith
absent-append j k v ((i, w) ∷ front) back h = ground (arith, absent-append j k v front back)

-- In a map, no entry has the key of a later one.
lookup-front :
    (k : Text) (v : ℕ) (front back : Assoc Text ℕ)
    → IsMap (front ++ (k, v) ∷ back)
    → lookup k front ≡ none
lookup-front k v [] back h = refl
lookup-front k v ((i, w) ∷ front) back h = ground (
  arith,
  lookup-front k v front back,
  absent-append i k v front back,
  text_eq_iff i k,
  text_eq_iff k i,
)

read_counts-encode_counts :
    (counts before : Assoc Text ℕ)
    → All (λ e. IsShortText e.0 × IsU64 e.1) counts
    → IsMap (before ++ counts)
    → read_counts (length counts) (encode_counts counts) before ≡ ok (before ++ counts)
unfolding read_counts encode_counts encode_count
read_counts-encode_counts [] before h w = rw append-nil refl
read_counts-encode_counts ((k, c) ∷ counts) before h w =
    rw
      (
        append_assoc (le_bytes 4 (as_u32 (length k))) (k ++ le_bytes 8 c) (encode_counts counts),
        append_assoc k (le_bytes 8 c) (encode_counts counts),
        read_key-encode_count k (le_bytes 8 c ++ encode_counts counts) h.0.0,
        read_u64-le_bytes c (encode_counts counts) h.0.1,
        put_absent k c before (lookup-front k c before counts w),
      )
      (read_counts-encode_counts counts (push k c before) h.1
          (subst IsMap (sym (append_assoc before ((k, c) ∷ []) counts)) w)
        ∙ ap ok (append_assoc before ((k, c) ∷ []) counts))

read_window-encode_body : (w : ExactWindow) → Fits w → read_window (encode_body w) ≡ ok w
unfolding encode_body read_window
read_window-encode_body w fits = rw (
  read_u64-le_bytes w.points _ fits.points_fit,
  read_u64-le_bytes (length w.values) _ fits.values_len_fits,
  read_values-encode_values w.values _ fits.values_fit,
  read_u64-le_bytes (length w.counts) _ fits.counts_len_fits,
  read_counts-encode_counts w.counts [] fits.counts_fit fits.unique,
)

decode-magic : (bytes : List ℕ) → decode (magic ++ bytes) ≡ read_window bytes
unfolding decode strip_prefix
decode-magic bytes = refl

-- `decode` reads back what `encode` wrote: a window whose numbers are 64-bit words, whose keys are
-- UTF-8 strings of less than 2 ^ 32 bytes, and whose keys are all different.
pub decode-encode : (w : ExactWindow) → Fits w → decode (encode w) ≡ ok w
unfolding encode
decode-encode w fits = decode-magic (encode_body w) ∙ read_window-encode_body w fits
