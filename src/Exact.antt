-- ===== src/Exact.antt =====
-- `ExactWindow` of asap-precompute-rs/src/answers.rs: the exact data of one series and window, and
-- its encoding as bytes. A `usize` has 64 bits.
pub mod RoundTrip
pub mod Merging
use asapcollector_public.Common.{
  ℕ, zero, suc, ◌+◌, ◌%◌, ◌^◌, ◌≡◌, refl, Bool, true, false, Option, none, some, List, [], ◌∷◌,
  ◌++◌, length, ltb, ◌==◌, if◌then◌else◌, wrapping_add,
}
use asapcollector_public.Common.Text.{Text, text}
use asapcollector_public.Common.Assoc.{Assoc, text_key}
use asapcollector_public.Common.Bytes.{le_bytes, from_le, as_u32, is_utf8}
use asapcollector_public.Common.Maps.{upsert, put}
use asapcollector_public.Error.{Result, ok, err, other, ◌>>=◌}
use asapcollector_public.Float.{F64}

pub record ExactWindow : Type 0 where
  pub values : List F64
  pub counts : Assoc Text ℕ
  pub points : ℕ

abbrev pub empty_window : ExactWindow
empty_window = record { values = []; counts = []; points = 0 }

-- `*counts.entry(k).or_default() += c`
unfoldable pub add_count : Text → ℕ → Assoc Text ℕ → Assoc Text ℕ
add_count k c counts = upsert k 0 (λ n. wrapping_add n c) counts

unfoldable pub add_counts : Assoc Text ℕ → Assoc Text ℕ → Assoc Text ℕ
add_counts counts [] = counts
add_counts counts ((k, c) ∷ more) = add_counts (add_count k c counts) more

unfoldable pub merge : ExactWindow → ExactWindow → ExactWindow
merge w more = record {
  values = w.values ++ more.values;
  counts = add_counts w.counts more.counts;
  points = wrapping_add w.points more.points;
}

abbrev pub magic : List ℕ
magic = text "EXv1"

unfoldable pub encode_values : List F64 → List ℕ
encode_values [] = []
encode_values (v ∷ values) = le_bytes 8 v ++ encode_values values

unfoldable pub encode_count : Text → ℕ → List ℕ
encode_count k c = le_bytes 4 (as_u32 (length k)) ++ (k ++ le_bytes 8 c)

unfoldable pub encode_counts : Assoc Text ℕ → List ℕ
encode_counts [] = []
encode_counts ((k, c) ∷ counts) = encode_count k c ++ encode_counts counts

unfoldable pub encode_body : ExactWindow → List ℕ
encode_body w =
    le_bytes 8 w.points
    ++ (le_bytes 8 (length w.values)
        ++ (encode_values w.values ++ (le_bytes 8 (length w.counts) ++ encode_counts w.counts)))

unfoldable pub encode : ExactWindow → List ℕ
encode w = magic ++ encode_body w

-- `split_at(n)` of a list with `n` elements at least.
unfoldable pub split_at : ℕ → List ℕ → List ℕ × List ℕ
split_at zero bytes = ([], bytes)
split_at (suc n) [] = ([], [])
split_at (suc n) (b ∷ bytes) = let rest = split_at n bytes in (b ∷ rest.0, rest.1)

-- What a read takes, and what it leaves in the cursor.
abbrev pub Read : Type 0 → Type 0
Read A = Result (A × List ℕ)

unfoldable pub take : ℕ → List ℕ → Read (List ℕ)
take n bytes =
    if ltb (length bytes) n
    then err (other (text "truncated exact window payload"))
    else ok (split_at n bytes)

unfoldable pub read_u64 : List ℕ → Read ℕ
read_u64 bytes = do (head, rest) ← take 8 bytes; ok (from_le head, rest)

unfoldable pub read_values : ℕ → List ℕ → Read (List F64)
read_values zero bytes = ok ([], bytes)
read_values (suc n) bytes = do
  (v, rest) ← read_u64 bytes
  (values, left) ← read_values n rest
  ok (v ∷ values, left)

unfoldable pub read_key : List ℕ → Read Text
read_key bytes = do
  (size, rest) ← take 4 bytes
  (key, left) ← take (from_le size) rest
  if is_utf8 key then ok (key, left) else err (other (text "exact window key is not UTF-8"))

unfoldable pub read_counts : ℕ → List ℕ → Assoc Text ℕ → Result (Assoc Text ℕ)
read_counts zero bytes counts = ok counts
read_counts (suc n) bytes counts = do
  (key, rest) ← read_key bytes
  (count, left) ← read_u64 rest
  read_counts n left (put key count counts)

unfoldable pub read_window : List ℕ → Result ExactWindow
read_window bytes = do
  (points, after_points) ← read_u64 bytes
  (size, after_size) ← read_u64 after_points
  (values, after_values) ← read_values size after_size
  (entries, after_entries) ← read_u64 after_values
  counts ← read_counts entries after_entries []
  ok (record { values = values; counts = counts; points = points })

-- `strip_prefix`
unfoldable pub strip_prefix : List ℕ → List ℕ → Option (List ℕ)
strip_prefix [] bytes = some bytes
strip_prefix (p ∷ prefix) [] = none
strip_prefix (p ∷ prefix) (b ∷ bytes) = if p == b then strip_prefix prefix bytes else none

unfoldable pub decode : List ℕ → Result ExactWindow
decode bytes = elim (strip_prefix magic bytes) [
  | none ↦ err (other (text "not an exact window payload"))
  | some rest ↦ read_window rest
]
