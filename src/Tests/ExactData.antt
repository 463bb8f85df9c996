-- ===== src/Tests/ExactData.antt =====
-- The theorems on exact windows and their nodes, at two sources of one window.
use asapcollector_public.Common.{
  ℕ, ◌^◌, ◌≡◌, ◌<◌, ◌≤◌, ◌++◌, refl, some, List, [], ◌∷◌, arith, All, u64_max,
}
use asapcollector_public.Common.Assoc.{number_key, text_key}
use asapcollector_public.Common.Bytes.{is_utf8}
use asapcollector_public.Common.Text.{Text, text}
use asapcollector_public.Envelope.{KeyValue, SketchEnvelope}
use asapcollector_public.Error.{ok}
use asapcollector_public.Exact.{ExactWindow, encode, decode, empty_window}
use asapcollector_public.Exact.Merging.{Point, value_point, Agree, window_of, add_points, add_point}
use asapcollector_public.Exact.RoundTrip.{Fits, decode-encode}
use asapcollector_public.ExactNodes.{
  complete_until, ExactBranch, ExactMerge, Windows, encoded_windows, observe_all, cutoff, due,
  slot_key, series_key, add_all,
}
use asapcollector_public.ExactNodes.Branch.{IsKept, IsOrdered, all_points_of, observe_all-IsKept}
use asapcollector_public.ExactNodes.Closing.{due_parts}
use asapcollector_public.ExactNodes.Sources.{
  IsSource, all_points, envelopes_of, slot, add_all-Agree,
}
use asapcollector_public.Observation.{Observation}
use asapcollector_public.Tests.Fixtures.{envelope, observation}

abbrev exact_window : ExactWindow
exact_window = record { values = 1 ∷ 2 ∷ []; counts = (text "a", 2) ∷ []; points = 4 }

exact_window-Fits : Fits exact_window
unfolding is_utf8
exact_window-Fits = record {
  points_fit = omega arith;
  values_fit = (omega arith, (omega arith, tt));
  values_len_fits = omega arith;
  counts_fit = (((omega arith, refl), omega arith), tt);
  counts_len_fits = omega arith;
  unique = (refl, tt);
}

decode-encode_example : decode (encode exact_window) ≡ ok exact_window
decode-encode_example = decode-encode exact_window exact_window-Fits

abbrev no_debug : List KeyValue → Text
no_debug labels = []

-- A source with one value, and one with another.
abbrev source_of : Point → SketchEnvelope
source_of p = record envelope { payload = encode (window_of (p ∷ [])) }

value-Fits : (v : ℕ) → v < 2 ^ 64 → Fits (window_of (value_point v ∷ []))
unfolding add_points add_point
value-Fits v h = record {
  points_fit = omega arith;
  values_fit = (h, tt);
  values_len_fits = omega arith;
  counts_fit = tt;
  counts_len_fits = omega arith;
  unique = tt;
}

abbrev merge_key : Text
merge_key = slot_key no_debug envelope

value-IsSource :
    (v : ℕ)
    → v < 2 ^ 64
    → IsSource no_debug 20 merge_key (source_of (value_point v), value_point v ∷ [])
unfolding slot_key series_key
value-IsSource v h = record {
  same_end = refl;
  same_slot = refl;
  carries = refl;
  fits = value-Fits v h;
}

-- The window that ends at 10 is open, and nothing has been emitted.
abbrev merge_state : ExactMerge
merge_state = record {
  config = record { grace = 5000000; sources = 2 };
  windows = (10, (text "s", (envelope, exact_window)) ∷ []) ∷ [];
  arrived = [];
  messages = (10, 2) ∷ [];
  emitted_until = 0;
}

abbrev second_source : List (SketchEnvelope × List Point)
second_source = (source_of (value_point 8), value_point 8 ∷ []) ∷ []

add_all-Agree_example :
    (merged : ExactWindow) × (slot 20 merge_key
        (add_all no_debug 21 (source_of (value_point 7) ∷ envelopes_of second_source) merge_state)
      ≡ some (source_of (value_point 7), merged))
    × Agree merged (window_of ((value_point 7 ∷ []) ++ all_points second_source))
add_all-Agree_example =
    add_all-Agree no_debug 21 20 merge_key (source_of (value_point 7)) (value_point 7 ∷ [])
      second_source merge_state
      (value-IsSource 7 (omega arith), (value-IsSource 8 (omega arith), tt)) (omega arith) (tt, tt)
      refl

cutoff_is_small : cutoff 12 merge_state < u64_max
unfolding cutoff complete_until
cutoff_is_small = omega arith

due_parts_example :
    let o = due 12 merge_state in
    (o.0 ++ encoded_windows o.1.windows ≡ encoded_windows merge_state.windows)
    × All (λ p. cutoff 12 merge_state < p.0) o.1.windows
    × ((ready : Windows) × (o.0 ≡ encoded_windows ready)
        × All (λ p. p.0 ≤ cutoff 12 merge_state) ready)
due_parts_example = due_parts 12 merge_state (tt, tt) cutoff_is_small

abbrev branch : ExactBranch
branch = record {
  config = record { window = 10000000; group_by = text "host" ∷ []; per_attribute = text "*" ∷ [] };
  windows = (20, (text "a|host", (envelope, empty_window)) ∷ []) ∷ [];
  emitted_until = 10;
}

branch-IsOrdered : IsOrdered branch.windows
branch-IsOrdered = record { ascending = (tt, tt); sorted = ((tt, tt), tt) }

abbrev two_observations : List Observation
two_observations = observation ∷ record observation { timestamp_ms = 19 } ∷ []

observe_all-IsKept_example :
    IsKept no_debug 20
      (text "a|host")
      (all_points_of no_debug branch.config 20 (text "a|host") two_observations)
      branch
      (observe_all no_debug two_observations branch)
observe_all-IsKept_example =
    observe_all-IsKept no_debug 20 (text "a|host") two_observations branch branch-IsOrdered
      (omega arith)
