-- ===== src/Tests/Merging.antt =====
-- The theorems on the window merge, at one open window.
use asapcollector_public.Common.{◌≡◌, ◌≤◌, ◌<◌, ◌++◌, ℕ, ◌+◌, refl, List, [], ◌∷◌, arith, All}
use asapcollector_public.Common.Text.{Text, text}
use asapcollector_public.Error.{Result, ok}
use asapcollector_public.Envelope.{SketchType}
use asapcollector_public.WindowMerge.{
  WindowMerger, MergeWindow, add, due, emit_windows, merge_cutoff, latest_complete,
}
use asapcollector_public.Common.Assoc.{Assoc}
use asapcollector_public.WindowMerge.Once.{IsOpen, IsBetween, add-IsOpen, due_lem}
use asapcollector_public.Tests.Fixtures.{counter, envelope}

abbrev decode : SketchType → List ℕ → Result ℕ
decode kind [] = ok 0
decode kind (b ∷ payload) = ok (b + 1)

abbrev no_debug : List (Text × Text) → Text
no_debug pairs = []

-- The window that ends at 20 is open, and those up to 10 have been emitted.
abbrev merger : WindowMerger ℕ
merger = record {
  windows = (20, (text "a", record { envelope = envelope; sketch = 4 }) ∷ []) ∷ [];
  emitted_until = 10;
  late = 0;
  arrived = (20, 21) ∷ [];
  messages = (20, 1) ∷ [];
}

abbrev merger-IsOpen : IsOpen merger
merger-IsOpen = ((omega arith, (refl, tt)), tt)

add-IsOpen_example : IsOpen (add counter decode no_debug 22 envelope merger).1
add-IsOpen_example = add-IsOpen counter decode no_debug 22 envelope merger merger-IsOpen

-- Later windows of the merger, and one that is due.
abbrev merger_of_two : WindowMerger ℕ
merger_of_two = record merger { windows = merger.windows ++ (40, []) ∷ [] }

abbrev merger_of_two-IsOpen : IsOpen merger_of_two
merger_of_two-IsOpen = ((omega arith, (refl, tt)), ((omega arith, tt), tt))

due_lem_example :
    let o = due counter decode no_debug 23 5000000 1 merger_of_two in
    let cutoff = merge_cutoff 23 5000000 1 merger_of_two in
    All (IsBetween counter decode no_debug 10 o.1.emitted_until) o.0
    × IsOpen o.1
    × ((ready : Assoc ℕ (MergeWindow ℕ)) × (merger_of_two.windows ≡ ready ++ o.1.windows)
        × (o.0 ≡ emit_windows counter decode no_debug ready)
        × All (λ p. p.0 ≤ cutoff) ready
        × All (λ p. cutoff < p.0) o.1.windows)
unfolding merge_cutoff latest_complete
due_lem_example =
    due_lem counter decode no_debug 23 5000000 1 merger_of_two merger_of_two-IsOpen
      ((omega arith, tt), (tt, tt)) (omega arith)
