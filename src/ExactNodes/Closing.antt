-- ===== src/ExactNodes/Closing.antt =====
-- What `ExactMerge`, of asap-precompute-rs/src/otap/baseline_nodes.rs, emits and keeps.
use asapcollector_public.Common.{
  ℕ, ◌+◌, ◌≤◌, ◌<◌, ◌≡◌, refl, sym, ap, ◌∙◌, [], ◌∷◌, ◌++◌, map, arith, All, All-map,
  saturating_add, u64_max,
}
use asapcollector_public.Common.Assoc.{Assoc}
use asapcollector_public.Common.Trees.{split_off, before}
use asapcollector_public.Common.Trees.Laws.{
  IsAscending, before-All, split_off-All, before-split_off,
}
use asapcollector_public.ExactNodes.{
  Windows, ExactMerge, encoded, encoded_windows, close_windows, cutoff, due,
}
use mathlib.Core.List.{append_assoc}

encoded_windows-append :
    (a b : Windows) → encoded_windows (a ++ b) ≡ encoded_windows a ++ encoded_windows b
unfolding encoded_windows
encoded_windows-append [] b = refl
encoded_windows-append ((end, series) ∷ a) b =
    rw (encoded_windows-append a b)
      (sym (append_assoc (map (λ p. encoded p.1) series) (encoded_windows a) (encoded_windows b)))

every : {V : Type 0} (m : Assoc ℕ V) → All (λ p. Unit {0}) m
every [] = tt
every (p ∷ m) = (tt, every m)

-- `due` emits the encoded windows that end by the cutoff, which is the time less the grace or the
-- last window that a message of each source carried, and keeps the later ones; so no window stays
-- open past the cutoff, and none is lost: what is emitted, followed by what is left, encoded, is
-- what was open, encoded. The open windows stand in the order of their ends, and the cutoff is
-- below the largest `u64`.
pub due_parts :
    (now : ℕ) (m : ExactMerge)
    → IsAscending m.windows
    → cutoff now m < u64_max
    → let o = due now m in
      (o.0 ++ encoded_windows o.1.windows ≡ encoded_windows m.windows)
      × All (λ p. cutoff now m < p.0) o.1.windows
      × ((ready : Windows) × (o.0 ≡ encoded_windows ready) × All (λ p. p.0 ≤ cutoff now m) ready)
unfolding due close_windows
due_parts now m sorted small =
    let first_open = saturating_add (cutoff now m) 1 in
    let next : first_open ≡ cutoff now m + 1 = ground arith in
    (
      sym (encoded_windows-append (before first_open m.windows) (split_off first_open m.windows))
          ∙ ap encoded_windows (before-split_off first_open m.windows sorted),
      All-map (λ p h. omega (arith, h.0, next)) _
          (split_off-All (λ k v. Unit {0}) first_open m.windows (every m.windows)),
      (
        before first_open m.windows,
        refl,
        All-map (λ p h. omega (arith, h.0, next)) _
            (before-All (λ k v. Unit {0}) first_open m.windows (every m.windows)),
      ),
    )
