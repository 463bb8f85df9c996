-- ===== src/WindowMerge.antt =====
-- `WindowMerger` of asap-precompute-rs/src/otap/window_merge.rs: sketches of many sources, merged by
-- the window that they describe. The clock is an argument of `add`; decoding a snapshot, and the
-- debug format of a list of pairs, are parameters.
pub mod Once
use asapcollector_public.Common.{
  ℕ, ◌+◌, ◌-◌, Bool, true, false, ◌&&◌, ◌||◌, Option, none, some, List, [], ◌∷◌, ◌++◌, map, max,
  ltb, leb, ◌==◌, if◌then◌else◌, wrapping_add, saturating_add,
}
use asapcollector_public.Common.Text.{Text, text, text_eq, text_le, text_lt, decimal}
use asapcollector_public.Common.Assoc.{Assoc, lookup, alter, remove, text_key, number_key}
use asapcollector_public.Common.Sorting.{sort}
use asapcollector_public.Common.Trees.{entry, split_off, before, text_put}
use asapcollector_public.Envelope.{KeyValue, SketchType, SketchEnvelope, name}
use asapcollector_public.Error.{Result, ok, err}
use asapcollector_public.Config.{Duration, as_millis}
use asapcollector_public.Sketch.{Sketch}

pub record Pending (S : Type 0) : Type 0 where
  pub envelope : SketchEnvelope
  pub sketch : S

abbrev pub MergeWindow : Type 0 → Type 0
MergeWindow S = Assoc Text (Pending S)

pub record WindowMerger (S : Type 0) : Type 0 where
  pub windows : Assoc ℕ (MergeWindow S)
  pub emitted_until : ℕ
  pub late : ℕ
  pub arrived : Assoc ℕ ℕ
  pub messages : Assoc ℕ ℕ

-- The order of pairs of strings.
abbrev pair_le : Text × Text → Text × Text → Bool
pair_le (k, v) (k', v') = text_lt k k' || (text_eq k k' && text_le v v')

abbrev pairs : List KeyValue → List (Text × Text)
pairs labels = sort pair_le (map (λ kv. (kv.key, kv.value)) labels)

unfoldable pub merge_key : (List (Text × Text) → Text) → SketchEnvelope → Text
merge_key debug e =
    e.metric_name
    ++ b'|'
      ∷ (name e.sketch_type
          ++ b'|'
            ∷ (decimal e.agg_id
                ++ b'|'
                  ∷ (decimal e.window_start_ms
                      ++ b'|'
                        ∷ (debug (pairs e.resource_labels) ++ b'|' ∷ debug (pairs e.labels)))))

-- The latest window that enough messages carried, or 0.
unfoldable pub latest_complete : ℕ → Assoc ℕ ℕ → ℕ
latest_complete sources [] = 0
latest_complete sources ((end, n) ∷ messages) =
    let rest = latest_complete sources messages in
    if ltb 0 sources && leb sources n then max end rest else rest

module _ {S : Type 0} where
  unfoldable pub message_carried : ℕ → WindowMerger S → WindowMerger S
  message_carried end m =
      if ltb m.emitted_until end
      then record m { messages = entry end 0 (λ n. wrapping_add n 1) m.messages }
      else m

  unfoldable pub take_arrival : ℕ → WindowMerger S → Option ℕ × WindowMerger S
  take_arrival end m = (lookup end m.arrived, record m { arrived = remove end m.arrived })

  abbrev pub last_end : ℕ → Assoc ℕ (MergeWindow S) → ℕ
  last_end latest [] = latest
  last_end latest ((end, series) ∷ ready) = last_end (max latest end) ready

  unfoldable pub merge_cutoff : ℕ → Duration → ℕ → WindowMerger S → ℕ
  merge_cutoff now_ms grace sources m =
      max (now_ms - as_millis grace) (latest_complete sources m.messages)

module _ {S : Type 0} (ops : Sketch S) (decode : SketchType → List ℕ → Result S)
    (debug : List (Text × Text) → Text) where
  unfoldable pub merge_pending : SketchEnvelope → Pending S → Result (Unit {0}) × Pending S
  merge_pending env p =
      let (r, sketch) = ops.merge_snapshot p.sketch env.payload in
      elim r [
        | ok _ ↦ (
          ok tt,
          record {
            envelope = record (p.envelope) { count = wrapping_add p.envelope.count env.count };
            sketch = sketch;
          },
        )
        | err e ↦ (err e, record p { sketch = sketch })
      ]

  -- The slot of the series: merged if it is occupied, decoded if it is vacant.
  unfoldable pub fill_slot : SketchEnvelope → MergeWindow S → Result (Unit {0}) × MergeWindow S
  fill_slot env w =
      let key = merge_key debug env in
      elim (lookup key w) [
        | some p ↦ let (r, p') = merge_pending env p in (r, alter key (λ _. p') w)
        | none ↦ elim (decode env.sketch_type env.payload) [
          | err e ↦ (err e, w)
          | ok s ↦ (ok tt, text_put key (record { envelope = env; sketch = s }) w)
        ]
      ]

  abbrev or_no_series : Option (MergeWindow S) → MergeWindow S
  or_no_series none = []
  or_no_series (some w) = w

  unfoldable pub add : ℕ → SketchEnvelope → WindowMerger S → Result (Unit {0}) × WindowMerger S
  add now_ms env m =
      let end = env.window_end_ms in
      if leb end m.emitted_until then (ok tt, record m { late = wrapping_add m.late 1 }) else (
        (fill_slot env (or_no_series (lookup end m.windows))).0,
        record m {
          arrived = entry end now_ms (λ _. now_ms) m.arrived;
          windows = entry end [] (λ w. (fill_slot env w).1) m.windows;
        },
      )

  abbrev with_snapshot :
      SketchEnvelope → Result (List ℕ) → List SketchEnvelope → List SketchEnvelope
  with_snapshot env (ok payload) rest = record env { payload = payload } ∷ rest
  with_snapshot env (err e) rest = rest

  unfoldable pub emit_series : MergeWindow S → List SketchEnvelope
  emit_series [] = []
  emit_series ((key, p) ∷ series) =
      with_snapshot p.envelope (ops.snapshot p.sketch) (emit_series series)

  unfoldable pub emit_windows : Assoc ℕ (MergeWindow S) → List SketchEnvelope
  emit_windows [] = []
  emit_windows ((end, series) ∷ ready) = emit_series series ++ emit_windows ready

  unfoldable pub due : ℕ → Duration → ℕ → WindowMerger S → List SketchEnvelope × WindowMerger S
  due now_ms grace sources m =
      let first_open = saturating_add (merge_cutoff now_ms grace sources m) 1 in
      let ready = before first_open m.windows in
      (
        emit_windows ready,
        record m {
          messages = split_off first_open m.messages;
          windows = split_off first_open m.windows;
          emitted_until = last_end m.emitted_until ready;
        },
      )
