-- ===== src/Lib.antt =====
-- The host-neutral runtime of asap-precompute-rs: observations are admitted, filed under a series
-- key, folded into one sketch per series, and emitted as envelopes when a window closes; and the
-- exact baselines and the answers that it is measured against.
--
-- The parts, in asap-precompute-rs/src, and the files that model them:
--   observation.rs, envelope.rs   Observation, Envelope: the data. An `f64` is its bits (Float), a
--                                 `String` is its bytes (Common/Text).
--   matchers.rs                   Matchers: `matches_all`, the canonical `series_key`, and
--                                 `per_attribute`, whose callback is a parameter on a state.
--   config.rs                     Config: the configuration, its matching and its keys. A
--                                 `Duration` is a number of nanoseconds.
--   precompute.rs                 Error, Stats, Sketch: the errors, the counters, and the traits of
--                                 sketches as interfaces; Precompute: `PrecomputeImpl`, with `tick`,
--                                 `drain` (Precompute/Emit), `observe` and `observe_envelope`
--                                 (Precompute/Ingest).
--   window.rs                     Window: `WindowState`, with `observe`; `observe_envelope`
--                                 (Window/Merge); `rotate`, `drain` (Window/Rotate).
--   sketches/*.rs                 Kll: the wrapper of sketchlib's `Kll`, and its observer;
--                                 Sketches: the trait object and `decode_snapshot`, with the other
--                                 wrappers in Sketches/Dd, Hll, Matrix and Heap.
--   kll_windows.rs                KllWindows: `KllWindowStore`, with `observe` and `merge_pane`
--                                 (KllWindows/Ingest), and the range queries (KllWindows/Query);
--                                 Rolling: `KllRollingPrecompute`.
--   answers.rs                    Exact: `ExactWindow`, its encoding and its merge; Answers: the
--                                 answers of an exact window and `topk_of`; Answers/Trackers:
--                                 drift, novelty and cardinality; Answers/FromSketches:
--                                 `sketch_answers` and `heavy_hitter_accuracy`.
--   otap/config.rs                Plugin: `resolve` and `build_dispatch`.
--   otap/window_merge.rs          WindowMerge: `WindowMerger`, with `add` and `due`.
--   otap/baseline_nodes.rs        ExactNodes: `ExactBranch` and `ExactMerge`; ExactDetector, RawSink:
--                                 the nodes that answer from exact windows and from raw rows.
--
-- A method that changes its object takes the state and returns the new one beside its result. A
-- `HashMap` is the list of its entries, each key once, in the order in which it iterates; that
-- order is not specified, and a new entry goes to the end here. A `BTreeMap` is kept in ascending
-- order. A `u64` keeps its wrap-around (`wrapping_add`) as in a release build, and a counter that
-- saturates does so here. An `i64` counter is its 64 bits. An index out of range, at which the code
-- panics, is `none`. The calls of `PrecomputeImpl` take one after the other: `tick` and `drain`
-- release the lock between the rotation and the counters, and what another thread does in between
-- is not modelled.
--
-- `PrecomputeImpl` calls the window manager with the installed configuration and its counters; the
-- window manager calls the factory and the observer, and merges payloads through the interface
-- `Sketch`. sketchlib is not under this repository: its sketches are a type with functions
-- (`Sketch`, `KllLib`, and one record for each wrapper), and what the runtime relies on is the
-- record `SketchLaws` of Window/Soundness, which the counter of Tests/Fixtures fills. The
-- arithmetic and the printing of an `f64` are the parameter `FloatLib` of Float/Math; the debug
-- format of labels and the text that replaces bytes that are not UTF-8 are parameters too.
--
-- Loops are structural, on the list that they walk or on a count that was read (`read_values`,
-- `read_counts`) or is fixed (the 99 steps of `grid`); only the digits of `decimal` run on fuel, one
-- more than the number, which divides by ten at each digit.
--
-- Not modelled: the OTAP codec; what the processors ask of their engine (timers, acks, sends) and
-- the decoding of the batches that they receive; the nodes of otap/answer_nodes.rs, of which only
-- the series key is used; the scenario generator; the binaries and benchmarks; serde; the mutexes.
pub mod Common
pub mod Float
pub mod Envelope
pub mod Error
pub mod Observation
pub mod Matchers
pub mod Config
pub mod Sketch
pub mod Stats
pub mod Window
pub mod Kll
pub mod KllWindows
pub mod Rolling
pub mod Exact
pub mod ExactNodes
pub mod Answers
pub mod ExactDetector
pub mod RawSink
pub mod Plugin
pub mod Sketches
pub mod WindowMerge
pub mod Precompute
pub mod Tests
