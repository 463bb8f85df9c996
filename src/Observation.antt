-- ===== src/Observation.antt =====
-- asap-precompute-rs/src/observation.rs
use asapcollector_public.Common.{ℕ, Option, none, some, List, [], Bool, true, false}
use asapcollector_public.Common.Text.{Text}
use asapcollector_public.Float.{F64, zero_f64}
use asapcollector_public.Envelope.{KeyValue, SketchEnvelope}

pub data ObservationValueKind : Type 0 where
  float hash bytes envelope : ObservationValueKind

pub record ObservationValue : Type 0 where
  pub kind : ObservationValueKind
  pub float : F64
  pub hash : ℕ
  pub bytes : List ℕ
  pub envelope : Option SketchEnvelope

default_value : ObservationValue
default_value = record { kind = float; float = zero_f64; hash = 0; bytes = []; envelope = none }

pub of_float : F64 → ObservationValue
unfolding default_value
of_float v = record default_value { kind = float; float = v }

pub of_hash : ℕ → ObservationValue
unfolding default_value
of_hash h = record default_value { kind = hash; hash = h }

pub of_bytes : List ℕ → ObservationValue
unfolding default_value
of_bytes b = record default_value { kind = bytes; bytes = b }

pub of_envelope : SketchEnvelope → ObservationValue
unfolding default_value
of_envelope e = record default_value { kind = envelope; envelope = some e }

pub record Observation : Type 0 where
  pub timestamp_ms : ℕ
  pub metric : Text
  pub resource_labels : List KeyValue
  pub labels : List KeyValue
  pub value : ObservationValue

abbrev pub is_envelope : ObservationValueKind → Bool
is_envelope envelope = true
is_envelope _ = false

abbrev pub is_float : ObservationValueKind → Bool
is_float float = true
is_float _ = false
