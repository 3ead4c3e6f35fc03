-- ===== src/Proto/Messages.antt =====
-- crates/flip-proto/src/messages.rs: the control bodies and the error codes. The derived CBOR codec
-- of the bodies is minicbor's, so whoever sends or reads a body takes it as a parameter.
use flip_link.Base.{ℕ, Bool, List, Text, codes}
use flip_link.Proto.Value.{Value}

abbrev pub protocol_version : ℕ
protocol_version = 1

abbrev pub err_unknown_instrument : ℕ
err_unknown_instrument = 1

abbrev pub err_unknown_opcode : ℕ
err_unknown_opcode = 2

abbrev pub err_bad_params : ℕ
err_bad_params = 3

abbrev pub err_busy : ℕ
err_busy = 4

abbrev pub err_oversized : ℕ
err_oversized = 5

abbrev pub err_internal : ℕ
err_internal = 6

pub record Hello : Type 0 where
  pub host_version : ℕ

pub record Instrument : Type 0 where
  pub id : Text
  pub opcodes : List Text

pub record Caps : Type 0 where
  pub protocol : ℕ
  pub instruments : List Instrument

pub record Req : Type 0 where
  pub instrument : Text
  pub opcode : Text
  pub params : Value

pub record Resp : Type 0 where
  pub ok : Bool
  pub result : Value

pub record AgentError : Type 0 where
  pub code : ℕ
  pub message : Text

pub record StreamStart : Type 0 where
  pub format : Text

pub record StreamStop : Type 0 where
  pub dropped : ℕ

abbrev pub stream_format_raw_i32_us : Text
stream_format_raw_i32_us = codes "raw_int32_le_us"

abbrev pub stream_format_subghz_level_duration_v1 : Text
stream_format_subghz_level_duration_v1 = codes "subghz_level_duration_le_v1"
