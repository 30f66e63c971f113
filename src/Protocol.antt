-- ===== src/Protocol.antt =====
-- internal/flowsplice-core/src/protocol.rs and the constants of lib.rs: the messages of the
-- business-data protocol. A `Uuid` is its 128-bit value, a `String` its bytes.
use flowsplice_rust.Prelude.{ℕ, Bool, true, false}
use flowsplice_rust.Prelude.Bytes.{Bytes}
use flowsplice_rust.Prelude.Text.{Text}

abbrev pub control_frame_limit : ℕ
control_frame_limit = 1048576

abbrev pub data_frame_limit : ℕ
data_frame_limit = 1048576

abbrev pub max_data_payload : ℕ
max_data_payload = 65536

abbrev pub data_protocol_binary_v1 : ℕ
data_protocol_binary_v1 = 1

abbrev pub Uuid : Type 0
Uuid = ℕ

pub data ServiceProtocol : Type 0 where
  tcp udp : ServiceProtocol

abbrev pub protocol_eq : ServiceProtocol → ServiceProtocol → Bool
protocol_eq tcp tcp = true
protocol_eq udp udp = true
protocol_eq _ _ = false

-- The variants `Open` and `Data` are `open_flow` and `stream_data`.
pub data DataFrame : Type 0 where
  open_flow :
      (flow_id carrier_id : Uuid) (service_id : Text) (protocol : ServiceProtocol)
      (data_protocol_version : ℕ)
      → DataFrame
  open_ok :
      (flow_id carrier_id : Uuid) (receive_offset send_offset data_protocol_version : ℕ) → DataFrame
  open_error : (flow_id carrier_id : Uuid) (reason : Text) → DataFrame
  race : (flow_id race_id : Uuid) (next_offset : ℕ) → DataFrame
  race_ack : (flow_id race_id winner_carrier_id : Uuid) → DataFrame
  race_duplicate : (flow_id race_id winner_carrier_id : Uuid) → DataFrame
  stream_data : (flow_id : Uuid) (offset : ℕ) (bytes : Bytes) → DataFrame
  ack : (flow_id : Uuid) (next_offset : ℕ) → DataFrame
  duplicate : (flow_id : Uuid) (next_offset : ℕ) (winner_carrier_id : Uuid) → DataFrame
  datagram : (flow_id : Uuid) (sequence : ℕ) (bytes : Bytes) → DataFrame
  fin : (flow_id : Uuid) (final_offset : ℕ) → DataFrame
  fin_ack : (flow_id : Uuid) (final_offset : ℕ) → DataFrame
  close : (flow_id : Uuid) (reason : Text) → DataFrame
  ping : (nonce : ℕ) → DataFrame
  pong : (nonce : ℕ) → DataFrame
