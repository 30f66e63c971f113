-- ===== src/Travel/State.antt =====
-- crates/flowsplice-travel-core/src/tcp_flow.rs: the state of a Travel TCP flow, its events and how it
-- stops. Statistics, logs, status marks and the credit of the local reader are left out.
use flowsplice_rust.Prelude.{ℕ, Bool, false, List, []}
use flowsplice_rust.Prelude.Bytes.{Bytes}
use flowsplice_rust.Prelude.Text.{Text}
use flowsplice_rust.Protocol.{DataFrame, Uuid}
use flowsplice_rust.Flow.State.{Segment, Effect, Answer}

-- `TransferState`.
pub record Transfer : Type 0 where
  pub flow_id : Uuid
  pub send_offset : ℕ
  pub send_acked : ℕ
  pub receive_offset : ℕ
  pub unacked : List Segment
  pub unacked_bytes : ℕ
  pub max_unacked_bytes : ℕ
  pub local_eof : Bool
  pub local_fin_acked : Bool
  pub remote_eof : Bool

unfoldable pub start : Uuid → ℕ → Transfer
start flow_id max_unacked_bytes = record {
  flow_id = flow_id;
  send_offset = 0;
  send_acked = 0;
  receive_offset = 0;
  unacked = [];
  unacked_bytes = 0;
  max_unacked_bytes = max_unacked_bytes;
  local_eof = false;
  local_fin_acked = false;
  remote_eof = false;
}

-- The errors that end the flow.
pub data Fault : Type 0 where
  unacked_limit local_failed write_timed_out write_failed write_returned_zero : Fault
  shutdown_timed_out shutdown_failed non_contiguous ack_split_frame home_closed : Fault
  invalid_frame acknowledged_unsent acknowledgement_moved_back winner_vanished : Fault
  recovery_expired channel_closed : Fault

-- What a write to the local connection does with the bytes that are left: it takes some of them, or
-- fails. When there is no further write, the time for the frame is over.
pub data Write : Type 0 where
  wrote : (count : ℕ) → Write
  write_error : Write

-- A frame comes with what the local connection answers when the frame makes the flow write to it
-- (`writes`) or shut it down (`closing`).
pub data Event : Type 0 where
  local_data : (bytes : Bytes) → Event
  local_eof : Event
  local_error : Event
  carrier_frame :
      (carrier_id : Uuid) (frame : DataFrame) (writes : List Write) (closing : Answer) → Event
  carrier_closed : (carrier_id : Uuid) → Event

-- The attached Carriers with their Relays. One that is removed has been told to stop.
abbrev pub Carriers : Type 0
Carriers = List (Uuid × Text)

-- A flow that stops has its counters reported, so what was written before the error counts. The
-- effects are those of the Home flow, where `to_target` is a write to the local connection.
pub record Stop : Type 0 where
  pub fault : Fault
  pub transfer : Transfer
  pub effects : List Effect

-- What `handle_event` leaves; `closed_active` is its result.
pub record Handled : Type 0 where
  pub transfer : Transfer
  pub carriers : Carriers
  pub effects : List Effect
  pub closed_active : Bool
