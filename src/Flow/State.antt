-- ===== src/Flow/State.antt =====
-- crates/flowsplice-home-core/src/tcp_flow.rs: the state of a Home TCP flow, its events and effects.
use flowsplice_rust.Prelude.{ℕ, ◌+◌, Bool, false, List, [], Option, none, some, Result, err}
use flowsplice_rust.Prelude.Bytes.{Bytes}
use flowsplice_rust.Prelude.Text.{Text}
use flowsplice_rust.Prelude.Maps.{nat_eq}
use flowsplice_rust.Protocol.{DataFrame, Uuid}

-- A piece of the target's output that Travel has not acknowledged.
pub record Segment : Type 0 where
  pub offset : ℕ
  pub bytes : Bytes

-- What the flow is started with, from its key and its registry.
pub record Config : Type 0 where
  pub flow_id : Uuid
  pub max_unacked_bytes : ℕ
  pub detach_timeout : ℕ

-- The local variables of the loop. `carriers` holds the attached Carriers with their Relays.
pub record Flow : Type 0 where
  pub carriers : List (Uuid × Text)
  pub active_carrier : Option Uuid
  pub receive_offset : ℕ
  pub send_offset : ℕ
  pub send_acked : ℕ
  pub unacked : List Segment
  pub unacked_bytes : ℕ
  pub race_winners : List (Uuid × Uuid)
  pub race_order : List Uuid
  pub detached_deadline : Option ℕ
  pub target_eof : Bool
  pub target_fin_acked : Bool
  pub travel_eof : Bool
  pub selected_once : Bool

-- How the loop ends early.
pub data FlowError : Type 0 where
  carrier_channel_closed event_channel_closed open_write_failed target_write_failed : FlowError
  target_write_timed_out target_shutdown_failed target_shutdown_timed_out : FlowError
  ack_split_frame travel_closed unacked_limit target_failed detached_timeout : FlowError

pub data Metric : Type 0 where
  delivered_upload_bytes download_observed_bytes : Metric

-- What a turn of the loop does to the outside, in order: frames queued on an attached Carrier, the
-- target's bytes and its shutdown, and the statistics.
pub data Effect : Type 0 where
  to_carrier : (carrier_id : Uuid) (frame : DataFrame) → Effect
  to_target : (bytes : Bytes) → Effect
  shutdown_target : Effect
  record_metric : (relay_id : Option Text) (family : Metric) (value : ℕ) → Effect

-- The answer of an operation on the connection; of a new Carrier, whether `OpenOk` was written and
-- the Carrier's task started. A write that fails or is given up may have written a front of its
-- bytes; for another operation the count has no meaning.
pub data Answer : Type 0 where
  done : Answer
  failed timed_out : (written : ℕ) → Answer

-- What `select!` may deliver. A frame comes with what the target answers if the frame makes the loop
-- write to it or shut it down.
pub data Event : Type 0 where
  incoming : (carrier_id : Uuid) (relay_id : Text) (version : ℕ) (opened : Answer) → Event
  incoming_closed events_closed : Event
  carrier_frame : (carrier_id : Uuid) (frame : DataFrame) (target : Answer) → Event
  carrier_closed : (carrier_id : Uuid) → Event
  target_data : (bytes : Bytes) → Event
  target_ended target_error : Event
  deadline : Event

-- The error that ends the flow, with what the turn did before.
pub record Stop : Type 0 where
  pub error : FlowError
  pub effects : List Effect

-- The next state with the effects, or how the flow ends.
abbrev pub Turn : Type 0
Turn = Result Stop (Flow × List Effect)

abbrev pub bail : FlowError → Turn
bail e = err (record { error = e; effects = [] })

unfoldable pub start : Config → ℕ → Flow
start cfg now = record {
  carriers = [];
  active_carrier = none;
  receive_offset = 0;
  send_offset = 0;
  send_acked = 0;
  unacked = [];
  unacked_bytes = 0;
  race_winners = [];
  race_order = [];
  detached_deadline = some (now + cfg.detach_timeout);
  target_eof = false;
  target_fin_acked = false;
  travel_eof = false;
  selected_once = false;
}
