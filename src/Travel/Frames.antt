-- ===== src/Travel/Frames.antt =====
-- crates/flowsplice-travel-core/src/tcp_flow.rs: what a Carrier's frame and the other events do to the
-- transfer (`handle_event`), with `acknowledge` and `retransmit`.
use flowsplice_rust.Prelude.{
  ℕ, zero, suc, ◌+◌, Bool, true, false, ◌&&◌, List, [], ◌∷◌, ◌++◌, Option, none, some, Result, ok,
  err, ◌>>=◌, ltb, leb, ◌==◌, if◌then◌else◌, length, take, drop, min, saturating_add,
}
use flowsplice_rust.Prelude.Bytes.{Bytes}
use flowsplice_rust.Prelude.Maps.{remove, nat_eq}
use flowsplice_rust.Protocol.{
  DataFrame, Uuid, race_ack, race_duplicate, stream_data, ack, duplicate, fin, fin_ack, close,
  max_data_payload,
}
use flowsplice_rust.Flow.State.{Effect, to_target, shutdown_target, Answer, done, failed, timed_out}
use flowsplice_rust.Flow.Frames.{send_to, pop_acked, splits, unwrap_or}
use flowsplice_rust.Flow.Frames
use flowsplice_rust.Travel.State.{
  Transfer, Fault, unacked_limit, local_failed, write_timed_out, write_failed, write_returned_zero,
  shutdown_timed_out, shutdown_failed, non_contiguous, ack_split_frame, home_closed, invalid_frame,
  Write, wrote, write_error, Event, local_data, local_eof, local_error, carrier_frame,
  carrier_closed, Carriers, Stop, Handled,
}

unfoldable pub retransmit : Transfer → Carriers → Uuid → List Effect
retransmit t carriers id =
    Frames.retransmit carriers id t.flow_id t.unacked t.local_eof t.send_offset

-- The segments that end by the offset are gone even when the acknowledgement fails.
unfoldable pub acknowledge : Transfer → ℕ → Result Stop Transfer
acknowledge t next_offset =
    let (unacked, unacked_bytes) = pop_acked next_offset t.unacked t.unacked_bytes in
    let popped = record t { unacked = unacked; unacked_bytes = unacked_bytes } in
    if splits next_offset unacked
    then err (record { fault = ack_split_frame; transfer = popped; effects = [] })
    else ok (record popped { send_acked = next_offset })

abbrev pub Turn : Type 0
Turn = Result Stop Handled

abbrev pub bail : Transfer → Fault → Turn
bail t fault = err (record { fault = fault; transfer = t; effects = [] })

-- The event is handled, and did not close the active Carrier.
abbrev pub handled : Transfer → Carriers → List Effect → Turn
handled t carriers effects =
    ok (record { transfer = t; carriers = carriers; effects = effects; closed_active = false })

-- What the write loop has written, the receive offset it leaves, and how it failed.
pub record Written : Type 0 where
  pub receive_offset : ℕ
  pub bytes : Bytes
  pub failure : Option Fault

unfoldable pub write_all : List Write → Bytes → ℕ → Written
write_all ws [] received = record { receive_offset = received; bytes = []; failure = none }
write_all [] (b ∷ bs) received = record {
  receive_offset = received;
  bytes = [];
  failure = some write_timed_out;
}
write_all (write_error ∷ ws) (b ∷ bs) received = record {
  receive_offset = received;
  bytes = [];
  failure = some write_failed;
}
write_all (wrote zero ∷ ws) (b ∷ bs) received = record {
  receive_offset = received;
  bytes = [];
  failure = some write_returned_zero;
}
write_all (wrote (suc n) ∷ ws) (b ∷ bs) received =
    let count = suc (min n (length bs)) in
    let rest = write_all ws (drop n bs) (saturating_add received count) in
    record rest { bytes = take (suc n) (b ∷ bs) ++ rest.bytes }

unfoldable pub accept : Transfer → Carriers → Uuid → Bytes → List Write → Turn
accept t carriers id bytes writes =
    let written = write_all writes bytes t.receive_offset in
    let t' = record t { receive_offset = written.receive_offset } in
    elim written.failure [
      | some fault ↦
          err (record { fault = fault; transfer = t'; effects = to_target written.bytes ∷ [] })
      | none ↦
          handled t' carriers
            (to_target written.bytes ∷ send_to carriers id (ack t.flow_id written.receive_offset))
    ]

unfoldable pub on_data : Transfer → Carriers → Option Uuid → Uuid → ℕ → Bytes → List Write → Turn
on_data t carriers active id offset bytes writes =
    if offset == t.receive_offset
    then accept t carriers id bytes writes
    else if leb (saturating_add offset (length bytes)) t.receive_offset
    then handled t carriers
        (send_to carriers id (duplicate t.flow_id t.receive_offset (unwrap_or active id)))
    else bail t non_contiguous

unfoldable pub on_ack : Transfer → Carriers → ℕ → Turn
on_ack t carriers next_offset = do t' ← acknowledge t next_offset; handled t' carriers []

unfoldable pub on_fin : Transfer → Carriers → Uuid → ℕ → Answer → Turn
on_fin t carriers id final_offset closing =
    let reply = send_to carriers id (fin_ack t.flow_id final_offset) in
    if t.remote_eof then handled t carriers reply else elim closing [
      | done ↦ handled (record t { remote_eof = true }) carriers (shutdown_target ∷ reply)
      | failed written ↦ bail t shutdown_failed
      | timed_out written ↦ bail t shutdown_timed_out
    ]

-- Answers to races are ignored here: both arms of the source for them are empty.
unfoldable pub on_frame :
    Transfer → Carriers → Option Uuid → Uuid → DataFrame → List Write → Answer → Turn
on_frame t carriers active id (race_ack flow_id race_id winner) writes closing =
    handled t carriers []
on_frame t carriers active id (race_duplicate flow_id race_id winner) writes closing =
    handled t carriers []
on_frame t carriers active id (stream_data flow_id offset bytes) writes closing =
    if flow_id == t.flow_id && leb (length bytes) max_data_payload
    then on_data t carriers active id offset bytes writes
    else bail t invalid_frame
on_frame t carriers active id (ack flow_id next_offset) writes closing =
    if flow_id == t.flow_id && (leb t.send_acked next_offset && leb next_offset t.send_offset)
    then on_ack t carriers next_offset
    else bail t invalid_frame
on_frame t carriers active id (duplicate flow_id next_offset winner) writes closing =
    if flow_id == t.flow_id && (leb t.send_acked next_offset && leb next_offset t.send_offset)
    then on_ack t carriers next_offset
    else bail t invalid_frame
on_frame t carriers active id (fin flow_id final_offset) writes closing =
    if flow_id == t.flow_id && final_offset == t.receive_offset
    then on_fin t carriers id final_offset closing
    else bail t invalid_frame
on_frame t carriers active id (fin_ack flow_id final_offset) writes closing =
    if flow_id == t.flow_id && (t.local_eof && final_offset == t.send_offset)
    then handled (record t { local_fin_acked = true }) carriers []
    else bail t invalid_frame
on_frame t carriers active id (close flow_id reason) writes closing =
    if flow_id == t.flow_id then bail t home_closed else bail t invalid_frame
on_frame t carriers active id frame writes closing = bail t invalid_frame

unfoldable pub send_active : Carriers → Option Uuid → DataFrame → List Effect
send_active carriers none frame = []
send_active carriers (some id) frame = send_to carriers id frame

unfoldable pub on_local_data : Transfer → Carriers → Option Uuid → Bytes → Turn
on_local_data t carriers active bytes =
    if ltb t.max_unacked_bytes (saturating_add t.unacked_bytes (length bytes))
    then bail t unacked_limit
    else handled
        (record t {
          send_offset = saturating_add t.send_offset (length bytes);
          unacked_bytes = t.unacked_bytes + length bytes;
          unacked = t.unacked ++ (record { offset = t.send_offset; bytes = bytes } ∷ []);
        })
        carriers (send_active carriers active (stream_data t.flow_id t.send_offset bytes))

abbrev pub is_carrier : Option Uuid → Uuid → Bool
is_carrier none id = false
is_carrier (some c) id = c == id

unfoldable pub handle_event : Transfer → Carriers → Option Uuid → Event → Turn
handle_event t carriers active (local_data bytes) = on_local_data t carriers active bytes
handle_event t carriers active local_eof =
    handled (record t { local_eof = true }) carriers
      (send_active carriers active (fin t.flow_id t.send_offset))
handle_event t carriers active local_error = bail t local_failed
handle_event t carriers active (carrier_frame id frame writes closing) =
    on_frame t carriers active id frame writes closing
handle_event t carriers active (carrier_closed id) = ok (record {
  transfer = t;
  carriers = remove carriers id;
  effects = [];
  closed_active = is_carrier active id;
})
