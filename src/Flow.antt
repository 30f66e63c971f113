-- ===== src/Flow.antt =====
-- crates/flowsplice-home-core/src/tcp_flow.rs: the loop of one Home TCP flow (`run_flow`), which keeps
-- one target connection and one reliable byte stream each way while Carriers come and go.
pub mod State
pub mod Frames
pub mod Cases
pub mod Stops
pub mod Effects
pub mod Ack
pub mod Queue
pub mod Receive
pub mod Invariant
pub mod Upload
pub mod Download
pub mod Advance
pub mod Races
pub mod Acknowledge
pub mod Registry
mod Runs
use flowsplice_rust.Prelude.{
  ℕ, suc, ◌+◌, ◌-◌, Bool, true, false, ◌&&◌, not, List, [], ◌∷◌, ◌++◌, Option, none, some, Result,
  ok, err, ◌>>=◌, ltb, leb, ◌==◌, if◌then◌else◌, length, is_empty, is_some, saturating_add,
}
use flowsplice_rust.Prelude.Bytes.{Bytes}
use flowsplice_rust.Prelude.Text.{Text, codes}
use flowsplice_rust.Prelude.Maps.{get, contains_key, insert, remove, nat_eq}
use flowsplice_rust.Protocol.{
  DataFrame, Uuid, open_flow, open_ok, open_error, race, race_ack, race_duplicate, stream_data, ack,
  duplicate, datagram, fin, fin_ack, close, ping, pong, max_data_payload,
}
use flowsplice_rust.Flow.State.{
  Segment, Config, Flow, FlowError, carrier_channel_closed, event_channel_closed, open_write_failed,
  target_write_failed, target_write_timed_out, target_shutdown_failed, target_shutdown_timed_out,
  ack_split_frame, travel_closed, unacked_limit, target_failed, detached_timeout, Metric,
  delivered_upload_bytes, download_observed_bytes, Effect, to_carrier, to_target, shutdown_target,
  record_metric, Answer, done, failed, timed_out, Event, incoming, incoming_closed, events_closed,
  carrier_frame, carrier_closed, target_data, target_ended, target_error, deadline, Stop, Turn,
  bail,
}
use flowsplice_rust.Flow.Frames.{send_to, retransmit, is_active, on_frame}

-- A Carrier whose id is attached already is ignored.
unfoldable pub on_incoming : Config → Flow → Uuid → Text → ℕ → Answer → Turn
on_incoming cfg s id relay_id version opened =
    if contains_key s.carriers id then ok (s, []) else elim opened [
      | done ↦ ok (
        record s { carriers = insert s.carriers id relay_id },
        to_carrier id (open_ok cfg.flow_id id s.receive_offset s.send_acked version) ∷ [],
      )
      | failed written ↦ bail open_write_failed
      | timed_out written ↦ bail open_write_failed
    ]

unfoldable pub on_carrier_closed : Config → ℕ → Flow → Uuid → Turn
on_carrier_closed cfg now s id =
    let rest = record s { carriers = remove s.carriers id } in
    if is_active s id
    then ok (
      record rest { active_carrier = none; detached_deadline = some (now + cfg.detach_timeout) },
      [],
    )
    else ok (rest, [])

-- The Relay of the active Carrier.
unfoldable pub active_relay : Flow → Option Text
active_relay s = elim s.active_carrier [ none ↦ none | some id ↦ get s.carriers id ]

unfoldable pub send_active : Flow → DataFrame → List Effect
send_active s frame = elim s.active_carrier [ none ↦ [] | some id ↦ send_to s.carriers id frame ]

unfoldable pub on_target_data : Config → Flow → Bytes → Turn
on_target_data cfg s bytes =
    if ltb cfg.max_unacked_bytes (saturating_add s.unacked_bytes (length bytes))
    then bail unacked_limit
    else ok (
      record s {
        send_offset = saturating_add s.send_offset (length bytes);
        unacked_bytes = s.unacked_bytes + length bytes;
        unacked = s.unacked ++ (record { offset = s.send_offset; bytes = bytes } ∷ []);
      },
      record_metric (active_relay s) download_observed_bytes (length bytes)
          ∷ send_active s (stream_data cfg.flow_id s.send_offset bytes),
    )

unfoldable pub on_target_ended : Config → Flow → Turn
on_target_ended cfg s =
    ok (record s { target_eof = true }, send_active s (fin cfg.flow_id s.send_offset))

-- The deadline's branch is enabled while there is a deadline, and ready once it has passed.
unfoldable pub on_deadline : ℕ → Flow → Turn
on_deadline now s = elim s.detached_deadline [
  | none ↦ ok (s, [])
  | some at ↦ if leb at now then bail detached_timeout else ok (s, [])
]

unfoldable pub step : Config → ℕ → Flow → Event → Turn
step cfg now s (incoming id relay_id version opened) = on_incoming cfg s id relay_id version opened
step cfg now s incoming_closed = bail carrier_channel_closed
step cfg now s events_closed = bail event_channel_closed
step cfg now s (carrier_frame id frame target) = on_frame cfg s id frame target
step cfg now s (carrier_closed id) = on_carrier_closed cfg now s id
step cfg now s (target_data bytes) = on_target_data cfg s bytes
step cfg now s target_ended = on_target_ended cfg s
step cfg now s target_error = bail target_failed
step cfg now s deadline = on_deadline now s

-- The test at the head of the loop.
unfoldable pub is_complete : Flow → Bool
is_complete s = s.travel_eof && (s.target_eof && (s.target_fin_acked && is_empty s.unacked))

-- The loop over timed events: it ends by its test, by an error, or it waits for more events. The
-- effects so far come with it.
pub data Outcome : Type 0 where
  completed running : (s : Flow) → Outcome
  ended : (e : FlowError) → Outcome

-- The loop goes on with `rest` unless the turn ended it; the effects add up.
unfoldable pub proceed : (Flow → Outcome × List Effect) → Turn → Outcome × List Effect
proceed rest (err stop) = (ended stop.error, stop.effects)
proceed rest (ok (s, effects)) = ((rest s).0, effects ++ (rest s).1)

unfoldable pub run : Config → List (ℕ × Event) → Flow → Outcome × List Effect
run cfg [] s = if is_complete s then (completed s, []) else (running s, [])
run cfg ((now, ev) ∷ evs) s =
    if is_complete s then (completed s, []) else proceed (run cfg evs) (step cfg now s ev)
