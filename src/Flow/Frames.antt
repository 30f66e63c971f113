-- ===== src/Flow/Frames.antt =====
-- crates/flowsplice-home-core/src/tcp_flow.rs: what the loop does with a Carrier's frame, with
-- `acknowledge`, `retransmit` and `send_to`.
use flowsplice_rust.Prelude.{
  ℕ, suc, ◌-◌, Bool, true, false, ◌&&◌, List, [], ◌∷◌, ◌++◌, Option, none, some, Result, ok, err,
  ltb, leb, ◌==◌, if◌then◌else◌, length, take, saturating_add,
}
use flowsplice_rust.Prelude.Bytes.{Bytes}
use flowsplice_rust.Prelude.Text.{Text, codes}
use flowsplice_rust.Prelude.Maps.{get, contains_key, insert, remove, nat_eq}
use flowsplice_rust.Protocol.{
  DataFrame, Uuid, race, race_ack, race_duplicate, stream_data, ack, duplicate, fin, fin_ack, close,
  max_data_payload,
}
use flowsplice_rust.Flow.State.{
  Segment, Config, Flow, FlowError, target_write_failed, target_write_timed_out,
  target_shutdown_failed, target_shutdown_timed_out, ack_split_frame, travel_closed,
  delivered_upload_bytes, Effect, to_carrier, to_target, shutdown_target, record_metric, Answer,
  done, failed, timed_out, Turn, bail,
}

-- A frame for a Carrier that is not attached is dropped.
unfoldable pub send_to : List (Uuid × Text) → Uuid → DataFrame → List Effect
send_to carriers carrier_id frame =
    if contains_key carriers carrier_id then to_carrier carrier_id frame ∷ [] else []

unfoldable pub retransmit_segments : List (Uuid × Text) → Uuid → Uuid → List Segment → List Effect
retransmit_segments carriers carrier_id flow_id [] = []
retransmit_segments carriers carrier_id flow_id (s ∷ ss) =
    send_to carriers carrier_id (stream_data flow_id s.offset s.bytes)
    ++ retransmit_segments carriers carrier_id flow_id ss

unfoldable pub retransmit : List (Uuid × Text) → Uuid → Uuid → List Segment → Bool → ℕ → List Effect
retransmit carriers carrier_id flow_id unacked target_eof send_offset =
    retransmit_segments carriers carrier_id flow_id unacked
    ++ (if target_eof then send_to carriers carrier_id (fin flow_id send_offset) else [])

-- The loop of `acknowledge`: it stops at the first segment that ends behind the offset.
unfoldable pub pop_acked : ℕ → List Segment → ℕ → List Segment × ℕ
pop_acked next_offset [] unacked_bytes = ([], unacked_bytes)
pop_acked next_offset (s ∷ ss) unacked_bytes =
    let rest = pop_acked next_offset ss (unacked_bytes - length s.bytes) in
    if ltb next_offset (saturating_add s.offset (length s.bytes))
    then (s ∷ ss, unacked_bytes)
    else rest

-- The first segment starts before the offset.
unfoldable pub splits : ℕ → List Segment → Bool
splits next_offset [] = false
splits next_offset (s ∷ ss) = ltb s.offset next_offset

unfoldable pub acknowledge : Flow → ℕ → Result FlowError Flow
acknowledge s next_offset =
    let (unacked, unacked_bytes) = pop_acked next_offset s.unacked s.unacked_bytes in
    if splits next_offset unacked
    then err ack_split_frame
    else ok
        (record s { unacked = unacked; unacked_bytes = unacked_bytes; send_acked = next_offset })

-- `while race_order.len() > 32`: forget the oldest races.
unfoldable pub forget_races : List Uuid → List (Uuid × Uuid) → List Uuid × List (Uuid × Uuid)
forget_races [] winners = ([], winners)
forget_races (old ∷ order) winners =
    let rest = forget_races order (remove winners old) in
    if ltb 32 (suc (length order)) then rest else (old ∷ order, winners)

abbrev pub is_active : Flow → Uuid → Bool
is_active s carrier_id = elim s.active_carrier [ none ↦ false | some c ↦ c == carrier_id ]

-- The last arm of the match on the frame.
unfoldable pub invalid_frame : Config → Flow → Uuid → Turn
invalid_frame cfg s carrier_id =
    ok (s, send_to s.carriers carrier_id (close cfg.flow_id (codes "invalid TCP flow frame")))

unfoldable pub select_carrier : Config → Flow → Uuid → Uuid → Turn
select_carrier cfg s carrier_id race_id =
    let (order, winners) =
      forget_races (s.race_order ++ (race_id ∷ [])) (insert s.race_winners race_id carrier_id) in
    ok (
      record s {
        race_winners = winners;
        race_order = order;
        active_carrier = some carrier_id;
        selected_once = true;
        detached_deadline = none;
      },
      send_to s.carriers carrier_id (race_ack cfg.flow_id race_id carrier_id)
          ++ retransmit s.carriers carrier_id cfg.flow_id s.unacked s.target_eof s.send_offset,
    )

unfoldable pub on_race : Config → Flow → Uuid → Uuid → Turn
on_race cfg s carrier_id race_id = elim (get s.race_winners race_id) [
  | some winner ↦ ok (s, send_to s.carriers carrier_id (race_duplicate cfg.flow_id race_id winner))
  | none ↦ select_carrier cfg s carrier_id race_id
]

-- `write_all` under its timeout: what it wrote before an error stays written.
unfoldable pub deliver : Config → Flow → Uuid → Bytes → ℕ → Answer → Turn
deliver cfg s carrier_id bytes end (failed written) =
    err (record { error = target_write_failed; effects = to_target (take written bytes) ∷ [] })
deliver cfg s carrier_id bytes end (timed_out written) =
    err (record { error = target_write_timed_out; effects = to_target (take written bytes) ∷ [] })
deliver cfg s carrier_id bytes end done = ok (
  record s { receive_offset = end },
  to_target bytes
      ∷ (record_metric (get s.carriers carrier_id) delivered_upload_bytes (length bytes)
          ∷ send_to s.carriers carrier_id (ack cfg.flow_id end)),
)

abbrev pub unwrap_or : Option Uuid → Uuid → Uuid
unwrap_or none d = d
unwrap_or (some c) d = c

unfoldable pub on_data : Config → Flow → Uuid → ℕ → Bytes → Answer → Turn
on_data cfg s carrier_id offset bytes target =
    let end = saturating_add offset (length bytes) in
    if offset == s.receive_offset && is_active s carrier_id
    then deliver cfg s carrier_id bytes end target
    else if leb end s.receive_offset
    then ok (
      s,
      send_to s.carriers carrier_id
          (duplicate cfg.flow_id s.receive_offset (unwrap_or s.active_carrier carrier_id)),
    )
    else ok (s, send_to s.carriers carrier_id (close cfg.flow_id (codes "non-contiguous TCP data")))

unfoldable pub on_ack : Flow → ℕ → Turn
on_ack s next_offset = elim (acknowledge s next_offset) [ ok s' ↦ ok (s', []) | err e ↦ bail e ]

unfoldable pub on_fin : Config → Flow → Uuid → ℕ → Answer → Turn
on_fin cfg s carrier_id final_offset target =
    let reply = send_to s.carriers carrier_id (fin_ack cfg.flow_id final_offset) in
    if s.travel_eof then ok (s, reply) else elim target [
      | done ↦ ok (record s { travel_eof = true }, shutdown_target ∷ reply)
      | failed written ↦ bail target_shutdown_failed
      | timed_out written ↦ bail target_shutdown_timed_out
    ]

-- The match on a Carrier's frame, with the guards of its arms.
unfoldable pub on_frame : Config → Flow → Uuid → DataFrame → Answer → Turn
on_frame cfg s id (race flow_id race_id next_offset) target =
    if flow_id == cfg.flow_id && leb next_offset s.receive_offset
    then on_race cfg s id race_id
    else invalid_frame cfg s id
on_frame cfg s id (stream_data flow_id offset bytes) target =
    if flow_id == cfg.flow_id && leb (length bytes) max_data_payload
    then on_data cfg s id offset bytes target
    else invalid_frame cfg s id
on_frame cfg s id (ack flow_id next_offset) target =
    if flow_id == cfg.flow_id && (leb s.send_acked next_offset && leb next_offset s.send_offset)
    then on_ack s next_offset
    else invalid_frame cfg s id
on_frame cfg s id (duplicate flow_id next_offset winner_carrier_id) target =
    if flow_id == cfg.flow_id && (leb s.send_acked next_offset && leb next_offset s.send_offset)
    then on_ack s next_offset
    else invalid_frame cfg s id
on_frame cfg s id (fin flow_id final_offset) target =
    if flow_id == cfg.flow_id && final_offset == s.receive_offset
    then on_fin cfg s id final_offset target
    else invalid_frame cfg s id
on_frame cfg s id (fin_ack flow_id final_offset) target =
    if flow_id == cfg.flow_id && (s.target_eof && final_offset == s.send_offset)
    then ok (record s { target_fin_acked = true }, [])
    else invalid_frame cfg s id
on_frame cfg s id (close flow_id reason) target =
    if flow_id == cfg.flow_id then bail travel_closed else invalid_frame cfg s id
on_frame cfg s id frame target = invalid_frame cfg s id
