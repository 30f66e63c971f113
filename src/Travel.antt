-- ===== src/Travel.antt =====
-- crates/flowsplice-travel-core/src/tcp_flow.rs: the loop of one Travel TCP flow (`run_inner`), which
-- races the Relays for a Carrier and keeps a reliable byte stream each way with the Home flow.
pub mod State
pub mod Frames
pub mod Cases
pub mod Racing
pub mod Steps
pub mod Sends
pub mod Receives
pub mod Advance
pub mod Schedule
pub mod Attached
mod Runs
use flowsplice_rust.Prelude.{
  ℕ, zero, suc, ◌+◌, ◌-◌, ◌*◌, ◌/◌, ◌≤◌, ◌<◌, min, max, ◌≡◌, refl, sym, ap, ◌∙◌, subst, ◌≢◌, ◌↔◌,
  ◌⊎◌, inl, inr, Bool, true, false, not, ◌&&◌, ◌||◌, Option, none, some, List, [], ◌∷◌, ◌++◌, map,
  append-nil, append_assoc, arith, ltb, leb, ◌==◌, if◌then◌else◌, ltb→lt, lt→ltb, leb→le, ==_iff,
  Bool-cases, Option-cases, is_some, length, is_empty, take, drop, concat, length-append,
  nil_of_length, take-append-drop, length-take, length-drop, take_front, drop_front, take_nil,
  drop_nil, drop_past, take-add, drop-append, take-append, drop-drop, take_all, concat-append, All,
  All-append, length-reverse, All-reverse, Member, here, there, filter, find, Member-filter,
  filter-Member, some_inj, Member-find, is_empty-eq, Result, ok, err, ◌>>=◌, ◌>>◌, bail_if, ok_or,
  is_ok, Result-cases, >>=-eq-ok, ok_or-eq-ok, bail_if-eq-ok, >>-eq-ok, ok_inj, u64_max, IsU64,
  saturating_add, checked_add, saturating_add_lem, checked_add_lem,
}
use flowsplice_rust.Prelude.Text.{Text}
use flowsplice_rust.Protocol.{
  control_frame_limit, data_frame_limit, max_data_payload, data_protocol_binary_v1, Uuid,
  ServiceProtocol, tcp, udp, protocol_eq, DataFrame, open_flow, open_ok, open_error, race, race_ack,
  race_duplicate, stream_data, ack, duplicate, datagram, fin, fin_ack, close, ping, pong,
}
use flowsplice_rust.Flow.State.{Effect}
use flowsplice_rust.Travel.State.{
  Transfer, start, Fault, unacked_limit, local_failed, write_timed_out, write_failed,
  write_returned_zero, shutdown_timed_out, shutdown_failed, non_contiguous, ack_split_frame,
  home_closed, invalid_frame, acknowledged_unsent, acknowledgement_moved_back, winner_vanished,
  recovery_expired, channel_closed, Write, wrote, write_error, Event, local_data, local_eof,
  local_error, carrier_frame, carrier_closed, Carriers, Stop, Handled,
}
use flowsplice_rust.Travel.Frames.{handle_event}
use flowsplice_rust.Travel.Racing.{
  Settings, Race, Phase, at_head, waiting, finished, racing, Travel, LoopTurn, stop,
  advance_reevaluation, is_old, spawned, relay_of, begin_race, is_attached, select_winner, back_off,
  close_candidates, no_winner, finish_race, next_round, on_opened, names_winner, winner_of,
  remove_candidate, after_event, race_event,
}

-- What drives the loop: a pass of its head, with a fresh race id, the Relays' candidates and the free
-- Carrier permits should a race start; the end of an attempt to open a Carrier; an event of the flow;
-- the time that `select!` sleeps for.
pub data Input : Type 0 where
  loop_head : (race_id : Uuid) (candidates : List (Option Text)) (permits : ℕ) → Input
  opened : (carrier_id : Uuid) (relay_id : Text) (home_receive_offset : ℕ) → Input
  open_failed : Input
  event : (ev : Event) → Input
  events_closed : Input
  time_passed : Input

-- The test that ends the loop.
unfoldable pub is_complete : Transfer → Bool
is_complete t = t.local_eof && (t.remote_eof && (t.local_fin_acked && is_empty t.unacked))

-- A race is due without an active Carrier, or when its time has come.
unfoldable pub on_head : Settings → ℕ → Travel → Uuid → List (Option Text) → ℕ → LoopTurn
on_head cfg now s race_id candidates permits =
    if is_complete s.transfer
    then ok (record s { phase = finished }, [])
    else if is_some s.active && ltb now s.next_reevaluation
    then ok (record s { phase = waiting }, [])
    else if not (is_some s.active)
        && ltb (s.recovery_started + cfg.recovery_timeout_secs * 1000) now
    then stop s recovery_expired
    else ok (begin_race cfg now s race_id candidates permits)

-- An event outside a race. When it closes the active Carrier, recovery starts.
unfoldable pub wait_event : Settings → ℕ → Travel → Event → LoopTurn
wait_event cfg now s ev = do
  h ← handle_event s.transfer s.carriers s.active ev
  ok (after h, h.effects)
  where
    after : Handled → Travel
    after h =
        let s' = record s { transfer = h.transfer; carriers = h.carriers; phase = at_head } in
        if h.closed_active
        then record s' {
          active = none;
          recovery_started = now;
          reevaluate_secs = cfg.reevaluate_secs;
        }
        else s'

unfoldable pub in_race : Settings → ℕ → Travel → Race → Input → LoopTurn
in_race cfg now s r (loop_head race_id candidates permits) = ok (s, [])
in_race cfg now s r (opened id relay_id home_receive_offset) =
    if r.opens == 0 then ok (s, []) else on_opened cfg now s r id relay_id home_receive_offset
in_race cfg now s r open_failed =
    if r.opens == 0
    then ok (s, [])
    else ok (next_round cfg now s (record r { opens = r.opens - 1 }), [])
in_race cfg now s r (event ev) = race_event cfg now s r ev
in_race cfg now s r events_closed = stop s channel_closed
in_race cfg now s r time_passed =
    if leb r.deadline now then ok (no_winner cfg now s r, []) else ok (s, [])

unfoldable pub in_select : Settings → ℕ → Travel → Input → LoopTurn
in_select cfg now s (event ev) = wait_event cfg now s ev
in_select cfg now s events_closed = stop s channel_closed
in_select cfg now s time_passed =
    if leb s.next_reevaluation now then ok (record s { phase = at_head }, []) else ok (s, [])
in_select cfg now s _ = ok (s, [])

unfoldable pub in_phase : Settings → ℕ → Travel → Phase → Input → LoopTurn
in_phase cfg now s at_head (loop_head race_id candidates permits) =
    on_head cfg now s race_id candidates permits
in_phase cfg now s at_head _ = ok (s, [])
in_phase cfg now s waiting input = in_select cfg now s input
in_phase cfg now s finished input = ok (s, [])
in_phase cfg now s (racing r) input = in_race cfg now s r input

-- What the loop waits for where it stands.
abbrev pub is_awaited : Phase → Input → Bool
is_awaited at_head (loop_head race_id candidates permits) = true
is_awaited waiting (event ev) = true
is_awaited waiting events_closed = true
is_awaited waiting time_passed = true
is_awaited (racing r) (loop_head race_id candidates permits) = false
is_awaited (racing r) _ = true
is_awaited _ _ = false

-- One step of the loop. An input that the phase does not wait for changes nothing.
unfoldable pub step : Settings → ℕ → Travel → Input → LoopTurn
step cfg now s input = in_phase cfg now s s.phase input

unfoldable pub begin : Settings → ℕ → Uuid → ℕ → Travel
begin cfg now flow_id max_unacked_bytes = record {
  transfer = start flow_id max_unacked_bytes;
  carriers = [];
  active = none;
  phase = at_head;
  recovery_started = now;
  retry_backoff = 250;
  reevaluate_secs = cfg.reevaluate_secs;
  next_reevaluation = now;
}
