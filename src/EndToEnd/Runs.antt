-- ===== src/EndToEnd/Runs.antt =====
-- Runs of the two ends of a TCP flow, and the theorems at them.
use flowsplice_rust.Prelude.{
  length, ◌≤◌, ℕ, ◌-◌, ◌≡◌, refl, inl, inr, true, some, [], ◌∷◌, ◌++◌, arith, drop, here, there, ok,
  err, is_ok, Result-cases, saturating_add,
}
use flowsplice_rust.Prelude.Text.{Text, codes}
use flowsplice_rust.Prelude.Maps.{nat_eq, contains_key, get, insert, remove, insert_new, contains}
use flowsplice_rust.Protocol.{race, race_ack, stream_data, ack, fin, fin_ack}
use flowsplice_rust.Flow.State.{
  Config, Flow, Effect, to_target, to_carrier, record_metric, delivered_upload_bytes, incoming,
  carrier_frame, target_data, target_ended, done,
}
use flowsplice_rust.Flow as Home_loop
use flowsplice_rust.Flow.State
use flowsplice_rust.Flow.Frames
use flowsplice_rust.Travel.Frames as Local_frames
use flowsplice_rust.Flow.Ack.{payload}
use flowsplice_rust.Flow.Download.{output}
use flowsplice_rust.Travel.State as Local
use flowsplice_rust.Travel.Racing.{
  Settings, spawned, begin_race, race_event, on_opened, next_round, no_winner, finish_race,
  select_winner, advance_reevaluation, names_winner,
}
use flowsplice_rust.Travel.{
  Input, loop_head, event, opened, is_awaited, step as travel_step, begin, in_phase, on_head,
  is_complete, in_select, in_race, wait_event,
}
use flowsplice_rust.Travel.Sends.{loop_output}
use flowsplice_rust.EndToEnd.{
  System, Arrives, ArrivesAtTravel, IsRead, after_home, after_travel, home_moves, travel_moves,
  initial, Reachable, started, turned,
}
use flowsplice_rust.EndToEnd.Invariant.{Agrees, Reachable-Agrees}
use flowsplice_rust.EndToEnd.Bounds.{Reachable-carriers_le}
use flowsplice_rust.EndToEnd.Delivery.{Reachable-conserves, complete-Reachable}

abbrev cfg : Config
cfg = record { flow_id = 7; max_unacked_bytes = 100; detach_timeout = 1000 }

abbrev set : Settings
set = record {
  reevaluate_secs = 10;
  max_reevaluate_secs = 60;
  recovery_timeout_secs = 30;
  race_timeout_secs = 5;
  max_carriers = 2;
}

-- The system with the end of a turn; it stays as it is if the end stops.
home_next : System → ℕ → Home_loop.State.Event → System
home_next y now ev = elim (Home_loop.step cfg now y.home ev) [
  | ok (home, effects) ↦ after_home y ev home effects
  | err e ↦ y
]

travel_next : System → ℕ → Input → System
travel_next y now input = elim (travel_step set now y.travel input) [
  | ok (travel, effects) ↦ after_travel y input travel effects
  | err e ↦ y
]

-- A turn that goes on leads on.
home_goes :
    (y : System) (now : ℕ) (ev : Home_loop.State.Event)
    → Reachable cfg set 100 y
    → Arrives y.to_home ev
    → IsRead y.down y.home.target_eof (output ev)
    → is_ok (Home_loop.step cfg now y.home ev) ≡ true
    → Reachable cfg set 100 (home_next y now ev)
unfolding home_next
home_goes y now ev reached arrives read e = elim (Result-cases (Home_loop.step cfg now y.home ev)) [
  | inl ((home, effects), goes) ↦
      rw (goes, home_next)
        (turned y (after_home y ev home effects) reached
          (home_moves y now ev home effects arrives read goes))
  | inr (stopped, stops) ↦ absurd (ground (arith, rw (stops, is_ok) at e))
]

travel_goes :
    (y : System) (now : ℕ) (input : Input)
    → Reachable cfg set 100 y
    → ArrivesAtTravel y.to_travel input
    → is_awaited y.travel.phase input ≡ true
    → IsRead y.up y.travel.transfer.local_eof (loop_output input)
    → is_ok (travel_step set now y.travel input) ≡ true
    → Reachable cfg set 100 (travel_next y now input)
unfolding travel_next
travel_goes y now input reached arrives awaited read e =
    elim (Result-cases (travel_step set now y.travel input)) [
      | inl ((travel, effects), goes) ↦
          rw (goes, travel_next)
            (turned y (after_travel y input travel effects) reached
              (travel_moves y now input travel effects arrives awaited read goes))
      | inr (stopped, stops) ↦ absurd (ground (arith, rw (stops, is_ok) at e))
    ]

abbrev relay : Text
relay = codes "r1"

-- A Carrier is raced and selected, three bytes go up and are acknowledged, one comes down, and both
-- streams end.
abbrev state_1 : System
state_1 = travel_next (initial cfg set 0 100) 0 (loop_head 100 (some relay ∷ []) 5)

abbrev state_2 : System
state_2 = home_next state_1 1 (incoming 1 relay 1 done)

abbrev state_3 : System
state_3 = travel_next state_2 2 (opened 1 relay 0)

abbrev state_4 : System
state_4 = home_next state_3 3 (carrier_frame 1 (race 7 100 0) done)

abbrev state_5 : System
state_5 = travel_next state_4 4 (event (Local.carrier_frame 1 (race_ack 7 100 1) [] done))

abbrev state_6 : System
state_6 = travel_next state_5 5 (event (Local.local_data (1 ∷ 2 ∷ 3 ∷ [])))

abbrev state_7 : System
state_7 = home_next state_6 6 (carrier_frame 1 (stream_data 7 0 (1 ∷ 2 ∷ 3 ∷ [])) done)

abbrev state_8 : System
state_8 = travel_next state_7 7 (loop_head 101 [] 5)

abbrev state_9 : System
state_9 = travel_next state_8 8 (event (Local.carrier_frame 1 (ack 7 3) [] done))

abbrev state_10 : System
state_10 = travel_next state_9 9 (loop_head 102 [] 5)

abbrev state_11 : System
state_11 = travel_next state_10 10 (event Local.local_eof)

abbrev state_12 : System
state_12 = home_next state_11 11 (carrier_frame 1 (fin 7 3) done)

abbrev state_13 : System
state_13 = home_next state_12 12 (target_data (9 ∷ []))

abbrev state_14 : System
state_14 = home_next state_13 13 target_ended

abbrev state_15 : System
state_15 = travel_next state_14 14 (loop_head 103 [] 5)

abbrev state_16 : System
state_16 = travel_next state_15 15 (event (Local.carrier_frame 1 (fin_ack 7 3) [] done))

abbrev state_17 : System
state_17 = travel_next state_16 16 (loop_head 104 [] 5)

abbrev state_18 : System
state_18 =
    travel_next state_17 17
      (event (Local.carrier_frame 1 (stream_data 7 0 (9 ∷ [])) (Local.wrote 5 ∷ []) done))

abbrev state_19 : System
state_19 = travel_next state_18 18 (loop_head 105 [] 5)

abbrev state_20 : System
state_20 = travel_next state_19 19 (event (Local.carrier_frame 1 (fin 7 1) [] done))

sending-reached : Reachable cfg set 100 state_6
unfolding home_next travel_next Home_loop.step Home_loop.on_incoming Home_loop.on_target_data
    Home_loop.on_target_ended Home_loop.send_active Home_loop.active_relay State.start
    Frames.on_frame Frames.on_data Frames.deliver Frames.on_race Frames.select_carrier
    Frames.forget_races Frames.send_to Frames.retransmit Frames.retransmit_segments Frames.on_fin
    Frames.splits Frames.pop_acked contains_key get insert remove insert_new contains spawned
    begin_race travel_step in_phase on_head is_complete in_select in_race wait_event race_event
    on_opened next_round no_winner finish_race select_winner advance_reevaluation names_winner
    Local.start begin Local_frames.handle_event Local_frames.on_frame Local_frames.on_data
    Local_frames.on_ack Local_frames.on_fin Local_frames.accept Local_frames.write_all
    Local_frames.acknowledge Local_frames.retransmit Local_frames.send_active
    Local_frames.on_local_data saturating_add
sending-reached =
    let reached_1 : Reachable cfg set 100 state_1 =
      travel_goes (initial cfg set 0 100) 0 (loop_head 100 (some relay ∷ []) 5) (started 0) tt refl
        (λ e. refl, omega arith) refl in
    let reached_2 : Reachable cfg set 100 state_2 =
      home_goes state_1 1 (incoming 1 relay 1 done) reached_1 tt (λ e. refl, omega arith) refl in
    let reached_3 : Reachable cfg set 100 state_3 =
      travel_goes state_2 2 (opened 1 relay 0) reached_2 (7, (1, (0, (1, here)))) refl
        (λ e. refl, omega arith) refl in
    let reached_4 : Reachable cfg set 100 state_4 =
      home_goes state_3 3 (carrier_frame 1 (race 7 100 0) done) reached_3 here
        (λ e. refl, omega arith) refl in
    let reached_5 : Reachable cfg set 100 state_5 =
      travel_goes state_4 4 (event (Local.carrier_frame 1 (race_ack 7 100 1) [] done)) reached_4
        (there here) refl (λ e. refl, omega arith) refl in
    travel_goes state_5 5 (event (Local.local_data (1 ∷ 2 ∷ 3 ∷ []))) reached_5 tt refl
      (λ e. absurd (ground (arith, e)), omega arith) refl

complete-reached : Reachable cfg set 100 state_20
unfolding home_next travel_next Home_loop.step Home_loop.on_incoming Home_loop.on_target_data
    Home_loop.on_target_ended Home_loop.send_active Home_loop.active_relay State.start
    Frames.on_frame Frames.on_data Frames.deliver Frames.on_race Frames.select_carrier
    Frames.forget_races Frames.send_to Frames.retransmit Frames.retransmit_segments Frames.on_fin
    Frames.splits Frames.pop_acked contains_key get insert remove insert_new contains spawned
    begin_race travel_step in_phase on_head is_complete in_select in_race wait_event race_event
    on_opened next_round no_winner finish_race select_winner advance_reevaluation names_winner
    Local.start begin Local_frames.handle_event Local_frames.on_frame Local_frames.on_data
    Local_frames.on_ack Local_frames.on_fin Local_frames.accept Local_frames.write_all
    Local_frames.acknowledge Local_frames.retransmit Local_frames.send_active
    Local_frames.on_local_data saturating_add
complete-reached =
    let reached_7 : Reachable cfg set 100 state_7 =
      home_goes state_6 6 (carrier_frame 1 (stream_data 7 0 (1 ∷ 2 ∷ 3 ∷ [])) done) sending-reached
        (there here) (λ e. refl, omega arith) refl in
    let reached_8 : Reachable cfg set 100 state_8 =
      travel_goes state_7 7 (loop_head 101 [] 5) reached_7 tt refl (λ e. refl, omega arith) refl in
    let reached_9 : Reachable cfg set 100 state_9 =
      travel_goes state_8 8 (event (Local.carrier_frame 1 (ack 7 3) [] done)) reached_8
        (there (there here)) refl (λ e. refl, omega arith) refl in
    let reached_10 : Reachable cfg set 100 state_10 =
      travel_goes state_9 9 (loop_head 102 [] 5) reached_9 tt refl (λ e. refl, omega arith) refl in
    let reached_11 : Reachable cfg set 100 state_11 =
      travel_goes state_10 10 (event Local.local_eof) reached_10 tt refl (λ e. refl, omega arith)
        refl in
    let reached_12 : Reachable cfg set 100 state_12 =
      home_goes state_11 11 (carrier_frame 1 (fin 7 3) done) reached_11 (there (there here))
        (λ e. refl, omega arith) refl in
    let reached_13 : Reachable cfg set 100 state_13 =
      home_goes state_12 12 (target_data (9 ∷ [])) reached_12 tt
        (λ e. absurd (ground (arith, e)), omega arith) refl in
    let reached_14 : Reachable cfg set 100 state_14 =
      home_goes state_13 13 target_ended reached_13 tt (λ e. refl, omega arith) refl in
    let reached_15 : Reachable cfg set 100 state_15 =
      travel_goes state_14 14 (loop_head 103 [] 5) reached_14 tt refl (λ e. refl, omega arith)
        refl in
    let reached_16 : Reachable cfg set 100 state_16 =
      travel_goes state_15 15 (event (Local.carrier_frame 1 (fin_ack 7 3) [] done)) reached_15
        (there (there (there here))) refl (λ e. refl, omega arith) refl in
    let reached_17 : Reachable cfg set 100 state_17 =
      travel_goes state_16 16 (loop_head 104 [] 5) reached_16 tt refl (λ e. refl, omega arith)
        refl in
    let reached_18 : Reachable cfg set 100 state_18 =
      travel_goes state_17 17
        (event (Local.carrier_frame 1 (stream_data 7 0 (9 ∷ [])) (Local.wrote 5 ∷ []) done))
        reached_17 (there (there (there (there here)))) refl (λ e. refl, omega arith) refl in
    let reached_19 : Reachable cfg set 100 state_19 =
      travel_goes state_18 18 (loop_head 105 [] 5) reached_18 tt refl (λ e. refl, omega arith)
        refl in
    travel_goes state_19 19 (event (Local.carrier_frame 1 (fin 7 1) [] done)) reached_19
      (there (there (there (there (there here))))) refl (λ e. refl, omega arith) refl

-- At six steps the queue of Travel has the three bytes that the target lacks.
Reachable-conserves_example :
    (state_6.at_target
        ++ drop
            (state_6.home.receive_offset - state_6.travel.transfer.send_acked)
            (payload state_6.travel.transfer.unacked)
      ≡ 1 ∷ 2 ∷ 3 ∷ [])
    × (state_6.at_local
          ++ drop
              (state_6.travel.transfer.receive_offset - state_6.home.send_acked)
              (payload state_6.home.unacked)
        ≡ [])
unfolding home_next travel_next Home_loop.step Home_loop.on_incoming Home_loop.on_target_data
    Home_loop.on_target_ended Home_loop.send_active Home_loop.active_relay State.start
    Frames.on_frame Frames.on_data Frames.deliver Frames.on_race Frames.select_carrier
    Frames.forget_races Frames.send_to Frames.retransmit Frames.retransmit_segments Frames.on_fin
    Frames.splits Frames.pop_acked contains_key get insert remove insert_new contains spawned
    begin_race travel_step in_phase on_head is_complete in_select in_race wait_event race_event
    on_opened next_round no_winner finish_race select_winner advance_reevaluation names_winner
    Local.start begin Local_frames.handle_event Local_frames.on_frame Local_frames.on_data
    Local_frames.on_ack Local_frames.on_fin Local_frames.accept Local_frames.write_all
    Local_frames.acknowledge Local_frames.retransmit Local_frames.send_active
    Local_frames.on_local_data saturating_add
Reachable-conserves_example =
    Reachable-conserves cfg set 100 (omega arith) (omega arith) state_6 sending-reached

Reachable-Agrees_example : Agrees cfg 100 state_20
Reachable-Agrees_example =
    Reachable-Agrees cfg set 100 (omega arith) (omega arith) state_20 complete-reached

complete-Reachable_example :
    (state_20.at_target ≡ 1 ∷ 2 ∷ 3 ∷ [])
    × (state_20.at_local ≡ 9 ∷ [])
    × (true ≡ true)
    × (true ≡ true)
unfolding home_next travel_next Home_loop.step Home_loop.on_incoming Home_loop.on_target_data
    Home_loop.on_target_ended Home_loop.send_active Home_loop.active_relay State.start
    Frames.on_frame Frames.on_data Frames.deliver Frames.on_race Frames.select_carrier
    Frames.forget_races Frames.send_to Frames.retransmit Frames.retransmit_segments Frames.on_fin
    Frames.splits Frames.pop_acked contains_key get insert remove insert_new contains spawned
    begin_race travel_step in_phase on_head is_complete in_select in_race wait_event race_event
    on_opened next_round no_winner finish_race select_winner advance_reevaluation names_winner
    Local.start begin Local_frames.handle_event Local_frames.on_frame Local_frames.on_data
    Local_frames.on_ack Local_frames.on_fin Local_frames.accept Local_frames.write_all
    Local_frames.acknowledge Local_frames.retransmit Local_frames.send_active
    Local_frames.on_local_data saturating_add
complete-Reachable_example =
    complete-Reachable cfg set 100 (omega arith) (omega arith) state_20 complete-reached (inr refl)

Reachable-carriers_le_example : length state_6.travel.carriers ≤ 2
Reachable-carriers_le_example =
    Reachable-carriers_le cfg set 100 (omega arith) state_6 sending-reached
