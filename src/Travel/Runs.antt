-- ===== src/Travel/Runs.antt =====
-- Runs of the Travel flow, and the theorems at them.
use flowsplice_rust.Prelude.{◌≡◌, refl, false, some, [], ◌∷◌, arith, saturating_add}
use flowsplice_rust.Prelude.Text.{codes}
use flowsplice_rust.Prelude.Maps.{nat_eq, contains_key}
use flowsplice_rust.Protocol.{stream_data, ack}
use flowsplice_rust.Flow.State.{done}
use flowsplice_rust.Travel.State.{
  Transfer, invalid_frame, acknowledgement_moved_back, wrote, write_error, local_data,
  carrier_frame,
}
use flowsplice_rust.Travel.Frames.{on_frame, handle_event}
use flowsplice_rust.Travel.Racing.{
  Settings, waiting, racing, Travel, Race, stop, on_opened, finish_race,
}
use flowsplice_rust.Travel.{Input, opened, event, wait_event, in_race, in_select, in_phase, step}
use flowsplice_rust.Travel.Steps.{LoopKeeps}
use flowsplice_rust.Travel.Sends.{IsSending, Sends, Anything, step-Sends}
use flowsplice_rust.Travel.Receives.{Receives, step-Receives}
use flowsplice_rust.Travel.Advance.{Advance, step-Advance}
use flowsplice_rust.Travel.Attached.{Bounded}
use flowsplice_rust.Travel.Attached.Steps.{step-Bounded}
use flowsplice_rust.Travel.Schedule.{after_wins}

abbrev set : Settings
set = record {
  reevaluate_secs = 10;
  max_reevaluate_secs = 60;
  recovery_timeout_secs = 30;
  race_timeout_secs = 5;
  max_carriers = 2;
}

-- Three bytes sent, none acknowledged; one received.
abbrev busy_transfer : Transfer
busy_transfer = record {
  flow_id = 7;
  send_offset = 3;
  send_acked = 0;
  receive_offset = 1;
  unacked =
      record { offset = 0; bytes = 1 ∷ 2 ∷ [] } ∷ (record { offset = 2; bytes = 3 ∷ [] } ∷ []);
  unacked_bytes = 3;
  max_unacked_bytes = 100;
  local_eof = false;
  local_fin_acked = false;
  remote_eof = false;
}

-- A flow on Carrier 1, waiting for events.
abbrev busy : Travel
busy = record {
  transfer = busy_transfer;
  carriers = (1, codes "r1") ∷ [];
  active = some 1;
  phase = waiting;
  recovery_started = 0;
  retry_backoff = 250;
  reevaluate_secs = 10;
  next_reevaluation = 5000;
}

busy-IsSending : IsSending (1 ∷ 2 ∷ 3 ∷ []) busy_transfer
unfolding saturating_add
busy-IsSending = record {
  chain = (refl, (refl, refl));
  acked_range = omega arith;
  counted = refl;
  bounded = omega arith;
  kept = record { counted = refl; kept = refl };
}

abbrev more : Input
more = event (local_data (4 ∷ []))

-- Two bytes of which the connection takes one before it fails.
abbrev cut : Input
cut = event (carrier_frame 1 (stream_data 7 1 (8 ∷ 9 ∷ [])) (wrote 1 ∷ (write_error ∷ [])) done)

abbrev acked : Input
acked = event (carrier_frame 1 (ack 7 2) [] done)

step-Sends_example : LoopKeeps (Sends (1 ∷ 2 ∷ 3 ∷ 4 ∷ [])) Anything (step set 1 busy more)
step-Sends_example =
    step-Sends (1 ∷ 2 ∷ 3 ∷ []) set 1 busy more (omega arith) (omega arith) refl busy-IsSending

step-Receives_example :
    LoopKeeps
      (Receives (6 ∷ 8 ∷ 9 ∷ []) (omega arith) (6 ∷ []))
      (Receives (6 ∷ 8 ∷ 9 ∷ []) (omega arith) (6 ∷ []))
      (step set 1 busy cut)
step-Receives_example =
    step-Receives (6 ∷ 8 ∷ 9 ∷ []) (omega arith) (6 ∷ []) false 3 set 1 busy cut refl
      (record { prefix = refl; within = omega arith; whole = λ e. absurd (ground (arith, e)) })
      (refl, omega arith)

step-Advance_example :
    LoopKeeps (λ t effects. Advance false 2 busy_transfer t) Anything (step set 1 busy acked)
step-Advance_example =
    step-Advance [] false 2 set 1 busy acked (omega arith) (omega arith) (omega arith)
      (λ e. absurd (ground (arith, e))) refl (omega arith)

-- A new Carrier whose `OpenOk` is older than an acknowledgement ends the flow.
abbrev caught_up : Travel
caught_up = record busy {
  transfer = record busy_transfer {
    send_acked = 2;
    unacked = record { offset = 2; bytes = 3 ∷ [] } ∷ [];
    unacked_bytes = 1;
  };
  phase = racing (record {
    race_id = 100;
    old_active = some 1;
    candidate_ids = [];
    opens = 1;
    deadline = 9000;
  });
}

late_open :
    step set 1 caught_up (opened 2 (codes "r2") 0) ≡ stop caught_up acknowledgement_moved_back
unfolding step in_phase in_race on_opened
late_open = refl

-- So does an acknowledgement that arrives behind a later one.
late_ack :
    step set 1 (record caught_up { phase = waiting }) (event (carrier_frame 1 (ack 7 1) [] done))
    ≡ stop (record caught_up { phase = waiting }) invalid_frame
unfolding step in_phase in_select wait_event handle_event on_frame
late_ack = refl

step-Bounded_example : Bounded set (step set 1 busy acked)
unfolding contains_key
step-Bounded_example =
    step-Bounded set 1 busy acked (omega arith) ((refl, tt), λ j h. ground (arith, h))

-- Carrier 1 takes the flow over from Carrier 5 at 1 second, and wins at 11 and at 31 seconds.
abbrev won : Race
won = record { race_id = 100; old_active = some 1; candidate_ids = []; opens = 0; deadline = 9000 }

abbrev taken_over : Travel
taken_over = (finish_race set 1000 busy (record won { old_active = some 5 }) 1).0

abbrev kept : Travel
kept = (finish_race set 31000 (after_wins set 1 ((11000, won) ∷ []) taken_over) won 1).0
