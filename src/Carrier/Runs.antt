-- ===== src/Carrier/Runs.antt =====
-- Runs of the Carrier pump, and its theorem at one.
use flowsplice_rust.Prelude.{ℕ, ◌≡◌, refl, true, Option, none, some, List, [], ◌∷◌}
use flowsplice_rust.Protocol.{DataFrame, ack, fin, ping}
use flowsplice_rust.Carrier.{
  Pump, new_pump, Input, event_room, outgoing, incoming, tick, Effect, to_flow, write_frame,
  write_pong, write_ping, failed, heartbeat_timed_out, receive_timed_out, is_enabled, after_write,
  on_room, on_incoming, on_tick, step,
}
use flowsplice_rust.Carrier.Order.{Trace, idle, turn, InOrder, Trace-InOrder}

-- A Ping and an Ack are read, a Fin is written while the Ack is pending, the Ack is given to the flow,
-- and a tick passes.
abbrev inputs : List (ℕ × Input)
inputs =
    (1, incoming (ping 5) true)
    ∷ ((2, incoming (ack 7 3) true)
        ∷ ((3, outgoing (fin 7 9) true) ∷ ((4, event_room) ∷ ((40, tick true) ∷ []))))

abbrev effects : List Effect
effects = write_pong 5 ∷ (write_frame (fin 7 9) ∷ (to_flow (ack 7 3) ∷ (write_ping 1 ∷ [])))

abbrev at : ℕ → ℕ → Option DataFrame → Pump
at nonce last_received pending = record {
  nonce = nonce;
  last_received = last_received;
  pending = pending;
}

example-Trace : Trace 50 (new_pump 0) inputs effects (at 1 2 none)
unfolding new_pump is_enabled step after_write on_incoming on_room on_tick
example-Trace =
    turn (new_pump 0) (at 0 1 none) (at 1 2 none) 1 (incoming (ping 5) true) _ (write_pong 5 ∷ []) _
      refl refl
      (turn (at 0 1 none) (at 0 2 (some (ack 7 3))) (at 1 2 none) 2 (incoming (ack 7 3) true) _ [] _
        refl refl
        (turn (at 0 2 (some (ack 7 3))) (at 0 2 (some (ack 7 3))) (at 1 2 none) 3
          (outgoing (fin 7 9) true) _ (write_frame (fin 7 9) ∷ []) _ refl refl
          (turn (at 0 2 (some (ack 7 3))) (at 0 2 none) (at 1 2 none) 4 event_room _
            (to_flow (ack 7 3) ∷ []) _ refl refl
            (turn (at 0 2 none) (at 1 2 none) (at 1 2 none) 40 (tick true) [] (write_ping 1 ∷ []) []
              refl refl (idle (at 1 2 none))))))

Trace-InOrder_example : InOrder 50 (new_pump 0) inputs effects (at 1 2 none)
Trace-InOrder_example = Trace-InOrder 50 (new_pump 0) (at 1 2 none) inputs effects example-Trace

-- A tick too late ends the pump, and says whether an event was waiting.
silent_test : step 50 60 (at 1 2 none) (tick true) ≡ failed heartbeat_timed_out
unfolding step on_tick
silent_test = refl

full_test : step 50 60 (at 1 2 (some (ack 7 3))) (tick true) ≡ failed receive_timed_out
unfolding step on_tick
full_test = refl
