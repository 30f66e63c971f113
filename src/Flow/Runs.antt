-- ===== src/Flow/Runs.antt =====
-- Runs of a Home TCP flow: two Carriers, a race, an upload, a download and the end of both.
use flowsplice_rust.Prelude.{
  ℕ, ◌≡◌, refl, Bool, true, false, List, [], ◌∷◌, none, some, arith, saturating_add, All,
  Bool-cases, inl, inr, some_inj, ap, ◌∙◌,
}
use flowsplice_rust.Prelude.Bytes.{Bytes}
use flowsplice_rust.Prelude.Maps.{
  both, pair_key, nat_eq, text_key, get, insert, remove, contains_key,
}
use flowsplice_rust.Prelude.Text.{text_eq}
use flowsplice_rust.Protocol.{open_ok, race_ack, race, stream_data, ack, fin, fin_ack}
use flowsplice_rust.Flow.State.{
  Config, Flow, Event, incoming, carrier_frame, carrier_closed, target_data, target_ended, done,
  failed, target_write_failed, to_carrier, to_target, start,
}
use flowsplice_rust.Flow.Frames.{
  send_to, retransmit_segments, retransmit, pop_acked, splits, acknowledge, forget_races,
  select_carrier, on_race, deliver, on_data, on_ack, on_fin, on_frame,
}
use flowsplice_rust.Flow.{
  step, run, is_complete, on_incoming, on_carrier_closed, on_target_data, on_target_ended, proceed,
  active_relay, send_active, completed, ended, Outcome,
}
use flowsplice_rust.Flow.Cases.{Keeps}
use flowsplice_rust.Flow.Upload.{Honest, Delivers, run-start-Delivers}
use flowsplice_rust.Flow.Download.{Sound, IsKept, step-Sound}
use flowsplice_rust.Flow.Invariant.{IsValid, Valid, step-IsValid}
use flowsplice_rust.Flow.Acknowledge.{AckMeets, Stands, acknowledge_lem, run-start-Stands}
use flowsplice_rust.Flow.Races.{Fair, step-Fair}
use flowsplice_rust.Flow.Registry.{FlowKey, FlowHandle, Registry, attach}
use flowsplice_rust.Flow.Registry.Kept.{IsFresh, Attaches, attach-Attaches}

abbrev cfg : Config
cfg = record { flow_id = 7; max_unacked_bytes = 100; detach_timeout = 30 }

abbrev stream : Bytes
stream = 10 ∷ 20 ∷ 30 ∷ []

-- The second Carrier takes over after a piece of the stream, which Travel then sends again.
abbrev evs : List (ℕ × Event)
evs =
    (1, incoming 1 (65 ∷ []) 1 done)
    ∷ (2, carrier_frame 1 (race 7 100 0) done)
    ∷ (3, carrier_frame 1 (stream_data 7 0 (10 ∷ 20 ∷ [])) done)
    ∷ (4, target_data (5 ∷ 6 ∷ []))
    ∷ (5, carrier_closed 1)
    ∷ (6, incoming 2 (66 ∷ []) 1 done)
    ∷ (7, carrier_frame 2 (race 7 101 2) done)
    ∷ (8, carrier_frame 2 (stream_data 7 0 (10 ∷ 20 ∷ [])) done)
    ∷ (9, carrier_frame 2 (stream_data 7 2 (30 ∷ [])) done)
    ∷ (10, carrier_frame 2 (fin 7 3) done)
    ∷ (11, target_ended)
    ∷ (12, carrier_frame 2 (ack 7 2) done)
    ∷ (13, carrier_frame 2 (fin_ack 7 2) done)
    ∷ []

is_completed : Outcome → Bool
is_completed (completed s) = true
is_completed _ = false

run_test : is_completed (run cfg evs (start cfg 0)).0 ≡ true
unfolding is_completed run is_complete proceed step start on_incoming on_carrier_closed
    on_target_data on_target_ended active_relay send_active on_frame on_race select_carrier
    forget_races on_data deliver on_ack acknowledge pop_acked splits on_fin retransmit
    retransmit_segments send_to get insert remove contains_key saturating_add
run_test = refl

-- A write that fails half way ends the flow, and the target has what was written.
cut_test :
    run cfg
      ((1, incoming 1 (65 ∷ []) 1 done)
        ∷ (2, carrier_frame 1 (race 7 100 0) done)
        ∷ (3, carrier_frame 1 (stream_data 7 0 (10 ∷ 20 ∷ [])) (failed 1))
        ∷ [])
      (start cfg 0)
    ≡ (
      ended target_write_failed,
      to_carrier 1 (open_ok 7 1 0 0 1) ∷ to_carrier 1 (race_ack 7 100 1) ∷ to_target (10 ∷ []) ∷ [],
    )
unfolding run is_complete proceed step start on_incoming on_frame on_race select_carrier
    forget_races on_data deliver retransmit retransmit_segments send_to get insert remove
    contains_key saturating_add
cut_test = refl

evs-Honest : All (Honest cfg stream) evs
evs-Honest = (
  tt,
  (
    tt,
    (
      λ e. (refl, omega arith),
      (
        tt,
        (
          tt,
          (
            tt,
            (
              tt,
              (
                λ e. (refl, omega arith),
                (λ e. (refl, omega arith), (λ e. refl, (tt, (tt, (tt, tt))))),
              ),
            ),
          ),
        ),
      ),
    ),
  ),
)

run-start-Delivers_example : Delivers cfg stream (omega arith) [] (run cfg evs (start cfg 0))
run-start-Delivers_example = run-start-Delivers cfg stream (omega arith) 0 evs evs-Honest

run-start-Stands_example : Stands cfg (omega arith) (run cfg evs (start cfg 0)).0
run-start-Stands_example = run-start-Stands cfg (omega arith) 0 evs

abbrev busy : Flow
busy = record {
  carriers = (1, 65 ∷ []) ∷ [];
  active_carrier = some 1;
  receive_offset = 0;
  send_offset = 3;
  send_acked = 0;
  unacked = record { offset = 0; bytes = 5 ∷ 6 ∷ [] } ∷ record { offset = 2; bytes = 7 ∷ [] } ∷ [];
  unacked_bytes = 3;
  race_winners = [];
  race_order = [];
  detached_deadline = none;
  target_eof = false;
  target_fin_acked = false;
  travel_eof = false;
  selected_once = true;
}

busy-IsValid : IsValid cfg busy
unfolding saturating_add
busy-IsValid = record {
  chain = (refl, (refl, refl));
  acked_range = omega arith;
  counted = refl;
  bounded = omega arith;
  few_races = omega arith;
  attached_or_timed = refl;
}

busy-IsKept : IsKept (5 ∷ 6 ∷ 7 ∷ []) busy
busy-IsKept = record { counted = refl; kept = refl }

step-Sound_example : Keeps (Sound (5 ∷ 6 ∷ 7 ∷ 8 ∷ [])) (step cfg 1 busy (target_data (8 ∷ [])))
step-Sound_example =
    step-Sound (5 ∷ 6 ∷ 7 ∷ []) cfg 1 busy (target_data (8 ∷ [])) (omega arith) busy-IsValid
      busy-IsKept

acknowledge_example : AckMeets (5 ∷ 6 ∷ 7 ∷ []) busy 2 (acknowledge busy 2)
acknowledge_example =
    acknowledge_lem (5 ∷ 6 ∷ 7 ∷ []) (omega arith) cfg busy 2 busy-IsValid busy-IsKept (omega arith)
      (omega arith)

step-IsValid_example : Keeps (Valid cfg) (step cfg 1 busy (carrier_closed 1))
step-IsValid_example = step-IsValid cfg 1 busy (carrier_closed 1) (omega arith) busy-IsValid

step-Fair_example : Keeps (Fair busy) (step cfg 1 busy (carrier_frame 1 (race 7 100 0) done))
step-Fair_example = step-Fair cfg busy (omega arith) 1 (carrier_frame 1 (race 7 100 0) done)

-- One flow of the credential 6.
abbrev key : FlowKey
key = (6, (1 ∷ [], 7))

abbrev handle : FlowHandle
handle = record { instance_id = 9; service_id = 2 ∷ []; shutdown = false; carrier_slots = 4 }

abbrev registry : Registry
registry = record {
  flows = (key, handle) ∷ [];
  permits = 3;
  carrier_permits = 5;
  max_carriers_per_flow = 4;
}

registry-IsFresh : IsFresh registry.flows 10
unfolding get both text_eq
registry-IsFresh k flow h = elim (Bool-cases (pair_key.beq key k)) [
  | inl e ↦
      let same : handle ≡ flow = some_inj (rw (e) refl ∙ h) in
      λ ten. absurd (ground (arith, ap (λ f. f.instance_id) same, ten))
  | inr e ↦ absurd (ground (arith, h, e))
]

attach-Attaches_example : Attaches registry key (3 ∷ []) (attach registry key (3 ∷ []) 10 true true)
attach-Attaches_example = attach-Attaches registry key (3 ∷ []) 10 true true registry-IsFresh
