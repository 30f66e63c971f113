-- ===== src/Flow/Invariant.antt =====
-- The bookkeeping invariant of the Home flow of crates/flowsplice-home-core/src/tcp_flow.rs.
use flowsplice_rust.Prelude.{
  ℕ, ◌≤◌, ◌<◌, ◌≡◌, refl, not, Bool-cases, inl, inr, List, [], ◌∷◌, ◌++◌, Option, is_some, ltb,
  length, IsU64, u64_max, saturating_add, saturating_add_lem, arith,
}
use flowsplice_rust.Prelude.Bytes.{Bytes}
use flowsplice_rust.Prelude.Maps.{remove, insert, nat_eq}
use flowsplice_rust.Protocol.{DataFrame, Uuid}
use flowsplice_rust.Flow.State.{
  Segment, Config, Flow, Answer, Event, incoming, incoming_closed, events_closed, carrier_frame,
  carrier_closed, target_data, target_ended, target_error, deadline, Effect, start,
}
use flowsplice_rust.Flow.Frames.{
  is_active, pop_acked, splits, acknowledge, forget_races, on_race, on_ack, on_frame,
}
use flowsplice_rust.Flow.{on_carrier_closed, on_target_data, on_target_ended, step}
use flowsplice_rust.Flow.Cases.{
  Keeps, Keeps-if, on_race_cases, on_data_cases, on_fin_cases, on_frame_cases, on_incoming_cases,
  on_deadline_cases,
}
use flowsplice_rust.Flow.Queue.{Chain-snoc, total-append}
use flowsplice_rust.Flow.Ack.{
  Chain, total, Chain-bounds, pop_acked-Chain, pop_acked-total, total-pop_acked-le,
}

-- The queue of unacknowledged segments and its counters, and the flow's attachment.
pub record Books (cfg : Config) (send_acked : ℕ) (unacked : List Segment)
    (send_offset unacked_bytes : ℕ) (race_order : List Uuid) (detached_deadline : Option ℕ)
    (active_carrier : Option Uuid) : Type 0 where
  -- The queue covers the offsets from the acknowledged one to the end of what was sent.
  pub chain : Chain send_acked unacked send_offset
  pub acked_range : IsU64 send_acked
  -- Its size is counted and within the limit.
  pub counted : unacked_bytes ≡ total unacked
  pub bounded : unacked_bytes ≤ cfg.max_unacked_bytes
  -- The winners of 32 races at most are remembered.
  pub few_races : length race_order ≤ 32
  -- The flow has an active Carrier, or else a deadline runs.
  pub attached_or_timed : is_some detached_deadline ≡ not (is_some active_carrier)

abbrev pub IsValid : Config → Flow → Type 0
IsValid cfg s =
    Books cfg s.send_acked s.unacked s.send_offset s.unacked_bytes s.race_order s.detached_deadline
      s.active_carrier

pub start-IsValid : (cfg : Config) (now : ℕ) → IsValid cfg (start cfg now)
unfolding start
start-IsValid cfg now = record {
  chain = refl;
  acked_range = omega arith;
  counted = refl;
  bounded = omega arith;
  few_races = omega arith;
  attached_or_timed = refl;
}

length-forget_races :
    (order : List Uuid) (winners : List (Uuid × Uuid)) → length (forget_races order winners).0 ≤ 32
unfolding forget_races
length-forget_races [] winners = omega arith
length-forget_races (old ∷ order) winners =
    ground (arith, length-forget_races order (remove winners old))

on_ack-IsValid :
    (cfg : Config) (s : Flow) (next_offset : ℕ)
    → IsValid cfg s
    → s.send_acked ≤ next_offset
    → next_offset ≤ s.send_offset
    → Keeps (λ s' _. IsValid cfg s') (on_ack s next_offset)
unfolding on_ack acknowledge
on_ack-IsValid cfg s next_offset v lo hi =
    let popped = pop_acked next_offset s.unacked s.unacked_bytes in
    elim (Bool-cases (splits next_offset popped.0)) [
      | inl bad ↦ rw (bad, Keeps) tt
      | inr whole ↦
          rw (whole, Keeps)
            (record {
              chain =
                  pop_acked-Chain next_offset s.unacked s.unacked_bytes s.send_acked s.send_offset
                    v.acked_range v.chain lo hi whole;
              acked_range =
                  omega (
                    arith,
                    Chain-bounds s.unacked s.send_acked s.send_offset v.acked_range v.chain,
                  );
              counted = pop_acked-total next_offset s.unacked s.unacked_bytes v.counted;
              bounded = omega (
                arith,
                pop_acked-total next_offset s.unacked s.unacked_bytes v.counted,
                total-pop_acked-le next_offset s.unacked s.unacked_bytes,
                v.counted,
              );
              few_races = v.few_races;
              attached_or_timed = v.attached_or_timed;
            })
    ]

abbrev pub Valid : Config → Flow → List Effect → Type 0
Valid cfg s effects = IsValid cfg s

on_race-IsValid :
    (cfg : Config) (s : Flow) (id race_id : Uuid)
    → IsValid cfg s
    → Keeps (Valid cfg) (on_race cfg s id race_id)
on_race-IsValid cfg s id race_id v =
    on_race_cases (Valid cfg) cfg s id race_id (λ _ _. v)
      λ _. record {
        chain = v.chain;
        acked_range = v.acked_range;
        counted = v.counted;
        bounded = v.bounded;
        few_races =
            length-forget_races (s.race_order ++ (race_id ∷ [])) (insert s.race_winners race_id id);
        attached_or_timed = refl;
      }

on_frame-IsValid :
    (cfg : Config) (s : Flow) (id : Uuid) (frame : DataFrame) (target : Answer)
    → IsValid cfg s
    → Keeps (Valid cfg) (on_frame cfg s id frame target)
on_frame-IsValid cfg s id frame target v =
    on_frame_cases (Valid cfg) cfg s id target frame (λ _ _. v)
      (λ race_id. on_race-IsValid cfg s id race_id v)
      (λ _ offset bytes _ _.
        on_data_cases (Valid cfg) cfg s id offset bytes target (λ _ _. v) (λ _ _. v))
      (λ next_offset _ lo hi. on_ack-IsValid cfg s next_offset v lo hi)
      (λ _ final_offset _ _ _.
        on_fin_cases (Valid cfg) cfg s id final_offset target (λ _. v) (λ _. v))
      (λ _ _ _ _ _. v)

on_target_data-IsValid :
    (cfg : Config) (s : Flow) (bytes : Bytes)
    → cfg.max_unacked_bytes < u64_max
    → IsValid cfg s
    → Keeps (Valid cfg) (on_target_data cfg s bytes)
unfolding on_target_data
on_target_data-IsValid cfg s bytes room v =
    Keeps-if (Valid cfg) (ltb cfg.max_unacked_bytes (saturating_add s.unacked_bytes (length bytes)))
      _ _ (λ _. tt)
      λ fits. record {
        chain = Chain-snoc s.unacked s.send_acked s.send_offset bytes v.chain;
        acked_range = v.acked_range;
        counted = omega (
          arith,
          v.counted,
          total-append s.unacked (record { offset = s.send_offset; bytes = bytes } ∷ []),
        );
        bounded = ground (arith, fits, saturating_add_lem s.unacked_bytes (length bytes));
        few_races = v.few_races;
        attached_or_timed = v.attached_or_timed;
      }

on_carrier_closed-IsValid :
    (cfg : Config) (now : ℕ) (s : Flow) (id : Uuid)
    → IsValid cfg s
    → Keeps (Valid cfg) (on_carrier_closed cfg now s id)
unfolding on_carrier_closed
on_carrier_closed-IsValid cfg now s id v =
    Keeps-if (Valid cfg) (is_active s id) _ _
      (λ _. record {
        chain = v.chain;
        acked_range = v.acked_range;
        counted = v.counted;
        bounded = v.bounded;
        few_races = v.few_races;
        attached_or_timed = refl;
      })
      (λ _. v)

-- Every turn of the loop that goes on keeps the invariant: the unacknowledged segments are contiguous
-- from the acknowledged offset to the end of what was sent, their bytes are counted and within the
-- limit (which is below `usize::MAX`), at most 32 races are remembered, and a flow without an active
-- Carrier has a deadline.
pub step-IsValid :
    (cfg : Config) (now : ℕ) (s : Flow) (ev : Event)
    → cfg.max_unacked_bytes < u64_max
    → IsValid cfg s
    → Keeps (Valid cfg) (step cfg now s ev)
unfolding step
step-IsValid cfg now s (incoming id relay_id version opened) room v =
    on_incoming_cases (Valid cfg) cfg s id relay_id version opened v v
step-IsValid cfg now s incoming_closed room v = tt
step-IsValid cfg now s events_closed room v = tt
step-IsValid cfg now s (carrier_frame id frame target) room v =
    on_frame-IsValid cfg s id frame target v
step-IsValid cfg now s (carrier_closed id) room v = on_carrier_closed-IsValid cfg now s id v
step-IsValid cfg now s (target_data bytes) room v = on_target_data-IsValid cfg s bytes room v
step-IsValid cfg now s target_ended room v = unfold on_target_ended in v
step-IsValid cfg now s target_error room v = tt
step-IsValid cfg now s deadline room v = on_deadline_cases (Valid cfg) cfg s now v
