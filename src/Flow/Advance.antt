-- ===== src/Flow/Advance.antt =====
-- How the offsets of crates/flowsplice-home-core/src/tcp_flow.rs move in a turn, against the other
-- end's.
use flowsplice_rust.Prelude.{
  ℕ, ◌≤◌, ◌≡◌, refl, subst, Bool, true, List, arith, length, IsU64, saturating_add_lem,
}
use flowsplice_rust.Prelude.Bytes.{Bytes}
use flowsplice_rust.Prelude.Maps.{nat_eq}
use flowsplice_rust.Protocol.{Uuid, DataFrame, ack, duplicate}
use flowsplice_rust.Flow.State.{
  Config, Flow, Effect, Answer, Event, incoming, incoming_closed, events_closed, carrier_frame,
  carrier_closed, target_data, target_ended, target_error, deadline,
}
use flowsplice_rust.Flow.Frames.{on_frame}
use flowsplice_rust.Flow.{step}
use flowsplice_rust.Flow.Queue.{IsTruthful}
use flowsplice_rust.Flow.Cases.{
  Keeps, Acknowledges, on_race_cases, on_data_cases, on_fin_cases, on_frame_cases,
  on_incoming_cases, on_deadline_cases, on_carrier_closed_cases, on_target_data_cases,
  on_target_ended_cases, on_ack_cases,
}

-- From one state to the next: what was received stays so, and the target's end; no more is taken for
-- received by the other end than it has (`received`), nor its stream for ended before it is (`eof`).
pub record Advance (eof : Bool) (received : ℕ) (s s' : Flow) : Type 0 where
  pub receives : s.receive_offset ≤ s'.receive_offset
  pub confirmed : s'.send_acked ≤ received
  pub ended : s'.travel_eof ≡ true → eof ≡ true
  pub closes : s.target_eof ≡ true → s'.target_eof ≡ true

-- An event brings only frames that are true of the other end.
abbrev pub IsHonest : Bytes → Bool → ℕ → Event → Type 0
IsHonest stream eof received (carrier_frame id frame target) = IsTruthful stream eof received frame
IsHonest stream eof received _ = Unit {0}

acknowledged_le :
    (stream : Bytes) (eof : Bool) (received n : ℕ) (f : Uuid) (frame : DataFrame)
    → Acknowledges frame f n
    → IsTruthful stream eof received frame
    → n ≤ received
acknowledged_le stream eof received n f (ack _ m) a h = omega (arith, a.1, h)
acknowledged_le stream eof received n f (duplicate _ m _) a h = omega (arith, a.1, h)
acknowledged_le stream eof received n f _ a h = absurd a

module _ (stream : Bytes) (eof : Bool) (received : ℕ) (cfg : Config) (s : Flow)
    (small : IsU64 s.receive_offset) (low : s.send_acked ≤ received)
    (ends : s.travel_eof ≡ true → eof ≡ true) where
  abbrev Moves : Flow → List Effect → Type 0
  Moves s' effects = Advance eof received s s'

  stays : Advance eof received s s
  stays = record { receives = omega arith; confirmed = low; ended = ends; closes = λ e. e }

  on_frame-Advance :
      (id : Uuid) (frame : DataFrame) (target : Answer)
      → IsTruthful stream eof received frame
      → Keeps Moves (on_frame cfg s id frame target)
  on_frame-Advance id frame target h =
      on_frame_cases Moves cfg s id target frame (λ _ _. stays)
        (λ race_id.
          on_race_cases Moves cfg s id race_id (λ _ _. stays)
            (λ _. record {
              receives = omega arith;
              confirmed = low;
              ended = ends;
              closes = λ e. e;
            }))
        (λ _ offset bytes _ _.
          on_data_cases Moves cfg s id offset bytes target
            (λ at _. record {
              receives = omega (arith, at, saturating_add_lem offset (length bytes), small);
              confirmed = low;
              ended = ends;
              closes = λ e. e;
            })
            (λ _ _. stays))
        (λ n a _ _. on_ack_cases Moves cfg s n (λ _. record {
          receives = omega arith;
          confirmed = acknowledged_le stream eof received n cfg.flow_id frame a h;
          ended = ends;
          closes = λ e. e;
        }))
        (λ f final_offset e _ _.
          on_fin_cases Moves cfg s id final_offset target (λ _. stays)
            (λ _. record {
              receives = omega arith;
              confirmed = low;
              ended = λ _. (subst (IsTruthful stream eof received) e h).0;
              closes = λ e. e;
            }))
        (λ _ _ _ _ _. record {
          receives = omega arith;
          confirmed = low;
          ended = ends;
          closes = λ e. e;
        })

  -- In a turn that goes on the receive offset does not go back and the target's end stays seen. No more
  -- is taken for received by the other end than it has, nor its stream for ended before it is. The
  -- event is honest.
  pub step-Advance :
      (now : ℕ) (ev : Event) → IsHonest stream eof received ev → Keeps Moves (step cfg now s ev)
  unfolding step
  step-Advance now (incoming id relay_id version opened) h =
      on_incoming_cases Moves cfg s id relay_id version opened stays
        (record { receives = omega arith; confirmed = low; ended = ends; closes = λ e. e })
  step-Advance now incoming_closed h = tt
  step-Advance now events_closed h = tt
  step-Advance now (carrier_frame id frame target) h = on_frame-Advance id frame target h
  step-Advance now (carrier_closed id) h =
      on_carrier_closed_cases Moves cfg s now id
        (record { receives = omega arith; confirmed = low; ended = ends; closes = λ e. e })
        (record { receives = omega arith; confirmed = low; ended = ends; closes = λ e. e })
  step-Advance now (target_data bytes) h =
      on_target_data_cases Moves cfg s bytes
        λ _. record { receives = omega arith; confirmed = low; ended = ends; closes = λ e. e }
  step-Advance now target_ended h =
      on_target_ended_cases Moves cfg s
        (record { receives = omega arith; confirmed = low; ended = ends; closes = λ _. refl })
  step-Advance now target_error h = tt
  step-Advance now deadline h = on_deadline_cases Moves cfg s now stays
