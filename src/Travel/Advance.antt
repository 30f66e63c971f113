-- ===== src/Travel/Advance.antt =====
-- How the offsets of crates/flowsplice-travel-core/src/tcp_flow.rs move in a step, against the other
-- end's.
use flowsplice_rust.Prelude.{
  ℕ, ◌≤◌, ◌≡◌, refl, subst, inl, inr, Bool, true, Option, List, arith, IsU64, length,
  saturating_add_lem,
}
use flowsplice_rust.Prelude.Bytes.{Bytes}
use flowsplice_rust.Prelude.Maps.{nat_eq}
use flowsplice_rust.Protocol.{Uuid, DataFrame}
use flowsplice_rust.Flow.State.{Effect, Answer}
use flowsplice_rust.Flow.Queue.{IsTruthful}
use flowsplice_rust.Travel.State.{Transfer, Write, Event, Carriers}
use flowsplice_rust.Travel.Frames.{on_frame, handle_event}
use flowsplice_rust.Travel.Racing.{Settings, Travel}
use flowsplice_rust.Travel.{Input, is_awaited, step}
use flowsplice_rust.Travel.Cases.{
  Keeps, on_data_cases, on_ack_cases, on_fin_cases, on_frame_cases, handle_event_cases,
}
use flowsplice_rust.Travel.Steps.{LoopKeeps, step_cases}
use flowsplice_rust.Travel.Receives.{IsHonest, IsHonestInput, write_all-le}
use flowsplice_rust.Travel.Sends.{Anything}

-- From one state to the next: no offset goes back, what ended stays so, no more is taken for received
-- by the other end than it has (`received`), nor its stream for ended before it is (`eof`), and the
-- limit of the queue is the same.
pub record Advance (eof : Bool) (received : ℕ) (t t' : Transfer) : Type 0 where
  pub receives : t.receive_offset ≤ t'.receive_offset
  pub sends : t.send_offset ≤ t'.send_offset
  pub acked : t.send_acked ≤ t'.send_acked
  pub stays_ended : t.remote_eof ≡ true → t'.remote_eof ≡ true
  pub confirmed : t'.send_acked ≤ received
  pub ended : t'.remote_eof ≡ true → eof ≡ true
  pub closes : t.local_eof ≡ true → t'.local_eof ≡ true
  pub limited : t'.max_unacked_bytes ≡ t.max_unacked_bytes

module _ (stream : Bytes) (eof : Bool) (received : ℕ) (t : Transfer)
    (small : IsU64 t.receive_offset) (wide : IsU64 t.send_offset) (low : t.send_acked ≤ received)
    (ends : t.remote_eof ≡ true → eof ≡ true) where
  abbrev Moves : Transfer → Carriers → List Effect → Bool → Type 0
  Moves t' cs effects closed = Advance eof received t t'

  stays : Advance eof received t t
  stays = record {
    receives = omega arith;
    sends = omega arith;
    acked = omega arith;
    stays_ended = λ e. e;
    confirmed = low;
    ended = ends;
    closes = λ e. e;
    limited = refl;
  }

  on_frame-Advance :
      (cs : Carriers) (active : Option Uuid) (id : Uuid) (frame : DataFrame) (writes : List Write)
      (closing : Answer)
      → IsTruthful stream eof received frame
      → Keeps Moves Anything (on_frame t cs active id frame writes closing)
  on_frame-Advance cs active id frame writes closing h =
      on_frame_cases Moves Anything t cs tt active id frame writes closing stays
        (λ offset bytes _ _.
          on_data_cases Moves Anything t cs tt active id offset bytes writes
            (λ _ _. record {
              receives = write_all-le writes bytes t.receive_offset small;
              sends = omega arith;
              acked = omega arith;
              stays_ended = λ e. e;
              confirmed = low;
              ended = ends;
              closes = λ e. e;
              limited = refl;
            })
            (λ _. tt) (λ _ _. stays))
        (λ n f w which lo _.
          on_ack_cases Moves Anything t cs tt n
            (λ _. record {
              receives = omega arith;
              sends = omega arith;
              acked = lo;
              stays_ended = λ e. e;
              confirmed = elim which [
                | inl e ↦ subst (IsTruthful stream eof received) e h
                | inr e ↦ subst (IsTruthful stream eof received) e h
              ];
              ended = ends;
              closes = λ e. e;
              limited = refl;
            })
            tt)
        (λ final_offset f e _.
          on_fin_cases Moves Anything t cs tt id final_offset closing (λ _. stays)
            (λ _. record {
              receives = omega arith;
              sends = omega arith;
              acked = omega arith;
              stays_ended = λ _. refl;
              confirmed = low;
              ended = λ _. (subst (IsTruthful stream eof received) e h).0;
              closes = λ e. e;
              limited = refl;
            }))
        (λ _. record {
          receives = omega arith;
          sends = omega arith;
          acked = omega arith;
          stays_ended = λ e. e;
          confirmed = low;
          ended = ends;
          closes = λ e. e;
          limited = refl;
        })

  pub handle_event-Advance :
      (cs : Carriers) (active : Option Uuid) (ev : Event)
      → IsHonest stream eof received ev
      → Keeps Moves Anything (handle_event t cs active ev)
  handle_event-Advance cs active ev h =
      handle_event_cases Moves Anything t cs tt active ev
        (λ id frame writes closing e.
          on_frame-Advance cs active id frame writes closing
            (subst (IsHonest stream eof received) e h))
        (λ bytes _ _. record {
          receives = omega arith;
          sends = omega (arith, saturating_add_lem t.send_offset (length bytes), wide);
          acked = omega arith;
          stays_ended = λ e. e;
          confirmed = low;
          ended = ends;
          closes = λ e. e;
          limited = refl;
        })
        (λ _. record {
          receives = omega arith;
          sends = omega arith;
          acked = omega arith;
          stays_ended = λ e. e;
          confirmed = low;
          ended = ends;
          closes = λ _. refl;
          limited = refl;
        })
        (λ _. stays)

-- In a step that goes on none of the three offsets (received, sent, acknowledged) goes back, and an
-- end of either stream that was seen stays so. No more is taken for received by the other end than it
-- has, nor its stream for ended before it is, if that was so before, and the limit of the queue stays.
-- The input is awaited and honest, and the offsets are within u64.
pub step-Advance :
    (stream : Bytes) (eof : Bool) (received : ℕ) (cfg : Settings) (now : ℕ) (s : Travel)
    (input : Input)
    → IsU64 s.transfer.receive_offset
    → IsU64 s.transfer.send_offset
    → s.transfer.send_acked ≤ received
    → (s.transfer.remote_eof ≡ true → eof ≡ true)
    → is_awaited s.phase input ≡ true
    → IsHonestInput stream eof received input
    → LoopKeeps (λ t effects. Advance eof received s.transfer t) Anything (step cfg now s input)
step-Advance stream eof received cfg now s input small wide low ends awaited h =
    step_cases (λ t effects. Advance eof received s.transfer t) Anything cfg now s input awaited tt
      (λ _. rest) (λ _ _ _. rest)
      (λ ev e.
        handle_event-Advance stream eof received s.transfer small wide low ends s.carriers s.active
          ev (subst (IsHonestInput stream eof received) e h))
      (λ id relay_id n race_id cs e lo hi _. record {
        receives = omega arith;
        sends = omega arith;
        acked = lo;
        stays_ended = λ e. e;
        confirmed = subst (IsHonestInput stream eof received) e h;
        ended = ends;
        closes = λ x. x;
        limited = refl;
      })
      (λ _. tt) (λ _ _. rest)
  where
    rest : Advance eof received s.transfer s.transfer
    rest = stays stream eof received s.transfer small wide low ends
