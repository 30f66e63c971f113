-- ===== src/Flow/Download.antt =====
-- Home to Travel in crates/flowsplice-home-core/src/tcp_flow.rs: what is sent and kept for sending.
use flowsplice_rust.Prelude.{
  ℕ, ◌≤◌, Bool, true, refl, Option-cases, inl, inr, List, [], ◌++◌, append-nil, length, All,
  All-append, IsU64, saturating_add, arith,
}
use flowsplice_rust.Prelude.Bytes.{Bytes}
use flowsplice_rust.Prelude.Maps.{nat_eq}
use flowsplice_rust.Protocol.{
  DataFrame, Uuid, race_ack, race_duplicate, stream_data, ack, fin, fin_ack,
}
use flowsplice_rust.Flow.State.{
  Config, Flow, Answer, Event, incoming, incoming_closed, events_closed, carrier_frame,
  carrier_closed, target_data, target_ended, target_error, deadline, Effect,
}
use flowsplice_rust.Flow.Frames.{send_to, retransmit, on_ack, on_frame}
use flowsplice_rust.Flow.{on_target_data, send_active, step}
use flowsplice_rust.Flow.Cases.{
  Keeps, on_race_cases, on_data_cases, on_fin_cases, on_frame_cases, on_incoming_cases,
  on_deadline_cases, on_carrier_closed_cases, on_target_data_cases, on_target_ended_cases,
  on_ack_cases,
}
use flowsplice_rust.Flow.Invariant.{IsValid}
use flowsplice_rust.Flow.Queue.{
  IsReply-IsTruthful, IsTruthful, IsSound, Kept, send_to-IsSound, retransmit-IsSound,
  pop_acked-Kept, snoc-Kept, snoc-IsSlice,
}

abbrev pub IsKept : Bytes → Flow → Type 0
IsKept produced s = Kept produced s.send_acked s.unacked s.send_offset

-- What an event adds to the target's output.
abbrev pub output : Event → Bytes
output (target_data bytes) = bytes
output _ = []

-- What is sent is true of the state after the turn.
abbrev pub Sound : Bytes → Flow → List Effect → Type 0
Sound produced s effects =
    IsKept produced s × All (IsSound produced s.target_eof s.receive_offset) effects

send_active-IsSound :
    (produced : Bytes) (eof : Bool) (received : ℕ) (s : Flow) (f : DataFrame)
    → IsTruthful produced eof received f
    → All (IsSound produced eof received) (send_active s f)
unfolding send_active
send_active-IsSound produced eof received s f h = elim (Option-cases s.active_carrier) [
  | inl e ↦ rw (e, All, send_active) tt
  | inr (id, e) ↦ rw (e, All, send_active) (send_to-IsSound produced eof received s.carriers id f h)
]

module _ (produced : Bytes) (fits : IsU64 (length produced)) (cfg : Config) (s : Flow)
    (v : IsValid cfg s) (k : IsKept produced s) where
  on_ack-Sound :
      (next_offset : ℕ)
      → s.send_acked ≤ next_offset
      → next_offset ≤ s.send_offset
      → Keeps (Sound produced) (on_ack s next_offset)
  on_ack-Sound next_offset lo hi = on_ack_cases (Sound produced) cfg s next_offset λ whole. (
    pop_acked-Kept produced fits s.send_acked s.unacked s.send_offset v.acked_range v.chain k
        next_offset s.unacked_bytes lo hi whole,
    tt,
  )

  on_frame-Sound :
      (id : Uuid) (frame : DataFrame) (target : Answer)
      → Keeps (Sound produced) (on_frame cfg s id frame target)
  on_frame-Sound id frame target =
      on_frame_cases (Sound produced) cfg s id target frame
        (λ f r. reply f (IsReply-IsTruthful produced s.target_eof s.receive_offset f r))
        (λ race_id.
          on_race_cases (Sound produced) cfg s id race_id
            (λ winner _. reply (race_duplicate _ _ _) tt)
            (λ _. (
              k,
              All-append (IsSound produced s.target_eof s.receive_offset)
                  (send_to s.carriers id (race_ack cfg.flow_id race_id id))
                  (retransmit s.carriers id cfg.flow_id s.unacked s.target_eof s.send_offset)
                  (send_to-IsSound produced s.target_eof s.receive_offset s.carriers id
                    (race_ack cfg.flow_id race_id id) tt)
                  (retransmit-IsSound produced fits s.send_acked s.unacked s.send_offset
                    v.acked_range v.chain k s.target_eof s.receive_offset s.carriers id
                    cfg.flow_id),
            )))
        (λ _ offset bytes _ _.
          on_data_cases (Sound produced) cfg s id offset bytes target
            (λ _ _. (
              k,
              (
                tt,
                (
                  tt,
                  send_to-IsSound produced s.target_eof (saturating_add offset (length bytes))
                      s.carriers id (ack cfg.flow_id (saturating_add offset (length bytes)))
                      (omega arith),
                ),
              ),
            ))
            (λ f r. reply f (IsReply-IsTruthful produced s.target_eof s.receive_offset f r)))
        (λ next_offset _ lo hi. on_ack-Sound next_offset lo hi)
        (λ _ final_offset _ _ at.
          on_fin_cases (Sound produced) cfg s id final_offset target
            (λ _. reply (fin_ack cfg.flow_id final_offset) (omega (arith, at)))
            (λ _. (
              k,
              (
                tt,
                send_to-IsSound produced s.target_eof s.receive_offset s.carriers id
                    (fin_ack cfg.flow_id final_offset) (omega (arith, at)),
              ),
            )))
        (λ _ _ _ _ _. (k, tt))
    where
      reply :
          (f : DataFrame)
          → IsTruthful produced s.target_eof s.receive_offset f
          → Sound produced s (send_to s.carriers id f)
      reply f h = (k, send_to-IsSound produced s.target_eof s.receive_offset s.carriers id f h)

on_target_data-Sound :
    (produced bytes : Bytes) (cfg : Config) (s : Flow)
    → IsU64 (length (produced ++ bytes))
    → IsValid cfg s
    → IsKept produced s
    → Keeps (Sound (produced ++ bytes)) (on_target_data cfg s bytes)
on_target_data-Sound produced bytes cfg s fits v k =
    on_target_data_cases (Sound (produced ++ bytes)) cfg s bytes λ _. (
      snoc-Kept produced bytes fits s.send_acked s.unacked s.send_offset v.acked_range v.chain k,
      (
        tt,
        send_active-IsSound (produced ++ bytes) s.target_eof s.receive_offset s
            (stream_data cfg.flow_id s.send_offset bytes)
            (snoc-IsSlice produced bytes fits s.send_acked s.unacked s.send_offset v.acked_range
              v.chain k),
      ),
    )

-- In a flow with its invariant, every turn that goes on keeps all output of the target from the
-- acknowledged offset on, for sending again, and what it sends, for the first time or again after a
-- race, is true: stream bytes are the output's at the frame's offset, an end of the stream is sent
-- after the output ended and at its length, and no receipt is confirmed beyond the receive offset.
-- The output, with what the event adds to it, stays within u64.
pub step-Sound :
    (produced : Bytes) (cfg : Config) (now : ℕ) (s : Flow) (ev : Event)
    → IsU64 (length (produced ++ output ev))
    → IsValid cfg s
    → IsKept produced s
    → Keeps (Sound (produced ++ output ev)) (step cfg now s ev)
unfolding step
step-Sound produced cfg now s (target_data bytes) fits v k =
    on_target_data-Sound produced bytes cfg s fits v k
step-Sound produced cfg now s (incoming id relay_id version opened) fits v k =
    rw (append-nil produced) (
      on_incoming_cases (Sound produced) cfg s id relay_id version opened (k, tt)
        (k, (omega arith, tt)))
step-Sound produced cfg now s incoming_closed fits v k = tt
step-Sound produced cfg now s events_closed fits v k = tt
step-Sound produced cfg now s (carrier_frame id frame target) fits v k =
    rw (append-nil produced)
      (on_frame-Sound produced (rw (append-nil produced) at fits) cfg s v k id frame target)
step-Sound produced cfg now s (carrier_closed id) fits v k =
    rw (append-nil produced) (on_carrier_closed_cases (Sound produced) cfg s now id (k, tt) (k, tt))
step-Sound produced cfg now s target_ended fits v k = rw (append-nil produced) (
    on_target_ended_cases (Sound produced) cfg s (
      k,
      send_active-IsSound produced true s.receive_offset s (fin cfg.flow_id s.send_offset)
          (refl, k.counted),
    ))
step-Sound produced cfg now s target_error fits v k = tt
step-Sound produced cfg now s deadline fits v k =
    rw (append-nil produced) (on_deadline_cases (Sound produced) cfg s now (k, tt))
