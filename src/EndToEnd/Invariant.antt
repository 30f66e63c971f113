-- ===== src/EndToEnd/Invariant.antt =====
-- What holds between the two ends of a TCP flow at any time (crates/flowsplice-home-core/src/tcp_flow.rs,
-- crates/flowsplice-travel-core/src/tcp_flow.rs).
use flowsplice_rust.Prelude.{
  ℕ, ◌≤◌, ◌<◌, ◌≡◌, refl, ◌∙◌, subst, Bool, true, List, [], ◌∷◌, ◌++◌, arith, length, All,
  All-append, Member, here, there, ok, u64_max, IsU64,
}
use flowsplice_rust.Prelude.Bytes.{Bytes}
use flowsplice_rust.Prelude.Maps.{nat_eq}
use flowsplice_rust.Protocol.{DataFrame, open_ok, stream_data, fin}
use flowsplice_rust.Flow.State.{
  Config, Flow, travel_closed, Effect, to_carrier, to_target, shutdown_target, record_metric, Event,
  incoming, incoming_closed, events_closed, carrier_frame, carrier_closed, target_data,
  target_ended, target_error, deadline, start,
}
use flowsplice_rust.Flow.{step}
use flowsplice_rust.Flow.Receive.{Delivered, Delivered-append}
use flowsplice_rust.Flow.Queue.{IsTruthful, IsSound, IsTruthful-append}
use flowsplice_rust.Flow.Cases.{Keeps}
use flowsplice_rust.Flow.Invariant.{IsValid, Valid, start-IsValid, step-IsValid}
use flowsplice_rust.Flow.Upload.{Honest, HonestFrame, After, step-Delivered}
use flowsplice_rust.Flow.Download.{IsKept, Sound, output, step-Sound}
use flowsplice_rust.Flow.Advance.{Advance, IsHonest, step-Advance}
use flowsplice_rust.Travel.State.{Transfer}
use flowsplice_rust.Travel.State as Local
use flowsplice_rust.Travel.Racing.{Settings, Travel}
use flowsplice_rust.Travel.{
  Input, loop_head, event, opened, open_failed, is_awaited, events_closed as travel_closed,
  time_passed, step as travel_step, begin,
}
use flowsplice_rust.Travel.Sends.{IsSending, Sends, loop_output, Anything, step-Sends}
use flowsplice_rust.Travel.Steps.{LoopKeeps}
use flowsplice_rust.Travel.Receives.{Receives, IsHonestInput, step-Receives}
use flowsplice_rust.Travel.Advance as Travel_Advance
use flowsplice_rust.EndToEnd.{
  System, frames, Arrives, ArrivesAtTravel, IsRead, after_home, after_travel, Move, home_moves,
  travel_moves, initial, Reachable, started, turned,
}

pub record Agrees (cfg : Config) (limit : ℕ) (y : System) : Type 0 where
  pub home_valid : IsValid cfg y.home
  pub home_kept : IsKept y.down y.home
  pub travel_sending : IsSending y.up y.travel.transfer
  pub travel_limit : y.travel.transfer.max_unacked_bytes ≡ limit
  -- The connections have prefixes of the streams.
  pub target_has : Delivered y.up y.at_target y.home.receive_offset y.home.travel_eof
  pub local_has :
      Delivered y.down y.at_local y.travel.transfer.receive_offset y.travel.transfer.remote_eof
  -- What the frames that were ever sent tell of a stream or a receipt is still true of their sender.
  pub up_frames :
      All (IsTruthful y.up y.travel.transfer.local_eof y.travel.transfer.receive_offset) y.to_home
  pub down_frames : All (IsTruthful y.down y.home.target_eof y.home.receive_offset) y.to_travel
  -- No end takes for received or ended what the other has not received or ended.
  pub home_acked : y.home.send_acked ≤ y.travel.transfer.receive_offset
  pub travel_acked : y.travel.transfer.send_acked ≤ y.home.receive_offset
  pub home_ended : y.home.travel_eof ≡ true → y.travel.transfer.local_eof ≡ true
  pub travel_ended : y.travel.transfer.remote_eof ≡ true → y.home.target_eof ≡ true
  pub up_fits : IsU64 (length y.up)
  pub down_fits : IsU64 (length y.down)

frames-All :
    (produced : Bytes) (eof : Bool) (received : ℕ) (es : List Effect)
    → All (IsSound produced eof received) es
    → All (IsTruthful produced eof received) (frames es)
frames-All produced eof received [] h = tt
frames-All produced eof received (to_carrier id frame ∷ es) h =
    (h.0, frames-All produced eof received es h.1)
frames-All produced eof received (to_target _ ∷ es) h = frames-All produced eof received es h.1
frames-All produced eof received (shutdown_target ∷ es) h = frames-All produced eof received es h.1
frames-All produced eof received (record_metric _ _ _ ∷ es) h =
    frames-All produced eof received es h.1

All-map :
    (P Q : DataFrame → Type 0) (fs : List DataFrame)
    → ((f : DataFrame) → P f → Q f)
    → All P fs
    → All Q fs
All-map P Q [] step h = tt
All-map P Q (f ∷ fs) step h = (step f h.0, All-map P Q fs step h.1)

All-Member :
    (P : DataFrame → Type 0) (fs : List DataFrame) (f : DataFrame) → All P fs → Member f fs → P f
All-Member P [] f h m = elim m [ ]
All-Member P (g ∷ fs) f h here = h.0
All-Member P (g ∷ fs) f h (there m) = All-Member P fs f h.1 m

-- What arrives was sent, so it is true of the other end.
arrival-Honest :
    (stream : Bytes) (eof : Bool) (received : ℕ) (sent : List DataFrame) (ev : Event)
    → All (IsTruthful stream eof received) sent
    → Arrives sent ev
    → IsHonest stream eof received ev
arrival-Honest stream eof received sent (carrier_frame id frame target) h m =
    All-Member (IsTruthful stream eof received) sent frame h m
arrival-Honest stream eof received sent (incoming _ _ _ _) h m = tt
arrival-Honest stream eof received sent incoming_closed h m = tt
arrival-Honest stream eof received sent events_closed h m = tt
arrival-Honest stream eof received sent (carrier_closed _) h m = tt
arrival-Honest stream eof received sent (target_data _) h m = tt
arrival-Honest stream eof received sent target_ended h m = tt
arrival-Honest stream eof received sent target_error h m = tt
arrival-Honest stream eof received sent deadline h m = tt

input-Honest :
    (stream : Bytes) (eof : Bool) (received : ℕ) (sent : List DataFrame) (input : Input)
    → All (IsTruthful stream eof received) sent
    → ArrivesAtTravel sent input
    → IsHonestInput stream eof received input
input-Honest stream eof received sent (event (Local.carrier_frame id frame writes closing)) h m =
    All-Member (IsTruthful stream eof received) sent frame h m
input-Honest stream eof received sent (event (Local.local_data _)) h m = tt
input-Honest stream eof received sent (event Local.local_eof) h m = tt
input-Honest stream eof received sent (event Local.local_error) h m = tt
input-Honest stream eof received sent (event (Local.carrier_closed _)) h m = tt
input-Honest stream eof received sent (opened id relay_id n) h (f, (c, (k, (v, m)))) =
    All-Member (IsTruthful stream eof received) sent (open_ok f c n k v) h m
input-Honest stream eof received sent (loop_head _ _ _) h m = tt
input-Honest stream eof received sent open_failed h m = tt
input-Honest stream eof received sent travel_closed h m = tt
input-Honest stream eof received sent time_passed h m = tt

frame-HonestFrame :
    (cfg : Config) (stream : Bytes) (eof : Bool) (received : ℕ) (f : DataFrame)
    → IsTruthful stream eof received f
    → HonestFrame cfg stream f
frame-HonestFrame cfg stream eof received (stream_data _ _ _) h = λ _. h
frame-HonestFrame cfg stream eof received (fin _ _) h = λ _. h.1
frame-HonestFrame cfg stream eof received _ h = tt

event-Honest :
    (cfg : Config) (stream : Bytes) (eof : Bool) (received now : ℕ) (ev : Event)
    → IsHonest stream eof received ev
    → Honest cfg stream (now, ev)
event-Honest cfg stream eof received now (carrier_frame id frame target) h =
    frame-HonestFrame cfg stream eof received frame h
event-Honest cfg stream eof received now _ h = tt

module _ (cfg : Config) (set : Settings) (limit : ℕ) (room : cfg.max_unacked_bytes < u64_max)
    (limited : limit < u64_max) (y : System) (g : Agrees cfg limit y) where
  home_moves-Agrees :
      (now : ℕ) (ev : Event) (home : Flow) (effects : List Effect)
      → Arrives y.to_home ev
      → IsRead y.down y.home.target_eof (output ev)
      → step cfg now y.home ev ≡ ok (home, effects)
      → Agrees cfg limit (after_home y ev home effects)
  home_moves-Agrees now ev home effects arrives (ended, fits) e =
      let honest =
        arrival-Honest y.up y.travel.transfer.local_eof y.travel.transfer.receive_offset y.to_home
          ev g.up_frames arrives in
      let valid : IsValid cfg home =
        subst (Keeps (Valid cfg)) e (step-IsValid cfg now y.home ev room g.home_valid) in
      let sound : Sound (y.down ++ output ev) home effects =
        subst (Keeps (Sound (y.down ++ output ev))) e
          (step-Sound y.down cfg now y.home ev fits g.home_valid g.home_kept) in
      let given : After cfg y.up g.up_fits y.at_target home effects =
        subst (Keeps (After cfg y.up g.up_fits y.at_target)) e (
          step-Delivered cfg y.up g.up_fits y.at_target now y.home ev g.target_has (
            event-Honest cfg y.up y.travel.transfer.local_eof y.travel.transfer.receive_offset now
              ev honest)) in
      let moved : Advance y.travel.transfer.local_eof y.travel.transfer.receive_offset y.home home =
        subst
          (Keeps
            (λ s _. Advance y.travel.transfer.local_eof y.travel.transfer.receive_offset y.home s))
          e
          (step-Advance y.up y.travel.transfer.local_eof y.travel.transfer.receive_offset cfg y.home
            (omega (arith, g.target_has.within, g.up_fits)) g.home_acked g.home_ended now ev
            honest) in
      record {
        home_valid = valid;
        home_kept = sound.0;
        travel_sending = g.travel_sending;
        travel_limit = g.travel_limit;
        target_has = given;
        local_has =
            Delivered-append y.down (output ev) y.at_local y.travel.transfer.receive_offset
              y.travel.transfer.remote_eof (λ r. ended (g.travel_ended r)) g.local_has;
        up_frames = g.up_frames;
        down_frames =
            All-append (IsTruthful (y.down ++ output ev) home.target_eof home.receive_offset)
              y.to_travel (frames effects)
              (All-map (IsTruthful y.down y.home.target_eof y.home.receive_offset)
                (IsTruthful (y.down ++ output ev) home.target_eof home.receive_offset) y.to_travel
                (λ f.
                  IsTruthful-append y.down (output ev) y.home.target_eof home.target_eof
                    y.home.receive_offset home.receive_offset f ended moved.closes moved.receives)
                g.down_frames)
              (frames-All (y.down ++ output ev) home.target_eof home.receive_offset effects
                sound.1);
        home_acked = moved.confirmed;
        travel_acked = omega (arith, g.travel_acked, moved.receives);
        home_ended = moved.ended;
        travel_ended = λ r. moved.closes (g.travel_ended r);
        up_fits = g.up_fits;
        down_fits = fits;
      }

  travel_moves-Agrees :
      (now : ℕ) (input : Input) (travel : Travel) (effects : List Effect)
      → ArrivesAtTravel y.to_travel input
      → is_awaited y.travel.phase input ≡ true
      → IsRead y.up y.travel.transfer.local_eof (loop_output input)
      → travel_step set now y.travel input ≡ ok (travel, effects)
      → Agrees cfg limit (after_travel y input travel effects)
  travel_moves-Agrees now input travel effects arrives awaited (ended, fits) e =
      let t = y.travel.transfer in
      let honest =
        input-Honest y.down y.home.target_eof y.home.receive_offset y.to_travel input g.down_frames
          arrives in
      let sends : Sends (y.up ++ loop_output input) travel.transfer effects =
        subst (LoopKeeps (Sends (y.up ++ loop_output input)) Anything) e (
          step-Sends y.up set now y.travel input fits (omega (arith, g.travel_limit, limited))
            awaited g.travel_sending) in
      let given : Receives y.down g.down_fits y.at_local travel.transfer effects =
        subst
          (LoopKeeps (Receives y.down g.down_fits y.at_local)
            (Receives y.down g.down_fits y.at_local))
          e
          (step-Receives y.down g.down_fits y.at_local y.home.target_eof y.home.receive_offset set
            now y.travel input awaited g.local_has honest) in
      let moved : Travel_Advance.Advance y.home.target_eof y.home.receive_offset t travel.transfer =
        subst
          (LoopKeeps (λ t' _. Travel_Advance.Advance y.home.target_eof y.home.receive_offset t t')
            Anything)
          e
          (Travel_Advance.step-Advance y.down y.home.target_eof y.home.receive_offset set now
            y.travel input (omega (arith, g.local_has.within, g.down_fits))
            (omega (arith, g.travel_sending.kept.counted, g.up_fits)) g.travel_acked g.travel_ended
            awaited honest) in
      record {
        home_valid = g.home_valid;
        home_kept = g.home_kept;
        travel_sending = sends.0;
        travel_limit = moved.limited ∙ g.travel_limit;
        target_has =
            Delivered-append y.up (loop_output input) y.at_target y.home.receive_offset
              y.home.travel_eof (λ r. ended (g.home_ended r)) g.target_has;
        local_has = given;
        up_frames =
            All-append
              (IsTruthful (y.up ++ loop_output input) travel.transfer.local_eof
                travel.transfer.receive_offset)
              y.to_home (frames effects)
              (All-map (IsTruthful y.up t.local_eof t.receive_offset)
                (IsTruthful (y.up ++ loop_output input) travel.transfer.local_eof
                  travel.transfer.receive_offset)
                y.to_home
                (λ f.
                  IsTruthful-append y.up (loop_output input) t.local_eof travel.transfer.local_eof
                    t.receive_offset travel.transfer.receive_offset f ended moved.closes
                    moved.receives)
                g.up_frames)
              (frames-All (y.up ++ loop_output input) travel.transfer.local_eof
                travel.transfer.receive_offset effects sends.1);
        down_frames = g.down_frames;
        home_acked = omega (arith, g.home_acked, moved.receives);
        travel_acked = moved.confirmed;
        home_ended = λ r. moved.closes (g.home_ended r);
        travel_ended = moved.ended;
        up_fits = fits;
        down_fits = g.down_fits;
      }

Move-Agrees :
    (cfg : Config) (set : Settings) (limit : ℕ)
    → cfg.max_unacked_bytes < u64_max
    → limit < u64_max
    → (y z : System) → Move cfg set y z
    → Agrees cfg limit y
    → Agrees cfg limit z
Move-Agrees cfg set limit room limited y _ (home_moves _ now ev home effects arrives read e) g =
    home_moves-Agrees cfg set limit room limited y g now ev home effects arrives read e
Move-Agrees cfg set limit room limited y _
      (travel_moves _ now input travel effects arrives awaited read e) g =
    travel_moves-Agrees cfg set limit room limited y g now input travel effects arrives awaited read
      e

initial-Agrees :
    (cfg : Config) (set : Settings) (limit now : ℕ) → Agrees cfg limit (initial cfg set now limit)
unfolding start Local.start begin
initial-Agrees cfg set limit now = record {
  home_valid = start-IsValid cfg now;
  home_kept = record { counted = refl; kept = refl };
  travel_sending = record {
    chain = refl;
    acked_range = omega arith;
    counted = refl;
    bounded = omega arith;
    kept = record { counted = refl; kept = refl };
  };
  travel_limit = refl;
  target_has = record {
    prefix = refl;
    within = omega arith;
    whole = λ e. absurd (ground (arith, e));
  };
  local_has = record {
    prefix = refl;
    within = omega arith;
    whole = λ e. absurd (ground (arith, e));
  };
  up_frames = tt;
  down_frames = tt;
  home_acked = omega arith;
  travel_acked = omega arith;
  home_ended = λ e. absurd (ground (arith, e));
  travel_ended = λ e. absurd (ground (arith, e));
  up_fits = omega arith;
  down_fits = omega arith;
}

-- Whatever the Carriers lose, repeat or reorder, at any time: each end keeps its own invariant and
-- its connection has the other's stream up to its receive offset. Of all frames that were ever sent,
-- the data are pieces of the sender's stream at their offsets, an end of the stream is at its length
-- and the stream has ended, and no `Ack`, `Duplicate`, `FinAck` or `OpenOk` tells of more received bytes
-- than its sender has. No end takes for received or ended what the other has not received or ended. The limits
-- of the two queues are below `usize::MAX`.
pub Reachable-Agrees :
    (cfg : Config) (set : Settings) (limit : ℕ)
    → cfg.max_unacked_bytes < u64_max
    → limit < u64_max
    → (y : System) → Reachable cfg set limit y
    → Agrees cfg limit y
Reachable-Agrees cfg set limit room limited _ (started now) = initial-Agrees cfg set limit now
Reachable-Agrees cfg set limit room limited _ (turned y z reached move) =
    Move-Agrees cfg set limit room limited y z move
      (Reachable-Agrees cfg set limit room limited y reached)
