-- ===== src/EndToEnd/Delivery.antt =====
-- What the two ends of a TCP flow deliver (crates/flowsplice-home-core/src/tcp_flow.rs,
-- crates/flowsplice-travel-core/src/tcp_flow.rs).
use flowsplice_rust.Prelude.{
  ℕ, ◌-◌, ◌≤◌, ◌<◌, ◌≡◌, ap, ◌∙◌, subst, ◌⊎◌, inl, inr, true, List, ◌++◌, arith, length, is_empty,
  take, drop, take-append-drop, drop-drop, take_all, is_empty-eq, u64_max,
}
use flowsplice_rust.Prelude.Bytes.{Bytes}
use flowsplice_rust.Prelude.Maps.{nat_eq}
use flowsplice_rust.Flow.State.{Config}
use flowsplice_rust.Flow as Home_loop
use flowsplice_rust.Flow.State.{Segment}
use flowsplice_rust.Flow.Ack.{Chain, payload}
use flowsplice_rust.Travel.State.{Transfer}
use flowsplice_rust.Travel.Racing.{Settings}
use flowsplice_rust.Travel as Travel_loop
use flowsplice_rust.EndToEnd.{System, Reachable}
use flowsplice_rust.EndToEnd.Invariant.{Agrees, Reachable-Agrees}

-- A stream is what its receiver was given and what the sender's queue holds beyond.
rejoin :
    (stream got rest : Bytes) (received acked : ℕ)
    → got ≡ take received stream
    → rest ≡ drop acked stream
    → acked ≤ received
    → got ++ drop (received - acked) rest ≡ stream
rejoin stream got rest received acked front back le =
    ap (λ g. g ++ drop (received - acked) rest) front
    ∙ ap (λ r. take received stream ++ drop (received - acked) r) back
    ∙ ap (◌++◌ (take received stream))
        (drop-drop (received - acked) acked stream ∙ ap (λ n. drop n stream) (omega (arith, le)))
    ∙ take-append-drop received stream

-- Without a segment all is acknowledged.
emptied :
    (unacked : List Segment) (acked end : ℕ)
    → is_empty unacked ≡ true
    → Chain acked unacked end
    → acked ≡ end
emptied unacked acked end e c = subst (λ ss. Chain acked ss end) (is_empty-eq unacked e) c

module _ (cfg : Config) (set : Settings) (limit : ℕ) (room : cfg.max_unacked_bytes < u64_max)
    (limited : limit < u64_max) (y : System) (reached : Reachable cfg set limit y) where
  abbrev transfer : Transfer
  transfer = y.travel.transfer

  agrees : Agrees cfg limit y
  agrees = Reachable-Agrees cfg set limit room limited y reached

  -- Whatever the Carriers lose, repeat or reorder, no byte of either stream is lost, repeated or moved:
  -- what an end's connection was given, followed by what the other end's queue holds beyond the receive
  -- offset, is exactly what the other connection has produced. The limits of the two queues are below
  -- `usize::MAX`.
  pub Reachable-conserves :
      (y.at_target ++ drop (y.home.receive_offset - transfer.send_acked) (payload transfer.unacked)
        ≡ y.up)
      × (y.at_local ++ drop (transfer.receive_offset - y.home.send_acked) (payload y.home.unacked)
          ≡ y.down)
  Reachable-conserves = (
    rejoin y.up y.at_target (payload transfer.unacked) y.home.receive_offset transfer.send_acked
        agrees.target_has.prefix agrees.travel_sending.kept.kept agrees.travel_acked,
    rejoin y.down y.at_local (payload y.home.unacked) transfer.receive_offset y.home.send_acked
        agrees.local_has.prefix agrees.home_kept.kept agrees.home_acked,
  )

  target_all : length y.up ≤ y.home.receive_offset → y.at_target ≡ y.up
  target_all h = agrees.target_has.prefix ∙ take_all y.home.receive_offset y.up h

  local_all : length y.down ≤ transfer.receive_offset → y.at_local ≡ y.down
  local_all h = agrees.local_has.prefix ∙ take_all transfer.receive_offset y.down h

  Everything : Type 0
  Everything =
      (y.at_target ≡ y.up)
      × (y.at_local ≡ y.down)
      × (transfer.local_eof ≡ true)
      × (y.home.target_eof ≡ true)

  home_complete : Home_loop.is_complete y.home ≡ true → Everything
  unfolding Home_loop.is_complete Everything
  home_complete c =
      let all_acked : y.home.send_acked ≡ y.home.send_offset =
        emptied y.home.unacked y.home.send_acked y.home.send_offset (ground (arith, c))
          agrees.home_valid.chain in
      (
        target_all (omega (arith, agrees.target_has.whole (ground (arith, c)))),
        local_all (omega (arith, all_acked, agrees.home_kept.counted, agrees.home_acked)),
        agrees.home_ended (ground (arith, c)),
        ground (arith, c),
      )

  travel_complete : Travel_loop.is_complete transfer ≡ true → Everything
  unfolding Travel_loop.is_complete Everything
  travel_complete c =
      let all_acked : transfer.send_acked ≡ transfer.send_offset =
        emptied transfer.unacked transfer.send_acked transfer.send_offset (ground (arith, c))
          agrees.travel_sending.chain in
      (
        target_all
            (omega (arith, all_acked, agrees.travel_sending.kept.counted, agrees.travel_acked)),
        local_all (omega (arith, agrees.local_has.whole (ground (arith, c)))),
        ground (arith, c),
        agrees.travel_ended (ground (arith, c)),
      )

  -- When one of the two ends completes, either, both connections were given all that the other has
  -- produced, and both streams had ended. The limits of the two queues are below `usize::MAX`.
  pub complete-Reachable :
      (Home_loop.is_complete y.home ≡ true) ⊎ (Travel_loop.is_complete transfer ≡ true)
      → (y.at_target ≡ y.up)
        × (y.at_local ≡ y.down)
        × (transfer.local_eof ≡ true)
        × (y.home.target_eof ≡ true)
  unfolding Everything
  complete-Reachable (inl c) = home_complete c
  complete-Reachable (inr c) = travel_complete c
