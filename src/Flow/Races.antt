-- ===== src/Flow/Races.antt =====
-- The Carrier races of crates/flowsplice-home-core/src/tcp_flow.rs.
use flowsplice_rust.Prelude.{
  ℕ, ◌+◌, ◌≤◌, ◌≡◌, refl, Bool, true, false, Bool-cases, Option-cases, inl, inr, ◌⊎◌, ◌==◌, ltb,
  List, [], ◌∷◌, ◌++◌, none, some, length, length-append, All, All-append, saturating_add, arith,
}
use flowsplice_rust.Prelude.Text.{Text}
use flowsplice_rust.Prelude.Maps.{contains_key, nat_eq, get, insert, remove, get-insert, get-remove}
use flowsplice_rust.Protocol.{
  DataFrame, Uuid, race_ack, race_duplicate, stream_data, ack, fin, fin_ack,
}
use flowsplice_rust.Flow.State.{
  Segment, Config, Flow, Answer, Event, incoming, incoming_closed, events_closed, carrier_frame,
  carrier_closed, target_data, target_ended, target_error, deadline, Effect, to_carrier,
}
use flowsplice_rust.Flow.Frames.{
  send_to, retransmit_segments, forget_races, retransmit, on_race, on_frame,
}
use flowsplice_rust.Flow.{send_active, step}
use flowsplice_rust.Flow.Cases.{
  Keeps, IsReply, selected, on_race_cases, on_data_cases, on_fin_cases, on_frame_cases,
  on_incoming_cases, on_deadline_cases, on_carrier_closed_cases, on_target_data_cases,
  on_target_ended_cases, on_ack_cases,
}

-- The race that is forgotten when another is won.
abbrev pub is_oldest : List Uuid → Uuid → Bool
is_oldest [] r = false
is_oldest (old ∷ order) r = old == r

-- A race keeps its winner, or is forgotten as the oldest of 32.
abbrev pub WinnersKept : Flow → Flow → Type 0
WinnersKept s s' =
    (r w : Uuid)
    → get s.race_winners r ≡ some w
    → (get s'.race_winners r ≡ some w)
      ⊎ ((get s'.race_winners r ≡ none)
          × (is_oldest s.race_order r ≡ true)
          × (32 ≤ length s.race_order))

-- A race is granted to a Carrier that becomes the active one, where no winner is remembered, and
-- refused in favour of the winner that is.
abbrev pub IsFair : Flow → Flow → Effect → Type 0
IsFair s s' (to_carrier id (race_ack flow_id r w)) =
    (w ≡ id) × (get s.race_winners r ≡ none) × (s'.active_carrier ≡ some w)
IsFair s s' (to_carrier id (race_duplicate flow_id r w)) = get s.race_winners r ≡ some w
IsFair s s' _ = Unit {0}

abbrev pub Fair : Flow → Flow → List Effect → Type 0
Fair s s' effects = WinnersKept s s' × All (IsFair s s') effects

kept : (s : Flow) → WinnersKept s s
kept s r w e = inl e

forget_few :
    (order : List Uuid) (winners : List (Uuid × Uuid))
    → length order ≤ 32
    → forget_races order winners ≡ (order, winners)
unfolding forget_races
forget_few [] winners h = refl
forget_few (old ∷ order) winners h = ground arith

forget_one :
    (old : Uuid) (order : List Uuid) (winners : List (Uuid × Uuid))
    → length order ≡ 32
    → forget_races (old ∷ order) winners ≡ (order, remove winners old)
unfolding forget_races
forget_one old order winners h = ground (arith, forget_few order (remove winners old))

-- What a won race leaves of the others.
select-WinnersKept :
    (order : List Uuid) (winners : List (Uuid × Uuid)) (id race_id r w : Uuid)
    → length order ≤ 32
    → get winners race_id ≡ none
    → get winners r ≡ some w
    → (get (forget_races (order ++ (race_id ∷ [])) (insert winners race_id id)).1 r ≡ some w)
      ⊎ ((get (forget_races (order ++ (race_id ∷ [])) (insert winners race_id id)).1 r ≡ none)
          × (is_oldest order r ≡ true)
          × (32 ≤ length order))
select-WinnersKept [] winners id race_id r w few new known =
    rw (forget_few (race_id ∷ []) (insert winners race_id id) (omega arith))
      (ground (arith, get-insert winners race_id r id))
select-WinnersKept (old ∷ order) winners id race_id r w few new known =
    elim (Bool-cases (ltb (length order) 31)) [
      | inl short ↦
          rw
            (forget_few ((old ∷ order) ++ (race_id ∷ [])) (insert winners race_id id)
              (ground (arith, length-append order (race_id ∷ []))))
            (inl (rw (get-insert winners race_id r id) (ground (arith, known, new))))
      | inr full ↦
          rw
            (forget_one old (order ++ (race_id ∷ [])) (insert winners race_id id)
              (ground (arith, length-append order (race_id ∷ []))))
            (rw (get-remove (insert winners race_id id) old r, get-insert winners race_id r id)
              (elim (Bool-cases (old == r)) [
                | inl oldest ↦ rw oldest (inr (refl, refl, ground arith))
                | inr other ↦ rw other (inl (ground (arith, known, new)))
              ]))
    ]

module _ (s s' : Flow) where
  send_to-IsFair :
      (cs : List (Uuid × Text)) (id : Uuid) (f : DataFrame)
      → IsFair s s' (to_carrier id f)
      → All (IsFair s s') (send_to cs id f)
  unfolding send_to
  send_to-IsFair cs id f h = elim (Bool-cases (contains_key cs id)) [
    | inl e ↦ rw (e, All) (h, tt)
    | inr e ↦ rw (e, All) tt
  ]

  IsReply-IsFair :
      (received : ℕ) (id : Uuid) (f : DataFrame)
      → IsReply received f
      → IsFair s s' (to_carrier id f)
  IsReply-IsFair received id (stream_data _ _ _) h = tt
  IsReply-IsFair received id (race_ack _ _ _) h = absurd h
  IsReply-IsFair received id (race_duplicate _ _ _) h = absurd h
  IsReply-IsFair received id _ h = tt

  retransmit_segments-IsFair :
      (cs : List (Uuid × Text)) (id flow_id : Uuid) (ss : List Segment)
      → All (IsFair s s') (retransmit_segments cs id flow_id ss)
  unfolding retransmit_segments
  retransmit_segments-IsFair cs id flow_id [] = tt
  retransmit_segments-IsFair cs id flow_id (x ∷ ss) =
      All-append (IsFair s s') (send_to cs id (stream_data flow_id x.offset x.bytes)) _
        (send_to-IsFair cs id (stream_data flow_id x.offset x.bytes) tt)
        (retransmit_segments-IsFair cs id flow_id ss)

  retransmit-IsFair :
      (cs : List (Uuid × Text)) (id flow_id : Uuid) (ss : List Segment) (eof : Bool) (n : ℕ)
      → All (IsFair s s') (retransmit cs id flow_id ss eof n)
  unfolding retransmit
  retransmit-IsFair cs id flow_id ss true n =
      All-append (IsFair s s') (retransmit_segments cs id flow_id ss)
        (send_to cs id (fin flow_id n)) (retransmit_segments-IsFair cs id flow_id ss)
        (send_to-IsFair cs id (fin flow_id n) tt)
  retransmit-IsFair cs id flow_id ss false n =
      All-append (IsFair s s') (retransmit_segments cs id flow_id ss) []
        (retransmit_segments-IsFair cs id flow_id ss) tt

  send_active-IsFair :
      (t : Flow) (f : DataFrame)
      → ((id : Uuid) → IsFair s s' (to_carrier id f))
      → All (IsFair s s') (send_active t f)
  unfolding send_active
  send_active-IsFair t f h = elim (Option-cases t.active_carrier) [
    | inl e ↦ rw (e, All, send_active) tt
    | inr (id, e) ↦ rw (e, All, send_active) (send_to-IsFair t.carriers id f (h id))
  ]

module _ (cfg : Config) (s : Flow) (few : length s.race_order ≤ 32) where
  on_race-Fair : (id race_id : Uuid) → Keeps (Fair s) (on_race cfg s id race_id)
  on_race-Fair id race_id =
      on_race_cases (Fair s) cfg s id race_id
        (λ winner e.
          (kept s, send_to-IsFair s s s.carriers id (race_duplicate cfg.flow_id race_id winner) e))
        (λ new. (
          (λ r w known.
              select-WinnersKept s.race_order s.race_winners id race_id r w few new known),
          All-append (IsFair s (won id race_id))
              (send_to s.carriers id (race_ack cfg.flow_id race_id id))
              (retransmit s.carriers id cfg.flow_id s.unacked s.target_eof s.send_offset)
              (send_to-IsFair s (won id race_id) s.carriers id (race_ack cfg.flow_id race_id id)
                (refl, new, refl))
              (retransmit-IsFair s (won id race_id) s.carriers id cfg.flow_id s.unacked s.target_eof
                s.send_offset),
        ))
    where
      won : Uuid → Uuid → Flow
      won id race_id =
          selected s id
            (forget_races (s.race_order ++ (race_id ∷ [])) (insert s.race_winners race_id id))

  on_frame-Fair :
      (id : Uuid) (frame : DataFrame) (target : Answer)
      → Keeps (Fair s) (on_frame cfg s id frame target)
  on_frame-Fair id frame target =
      on_frame_cases (Fair s) cfg s id target frame reply (on_race-Fair id)
        (λ _ offset bytes _ _.
          on_data_cases (Fair s) cfg s id offset bytes target
            (λ _ _. (
              kept s,
              (
                tt,
                (
                  tt,
                  send_to-IsFair s
                      (record s { receive_offset = saturating_add offset (length bytes) })
                      s.carriers id (ack cfg.flow_id (saturating_add offset (length bytes))) tt,
                ),
              ),
            ))
            reply)
        (λ next_offset _ _ _. on_ack_cases (Fair s) cfg s next_offset (λ _. (kept s, tt)))
        (λ _ final_offset _ _ at.
          on_fin_cases (Fair s) cfg s id final_offset target
            (λ _. reply (fin_ack cfg.flow_id final_offset) at)
            (λ _. (
              kept s,
              (
                tt,
                send_to-IsFair s (record s { travel_eof = true }) s.carriers id
                    (fin_ack cfg.flow_id final_offset) tt,
              ),
            )))
        (λ _ _ _ _ _. (kept s, tt))
    where
      reply : (f : DataFrame) → IsReply s.receive_offset f → Fair s s (send_to s.carriers id f)
      reply f h =
          (kept s, send_to-IsFair s s s.carriers id f (IsReply-IsFair s s s.receive_offset id f h))

  -- With at most 32 races remembered: in a turn that goes on a remembered race keeps its winner, or is forgotten as the oldest of 32. A
  -- Carrier is told that it won a race only if no winner of it was remembered, and it is then the
  -- active one; it is told of another winner only if that is the one remembered.
  pub step-Fair : (now : ℕ) (ev : Event) → Keeps (Fair s) (step cfg now s ev)
  unfolding step
  step-Fair now (incoming id relay_id version opened) =
      on_incoming_cases (Fair s) cfg s id relay_id version opened (kept s, tt) (kept s, (tt, tt))
  step-Fair now incoming_closed = tt
  step-Fair now events_closed = tt
  step-Fair now (carrier_frame id frame target) = on_frame-Fair id frame target
  step-Fair now (carrier_closed id) =
      on_carrier_closed_cases (Fair s) cfg s now id (kept s, tt) (kept s, tt)
  step-Fair now (target_data bytes) = on_target_data_cases (Fair s) cfg s bytes λ _. (
    kept s,
    (
      tt,
      send_active-IsFair s
          (record s {
            send_offset = saturating_add s.send_offset (length bytes);
            unacked_bytes = s.unacked_bytes + length bytes;
            unacked = s.unacked ++ (record { offset = s.send_offset; bytes = bytes } ∷ []);
          })
          s (stream_data cfg.flow_id s.send_offset bytes) (λ _. tt),
    ),
  )
  step-Fair now target_ended = on_target_ended_cases (Fair s) cfg s (
    kept s,
    send_active-IsFair s (record s { target_eof = true }) s (fin cfg.flow_id s.send_offset)
        (λ _. tt),
  )
  step-Fair now target_error = tt
  step-Fair now deadline = on_deadline_cases (Fair s) cfg s now (kept s, tt)
