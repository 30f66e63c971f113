-- ===== src/Flow/Cases.antt =====
-- Case rules for the turns of crates/flowsplice-home-core/src/tcp_flow.rs: a property of the state and
-- effects that a turn ends in, from the property of each branch.
use flowsplice_rust.Prelude.{
  ℕ, ◌+◌, ◌≤◌, ◌≡◌, refl, Bool, true, false, ◌&&◌, Bool-cases, Option-cases, inl, inr, List, [],
  ◌∷◌, ◌++◌, ok, err, none, some, ltb, leb, ◌==◌, length, saturating_add, if◌then◌else◌, arith,
}
use flowsplice_rust.Prelude.Bytes.{Bytes}
use flowsplice_rust.Prelude.Text.{Text}
use flowsplice_rust.Prelude.Maps.{get, remove, insert, nat_eq, contains_key}
use flowsplice_rust.Protocol.{
  DataFrame, Uuid, open_ok, race, race_ack, race_duplicate, stream_data, ack, duplicate, fin,
  fin_ack, close,
}
use flowsplice_rust.Flow.State.{
  Config, Flow, Answer, done, failed, timed_out, Turn, Effect, to_carrier, to_target,
  shutdown_target, record_metric, delivered_upload_bytes, download_observed_bytes,
}
use flowsplice_rust.Flow.Frames.{
  acknowledge, pop_acked, splits, forget_races, select_carrier, on_race, on_data, deliver, on_ack,
  on_fin, on_frame, invalid_frame, send_to, retransmit, is_active,
}
use flowsplice_rust.Flow.{
  on_incoming, on_carrier_closed, on_target_data, on_target_ended, on_deadline, send_active,
  active_relay,
}

-- A turn that goes on ends in a state and effects with the property.
abbrev pub Keeps : (Flow → List Effect → Type 0) → Turn → Type 0
Keeps Q (ok (s, effects)) = Q s effects
Keeps Q (err e) = Unit {0}

-- A frame that carries nothing of the stream and answers no race; if it tells what was received, it is
-- that much.
abbrev pub IsReply : ℕ → DataFrame → Type 0
IsReply received (stream_data flow_id offset bytes) = ⊥
IsReply received (fin flow_id final_offset) = ⊥
IsReply received (race_ack flow_id race_id winner) = ⊥
IsReply received (race_duplicate flow_id race_id winner) = ⊥
IsReply received (ack flow_id next_offset) = ⊥
IsReply received (open_ok flow_id carrier_id receive_offset send_offset version) = ⊥
IsReply received (duplicate flow_id next_offset winner) = next_offset ≡ received
IsReply received (fin_ack flow_id final_offset) = final_offset ≡ received
IsReply received _ = Unit {0}

-- The frame acknowledges so much of this flow.
abbrev pub Acknowledges : DataFrame → Uuid → ℕ → Type 0
Acknowledges (ack flow_id next_offset) f n = (flow_id ≡ f) × (next_offset ≡ n)
Acknowledges (duplicate flow_id next_offset winner) f n = (flow_id ≡ f) × (next_offset ≡ n)
Acknowledges _ f n = ⊥

-- What a newly selected Carrier changes.
abbrev pub selected : Flow → Uuid → List Uuid × List (Uuid × Uuid) → Flow
selected s id (order, winners) = record s {
  race_winners = winners;
  race_order = order;
  active_carrier = some id;
  selected_once = true;
  detached_deadline = none;
}

pub Keeps-if :
    (Q : Flow → List Effect → Type 0) (b : Bool) (t e : Turn)
    → (b ≡ true → Keeps Q t)
    → (b ≡ false → Keeps Q e)
    → Keeps Q (if b then t else e)
Keeps-if Q true t e f g = f refl
Keeps-if Q false t e f g = g refl

module _ (Q : Flow → List Effect → Type 0) (cfg : Config) (s : Flow) where
  pub on_race_cases :
      (id race_id : Uuid)
      → ((winner : Uuid)
          → get s.race_winners race_id ≡ some winner
          → Q s (send_to s.carriers id (race_duplicate cfg.flow_id race_id winner)))
      → (get s.race_winners race_id ≡ none
          → Q
              (selected s id
                (forget_races (s.race_order ++ (race_id ∷ [])) (insert s.race_winners race_id id)))
              (send_to s.carriers id (race_ack cfg.flow_id race_id id)
                ++ retransmit s.carriers id cfg.flow_id s.unacked s.target_eof s.send_offset))
      → Keeps Q (on_race cfg s id race_id)
  unfolding on_race select_carrier
  on_race_cases id race_id known new = elim (Option-cases (get s.race_winners race_id)) [
    | inl e ↦ rw (e, Keeps, on_race) (new e)
    | inr (winner, e) ↦ rw (e, Keeps, on_race) (known winner e)
  ]

  pub on_data_cases :
      (id : Uuid) (offset : ℕ) (bytes : Bytes) (target : Answer)
      → (offset ≡ s.receive_offset
          → is_active s id ≡ true
          → Q
              (record s { receive_offset = saturating_add offset (length bytes) })
              (to_target bytes
                ∷ (record_metric (get s.carriers id) delivered_upload_bytes (length bytes)
                    ∷ send_to s.carriers id
                        (ack cfg.flow_id (saturating_add offset (length bytes))))))
      → ((f : DataFrame) → IsReply s.receive_offset f → Q s (send_to s.carriers id f))
      → Keeps Q (on_data cfg s id offset bytes target)
  unfolding on_data
  on_data_cases id offset bytes target accept reply =
      let end = saturating_add offset (length bytes) in
      elim (Bool-cases (offset == s.receive_offset && is_active s id)) [
        | inl e ↦ rw (e, Keeps) (delivers target (accept (ground arith) (ground arith)))
        | inr e ↦
            rw (e, Keeps)
              (elim (Bool-cases (leb end s.receive_offset)) [
                | inl old ↦ rw (old, Keeps) (reply (duplicate _ _ _) refl)
                | inr gap ↦ rw (gap, Keeps) (reply (close _ _) tt)
              ])
      ]
    where
      delivers :
          (target : Answer)
          → Q
              (record s { receive_offset = saturating_add offset (length bytes) })
              (to_target bytes
                ∷ (record_metric (get s.carriers id) delivered_upload_bytes (length bytes)
                    ∷ send_to s.carriers id
                        (ack cfg.flow_id (saturating_add offset (length bytes)))))
          → Keeps Q (deliver cfg s id bytes (saturating_add offset (length bytes)) target)
      delivers done q = unfold deliver in q
      delivers (failed written) q = unfold deliver in tt
      delivers (timed_out written) q = unfold deliver in tt

  pub on_fin_cases :
      (id : Uuid) (final_offset : ℕ) (target : Answer)
      → (s.travel_eof ≡ true → Q s (send_to s.carriers id (fin_ack cfg.flow_id final_offset)))
      → (s.travel_eof ≡ false
          → Q
              (record s { travel_eof = true })
              (shutdown_target ∷ send_to s.carriers id (fin_ack cfg.flow_id final_offset)))
      → Keeps Q (on_fin cfg s id final_offset target)
  unfolding on_fin
  on_fin_cases id final_offset done again first = Keeps-if Q _ _ _ again first
  on_fin_cases id final_offset (failed written) again first = Keeps-if Q _ _ _ again (λ _. tt)
  on_fin_cases id final_offset (timed_out written) again first = Keeps-if Q _ _ _ again (λ _. tt)

  pub on_incoming_cases :
      (id : Uuid) (relay_id : Text) (version : ℕ) (opened : Answer)
      → Q s []
      → Q
          (record s { carriers = insert s.carriers id relay_id })
          (to_carrier id (open_ok cfg.flow_id id s.receive_offset s.send_acked version) ∷ [])
      → Keeps Q (on_incoming cfg s id relay_id version opened)
  unfolding on_incoming
  on_incoming_cases id relay_id version done known new =
      Keeps-if Q (contains_key s.carriers id) _ _ (λ _. known) (λ _. new)
  on_incoming_cases id relay_id version (failed written) known new =
      Keeps-if Q (contains_key s.carriers id) _ _ (λ _. known) (λ _. tt)
  on_incoming_cases id relay_id version (timed_out written) known new =
      Keeps-if Q (contains_key s.carriers id) _ _ (λ _. known) (λ _. tt)

  pub on_deadline_cases : (now : ℕ) → Q s [] → Keeps Q (on_deadline now s)
  unfolding on_deadline
  on_deadline_cases now q = elim (Option-cases s.detached_deadline) [
    | inl e ↦ rw (e, Keeps, on_deadline) q
    | inr (at, e) ↦ rw (e, Keeps, on_deadline) (Keeps-if Q (leb at now) _ _ (λ _. tt) (λ _. q))
  ]

  pub on_carrier_closed_cases :
      (now : ℕ) (id : Uuid)
      → Q
          (record s {
            carriers = remove s.carriers id;
            active_carrier = none;
            detached_deadline = some (now + cfg.detach_timeout);
          })
          []
      → Q (record s { carriers = remove s.carriers id }) []
      → Keeps Q (on_carrier_closed cfg now s id)
  unfolding on_carrier_closed
  on_carrier_closed_cases now id active other =
      Keeps-if Q (is_active s id) _ _ (λ _. active) (λ _. other)

  pub on_target_data_cases :
      (bytes : Bytes)
      → (saturating_add s.unacked_bytes (length bytes) ≤ cfg.max_unacked_bytes
          → Q
              (record s {
                send_offset = saturating_add s.send_offset (length bytes);
                unacked_bytes = s.unacked_bytes + length bytes;
                unacked = s.unacked ++ (record { offset = s.send_offset; bytes = bytes } ∷ []);
              })
              (record_metric (active_relay s) download_observed_bytes (length bytes)
                ∷ send_active s (stream_data cfg.flow_id s.send_offset bytes)))
      → Keeps Q (on_target_data cfg s bytes)
  unfolding on_target_data
  on_target_data_cases bytes q =
      Keeps-if Q (ltb cfg.max_unacked_bytes (saturating_add s.unacked_bytes (length bytes))) _ _
        (λ _. tt) (λ fits. q (ground (arith, fits)))

  pub on_target_ended_cases :
      Q (record s { target_eof = true }) (send_active s (fin cfg.flow_id s.send_offset))
      → Keeps Q (on_target_ended cfg s)
  unfolding on_target_ended
  on_target_ended_cases q = q

  pub on_ack_cases :
      (next_offset : ℕ)
      → (let popped = pop_acked next_offset s.unacked s.unacked_bytes in
          splits next_offset popped.0 ≡ false
          → Q
              (record s { unacked = popped.0; unacked_bytes = popped.1; send_acked = next_offset })
              [])
      → Keeps Q (on_ack s next_offset)
  unfolding on_ack acknowledge
  on_ack_cases next_offset q =
      elim (Bool-cases (splits next_offset (pop_acked next_offset s.unacked s.unacked_bytes).0)) [
        | inl bad ↦ rw (bad, Keeps) tt
        | inr whole ↦ rw (whole, Keeps) (q whole)
      ]

  -- The match on a frame: an arm whose guard holds, or a reply.
  module _ (id : Uuid) (target : Answer) where
    invalid_cases :
        ((f : DataFrame) → IsReply s.receive_offset f → Q s (send_to s.carriers id f))
        → Keeps Q (invalid_frame cfg s id)
    unfolding invalid_frame
    invalid_cases reply = reply (close _ _) tt

    guarded :
        (b : Bool) (t : Turn)
        → ((f : DataFrame) → IsReply s.receive_offset f → Q s (send_to s.carriers id f))
        → (b ≡ true → Keeps Q t)
        → Keeps Q (if b then t else invalid_frame cfg s id)
    guarded b t reply arm = Keeps-if Q b t (invalid_frame cfg s id) arm (λ _. invalid_cases reply)

    pub on_frame_cases :
        (frame : DataFrame)
        → ((f : DataFrame) → IsReply s.receive_offset f → Q s (send_to s.carriers id f))
        → ((race_id : Uuid) → Keeps Q (on_race cfg s id race_id))
        → ((flow_id : Uuid) (offset : ℕ) (bytes : Bytes)
            → frame ≡ stream_data flow_id offset bytes
            → flow_id ≡ cfg.flow_id
            → Keeps Q (on_data cfg s id offset bytes target))
        → ((next_offset : ℕ)
            → Acknowledges frame cfg.flow_id next_offset
            → s.send_acked ≤ next_offset
            → next_offset ≤ s.send_offset
            → Keeps Q (on_ack s next_offset))
        → ((flow_id : Uuid) (final_offset : ℕ)
            → frame ≡ fin flow_id final_offset
            → flow_id ≡ cfg.flow_id
            → final_offset ≡ s.receive_offset
            → Keeps Q (on_fin cfg s id final_offset target))
        → ((flow_id : Uuid) (final_offset : ℕ)
            → frame ≡ fin_ack flow_id final_offset
            → s.target_eof ≡ true
            → final_offset ≡ s.send_offset
            → Q (record s { target_fin_acked = true }) [])
        → Keeps Q (on_frame cfg s id frame target)
    unfolding on_frame
    on_frame_cases (race f r n) reply races datas acks fins finished =
        guarded _ (on_race cfg s id r) reply (λ e. races r)
    on_frame_cases (stream_data f o b) reply races datas acks fins finished =
        guarded _ (on_data cfg s id o b target) reply (λ e. datas f o b refl (ground (arith, e)))
    on_frame_cases (ack f n) reply races datas acks fins finished =
        guarded _ (on_ack s n) reply
          (λ e. acks n (ground (arith, e), refl) (ground (arith, e)) (ground (arith, e)))
    on_frame_cases (duplicate f n w) reply races datas acks fins finished =
        guarded _ (on_ack s n) reply
          (λ e. acks n (ground (arith, e), refl) (ground (arith, e)) (ground (arith, e)))
    on_frame_cases (fin f n) reply races datas acks fins finished =
        guarded _ (on_fin cfg s id n target) reply
          (λ e. fins f n refl (ground (arith, e)) (ground (arith, e)))
    on_frame_cases (fin_ack f n) reply races datas acks fins finished =
        guarded _ (ok (record s { target_fin_acked = true }, [])) reply
          (λ e. finished f n refl (ground (arith, e)) (ground (arith, e)))
    on_frame_cases (close f r) reply races datas acks fins finished =
        Keeps-if Q (f == cfg.flow_id) _ _ (λ _. tt) (λ _. invalid_cases reply)
    on_frame_cases _ reply races datas acks fins finished = invalid_cases reply
