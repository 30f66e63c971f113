-- ===== src/Flow/Stops.antt =====
-- Case rules for the turns of crates/flowsplice-home-core/src/tcp_flow.rs that end the flow: a property
-- of what such a turn did before, from the property of nothing and of a front of a write.
use flowsplice_rust.Prelude.{
  ℕ, ◌≡◌, refl, Bool, true, false, ◌&&◌, Option-cases, Result-cases, inl, inr, List, [], ◌∷◌, ok,
  err, leb, ◌==◌, length, take, saturating_add, if◌then◌else◌, arith, ltb, ap,
}
use flowsplice_rust.Prelude.Bytes.{Bytes}
use flowsplice_rust.Prelude.Text.{Text}
use flowsplice_rust.Prelude.Maps.{get, nat_eq, contains_key}
use flowsplice_rust.Protocol.{
  DataFrame, Uuid, race, stream_data, ack, duplicate, fin, fin_ack, close,
}
use flowsplice_rust.Flow.State.{
  Config, Flow, Answer, done, failed, timed_out, Turn, Effect, to_target, Event, incoming,
  incoming_closed, events_closed, carrier_frame, carrier_closed, target_data, target_ended,
  target_error, deadline,
}
use flowsplice_rust.Flow.Frames.{
  acknowledge, select_carrier, on_race, on_data, deliver, on_ack, on_fin, on_frame, invalid_frame,
  is_active,
}
use flowsplice_rust.Flow.{
  on_incoming, on_carrier_closed, on_target_data, on_target_ended, on_deadline, step,
}

-- What a turn that ends the flow did before has the property.
abbrev pub Stops : (List Effect → Type 0) → Turn → Type 0
Stops S (ok (s, effects)) = Unit {0}
Stops S (err stop) = S stop.effects

Stops-if :
    (S : List Effect → Type 0) (b : Bool) (t e : Turn)
    → (b ≡ true → Stops S t)
    → Stops S e
    → Stops S (if b then t else e)
Stops-if S true t e f g = f refl
Stops-if S false t e f g = g

module _ (S : List Effect → Type 0) (nothing : S []) (cfg : Config) (s : Flow) where
  deliver-Stops :
      (id : Uuid) (bytes : Bytes) (end : ℕ) (target : Answer)
      → ((written : ℕ) → S (to_target (take written bytes) ∷ []))
      → Stops S (deliver cfg s id bytes end target)
  unfolding deliver
  deliver-Stops id bytes end done q = tt
  deliver-Stops id bytes end (failed written) q = q written
  deliver-Stops id bytes end (timed_out written) q = q written

  on_data-Stops :
      (id : Uuid) (offset : ℕ) (bytes : Bytes) (target : Answer)
      → (offset ≡ s.receive_offset → (written : ℕ) → S (to_target (take written bytes) ∷ []))
      → Stops S (on_data cfg s id offset bytes target)
  unfolding on_data
  on_data-Stops id offset bytes target q =
      let end = saturating_add offset (length bytes) in
      Stops-if S (offset == s.receive_offset && is_active s id) (deliver cfg s id bytes end target)
        _ (λ e. deliver-Stops id bytes end target (q (ground (arith, e))))
        (Stops-if S (leb end s.receive_offset) _ _ (λ _. tt) tt)

  on_race-Stops : (id race_id : Uuid) → Stops S (on_race cfg s id race_id)
  unfolding on_race select_carrier
  on_race-Stops id race_id = elim (Option-cases (get s.race_winners race_id)) [
    | inl e ↦ rw (e, on_race) tt
    | inr (winner, e) ↦ rw (e, on_race) tt
  ]

  on_ack-Stops : (next_offset : ℕ) → Stops S (on_ack s next_offset)
  unfolding on_ack
  on_ack-Stops next_offset = elim (Result-cases (acknowledge s next_offset)) [
    | inl (t, e) ↦ rw (e, on_ack) tt
    | inr (error, e) ↦ rw (e, on_ack) nothing
  ]

  on_fin-Stops :
      (id : Uuid) (final_offset : ℕ) (target : Answer)
      → Stops S (on_fin cfg s id final_offset target)
  unfolding on_fin
  on_fin-Stops id final_offset done = Stops-if S s.travel_eof _ _ (λ _. tt) tt
  on_fin-Stops id final_offset (failed written) = Stops-if S s.travel_eof _ _ (λ _. tt) nothing
  on_fin-Stops id final_offset (timed_out written) = Stops-if S s.travel_eof _ _ (λ _. tt) nothing

  guarded :
      (id : Uuid) (b : Bool) (t : Turn)
      → (b ≡ true → Stops S t)
      → Stops S (if b then t else invalid_frame cfg s id)
  unfolding invalid_frame
  guarded id b t arm = Stops-if S b t _ arm tt

  pub on_frame-Stops :
      (id : Uuid) (frame : DataFrame) (target : Answer)
      → ((flow_id : Uuid) (offset : ℕ) (bytes : Bytes)
          → frame ≡ stream_data flow_id offset bytes
          → flow_id ≡ cfg.flow_id
          → offset ≡ s.receive_offset
          → (written : ℕ) → S (to_target (take written bytes) ∷ []))
      → Stops S (on_frame cfg s id frame target)
  unfolding on_frame
  on_frame-Stops id (race f r n) target q =
      guarded id _ (on_race cfg s id r) (λ _. on_race-Stops id r)
  on_frame-Stops id (stream_data f o b) target q =
      guarded id _ (on_data cfg s id o b target)
        (λ e. on_data-Stops id o b target (q f o b refl (ground (arith, e))))
  on_frame-Stops id (ack f n) target q = guarded id _ (on_ack s n) (λ _. on_ack-Stops n)
  on_frame-Stops id (duplicate f n w) target q = guarded id _ (on_ack s n) (λ _. on_ack-Stops n)
  on_frame-Stops id (fin f n) target q =
      guarded id _ (on_fin cfg s id n target) (λ _. on_fin-Stops id n target)
  on_frame-Stops id (fin_ack f n) target q =
      guarded id (f == cfg.flow_id && (s.target_eof && n == s.send_offset))
        (ok (record s { target_fin_acked = true }, [])) (λ _. tt)
  on_frame-Stops id (close f r) target q = guarded id (f == cfg.flow_id) _ (λ _. nothing)
  on_frame-Stops id _ target q = unfold invalid_frame in tt

  on_incoming-Stops :
      (id : Uuid) (relay_id : Text) (version : ℕ) (opened : Answer)
      → Stops S (on_incoming cfg s id relay_id version opened)
  unfolding on_incoming
  on_incoming-Stops id relay_id version done =
      Stops-if S (contains_key s.carriers id) _ _ (λ _. tt) tt
  on_incoming-Stops id relay_id version (failed written) =
      Stops-if S (contains_key s.carriers id) _ _ (λ _. tt) nothing
  on_incoming-Stops id relay_id version (timed_out written) =
      Stops-if S (contains_key s.carriers id) _ _ (λ _. tt) nothing

  on_deadline-Stops : (now : ℕ) → Stops S (on_deadline now s)
  unfolding on_deadline
  on_deadline-Stops now = elim (Option-cases s.detached_deadline) [
    | inl e ↦ rw (e, on_deadline) tt
    | inr (at, e) ↦ rw (e, on_deadline) (Stops-if S (leb at now) _ _ (λ _. nothing) tt)
  ]

  -- Only a frame with data can leave something done.
  pub step-Stops :
      (now : ℕ) (ev : Event)
      → ((id : Uuid) (flow_id : Uuid) (offset : ℕ) (bytes : Bytes) (target : Answer)
          → ev ≡ carrier_frame id (stream_data flow_id offset bytes) target
          → flow_id ≡ cfg.flow_id
          → offset ≡ s.receive_offset
          → (written : ℕ) → S (to_target (take written bytes) ∷ []))
      → Stops S (step cfg now s ev)
  unfolding step on_carrier_closed on_target_data on_target_ended
  step-Stops now (incoming id relay_id version opened) q =
      on_incoming-Stops id relay_id version opened
  step-Stops now incoming_closed q = nothing
  step-Stops now events_closed q = nothing
  step-Stops now (carrier_frame id frame target) q =
      on_frame-Stops id frame target
        (λ f o b e. q id f o b target (ap (λ x. carrier_frame id x target) e))
  step-Stops now (carrier_closed id) q = Stops-if S (is_active s id) _ _ (λ _. tt) tt
  step-Stops now (target_data bytes) q =
      Stops-if S (ltb cfg.max_unacked_bytes (saturating_add s.unacked_bytes (length bytes))) _ _
        (λ _. nothing) tt
  step-Stops now target_ended q = tt
  step-Stops now target_error q = nothing
  step-Stops now deadline q = on_deadline-Stops now
