-- ===== src/Flow/Upload.antt =====
-- Travel to Home in crates/flowsplice-home-core/src/tcp_flow.rs: what the target receives.
use flowsplice_rust.Prelude.{
  ℕ, ◌≡◌, refl, subst, sym, ap, ◌∙◌, Bool, true, Bool-cases, inl, inr, List, [], ◌∷◌, ◌++◌,
  append_assoc, append-nil, ok, err, length, take, drop, take-append-drop, take_all, All, IsU64,
  saturating_add, arith,
}
use flowsplice_rust.Prelude.Bytes.{Bytes}
use flowsplice_rust.Prelude.Maps.{nat_eq}
use flowsplice_rust.Protocol.{
  DataFrame, Uuid, race_ack, race_duplicate, stream_data, ack, fin, fin_ack,
}
use flowsplice_rust.Flow.State.{
  Config, Flow, Answer, Event, incoming, incoming_closed, events_closed, carrier_frame,
  carrier_closed, target_data, target_ended, target_error, deadline, Turn, Effect, to_target, start,
}
use flowsplice_rust.Flow.Frames.{send_to, retransmit, on_data, on_fin, on_frame}
use flowsplice_rust.Flow.{
  send_active, step, is_complete, Outcome, completed, running, ended, proceed, run,
}
use flowsplice_rust.Flow.Effects.{
  IsSlice, delivered, delivered-append, delivered-send_to, delivered-retransmit,
  delivered-send_active,
}
use flowsplice_rust.Flow.Receive.{Delivered, extend, IsSlice-front}
use flowsplice_rust.Flow.Stops.{Stops, step-Stops}
use flowsplice_rust.Flow.Cases.{
  Keeps, on_race_cases, on_data_cases, on_fin_cases, on_frame_cases, on_incoming_cases,
  on_deadline_cases, on_carrier_closed_cases, on_target_data_cases, on_target_ended_cases,
  on_ack_cases,
}

-- What a Travel end that sends `stream` puts on the wire: pieces of it at their offsets, in any order
-- and as often as it likes, and the end of the stream at its length.
abbrev pub HonestFrame : Config → Bytes → DataFrame → Type 0
HonestFrame cfg stream (stream_data flow_id offset bytes) =
    flow_id ≡ cfg.flow_id → IsSlice stream offset bytes
HonestFrame cfg stream (fin flow_id final_offset) =
    flow_id ≡ cfg.flow_id → final_offset ≡ length stream
HonestFrame cfg stream _ = Unit {0}

abbrev pub Honest : Config → Bytes → ℕ × Event → Type 0
Honest cfg stream (now, carrier_frame id frame target) = HonestFrame cfg stream frame
Honest cfg stream (now, _) = Unit {0}

regroup :
    (got : Bytes) (effects more : List Effect)
    → got ++ delivered (effects ++ more) ≡ (got ++ delivered effects) ++ delivered more
regroup got effects more =
    ap (◌++◌ got) (delivered-append effects more)
    ∙ sym (append_assoc got (delivered effects) (delivered more))

module _ (cfg : Config) (stream : Bytes) (fits : IsU64 (length stream)) where
  abbrev pub After : Bytes → Flow → List Effect → Type 0
  After got s effects = Delivered stream (got ++ delivered effects) s.receive_offset s.travel_eof

  -- Effects that bring nothing to the target.
  silent :
      (got : Bytes) (s : Flow) (effects : List Effect)
      → Delivered stream got s.receive_offset s.travel_eof
      → delivered effects ≡ []
      → After got s effects
  silent got s effects d e = rw (e, append-nil got) d

  on_data-Delivered :
      (got : Bytes) (s : Flow) (id : Uuid) (offset : ℕ) (bytes : Bytes) (target : Answer)
      → Delivered stream got s.receive_offset s.travel_eof
      → IsSlice stream offset bytes
      → Keeps (After got) (on_data cfg s id offset bytes target)
  on_data-Delivered got s id offset bytes target d slice =
      on_data_cases (After got) cfg s id offset bytes target
        (λ at _.
          rw
            (
              delivered-send_to s.carriers id
                  (ack cfg.flow_id (saturating_add offset (length bytes))),
              append-nil bytes,
              at,
            )
            (extend stream fits got s.receive_offset s.travel_eof bytes d
              (subst (λ k. IsSlice stream k bytes) at slice)))
        (λ f _. silent got s (send_to s.carriers id f) d (delivered-send_to s.carriers id f))

  on_fin-Delivered :
      (got : Bytes) (s : Flow) (id : Uuid) (final_offset : ℕ) (target : Answer)
      → Delivered stream got s.receive_offset s.travel_eof
      → final_offset ≡ s.receive_offset
      → final_offset ≡ length stream
      → Keeps (After got) (on_fin cfg s id final_offset target)
  on_fin-Delivered got s id final_offset target d here end =
      on_fin_cases (After got) cfg s id final_offset target
        (λ _.
          silent got s (send_to s.carriers id (fin_ack cfg.flow_id final_offset)) d
            (delivered-send_to s.carriers id (fin_ack cfg.flow_id final_offset)))
        (λ _.
          rw (delivered-send_to s.carriers id (fin_ack cfg.flow_id final_offset), append-nil got)
            (record { prefix = d.prefix; within = d.within; whole = λ _. sym here ∙ end }))

  on_frame-Delivered :
      (got : Bytes) (s : Flow) (id : Uuid) (frame : DataFrame) (target : Answer)
      → Delivered stream got s.receive_offset s.travel_eof
      → HonestFrame cfg stream frame
      → Keeps (After got) (on_frame cfg s id frame target)
  on_frame-Delivered got s id frame target d h =
      on_frame_cases (After got) cfg s id target frame
        (λ f _. silent got s (send_to s.carriers id f) d (delivered-send_to s.carriers id f))
        (λ race_id.
          on_race_cases (After got) cfg s id race_id
            (λ winner _.
              silent got s (send_to s.carriers id (race_duplicate cfg.flow_id race_id winner)) d
                (delivered-send_to s.carriers id (race_duplicate cfg.flow_id race_id winner)))
            (λ _.
              rw
                (
                  delivered-append (send_to s.carriers id (race_ack cfg.flow_id race_id id))
                      (retransmit s.carriers id cfg.flow_id s.unacked s.target_eof s.send_offset),
                  delivered-send_to s.carriers id (race_ack cfg.flow_id race_id id),
                  delivered-retransmit s.carriers id cfg.flow_id s.unacked s.target_eof
                      s.send_offset,
                  append-nil got,
                )
                d))
        (λ f offset bytes e here.
          on_data-Delivered got s id offset bytes target d
            (subst (HonestFrame cfg stream) e h here))
        (λ next_offset _ _ _.
          on_ack_cases (After got) cfg s next_offset (λ _. silent got s [] d refl))
        (λ f final_offset e here at.
          on_fin-Delivered got s id final_offset target d at
            (subst (HonestFrame cfg stream) e h here))
        (λ _ _ _ _ _. silent got s [] d refl)

  pub step-Delivered :
      (got : Bytes) (now : ℕ) (s : Flow) (ev : Event)
      → Delivered stream got s.receive_offset s.travel_eof
      → Honest cfg stream (now, ev)
      → Keeps (After got) (step cfg now s ev)
  unfolding step
  step-Delivered got now s (incoming id relay_id version opened) d h =
      on_incoming_cases (After got) cfg s id relay_id version opened (silent got s [] d refl)
        (silent got s [] d refl)
  step-Delivered got now s incoming_closed d h = tt
  step-Delivered got now s events_closed d h = tt
  step-Delivered got now s (carrier_frame id frame target) d h =
      on_frame-Delivered got s id frame target d h
  step-Delivered got now s (carrier_closed id) d h =
      on_carrier_closed_cases (After got) cfg s now id (silent got s [] d refl)
        (silent got s [] d refl)
  step-Delivered got now s (target_data bytes) d h =
      on_target_data_cases (After got) cfg s bytes λ _.
        rw (delivered-send_active s (stream_data cfg.flow_id s.send_offset bytes), append-nil got) d
  step-Delivered got now s target_ended d h = on_target_ended_cases (After got) cfg s (
      silent got s (send_active s (fin cfg.flow_id s.send_offset)) d
        (delivered-send_active s (fin cfg.flow_id s.send_offset)))
  step-Delivered got now s target_error d h = tt
  step-Delivered got now s deadline d h =
      on_deadline_cases (After got) cfg s now (silent got s [] d refl)

  -- What a turn that ends the flow wrote before is more of the stream.
  abbrev pub Before : Bytes → List Effect → Type 0
  Before got effects = (n : ℕ) × (got ++ delivered effects ≡ take n stream)

  written-Before :
      (got : Bytes) (at : ℕ) (eof : Bool) (bytes : Bytes) (written : ℕ)
      → Delivered stream got at eof
      → IsSlice stream at bytes
      → Before got (to_target (take written bytes) ∷ [])
  written-Before got at eof bytes written d slice =
      let front = take written bytes in
      let d' = extend stream fits got at eof front d (
        IsSlice-front stream at front (drop written bytes)
          (subst (IsSlice stream at) (sym (take-append-drop written bytes)) slice)) in
      (saturating_add at (length front), ap (◌++◌ got) (append-nil front) ∙ d'.prefix)

  step-Before :
      (got : Bytes) (now : ℕ) (s : Flow) (ev : Event)
      → Delivered stream got s.receive_offset s.travel_eof
      → Honest cfg stream (now, ev)
      → Stops (Before got) (step cfg now s ev)
  step-Before got now s ev d h =
      step-Stops (Before got) (s.receive_offset, append-nil got ∙ d.prefix) cfg s now ev
        (λ id f offset bytes target e here at written.
          written-Before got s.receive_offset s.travel_eof bytes written d (
            subst (λ k. IsSlice stream k bytes) at
              (subst (λ x. Honest cfg stream (now, x)) e h here)))

  -- Where the loop stands when the events have been handled.
  abbrev pub Delivers : Bytes → Outcome × List Effect → Type 0
  Delivers got (completed s, effects) = got ++ delivered effects ≡ stream
  Delivers got (running s, effects) = got ++ delivered effects ≡ take s.receive_offset stream
  Delivers got (ended e, effects) = (n : ℕ) × (got ++ delivered effects ≡ take n stream)

  complete-Delivers :
      (got : Bytes) (s : Flow)
      → Delivered stream got s.receive_offset s.travel_eof
      → is_complete s ≡ true
      → Delivers got (completed s, [])
  unfolding is_complete
  complete-Delivers got s d e =
      append-nil got
      ∙ d.prefix
      ∙ take_all s.receive_offset stream (omega (arith, d.whole (ground (arith, e))))

  shift :
      (got : Bytes) (effects more : List Effect) (o : Outcome)
      → Delivers (got ++ delivered effects) (o, more)
      → Delivers got (o, effects ++ more)
  shift got effects more (completed s) d = regroup got effects more ∙ d
  shift got effects more (running s) d = regroup got effects more ∙ d
  shift got effects more (ended e) d = (d.0, regroup got effects more ∙ d.1)

  proceed-Delivers :
      (rest : Flow → Outcome × List Effect) (got : Bytes) (t : Turn)
      → Stops (Before got) t
      → ((got' : Bytes) (s' : Flow)
          → Delivered stream got' s'.receive_offset s'.travel_eof
          → Delivers got' (rest s'))
      → Keeps (After got) t
      → Delivers got (proceed rest t)
  unfolding proceed
  proceed-Delivers rest got (err stop) before ih k = before
  proceed-Delivers rest got (ok (s, effects)) before ih k =
      shift got effects (rest s).1 (rest s).0 (ih (got ++ delivered effects) s k)

  run-Delivered :
      (evs : List (ℕ × Event)) (got : Bytes) (s : Flow)
      → Delivered stream got s.receive_offset s.travel_eof
      → All (Honest cfg stream) evs
      → Delivers got (run cfg evs s)
  unfolding run
  run-Delivered [] got s d h = elim (Bool-cases (is_complete s)) [
    | inl e ↦ rw (e, Delivers) (complete-Delivers got s d e)
    | inr e ↦ rw (e, Delivers) (append-nil got ∙ d.prefix)
  ]
  run-Delivered ((now, ev) ∷ evs) got s d h = elim (Bool-cases (is_complete s)) [
    | inl e ↦ rw (e, Delivers) (complete-Delivers got s d e)
    | inr e ↦
        rw (e, Delivers)
          (proceed-Delivers (run cfg evs) got (step cfg now s ev) (step-Before got now s ev d h.0)
            (λ got' s' d'. run-Delivered evs got' s' d' h.1) (step-Delivered got now s ev d h.0))
  ]

  -- Whatever the Carriers do (races, losses, duplicates, reordering, reconnection, frames of other
  -- kinds), a target that is fed by a Travel end sending `stream` gets a prefix of it, also when a
  -- write fails or is given up half way, and exactly the first `receive_offset` bytes while the flow
  -- runs. If the flow completes, it got all of it. The length of the stream is within u64.
  pub run-start-Delivers :
      (now : ℕ) (evs : List (ℕ × Event))
      → All (Honest cfg stream) evs
      → Delivers [] (run cfg evs (start cfg now))
  unfolding start
  run-start-Delivers now evs h =
      run-Delivered evs [] (start cfg now)
        (record { prefix = refl; within = omega arith; whole = λ e. absurd (ground (arith, e)) }) h
