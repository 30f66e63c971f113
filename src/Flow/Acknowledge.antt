-- ===== src/Flow/Acknowledge.antt =====
-- What an acknowledgement and a whole run of the loop leave, in
-- crates/flowsplice-home-core/src/tcp_flow.rs.
use flowsplice_rust.Prelude.{
  ℕ, ◌-◌, ◌≤◌, ◌<◌, ◌≡◌, refl, sym, ap, ◌∙◌, true, false, Bool-cases, inl, inr, List, [], ◌∷◌,
  Result, ok, err, length, length-drop, drop, drop-drop, IsU64, u64_max, arith, is_empty,
}
use flowsplice_rust.Prelude.Bytes.{Bytes}
use flowsplice_rust.Flow.State.{
  Segment, Config, Flow, FlowError, ack_split_frame, Event, Effect, Turn, start,
}
use flowsplice_rust.Flow.Frames.{acknowledge, pop_acked, splits}
use flowsplice_rust.Flow.{step, is_complete, Outcome, completed, running, ended, proceed, run}
use flowsplice_rust.Flow.Cases.{Keeps}
use flowsplice_rust.Flow.Ack.{
  Chain, total, payload, is_boundary, splits-is_boundary, pop_acked-payload, pop_acked-total,
  length-payload,
}
use flowsplice_rust.Flow.Invariant.{IsValid, Valid, start-IsValid, step-IsValid}
use flowsplice_rust.Flow.Queue.{room}
use flowsplice_rust.Flow.Download.{IsKept}

-- At a boundary of segments the acknowledged bytes go and the others stay; elsewhere the flow ends.
abbrev pub AckMeets : Bytes → Flow → ℕ → Result FlowError Flow → Type 0
AckMeets produced s next_offset (ok s') =
    (is_boundary next_offset s.send_acked s.unacked ≡ true)
    × (payload s'.unacked ≡ drop next_offset produced)
    × (s'.send_acked ≡ next_offset)
    × (s'.unacked_bytes ≡ length produced - next_offset)
    × (s'.send_offset ≡ s.send_offset)
AckMeets produced s next_offset (err e) =
    (is_boundary next_offset s.send_acked s.unacked ≡ false) × (e ≡ ack_split_frame)

module _ (produced : Bytes) (fits : IsU64 (length produced)) (cfg : Config) (s : Flow) where
  -- In a flow with its invariant that keeps the output of the target, of a length within u64, an
  -- acknowledgement between the last one and the end of what was sent is accepted exactly if it
  -- falls between two segments. It then leaves for sending again exactly the target's output behind
  -- it, with the right count; if not, it ends the flow as splitting a frame.
  pub acknowledge_lem :
      (next_offset : ℕ)
      → IsValid cfg s
      → IsKept produced s
      → s.send_acked ≤ next_offset
      → next_offset ≤ s.send_offset
      → AckMeets produced s next_offset (acknowledge s next_offset)
  unfolding acknowledge
  acknowledge_lem next_offset v k lo hi =
      let fit = room produced fits s.send_acked s.unacked s.send_offset v.acked_range v.chain k in
      let test =
        splits-is_boundary next_offset s.unacked s.unacked_bytes s.send_acked s.send_offset fit
          v.chain lo hi in
      elim (Bool-cases (splits next_offset (pop_acked next_offset s.unacked s.unacked_bytes).0)) [
        | inl bad ↦ rw (bad, AckMeets) (ground (arith, test, bad), refl)
        | inr whole ↦
            let left : payload (pop_acked next_offset s.unacked s.unacked_bytes).0
                ≡ drop next_offset produced =
              pop_acked-payload next_offset s.unacked s.unacked_bytes s.send_acked s.send_offset fit
                v.chain lo hi whole
              ∙ ap (drop (next_offset - s.send_acked)) k.kept
              ∙ drop-drop (next_offset - s.send_acked) s.send_acked produced
              ∙ ap (λ n. drop n produced) (omega arith) in
            rw (whole, AckMeets)
              (
                ground (arith, test, whole),
                left,
                refl,
                pop_acked-total next_offset s.unacked s.unacked_bytes v.counted
                    ∙ sym (length-payload (pop_acked next_offset s.unacked s.unacked_bytes).0)
                    ∙ ap length left
                    ∙ length-drop next_offset produced,
                refl,
              )
      ]

module _ (cfg : Config) (small : cfg.max_unacked_bytes < u64_max) where
  -- Where the loop stands.
  abbrev pub Stands : Outcome → Type 0
  Stands (completed s) = IsValid cfg s × (s.send_acked ≡ s.send_offset) × (s.unacked_bytes ≡ 0)
  Stands (running s) = IsValid cfg s
  Stands (ended e) = Unit {0}

  complete-acked :
      (s : Flow) (ss : List Segment) (n : ℕ)
      → is_empty ss ≡ true
      → Chain s.send_acked ss s.send_offset
      → n ≡ total ss
      → (s.send_acked ≡ s.send_offset) × (n ≡ 0)
  complete-acked s [] n e c t = (c, t)
  complete-acked s (x ∷ ss) n e c t = cc

  complete-Stands : (s : Flow) → IsValid cfg s → is_complete s ≡ true → Stands (completed s)
  unfolding is_complete
  complete-Stands s v e =
      let (acked, counted) =
        complete-acked s s.unacked s.unacked_bytes (ground (arith, e)) v.chain v.counted in
      (v, acked, counted)

  proceed-Stands :
      (rest : Flow → Outcome × List Effect) (t : Turn)
      → ((s : Flow) → IsValid cfg s → Stands (rest s).0)
      → Keeps (Valid cfg) t
      → Stands (proceed rest t).0
  unfolding proceed
  proceed-Stands rest (err e) ih k = tt
  proceed-Stands rest (ok (s, effects)) ih k = ih s k

  run-Stands : (evs : List (ℕ × Event)) (s : Flow) → IsValid cfg s → Stands (run cfg evs s).0
  unfolding run
  run-Stands [] s v = elim (Bool-cases (is_complete s)) [
    | inl e ↦ rw (e, Stands) (complete-Stands s v e)
    | inr e ↦ rw (e, Stands) v
  ]
  run-Stands ((now, ev) ∷ evs) s v = elim (Bool-cases (is_complete s)) [
    | inl e ↦ rw (e, Stands) (complete-Stands s v e)
    | inr e ↦
        rw (e, Stands)
          (proceed-Stands (run cfg evs) (step cfg now s ev) (run-Stands evs)
            (step-IsValid cfg now s ev small v))
  ]

  -- After any events the flow has its invariant (the limit on unacknowledged bytes is below
  -- `usize::MAX`); if it completed, all that it sent is acknowledged and nothing is left to send.
  pub run-start-Stands : (now : ℕ) (evs : List (ℕ × Event)) → Stands (run cfg evs (start cfg now)).0
  run-start-Stands now evs = run-Stands evs (start cfg now) (start-IsValid cfg now)
