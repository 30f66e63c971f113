-- ===== src/Carrier/Order.antt =====
-- What internal/flowsplice-core/src/carrier.rs passes on: every frame once and in order.
use flowsplice_rust.Prelude.{
  ℕ, ◌+◌, ◌-◌, ◌%◌, ◌≤◌, ◌≡◌, refl, sym, ap, subst, inl, inr, Bool, true, false, not, Option, none,
  some, List, [], ◌∷◌, ◌++◌, append-nil, arith, ltb, if◌then◌else◌, Bool-cases, Option-cases,
  is_some,
}
use flowsplice_rust.Protocol.{DataFrame, ping, pong}
use flowsplice_rust.Carrier.{
  Pump, Input, event_room, event_receiver_closed, outgoing, outgoing_closed, incoming, read_failed,
  tick, Effect, to_flow, write_frame, write_pong, write_ping, Turn, going, returned, failed,
  is_enabled, after_write, on_room, on_incoming, on_tick, step,
}

-- A run of the pump over timed inputs that its branches are enabled for, with all it does.
pub data Trace (timeout : ℕ) : Pump → List (ℕ × Input) → List Effect → Pump → Type 0 where
  idle : (s : Pump) → Trace timeout s [] [] s
  turn :
      (s s' z : Pump) (now : ℕ) (input : Input) (more : List (ℕ × Input)) (es fs : List Effect)
      → is_enabled s input ≡ true
      → step timeout now s input ≡ going s' es
      → Trace timeout s' more fs z
      → Trace timeout s ((now, input) ∷ more) (es ++ fs) z

abbrev pub is_business : DataFrame → Bool
is_business (ping nonce) = false
is_business (pong nonce) = false
is_business frame = true

abbrev pub waiting : Option DataFrame → List DataFrame
waiting none = []
waiting (some frame) = frame ∷ []

-- The flow's frames among those read, the frames to write, and the nonces to answer.
abbrev pub read_frames : List (ℕ × Input) → List DataFrame
read_frames [] = []
read_frames ((now, incoming frame written) ∷ more) =
    if is_business frame then frame ∷ read_frames more else read_frames more
read_frames ((now, _) ∷ more) = read_frames more

abbrev pub out_frames : List (ℕ × Input) → List DataFrame
out_frames [] = []
out_frames ((now, outgoing frame written) ∷ more) = frame ∷ out_frames more
out_frames ((now, _) ∷ more) = out_frames more

abbrev pub pinged : List (ℕ × Input) → List ℕ
pinged [] = []
pinged ((now, incoming (ping nonce) written) ∷ more) = nonce ∷ pinged more
pinged ((now, _) ∷ more) = pinged more

abbrev pub given : List Effect → List DataFrame
given [] = []
given (to_flow frame ∷ es) = frame ∷ given es
given (_ ∷ es) = given es

abbrev pub written_frames : List Effect → List DataFrame
written_frames [] = []
written_frames (write_frame frame ∷ es) = frame ∷ written_frames es
written_frames (_ ∷ es) = written_frames es

abbrev pub pongs : List Effect → List ℕ
pongs [] = []
pongs (write_pong nonce ∷ es) = nonce ∷ pongs es
pongs (_ ∷ es) = pongs es

-- No tick passed with the last frame read more than the timeout ago.
abbrev pub Alive : ℕ → ℕ → List (ℕ × Input) → Type 0
Alive timeout last [] = Unit {0}
Alive timeout last ((now, incoming frame written) ∷ more) = Alive timeout now more
Alive timeout last ((now, tick written) ∷ more) = (now ≤ last + timeout) × Alive timeout last more
Alive timeout last ((now, _) ∷ more) = Alive timeout last more

-- What a run leaves in order.
pub record InOrder (timeout : ℕ) (s : Pump) (inputs : List (ℕ × Input)) (es : List Effect)
    (z : Pump) : Type 0 where
  -- The frames given to the flow, and the one still pending, are those read, behind the one pending before.
  pub gives : given es ++ waiting z.pending ≡ waiting s.pending ++ read_frames inputs
  pub writes : written_frames es ≡ out_frames inputs
  pub answers : pongs es ≡ pinged inputs
  pub alive : Alive timeout s.last_received inputs

-- A turn that goes on has the property.
abbrev Goes : (Pump → List Effect → Type 0) → Turn → Type 0
Goes P (going s es) = P s es
Goes P returned = Unit {0}
Goes P (failed fault) = Unit {0}

none_pending : (s : Pump) → not (is_some s.pending) ≡ true → s.pending ≡ none
none_pending s h = elim (Option-cases s.pending) [
  | inl e ↦ e
  | inr (frame, e) ↦ absurd (ground (arith, rw (e, is_some) at h))
]

module _ (timeout now : ℕ) (more : List (ℕ × Input)) (fs : List Effect) (z s : Pump) where
  abbrev Extends : Input → Pump → List Effect → Type 0
  Extends input s' es =
      InOrder timeout s' more fs z → InOrder timeout s ((now, input) ∷ more) (es ++ fs) z

  on_room-InOrder : Goes (Extends event_room) (on_room s)
  unfolding on_room
  on_room-InOrder = elim (Option-cases s.pending) [
    | inl e ↦
        rw (e, Goes)
          (λ o. record { gives = o.gives; writes = o.writes; answers = o.answers; alive = o.alive })
    | inr (frame, e) ↦
        rw (e, Goes)
          (λ o. record {
            gives = rw e (ap (◌∷◌ frame) o.gives);
            writes = o.writes;
            answers = o.answers;
            alive = o.alive;
          })
  ]

  on_incoming-InOrder :
      (frame : DataFrame) (written : Bool)
      → s.pending ≡ none
      → Goes (Extends (incoming frame written)) (on_incoming now s frame written)
  unfolding on_incoming after_write
  on_incoming-InOrder (ping nonce) true e = λ o. record {
    gives = o.gives;
    writes = o.writes;
    answers = ap (◌∷◌ nonce) o.answers;
    alive = o.alive;
  }
  on_incoming-InOrder (ping nonce) false e = tt
  on_incoming-InOrder (pong nonce) written e =
      λ o. record { gives = o.gives; writes = o.writes; answers = o.answers; alive = o.alive }
  on_incoming-InOrder _ written e =
      λ o. record { gives = rw e o.gives; writes = o.writes; answers = o.answers; alive = o.alive }

  on_tick-InOrder : (written : Bool) → Goes (Extends (tick written)) (on_tick timeout now s written)
  unfolding on_tick after_write
  on_tick-InOrder written = elim (Bool-cases (ltb timeout (now - s.last_received))) [
    | inl late ↦ rw (late, Goes) tt
    | inr early ↦ rw (early, Goes) (pinged_out written (ground (arith, early)))
  ]
    where
      pinged_out :
          (written : Bool)
          → now - s.last_received ≤ timeout
          → Goes (Extends (tick written)) (
              after_write written
                (record s { nonce = (s.nonce + 1) % 18446744073709551616 })
                (write_ping ((s.nonce + 1) % 18446744073709551616)))
      pinged_out true early = λ o. record {
        gives = o.gives;
        writes = o.writes;
        answers = o.answers;
        alive = (omega (arith, early), o.alive);
      }
      pinged_out false early = tt

  step-InOrder :
      (input : Input) → is_enabled s input ≡ true → Goes (Extends input) (step timeout now s input)
  unfolding step is_enabled after_write
  step-InOrder event_room on = on_room-InOrder
  step-InOrder event_receiver_closed on = tt
  step-InOrder (outgoing frame true) on = λ o. record {
    gives = o.gives;
    writes = ap (◌∷◌ frame) o.writes;
    answers = o.answers;
    alive = o.alive;
  }
  step-InOrder (outgoing frame false) on = tt
  step-InOrder outgoing_closed on = tt
  step-InOrder (incoming frame written) on = on_incoming-InOrder frame written (none_pending s on)
  step-InOrder read_failed on = tt
  step-InOrder (tick written) on = on_tick-InOrder written

-- While the pump runs, each frame that it reads for the flow is given to the flow, once and in order,
-- but for one that is still pending; each frame of the flow is written, once and in order; each Ping
-- is answered by a Pong with its nonce; and no tick passes when the last frame was read more than the
-- timeout ago.
pub Trace-InOrder :
    (timeout : ℕ) (s z : Pump) (inputs : List (ℕ × Input)) (es : List Effect)
    → Trace timeout s inputs es z
    → InOrder timeout s inputs es z
Trace-InOrder timeout s _ _ _ (idle _) = record {
  gives = sym (append-nil (waiting s.pending));
  writes = refl;
  answers = refl;
  alive = tt;
}
Trace-InOrder timeout s z _ _ (turn _ s' _ now input more es fs on e rest) =
    subst (Goes (Extends timeout now more fs z s input)) e
      (step-InOrder timeout now more fs z s input on) (Trace-InOrder timeout s' z more fs rest)
