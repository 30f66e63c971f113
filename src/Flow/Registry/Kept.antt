-- ===== src/Flow/Registry/Kept.antt =====
-- crates/flowsplice-home-core/src/tcp_flow.rs: what attaching a Carrier makes of the registry.
use flowsplice_rust.Prelude.{
  ℕ, ◌-◌, ◌≡◌, refl, Bool, true, List, Option, none, some, inl, inr, subst, sym, ap, ◌∙◌, ◌≢◌, ◌==◌,
  Option-cases, Bool-cases, false, not, ◌+◌, Result, ok, err, is_ok, by_if, arith,
}
use flowsplice_rust.Prelude.Text.{Text, text_eq, text_eq_iff}
use flowsplice_rust.Prelude.Maps.{
  get, insert, retain, retained, get-insert, get-retain, pair_key, nat_eq, text_key,
}
use flowsplice_rust.Protocol.{Uuid}
use flowsplice_rust.Flow.Registry.{
  FlowKey, FlowHandle, Registry, AttachError, carrier_limit, flow_carrier_limit, flow_closed,
  Attached, hand_over, new_flow, open_new, attach,
}

-- The flow keeps its service and its instance.
abbrev pub Same : Option FlowHandle → Option FlowHandle → Type 0
Same none new = Unit {0}
Same (some old) none = ⊥
Same (some old) (some new) = (new.service_id ≡ old.service_id) × (new.instance_id ≡ old.instance_id)

Same-refl : (o : Option FlowHandle) → Same o o
Same-refl none = tt
Same-refl (some flow) = (refl, refl)

Same-slots :
    (o : Option FlowHandle) (flow : FlowHandle) (slots : ℕ)
    → Same o (some flow)
    → Same o (some (record flow { carrier_slots = slots }))
Same-slots none flow slots h = tt
Same-slots (some old) flow slots h = h

-- No flow of the registry has the instance: `Uuid::new_v4` gives an id that is not in use.
abbrev pub IsFresh : List (FlowKey × FlowHandle) → Uuid → Type 0
IsFresh flows instance_id =
    (k : FlowKey) (flow : FlowHandle) → get flows k ≡ some flow → flow.instance_id ≢ instance_id

abbrev pub took : Result AttachError (Unit {0}) → ℕ
took (ok x) = 1
took (err e) = 0

abbrev pub IsServed : List (FlowKey × FlowHandle) → FlowKey → Text → Type 0
IsServed flows key service_id =
    (flow : FlowHandle) × (get flows key ≡ some flow) × (flow.service_id ≡ service_id)

-- What attaching a Carrier of a service to a flow makes of the registry.
pub record Attaches (r : Registry) (key : FlowKey) (service_id : Text) (a : Attached) : Type 0 where
  pub others : (k : FlowKey) → k ≢ key → get a.0.flows k ≡ get r.flows k
  pub same : Same (get r.flows key) (get a.0.flows key)
  pub served : is_ok a.1 ≡ true → IsServed a.0.flows key service_id
  pub taken : a.0.carrier_permits + took a.1 ≡ r.carrier_permits

-- Another key's entry is not touched by an insertion.
insert-others :
    (flows : List (FlowKey × FlowHandle)) (key : FlowKey) (flow : FlowHandle) (k : FlowKey)
    → k ≢ key
    → get (insert flows key flow) k ≡ get flows k
insert-others flows key flow k other =
    get-insert flows key k flow ∙ elim (Bool-cases (pair_key.beq key k)) [
      | inl e ↦ absurd (other (sym ((pair_key.beq_iff key k).0 e)))
      | inr e ↦ rw (e) refl
    ]

insert-own :
    (flows : List (FlowKey × FlowHandle)) (key : FlowKey) (flow : FlowHandle)
    → get (insert flows key flow) key ≡ some flow
insert-own flows key flow =
    get-insert flows key key flow ∙ rw ((pair_key.beq_iff key key).1 refl) refl

-- A fresh instance's flows are at most the one that was just put in.
retain-others :
    (flows : List (FlowKey × FlowHandle)) (instance_id : Uuid) (key : FlowKey) (new : FlowHandle)
    (k : FlowKey)
    → IsFresh flows instance_id
    → k ≢ key
    → get (retain (λ flow. not (flow.instance_id == instance_id)) (insert flows key new)) k
      ≡ get flows k
retain-others flows instance_id key new k fresh other =
    get-retain (λ flow. not (flow.instance_id == instance_id)) (insert flows key new) k
    ∙ ap (retained (λ flow. not (flow.instance_id == instance_id)))
        (insert-others flows key new k other)
    ∙ elim (Option-cases (get flows k)) [
      | inl e ↦ rw (e) refl
      | inr (flow, e) ↦
          let differs : (flow.instance_id == instance_id) ≡ false =
            ground (arith, fresh k flow e) in
          rw (e, differs) refl
    ]

hand_over-Attaches :
    (base r : Registry) (key : FlowKey) (flow : FlowHandle) (service_id : Text) (received : Bool)
    → ((k : FlowKey) → k ≢ key → get r.flows k ≡ get base.flows k)
    → get r.flows key ≡ some flow
    → Same (get base.flows key) (some flow)
    → flow.service_id ≡ service_id
    → r.carrier_permits ≡ base.carrier_permits
    → Attaches base key service_id (hand_over r key flow received)
unfolding hand_over
hand_over-Attaches base r key flow service_id received rest own same serves permits =
    by_if (Attaches base key service_id) (r.carrier_permits == 0) _ _ (λ _. refused carrier_limit)
      λ some_permit.
        by_if (Attaches base key service_id) (flow.carrier_slots == 0) _ _
          (λ _. refused flow_carrier_limit)
          λ _.
            by_if (Attaches base key service_id) (not received) _ _ (λ _. refused flow_closed)
              (λ _. record {
                others = λ k other. insert-others r.flows key taken_slot k other ∙ rest k other;
                same =
                    subst (Same (get base.flows key)) (sym (insert-own r.flows key taken_slot))
                      (Same-slots (get base.flows key) flow (flow.carrier_slots - 1) same);
                served = λ _. (taken_slot, insert-own r.flows key taken_slot, serves);
                taken = ground (arith, some_permit, permits);
              })
  where
    taken_slot : FlowHandle
    taken_slot = record flow { carrier_slots = flow.carrier_slots - 1 }

    refused : (e : AttachError) → Attaches base key service_id (r, err e)
    refused e = record {
      others = rest;
      same = subst (Same (get base.flows key)) (sym own) same;
      served = λ h. absurd (ground (arith, h));
      taken = omega (arith, permits);
    }

open_new-Attaches :
    (r : Registry) (key : FlowKey) (service_id : Text) (instance_id : Uuid)
    (spawned received : Bool)
    → IsFresh r.flows instance_id
    → get r.flows key ≡ none
    → Attaches r key service_id (open_new r key service_id instance_id spawned received)
unfolding open_new
open_new-Attaches r key service_id instance_id spawned received fresh absent =
    let new = new_flow r instance_id service_id in
    by_if (Attaches r key service_id) (r.permits == 0) _ _
      (λ _. record {
        others = λ k other. refl;
        same = Same-refl (get r.flows key);
        served = λ h. absurd (ground (arith, h));
        taken = omega arith;
      })
      λ _.
        by_if (Attaches r key service_id) (not spawned) _ _
          (λ _. record {
            others = λ k. retain-others r.flows instance_id key new k fresh;
            same = rw (absent) tt;
            served = λ h. absurd (ground (arith, h));
            taken = omega arith;
          })
          (λ _.
            hand_over-Attaches r
              (record r { permits = r.permits - 1; flows = insert r.flows key new }) key new
              service_id received (insert-others r.flows key new) (insert-own r.flows key new)
              (rw (absent) tt) (unfold new_flow in refl) refl)

-- Attaching a Carrier, on every branch: the flows of other keys stay exactly as they are, also when
-- the task of a new flow cannot be spawned; a flow that is there under the key keeps its service and
-- its instance; only if the flow under the key is of the service asked for is the Carrier taken; and
-- exactly a Carrier that is taken costs a permit. The id of a new instance is not in use.
pub attach-Attaches :
    (r : Registry) (key : FlowKey) (service_id : Text) (instance_id : Uuid)
    (spawned received : Bool)
    → IsFresh r.flows instance_id
    → Attaches r key service_id (attach r key service_id instance_id spawned received)
unfolding attach
attach-Attaches r key service_id instance_id spawned received fresh =
    elim (Option-cases (get r.flows key)) [
      | inl e ↦
          rw (e, attach) (open_new-Attaches r key service_id instance_id spawned received fresh e)
      | inr (flow, e) ↦
          rw (e, attach)
            (by_if (Attaches r key service_id) (not (text_eq flow.service_id service_id)) _ _
              (λ _. record {
                others = λ k other. refl;
                same = Same-refl (get r.flows key);
                served = λ h. absurd (ground (arith, h));
                taken = omega arith;
              })
              (λ served.
                hand_over-Attaches r r key flow service_id received (λ k other. refl) e
                  (rw (e) (refl, refl))
                  ((text_eq_iff flow.service_id service_id).0 (ground (arith, served))) refl))
    ]
