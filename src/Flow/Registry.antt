-- ===== src/Flow/Registry.antt =====
-- crates/flowsplice-home-core/src/tcp_flow.rs: `TcpFlowRegistry`, which attaches Carriers to flows,
-- forgets a flow that ended and signals the flows of an inactive credential. A semaphore is the
-- number of its free permits. A flow's `Uuid` instance, whether its task could be spawned and whether
-- it takes the Carrier come from outside.
pub mod Kept
pub mod Shut
use flowsplice_rust.Prelude.{
  ℕ, ◌-◌, ◌≡◌, refl, Bool, true, false, not, List, [], ◌∷◌, Option, none, some, Result, ok, err,
  inl, inr, subst, sym, ap, ◌∙◌, ◌≢◌, some_inj, ==_iff, ◌==◌, if◌then◌else◌, Option-cases,
  Bool-cases,
}
use flowsplice_rust.Prelude.Text.{Text, text_eq}
use flowsplice_rust.Prelude.Maps.{get, insert, remove, retain, pair_key, nat_eq, text_key}
use flowsplice_rust.Protocol.{Uuid}
use flowsplice_rust.Authorization.Snapshot.{VerifiedAuthorization}
use flowsplice_rust.Authorization.Access.{is_active}

-- The credential, the Travel device and the flow.
abbrev pub FlowKey : Type 0
FlowKey = Uuid × (Text × Uuid)

abbrev pub credential_of : FlowKey → Uuid
credential_of (credential_id, rest) = credential_id

pub record FlowHandle : Type 0 where
  pub instance_id : Uuid
  pub service_id : Text
  pub shutdown : Bool
  pub carrier_slots : ℕ

pub record Registry : Type 0 where
  pub flows : List (FlowKey × FlowHandle)
  pub permits : ℕ
  pub carrier_permits : ℕ
  pub max_carriers_per_flow : ℕ

pub data AttachError : Type 0 where
  other_service flow_limit not_spawned carrier_limit flow_carrier_limit flow_closed : AttachError

-- What an attempt leaves, with its result.
abbrev pub Attached : Type 0
Attached = Registry × Result AttachError (Unit {0})

-- The permits of the Carrier and its way to the flow. A Carrier that does not arrive is dropped and
-- gives its permits back.
pub hand_over : Registry → FlowKey → FlowHandle → Bool → Attached
hand_over r key flow received =
    if r.carrier_permits == 0
    then (r, err carrier_limit)
    else if flow.carrier_slots == 0
    then (r, err flow_carrier_limit)
    else if not received
    then (r, err flow_closed)
    else (
      record r {
        carrier_permits = r.carrier_permits - 1;
        flows = insert r.flows key (record flow { carrier_slots = flow.carrier_slots - 1 });
      },
      ok tt,
    )

pub new_flow : Registry → Uuid → Text → FlowHandle
new_flow r instance_id service_id = record {
  instance_id = instance_id;
  service_id = service_id;
  shutdown = false;
  carrier_slots = r.max_carriers_per_flow;
}

-- If the task cannot be spawned, all flows of the new instance are taken out, and the flow's permit
-- is free again.
pub open_new : Registry → FlowKey → Text → Uuid → Bool → Bool → Attached
unfolding hand_over new_flow retain
open_new r key service_id instance_id spawned received =
    if r.permits == 0
    then (r, err flow_limit)
    else if not spawned
    then (
      record r {
        flows =
            retain (λ flow. not (flow.instance_id == instance_id))
              (insert r.flows key (new_flow r instance_id service_id));
      },
      err not_spawned,
    )
    else hand_over
        (record r {
          permits = r.permits - 1;
          flows = insert r.flows key (new_flow r instance_id service_id);
        })
        key (new_flow r instance_id service_id) received

pub attach : Registry → FlowKey → Text → Uuid → Bool → Bool → Attached
unfolding hand_over open_new
attach r key service_id instance_id spawned received = elim (get r.flows key) [
  | none ↦ open_new r key service_id instance_id spawned received
  | some flow ↦
      if not (text_eq flow.service_id service_id)
      then (r, err other_service)
      else hand_over r key flow received
]

-- `TcpFlowRegistry::remove`
pub remove_flow : Registry → FlowKey → Uuid → Registry
remove_flow r key instance_id = elim (get r.flows key) [
  | none ↦ r
  | some flow ↦
      if flow.instance_id == instance_id then record r { flows = remove r.flows key } else r
]

pub signal : VerifiedAuthorization → ℕ → FlowKey → FlowHandle → FlowHandle
signal a unix_secs key flow =
    if not (is_active a unix_secs (credential_of key))
    then record flow { shutdown = true }
    else flow

pub revoke_inactive :
    VerifiedAuthorization → ℕ → List (FlowKey × FlowHandle) → List (FlowKey × FlowHandle)
unfolding signal
revoke_inactive a unix_secs [] = []
revoke_inactive a unix_secs ((key, flow) ∷ flows) =
    (key, signal a unix_secs key flow) ∷ revoke_inactive a unix_secs flows
