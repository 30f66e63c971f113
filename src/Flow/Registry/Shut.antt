-- ===== src/Flow/Registry/Shut.antt =====
-- crates/flowsplice-home-core/src/tcp_flow.rs: which flows `TcpFlowRegistry::revoke_inactive` signals.
use flowsplice_rust.Prelude.{
  ℕ, ◌≡◌, refl, ap, ◌∙◌, true, false, List, [], ◌∷◌, Option, none, some, Bool-cases, inl, inr,
}
use flowsplice_rust.Prelude.Maps.{get, pair_key, nat_eq, text_key}
use flowsplice_rust.Authorization.Snapshot.{VerifiedAuthorization}
use flowsplice_rust.Authorization.Access.{is_active}
use flowsplice_rust.Flow.Registry.{FlowKey, credential_of, FlowHandle, signal, revoke_inactive}

-- A flow that is there has the signal, and is the same otherwise.
abbrev pub shut : Option FlowHandle → Option FlowHandle
shut none = none
shut (some flow) = some (record flow { shutdown = true })

pub get-revoke_inactive :
    (a : VerifiedAuthorization) (unix_secs : ℕ) (flows : List (FlowKey × FlowHandle))
    (key : FlowKey)
    → is_active a unix_secs (credential_of key) ≡ false
    → get (revoke_inactive a unix_secs flows) key ≡ shut (get flows key)
unfolding revoke_inactive signal get
get-revoke_inactive a unix_secs [] key h = refl
get-revoke_inactive a unix_secs ((k, flow) ∷ flows) key h = elim (Bool-cases (pair_key.beq k key)) [
  | inl e ↦
      let inactive : is_active a unix_secs (credential_of k) ≡ false =
        ap (λ x. is_active a unix_secs (credential_of x)) ((pair_key.beq_iff k key).0 e) ∙ h in
      rw (e, inactive) refl
  | inr e ↦ rw (e) (get-revoke_inactive a unix_secs flows key h)
]

pub get-revoke_inactive_active :
    (a : VerifiedAuthorization) (unix_secs : ℕ) (flows : List (FlowKey × FlowHandle))
    (key : FlowKey)
    → is_active a unix_secs (credential_of key) ≡ true
    → get (revoke_inactive a unix_secs flows) key ≡ get flows key
unfolding revoke_inactive signal get
get-revoke_inactive_active a unix_secs [] key h = refl
get-revoke_inactive_active a unix_secs ((k, flow) ∷ flows) key h =
    elim (Bool-cases (pair_key.beq k key)) [
      | inl e ↦
          let active : is_active a unix_secs (credential_of k) ≡ true =
            ap (λ x. is_active a unix_secs (credential_of x)) ((pair_key.beq_iff k key).0 e) ∙ h in
          rw (e, active) refl
      | inr e ↦ rw (e) (get-revoke_inactive_active a unix_secs flows key h)
    ]
