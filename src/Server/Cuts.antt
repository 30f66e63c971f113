-- ===== src/Server/Cuts.antt =====
-- From a revocation in server/src/authorization.rs to the flows that a Home ends for it
-- (`revoke_inactive` of crates/flowsplice-home-core/src/tcp_flow.rs).
use flowsplice_rust.Prelude.{
  ℕ, ◌≡◌, refl, sym, ◌∙◌, subst, Bool, true, false, List, Option-cases, Bool-cases, inl, inr, ok,
  if◌then◌else◌,
}
use flowsplice_rust.Prelude.Text.{Text}
use flowsplice_rust.Prelude.Maps.{get, contains, pair_key, nat_eq, text_key}
use flowsplice_rust.Protocol.{Uuid}
use flowsplice_rust.Authorization.Scope.{Crypto}
use flowsplice_rust.Authorization.Credential.{Parse}
use flowsplice_rust.Authorization.Snapshot.{VerifiedAuthorization, Encode, verify}
use flowsplice_rust.Authorization.Access.{is_active}
use flowsplice_rust.Flow.Registry.{FlowKey, credential_of, FlowHandle, revoke_inactive}
use flowsplice_rust.Flow.Registry.Shut.{shut, get-revoke_inactive, get-revoke_inactive_active}
use flowsplice_rust.Server.{ServerAuthorization, Store, revoke_from_home}
use flowsplice_rust.Server.Changes.{Keeps, Keeps-map, Revoked, revoked_ids, revoke_from_home-Keeps}
use flowsplice_rust.Server.Published.{verify-Shows}

revoked_is_active :
    (a : VerifiedAuthorization) (unix_secs : ℕ) (id : Uuid)
    → contains a.revoked_credentials id ≡ true
    → is_active a unix_secs id ≡ false
unfolding is_active
revoked_is_active a unix_secs id h = elim (Option-cases (get a.indexes.credentials id)) [
  | inl e ↦ rw (e, is_active) refl
  | inr (c, e) ↦ rw (e, h, is_active) refl
]

module _ {Grant : Type 0} (crypto : Crypto) (parse : Parse) (encode : Encode) (store : Store Grant)
    (s : ServerAuthorization Grant)
    (served : verify crypto parse s.deployment_id encode s.snapshot s.authorities ≡ ok s.verified)
    (unix_secs : ℕ) (flows : List (FlowKey × FlowHandle)) (id : Uuid) (device : Text)
    (flow_id : Uuid) (other : FlowKey) where
  -- The Home has signalled the flow of the credential, and no other with an active credential.
  abbrev pub Cut : ServerAuthorization Grant → Bool → Type 0
  Cut s' changed =
      (get (revoke_inactive s'.verified unix_secs flows) (id, (device, flow_id))
        ≡ shut (get flows (id, (device, flow_id))))
      × (get (revoke_inactive s'.verified unix_secs flows) other ≡ (
          if is_active s'.verified unix_secs (credential_of other)
          then get flows other
          else shut (get flows other)))

  others :
      (a : VerifiedAuthorization)
      → get (revoke_inactive a unix_secs flows) other ≡ (
          if is_active a unix_secs (credential_of other)
          then get flows other
          else shut (get flows other))
  others a = elim (Bool-cases (is_active a unix_secs (credential_of other))) [
    | inl e ↦ rw (e) (get-revoke_inactive_active a unix_secs flows other e)
    | inr e ↦ rw (e) (get-revoke_inactive a unix_secs flows other e)
  ]

  revoked-Cut :
      (s' : ServerAuthorization Grant) (changed : Bool)
      → contains (revoked_ids s'.snapshot) id ≡ true
      → verify crypto parse s'.deployment_id encode s'.snapshot s'.authorities ≡ ok s'.verified
      → Cut s' changed
  revoked-Cut s' changed revoked served' =
      let shows =
        verify-Shows crypto parse encode s'.deployment_id s'.snapshot s'.authorities s'.verified
          served' in
      (
        get-revoke_inactive s'.verified unix_secs flows (id, (device, flow_id))
            (revoked_is_active s'.verified unix_secs id (shows.revoked id ∙ revoked)),
        others s'.verified,
      )

  Revoked-Cut :
      (s' : ServerAuthorization Grant) (changed : Bool)
      → Revoked crypto parse encode store s id s' changed
      → Cut s' changed
  Revoked-Cut s' true r = revoked-Cut s' true r.0 r.1.served
  Revoked-Cut s' false r = revoked-Cut s' false r.0 (
      subst
        (λ t. verify crypto parse t.deployment_id encode t.snapshot t.authorities ≡ ok t.verified)
        (sym r.1) served)

  -- From a state that serves the verified form of its snapshot: when a revocation has succeeded, a
  -- Home that goes through its flows with what the Server then serves signals the shutdown to each
  -- flow of the revoked credential, of any device, at any time, and changes nothing else of it. Of
  -- the other flows it signals exactly those whose credential is not active.
  pub revoke_from_home-Cut :
      (now : ℕ) (reason home : Text)
      → Keeps Cut (revoke_from_home crypto parse encode store s id now reason home)
  revoke_from_home-Cut now reason home =
      Keeps-map (Revoked crypto parse encode store s id) Cut _ Revoked-Cut
        (revoke_from_home-Keeps crypto parse encode store s id now reason home)
