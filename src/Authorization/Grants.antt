-- ===== src/Authorization/Grants.antt =====
-- internal/flowsplice-core/src/authorization.rs: whom a verified snapshot authorizes.
use flowsplice_rust.Authorization.Active.{check_revocations_lem, authorize_all_lem}
use flowsplice_rust.Prelude.{
  ℕ, ◌≡◌, ◌≢◌, sym, ap, ◌∙◌, inl, inr, subst, true, false, List, [], none, ok, ◌>>◌, ◌>>=◌, bail_if,
  ok_or, ◌==◌, arith, is_empty, head, find, filter, Member, Member-filter, Member-head, Member-find,
  some_inj, >>=-eq-ok, >>-eq-ok, ok_inj, ok_or-eq-ok,
}
use flowsplice_rust.Prelude.Text.{Text}
use flowsplice_rust.Prelude.Maps.{contains, nat_eq, text_key, pair_key}
use flowsplice_rust.Protocol.{Uuid}
use flowsplice_rust.Authorization.Scope.{
  Crypto, TrustedTravelAuthority, allows_home, not_covered, bad_deployment, bad_generation,
  not_encoded, not_for_home, not_routed,
}
use flowsplice_rust.Authorization.Credential.{
  TravelCredential, Parse, active_at, validate_trusted_authorities,
}
use flowsplice_rust.Authorization.Snapshot.{
  Key, Index, VerifiedAuthorization, TravelAuthorizationSnapshot, TravelRevocation, Encode,
  management_key, business_key, no_indexes, check_revocations, add_credentials, authorities_by_id,
  verify, verify_entries, conclude, verified,
}
use flowsplice_rust.Authorization.Indexing.{
  Consistent, Points, Among, no_indexes-Consistent, add_credentials-Consistent,
}
use flowsplice_rust.Authorization.Latest.{for_home, latest-Member}
use flowsplice_rust.Authorization.Access.{
  PeerIdentity, identity_active_at, identity_key, authorize_all, latest, authorize_management_all,
  authorize_management, authorize_management_for_home, authorize_business,
  authorize_business_credential,
}

module _ (crypto : Crypto) (parse : Parse) (encode : Encode) (deployment_id : Text)
    (authorities : List TrustedTravelAuthority) (snapshot : TravelAuthorizationSnapshot) where
  -- The snapshot carries `c`, signed for this deployment by a trusted authority with a scope it may
  -- give; it binds the Travel id and the pin of the identity; it and the identity's certificate are
  -- valid at the time; and no revocation of the snapshot names it.
  pub record Grants (key_of : TravelCredential → Key) (identity : PeerIdentity) (unix_secs : ℕ)
      (c : TravelCredential) : Type 0 where
    pub signed : Among crypto parse deployment_id authorities snapshot.credentials c
    pub bound : key_of c ≡ identity_key identity
    pub credential_active : active_at c unix_secs ≡ true
    pub certificate_active : identity_active_at identity unix_secs ≡ true
    pub not_revoked :
        (r : TravelRevocation) → Member r snapshot.revocations → r.credential_id ≢ c.credential_id

  -- What `verify` guarantees of its result.
  record Verifies (a : VerifiedAuthorization) : Type 0 where
    consistent :
        Consistent (Among crypto parse deployment_id authorities snapshot.credentials) a.indexes
    revoked :
        (r : TravelRevocation)
        → Member r snapshot.revocations
        → contains a.revoked_credentials r.credential_id ≡ true

  verify-Verifies :
      (a : VerifiedAuthorization)
      → verify crypto parse deployment_id encode snapshot authorities ≡ ok a
      → Verifies a
  unfolding verify verify_entries conclude contains
  verify-Verifies a h =
      let entries = verify_entries crypto parse deployment_id encode snapshot authorities in
      let x =
        >>-eq-ok (is_empty deployment_id) bad_deployment
          (bail_if (snapshot.generation == 0) bad_generation
            >> (validate_trusted_authorities crypto authorities >> entries))
          h in
      let y =
        >>-eq-ok (snapshot.generation == 0) bad_generation
          (validate_trusted_authorities crypto authorities >> entries) x.1 in
      let z = >>=-eq-ok (validate_trusted_authorities crypto authorities) (λ _. entries) y.1 in
      let i =
        >>=-eq-ok
          (add_credentials crypto parse deployment_id (authorities_by_id authorities)
            snapshot.credentials no_indexes)
          (conclude crypto parse deployment_id encode snapshot) z.2 in
      let r =
        >>=-eq-ok (check_revocations i.0.credentials snapshot.revocations [])
          (λ revoked. ok_or (encode snapshot) not_encoded >>= λ bytes.
            ok (verified crypto parse deployment_id snapshot i.0 revoked bytes))
          i.2 in
      let b =
        >>=-eq-ok (ok_or (encode snapshot) not_encoded)
          (λ bytes. ok (verified crypto parse deployment_id snapshot i.0 r.0 bytes)) r.2 in
      subst Verifies (ok_inj b.2) (record {
        consistent =
            add_credentials-Consistent crypto parse deployment_id authorities snapshot.credentials
              snapshot.credentials no_indexes i.0 (λ s m. m) (no_indexes-Consistent _) i.1;
        revoked = (check_revocations_lem i.0.credentials snapshot.revocations [] r.0 r.1).1;
      })

  all-Grants :
      (key_of : TravelCredential → Key) (index : Index) (a : VerifiedAuthorization)
      (identity : PeerIdentity) (unix_secs : ℕ) (cs : List TravelCredential) (c : TravelCredential)
      → Verifies a
      → Points key_of index a.indexes.credentials
      → authorize_all a index identity unix_secs ≡ ok cs
      → Member c cs
      → Grants key_of identity unix_secs c
  all-Grants key_of index a identity unix_secs cs c v points h m =
      let l = authorize_all_lem a unix_secs index identity cs c h m in
      let p = points (identity_key identity) l.0 l.1 in
      let s = v.consistent.stored l.0 c l.2 in
      record {
        signed = s.1;
        bound = ap key_of (some_inj (sym l.2 ∙ p.1)) ∙ p.2;
        credential_active = l.4;
        certificate_active = l.5;
        not_revoked = λ r q e.
            let same : true ≡ false =
              sym (v.revoked r q) ∙ ap (contains a.revoked_credentials) (e ∙ s.0) ∙ l.3 in
            cc;
      }

  -- A management identity is authorized only by a credential that the verified snapshot grants it:
  -- signed by a trusted authority for the deployment, bound to the identity's Travel id and
  -- management pin, within both validity intervals, and revoked nowhere in the snapshot.
  pub authorize_management-Grants :
      (a : VerifiedAuthorization) (identity : PeerIdentity) (unix_secs : ℕ) (c : TravelCredential)
      → verify crypto parse deployment_id encode snapshot authorities ≡ ok a
      → authorize_management a identity unix_secs ≡ ok c
      → Grants management_key identity unix_secs c
  unfolding authorize_management
  authorize_management-Grants a identity unix_secs c v h =
      let k = verify-Verifies a v in
      let x =
        >>=-eq-ok (authorize_all a a.indexes.management_index identity unix_secs)
          (λ active. ok_or (head active) not_covered) h in
      all-Grants management_key a.indexes.management_index a identity unix_secs x.0 c k
        k.consistent.management_points x.1
        (Member-head x.0 (ok_or-eq-ok (head x.0) not_covered x.2))

  -- The same of a business identity, with its business pin.
  pub authorize_business-Grants :
      (a : VerifiedAuthorization) (identity : PeerIdentity) (unix_secs : ℕ) (c : TravelCredential)
      → verify crypto parse deployment_id encode snapshot authorities ≡ ok a
      → authorize_business a identity unix_secs ≡ ok c
      → Grants business_key identity unix_secs c
  unfolding authorize_business
  authorize_business-Grants a identity unix_secs c v h =
      let k = verify-Verifies a v in
      let x =
        >>=-eq-ok (authorize_all a a.indexes.business_index identity unix_secs)
          (λ active. ok_or (head active) not_covered) h in
      all-Grants business_key a.indexes.business_index a identity unix_secs x.0 c k
        k.consistent.business_points x.1 (Member-head x.0 (ok_or-eq-ok (head x.0) not_covered x.2))

  -- A business identity that presents the credential of its route gets that very credential, and
  -- the verified snapshot grants it to the identity.
  pub authorize_business_credential-Grants :
      (a : VerifiedAuthorization) (identity : PeerIdentity) (id : Uuid) (unix_secs : ℕ)
      (c : TravelCredential)
      → verify crypto parse deployment_id encode snapshot authorities ≡ ok a
      → authorize_business_credential a identity id unix_secs ≡ ok c
      → Grants business_key identity unix_secs c × (c.credential_id ≡ id)
  unfolding authorize_business_credential
  authorize_business_credential-Grants a identity id unix_secs c v h =
      let k = verify-Verifies a v in
      let x =
        >>=-eq-ok (authorize_all a a.indexes.business_index identity unix_secs)
          (λ active. ok_or (find (λ d. d.credential_id == id) active) not_routed) h in
      let f =
        Member-find (λ d. d.credential_id == id) x.0
          (ok_or-eq-ok (find (λ d. d.credential_id == id) x.0) not_routed x.2) in
      (
        all-Grants business_key a.indexes.business_index a identity unix_secs x.0 c k
            k.consistent.business_points x.1 f.0,
        ground (arith, f.1),
      )

  -- A management identity is routed to a Home only under a credential that the verified snapshot
  -- grants it and that allows the Home.
  pub authorize_management_for_home-Grants :
      (a : VerifiedAuthorization) (identity : PeerIdentity) (home_id : Text) (unix_secs : ℕ)
      (c : TravelCredential)
      → verify crypto parse deployment_id encode snapshot authorities ≡ ok a
      → authorize_management_for_home a identity home_id unix_secs ≡ ok c
      → Grants management_key identity unix_secs c × (allows_home c.scope home_id ≡ true)
  unfolding authorize_management_for_home authorize_management_all
  authorize_management_for_home-Grants a identity home_id unix_secs c v h =
      let k = verify-Verifies a v in
      let x =
        >>=-eq-ok (authorize_all a a.indexes.management_index identity unix_secs)
          (λ active. ok_or (latest none (filter (for_home home_id) active)) not_for_home) h in
      elim (latest-Member none (filter (for_home home_id) x.0) c
        (ok_or-eq-ok (latest none (filter (for_home home_id) x.0)) not_for_home x.2)) [
          | inl e ↦ cc
          | inr m ↦
              let f = Member-filter (for_home home_id) x.0 m in
              (
                all-Grants management_key a.indexes.management_index a identity unix_secs x.0 c k
                    k.consistent.management_points x.1 f.0,
                f.1,
              )
        ]
