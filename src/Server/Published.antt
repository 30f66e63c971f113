-- ===== src/Server/Published.antt =====
-- What the peers of the Server make of the snapshots that server/src/authorization.rs publishes.
use flowsplice_rust.Prelude.{
  ℕ, ◌≡◌, refl, sym, ap, ◌∙◌, subst, Bool, true, false, not, ◌||◌, List, [], ◌∷◌, map, arith, ltb,
  ◌==◌, if◌then◌else◌, length, is_empty, ok, ◌>>=◌, ◌>>◌, bail_if, ok_or, >>=-eq-ok, >>-eq-ok,
  ok_inj,
}
use flowsplice_rust.Prelude.Text.{Text}
use flowsplice_rust.Prelude.Maps.{contains, contains_key, nat_eq}
use flowsplice_rust.Protocol.{Uuid}
use flowsplice_rust.Authorization.Scope.{
  Crypto, TrustedTravelAuthority, bad_deployment, bad_generation, bad_revocation,
  unknown_revocation, duplicate_revocation, not_encoded,
}
use flowsplice_rust.Authorization.Credential.{
  TravelCredential, SignedTravelCredential, Parse, validate_trusted_authorities,
}
use flowsplice_rust.Authorization.Snapshot.{
  TravelRevocation, TravelAuthorizationSnapshot, VerifiedAuthorization, Encode, verify,
  verify_entries, conclude, Indexes, verified, check_revocations, add_credentials,
  authorities_by_id, no_indexes, accept, cache_of,
}
use flowsplice_rust.Authorization.Cache.{accept_iff}
use flowsplice_rust.Server.{ServerAuthorization, Store, revoke_from_home, import_credential}
use flowsplice_rust.Server.Changes.{
  Grows, Keeps, Keeps-map, Revoked, Imported, revoked_ids, revoke_from_home-Keeps,
  import_credential-Keeps,
}

contains-check_revocations :
    (credentials : List (Uuid × TravelCredential)) (rs : List TravelRevocation)
    (seen revoked : List Uuid) (j : Uuid)
    → check_revocations credentials rs seen ≡ ok revoked
    → contains revoked j ≡ (contains seen j || contains (map (λ r. r.credential_id) rs) j)
unfolding check_revocations contains
contains-check_revocations credentials [] seen revoked j h =
    ap (λ s. contains s j) (sym (ok_inj h)) ∙ ground arith
contains-check_revocations credentials (r ∷ rs) seen revoked j h =
    let rest = check_revocations credentials rs (r.credential_id ∷ seen) in
    let new = bail_if (contains seen r.credential_id) duplicate_revocation >> rest in
    let known =
      bail_if (not (contains_key credentials r.credential_id)) unknown_revocation >> new in
    let a =
      >>-eq-ok (r.revoked_at_unix_secs == 0 || is_empty r.reason || ltb 256 (length r.reason))
        bad_revocation known h in
    let b = >>-eq-ok (not (contains_key credentials r.credential_id)) unknown_revocation new a.1 in
    let c = >>-eq-ok (contains seen r.credential_id) duplicate_revocation rest b.1 in
    contains-check_revocations credentials rs (r.credential_id ∷ seen) revoked j c.1 ∙ ground arith

-- What is served shows the generation and the revocations of its snapshot.
pub record Shows (snapshot : TravelAuthorizationSnapshot) (a : VerifiedAuthorization) : Type 0 where
  pub generation : a.generation ≡ snapshot.generation
  pub revoked : (j : Uuid) → contains a.revoked_credentials j ≡ contains (revoked_ids snapshot) j

module _ (crypto : Crypto) (parse : Parse) (encode : Encode) (deployment_id : Text)
    (snapshot : TravelAuthorizationSnapshot) (authorities : List TrustedTravelAuthority)
    (a : VerifiedAuthorization) where
  conclude-Shows :
      (ix : Indexes)
      → conclude crypto parse deployment_id encode snapshot ix ≡ ok a
      → Shows snapshot a
  unfolding conclude contains
  conclude-Shows ix h =
      let r =
        >>=-eq-ok (check_revocations ix.credentials snapshot.revocations [])
          (λ revoked. ok_or (encode snapshot) not_encoded >>= λ bytes.
            ok (verified crypto parse deployment_id snapshot ix revoked bytes))
          h in
      let b =
        >>=-eq-ok (ok_or (encode snapshot) not_encoded)
          (λ bytes. ok (verified crypto parse deployment_id snapshot ix r.0 bytes)) r.2 in
      subst (Shows snapshot) (ok_inj b.2) (record {
        generation = refl;
        revoked = λ j. contains-check_revocations ix.credentials snapshot.revocations [] r.0 j r.1;
      })

  pub verify-Shows :
      verify crypto parse deployment_id encode snapshot authorities ≡ ok a → Shows snapshot a
  unfolding verify verify_entries
  verify-Shows h =
      let entries = verify_entries crypto parse deployment_id encode snapshot authorities in
      let x =
        >>-eq-ok (is_empty deployment_id) bad_deployment
          (bail_if (snapshot.generation == 0) bad_generation
            >> (validate_trusted_authorities crypto authorities >> entries))
          h in
      let y =
        >>-eq-ok (snapshot.generation == 0) bad_generation
          (validate_trusted_authorities crypto authorities >> entries) x.1 in
      let z = >>=-eq-ok (validate_trusted_authorities crypto authorities) (λ _. entries) y.1 in
      let i =
        >>=-eq-ok
          (add_credentials crypto parse deployment_id (authorities_by_id authorities)
            snapshot.credentials no_indexes)
          (conclude crypto parse deployment_id encode snapshot) z.2 in
      conclude-Shows i.0 i.2

module _ {Grant : Type 0} (crypto : Crypto) (parse : Parse) (encode : Encode) (store : Store Grant)
    (s : ServerAuthorization Grant)
    (served : verify crypto parse s.deployment_id encode s.snapshot s.authorities
      ≡ ok s.verified) where
  accept-Grows :
      (s' : ServerAuthorization Grant)
      → Grows crypto parse encode s s'
      → accept (cache_of s.verified) s'.verified ≡ ok (cache_of s'.verified)
  accept-Grows s' g =
      let old : Shows s.snapshot s.verified =
        verify-Shows crypto parse encode s.deployment_id s.snapshot s.authorities s.verified
          served in
      let new : Shows s'.snapshot s'.verified =
        verify-Shows crypto parse encode s'.deployment_id s'.snapshot s'.authorities s'.verified
          g.served in
      (accept_iff (cache_of s.verified) (cache_of s'.verified) s'.verified).1 (
        refl,
        record {
          generation = omega (arith, old.generation, new.generation, g.generation);
          revocations = λ id h. new.revoked id ∙ g.revocations id (sym (old.revoked id) ∙ h);
          digest = λ e. absurd (omega (arith, e, old.generation, new.generation, g.generation));
        },
      )

  -- A peer that holds what was served takes what is served next.
  abbrev pub Accepted : ServerAuthorization Grant → Bool → Type 0
  Accepted s' changed =
      if changed
      then accept (cache_of s.verified) s'.verified ≡ ok (cache_of s'.verified)
      else (s' ≡ s)

  Revoked-Accepted :
      (id : Uuid) (s' : ServerAuthorization Grant) (changed : Bool)
      → Revoked crypto parse encode store s id s' changed
      → Accepted s' changed
  Revoked-Accepted id s' true r = accept-Grows s' r.1
  Revoked-Accepted id s' false r = r.1

  Imported-Accepted :
      (signed : SignedTravelCredential) (s' : ServerAuthorization Grant) (changed : Bool)
      → Imported crypto parse encode store s signed s' changed
      → Accepted s' changed
  Imported-Accepted signed s' true i = accept-Grows s' i.grows
  Imported-Accepted signed s' false i = i

  -- From a state that serves the verified form of its snapshot, what the Server serves after an import
  -- or a revocation that changed something is accepted by every peer whose cache holds what it served
  -- before: it is never taken for a rollback, a change within a generation or a lost revocation.
  pub change-Accepted :
      (signed : SignedTravelCredential) (id : Uuid) (now : ℕ) (reason home : Text)
      → Keeps Accepted (import_credential crypto parse encode store s signed home)
        × Keeps Accepted (revoke_from_home crypto parse encode store s id now reason home)
  change-Accepted signed id now reason home = (
    Keeps-map (Imported crypto parse encode store s signed) Accepted _ (Imported-Accepted signed)
        (import_credential-Keeps crypto parse encode store s signed home),
    Keeps-map (Revoked crypto parse encode store s id) Accepted _ (Revoked-Accepted id)
        (revoke_from_home-Keeps crypto parse encode store s id now reason home),
  )
