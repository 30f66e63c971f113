-- ===== src/Server.antt =====
-- server/src/authorization.rs: the Server's authorization state, which Homes import credentials into
-- and revoke them from. The clock, the encoded size of a state and the outcome of its atomic storage
-- come with a call; `Grant` is the type of signed service grants, which are passed on as they are.
pub mod Changes
pub mod Published
pub mod Cuts
mod Runs
use flowsplice_rust.Prelude.{
  ℕ, zero, suc, ◌+◌, ◌-◌, ◌*◌, ◌/◌, ◌≤◌, ◌<◌, min, max, ◌≡◌, refl, sym, ap, ◌∙◌, subst, ◌≢◌, ◌↔◌,
  ◌⊎◌, inl, inr, Bool, true, false, not, ◌&&◌, ◌||◌, Option, none, some, List, [], ◌∷◌, ◌++◌, map,
  append-nil, append_assoc, arith, ltb, leb, ◌==◌, if◌then◌else◌, ltb→lt, lt→ltb, leb→le, ==_iff,
  Bool-cases, Option-cases, is_some, length, is_empty, take, drop, concat, length-append,
  nil_of_length, take-append-drop, length-take, length-drop, take_front, drop_front, take_nil,
  drop_nil, drop_past, take-add, drop-append, take-append, drop-drop, take_all, concat-append, All,
  All-append, length-reverse, All-reverse, Member, here, there, filter, head, find, Member-filter,
  filter-Member, some_inj, Member-head, Member-find, is_empty-eq, Result, ok, err, ◌>>=◌, ◌>>◌,
  bail_if, ok_or, is_ok, Result-cases, >>=-eq-ok, ok_or-eq-ok, bail_if-eq-ok, >>-eq-ok, ok_inj,
  u64_max, IsU64, saturating_add, checked_add, saturating_add_lem, checked_add_lem,
}
use flowsplice_rust.Prelude.Text.{Text, text_eq}
use flowsplice_rust.Prelude.Bytes.{Bytes}
use flowsplice_rust.Prelude.Maps.{contains, insert_new, is_subset, get, text_key, nat_eq}
use flowsplice_rust.Protocol.{Uuid}
use flowsplice_rust.Authorization.Scope.{
  Crypto, Checked, TrustedTravelAuthority, global_authority, home_authority, authority_id_of,
  epoch_of, home_id_of, is_home,
}
use flowsplice_rust.Authorization.Credential.{
  TravelCredential, SignedTravelCredential, Parse, verify_signed, validate_trusted_authorities,
}
use flowsplice_rust.Authorization.Snapshot.{
  TravelRevocation, TravelAuthorizationSnapshot, VerifiedAuthorization, Encode, verify,
}
use flowsplice_rust.Authorization.Access.{is_active}

abbrev pub authorization_state_version : ℕ
authorization_state_version = 1

abbrev pub max_credentials : ℕ
max_credentials = 2048

abbrev pub max_revocations : ℕ
max_revocations = 2048

abbrev pub max_state_bytes : ℕ
max_state_bytes = 900 * 1024

pub record PersistentAuthorizationState (Grant : Type 0) : Type 0 where
  pub version : ℕ
  pub snapshot : TravelAuthorizationSnapshot
  pub used_enrollment_requests : List Text
  pub business_home_grants : List (Text × Grant)

pub record ServerAuthorization (Grant : Type 0) : Type 0 where
  pub deployment_id : Text
  pub authorities : List TrustedTravelAuthority
  pub snapshot : TravelAuthorizationSnapshot
  pub verified : VerifiedAuthorization
  pub used_enrollment_requests : List Text
  pub business_home_grants : List (Text × Grant)

pub data ServerError : Type 0 where
  unverified too_many not_encoded too_large not_stored : ServerError
  unknown_credential unknown_authority not_issued_here generation_exhausted : ServerError
  different_material request_used : ServerError

abbrev pub Tried : Type 0 → Type 0
Tried A = Result ServerError A

-- `map_err` and `?` on a check of the authorization.
abbrev pub checked : {A : Type 0} → Checked A → Tried A
checked (ok a) = ok a
checked (err e) = err unverified

unfoldable pub next_generation : TravelAuthorizationSnapshot → Tried ℕ
next_generation snapshot = ok_or (checked_add snapshot.generation 1) generation_exhausted

-- What `serde_json::to_vec` and `store_json_atomic` do with a state: its length, if it can be
-- encoded, and whether it is stored.
pub record Store (Grant : Type 0) : Type 0 where
  pub encoded_len : PersistentAuthorizationState Grant → Option ℕ
  pub stored : PersistentAuthorizationState Grant → Bool

module _ {Grant : Type 0} where
  unfoldable pub validate_state_size :
      Store Grant → PersistentAuthorizationState Grant → Tried (Unit {0})
  validate_state_size store state = do
    bail_if
        (ltb 64 (length state.snapshot.home_endpoint_credentials)
          || (ltb max_credentials (length state.snapshot.credentials)
              || ltb max_revocations (length state.snapshot.revocations)))
        too_many
    len ← ok_or (store.encoded_len state) not_encoded
    bail_if (ltb max_state_bytes len) too_large

  unfoldable pub persist_with_grants :
      Store Grant → TravelAuthorizationSnapshot → List Text → List (Text × Grant) → Tried (Unit {0})
  unfolding validate_state_size
  persist_with_grants store snapshot used grants =
      let state : PersistentAuthorizationState Grant = record {
        version = authorization_state_version;
        snapshot = snapshot;
        used_enrollment_requests = used;
        business_home_grants = grants;
      } in
      validate_state_size store state >> bail_if (not (store.stored state)) not_stored

  unfoldable pub persist :
      Store Grant
      → ServerAuthorization Grant
      → TravelAuthorizationSnapshot
      → List Text
      → Tried (Unit {0})
  unfolding persist_with_grants
  persist store s snapshot used = persist_with_grants store snapshot used s.business_home_grants

  module _ (crypto : Crypto) (parse : Parse) (encode : Encode) (store : Store Grant) where
    abbrev pub Change : Type 0
    Change = Tried (ServerAuthorization Grant × Bool)

    -- The proposed state is verified and stored, and only then served.
    unfoldable pub publish :
        ServerAuthorization Grant → TravelAuthorizationSnapshot → List Text → Change
    publish s proposed used = do
      verified ← checked (verify crypto parse s.deployment_id encode proposed s.authorities)
      persist store s proposed used
      ok (
        record s { snapshot = proposed; verified = verified; used_enrollment_requests = used },
        true,
      )

    unfoldable pub propose_revocation : ServerAuthorization Grant → Uuid → ℕ → Text → ℕ → Change
    unfolding publish
    propose_revocation s credential_id now reason generation =
        publish s
          (record s.snapshot {
            generation = generation;
            revocations =
                s.snapshot.revocations
                ++ (record {
                  credential_id = credential_id;
                  revoked_at_unix_secs = now;
                  reason = reason;
                }
                    ∷ []);
          })
          s.used_enrollment_requests

    unfoldable pub revoke_issued :
        ServerAuthorization Grant → Uuid → ℕ → Text → Text → TrustedTravelAuthority → Change
    unfolding next_generation propose_revocation
    revoke_issued s credential_id now reason publisher_home_id authority =
        if not (is_home (home_id_of authority) publisher_home_id)
        then err not_issued_here
        else if contains (map (λ r. r.credential_id) s.snapshot.revocations) credential_id
        then ok (s, false)
        else next_generation s.snapshot >>= propose_revocation s credential_id now reason

    unfoldable pub revoke_from_home : ServerAuthorization Grant → Uuid → ℕ → Text → Text → Change
    unfolding revoke_issued
    revoke_from_home s credential_id now reason publisher_home_id = do
      credential ← ok_or (get s.verified.indexes.credentials credential_id) unknown_credential
      authority ←
          ok_or (find (λ a. text_eq (authority_id_of a) credential.authority_id) s.authorities)
            unknown_authority
      revoke_issued s credential_id now reason publisher_home_id authority

    -- The stored credential verifies under its authority and has that id.
    unfoldable pub has_id : List TrustedTravelAuthority → Uuid → SignedTravelCredential → Bool
    has_id authorities id existing =
        elim (find (λ a. text_eq (authority_id_of a) existing.authority_id) authorities) [
          | none ↦ false
          | some a ↦ elim (verify_signed crypto parse existing a) [
            | ok value ↦ value.credential_id == id
            | err e ↦ false
          ]
        ]

    unfoldable pub propose_credential :
        ServerAuthorization Grant → SignedTravelCredential → TravelCredential → ℕ → Change
    unfolding publish
    propose_credential s signed credential generation =
        publish s
          (record s.snapshot {
            generation = generation;
            credentials = s.snapshot.credentials ++ (signed ∷ []);
          })
          (insert_new s.used_enrollment_requests credential.enrollment_request_sha256)

    unfoldable pub import_verified :
        ServerAuthorization Grant → SignedTravelCredential → TravelCredential → Change
    unfolding has_id next_generation propose_credential
    import_verified s signed credential =
        elim (find (has_id s.authorities credential.credential_id) s.snapshot.credentials) [
          | some existing ↦
              if text_eq existing.payload_hex signed.payload_hex
              then ok (s, false)
              else err different_material
          | none ↦
              if contains s.used_enrollment_requests credential.enrollment_request_sha256
              then err request_used
              else next_generation s.snapshot >>= propose_credential s signed credential
        ]

    unfoldable pub import_signed :
        ServerAuthorization Grant → SignedTravelCredential → Text → TrustedTravelAuthority → Change
    unfolding import_verified
    import_signed s signed publisher_home_id authority =
        if not (is_home (home_id_of authority) publisher_home_id)
        then err not_issued_here
        else checked (verify_signed crypto parse signed authority) >>= import_verified s signed

    unfoldable pub import_credential :
        ServerAuthorization Grant → SignedTravelCredential → Text → Change
    unfolding import_signed
    import_credential s signed publisher_home_id = do
      authority ←
          ok_or (find (λ a. text_eq (authority_id_of a) signed.authority_id) s.authorities)
            unknown_authority
      import_signed s signed publisher_home_id authority
