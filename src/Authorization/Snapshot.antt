-- ===== src/Authorization/Snapshot.antt =====
-- internal/flowsplice-core/src/authorization.rs: `VerifiedAuthorization::verify`, which checks a
-- snapshot and indexes its credentials, and the cache that rejects a rollback.
use flowsplice_rust.Prelude.{
  ℕ, Bool, ◌&&◌, ◌||◌, not, List, [], ◌∷◌, Option, ok, ◌>>◌, ◌>>=◌, bail_if, ok_or, ltb, ◌==◌,
  length, is_empty,
}
use flowsplice_rust.Prelude.Bytes.{Bytes}
use flowsplice_rust.Prelude.Text.{Text, text_eq, to_ascii_lowercase}
use flowsplice_rust.Prelude.Maps.{
  get, insert, push, contains_key, contains, is_subset, text_key, nat_eq, pair_key,
}
use flowsplice_rust.Protocol.{Uuid}
use flowsplice_rust.Authorization.Scope.{
  Crypto, Checked, TrustedTravelAuthority, authority_id_of, unknown_authority, bad_deployment,
  bad_generation, wrong_deployment, duplicate_credential, bad_revocation, unknown_revocation,
  duplicate_revocation, not_encoded, rollback, content_changed, lost_revocation,
}
use flowsplice_rust.Authorization.Credential.{
  TravelCredential, SignedTravelCredential, Parse, verify_signed, validate_trusted_authorities,
}

-- internal/flowsplice-core/src/deployment.rs
pub record SignedHomeEndpointCredential : Type 0 where
  pub authority_id : Text
  pub payload_hex : Text
  pub signature_hex : Text

pub record TravelRevocation : Type 0 where
  pub credential_id : Uuid
  pub revoked_at_unix_secs : ℕ
  pub reason : Text

pub record TravelAuthorizationSnapshot : Type 0 where
  pub generation : ℕ
  pub home_endpoint_credentials : List SignedHomeEndpointCredential
  pub credentials : List SignedTravelCredential
  pub revocations : List TravelRevocation

-- A Travel id with a lowercase pin.
abbrev pub Key : Type 0
Key = Text × Text

abbrev pub Index : Type 0
Index = List (Key × List Uuid)

-- The maps that the loop of `verify` fills.
pub record Indexes : Type 0 where
  pub credentials : List (Uuid × TravelCredential)
  pub management_index : Index
  pub business_index : Index

pub record VerifiedAuthorization : Type 0 where
  pub generation : ℕ
  pub snapshot_sha256 : Text
  pub indexes : Indexes
  pub revoked_credentials : List Uuid

abbrev pub management_key : TravelCredential → Key
management_key c = (c.travel_id, to_ascii_lowercase c.management_spki_sha256)

abbrev pub business_key : TravelCredential → Key
business_key c = (c.travel_id, to_ascii_lowercase c.business_spki_sha256)

abbrev pub no_indexes : Indexes
no_indexes = record { credentials = []; management_index = []; business_index = [] }

-- The insertions of one round of the loop.
unfoldable pub index_credential : Indexes → TravelCredential → Indexes
index_credential ix c = record {
  credentials = insert ix.credentials c.credential_id c;
  management_index = push ix.management_index (management_key c) c.credential_id;
  business_index = push ix.business_index (business_key c) c.credential_id;
}

unfoldable pub collect_authorities :
    List (Text × TrustedTravelAuthority)
    → List TrustedTravelAuthority
    → List (Text × TrustedTravelAuthority)
collect_authorities found [] = found
collect_authorities found (a ∷ authorities) =
    collect_authorities (insert found (authority_id_of a) a) authorities

-- A later authority replaces an earlier one of the same id.
unfoldable pub authorities_by_id :
    List TrustedTravelAuthority → List (Text × TrustedTravelAuthority)
unfolding collect_authorities
authorities_by_id = collect_authorities []

unfoldable pub check_revocations :
    List (Uuid × TravelCredential) → List TravelRevocation → List Uuid → Checked (List Uuid)
check_revocations credentials [] revoked = ok revoked
check_revocations credentials (r ∷ revocations) revoked = do
  bail_if (r.revoked_at_unix_secs == 0 || is_empty r.reason || ltb 256 (length r.reason))
      bad_revocation
  bail_if (not (contains_key credentials r.credential_id)) unknown_revocation
  bail_if (contains revoked r.credential_id) duplicate_revocation
  check_revocations credentials revocations (r.credential_id ∷ revoked)

-- `serde_json::to_vec` at the snapshot.
abbrev pub Encode : Type 0
Encode = TravelAuthorizationSnapshot → Option Bytes

module _ (crypto : Crypto) (parse : Parse) (deployment_id : Text) where
  -- The checks and insertions that follow the signature check.
  unfoldable pub admit : Indexes → TravelCredential → Checked Indexes
  admit ix c = do
    bail_if (not (text_eq c.deployment_id deployment_id)) wrong_deployment
    bail_if (contains_key ix.credentials c.credential_id) duplicate_credential
    ok (index_credential ix c)

  unfoldable pub verify_with :
      SignedTravelCredential → Indexes → TrustedTravelAuthority → Checked Indexes
  unfolding admit
  verify_with signed ix authority = do
    credential ← verify_signed crypto parse signed authority
    admit ix credential

  -- One round of the loop over the signed credentials.
  unfoldable pub add_credential :
      List (Text × TrustedTravelAuthority) → SignedTravelCredential → Indexes → Checked Indexes
  unfolding verify_with
  add_credential authorities signed ix = do
    authority ← ok_or (get authorities signed.authority_id) unknown_authority
    verify_with signed ix authority

  unfoldable pub add_credentials :
      List (Text × TrustedTravelAuthority) → List SignedTravelCredential → Indexes → Checked Indexes
  unfolding add_credential
  add_credentials authorities [] ix = ok ix
  add_credentials authorities (signed ∷ credentials) ix = do
    ix' ← add_credential authorities signed ix
    add_credentials authorities credentials ix'

  abbrev pub verified :
      TravelAuthorizationSnapshot → Indexes → List Uuid → Bytes → VerifiedAuthorization
  verified snapshot ix revoked snapshot_bytes = record {
    generation = snapshot.generation;
    snapshot_sha256 = crypto.hex_encode (crypto.sha256 snapshot_bytes);
    indexes = ix;
    revoked_credentials = revoked;
  }

  -- From the loop over the revocations on.
  unfoldable pub conclude :
      Encode → TravelAuthorizationSnapshot → Indexes → Checked VerifiedAuthorization
  unfolding check_revocations
  conclude encode snapshot ix = do
    revoked ← check_revocations ix.credentials snapshot.revocations []
    snapshot_bytes ← ok_or (encode snapshot) not_encoded
    ok (verified snapshot ix revoked snapshot_bytes)

  -- From the loop over the credentials on.
  unfoldable pub verify_entries :
      Encode
      → TravelAuthorizationSnapshot
      → List TrustedTravelAuthority
      → Checked VerifiedAuthorization
  unfolding authorities_by_id add_credentials conclude
  verify_entries encode snapshot authorities = do
    ix ← add_credentials (authorities_by_id authorities) snapshot.credentials no_indexes
    conclude encode snapshot ix

  unfoldable pub verify :
      Encode
      → TravelAuthorizationSnapshot
      → List TrustedTravelAuthority
      → Checked VerifiedAuthorization
  unfolding verify_entries
  verify encode snapshot authorities = do
    bail_if (is_empty deployment_id) bad_deployment
    bail_if (snapshot.generation == 0) bad_generation
    validate_trusted_authorities crypto authorities
    verify_entries encode snapshot authorities

pub record AuthorizationCache : Type 0 where
  pub generation : ℕ
  pub snapshot_sha256 : Text
  pub revoked_credentials : List Uuid

-- The content differs although the generation does not.
abbrev pub changes : AuthorizationCache → VerifiedAuthorization → Bool
changes cache a =
    not (cache.generation == 0)
    && a.generation == cache.generation
    && not (is_empty cache.snapshot_sha256)
    && not (text_eq a.snapshot_sha256 cache.snapshot_sha256)

abbrev pub cache_of : VerifiedAuthorization → AuthorizationCache
cache_of a = record {
  generation = a.generation;
  snapshot_sha256 = a.snapshot_sha256;
  revoked_credentials = a.revoked_credentials;
}

unfoldable pub accept : AuthorizationCache → VerifiedAuthorization → Checked AuthorizationCache
accept cache a = do
  bail_if (ltb a.generation cache.generation) rollback
  bail_if (changes cache a) content_changed
  bail_if (not (is_subset cache.revoked_credentials a.revoked_credentials)) lost_revocation
  ok (cache_of a)
