-- ===== src/Authorization/Runs.antt =====
-- A run of the authorization checks: one authority, two credentials of one Travel device of which one
-- is revoked.
use flowsplice_rust.Prelude.{◌≡◌, ◌≤◌, refl, true, [], ◌∷◌, ok, ◌↔◌, here}
use flowsplice_rust.Prelude.Text.{text_eq, to_ascii_lowercase}
use flowsplice_rust.Prelude.Maps.{get, insert, push, contains, contains_key, both}
use flowsplice_rust.Authorization.Scope.{
  home_scope, may_sign, validate_scope, is_home, scope_home_id, allows_home,
}
use flowsplice_rust.Authorization.Credential.{
  verify_signed, verify_public_key, validate_credential, validate_digests, validate_spki_pin,
  validate_trusted_authorities, distinct_authorities, validate_authority,
  validate_authority_public_key, is_some_and_empty, decode_authority_public_key, is_uncompressed,
}
use flowsplice_rust.Authorization.Snapshot.{
  VerifiedAuthorization, AuthorizationCache, management_key, business_key, verify, verify_entries,
  conclude, check_revocations, add_credentials, add_credential, verify_with, admit,
  index_credential, authorities_by_id, collect_authorities, accept, cache_of,
}
use flowsplice_rust.Authorization.Access.{
  PeerIdentity, travel, is_active, collect, non_empty, authorize_ids, authorize_all,
  authorize_management_all, authorize_management, authorize_management_for_home, latest, later,
  authorize_business, authorize_business_credential,
}
use flowsplice_rust.Authorization.Grants.{
  Grants, authorize_management-Grants, authorize_business-Grants,
  authorize_business_credential-Grants, authorize_management_for_home-Grants,
}
use flowsplice_rust.Authorization.Latest.{authorize_management_for_home-latest}
use flowsplice_rust.Authorization.Cache.{Continues, accept_iff, observe, observe-Continues}
use flowsplice_rust.Authorization.Samples.{
  zeros, crypto, credential, parse, authorities, snapshot, encode, a,
}

verify_test : verify crypto parse (1 ∷ []) encode snapshot authorities ≡ ok a
unfolding verify verify_entries conclude check_revocations add_credentials add_credential
    verify_with admit index_credential authorities_by_id collect_authorities verify_signed
    verify_public_key validate_credential validate_digests validate_spki_pin
    validate_trusted_authorities distinct_authorities validate_authority
    validate_authority_public_key is_some_and_empty decode_authority_public_key is_uncompressed
    may_sign validate_scope is_home scope_home_id text_eq to_ascii_lowercase get insert push
    contains contains_key both
verify_test = refl

abbrev identity : PeerIdentity
identity = record {
  role = travel;
  id = 4 ∷ [];
  certificate_sha256 = zeros 32;
  spki_sha256 = zeros 32;
  signing_public_key = [];
  not_before_unix_secs = 0;
  not_after_unix_secs = 100;
}

authorize_management_test : authorize_management a identity 12 ≡ ok (credential 7 30)
unfolding authorize_management authorize_all authorize_ids is_active collect non_empty text_eq
    to_ascii_lowercase get contains both
authorize_management_test = refl

authorize_management_example :
    Grants crypto parse encode
      (1 ∷ [])
      authorities
      snapshot
      management_key
      identity
      12
      (credential 7 30)
authorize_management_example =
    authorize_management-Grants crypto parse encode (1 ∷ []) authorities snapshot a identity 12
      (credential 7 30) verify_test authorize_management_test

authorize_business_test : authorize_business a identity 12 ≡ ok (credential 7 30)
unfolding authorize_business authorize_all authorize_ids is_active collect non_empty text_eq
    to_ascii_lowercase get contains both
authorize_business_test = refl

authorize_business_example :
    Grants crypto parse encode
      (1 ∷ [])
      authorities
      snapshot
      business_key
      identity
      12
      (credential 7 30)
authorize_business_example =
    authorize_business-Grants crypto parse encode (1 ∷ []) authorities snapshot a identity 12
      (credential 7 30) verify_test authorize_business_test

routed_test : authorize_business_credential a identity 7 12 ≡ ok (credential 7 30)
unfolding authorize_business_credential authorize_all authorize_ids is_active collect non_empty
    text_eq to_ascii_lowercase get contains both
routed_test = refl

authorize_business_credential_example :
    Grants crypto parse encode
      (1 ∷ [])
      authorities
      snapshot
      business_key
      identity
      12
      (credential 7 30)
    × ((credential 7 30).credential_id ≡ 7)
authorize_business_credential_example =
    authorize_business_credential-Grants crypto parse encode (1 ∷ []) authorities snapshot a
      identity 7 12 (credential 7 30) verify_test routed_test

for_home_test : authorize_management_for_home a identity (5 ∷ []) 12 ≡ ok (credential 7 30)
unfolding authorize_management_for_home authorize_management_all authorize_all authorize_ids
    is_active collect non_empty latest later allows_home text_eq to_ascii_lowercase get contains
    both
for_home_test = refl

authorize_management_for_home_example :
    Grants crypto parse encode
      (1 ∷ [])
      authorities
      snapshot
      management_key
      identity
      12
      (credential 7 30)
    × (allows_home (home_scope (5 ∷ [])) (5 ∷ []) ≡ true)
authorize_management_for_home_example =
    authorize_management_for_home-Grants crypto parse encode (1 ∷ []) authorities snapshot a
      identity (5 ∷ []) 12 (credential 7 30) verify_test for_home_test

latest_example : 30 ≤ 30
unfolding authorize_management_all authorize_all authorize_ids is_active collect non_empty
    allows_home text_eq to_ascii_lowercase get contains both
latest_example =
    authorize_management_for_home-latest a identity (5 ∷ []) 12 (credential 7 30 ∷ [])
      (credential 7 30) (credential 7 30) for_home_test refl here refl

abbrev seen : AuthorizationCache
seen = record { generation = 1; snapshot_sha256 = 9 ∷ []; revoked_credentials = 6 ∷ [] }

abbrev forgetful : VerifiedAuthorization
forgetful = record a { generation = 2; revoked_credentials = [] }

observe_example : Continues seen (observe seen (forgetful ∷ a ∷ []))
observe_example = observe-Continues seen (forgetful ∷ a ∷ [])

accept_iff_example : (accept seen a ≡ ok seen) ↔ ((cache_of a ≡ seen) × Continues seen seen)
accept_iff_example = accept_iff seen seen a
