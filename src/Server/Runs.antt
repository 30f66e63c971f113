-- ===== src/Server/Runs.antt =====
-- Runs of the Server's authorization, and its theorems at them.
use flowsplice_rust.Prelude.{some, ◌≡◌, refl, true, false, [], ◌∷◌, ok, err, is_ok, checked_add}
use flowsplice_rust.Prelude.Text.{text_eq, to_ascii_lowercase}
use flowsplice_rust.Prelude.Maps.{get, insert, push, contains, contains_key, both, nat_eq}
use flowsplice_rust.Authorization.Scope.{may_sign, validate_scope, is_home, scope_home_id}
use flowsplice_rust.Authorization.Credential.{
  verify_signed, verify_public_key, validate_credential, validate_digests, validate_spki_pin,
  validate_trusted_authorities, distinct_authorities, validate_authority,
  validate_authority_public_key, is_some_and_empty, decode_authority_public_key, is_uncompressed,
}
use flowsplice_rust.Authorization.Snapshot.{
  verify, verify_entries, conclude, check_revocations, add_credentials, add_credential, verify_with,
  admit, index_credential, authorities_by_id, collect_authorities,
}
use flowsplice_rust.Authorization.Samples.{
  zeros, crypto, parse, signed, authorities, snapshot, encode, a,
}
use flowsplice_rust.Server.{
  ServerAuthorization, not_issued_here, request_used, next_generation, Store, validate_state_size,
  persist_with_grants, persist, publish, propose_revocation, revoke_issued, revoke_from_home,
  has_id, import_verified, import_signed, import_credential,
}
use flowsplice_rust.Server.Changes.{
  Keeps, Revoked, Imported, revoke_from_home-Keeps, import_credential-Keeps,
}
use flowsplice_rust.Server.Published.{Accepted, change-Accepted}
use flowsplice_rust.Server.Cuts.{Cut, revoke_from_home-Cut}
use flowsplice_rust.Flow.Registry.{FlowHandle}

-- Every state is small and is stored.
abbrev store : Store (Unit {0})
store = record { encoded_len = λ state. some 1000; stored = λ state. true }

-- The sample of two credentials, of which one is revoked.
abbrev server : ServerAuthorization (Unit {0})
server = record {
  deployment_id = 1 ∷ [];
  authorities = authorities;
  snapshot = snapshot;
  verified = a;
  used_enrollment_requests = zeros 32 ∷ [];
  business_home_grants = [];
}

verify_test : verify crypto parse (1 ∷ []) encode snapshot authorities ≡ ok a
unfolding verify verify_entries conclude check_revocations add_credentials add_credential
    verify_with admit index_credential authorities_by_id collect_authorities verify_signed
    verify_public_key validate_credential validate_digests validate_spki_pin
    validate_trusted_authorities distinct_authorities validate_authority
    validate_authority_public_key is_some_and_empty decode_authority_public_key is_uncompressed
    may_sign validate_scope is_home scope_home_id text_eq to_ascii_lowercase get insert push
    contains contains_key both
verify_test = refl

-- The second credential is revoked by its Home, and by no other.
revoke_test :
    (is_ok (revoke_from_home crypto parse encode store server 7 12 (1 ∷ []) (5 ∷ [])) ≡ true)
    × (revoke_from_home crypto parse encode store server 7 12 (1 ∷ []) (6 ∷ [])
        ≡ err not_issued_here)
unfolding revoke_from_home revoke_issued propose_revocation next_generation publish persist
    persist_with_grants validate_state_size checked_add verify verify_entries conclude
    check_revocations add_credentials add_credential verify_with admit index_credential
    authorities_by_id collect_authorities verify_signed verify_public_key validate_credential
    validate_digests validate_spki_pin validate_trusted_authorities distinct_authorities
    validate_authority validate_authority_public_key is_some_and_empty decode_authority_public_key
    is_uncompressed may_sign validate_scope is_home scope_home_id text_eq to_ascii_lowercase get
    insert push contains contains_key both
revoke_test = (refl, refl)

-- A further credential for a request that was used is refused, and one that is there is a retry.
import_test :
    (import_credential crypto parse encode store server (signed 8 30) (5 ∷ []) ≡ err request_used)
    × (import_credential crypto parse encode store server (signed 7 30) (5 ∷ [])
        ≡ ok (server, false))
unfolding import_credential import_signed import_verified has_id verify_signed verify_public_key
    validate_credential validate_digests validate_spki_pin validate_authority_public_key
    is_some_and_empty decode_authority_public_key is_uncompressed may_sign validate_scope is_home
    scope_home_id text_eq to_ascii_lowercase contains
import_test = (refl, refl)

revoke_from_home-Keeps_example :
    Keeps
      (Revoked crypto parse encode store server 7)
      (revoke_from_home crypto parse encode store server 7 12 (1 ∷ []) (5 ∷ []))
revoke_from_home-Keeps_example =
    revoke_from_home-Keeps crypto parse encode store server 7 12 (1 ∷ []) (5 ∷ [])

-- No credential is there yet.
abbrev fresh : ServerAuthorization (Unit {0})
fresh = record server {
  snapshot = record snapshot { credentials = []; revocations = [] };
  used_enrollment_requests = [];
}

import_credential-Keeps_example :
    Keeps
      (Imported crypto parse encode store fresh (signed 7 30))
      (import_credential crypto parse encode store fresh (signed 7 30) (5 ∷ []))
import_credential-Keeps_example =
    import_credential-Keeps crypto parse encode store fresh (signed 7 30) (5 ∷ [])

change-Accepted_example :
    Keeps
      (Accepted crypto parse encode store server verify_test)
      (import_credential crypto parse encode store server (signed 7 30) (5 ∷ []))
    × Keeps
        (Accepted crypto parse encode store server verify_test)
        (revoke_from_home crypto parse encode store server 7 12 (1 ∷ []) (5 ∷ []))
change-Accepted_example =
    change-Accepted crypto parse encode store server verify_test (signed 7 30) 7 12 (1 ∷ [])
      (5 ∷ [])

-- A flow of the credential that is revoked.
abbrev handle : FlowHandle
handle = record { instance_id = 9; service_id = 2 ∷ []; shutdown = false; carrier_slots = 4 }

revoke_from_home-Cut_example :
    Keeps
      (Cut crypto parse encode store server verify_test 20
        (((7, (1 ∷ [], 3)), handle) ∷ [])
        7
        (1 ∷ [])
        3
        (8, (1 ∷ [], 3)))
      (revoke_from_home crypto parse encode store server 7 12 (1 ∷ []) (5 ∷ []))
revoke_from_home-Cut_example =
    revoke_from_home-Cut crypto parse encode store server verify_test 20
      (((7, (1 ∷ [], 3)), handle) ∷ []) 7 (1 ∷ []) 3 (8, (1 ∷ [], 3)) 12 (1 ∷ []) (5 ∷ [])
