-- ===== src/Authorization/Samples.antt =====
-- Values for the runs of the authorization checks: one authority, two credentials of one Travel device
-- of which one is revoked.
use flowsplice_rust.Prelude.{ℕ, zero, suc, List, [], ◌∷◌, none, some}
use flowsplice_rust.Prelude.Bytes.{Bytes}
use flowsplice_rust.Prelude.Text.{text_eq}
use flowsplice_rust.Authorization.Scope.{Crypto, TrustedTravelAuthority, home_authority, home_scope}
use flowsplice_rust.Authorization.Credential.{
  TravelCredential, SignedTravelCredential, Parse, travel_credential_object_type,
}
use flowsplice_rust.Authorization.Snapshot.{
  TravelAuthorizationSnapshot, VerifiedAuthorization, Encode,
}

abbrev pub zeros : ℕ → Bytes
zeros zero = []
zeros (suc n) = 0 ∷ zeros n

-- Nothing is encoded, and a signature repeats the payload.
abbrev pub crypto : Crypto
crypto = record {
  hex_decode = some;
  hex_encode = λ bytes. bytes;
  verify_signature = λ key payload signature. text_eq payload signature;
  sha256 = λ bytes. bytes;
}

abbrev pub credential : ℕ → ℕ → TravelCredential
credential id until = record {
  version = 1;
  object_type = travel_credential_object_type;
  deployment_id = 1 ∷ [];
  deployment_trust_sha256 = zeros 32;
  credential_id = id;
  authority_id = 2 ∷ [];
  authority_epoch = 1;
  enrollment_request_id = 3;
  enrollment_nonce = zeros 32;
  enrollment_request_sha256 = zeros 32;
  travel_id = 4 ∷ [];
  management_spki_sha256 = zeros 32;
  business_spki_sha256 = zeros 32;
  management_ca_sha256 = zeros 32;
  business_ca_sha256 = zeros 32;
  management_certificate_sha256 = zeros 32;
  business_certificate_sha256 = zeros 32;
  scope = home_scope (5 ∷ []);
  not_before_unix_secs = 10;
  not_after_unix_secs = until;
}

-- A payload is an id and an end.
abbrev pub parse : Parse
parse (id ∷ until ∷ []) = some (credential id until)
parse _ = none

abbrev pub signed : ℕ → ℕ → SignedTravelCredential
signed id until = record {
  authority_id = 2 ∷ [];
  payload_hex = id ∷ until ∷ [];
  signature_hex = id ∷ until ∷ [];
}

abbrev pub authorities : List TrustedTravelAuthority
authorities = home_authority (2 ∷ []) 1 (5 ∷ []) (4 ∷ zeros 64) ∷ []

abbrev pub snapshot : TravelAuthorizationSnapshot
snapshot = record {
  generation = 1;
  home_endpoint_credentials = [];
  credentials = signed 6 20 ∷ signed 7 30 ∷ [];
  revocations = record { credential_id = 6; revoked_at_unix_secs = 11; reason = 1 ∷ [] } ∷ [];
}

abbrev pub encode : Encode
encode s = some (9 ∷ [])

abbrev pub a : VerifiedAuthorization
a = record {
  generation = 1;
  snapshot_sha256 = 9 ∷ [];
  indexes = record {
    credentials = (6, credential 6 20) ∷ (7, credential 7 30) ∷ [];
    management_index = ((4 ∷ [], zeros 32), 6 ∷ 7 ∷ []) ∷ [];
    business_index = ((4 ∷ [], zeros 32), 6 ∷ 7 ∷ []) ∷ [];
  };
  revoked_credentials = 6 ∷ [];
}
