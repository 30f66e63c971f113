-- ===== src/Authorization/Credential.antt =====
-- internal/flowsplice-core/src/authorization.rs: signed Travel credentials and the authorities that
-- sign them; internal/flowsplice-core/src/tls.rs for the pins. `Parse` is `serde_json` at the type
-- `TravelCredential`.
use flowsplice_rust.Prelude.{
  ℕ, Bool, false, ◌&&◌, ◌||◌, not, List, [], ◌∷◌, Option, none, some, ok, ◌>>◌, ◌>>=◌, bail_if,
  ok_or, ltb, leb, ◌==◌, length, is_empty, head,
}
use flowsplice_rust.Prelude.Bytes.{Bytes}
use flowsplice_rust.Prelude.Text.{Text, text_eq, codes}
use flowsplice_rust.Prelude.Maps.{contains, text_key}
use flowsplice_rust.Protocol.{Uuid}
use flowsplice_rust.Authorization.Scope.{
  Crypto, Checked, TravelCredentialScope, TrustedTravelAuthority, authority_id_of, public_key_of,
  epoch_of, home_id_of, may_sign, validate_scope, wrong_authority, bad_hex, bad_key, bad_signature,
  bad_payload, wrong_epoch, bad_credential, bad_pin, empty_interval, bad_authority, no_authority,
  duplicate_authority,
}

abbrev pub travel_credential_version : ℕ
travel_credential_version = 1

abbrev pub travel_credential_object_type : Text
travel_credential_object_type = codes "flowsplice.travel_credential"

pub record TravelCredential : Type 0 where
  pub version : ℕ
  pub object_type : Text
  pub deployment_id : Text
  pub deployment_trust_sha256 : Text
  pub credential_id : Uuid
  pub authority_id : Text
  pub authority_epoch : ℕ
  pub enrollment_request_id : Uuid
  pub enrollment_nonce : Text
  pub enrollment_request_sha256 : Text
  pub travel_id : Text
  pub management_spki_sha256 : Text
  pub business_spki_sha256 : Text
  pub management_ca_sha256 : Text
  pub business_ca_sha256 : Text
  pub management_certificate_sha256 : Text
  pub business_certificate_sha256 : Text
  pub scope : TravelCredentialScope
  pub not_before_unix_secs : ℕ
  pub not_after_unix_secs : ℕ

pub record SignedTravelCredential : Type 0 where
  pub authority_id : Text
  pub payload_hex : Text
  pub signature_hex : Text

abbrev pub active_at : TravelCredential → ℕ → Bool
active_at c unix_secs = leb c.not_before_unix_secs unix_secs && ltb unix_secs c.not_after_unix_secs

abbrev pub Parse : Type 0
Parse = Bytes → Option TravelCredential

unfoldable pub is_uncompressed : Bytes → Bool
is_uncompressed key = length key == 65 && (elim (head key) [ none ↦ false | some b ↦ b == 4 ])

module _ (crypto : Crypto) where
  open crypto use {hex_decode, verify_signature}

  unfoldable pub decode_authority_public_key : Text → Checked Bytes
  unfolding is_uncompressed
  decode_authority_public_key key = do
    public_key ← ok_or (hex_decode key) bad_hex
    bail_if (not (is_uncompressed public_key)) bad_key
    ok public_key

  unfoldable pub validate_authority_public_key : Text → Checked (Unit {0})
  unfolding decode_authority_public_key
  validate_authority_public_key key = do _ ← decode_authority_public_key key; ok tt

  unfoldable pub is_some_and_empty : Option Text → Bool
  is_some_and_empty none = false
  is_some_and_empty (some id) = is_empty id

  unfoldable pub validate_authority : TrustedTravelAuthority → Checked (Unit {0})
  unfolding validate_authority_public_key is_some_and_empty
  validate_authority a = do
    bail_if (is_empty (authority_id_of a) || epoch_of a == 0) bad_authority
    bail_if (is_some_and_empty (home_id_of a)) bad_authority
    validate_authority_public_key (public_key_of a)

  -- The loop of `validate_trusted_authorities` from the ids already seen on.
  unfoldable pub distinct_authorities : List TrustedTravelAuthority → List Text → Checked (Unit {0})
  unfolding validate_authority
  distinct_authorities [] ids = ok tt
  distinct_authorities (a ∷ authorities) ids = do
    validate_authority a
    bail_if (contains ids (authority_id_of a)) duplicate_authority
    distinct_authorities authorities (authority_id_of a ∷ ids)

  unfoldable pub validate_trusted_authorities : List TrustedTravelAuthority → Checked (Unit {0})
  unfolding distinct_authorities
  validate_trusted_authorities authorities = do
    bail_if (is_empty authorities) no_authority
    distinct_authorities authorities []

  unfoldable pub validate_spki_pin : Text → Checked (Unit {0})
  validate_spki_pin pin = do
    decoded ← ok_or (hex_decode pin) bad_pin
    bail_if (not (length decoded == 32)) bad_pin

  unfoldable pub validate_digests : List Text → Checked (Unit {0})
  unfolding validate_spki_pin
  validate_digests [] = ok tt
  validate_digests (digest ∷ digests) = do validate_spki_pin digest; validate_digests digests

  -- The nil `Uuid` is 0.
  unfoldable pub validate_credential : TravelCredential → Checked (Unit {0})
  unfolding validate_digests
  validate_credential c = do
    bail_if
        (not (c.version == travel_credential_version)
          || not (text_eq c.object_type travel_credential_object_type)
          || is_empty c.deployment_id
          || c.credential_id == 0
          || is_empty c.authority_id
          || c.authority_epoch == 0
          || c.enrollment_request_id == 0
          || is_empty c.travel_id)
        bad_credential
    validate_scope c.scope
    validate_spki_pin c.management_spki_sha256
    validate_spki_pin c.business_spki_sha256
    validate_digests (
        c.deployment_trust_sha256 ∷ c.enrollment_nonce ∷ c.enrollment_request_sha256
        ∷ c.management_ca_sha256 ∷ c.business_ca_sha256 ∷ c.management_certificate_sha256
        ∷ c.business_certificate_sha256 ∷ [])
    bail_if (leb c.not_after_unix_secs c.not_before_unix_secs) empty_interval

  module _ (parse : Parse) where
    unfoldable pub verify_public_key : SignedTravelCredential → Text → Checked TravelCredential
    unfolding decode_authority_public_key validate_credential
    verify_public_key s authority_public_key_hex = do
      public_key ← decode_authority_public_key authority_public_key_hex
      payload ← ok_or (hex_decode s.payload_hex) bad_hex
      signature ← ok_or (hex_decode s.signature_hex) bad_hex
      bail_if (not (verify_signature public_key payload signature)) bad_signature
      credential ← ok_or (parse payload) bad_payload
      validate_credential credential
      ok credential

    unfoldable pub verify_signed :
        SignedTravelCredential → TrustedTravelAuthority → Checked TravelCredential
    unfolding verify_public_key may_sign
    verify_signed s authority = do
      bail_if (not (text_eq s.authority_id (authority_id_of authority))) wrong_authority
      credential ← verify_public_key s (public_key_of authority)
      bail_if (not (text_eq credential.authority_id s.authority_id)) wrong_authority
      bail_if (not (credential.authority_epoch == epoch_of authority)) wrong_epoch
      may_sign authority credential.scope
      ok credential
