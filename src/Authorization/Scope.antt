-- ===== src/Authorization/Scope.antt =====
-- internal/flowsplice-core/src/authorization.rs: what a Travel credential permits, and which
-- authority may sign it; internal/flowsplice-core/src/business.rs for the tokens.
use flowsplice_rust.Prelude.{
  ℕ, Bool, true, false, ◌&&◌, ◌||◌, not, List, [], ◌∷◌, Option, none, some, Result, ok, err,
  bail_if, ltb, leb, ◌==◌, if◌then◌else◌, length, is_empty,
}
use flowsplice_rust.Prelude.Bytes.{Bytes}
use flowsplice_rust.Prelude.Text.{Text, text_eq}
use flowsplice_rust.Protocol.{ServiceProtocol, protocol_eq}

-- The messages of the `bail!`s, by what they complain about.
pub data AuthorizationError : Type 0 where
  wrong_authority bad_hex bad_key bad_signature bad_payload wrong_epoch : AuthorizationError
  outside_home bad_credential bad_scope bad_pin empty_interval bad_token : AuthorizationError
  bad_authority no_authority duplicate_authority unknown_authority : AuthorizationError
  bad_deployment bad_generation wrong_deployment duplicate_credential : AuthorizationError
  bad_revocation unknown_revocation duplicate_revocation not_encoded : AuthorizationError
  not_covered certificate_expired not_active inconsistent_index : AuthorizationError
  not_for_home not_routed rollback content_changed lost_revocation : AuthorizationError

abbrev pub Checked : Type 0 → Type 0
Checked A = Result AuthorizationError A

-- `hex`, and the signature check of `aws_lc_rs`.
pub record Crypto : Type 0 where
  pub hex_decode : Text → Option Bytes
  pub hex_encode : Bytes → Text
  pub verify_signature : (public_key payload signature : Bytes) → Bool
  pub sha256 : Bytes → Bytes

pub data TravelCredentialScope : Type 0 where
  global : TravelCredentialScope
  service_class : (application_protocol : Text) (protocol : ServiceProtocol) → TravelCredentialScope
  home_scope : (home_id : Text) → TravelCredentialScope
  service : (home_id service_id : Text) (protocol : ServiceProtocol) → TravelCredentialScope

-- The metadata of a service in its Home's signed grant.
pub record BusinessService : Type 0 where
  pub service_id : Text
  pub protocol : ServiceProtocol
  pub application_protocol : Text
  pub capabilities : List Text

is_ascii_alphanumeric : ℕ → Bool
is_ascii_alphanumeric b =
    (leb b'0' b && leb b b'9') || (leb b'A' b && leb b b'Z') || (leb b'a' b && leb b b'z')

is_token : Bytes → Bool
unfolding is_ascii_alphanumeric
is_token [] = true
is_token (b ∷ bytes) =
    (is_ascii_alphanumeric b || b == b'.' || b == b'_' || b == b'-' || b == b':' || b == b'/')
    && is_token bytes

validate_token : Text → ℕ → Checked (Unit {0})
unfolding is_token
validate_token value limit =
    bail_if (is_empty value || ltb limit (length value) || not (is_token value)) bad_token

validate_application_protocol : Text → Checked (Unit {0})
unfolding validate_token
validate_application_protocol value = validate_token value 128

unfoldable pub validate_scope : TravelCredentialScope → Checked (Unit {0})
unfolding validate_application_protocol
validate_scope global = ok tt
validate_scope (service_class application_protocol protocol) =
    validate_application_protocol application_protocol
validate_scope (home_scope home_id) = if not (is_empty home_id) then ok tt else err bad_scope
validate_scope (service home_id service_id protocol) =
    if not (is_empty home_id) && not (is_empty service_id) then ok tt else err bad_scope

unfoldable pub scope_home_id : TravelCredentialScope → Option Text
scope_home_id global = none
scope_home_id (service_class application_protocol protocol) = none
scope_home_id (home_scope home_id) = some home_id
scope_home_id (service home_id service_id protocol) = some home_id

unfoldable pub allows_home : TravelCredentialScope → Text → Bool
allows_home global home_id = true
allows_home (service_class application_protocol protocol) home_id = true
allows_home (home_scope allowed_home) home_id = text_eq allowed_home home_id
allows_home (service allowed_home service_id protocol) home_id = text_eq allowed_home home_id

unfoldable pub allows_service : TravelCredentialScope → Text → Text → ServiceProtocol → Bool
allows_service global home_id service_id protocol = true
allows_service (service_class application_protocol allowed) home_id service_id protocol = false
allows_service (home_scope allowed_home) home_id service_id protocol = text_eq allowed_home home_id
allows_service (service allowed_home allowed_service allowed_protocol) home_id service_id protocol =
    text_eq allowed_home home_id
    && text_eq allowed_service service_id
    && protocol_eq allowed_protocol protocol

unfoldable pub class_allows :
    Text → ServiceProtocol → Text → ServiceProtocol → Option BusinessService → Bool
class_allows application_protocol allowed service_id protocol none = false
class_allows application_protocol allowed service_id protocol (some s) =
    text_eq s.service_id service_id
    && protocol_eq s.protocol protocol
    && protocol_eq protocol allowed
    && text_eq s.application_protocol application_protocol

unfoldable pub allows_business_service :
    TravelCredentialScope → Text → Text → ServiceProtocol → Option BusinessService → Bool
unfolding allows_service class_allows
allows_business_service (service_class application_protocol allowed) home_id service_id protocol s =
    class_allows application_protocol allowed service_id protocol s
allows_business_service scope home_id service_id protocol s =
    allows_service scope home_id service_id protocol

pub data TrustedTravelAuthority : Type 0 where
  global_authority : (id : Text) (epoch : ℕ) (home_id public_key : Text) → TrustedTravelAuthority
  home_authority : (id : Text) (epoch : ℕ) (home_id public_key : Text) → TrustedTravelAuthority

abbrev pub authority_id_of : TrustedTravelAuthority → Text
authority_id_of (global_authority id epoch home_id public_key) = id
authority_id_of (home_authority id epoch home_id public_key) = id

abbrev pub public_key_of : TrustedTravelAuthority → Text
public_key_of (global_authority id epoch home_id public_key) = public_key
public_key_of (home_authority id epoch home_id public_key) = public_key

abbrev pub epoch_of : TrustedTravelAuthority → ℕ
epoch_of (global_authority id epoch home_id public_key) = epoch
epoch_of (home_authority id epoch home_id public_key) = epoch

abbrev pub home_id_of : TrustedTravelAuthority → Option Text
home_id_of (global_authority id epoch home_id public_key) = some home_id
home_id_of (home_authority id epoch home_id public_key) = some home_id

unfoldable pub is_home : Option Text → Text → Bool
is_home none home_id = false
is_home (some scope_home) home_id = text_eq scope_home home_id

-- `TrustedTravelAuthority::validate_scope`
unfoldable pub may_sign : TrustedTravelAuthority → TravelCredentialScope → Checked (Unit {0})
unfolding is_home scope_home_id
may_sign (global_authority id epoch home_id public_key) scope = ok tt
may_sign (home_authority id epoch home_id public_key) scope =
    if is_home (scope_home_id scope) home_id then ok tt else err outside_home
