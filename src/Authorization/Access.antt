-- ===== src/Authorization/Access.antt =====
-- internal/flowsplice-core/src/authorization.rs: the credentials that an identity may use, by the
-- indexes of a verified snapshot; internal/flowsplice-core/src/tls.rs for the identity.
use flowsplice_rust.Prelude.{
  ℕ, Bool, false, ◌&&◌, not, List, [], ◌∷◌, Option, none, some, ok, ◌>>◌, ◌>>=◌, bail_if, ok_or,
  ltb, leb, ◌==◌, if◌then◌else◌, is_empty, filter, head, find,
}
use flowsplice_rust.Prelude.Bytes.{Bytes}
use flowsplice_rust.Prelude.Text.{Text, to_ascii_lowercase}
use flowsplice_rust.Prelude.Maps.{get, contains, nat_eq, text_key, pair_key}
use flowsplice_rust.Protocol.{Uuid}
use flowsplice_rust.Authorization.Scope.{
  Checked, allows_home, not_covered, certificate_expired, not_active, inconsistent_index,
  not_for_home, not_routed,
}
use flowsplice_rust.Authorization.Credential.{TravelCredential, active_at}
use flowsplice_rust.Authorization.Snapshot.{VerifiedAuthorization, Index, Key}

pub data Role : Type 0 where
  server relay home travel : Role

pub record PeerIdentity : Type 0 where
  pub role : Role
  pub id : Text
  pub certificate_sha256 : Text
  pub spki_sha256 : Text
  pub signing_public_key : Bytes
  pub not_before_unix_secs : ℕ
  pub not_after_unix_secs : ℕ

abbrev pub identity_active_at : PeerIdentity → ℕ → Bool
identity_active_at p unix_secs =
    leb p.not_before_unix_secs unix_secs && ltb unix_secs p.not_after_unix_secs

abbrev pub identity_key : PeerIdentity → Key
identity_key p = (p.id, to_ascii_lowercase p.spki_sha256)

-- `max_by_key(not_after_unix_secs)`, which keeps the last of several greatest elements.
unfoldable pub later : TravelCredential → TravelCredential → TravelCredential
later b c = if ltb c.not_after_unix_secs b.not_after_unix_secs then b else c

unfoldable pub latest : Option TravelCredential → List TravelCredential → Option TravelCredential
unfolding later
latest best [] = best
latest none (c ∷ cs) = latest (some c) cs
latest (some b) (c ∷ cs) = latest (some (later b c)) cs

module _ (a : VerifiedAuthorization) where
  unfoldable pub is_active : ℕ → Uuid → Bool
  is_active unix_secs id = elim (get a.indexes.credentials id) [
    | none ↦ false
    | some c ↦ not (contains a.revoked_credentials id) && active_at c unix_secs
  ]

  -- `map` to the credentials, collected into one result.
  unfoldable pub collect : List Uuid → Checked (List TravelCredential)
  collect [] = ok []
  collect (id ∷ ids) = do
    c ← ok_or (get a.indexes.credentials id) inconsistent_index
    cs ← collect ids
    ok (c ∷ cs)

  unfoldable pub non_empty : List TravelCredential → Checked (List TravelCredential)
  non_empty active = do bail_if (is_empty active) not_active; ok active

  -- What follows the lookup of the key.
  unfoldable pub authorize_ids : PeerIdentity → ℕ → List Uuid → Checked (List TravelCredential)
  unfolding is_active collect non_empty
  authorize_ids identity unix_secs ids = do
    bail_if (not (identity_active_at identity unix_secs)) certificate_expired
    active ← collect (filter (is_active unix_secs) ids)
    non_empty active

  unfoldable pub authorize_all : Index → PeerIdentity → ℕ → Checked (List TravelCredential)
  unfolding authorize_ids
  authorize_all index identity unix_secs = do
    ids ← ok_or (get index (identity_key identity)) not_covered
    authorize_ids identity unix_secs ids

  unfoldable pub authorize_management_all : PeerIdentity → ℕ → Checked (List TravelCredential)
  unfolding authorize_all
  authorize_management_all = authorize_all a.indexes.management_index

  unfoldable pub authorize_management : PeerIdentity → ℕ → Checked TravelCredential
  unfolding authorize_all
  authorize_management identity unix_secs = do
    active ← authorize_all a.indexes.management_index identity unix_secs
    ok_or (head active) not_covered

  unfoldable pub authorize_management_for_home : PeerIdentity → Text → ℕ → Checked TravelCredential
  unfolding authorize_management_all latest
  authorize_management_for_home identity home_id unix_secs = do
    active ← authorize_management_all identity unix_secs
    ok_or (latest none (filter (λ c. allows_home c.scope home_id) active)) not_for_home

  unfoldable pub authorize_business : PeerIdentity → ℕ → Checked TravelCredential
  unfolding authorize_all
  authorize_business identity unix_secs = do
    active ← authorize_all a.indexes.business_index identity unix_secs
    ok_or (head active) not_covered

  unfoldable pub authorize_business_credential : PeerIdentity → Uuid → ℕ → Checked TravelCredential
  unfolding authorize_all
  authorize_business_credential identity id unix_secs = do
    active ← authorize_all a.indexes.business_index identity unix_secs
    ok_or (find (λ c. c.credential_id == id) active) not_routed
