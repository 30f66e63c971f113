-- ===== src/Server/Changes.antt =====
-- What a call of server/src/authorization.rs may change.
use flowsplice_rust.Prelude.{
  ℕ, ◌+◌, ◌≡◌, refl, sym, ap, ◌∙◌, inl, inr, Bool, true, false, not, ◌||◌, List, [], ◌∷◌, ◌++◌, map,
  append-nil, arith, ◌==◌, if◌then◌else◌, Option-cases, find, ok, err, ◌>>=◌, ◌>>◌, ok_or,
  ok_or-eq-ok, ok_inj, checked_add, checked_add_lem,
}
use flowsplice_rust.Prelude.Text.{Text, text_eq, text_eq_refl}
use flowsplice_rust.Prelude.Maps.{contains, insert_new, contains-insert_new, get, text_key, nat_eq}
use flowsplice_rust.Protocol.{Uuid}
use flowsplice_rust.Authorization.Scope.{
  Crypto, Checked, TrustedTravelAuthority, authority_id_of, home_id_of, is_home,
}
use flowsplice_rust.Authorization.Credential.{
  TravelCredential, SignedTravelCredential, Parse, verify_signed,
}
use flowsplice_rust.Authorization.Snapshot.{
  TravelRevocation, TravelAuthorizationSnapshot, VerifiedAuthorization, Encode, verify,
}
use flowsplice_rust.Server.{
  ServerAuthorization, unknown_credential, unknown_authority, generation_exhausted, Tried, checked,
  next_generation, Store, persist, publish, propose_revocation, revoke_issued, revoke_from_home,
  has_id, propose_credential, import_verified, import_signed, import_credential,
}

abbrev pub revoked_ids : TravelAuthorizationSnapshot → List Uuid
revoked_ids snapshot = map (λ r. r.credential_id) snapshot.revocations

-- The next state: one generation later, with nothing of the old one lost.
pub record Grows {Grant : Type 0} (crypto : Crypto) (parse : Parse) (encode : Encode)
    (s s' : ServerAuthorization Grant) : Type 0 where
  pub generation : s'.snapshot.generation ≡ s.snapshot.generation + 1
  pub new_credentials : List SignedTravelCredential
  pub credentials : s'.snapshot.credentials ≡ s.snapshot.credentials ++ new_credentials
  pub revocations :
      (id : Uuid)
      → contains (revoked_ids s.snapshot) id ≡ true
      → contains (revoked_ids s'.snapshot) id ≡ true
  pub requests :
      (r : Text)
      → contains s.used_enrollment_requests r ≡ true
      → contains s'.used_enrollment_requests r ≡ true
  -- What is served is the verified form of the snapshot.
  pub served :
      verify crypto parse s'.deployment_id encode s'.snapshot s'.authorities ≡ ok s'.verified

module _ {Grant : Type 0} where
  abbrev pub Keeps :
      (ServerAuthorization Grant → Bool → Type 0)
      → Tried (ServerAuthorization Grant × Bool)
      → Type 0
  Keeps P (ok (s, changed)) = P s changed
  Keeps P (err e) = Unit {0}

  pub Keeps-map :
      (P Q : ServerAuthorization Grant → Bool → Type 0)
      (t : Tried (ServerAuthorization Grant × Bool))
      → ((s : ServerAuthorization Grant) (changed : Bool) → P s changed → Q s changed)
      → Keeps P t
      → Keeps Q t
  Keeps-map P Q (ok (s, changed)) f p = f s changed p
  Keeps-map P Q (err e) f p = tt

  Keeps-bind :
      {A : Type 0} (P : ServerAuthorization Grant → Bool → Type 0) (first : Tried A)
      (k : A → Tried (ServerAuthorization Grant × Bool))
      → ((a : A) → first ≡ ok a → Keeps P (k a))
      → Keeps P (first >>= k)
  Keeps-bind P (ok a) k h = h a refl
  Keeps-bind P (err e) k h = tt

  Keeps-then :
      (P : ServerAuthorization Grant → Bool → Type 0) (first : Tried (Unit {0}))
      (k : Tried (ServerAuthorization Grant × Bool))
      → Keeps P k
      → Keeps P (first >> k)
  Keeps-then P (ok tt) k h = h
  Keeps-then P (err e) k h = tt

  Keeps-if :
      (P : ServerAuthorization Grant → Bool → Type 0) (b : Bool)
      (x y : Tried (ServerAuthorization Grant × Bool))
      → (b ≡ true → Keeps P x)
      → (b ≡ false → Keeps P y)
      → Keeps P (if b then x else y)
  Keeps-if P true x y f g = f refl
  Keeps-if P false x y f g = g refl

checked-eq-ok : {A : Type 0} (c : Checked A) (a : A) → checked c ≡ ok a → c ≡ ok a
checked-eq-ok (ok x) a h = ap ok (ok_inj h)
checked-eq-ok (err e) a h = absurd (ground (arith, h))

next_generation-eq-ok :
    (snapshot : TravelAuthorizationSnapshot) (g : ℕ)
    → next_generation snapshot ≡ ok g
    → g ≡ snapshot.generation + 1
unfolding next_generation
next_generation-eq-ok snapshot g h =
    (checked_add_lem snapshot.generation 1 g
      (ok_or-eq-ok (checked_add snapshot.generation 1) generation_exhausted h)).0

contains-snoc :
    (rs : List TravelRevocation) (x : TravelRevocation) (j : Uuid)
    → contains (map (λ r. r.credential_id) (rs ++ (x ∷ []))) j
      ≡ (contains (map (λ r. r.credential_id) rs) j || (x.credential_id == j))
unfolding contains
contains-snoc [] x j = ground arith
contains-snoc (r ∷ rs) x j = ground (arith, contains-snoc rs x j)

module _ {Grant : Type 0} (crypto : Crypto) (parse : Parse) (encode : Encode) (store : Store Grant)
    (s : ServerAuthorization Grant) where
  publish-Keeps :
      (P : ServerAuthorization Grant → Bool → Type 0) (proposed : TravelAuthorizationSnapshot)
      (used : List Text)
      → ((v : VerifiedAuthorization)
          → verify crypto parse s.deployment_id encode proposed s.authorities ≡ ok v
          → P
              (record s { snapshot = proposed; verified = v; used_enrollment_requests = used })
              true)
      → Keeps P (publish crypto parse encode store s proposed used)
  unfolding publish
  publish-Keeps P proposed used h =
      Keeps-bind P (checked (verify crypto parse s.deployment_id encode proposed s.authorities)) _
        λ v e. Keeps-then P (persist store s proposed used) _ (h v (checked-eq-ok _ v e))

  -- A revocation that succeeds leaves the credential revoked: it was already and nothing changes, or
  -- the next state is one generation later and has lost nothing.
  abbrev pub Revoked : Uuid → ServerAuthorization Grant → Bool → Type 0
  Revoked id s' changed =
      (contains (revoked_ids s'.snapshot) id ≡ true)
      × (if changed then Grows crypto parse encode s s' else (s' ≡ s))

  revoke_issued-Keeps :
      (id : Uuid) (now : ℕ) (reason home : Text) (authority : TrustedTravelAuthority)
      → Keeps (Revoked id) (revoke_issued crypto parse encode store s id now reason home authority)
  unfolding revoke_issued propose_revocation
  revoke_issued-Keeps id now reason home authority =
      Keeps-if (Revoked id) (not (is_home (home_id_of authority) home)) _ _ (λ _. tt)
        λ _.
          Keeps-if (Revoked id) (contains (revoked_ids s.snapshot) id) _ _ (λ e. (e, refl))
            λ _. Keeps-bind (Revoked id) (next_generation s.snapshot) _ λ g next.
              publish-Keeps (Revoked id) _ s.used_enrollment_requests λ v e. (
                contains-snoc s.snapshot.revocations _ id ∙ ground arith,
                record {
                  generation = next_generation-eq-ok s.snapshot g next;
                  new_credentials = [];
                  credentials = sym (append-nil s.snapshot.credentials);
                  revocations = λ j h. contains-snoc s.snapshot.revocations _ j ∙ ground (arith, h);
                  requests = λ r h. h;
                  served = e;
                },
              )

  -- Whatever it is called with: a revocation that succeeds leaves the credential revoked. Either it was
  -- before and nothing changes, or the next state is one generation later, has lost no credential,
  -- revocation or used request, and serves the verified form of its snapshot.
  pub revoke_from_home-Keeps :
      (id : Uuid) (now : ℕ) (reason home : Text)
      → Keeps (Revoked id) (revoke_from_home crypto parse encode store s id now reason home)
  unfolding revoke_from_home
  revoke_from_home-Keeps id now reason home =
      Keeps-bind (Revoked id) (ok_or (get s.verified.indexes.credentials id) unknown_credential) _
        λ credential _.
          Keeps-bind (Revoked id)
            (ok_or (find (λ a. text_eq (authority_id_of a) credential.authority_id) s.authorities)
              unknown_authority)
            _ λ authority _. revoke_issued-Keeps id now reason home authority

  -- The credential imported was signed for an enrollment request that was not used, and is now.
  pub record Imports (signed : SignedTravelCredential) (s' : ServerAuthorization Grant)
      : Type 0 where
    pub grows : Grows crypto parse encode s s'
    pub added : s'.snapshot.credentials ≡ s.snapshot.credentials ++ (signed ∷ [])
    pub credential : TravelCredential
    pub authority : TrustedTravelAuthority
    pub signature : verify_signed crypto parse signed authority ≡ ok credential
    pub unused : contains s.used_enrollment_requests credential.enrollment_request_sha256 ≡ false
    pub used : contains s'.used_enrollment_requests credential.enrollment_request_sha256 ≡ true

  abbrev pub Imported : SignedTravelCredential → ServerAuthorization Grant → Bool → Type 0
  Imported signed s' changed = if changed then Imports signed s' else (s' ≡ s)

  import_verified-Keeps :
      (signed : SignedTravelCredential) (credential : TravelCredential)
      (authority : TrustedTravelAuthority)
      → verify_signed crypto parse signed authority ≡ ok credential
      → Keeps (Imported signed) (import_verified crypto parse encode store s signed credential)
  unfolding import_verified propose_credential
  import_verified-Keeps signed credential authority signature =
      elim (Option-cases (
        find (has_id crypto parse encode store s.authorities credential.credential_id)
          s.snapshot.credentials)) [
            | inr (existing, e) ↦
                rw (e, Keeps, import_verified)
                  (Keeps-if (Imported signed) (text_eq existing.payload_hex signed.payload_hex) _ _
                    (λ _. refl) (λ _. tt))
            | inl e ↦
                rw (e, Keeps, import_verified)
                  (Keeps-if (Imported signed)
                    (contains s.used_enrollment_requests credential.enrollment_request_sha256) _ _
                    (λ _. tt)
                    λ unused. Keeps-bind (Imported signed) (next_generation s.snapshot) _ λ g next.
                      publish-Keeps (Imported signed) _ _
                        λ v verified. imports g v unused next verified)
          ]
    where
      request : Text
      request = credential.enrollment_request_sha256

      imports :
          (g : ℕ) (v : VerifiedAuthorization)
          → contains s.used_enrollment_requests request ≡ false
          → next_generation s.snapshot ≡ ok g
          → (let proposed : TravelAuthorizationSnapshot = record s.snapshot {
            generation = g;
            credentials = s.snapshot.credentials ++ (signed ∷ []);
          } in
              verify crypto parse s.deployment_id encode proposed s.authorities ≡ ok v
              → Imports signed (record s {
                snapshot = proposed;
                verified = v;
                used_enrollment_requests = insert_new s.used_enrollment_requests request;
              }))
      imports g v unused next verified = record {
        grows = record {
          generation = next_generation-eq-ok s.snapshot g next;
          new_credentials = signed ∷ [];
          credentials = refl;
          revocations = λ id h. h;
          requests =
              λ r h. contains-insert_new s.used_enrollment_requests request r ∙ ground (arith, h);
          served = verified;
        };
        added = refl;
        credential = credential;
        authority = authority;
        signature = signature;
        unused = unused;
        used =
            contains-insert_new s.used_enrollment_requests request request
            ∙ rw (text_eq_refl request) (ground arith);
      }

  -- Whatever it is called with: an import that succeeds either changes nothing, or adds this credential
  -- at the end of the next state's, whose enrollment request was not used before and is used from then
  -- on; the next state is one generation later, has lost no credential, revocation or used request, and
  -- serves the verified form of its snapshot.
  pub import_credential-Keeps :
      (signed : SignedTravelCredential) (home : Text)
      → Keeps (Imported signed) (import_credential crypto parse encode store s signed home)
  unfolding import_credential import_signed
  import_credential-Keeps signed home =
      Keeps-bind (Imported signed)
        (ok_or (find (λ a. text_eq (authority_id_of a) signed.authority_id) s.authorities)
          unknown_authority)
        _
        λ authority _.
          Keeps-if (Imported signed) (not (is_home (home_id_of authority) home)) _ _ (λ _. tt)
            λ _.
              Keeps-bind (Imported signed) (checked (verify_signed crypto parse signed authority)) _
                λ credential e.
                  import_verified-Keeps signed credential authority (checked-eq-ok _ credential e)
