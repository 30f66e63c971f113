-- ===== src/Authorization/Indexing.antt =====
-- internal/flowsplice-core/src/authorization.rs: what the loop of `VerifiedAuthorization::verify`
-- keeps of its three maps.
use flowsplice_rust.Prelude.{
  ◌≡◌, sym, ap, ◌⊎◌, inl, inr, subst, false, not, List, [], ◌∷◌, none, some, ok, ◌>>◌, bail_if,
  ok_or, ==_iff, arith, Member, here, there, >>=-eq-ok, >>-eq-ok, ok_inj, ok_or-eq-ok,
}
use flowsplice_rust.Prelude.Text.{Text, text_eq, text_eq→eq}
use flowsplice_rust.Prelude.Maps.{
  Eq, get, insert, contains_key, get-insert, contains_key-get, push, push-Has, get-push, Has,
  text_key, nat_eq, pair_key,
}
use flowsplice_rust.Protocol.{Uuid}
use flowsplice_rust.Authorization.Scope.{
  Crypto, wrong_deployment, duplicate_credential, unknown_authority, TrustedTravelAuthority,
  authority_id_of,
}
use flowsplice_rust.Authorization.Credential.{
  TravelCredential, SignedTravelCredential, Parse, verify_signed,
}
use flowsplice_rust.Authorization.Snapshot.{
  Key, Index, Indexes, management_key, business_key, no_indexes, index_credential, admit,
  verify_with, collect_authorities, authorities_by_id, add_credential, add_credentials,
}

some-get :
    {K V : Type 0} ⦃e : Eq K⦄ (m : List (K × V)) (c c' : V) (id j : K)
    → get (insert m id c) j ≡ some c'
    → ((id ≡ j) × (c ≡ c')) ⊎ (get m j ≡ some c')
some-get ⦃e⦄ m c c' id j h = ground (arith, get-insert m id j c, e.beq_iff id j)

get_new :
    {V : Type 0} (m : List (Uuid × V)) (c c' : V) (id j : Uuid)
    → get m id ≡ none
    → get m j ≡ some c'
    → get (insert m id c) j ≡ some c'
get_new m c c' id j e h = ground (arith, get-insert m id j c, ==_iff id j)

module _ {V : Type 0} (key_of : V → Key) where
  -- The index leads only to stored values with its key.
  abbrev pub Points : Index → List (Uuid × V) → Type 0
  Points index m =
      (key : Key) (id : Uuid) → Has index key id → (c : V) × (get m id ≡ some c) × (key_of c ≡ key)

  -- Each stored value is in the index.
  abbrev pub Lists : Index → List (Uuid × V) → Type 0
  Lists index m = (id : Uuid) (c : V) → get m id ≡ some c → Has index (key_of c) id

  push-Points :
      (index : Index) (m : List (Uuid × V)) (id : Uuid) (c : V)
      → get m id ≡ none
      → Points index m
      → Points (push index (key_of c) id) (insert m id c)
  push-Points index m id c e points key j has =
      elim (get-push index (key_of c) id key has.0 j has.1 has.2) [
        | inl w ↦ (c, ground (arith, w.1, get-insert m id j c, ==_iff id j), w.0)
        | inr w ↦ let p = points key j w in (p.0, get_new m c p.0 id j e p.1, p.2)
      ]

  push-Lists :
      (index : Index) (m : List (Uuid × V)) (id : Uuid) (c : V)
      → Lists index m
      → Lists (push index (key_of c) id) (insert m id c)
  push-Lists index m id c lists j c' h = elim (some-get m c c' id j h) [
    | inl w ↦ push-Has index (key_of c) id (key_of c') j (inl (ap key_of w.1, w.0))
    | inr w ↦ push-Has index (key_of c) id (key_of c') j (inr (lists j c' w))
  ]

-- Each stored credential stands under its own id and satisfies `P`.
abbrev pub Stored : (TravelCredential → Type 0) → List (Uuid × TravelCredential) → Type 0
Stored P m = (id : Uuid) (c : TravelCredential) → get m id ≡ some c → (c.credential_id ≡ id) × P c

pub record Consistent (P : TravelCredential → Type 0) (ix : Indexes) : Type 0 where
  pub stored : Stored P ix.credentials
  pub management_points : Points management_key ix.management_index ix.credentials
  pub business_points : Points business_key ix.business_index ix.credentials
  pub management_lists : Lists management_key ix.management_index ix.credentials
  pub business_lists : Lists business_key ix.business_index ix.credentials

pub no_indexes-Consistent : (P : TravelCredential → Type 0) → Consistent P no_indexes
unfolding get
no_indexes-Consistent P = record {
  stored = λ id c h. cc;
  management_points = λ key id has. absurd (no_member key id has);
  business_points = λ key id has. absurd (no_member key id has);
  management_lists = λ id c h. cc;
  business_lists = λ id c h. cc;
}
  where
    no_member : (key : Key) (id : Uuid) → Has [] key id → ⊥
    no_member key id has = cc

index_credential-Consistent :
    (P : TravelCredential → Type 0) (ix : Indexes) (c : TravelCredential)
    → P c
    → contains_key ix.credentials c.credential_id ≡ false
    → Consistent P ix
    → Consistent P (index_credential ix c)
unfolding index_credential
index_credential-Consistent P ix c p new k = record {
  stored = λ id c' h. elim (some-get ix.credentials c c' c.credential_id id h) [
    | inl w ↦ (subst (λ x. x.credential_id ≡ id) w.1 w.0, subst P w.1 p)
    | inr w ↦ k.stored id c' w
  ];
  management_points =
      push-Points management_key ix.management_index ix.credentials c.credential_id c e
        k.management_points;
  business_points =
      push-Points business_key ix.business_index ix.credentials c.credential_id c e
        k.business_points;
  management_lists =
      push-Lists management_key ix.management_index ix.credentials c.credential_id c
        k.management_lists;
  business_lists =
      push-Lists business_key ix.business_index ix.credentials c.credential_id c k.business_lists;
}
  where
    e : get ix.credentials c.credential_id ≡ none
    e = ground (arith, contains_key-get ix.credentials c.credential_id)

-- An authority that the lookup finds is one of the list, under its own id.
Known : List TrustedTravelAuthority → List (Text × TrustedTravelAuthority) → Type 0
Known authorities m =
    (id : Text) (a : TrustedTravelAuthority) → get m id ≡ some a → Member a authorities

collect_authorities-Known :
    (all : List TrustedTravelAuthority) (found : List (Text × TrustedTravelAuthority))
    (authorities : List TrustedTravelAuthority)
    → ((a : TrustedTravelAuthority) → Member a authorities → Member a all)
    → Known all found
    → Known all (collect_authorities found authorities)
unfolding collect_authorities Known
collect_authorities-Known all found [] inside known = known
collect_authorities-Known all found (a ∷ authorities) inside known =
    collect_authorities-Known all (insert found (authority_id_of a) a) authorities
      (λ b m. inside b (there m))
      (λ id b h. elim (some-get found a b (authority_id_of a) id h) [
        | inl w ↦ subst (λ x. Member x all) w.1 (inside a here)
        | inr w ↦ known id b w
      ])

authorities_by_id-Known :
    (authorities : List TrustedTravelAuthority) → Known authorities (authorities_by_id authorities)
unfolding authorities_by_id Known get
authorities_by_id-Known authorities =
    collect_authorities-Known authorities [] authorities (λ a m. m) (λ id a h. cc)

module _ (crypto : Crypto) (parse : Parse) (deployment_id : Text)
    (authorities : List TrustedTravelAuthority) where
  -- One of the authorities signed the credential in `signed`, for this deployment.
  pub record Signs (signed : SignedTravelCredential) (c : TravelCredential) : Type 0 where
    pub authority : TrustedTravelAuthority
    pub trusted : Member authority authorities
    pub signature : verify_signed crypto parse signed authority ≡ ok c
    pub deployment : c.deployment_id ≡ deployment_id

  -- One of the signed credentials is `c`.
  abbrev pub Among : List SignedTravelCredential → TravelCredential → Type 0
  Among all c = (signed : SignedTravelCredential) × Member signed all × Signs signed c

  admit_lem :
      (c : TravelCredential) (ix ix' : Indexes)
      → admit crypto parse deployment_id ix c ≡ ok ix'
      → (c.deployment_id ≡ deployment_id)
        × (contains_key ix.credentials c.credential_id ≡ false)
        × (ix' ≡ index_credential ix c)
  unfolding admit
  admit_lem c ix ix' h =
      let d =
        >>-eq-ok (not (text_eq c.deployment_id deployment_id)) wrong_deployment
          (bail_if (contains_key ix.credentials c.credential_id) duplicate_credential
            >> ok (index_credential ix c))
          h in
      let n =
        >>-eq-ok (contains_key ix.credentials c.credential_id) duplicate_credential
          (ok (index_credential ix c)) d.1 in
      (text_eq→eq c.deployment_id deployment_id (ground (arith, d.0)), n.0, sym (ok_inj n.1))

  add_credential_lem :
      (signed : SignedTravelCredential) (ix ix' : Indexes)
      → add_credential crypto parse deployment_id (authorities_by_id authorities) signed ix ≡ ok ix'
      → (c : TravelCredential) × Signs signed c
        × (contains_key ix.credentials c.credential_id ≡ false)
        × (ix' ≡ index_credential ix c)
  unfolding add_credential verify_with Known
  add_credential_lem signed ix ix' h =
      let l =
        >>=-eq-ok
          (ok_or (get (authorities_by_id authorities) signed.authority_id) unknown_authority)
          (verify_with crypto parse deployment_id signed ix) h in
      let v =
        >>=-eq-ok (verify_signed crypto parse signed l.0) (admit crypto parse deployment_id ix)
          l.2 in
      let a = admit_lem v.0 ix ix' v.2 in
      (
        v.0,
        record {
          authority = l.0;
          trusted = authorities_by_id-Known authorities signed.authority_id l.0 (
              ok_or-eq-ok (get (authorities_by_id authorities) signed.authority_id)
                unknown_authority l.1);
          signature = v.1;
          deployment = a.0;
        },
        a.1,
        a.2,
      )

  pub add_credentials-Consistent :
      (all credentials : List SignedTravelCredential) (ix ix' : Indexes)
      → ((s : SignedTravelCredential) → Member s credentials → Member s all)
      → Consistent (Among all) ix
      → add_credentials crypto parse deployment_id (authorities_by_id authorities) credentials ix
        ≡ ok ix'
      → Consistent (Among all) ix'
  unfolding add_credentials
  add_credentials-Consistent all [] ix ix' inside k h = subst (Consistent (Among all)) (ok_inj h) k
  add_credentials-Consistent all (s ∷ credentials) ix ix' inside k h =
      let step =
        >>=-eq-ok (add_credential crypto parse deployment_id (authorities_by_id authorities) s ix)
          (add_credentials crypto parse deployment_id (authorities_by_id authorities) credentials)
          h in
      let one = add_credential_lem s ix step.0 step.1 in
      add_credentials-Consistent all credentials step.0 ix' (λ t m. inside t (there m))
        (subst (Consistent (Among all)) (sym one.3)
          (index_credential-Consistent (Among all) ix one.0 (s, inside s here, one.1) one.2 k))
        step.2
