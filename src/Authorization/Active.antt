-- ===== src/Authorization/Active.antt =====
-- internal/flowsplice-core/src/authorization.rs: what the revocations and `authorize_all` let through.
use flowsplice_rust.Prelude.{
  ℕ, ◌≡◌, sym, subst, true, false, ◌||◌, not, List, [], ◌∷◌, some, ok, ◌>>◌, ◌>>=◌, bail_if, ok_or,
  ◌==◌, ltb, arith, is_empty, length, filter, Member, here, there, Member-filter, >>=-eq-ok,
  >>-eq-ok, ok_inj, ok_or-eq-ok,
}
use flowsplice_rust.Prelude.Maps.{get, contains, contains_key, nat_eq, text_key, pair_key, Has}
use flowsplice_rust.Protocol.{Uuid}
use flowsplice_rust.Authorization.Scope.{
  bad_revocation, unknown_revocation, duplicate_revocation, not_covered, certificate_expired,
  not_active, inconsistent_index,
}
use flowsplice_rust.Authorization.Credential.{TravelCredential, active_at}
use flowsplice_rust.Authorization.Snapshot.{
  Index, VerifiedAuthorization, TravelRevocation, check_revocations,
}
use flowsplice_rust.Authorization.Access.{
  PeerIdentity, identity_active_at, identity_key, is_active, collect, authorize_all, authorize_ids,
  non_empty,
}

revoked-Member :
    (credentials : List (Uuid × TravelCredential)) (r q : TravelRevocation)
    (revocations : List TravelRevocation) (revoked : List Uuid)
    → Member q (r ∷ revocations)
    → contains revoked r.credential_id ≡ true
    → ((q : TravelRevocation) → Member q revocations → contains revoked q.credential_id ≡ true)
    → contains revoked q.credential_id ≡ true
revoked-Member credentials r q revocations revoked here own rest = own
revoked-Member credentials r q revocations revoked (there m) own rest = rest q m

pub check_revocations_lem :
    (credentials : List (Uuid × TravelCredential)) (revocations : List TravelRevocation)
    (seen revoked : List Uuid)
    → check_revocations credentials revocations seen ≡ ok revoked
    → ((id : Uuid) → contains seen id ≡ true → contains revoked id ≡ true)
      × ((r : TravelRevocation) → Member r revocations → contains revoked r.credential_id ≡ true)
unfolding check_revocations contains
check_revocations_lem credentials [] seen revoked h =
    (λ id c. subst (λ s. contains s id ≡ true) (ok_inj h) c, λ r m. elim m [ ])
check_revocations_lem credentials (r ∷ revocations) seen revoked h =
    let rest = check_revocations credentials revocations (r.credential_id ∷ seen) in
    let new = bail_if (contains seen r.credential_id) duplicate_revocation >> rest in
    let known =
      bail_if (not (contains_key credentials r.credential_id)) unknown_revocation >> new in
    let a =
      >>-eq-ok (r.revoked_at_unix_secs == 0 || is_empty r.reason || ltb 256 (length r.reason))
        bad_revocation known h in
    let b = >>-eq-ok (not (contains_key credentials r.credential_id)) unknown_revocation new a.1 in
    let c = >>-eq-ok (contains seen r.credential_id) duplicate_revocation rest b.1 in
    let k = check_revocations_lem credentials revocations (r.credential_id ∷ seen) revoked c.1 in
    (
      λ id m. k.0 id (ground arith),
      λ q m.
          revoked-Member credentials r q revocations revoked m (k.0 r.credential_id (ground arith))
            k.1,
    )

collected :
    {V : Type 0} (m : List (Uuid × V)) (id : Uuid) (ids : List Uuid) (d : V) (ds : List V) (c : V)
    → get m id ≡ some d
    → (Member c ds → (j : Uuid) × Member j ids × (get m j ≡ some c))
    → Member c (d ∷ ds)
    → (j : Uuid) × Member j (id ∷ ids) × (get m j ≡ some c)
collected m id ids d ds c e rest here = (id, here, e)
collected m id ids d ds c e rest (there n) = let r = rest n in (r.0, there r.1, r.2)

Member-contains : (id : Uuid) (ids : List Uuid) → Member id ids → contains ids id ≡ true
unfolding contains
Member-contains id [] m = elim m [ ]
Member-contains id (j ∷ ids) here = ground arith
Member-contains id (j ∷ ids) (there m) = ground (arith, Member-contains id ids m)

module _ (a : VerifiedAuthorization) (unix_secs : ℕ) where
  collect_lem :
      (ids : List Uuid) (cs : List TravelCredential) (c : TravelCredential)
      → collect a ids ≡ ok cs
      → Member c cs
      → (id : Uuid) × Member id ids × (get a.indexes.credentials id ≡ some c)
  unfolding collect
  collect_lem [] cs c h m = elim (subst (Member c) (sym (ok_inj h)) m) [ ]
  collect_lem (id ∷ ids) cs c h m =
      let x =
        >>=-eq-ok (ok_or (get a.indexes.credentials id) inconsistent_index)
          (λ d. collect a ids >>= λ ds. ok (d ∷ ds)) h in
      let y = >>=-eq-ok (collect a ids) (λ ds. ok (x.0 ∷ ds)) x.2 in
      collected a.indexes.credentials id ids x.0 y.0 c
        (ok_or-eq-ok (get a.indexes.credentials id) inconsistent_index x.1)
        (λ n. collect_lem ids y.0 c y.1 n) (subst (Member c) (sym (ok_inj y.2)) m)

  is_active_lem :
      (id : Uuid) (c : TravelCredential)
      → get a.indexes.credentials id ≡ some c
      → is_active a unix_secs id ≡ true
      → (contains a.revoked_credentials id ≡ false) × (active_at c unix_secs ≡ true)
  unfolding is_active
  is_active_lem id c e h = (ground (arith, e), ground (arith, e))

  pub authorize_all_lem :
      (index : Index) (identity : PeerIdentity) (cs : List TravelCredential) (c : TravelCredential)
      → authorize_all a index identity unix_secs ≡ ok cs
      → Member c cs
      → (id : Uuid) × Has index (identity_key identity) id
        × (get a.indexes.credentials id ≡ some c)
        × (contains a.revoked_credentials id ≡ false)
        × (active_at c unix_secs ≡ true)
        × (identity_active_at identity unix_secs ≡ true)
  unfolding authorize_all authorize_ids non_empty
  authorize_all_lem index identity cs c h m =
      let i =
        >>=-eq-ok (ok_or (get index (identity_key identity)) not_covered)
          (authorize_ids a identity unix_secs) h in
      let some_ids = ok_or-eq-ok (get index (identity_key identity)) not_covered i.1 in
      let found = collect a (filter (is_active a unix_secs) i.0) in
      let t =
        >>-eq-ok (not (identity_active_at identity unix_secs)) certificate_expired
          (found >>= non_empty a) i.2 in
      let f = >>=-eq-ok found (non_empty a) t.1 in
      let n = >>-eq-ok (is_empty f.0) not_active (ok f.0) f.2 in
      let k =
        collect_lem (filter (is_active a unix_secs) i.0) f.0 c f.1
          (subst (Member c) (sym (ok_inj n.1)) m) in
      let q = Member-filter (is_active a unix_secs) i.0 k.1 in
      let l = is_active_lem k.0 c k.2 q.1 in
      (k.0, (i.0, some_ids, Member-contains k.0 i.0 q.0), k.2, l.0, l.1, ground (arith, t.0))
