-- ===== src/Authorization/Cache.antt =====
-- internal/flowsplice-core/src/authorization.rs: the cache never goes back.
use flowsplice_rust.Prelude.{
  ◌↔◌, ◌≡◌, ◌≤◌, refl, sym, ◌∙◌, ◌⊎◌, inl, inr, subst, true, false, not, List, [], ◌∷◌, ok, err,
  ◌>>◌, bail_if, ◌==◌, ltb, is_empty, arith, Bool-cases, >>-eq-ok, ok_inj, Result-cases,
  is_empty-eq,
}
use flowsplice_rust.Prelude.Text.{text_eq→eq, text_eq_refl}
use flowsplice_rust.Prelude.Maps.{contains, is_subset, is_subset_lem, is_subset_intro, nat_eq}
use flowsplice_rust.Protocol.{Uuid}
use flowsplice_rust.Authorization.Scope.{rollback, content_changed, lost_revocation}
use flowsplice_rust.Authorization.Snapshot.{
  VerifiedAuthorization, AuthorizationCache, accept, changes, cache_of,
}

-- What a later cache keeps of an earlier one. A digest is fixed by its generation, unless it was
-- never recorded.
pub record Continues (old new : AuthorizationCache) : Type 0 where
  pub generation : old.generation ≤ new.generation
  pub revocations :
      (id : Uuid)
      → contains old.revoked_credentials id ≡ true
      → contains new.revoked_credentials id ≡ true
  pub digest :
      old.generation ≡ new.generation
      → (old.generation ≡ 0)
        ⊎ ((old.snapshot_sha256 ≡ []) ⊎ (old.snapshot_sha256 ≡ new.snapshot_sha256))

same_digest :
    (cache : AuthorizationCache) (a : VerifiedAuthorization)
    → cache.generation ≡ a.generation
    → changes cache a ≡ false
    → (cache.generation ≡ 0)
      ⊎ ((cache.snapshot_sha256 ≡ []) ⊎ (cache.snapshot_sha256 ≡ a.snapshot_sha256))
same_digest cache a e h = elim (Bool-cases (cache.generation == 0)) [
  | inl z ↦ inl (ground arith)
  | inr z ↦ inr (elim (Bool-cases (is_empty cache.snapshot_sha256)) [
    | inl n ↦ inl (is_empty-eq cache.snapshot_sha256 n)
    | inr n ↦ inr (sym (text_eq→eq a.snapshot_sha256 cache.snapshot_sha256 (ground arith)))
  ])
]

accept_lem :
    (cache new : AuthorizationCache) (a : VerifiedAuthorization)
    → accept cache a ≡ ok new
    → (ltb a.generation cache.generation ≡ false)
      × (changes cache a ≡ false)
      × (is_subset cache.revoked_credentials a.revoked_credentials ≡ true)
      × (cache_of a ≡ new)
unfolding accept
accept_lem cache new a h =
    let last =
      bail_if (not (is_subset cache.revoked_credentials a.revoked_credentials)) lost_revocation
      >> ok (cache_of a) in
    let g =
      >>-eq-ok (ltb a.generation cache.generation) rollback
        (bail_if (changes cache a) content_changed >> last) h in
    let c = >>-eq-ok (changes cache a) content_changed last g.1 in
    let r =
      >>-eq-ok (not (is_subset cache.revoked_credentials a.revoked_credentials)) lost_revocation
        (ok (cache_of a)) c.1 in
    (g.0, c.0, ground (arith, r.0), ok_inj r.1)

accept-Continues :
    (cache new : AuthorizationCache) (a : VerifiedAuthorization)
    → accept cache a ≡ ok new
    → Continues cache new
accept-Continues cache new a h =
    let l = accept_lem cache new a h in
    subst (Continues cache) l.3 (record {
      generation = ground (arith, l.0);
      revocations = λ id c. is_subset_lem cache.revoked_credentials a.revoked_credentials id l.2 c;
      digest = λ e. same_digest cache a e l.1;
    })

Continues-accept :
    (cache : AuthorizationCache) (a : VerifiedAuthorization)
    → Continues cache (cache_of a)
    → accept cache a ≡ ok (cache_of a)
unfolding accept
Continues-accept cache a k = rw (older, same, kept) refl
  where
    older : ltb a.generation cache.generation ≡ false
    older = ground (arith, k.generation)

    same : changes cache a ≡ false
    same = elim (Bool-cases (a.generation == cache.generation)) [
      | inl e ↦ elim (k.digest (ground arith)) [
        | inl z ↦ ground (arith, z)
        | inr o ↦ elim o [
          | inl n ↦ rw (n) (ground arith)
          | inr d ↦ rw (d, text_eq_refl a.snapshot_sha256) (ground arith)
        ]
      ]
      | inr e ↦ ground arith
    ]

    kept : is_subset cache.revoked_credentials a.revoked_credentials ≡ true
    kept = is_subset_intro cache.revoked_credentials a.revoked_credentials k.revocations

-- The cache accepts a verified snapshot exactly if the snapshot continues what the cache has seen:
-- no older generation, no lost revocation, and no other content under a generation whose digest is
-- recorded. It then records the snapshot's generation, digest and revocations.
pub accept_iff :
    (cache new : AuthorizationCache) (a : VerifiedAuthorization)
    → (accept cache a ≡ ok new) ↔ ((cache_of a ≡ new) × Continues cache new)
accept_iff cache new a = (
  λ h. ((accept_lem cache new a h).3, accept-Continues cache new a h),
  λ k.
      subst (λ c. accept cache a ≡ ok c) k.0
        (Continues-accept cache a (subst (Continues cache) (sym k.0) k.1)),
)

-- The cache after a sequence of proposals; one that is refused leaves it.
unfoldable pub observe : AuthorizationCache → List VerifiedAuthorization → AuthorizationCache
observe cache [] = cache
observe cache (a ∷ proposals) =
    observe (elim (accept cache a) [ ok c ↦ c | err e ↦ cache ]) proposals

Continues-refl : (c : AuthorizationCache) → Continues c c
Continues-refl c = record {
  generation = omega arith;
  revocations = λ id k. k;
  digest = λ e. inr (inr refl);
}

Continues-trans : (a b c : AuthorizationCache) → Continues a b → Continues b c → Continues a c
Continues-trans a b c k l = record {
  generation = ground (arith, k.generation, l.generation);
  revocations = λ id h. l.revocations id (k.revocations id h);
  digest = λ e. elim (k.digest (ground (arith, k.generation, l.generation))) [
    | inl z ↦ inl z
    | inr o ↦ elim o [
      | inl n ↦ inr (inl n)
      | inr d ↦ elim (l.digest (ground (arith, k.generation, l.generation))) [
        | inl z ↦ inl (ground (arith, k.generation))
        | inr p ↦ inr (elim p [ inl n ↦ inl (d ∙ n) | inr q ↦ inr (d ∙ q) ])
      ]
    ]
  ];
}

-- Whatever snapshots are proposed after another, accepted or not, the cache continues its first
-- state: its generation does not fall, every revocation it held is held, and the digest recorded
-- for a positive generation stays the same as long as the generation does.
pub observe-Continues :
    (cache : AuthorizationCache) (proposals : List VerifiedAuthorization)
    → Continues cache (observe cache proposals)
unfolding observe
observe-Continues cache [] = Continues-refl cache
observe-Continues cache (a ∷ proposals) = elim (Result-cases (accept cache a)) [
  | inl w ↦ rw (w.1) (
      Continues-trans cache w.0 (observe w.0 proposals) (accept-Continues cache w.0 a w.1)
        (observe-Continues w.0 proposals))
  | inr w ↦ rw (w.1) (observe-Continues cache proposals)
]
