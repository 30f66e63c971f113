-- ===== src/Authorization/Latest.antt =====
-- internal/flowsplice-core/src/authorization.rs: the choice of a credential by `max_by_key`.
use flowsplice_rust.Prelude.{
  ℕ, ◌≡◌, ◌≤◌, refl, sym, ap, ◌∙◌, ◌⊎◌, inl, inr, subst, Bool, true, List, [], ◌∷◌, Option, none,
  some, ok, ok_or, ltb, arith, filter, Bool-cases, Member, here, there, filter-Member, some_inj,
  >>=-eq-ok, ok_inj, ok_or-eq-ok,
}
use flowsplice_rust.Prelude.Text.{Text}
use flowsplice_rust.Prelude.Maps.{nat_eq, text_key, pair_key}
use flowsplice_rust.Authorization.Scope.{allows_home, not_for_home}
use flowsplice_rust.Authorization.Credential.{TravelCredential}
use flowsplice_rust.Authorization.Snapshot.{VerifiedAuthorization}
use flowsplice_rust.Authorization.Access.{
  PeerIdentity, later, latest, authorize_management_all, authorize_management_for_home,
}

abbrev pub for_home : Text → TravelCredential → Bool
for_home home_id c = allows_home c.scope home_id

later-cases : (b d : TravelCredential) → (later b d ≡ b) ⊎ (later b d ≡ d)
unfolding later
later-cases b d = elim (Bool-cases (ltb d.not_after_unix_secs b.not_after_unix_secs)) [
  | inl t ↦ inl (rw (t) refl)
  | inr f ↦ inr (rw (f) refl)
]

-- `latest` gives the best so far or one of the list.
pub latest-Member :
    (best : Option TravelCredential) (cs : List TravelCredential) (c : TravelCredential)
    → latest best cs ≡ some c
    → (best ≡ some c) ⊎ Member c cs
unfolding latest
latest-Member best [] c h = inl h
latest-Member none (d ∷ cs) c h = elim (latest-Member (some d) cs c h) [
  | inl e ↦ inr (subst (λ x. Member x (d ∷ cs)) (some_inj e) here)
  | inr m ↦ inr (there m)
]
latest-Member (some b) (d ∷ cs) c h = elim (latest-Member (some (later b d)) cs c h) [
  | inr m ↦ inr (there m)
  | inl e ↦ elim (later-cases b d) [
    | inl f ↦ inl (ap some (sym f) ∙ e)
    | inr f ↦ inr (subst (λ x. Member x (d ∷ cs)) (sym f ∙ some_inj e) here)
  ]
]

abbrev Ends : ℕ → TravelCredential → Type 0
Ends bound c = bound ≤ c.not_after_unix_secs

later_lem :
    (b d : TravelCredential) (bound : ℕ)
    → (bound ≤ b.not_after_unix_secs) ⊎ (bound ≤ d.not_after_unix_secs)
    → bound ≤ (later b d).not_after_unix_secs
unfolding later
later_lem b d bound h = elim (Bool-cases (ltb d.not_after_unix_secs b.not_after_unix_secs)) [
  | inl t ↦ rw (t) (ground arith)
  | inr f ↦ rw (f) (ground arith)
]

-- Nothing that `latest` has seen ends later than its result.
latest_bound :
    (b : TravelCredential) (cs : List TravelCredential) (c : TravelCredential) (bound : ℕ)
    → latest (some b) cs ≡ some c
    → bound ≤ b.not_after_unix_secs
    → bound ≤ c.not_after_unix_secs
unfolding latest
latest_bound b [] c bound h k = subst (Ends bound) (some_inj h) k
latest_bound b (d ∷ cs) c bound h k =
    latest_bound (later b d) cs c bound h (later_lem b d bound (inl k))

latest_greatest :
    (best : Option TravelCredential) (cs : List TravelCredential) (c d : TravelCredential)
    → latest best cs ≡ some c
    → Member d cs
    → d.not_after_unix_secs ≤ c.not_after_unix_secs
unfolding latest
latest_greatest best [] c d h m = elim m [ ]
latest_greatest none (d ∷ cs) c _ h here = latest_bound d cs c d.not_after_unix_secs h (omega arith)
latest_greatest none (b ∷ cs) c d h (there m) = latest_greatest (some b) cs c d h m
latest_greatest (some b) (d ∷ cs) c _ h here =
    latest_bound (later b d) cs c d.not_after_unix_secs h
      (later_lem b d d.not_after_unix_secs (inr (omega arith)))
latest_greatest (some b) (e ∷ cs) c d h (there m) = latest_greatest (some (later b e)) cs c d h m

-- Of the active credentials of an identity that allow the Home, the one chosen for a route ends
-- last.
pub authorize_management_for_home-latest :
    (a : VerifiedAuthorization) (identity : PeerIdentity) (home_id : Text) (unix_secs : ℕ)
    (active : List TravelCredential) (c d : TravelCredential)
    → authorize_management_for_home a identity home_id unix_secs ≡ ok c
    → authorize_management_all a identity unix_secs ≡ ok active
    → Member d active
    → allows_home d.scope home_id ≡ true
    → d.not_after_unix_secs ≤ c.not_after_unix_secs
unfolding authorize_management_for_home
authorize_management_for_home-latest a identity home_id unix_secs active c d h all m allowed =
    let x =
      >>=-eq-ok (authorize_management_all a identity unix_secs)
        (λ active. ok_or (latest none (filter (for_home home_id) active)) not_for_home) h in
    latest_greatest none (filter (for_home home_id) x.0) c d
      (ok_or-eq-ok (latest none (filter (for_home home_id) x.0)) not_for_home x.2)
      (filter-Member (for_home home_id) x.0 (subst (Member d) (ok_inj (sym all ∙ x.1)) m) allowed)
