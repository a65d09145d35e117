-- ===== src/AuthService/Rotation.antt =====
-- `refresh_token` of app/service/auth_service.py: a token is spent by its use, and a second use of it
-- ends every session of its user.
use mathlib.Core.Path.{subst}
use adehun_api.Prelude.{
  ℕ, ◌+◌, ◌<◌, ◌≡◌, refl, ◌∙◌, true, false, List, [], ◌∷◌, some, any, is_some, arith, ◌==◌, ==_refl,
  ltb, inl, inr, Bool-cases, Option-cases, find-update_if,
}
use adehun_api.Models.{RefreshToken}
use adehun_api.Errors.{unauthorized}
use adehun_api.Session.{Session, ok, err, ◌>>=◌, commit, constraints}
use adehun_api.Session.Commits.{IsCommittable, saved, commit_ok, commit_splits}
use adehun_api.Session.Refuses.{Reads, refuses_rules}
use adehun_api.Session.Ensures.{Post, Ensures, Ensures-bind, Ensures-raise}
use adehun_api.AuthService.{
  Claims, is_refresh, is_outdated, verify_refresh, load_user, write_tokens, token_by_jti, issued,
  add_token, revoked, revoke, is_live, revoke_all_for_user, rotate, reject_reuse, refresh_token,
}

-- The presented token was replaced by `j`: it is still known, and revoked.
pub record IsSpent (claims : Claims) (s : Session) : Type 0 where
  pub typed : is_refresh claims.type ≡ true
  pub good : IsCommittable s.working
  pub row : RefreshToken
  pub found : token_by_jti claims.jti s.working ≡ some row
  pub owner : (row.user_id == claims.sub) ≡ true
  pub used : is_some row.revoked_at ≡ true

abbrev Spent : Claims → ℕ → Session → Type 0
Spent claims j s = (j == claims.jti) ≡ false → IsSpent claims s

pub load_user-Reads : (u : ℕ) → Reads (load_user u)
unfolding load_user
load_user-Reads u = search refuses_rules depth 12

reject_reuse-Ensures : (now u : ℕ) {Q : ℕ → Session → Type 0} → Ensures Q (reject_reuse now u)
unfolding reject_reuse
reject_reuse-Ensures now u = search (Ensures-bind, Ensures-raise) depth 10

-- The session before the commit of `rotate`.
abbrev pub rotated : ℕ → ℕ → RefreshToken → Session → Session
rotated now u row s = record s {
  next_id = s.next_id + 1;
  working =
      write_tokens (add_token (issued now u s.next_id))
        (write_tokens (revoke now (some s.next_id) row.jti) s.working);
}

module _ (now : ℕ) (claims : Claims) (s : Session) (row : RefreshToken)
    (typed : is_refresh claims.type ≡ true) (found : token_by_jti claims.jti s.working ≡ some row)
    (owner : (row.user_id == claims.sub) ≡ true) where
  rotated-found :
      (s.next_id == claims.jti) ≡ false
      → token_by_jti claims.jti (rotated now claims.sub row s).working
        ≡ some (revoked now (some s.next_id) row)
  unfolding write_tokens revoke
  rotated-found other = rw other (
      find-update_if (λ t. t.jti == claims.jti) (λ t. t.jti == row.jti)
        (revoked now (some s.next_id)) s.working.refresh_tokens (λ t. refl) found
      ∙ rw (==_refl row.jti) refl)

  rotate-Post : Post (Spent claims) (rotate now claims.sub row s)
  unfolding rotate ◌>>=◌
  rotate-Post = elim (Bool-cases (ltb row.expires_at now)) [
    | inl expired ↦ rw expired tt
    | inr valid ↦ elim ((load_user-Reads claims.sub).at s) [
      | inr (e, failed) ↦ rw (valid, failed) tt
      | inl (user, known) ↦ elim (commit_splits (rotated now claims.sub row s)) [
        | inr (e, failed) ↦ rw (valid, known, failed) tt
        | inl (good, done) ↦
            rw (valid, known, done)
              (λ other. record {
                typed = typed;
                good = good;
                row = revoked now (some s.next_id) row;
                found = rotated-found other;
                owner = owner;
                used = refl;
              })
      ]
    ]
  ]

refresh_token-Post :
    (now : ℕ) (claims : Claims) (s : Session)
    → Post (Spent claims) (refresh_token now (some claims) s)
unfolding refresh_token verify_refresh ◌>>=◌
refresh_token-Post now claims s = elim (Bool-cases (is_outdated now claims)) [
  | inl late ↦ rw late tt
  | inr timely ↦ elim (Bool-cases (is_refresh claims.type)) [
    | inr access ↦ rw (timely, access) tt
    | inl typed ↦ elim (Option-cases (token_by_jti claims.jti s.working)) [
      | inl missing ↦ rw (timely, typed, missing) tt
      | inr (row, found) ↦ elim (Bool-cases (row.user_id == claims.sub)) [
        | inr other ↦ rw (timely, typed, found, other) tt
        | inl owner ↦ elim (Bool-cases (is_some row.revoked_at)) [
          | inl used ↦
              rw (timely, typed, found, owner, used) ((reject_reuse-Ensures now claims.sub).at s)
          | inr live ↦
              rw (timely, typed, found, owner, live)
                (rotate-Post now claims s row typed found owner)
        ]
      ]
    ]
  ]
]

none_live :
    (now u : ℕ) (ts : List RefreshToken) → any (is_live u) (revoke_all_for_user now u ts) ≡ false
unfolding revoke_all_for_user
none_live now u [] = refl
none_live now u (t ∷ ts) = ground (arith, none_live now u ts)

-- When a refresh token was exchanged for a new one with another id and is presented again before
-- the time that the token expires, with nobody in between, the request is refused as unauthorized
-- and no refresh token of its user is live in the committed database.
pub refresh_reuse :
    (now later j : ℕ) (claims : Claims) (s s' : Session)
    → refresh_token now (some claims) s ≡ (ok j, s')
    → (j == claims.jti) ≡ false
    → later < claims.exp
    → (t : Session) × (refresh_token later (some claims) s' ≡ (err unauthorized, t))
      × (any (is_live claims.sub) t.committed.refresh_tokens ≡ false)
unfolding refresh_token verify_refresh reject_reuse write_tokens constraints ◌>>=◌
refresh_reuse now later j claims s s' h other early = (
  saved ended,
  rw (timely, spent.typed, spent.found, spent.owner, spent.used, done) refl,
  none_live later claims.sub s'.working.refresh_tokens,
)
  where
    timely : is_outdated later claims ≡ false
    timely = ground arith

    spent : IsSpent claims s'
    spent = subst (Post (Spent claims)) h (refresh_token-Post now claims s) other

    ended : Session
    ended = record s' { working = write_tokens (revoke_all_for_user later claims.sub) s'.working }

    done : commit ended ≡ (ok tt, saved ended)
    done = commit_ok ended spent.good
