-- ===== src/AuthService/Live.antt =====
-- How many refresh tokens of a user app/service/auth_service.py leaves live.
use adehun_api.Prelude.{
  ℕ, suc, ◌≤◌, ◌≡◌, refl, true, List, [], ◌∷◌, Option, some, none, find, is_some, arith, ◌==◌, ltb,
  inl, inr, if◌then◌else◌, Bool-cases, Option-cases, find_holds,
}
use adehun_api.Models.{RefreshToken}
use adehun_api.Session.{Session, ◌>>=◌}
use adehun_api.Session.Commits.{commit_splits}
use adehun_api.AuthService.{
  Claims, is_refresh, is_outdated, verify_refresh, write_tokens, token_by_jti, revoke, is_live,
  revoke_all_for_user, rotate, reject_reuse, refresh_token,
}
use adehun_api.AuthService.Rotation.{load_user-Reads, rotated}

unfoldable pub live : ℕ → List RefreshToken → ℕ
live v [] = 0
live v (t ∷ ts) = let rest = live v ts in if is_live v t then suc rest else rest

live-revoke :
    (now v j : ℕ) (o : Option ℕ) (ts : List RefreshToken) → live v (revoke now o j ts) ≤ live v ts
unfolding live revoke
live-revoke now v j o [] = omega arith
live-revoke now v j o (t ∷ ts) = ground (arith, live-revoke now v j o ts)

live-revoke_all :
    (now v u : ℕ) (ts : List RefreshToken) → live v (revoke_all_for_user now u ts) ≤ live v ts
unfolding live revoke_all_for_user
live-revoke_all now v u [] = omega arith
live-revoke_all now v u (t ∷ ts) = ground (arith, live-revoke_all now v u ts)

-- A live token that is revoked is one less.
live-revoke_found :
    (now v j : ℕ) (o : Option ℕ) (ts : List RefreshToken) {row : RefreshToken}
    → find (λ t. t.jti == j) ts ≡ some row
    → is_live v row ≡ true
    → suc (live v (revoke now o j ts)) ≤ live v ts
unfolding live revoke
live-revoke_found now v j o [] found alive = cc
live-revoke_found now v j o (t ∷ ts) {row} found alive =
    ground (arith, live-revoke now v j o ts, live-revoke_found now v j o ts {row = row})

module _ (v now u : ℕ) (s : Session) where
  reject_reuse-live :
      live v (reject_reuse now u s).1.working.refresh_tokens ≤ live v s.working.refresh_tokens
  unfolding reject_reuse write_tokens ◌>>=◌
  reject_reuse-live = elim (commit_splits ended) [
    | inr (e, failed) ↦ rw failed less
    | inl (good, done) ↦ rw done less
  ]
    where
      ended : Session
      ended = record s { working = write_tokens (revoke_all_for_user now u) s.working }

      less :
          live v (revoke_all_for_user now u s.working.refresh_tokens)
          ≤ live v s.working.refresh_tokens
      less = live-revoke_all now v u s.working.refresh_tokens

  rotated-live :
      (j : ℕ) (row : RefreshToken)
      → token_by_jti j s.working ≡ some row
      → is_live u row ≡ true
      → live v (rotated now u row s).working.refresh_tokens ≤ live v s.working.refresh_tokens
  unfolding write_tokens live
  rotated-live j row found alive = elim (Bool-cases (u == v)) [
    | inr other ↦ rw other (live-revoke now v row.jti (some s.next_id) s.working.refresh_tokens)
    | inl same ↦
        rw (same, own)
          (live-revoke_found now v j (some s.next_id) s.working.refresh_tokens found (ground arith))
  ]
    where
      own : row.jti ≡ j
      own = ground (arith, find_holds (λ t. t.jti == j) s.working.refresh_tokens found)

  rotate-live :
      (j : ℕ) (row : RefreshToken)
      → token_by_jti j s.working ≡ some row
      → is_live u row ≡ true
      → live v (rotate now u row s).1.working.refresh_tokens ≤ live v s.working.refresh_tokens
  unfolding rotate ◌>>=◌
  rotate-live j row found alive = elim (Bool-cases (ltb row.expires_at now)) [
    | inl expired ↦ rw expired (omega arith)
    | inr valid ↦ elim ((load_user-Reads u).at s) [
      | inr (e, failed) ↦ rw (valid, failed) (omega arith)
      | inl (user, known) ↦ elim (commit_splits (rotated now u row s)) [
        | inr (e, failed) ↦ rw (valid, known, failed) (rotated-live j row found alive)
        | inl (good, done) ↦ rw (valid, known, done) (rotated-live j row found alive)
      ]
    ]
  ]

-- Whether a refresh returns or raises, and whatever token is presented, it leaves no user with
-- more live refresh tokens than before.
pub refresh_token-live :
    (v now : ℕ) (decoded : Option Claims) (s : Session)
    → live v (refresh_token now decoded s).1.working.refresh_tokens
      ≤ live v s.working.refresh_tokens
unfolding refresh_token verify_refresh ◌>>=◌
refresh_token-live v now none s = omega arith
refresh_token-live v now (some claims) s = elim (Bool-cases (is_outdated now claims)) [
  | inl late ↦ rw late (omega arith)
  | inr timely ↦ elim (Bool-cases (is_refresh claims.type)) [
    | inr access ↦ rw (timely, access) (omega arith)
    | inl typed ↦ elim (Option-cases (token_by_jti claims.jti s.working)) [
      | inl missing ↦ rw (timely, typed, missing) (omega arith)
      | inr (row, found) ↦ elim (Bool-cases (row.user_id == claims.sub)) [
        | inr other ↦ rw (timely, typed, found, other) (omega arith)
        | inl owner ↦ elim (Bool-cases (is_some row.revoked_at)) [
          | inl used ↦ rw (timely, typed, found, owner, used) (reject_reuse-live v now claims.sub s)
          | inr alive ↦
              rw (timely, typed, found, owner, alive)
                (rotate-live v now claims.sub s claims.jti row found (rw (owner, alive) refl))
        ]
      ]
    ]
  ]
]
