-- ===== src/Assets/Reviews.antt =====
-- The approval and the rejection of an asset in app/service/asset_service.py, and what the cached copy
-- of the asset does to the next one.
use mathlib.Core.Path.{subst}
use adehun_api.Prelude.{
  ℕ, ◌+◌, ◌≡◌, refl, ap, sym, ◌∙◌, Bool, true, false, Option, none, some, is_some, ltb, ◌==◌,
  ==_refl, any, any-find, arith, inl, inr, Bool-cases, Option-cases, find_holds, find-update_other,
}
use adehun_api.Enums.{is_depositor}
use adehun_api.Models.{Db, Asset, Condition}
use adehun_api.Errors.{Error, condition_not_found, forbidden, asset_not_found, asset_approval}
use adehun_api.Redis.{Cache, cache_get, cache_set, cache_delete}
use adehun_api.Session.{
  Session, Result, ok, err, pure, raise, ◌>>=◌, ◌>>◌, constraints, no_clash, same_asset, rollback,
  asked, ask_redis, told, tell_redis,
}
use adehun_api.Session.Commits.{commit_splits, commit_refused}
use adehun_api.Session.Ensures.{
  Post, Ensures, Ensures-bind, Ensures-raise, Ensures-if, Post-try_except,
}
use adehun_api.AgreementService.{participant_for_user}
use adehun_api.Conditions.{condition_by_id}
use adehun_api.Conditions.Authority.{pays}
use adehun_api.Assets.{
  asset_ttl, asset_by_id, add_asset, set_approved, write_asset, remember, fetch, get_by_id,
  save_asset, attached, is_under, forget_condition, decide, is_expected, decide_failed, review,
}

-- What the cache holds of an asset.
abbrev pub cached_asset : ℕ → ℕ → Session → Option Asset
cached_asset now i s = asked (λ cache. cache_get now i cache.assets) s.redis

-- The user pays under the agreement of the condition.
pub record IsPayer (c u : ℕ) (db : Db) : Type 0 where
  pub row : Condition
  pub found : condition_by_id c db ≡ some row
  pub payer : pays (participant_for_user row.agreement_id u db) ≡ true

-- An asset of the condition was decided on, and the decision is committed.
pub record IsDecided (b : Bool) (c i u : ℕ) (s : Session) (x : Asset) (t : Session) : Type 0 where
  pub allowed : IsPayer c u s.working
  pub under : is_under c x.condition_id ≡ true
  pub stored : asset_by_id i t.committed ≡ some x
  pub decided : x.is_approved ≡ b
  pub settled : t.working ≡ t.committed

-- The cache, if there is one, still has the asset as it was before the decision.
record IsStale (b : Bool) (now c i u : ℕ) (s : Session) (x : Asset) (t : Session) : Type 0 where
  pub done : IsDecided b c i u s x t
  pub stale : Asset
  pub same : (stale.id == i) ≡ true
  pub kept :
      is_some s.redis ≡ true
      → (later : ℕ) → ltb later (now + asset_ttl) ≡ true
      → cached_asset later i t ≡ some stale

-- After it was remembered, an asset is in the cache until it expires, whatever the listings are.
remembered :
    (now i later c : ℕ) (x : Asset) (redis : Option Cache)
    → is_some redis ≡ true
    → ltb later (now + asset_ttl) ≡ true
    → asked
        (λ cache. cache_get later i cache.assets)
        (told
          (λ cache. record cache { condition_assets = cache_delete c cache.condition_assets })
          (told
            (λ cache. record cache { assets = cache_set now i x asset_ttl cache.assets })
            redis))
      ≡ some x
unfolding cache_get cache_set
remembered now i later c x none h fresh = ground arith
remembered now i later c x (some cache) h fresh = rw (==_refl i, fresh) refl

module _ (b : Bool) (now c i u : ℕ) (s : Session) (cold : cached_asset now i s ≡ none) where
  ended : Asset → Session
  ended x = record s {
    working = write_asset x.id (set_approved b) s.working;
    redis =
        told (λ cache. record cache { assets = cache_set now i x asset_ttl cache.assets }) s.redis;
  }

  written :
      (x : Asset)
      → asset_by_id i s.working ≡ some x
      → asset_by_id i (ended x).working ≡ some (set_approved b x)
  unfolding ended write_asset
  written x known =
      find-update_other (λ y. y.id == i) (λ y. y.id == x.id) (set_approved b) s.working.assets
        (λ y. refl) known (==_refl x.id)

  decided_on :
      (x : Asset)
      → IsPayer c u s.working
      → asset_by_id i s.working ≡ some x
      → is_under c x.condition_id ≡ true
      → Post (IsStale b now c i u s) (
          (do save_asset b (attached x); forget_condition c; pure (set_approved b x))
            (record s {
              redis =
                  told
                    (λ cache. record cache { assets = cache_set now i x asset_ttl cache.assets })
                    s.redis;
            }))
  unfolding ended save_asset forget_condition tell_redis ◌>>=◌
  decided_on x payer known under = elim (commit_splits (ended x)) [
    | inr (e, failed) ↦ rw failed tt
    | inl (good, done) ↦ rw done (record {
      done = record {
        allowed = payer;
        under = under;
        stored = written x known;
        decided = refl;
        settled = refl;
      };
      stale = x;
      same = find_holds (λ y. y.id == i) s.working.assets known;
      kept = λ there later fresh. remembered now i later c x s.redis there fresh;
    })
  ]

  decide_failed-Ensures : (e : Error) → Ensures (IsStale b now c i u s) (decide_failed e)
  unfolding decide_failed
  decide_failed-Ensures e =
      Ensures-if (is_expected e) (raise e) _ (Ensures-raise e)
        (Ensures-bind rollback _ (λ _. Ensures-raise asset_approval))

  decide-Post : Post (IsStale b now c i u s) (decide b now c i u s)
  unfolding decide ask_redis tell_redis fetch remember get_by_id ◌>>=◌
  decide-Post = elim (Option-cases (condition_by_id c s.working)) [
    | inl unknown ↦ rw unknown tt
    | inr (row, found) ↦ elim (Option-cases (participant_for_user row.agreement_id u s.working)) [
      | inl stranger ↦ rw (found, stranger) tt
      | inr (p, member) ↦ elim (Bool-cases (is_depositor p.role)) [
        | inr payee ↦ rw (found, member, payee) tt
        | inl payer ↦ elim (Option-cases (asset_by_id i s.working)) [
          | inl missing ↦ rw (found, member, payer, cold, missing) tt
          | inr (x, known) ↦ elim (Bool-cases (is_under c x.condition_id)) [
            | inr elsewhere ↦ rw (found, member, payer, cold, known, elsewhere) tt
            | inl under ↦
                rw (found, member, payer, cold, known, under)
                  (decided_on x (record { row = row; found = found; payer = rw member payer }) known
                    under)
          ]
        ]
      ]
    ]
  ]

  review-IsStale : Post (IsStale b now c i u s) (review b now c i u s)
  review-IsStale =
      Post-try_except (decide b now c i u) decide_failed s decide-Post decide_failed-Ensures

-- When the approval or the rejection of an asset that the cache does not hold returns, the user
-- is the depositor under the agreement of the condition, the returned asset belongs to the
-- condition and carries the decision, and the committed row of the asset is the returned one.
pub review-IsDecided :
    (b : Bool) (now c i u : ℕ) (s t : Session) (x : Asset)
    → cached_asset now i s ≡ none
    → review b now c i u s ≡ (ok x, t)
    → IsDecided b c i u s x t
review-IsDecided b now c i u s t x cold done =
    (subst (Post (IsStale b now c i u s)) done (review-IsStale b now c i u s cold)).done

-- A second row with the id of an asset is refused.
doubled :
    (db : Db) (i : ℕ) (x y : Asset)
    → asset_by_id i db ≡ some x
    → (y.id == i) ≡ true
    → constraints (add_asset y db) ≡ false
unfolding constraints add_asset no_clash
doubled db i x y found same = ground (arith, clash)
  where
    meet : same_asset y x ≡ true
    meet = ground (arith, find_holds (λ z. z.id == i) db.assets found)

    clash : any (same_asset y) db.assets ≡ true
    clash = any-find (λ z. z.id == i) (same_asset y) db.assets found meet

module _ (b : Bool) (now c i u : ℕ) (s : Session) (x y : Asset) (settled : s.working ≡ s.committed)
    (stored : asset_by_id i s.committed ≡ some x) (warm : cached_asset now i s ≡ some y)
    (same : (y.id == i) ≡ true) where
  undone : record s { working = s.committed } ≡ s
  undone = ap (λ w. record s { working = w }) (sym settled)

  inserted : Session
  inserted = record s { working = add_asset (set_approved b y) s.working }

  stuck : (e : Error) × (review b now c i u s ≡ (err e, s))
  unfolding decide decide_failed ask_redis fetch get_by_id save_asset rollback inserted ◌>>=◌
  stuck = elim (Option-cases (condition_by_id c s.working)) [
    | inl unknown ↦ (condition_not_found, rw unknown refl)
    | inr (row, found) ↦ elim (Option-cases (participant_for_user row.agreement_id u s.working)) [
      | inl stranger ↦ (forbidden, rw (found, stranger) refl)
      | inr (p, member) ↦ elim (Bool-cases (is_depositor p.role)) [
        | inr payee ↦ (forbidden, rw (found, member, payee) refl)
        | inl payer ↦ elim (Bool-cases (is_under c y.condition_id)) [
          | inr elsewhere ↦ (asset_not_found, rw (found, member, payer, warm, elsewhere) refl)
          | inl under ↦ elim (commit_refused inserted bad) [
            | inl big ↦ (asset_approval, rw (found, member, payer, warm, under, big) back)
            | inr clash ↦ (asset_approval, rw (found, member, payer, warm, under, clash) back)
          ]
        ]
      ]
    ]
  ]
    where
      bad : constraints inserted.working ≡ false
      bad = doubled s.working i x (set_approved b y) (ap (asset_by_id i) settled ∙ stored) same

      back :
          ◌≡◌ {A = Result Asset × Session}
            (err asset_approval, record s { working = s.committed })
            (err asset_approval, s)
      back = ap (λ t. (err asset_approval, t)) undone

-- Where there is a cache that did not hold the asset, an asset that was approved or rejected
-- cannot be decided on again for a day: under whatever condition and by whomever, the next
-- approval or rejection from the session that the first one left raises an error and changes
-- nothing.
pub reviewed_once :
    (b again : Bool) (now later c d i u v : ℕ) (s t : Session) (x : Asset)
    → cached_asset now i s ≡ none
    → is_some s.redis ≡ true
    → review b now c i u s ≡ (ok x, t)
    → ltb later (now + asset_ttl) ≡ true
    → (e : Error) × (review again later d i v t ≡ (err e, t))
reviewed_once b again now later c d i u v s t x cold there done fresh =
    stuck again later d i v t x h.stale h.done.settled h.done.stored (h.kept there later fresh)
      h.same
  where
    h : IsStale b now c i u s x t
    h = subst (Post (IsStale b now c i u s)) done (review-IsStale b now c i u s cold)
