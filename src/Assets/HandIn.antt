-- ===== src/Assets/HandIn.antt =====
-- What app/service/asset_service.py lists for a condition after files were handed in under it.
use mathlib.Core.Path.{subst}
use adehun_api.Prelude.{
  ℕ, ◌+◌, ◌≡◌, refl, ap, ◌∙◌, Bool, true, ◌&&◌, Option, none, some, ◌==◌, ==_refl, List, [], ◌∷◌,
  select_all, inl, inr, Bool-cases, Option-cases,
}
use adehun_api.Models.{Asset, AssetFile, Condition}
use adehun_api.Errors.{Error, asset_upload}
use adehun_api.Redis.{Slot, Cache, cache_get, cache_delete}
use adehun_api.Session.{
  Session, ok, pure, raise, ◌>>=◌, rollback, asked, ask_redis, told, tell_redis,
}
use adehun_api.Session.Commits.{commit_splits}
use adehun_api.Session.Ensures.{
  Post, Ensures, Ensures-bind, Ensures-raise, Ensures-if, Post-try_except,
}
use adehun_api.AgreementService.{participant_for_user}
use adehun_api.Conditions.{condition_by_id}
use adehun_api.Assets.{
  Upload, add_asset, is_under, is_expected, forget_condition, new_file, add_files, deliverable,
  add_assets, hand_in, hand_in_failed, add_asset_to_condition,
}
use adehun_api.Assets.Feeds.{
  condition_rows, condition_feed, remember_condition, get_condition_assets,
  get_assets_for_condition,
}

-- What a file was uploaded with.
abbrev pub upload_of : AssetFile → Upload
upload_of f = record { url = f.url; type = f.type; name = f.name; size = f.size }

abbrev uploads_of : List AssetFile → List Upload
uploads_of [] = []
uploads_of (f ∷ fs) = upload_of f ∷ uploads_of fs

-- The files of the assets, in their order.
abbrev pub handed_in : List Asset → List Upload
handed_in [] = []
handed_in (x ∷ xs) = upload_of x.file ∷ handed_in xs

-- The first list, backwards, before the second.
abbrev pub onto {ℓ} : {A : Type ℓ} → List A → List A → List A
onto [] ys = ys
onto (x ∷ xs) ys = onto xs (x ∷ ys)

-- The files got ids, and nothing else changed.
record IsNamed (uploads : List Upload) (s : Session) : Type 0 where
  pub files : List AssetFile
  pub next : ℕ
  pub done : add_files uploads s ≡ (ok files, record s { next_id = next })
  pub same : uploads_of files ≡ uploads

add_files-IsNamed : (uploads : List Upload) (s : Session) → IsNamed uploads s
unfolding add_files ◌>>=◌
add_files-IsNamed [] s = record { files = []; next = s.next_id; done = refl; same = refl }
add_files-IsNamed (f ∷ fs) s =
    let h = add_files-IsNamed fs (record s { next_id = s.next_id + 1 }) in
    record {
      files = new_file s.next_id f ∷ h.files;
      next = h.next;
      done = rw h.done refl;
      same = ap (λ us. f ∷ us) h.same;
    }

-- The rows of the condition, given whether there is one.
abbrev rows_if : Bool → ℕ → List Asset → List Asset
rows_if b c xs = select_all (λ x. is_under c x.condition_id && b) xs

-- The rows were added, newest first, and nothing else changed.
record IsAdded (c p : ℕ) (files : List AssetFile) (s : Session) : Type 0 where
  pub ids : List ℕ
  pub next : ℕ
  pub assets : List Asset
  pub done :
      add_assets c p files s
      ≡ (ok ids, record s { working = record s.working { assets = assets }; next_id = next })
  pub listed :
      handed_in (rows_if true c assets)
      ≡ onto (uploads_of files) (handed_in (rows_if true c s.working.assets))

add_assets-IsAdded : (c p : ℕ) (files : List AssetFile) (s : Session) → IsAdded c p files s
unfolding add_assets add_asset ◌>>=◌
add_assets-IsAdded c p [] s = record {
  ids = [];
  next = s.next_id;
  assets = s.working.assets;
  done = refl;
  listed = refl;
}
add_assets-IsAdded c p (f ∷ fs) s =
    let h = add_assets-IsAdded c p fs next in
    record {
      ids = s.next_id ∷ h.ids;
      next = h.next;
      assets = h.assets;
      done = rw h.done refl;
      listed = h.listed ∙ ap (λ xs. onto (uploads_of fs) (handed_in xs)) front;
    }
  where
    row : Asset
    row = deliverable s.next_id c p f

    front : rows_if true c (row ∷ s.working.assets) ≡ row ∷ rows_if true c s.working.assets
    front = rw (==_refl c) refl

    next : Session
    next = record s {
      working = add_asset (deliverable s.next_id c p f) s.working;
      next_id = s.next_id + 1;
    }

-- After a deletion nothing is found under the key.
deleted :
    {A : Type 0} (now k : ℕ) (slots : List (Slot A)) → cache_get now k (cache_delete k slots) ≡ none
unfolding cache_get cache_delete
deleted now k [] = refl
deleted now k (x ∷ xs) = elim (Bool-cases (x.key == k)) [
  | inl here ↦ rw here (deleted now k xs)
  | inr other ↦ rw (other, other) (deleted now k xs)
]

-- The condition's next listing is read from the committed rows, and they are those of before and, in front
-- of them, the uploaded files.
pub record IsListed (uploads : List Upload) (c : ℕ) (s t : Session) : Type 0 where
  pub read : (now : ℕ) → (get_assets_for_condition now c t).0 ≡ ok (condition_rows c t.committed)
  pub listed :
      handed_in (condition_rows c t.committed)
      ≡ onto uploads (handed_in (condition_rows c s.working))

remember_returns :
    (now c : ℕ) (xs : List Asset) (t : Session)
    → ((remember_condition now c xs >>= λ _. pure xs) t).0 ≡ ok xs
unfolding remember_condition tell_redis ◌>>=◌
remember_returns now c [] t = refl
remember_returns now c (x ∷ xs) t = refl

cold_feed :
    (now c : ℕ) (t : Session) → (condition_feed now c none t).0 ≡ ok (condition_rows c t.working)
unfolding condition_feed ◌>>=◌
cold_feed now c t = remember_returns now c (condition_rows c t.working) t

forgotten :
    (now c : ℕ) (redis : Option Cache)
    → asked
        (λ cache. cache_get now c cache.condition_assets)
        (told
          (λ cache. record cache { condition_assets = cache_delete c cache.condition_assets })
          redis)
      ≡ none
forgotten now c none = refl
forgotten now c (some cache) = deleted now c cache.condition_assets

-- The listing is read from the rows where the cache has none.
read_rows :
    (now c : ℕ) (t : Session) {row : Condition}
    → condition_by_id c t.working ≡ some row
    → asked (λ cache. cache_get now c cache.condition_assets) t.redis ≡ none
    → (get_assets_for_condition now c t).0 ≡ ok (condition_rows c t.working)
unfolding get_assets_for_condition get_condition_assets ask_redis ◌>>=◌
read_rows now c t found cold = ap (λ r. r.0) passed ∙ cold_feed now c t
  where
    passed : get_assets_for_condition now c t ≡ condition_feed now c none t
    passed = rw (found, cold) refl

module _ (u c : ℕ) (uploads : List Upload) (s : Session) where
  finished :
      (files : List AssetFile) (next p : ℕ)
      → IsAdded c p files (record s { next_id = next })
      → Session
  finished files next p added = record s {
    committed = record s.working { assets = added.assets };
    working = record s.working { assets = added.assets };
    next_id = added.next;
    redis =
        told (λ cache. record cache { condition_assets = cache_delete c cache.condition_assets })
          s.redis;
  }

  listed :
      (row : Condition) (p : ℕ) (named : IsNamed uploads s)
      (added : IsAdded c p named.files (record s { next_id = named.next }))
      → condition_by_id c s.working ≡ some row
      → IsListed uploads c s (finished named.files named.next p added)
  unfolding finished
  listed row p named added found = record {
    read = λ now.
        read_rows now c (finished named.files named.next p added) found (forgotten now c s.redis);
    listed = rw found (
        added.listed ∙ ap (λ us. onto us (handed_in (rows_if true c s.working.assets))) named.same);
  }

  hand_in-Post : Post (λ xs t. IsListed uploads c s t) (hand_in u c uploads s)
  unfolding hand_in finished forget_condition tell_redis ◌>>=◌
  hand_in-Post = elim (Option-cases (condition_by_id c s.working)) [
    | inl unknown ↦ rw unknown tt
    | inr (row, found) ↦ elim (Option-cases (participant_for_user row.agreement_id u s.working)) [
      | inl stranger ↦ rw (found, stranger) tt
      | inr (p, member) ↦
          let named = add_files-IsNamed uploads s in
          let added = add_assets-IsAdded c p.id named.files (record s { next_id = named.next }) in
          elim (commit_splits (record s {
            working = record s.working { assets = added.assets };
            next_id = added.next;
          })) [
            | inr (e, failed) ↦ rw (found, member, named.done, added.done, failed) tt
            | inl (good, done) ↦
                rw (found, member, named.done, added.done, done) (listed row p.id named added found)
          ]
    ]
  ]

  hand_in_failed-Ensures : (e : Error) → Ensures (λ xs t. IsListed uploads c s t) (hand_in_failed e)
  unfolding hand_in_failed
  hand_in_failed-Ensures e =
      Ensures-if (is_expected e) (raise e) _ (Ensures-raise e)
        (Ensures-bind rollback _ (λ _. Ensures-raise asset_upload))

  add_asset_to_condition-Post :
      Post (λ xs t. IsListed uploads c s t) (add_asset_to_condition u c uploads s)
  unfolding add_asset_to_condition
  add_asset_to_condition-Post =
      Post-try_except (hand_in u c uploads) hand_in_failed s hand_in-Post hand_in_failed-Ensures

-- When files were handed in under a condition, the next listing of the condition is read from the
-- committed rows, at whatever time it comes, and holds the uploaded files in front of those that
-- the condition had before.
pub add_asset_to_condition-IsListed :
    (u c : ℕ) (uploads : List Upload) (xs : List Asset) (s t : Session)
    → add_asset_to_condition u c uploads s ≡ (ok xs, t)
    → IsListed uploads c s t
add_asset_to_condition-IsListed u c uploads xs s t done =
    subst (Post (λ ys r. IsListed uploads c s r)) done (add_asset_to_condition-Post u c uploads s)
