-- ===== src/Disputes/Filed.antt =====
-- What adding evidence to a dispute in app/service/dispute_service.py does to the listings of files.
use mathlib.Core.Path.{subst}
use adehun_api.Prelude.{
  ℕ, ◌≡◌, refl, some, List, length, Option-cases, Bool-cases, inl, inr, find_holds, ==_iff, ◌==◌,
  ◌&&◌, arith,
}
use adehun_api.Enums.{is_open}
use adehun_api.Models.{Dispute}
use adehun_api.Errors.{Error, dispute_creation}
use adehun_api.Session.{Session, ok, rollback, try_except, ◌>>=◌}
use adehun_api.Session.Commits.{commit_splits}
use adehun_api.Session.Ensures.{Post, Ensures, Ensures-bind, Ensures-raise, Post-try_except}
use adehun_api.Session.Refuses.{Reads, refuses_rules}
use adehun_api.Assets.{Upload}
use adehun_api.Assets.HandIn.{handed_in, onto}
use adehun_api.Assets.Feeds.{condition_rows, agreement_rows}
use adehun_api.Disputes.{require_accepted}
use adehun_api.Disputes.Attached.{attach-IsAttached}
use adehun_api.Disputes.Evidence.{
  is_party, dispute_for_user, get_evidence, attach_and_commit, evidence_failed, add_evidence,
}

-- The files are committed as evidence of the dispute, in front of the earlier ones, and no list of
-- what was handed in under a condition or an agreement has changed.
pub record IsFiled (d : ℕ) (files : List Upload) (s : Session) (is : List ℕ) (t : Session)
    : Type 0 where
  pub counted : length is ≡ length files
  pub listed :
      handed_in (get_evidence d t.committed) ≡ onto files (handed_in (get_evidence d s.working))
  pub conditions : (c : ℕ) → condition_rows c t.committed ≡ condition_rows c s.working
  pub agreements : (a : ℕ) → agreement_rows a t.committed ≡ agreement_rows a s.working

attached_and_committed :
    (d p : ℕ) (files : List Upload) (s : Session)
    → Post (IsFiled d files s) (attach_and_commit d p files s)
unfolding attach_and_commit ◌>>=◌
attached_and_committed d p files s =
    let h = attach-IsAttached d p files s in
    elim (commit_splits
      (record s { working = record s.working { assets = h.assets }; next_id = h.next })) [
        | inr (e, failed) ↦ rw (h.done, failed) tt
        | inl (good, done) ↦
            rw (h.done, done)
              (record {
                counted = h.counted;
                listed = h.listed;
                conditions = λ c. h.apart _ refl;
                agreements = λ a. h.apart _ refl;
              })
      ]

failed_files :
    (d : ℕ) (files : List Upload) (s : Session) (e : Error)
    → Ensures (IsFiled d files s) (evidence_failed e)
unfolding evidence_failed
failed_files d files s e = Ensures-bind rollback _ (λ _. Ensures-raise dispute_creation)

pub require_accepted-Reads : (a u : ℕ) → Reads (require_accepted a u)
unfolding require_accepted
require_accepted-Reads a u = search refuses_rules depth 12

module _ (d u : ℕ) (files : List Upload) (s : Session) where
  known_dispute :
      (x : Dispute) (p : ℕ)
      → dispute_for_user d u s.working ≡ some x
      → Post (IsFiled d files s) (try_except (attach_and_commit x.id p files) evidence_failed s)
  known_dispute x p found =
      Post-try_except (attach_and_commit x.id p files) evidence_failed s
        (rw same (attached_and_committed d p files s)) (failed_files d files s)
    where
      same : x.id ≡ d
      same =
          (==_iff x.id d).0
            (ground (arith, find_holds (λ y. y.id == d && is_party u y) s.working.disputes found))

  add_evidence-Post : Post (IsFiled d files s) (add_evidence d u files s)
  unfolding add_evidence ◌>>=◌
  add_evidence-Post = elim (Option-cases (dispute_for_user d u s.working)) [
    | inl unknown ↦ rw unknown tt
    | inr (x, found) ↦ elim (Bool-cases (is_open x.status)) [
      | inr closed ↦ rw (found, closed) tt
      | inl open_one ↦ elim ((require_accepted-Reads x.agreement_id u).at s) [
        | inr (e, refused) ↦ rw (found, open_one, refused) tt
        | inl (p, member) ↦ rw (found, open_one, member) (known_dispute x p.id found)
      ]
    ]
  ]

-- When evidence was added to a dispute, there is one new row for each file, the committed
-- evidence of the dispute holds the files in front of those that it had before, and no list of
-- the files handed in under a condition or an agreement has changed.
pub add_evidence-IsFiled :
    (d u : ℕ) (files : List Upload) (is : List ℕ) (s t : Session)
    → add_evidence d u files s ≡ (ok is, t)
    → IsFiled d files s is t
add_evidence-IsFiled d u files is s t done =
    subst (Post (IsFiled d files s)) done (add_evidence-Post d u files s)
