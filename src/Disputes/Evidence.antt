-- ===== src/Disputes/Evidence.antt =====
-- The user's side of app/service/dispute_service.py: a dispute with its evidence, for its two parties,
-- and further evidence. The two users and the agreement that a response repeats are left out.
use adehun_api.Prelude.{ℕ, Bool, not, ◌&&◌, ◌||◌, List, Option, find, select_all, ◌==◌}
use adehun_api.Enums.{is_open}
use adehun_api.Models.{Db, Dispute, Asset}
use adehun_api.Errors.{Error, dispute_not_found, dispute_not_open, dispute_creation}
use adehun_api.Session.{
  Action, pure, raise, query, or_raise, ◌>>=◌, ◌>>◌, raise_if, try_except, commit, rollback,
}
use adehun_api.Assets.{Upload, is_under}
use adehun_api.Disputes.{dispute_by_id, require_accepted, attach}

abbrev pub is_party : ℕ → Dispute → Bool
is_party u d = d.raised_by_user_id == u || d.against_user_id == u

-- `get_for_user`
abbrev pub dispute_for_user : ℕ → ℕ → Db → Option Dispute
dispute_for_user d u db = find (λ x. x.id == d && is_party u x) db.disputes

abbrev pub get_evidence : ℕ → Db → List Asset
get_evidence d db = select_all (λ x. is_under d x.dispute_id) db.assets

pub record DisputeResponse : Type 0 where
  pub dispute : Dispute
  pub evidence : List Asset

-- `_to_response`, with the evidence
unfoldable pub to_response : Dispute → Action DisputeResponse
to_response d = do
  files ← query (get_evidence d.id)
  pure (record { dispute = d; evidence = files })

unfoldable pub get_dispute : ℕ → ℕ → Action DisputeResponse
get_dispute d u = do
  found ← query (dispute_for_user d u)
  dispute ← or_raise dispute_not_found found
  to_response dispute

unfoldable pub admin_get_dispute : ℕ → Action DisputeResponse
admin_get_dispute d = do
  found ← query (dispute_by_id d)
  dispute ← or_raise dispute_not_found found
  to_response dispute

-- The call of the repository inside the `try` of `add_evidence`.
unfoldable pub attach_and_commit : ℕ → ℕ → List Upload → Action (List ℕ)
attach_and_commit d p files = do is ← attach d p files; commit; pure is

unfoldable pub evidence_failed : Error → Action (List ℕ)
evidence_failed e = do rollback; raise dispute_creation

-- The new rows' ids are returned.
unfoldable pub add_evidence : ℕ → ℕ → List Upload → Action (List ℕ)
add_evidence d u files = do
  found ← query (dispute_for_user d u)
  dispute ← or_raise dispute_not_found found
  raise_if (not (is_open dispute.status)) dispute_not_open
  participant ← require_accepted dispute.agreement_id u
  try_except (attach_and_commit dispute.id participant.id files) evidence_failed

-- `create_upload_signature`, up to the call that signs.
unfoldable pub create_upload_signature : ℕ → ℕ → Action (Unit {0})
create_upload_signature a u = do require_accepted a u; pure tt
