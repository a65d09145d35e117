-- ===== src/Notifications/Stable.antt =====
-- Invariants of a session over app/service/notification_service.py.
use adehun_api.Prelude.{ℕ, Bool, List, [], ◌∷◌}
use adehun_api.Models.{Notification}
use adehun_api.Session.{Session, commit, uuid4}
use adehun_api.Session.Keeps.{Keeps, keeps_rules}
use adehun_api.WalletRepository.Stable.{Stable}
use adehun_api.Escrow.Stable.{StableRows}
use adehun_api.Notifications.{read_all, mark_as_read, mark_all_as_read, create_notification}

module _ {P : Session → Type 0} (stable : Stable P) (rows : StableRows P) where
  open rows use {at_read, at_add_notification}

  commits : Keeps P commit
  commits = stable.at_commit

  uuids : Keeps P uuid4
  uuids = stable.at_uuid4

  pub create_notification-keeps : (u : ℕ) → Keeps P (create_notification u)
  unfolding create_notification
  create_notification-keeps u = search (keeps_rules, uuids, at_add_notification, commits) depth 12

  read_all-keeps : (p : Notification → Bool) → Keeps P (read_all p)
  unfolding read_all
  read_all-keeps p = search (keeps_rules, at_read, commits) depth 10

  pub mark_as_read-keeps : (is : List ℕ) (u : ℕ) → Keeps P (mark_as_read is u)
  unfolding mark_as_read
  mark_as_read-keeps [] u = search keeps_rules
  mark_as_read-keeps (i ∷ is) u = read_all-keeps _

  pub mark_all_as_read-keeps : (u : ℕ) → Keeps P (mark_all_as_read u)
  unfolding mark_all_as_read
  mark_all_as_read-keeps u = read_all-keeps _
