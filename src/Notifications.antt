-- ===== src/Notifications.antt =====
-- app/service/notification_service.py over app/repository/notification_repository.py: the notifications of
-- a user, newest first, and which of them are read. Left out: kinds and texts.
pub mod Reading
pub mod Stable
use adehun_api.Prelude.{
  ℕ, Bool, true, false, not, ◌&&◌, List, [], ◌∷◌, any, select_all, length, page, update_where, ◌==◌,
}
use adehun_api.Models.{Db, Notification}
use adehun_api.Session.{Action, pure, query, ◌>>=◌, ◌>>◌, modify, uuid4, commit}

unfoldable pub add_notification : Notification → Db → Db
add_notification n db = record db { notifications = n ∷ db.notifications }

-- `create` and `create_notification`
unfoldable pub create_notification : ℕ → Action ℕ
create_notification u = do
  i ← uuid4
  modify (add_notification (record { id = i; user_id = u; is_read = false }))
  commit
  pure i

abbrev pub is_of : ℕ → Notification → Bool
is_of u n = n.user_id == u

abbrev pub is_unread : ℕ → Notification → Bool
is_unread u n = n.user_id == u && not n.is_read

abbrev pub get_total_count : ℕ → Db → ℕ
get_total_count u db = length (select_all (is_of u) db.notifications)

abbrev pub get_unread_count : ℕ → Db → ℕ
get_unread_count u db = length (select_all (is_unread u) db.notifications)

pub record NotificationList : Type 0 where
  pub notifications : List Notification
  pub unread_count : ℕ
  pub total : ℕ

unfoldable pub get_user_notifications : ℕ → ℕ → ℕ → Action NotificationList
get_user_notifications u skip limit = do
  ns ← query (λ db. page skip limit (select_all (is_of u) db.notifications))
  unread_count ← query (get_unread_count u)
  total ← query (get_total_count u)
  pure (record { notifications = ns; unread_count = unread_count; total = total })

abbrev pub as_read : Notification → Notification
as_read n = record n { is_read = true }

-- The loop that sets `is_read` on the rows that were selected.
unfoldable pub set_read : (Notification → Bool) → Db → Db
set_read p db = record db { notifications = update_where p as_read db.notifications }

-- The selected rows are set and committed; their number is returned.
unfoldable pub read_all : (Notification → Bool) → Action ℕ
read_all p = do
  ns ← query (λ db. select_all p db.notifications)
  modify (set_read p)
  commit
  pure (length ns)

abbrev pub is_listed : List ℕ → Notification → Bool
is_listed is n = any (λ i. n.id == i) is

unfoldable pub mark_as_read : List ℕ → ℕ → Action ℕ
mark_as_read [] u = pure 0
mark_as_read (i ∷ is) u = read_all (λ n. is_unread u n && is_listed (i ∷ is) n)

unfoldable pub mark_all_as_read : ℕ → Action ℕ
mark_all_as_read u = read_all (is_unread u)
