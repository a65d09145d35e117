-- ===== src/Notifications/Reading.antt =====
-- What app/service/notification_service.py counts as unread after notifications were read.
use adehun_api.Prelude.{
  ℕ, ◌+◌, ◌≡◌, refl, ap, Bool, true, false, List, [], ◌∷◌, select_all, length, update_where, ◌==◌,
  arith, inl, inr,
}
use adehun_api.Models.{Db, Notification}
use adehun_api.Session.{Session, ◌>>=◌}
use adehun_api.Session.Commits.{commit_splits}
use adehun_api.Session.Ensures.{Post}
use adehun_api.Notifications.{
  is_unread, get_unread_count, as_read, set_read, read_all, mark_as_read, mark_all_as_read,
}

module _ (u : ℕ) (p : Notification → Bool)
    (unread : (n : Notification) → p n ≡ true → is_unread u n ≡ true) where
  -- What was read is no longer unread, and the rest is as it was.
  read_counts :
      (ns : List Notification)
      → length (select_all p ns) + length (select_all (is_unread u) (update_where p as_read ns))
        ≡ length (select_all (is_unread u) ns)
  read_counts [] = refl
  read_counts (n ∷ ns) = ground (arith, read_counts ns, unread n)

  others_kept :
      (v : ℕ) (ns : List Notification)
      → (v == u) ≡ false
      → select_all (is_unread v) (update_where p as_read ns) ≡ select_all (is_unread v) ns
  others_kept v [] h = refl
  others_kept v (n ∷ ns) h = ground (arith, others_kept v ns h, unread n)

  others_unread :
      (v : ℕ) (ns : List Notification)
      → (v == u) ≡ false
      → length (select_all (is_unread v) (update_where p as_read ns))
        ≡ length (select_all (is_unread v) ns)
  others_unread v ns other = ap length (others_kept v ns other)

none_unread :
    (u : ℕ) (ns : List Notification)
    → length (select_all (is_unread u) (update_where (is_unread u) as_read ns)) ≡ 0
none_unread u [] = refl
none_unread u (n ∷ ns) = ground (arith, none_unread u ns)

-- The user has as many fewer unread notifications as were counted, and another as many as before.
pub record IsCounted (u v n : ℕ) (before after : Db) : Type 0 where
  pub own : n + get_unread_count u after ≡ get_unread_count u before
  pub other : get_unread_count v after ≡ get_unread_count v before

module _ (u v : ℕ) (s : Session) (other : (v == u) ≡ false) where
  read : (Notification → Bool) → Session
  read p = record s {
    working = record s.working { notifications = update_where p as_read s.working.notifications };
  }

  read_all-IsCounted :
      (p : Notification → Bool)
      → ((n : Notification) → p n ≡ true → is_unread u n ≡ true)
      → Post (λ n t. IsCounted u v n s.working t.working) (read_all p s)
  unfolding read_all set_read read ◌>>=◌
  read_all-IsCounted p unread = elim (commit_splits (read p)) [
    | inr (e, failed) ↦ rw failed tt
    | inl (good, done) ↦ rw done (record {
      own = read_counts u p unread s.working.notifications;
      other = others_unread u p unread v s.working.notifications other;
    })
  ]

  mark_as_read-IsCounted :
      (is : List ℕ) → Post (λ n t. IsCounted u v n s.working t.working) (mark_as_read is u s)
  unfolding mark_as_read ◌>>=◌
  mark_as_read-IsCounted [] = record { own = ground arith; other = refl }
  mark_as_read-IsCounted (i ∷ is) = read_all-IsCounted _ (λ n h. ground arith)

  mark_all_as_read_clears :
      Post
        (λ n t. (IsCounted u v n s.working t.committed) × (get_unread_count u t.committed ≡ 0))
        (mark_all_as_read u s)
  unfolding mark_all_as_read read_all set_read read ◌>>=◌
  mark_all_as_read_clears = elim (commit_splits (read (is_unread u))) [
    | inr (e, failed) ↦ rw failed tt
    | inl (good, done) ↦ rw done (
      record {
        own = read_counts u (is_unread u) (λ n h. h) s.working.notifications;
        other = others_unread u (is_unread u) (λ n h. h) v s.working.notifications other;
      },
      none_unread u s.working.notifications,
    )
  ]

  -- When marking listed notifications as read returns a number, the user has that many fewer
  -- unread ones, and another user has as many as before; when marking all of them returns, the
  -- user in addition has none left in the committed database.
  pub reading_counts :
      (is : List ℕ)
      → Post (λ n t. IsCounted u v n s.working t.working) (mark_as_read is u s)
        × Post
            (λ n t. (IsCounted u v n s.working t.committed) × (get_unread_count u t.committed ≡ 0))
            (mark_all_as_read u s)
  reading_counts is = (mark_as_read-IsCounted is, mark_all_as_read_clears)
