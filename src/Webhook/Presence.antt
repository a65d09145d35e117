-- ===== src/Webhook/Presence.antt =====
-- The row of an event in the table of app/repository/webhook_event_repository.py, while the
-- event is handled.
use adehun_api.Prelude.{
  ℕ, ◌≡◌, some, arith, ◌==◌, any, List, [], ◌∷◌, find, update_where, Bool-cases, inl, inr,
}
use adehun_api.Enums.{WebhookEventStatus}
use adehun_api.Models.{Db, WebhookEvent}
use adehun_api.Session.{Session, ◌>>=◌, modify, commit, commit_cases, rollback, wait_for_lock}
use adehun_api.Session.Keeps.{Keeps}
use adehun_api.WalletRepository.{
  EntryRequest, create_wallet, insert_wallet, apply_ledger_entry, write_entry, add_paystack,
  write_paystack,
}
use adehun_api.WalletRepository.Stable.{Stable}
use adehun_api.WalletRepository.Outcome.{apply_ledger_entry_cases}
use adehun_api.WebhookEvents.{event_by_key, add_event, update_event}

abbrev pub HasEvent : ℕ → Db → Type 0
HasEvent k db = (e : WebhookEvent) × (event_by_key k db ≡ some e)

-- The event is committed and visible, and other transactions delete no event.
pub record IsPresent (k : ℕ) (s : Session) : Type 0 where
  pub committed : HasEvent k s.committed
  pub working : HasEvent k s.working
  pub concurrent : (db : Db) → HasEvent k db → HasEvent k (s.concurrent db)

find-update_some :
    (k j : ℕ) (f : WebhookEvent → WebhookEvent) (es : List WebhookEvent) {e : WebhookEvent}
    → ((x : WebhookEvent) → (f x).dedupe_key ≡ x.dedupe_key)
    → find (λ x. x.dedupe_key == k) es ≡ some e
    → (y : WebhookEvent) × (find
          (λ x. x.dedupe_key == k)
          (update_where (λ x. x.dedupe_key == j) f es)
        ≡ some y)
find-update_some k j f [] same h = ground arith
find-update_some k j f (x ∷ es) {e} same h = elim (Bool-cases (x.dedupe_key == k)) [
  | inl here ↦ elim (Bool-cases (x.dedupe_key == j)) [
    | inl hit ↦ (f x, rw (hit, same x, here))
    | inr kept ↦ (x, rw (kept, here))
  ]
  | inr later ↦
      let (y, found) = find-update_some k j f es {e = e} same (ground arith) in
      elim (Bool-cases (x.dedupe_key == j)) [
        | inl hit ↦ (y, rw (hit, same x, later) found)
        | inr kept ↦ (y, rw (kept, later) found)
      ]
]

module _ (k : ℕ) where
  modify-IsPresent :
      (f : Db → Db)
      → ((db : Db) → HasEvent k db → HasEvent k (f db))
      → Keeps (IsPresent k) (modify f)
  unfolding ◌>>=◌
  modify-IsPresent f keep = record {
    at = λ s h. record {
      committed = h.committed;
      working = keep s.working h.working;
      concurrent = h.concurrent;
    };
  }

  commit-IsPresent : Keeps (IsPresent k) commit
  commit-IsPresent = record {
    at = λ s h. elim (commit_cases s) [
      | inr (e, failed) ↦ rw failed h
      | inl (done, good) ↦
          rw done (record { committed = h.working; working = h.working; concurrent = h.concurrent })
    ];
  }

  insert_wallet-HasEvent : (i u : ℕ) (db : Db) → HasEvent k db → HasEvent k (insert_wallet i u db)
  unfolding insert_wallet
  insert_wallet-HasEvent i u db h = elim (Bool-cases (any (λ w. w.user_id == u) db.wallets)) [
    | inl there ↦ rw there h
    | inr new ↦ rw new h
  ]

  create_wallet-IsPresent : (u : ℕ) → Keeps (IsPresent k) (create_wallet u)
  unfolding create_wallet ◌>>=◌
  create_wallet-IsPresent u = record {
    at = λ s h. record {
      committed = h.committed;
      working = insert_wallet-HasEvent s.next_id u s.working h.working;
      concurrent = h.concurrent;
    };
  }

  ledger_entry-IsPresent : (i : ℕ) (r : EntryRequest) → Keeps (IsPresent k) (apply_ledger_entry i r)
  unfolding write_entry
  ledger_entry-IsPresent i r = record {
    at = λ s h. elim (apply_ledger_entry_cases i r s) [
      | inr (e, failed) ↦ rw failed h
      | inl (w, _, _, done) ↦
          rw done
            (record { committed = h.committed; working = h.working; concurrent = h.concurrent })
    ];
  }

  pub IsPresent-stable : Stable (IsPresent k)
  unfolding ◌>>=◌ rollback wait_for_lock add_paystack write_paystack
  IsPresent-stable = record {
    at_commit = commit-IsPresent;
    at_rollback = record {
      at = λ s h. record {
        committed = h.committed;
        working = h.committed;
        concurrent = h.concurrent;
      };
    };
    at_wait = record {
      at = λ s h. record {
        committed = h.concurrent s.committed h.committed;
        working = h.concurrent s.working h.working;
        concurrent = h.concurrent;
      };
    };
    at_uuid4 = record {
      at =
          λ s h. record { committed = h.committed; working = h.working; concurrent = h.concurrent };
    };
    at_create_wallet = create_wallet-IsPresent;
    at_ledger_entry = λ i r plain filed. ledger_entry-IsPresent i r;
    at_set_status = λ r t b. modify-IsPresent _ (λ db h. h);
    at_add_paystack = λ p. modify-IsPresent _ (λ db h. h);
    at_write_paystack = λ p. modify-IsPresent _ (λ db h. h);
  }

  pub add_event-IsPresent : (j : ℕ) → Keeps (IsPresent k) (modify (add_event j))
  unfolding add_event
  add_event-IsPresent j = modify-IsPresent _ (λ db (e, found). elim (Bool-cases (j == k)) [
    | inl here ↦
        (record { dedupe_key = j; status = WebhookEventStatus.received; attempts = 1 }, rw here)
    | inr other ↦ (e, rw other found)
  ])

  pub update_event-IsPresent :
      (j : ℕ) (f : WebhookEvent → WebhookEvent)
      → ((e : WebhookEvent) → (f e).dedupe_key ≡ e.dedupe_key)
      → Keeps (IsPresent k) (modify (update_event j f))
  unfolding update_event
  update_event-IsPresent j f same =
      modify-IsPresent _ (λ db (e, found). find-update_some k j f db.webhook_events same found)
