-- ===== src/LifeCycle/Sessions.antt =====
-- The life cycle over a session, through the single steps of the services.
use adehun_api.Prelude.{
  ℕ, ◌+◌, ◌≡◌, refl, some, all-update, ◌==◌, inl, inr, Bool-cases, any, sym, ◌∙◌,
}
use adehun_api.Enums.{AgreementStatus}
use adehun_api.Reference.{Reference, IsPlain}
use adehun_api.Models.{Db, Agreement, Wallet, Dispute}
use adehun_api.Session.{
  Session, ◌>>=◌, modify, commit, commit_cases, rollback, tell_redis, wait_for_lock,
}
use adehun_api.Session.Keeps.{Keeps}
use adehun_api.WalletRepository.{
  EntryRequest, create_wallet, insert_wallet, new_entry, apply_ledger_entry, add_paystack,
  write_paystack,
}
use adehun_api.WalletRepository.Outcome.{apply_ledger_entry_cases}
use adehun_api.WalletRepository.Stable.{Stable}
use adehun_api.AgreementService.{
  agreement_by_id, set_participant, add_participant, set_invitation, point_conditions,
}
use adehun_api.AgreementService.Creation.{add_invitation}
use adehun_api.Conditions.{write_condition, add_row}
use adehun_api.Assets.{add_asset, write_asset}
use adehun_api.Notifications.{add_notification, set_read}
use adehun_api.Disputes.{write_dispute, under_review}
use adehun_api.BankAccounts.{write_accounts}
use adehun_api.BankAccounts.Stable.{StableAccounts}
use adehun_api.AuthService.{write_users, write_tokens}
use adehun_api.AuthService.Stable.{StableUsers}
use adehun_api.WebhookEvents.{add_event, update_event}
use adehun_api.Models.{WebhookEvent}
use adehun_api.Escrow.Stable.{StableRows}
use adehun_api.LifeCycle.Orderly.{
  Follows, IsOrderly, IsOrderly-later, was_active, same-IsOrderly, set_status-is_paid,
  write_entry-IsOrderly, IsPlain-not_release, IsPlain-not_refund,
}

-- What is committed and what the open transaction sees have followed the life cycle since `start`,
-- and what other transactions commit at a wait follows it too.
pub record InOrder (start : Db) (s : Session) : Type 0 where
  pub committed : IsOrderly start s.next_id s.committed
  pub working : IsOrderly start s.next_id s.working
  pub concurrent : (n : ℕ) (db : Db) → IsOrderly start n db → IsOrderly start n (s.concurrent db)
  pub onwards : (db : Db) → Follows db (s.concurrent db)

module _ (start : Db) where
  abbrev P : Session → Type 0
  P = InOrder start

  pub InOrder-working :
      (s : Session) (db : Db) → P s → IsOrderly start s.next_id db → P (record s { working = db })
  InOrder-working s db p h = record {
    committed = p.committed;
    working = h;
    concurrent = p.concurrent;
    onwards = p.onwards;
  }

  pub modify-InOrder :
      (f : Db → Db)
      → ((n : ℕ) (db : Db) → IsOrderly start n db → IsOrderly start n (f db))
      → Keeps P (modify f)
  unfolding ◌>>=◌
  modify-InOrder f kept = record {
    at = λ s p. InOrder-working s (f s.working) p (kept s.next_id s.working p.working);
  }

  -- The writes of tables that the life cycle does not read.
  same :
      (n : ℕ) (db db' : Db)
      → db'.agreements ≡ db.agreements
      → db'.disputes ≡ db.disputes
      → db'.entries ≡ db.entries
      → IsOrderly start n db
      → IsOrderly start n db'
  same n db db' agreements disputes entries h =
      same-IsOrderly start n db db' h agreements (rw disputes h.resumes) (λ r. rw entries refl)

  pub commit-InOrder : Keeps P commit
  commit-InOrder = record {
    at = λ s p. elim (commit_cases s) [
      | inr (e, failed) ↦ rw failed p
      | inl (done, good) ↦ rw done (record {
        committed = p.working;
        working = p.working;
        concurrent = p.concurrent;
        onwards = p.onwards;
      })
    ];
  }

  pub wait-InOrder : Keeps P wait_for_lock
  unfolding wait_for_lock
  wait-InOrder = record {
    at = λ s p. record {
      committed = p.concurrent s.next_id s.committed p.committed;
      working = p.concurrent s.next_id s.working p.working;
      concurrent = p.concurrent;
      onwards = p.onwards;
    };
  }

  insert_wallet-kept :
      (i u n : ℕ) (db : Db) → IsOrderly start n db → IsOrderly start n (insert_wallet i u db)
  insert_wallet-kept i u n db h = elim (Bool-cases (any (λ w. w.user_id == u) db.wallets)) [
    | inl known ↦ rw known h
    | inr new ↦ rw new (same n db _ refl refl refl h)
  ]

  -- The session after an id was given out.
  abbrev pub counted : Session → Session
  counted s = record s { next_id = s.next_id + 1 }

  pub counted-InOrder : (s : Session) → P s → P (counted s)
  counted-InOrder s p = record {
    committed = IsOrderly-later p.committed;
    working = IsOrderly-later p.working;
    concurrent = p.concurrent;
    onwards = p.onwards;
  }

  pub create_wallet-InOrder : (u : ℕ) → Keeps P (create_wallet u)
  unfolding create_wallet ◌>>=◌
  create_wallet-InOrder u = record {
    at = λ s p.
        let q = counted-InOrder s p in
        InOrder-working (counted s) _ q
          (insert_wallet-kept s.next_id u (s.next_id + 1) s.working q.working);
  }

  new_entry-reference : (w : Wallet) (r : EntryRequest) → (new_entry w r).reference ≡ r.reference
  unfolding new_entry
  new_entry-reference w r = refl

  -- An entry whose reference is that of a payout needs the agreement in the payout's status.
  pub entry-InOrder :
      (i : ℕ) (r : EntryRequest) (s : Session)
      → P s
      → ((a : ℕ)
          → r.reference ≡ Reference.esc_rel_out a
          → (x : Agreement) × (agreement_by_id a s.working ≡ some x)
            × (x.status ≡ AgreementStatus.completed))
      → ((a : ℕ)
          → r.reference ≡ Reference.esc_ref a
          → (x : Agreement) × (agreement_by_id a s.working ≡ some x)
            × (x.status ≡ AgreementStatus.refunded))
      → P (apply_ledger_entry i r s).1
  entry-InOrder i r s p releases refunds = elim (apply_ledger_entry_cases i r s) [
    | inr (e, failed) ↦ rw failed p
    | inl (w, _, _, done) ↦ rw done (
        InOrder-working s _ p (
          write_entry-IsOrderly start s.next_id (new_entry w r) s.working p.working
            (λ a e. releases a (sym (new_entry-reference w r) ∙ e))
            (λ a e. refunds a (sym (new_entry-reference w r) ∙ e))))
  ]

  plain_entry-InOrder :
      (i : ℕ) (r : EntryRequest) → IsPlain r.reference → Keeps P (apply_ledger_entry i r)
  plain_entry-InOrder i r plain = record {
    at = λ s p.
        entry-InOrder i r s p (λ a e. absurd (IsPlain-not_release r.reference a plain e))
          (λ a e. absurd (IsPlain-not_refund r.reference a plain e));
  }

  pub InOrder-stable : Stable P
  unfolding ◌>>=◌ rollback add_paystack write_paystack
  InOrder-stable = record {
    at_commit = commit-InOrder;
    at_rollback = record { at = λ s p. InOrder-working s s.committed p p.committed };
    at_wait = wait-InOrder;
    at_uuid4 = record { at = counted-InOrder };
    at_create_wallet = create_wallet-InOrder;
    at_ledger_entry = λ i r plain filed. plain_entry-InOrder i r plain;
    at_set_status = λ r t b. modify-InOrder _ (λ n db h.
        same-IsOrderly start n db _ h refl h.resumes (λ q. set_status-is_paid r t b q db));
    at_add_paystack = λ q. modify-InOrder _ (λ n db h. same n db _ refl refl refl h);
    at_write_paystack = λ q. modify-InOrder _ (λ n db h. same n db _ refl refl refl h);
  }

  -- A review changes no dispute's earlier status.
  pub write_dispute-kept :
      (d : ℕ) (f : Dispute → Dispute) (n : ℕ) (db : Db)
      → ((x : Dispute) → was_active (f x) ≡ was_active x)
      → IsOrderly start n db
      → IsOrderly start n (write_dispute d f db)
  unfolding write_dispute
  write_dispute-kept d f n db alike h =
      same-IsOrderly start n db _ h refl
        (all-update was_active (λ x. x.id == d) f db.disputes alike ∙ h.resumes) (λ r. refl)

  pub InOrder-rows : StableRows P
  unfolding add_invitation set_participant add_participant set_invitation point_conditions
      write_condition add_row add_asset write_asset tell_redis add_notification set_read
  InOrder-rows = record {
    at_participant = λ a u t. modify-InOrder _ (λ n db h. same n db _ refl refl refl h);
    at_add_participant = λ q. modify-InOrder _ (λ n db h. same n db _ refl refl refl h);
    at_invitation = λ i t. modify-InOrder _ (λ n db h. same n db _ refl refl refl h);
    at_conditions = λ a i q. modify-InOrder _ (λ n db h. same n db _ refl refl refl h);
    at_condition = λ c f. modify-InOrder _ (λ n db h. same n db _ refl refl refl h);
    at_add_condition = λ c. modify-InOrder _ (λ n db h. same n db _ refl refl refl h);
    at_add_invitation = λ i. modify-InOrder _ (λ n db h. same n db _ refl refl refl h);
    at_review =
        λ d. modify-InOrder _ (λ n db h. write_dispute-kept d under_review n db (λ x. refl) h);
    at_add_asset = λ x. modify-InOrder _ (λ n db h. same n db _ refl refl refl h);
    at_asset = λ i f. modify-InOrder _ (λ n db h. same n db _ refl refl refl h);
    at_add_notification = λ x. modify-InOrder _ (λ n db h. same n db _ refl refl refl h);
    at_read = λ q. modify-InOrder _ (λ n db h. same n db _ refl refl refl h);
    at_redis = λ f. record {
      at = λ s h. record {
        committed = h.committed;
        working = h.working;
        concurrent = h.concurrent;
        onwards = h.onwards;
      };
    };
  }

  pub InOrder-adds : (k : ℕ) → Keeps P (modify (add_event k))
  unfolding add_event
  InOrder-adds k = modify-InOrder _ (λ n db h. same n db _ refl refl refl h)

  pub InOrder-updates :
      (k : ℕ) (f : WebhookEvent → WebhookEvent) → Keeps P (modify (update_event k f))
  unfolding update_event
  InOrder-updates k f = modify-InOrder _ (λ n db h. same n db _ refl refl refl h)

  pub InOrder-accounts : StableAccounts P
  unfolding write_accounts
  InOrder-accounts = record {
    at_accounts = λ f. modify-InOrder _ (λ n db h. same n db _ refl refl refl h);
  }

  pub InOrder-users : StableUsers P
  unfolding write_users write_tokens
  InOrder-users = record {
    at_users = λ f. modify-InOrder _ (λ n db h. same n db _ refl refl refl h);
    at_tokens = λ f. modify-InOrder _ (λ n db h. same n db _ refl refl refl h);
  }
