-- ===== src/Requests/Tidy.antt =====
-- The references of the escrow rows on the ledger, over sequences of requests.
use adehun_api.Prelude.{
  ℕ, ◌≡◌, refl, sym, Bool, any, Option, none, some, List, [], ◌∷◌, update_where, ◌==◌, Bool-cases,
  inl, inr,
}
use mathlib.Core.Path.{subst}
use adehun_api.Enums.{LedgerEntryStatus, AgreementStatus, same_status}
use adehun_api.Reference.{IsFiled}
use adehun_api.Models.{Db, Wallet, Transaction, Agreement}
use adehun_api.Session.{Session, ◌>>=◌, modify, commit_cases, rollback, wait_for_lock, tell_redis}
use adehun_api.Session.Keeps.{Keeps}
use adehun_api.WalletRepository.{
  EntryRequest, create_wallet, insert_wallet, apply_ledger_entry, new_entry, write_entry,
  with_status, add_paystack, write_paystack,
}
use adehun_api.WalletRepository.Outcome.{apply_ledger_entry_cases}
use adehun_api.WalletRepository.Stable.{Stable, StablePayouts}
use adehun_api.WalletService.{Settings, Provider}
use adehun_api.WebhookEvents.{add_event, update_event}
use adehun_api.AgreementService.{
  set_agreement_status, set_participant, add_participant, set_invitation, point_conditions,
}
use adehun_api.AgreementService.Creation.{add_agreement, add_invitation}
use adehun_api.Conditions.{write_condition, add_row}
use adehun_api.Assets.{add_asset, write_asset}
use adehun_api.Notifications.{add_notification, set_read}
use adehun_api.Disputes.{add_dispute, write_dispute, unfreeze}
use adehun_api.Escrow.Stable.{StableRows}
use adehun_api.Escrow.Statuses.{StableStatuses, routes_of_rows}
use adehun_api.BankAccounts.{Banks, write_accounts}
use adehun_api.BankAccounts.Stable.{StableAccounts}
use adehun_api.AuthService.{write_users, write_tokens}
use adehun_api.AuthService.Stable.{StableUsers}
use adehun_api.Requests.Stable.{serve_all-keeps}
use adehun_api.Requests.{Request, serve_all}

-- Each row of the escrow has its agreement's reference for its type.
abbrev pub AreFiled : List Transaction → Type 0
AreFiled [] = Unit {0}
AreFiled (e ∷ es) = IsFiled e.type e.agreement_id e.reference × AreFiled es

-- The rows of the ledger, committed or not, are filed, and other transactions keep it so.
pub record IsTidy (s : Session) : Type 0 where
  pub committed : AreFiled s.committed.entries
  pub working : AreFiled s.working.entries
  pub concurrent : (db : Db) → AreFiled db.entries → AreFiled (s.concurrent db).entries

marked-AreFiled :
    (q : Transaction → Bool) (t : LedgerEntryStatus) (b : Bool) (es : List Transaction)
    → AreFiled es
    → AreFiled (update_where q (with_status t b) es)
unfolding with_status
marked-AreFiled q t b [] filed = tt
marked-AreFiled q t b (e ∷ es) (filed, rest) = elim (Bool-cases (q e)) [
  | inl here ↦ rw here (filed, marked-AreFiled q t b es rest)
  | inr other ↦ rw other (filed, marked-AreFiled q t b es rest)
]

modify-IsTidy :
    (f : Db → Db)
    → ((db : Db) → AreFiled db.entries → AreFiled (f db).entries)
    → Keeps IsTidy (modify f)
unfolding ◌>>=◌
modify-IsTidy f keep = record {
  at = λ s h. record {
    committed = h.committed;
    working = keep s.working h.working;
    concurrent = h.concurrent;
  };
}

written-AreFiled :
    (w : Wallet) (r : EntryRequest) (db : Db)
    → IsFiled r.entry_type r.agreement_id r.reference
    → AreFiled db.entries
    → AreFiled (write_entry (new_entry w r) db).entries
unfolding new_entry write_entry
written-AreFiled w r db filed rest = (filed, rest)

ledger_entry-IsTidy :
    (i : ℕ) (r : EntryRequest)
    → IsFiled r.entry_type r.agreement_id r.reference
    → Keeps IsTidy (apply_ledger_entry i r)
ledger_entry-IsTidy i r filed = record {
  at = λ s h. elim (apply_ledger_entry_cases i r s) [
    | inr (e, failed) ↦ rw failed h
    | inl (w, _, _, done) ↦ rw done (record {
      committed = h.committed;
      working = written-AreFiled w r s.working filed h.working;
      concurrent = h.concurrent;
    })
  ];
}

created_entries : (i u : ℕ) (db : Db) → (insert_wallet i u db).entries ≡ db.entries
created_entries i u db = elim (Bool-cases (any (λ w. w.user_id == u) db.wallets)) [
  | inl there ↦ rw there refl
  | inr new ↦ rw new refl
]

unfreeze-AreFiled :
    (a : ℕ) (t : AgreementStatus) (o : Option Agreement) (db : Db)
    → AreFiled db.entries
    → AreFiled (unfreeze a t o db).entries
unfolding unfreeze set_agreement_status
unfreeze-AreFiled a t none db h = h
unfreeze-AreFiled a t (some x) db h =
    elim (Bool-cases (same_status x.status AgreementStatus.disputed)) [
      | inl frozen ↦ rw frozen h
      | inr other ↦ rw other h
    ]

stable : Stable IsTidy
unfolding create_wallet ◌>>=◌ rollback wait_for_lock add_paystack write_paystack
stable = record {
  at_commit = record {
    at = λ s h. elim (commit_cases s) [
      | inr (e, failed) ↦ rw failed h
      | inl (done, good) ↦
          rw done (record { committed = h.working; working = h.working; concurrent = h.concurrent })
    ];
  };
  at_rollback = record {
    at =
        λ s h. record { committed = h.committed; working = h.committed; concurrent = h.concurrent };
  };
  at_wait = record {
    at = λ s h. record {
      committed = h.concurrent s.committed h.committed;
      working = h.concurrent s.working h.working;
      concurrent = h.concurrent;
    };
  };
  at_uuid4 = record {
    at = λ s h. record { committed = h.committed; working = h.working; concurrent = h.concurrent };
  };
  at_create_wallet = λ u. record {
    at = λ s h. record {
      committed = h.committed;
      working = subst AreFiled (sym (created_entries s.next_id u s.working)) h.working;
      concurrent = h.concurrent;
    };
  };
  at_ledger_entry = λ i r plain filed. ledger_entry-IsTidy i r filed;
  at_set_status = λ r t b. modify-IsTidy _ (λ db h. marked-AreFiled _ t b db.entries h);
  at_add_paystack = λ p. modify-IsTidy _ (λ db h. h);
  at_write_paystack = λ p. modify-IsTidy _ (λ db h. h);
}

payouts : StablePayouts IsTidy
payouts = record { at_entry = ledger_entry-IsTidy }

rows : StableRows IsTidy
unfolding add_invitation set_participant add_participant set_invitation point_conditions
    write_condition add_row write_dispute add_asset write_asset tell_redis add_notification set_read
rows = record {
  at_participant = λ a u t. modify-IsTidy _ (λ db h. h);
  at_add_participant = λ p. modify-IsTidy _ (λ db h. h);
  at_invitation = λ i t. modify-IsTidy _ (λ db h. h);
  at_conditions = λ a i p. modify-IsTidy _ (λ db h. h);
  at_condition = λ c f. modify-IsTidy _ (λ db h. h);
  at_add_condition = λ c. modify-IsTidy _ (λ db h. h);
  at_add_invitation = λ i. modify-IsTidy _ (λ db h. h);
  at_review = λ d. modify-IsTidy _ (λ db h. h);
  at_add_asset = λ x. modify-IsTidy _ (λ db h. h);
  at_asset = λ i f. modify-IsTidy _ (λ db h. h);
  at_add_notification = λ x. modify-IsTidy _ (λ db h. h);
  at_read = λ p. modify-IsTidy _ (λ db h. h);
  at_redis = λ f. record {
    at = λ s h. record { committed = h.committed; working = h.working; concurrent = h.concurrent };
  };
}

statuses : StableStatuses IsTidy
unfolding add_agreement set_agreement_status add_dispute write_dispute
statuses = record {
  at_status = λ a t. modify-IsTidy _ (λ db h. h);
  at_add_agreement = λ x. modify-IsTidy _ (λ db h. h);
  at_add_dispute = λ d. modify-IsTidy _ (λ db h. h);
  at_dispute = λ d f. modify-IsTidy _ (λ db h. h);
  at_unfreeze = λ a t o. modify-IsTidy _ (unfreeze-AreFiled a t o);
}

accounts : StableAccounts IsTidy
unfolding write_accounts
accounts = record { at_accounts = λ f. modify-IsTidy _ (λ db h. h) }

users : StableUsers IsTidy
unfolding write_users write_tokens
users = record {
  at_users = λ f. modify-IsTidy _ (λ db h. h);
  at_tokens = λ f. modify-IsTidy _ (λ db h. h);
}

module _ (settings : Settings) (provider : Provider) (banks : Banks) (owner : ℕ → Option ℕ) where
  pub serve_all-IsTidy :
      (rs : List Request) (s : Session)
      → IsTidy s
      → IsTidy (serve_all settings provider banks owner rs s)
  unfolding add_event update_event
  serve_all-IsTidy =
      serve_all-keeps stable rows (routes_of_rows stable payouts rows statuses) accounts users
        (λ k. modify-IsTidy _ (λ db h. h)) (λ k f same. modify-IsTidy _ (λ db h. h)) settings
        provider banks owner
