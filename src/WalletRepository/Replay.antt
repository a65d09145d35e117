-- ===== src/WalletRepository/Replay.antt =====
-- Repeating `apply_entry` of app/repository/wallet_repository.py under one reference.
use adehun_api.Prelude.{ℕ, ◌≡◌, true, none, some, Option-cases, inl, inr}
use mathlib.Core.Path.{subst}
use adehun_api.Reference.{Reference, same_refl}
use adehun_api.Models.{Wallet, Transaction}
use adehun_api.Errors.{Error}
use adehun_api.Session.{Session, ok, query, ◌>>=◌, commit_cases, rollback}
use adehun_api.Session.Ensures.{Post, Ensures, Ensures-bind, Ensures-try_except, Ensures-raise}
use adehun_api.WalletRepository.{
  EntryRequest, LedgerResult, wallet_by_id, entry_by_reference, new_entry, write_entry, replay,
  replay_or_raise, entry_failed, write_locked, write_and_commit, apply_unless, apply_entry,
}
use adehun_api.WalletRepository.Outcome.{apply_ledger_entry_cases, write_in}

-- The ledger holds the entry under its reference, and the wallet is the row of the entry.
abbrev pub IsRecorded : Reference → LedgerResult → Session → Type 0
IsRecorded r x s =
    (entry_by_reference r s.working ≡ some x.entry)
    × (wallet_by_id x.entry.wallet_id s.working ≡ some x.wallet)

module _ (r : Reference) where
  replay_records :
      (e : Transaction) (s : Session)
      → entry_by_reference r s.working ≡ some e
      → Post (IsRecorded r) (replay e s)
  unfolding replay ◌>>=◌
  replay_records e s found = elim (Option-cases (wallet_by_id e.wallet_id s.working)) [
    | inl missing ↦ rw missing tt
    | inr (w, there) ↦ rw there (found, there)
  ]

  replay_found :
      (x : Error) (s : Session)
      → Post (IsRecorded r) ((query (entry_by_reference r) >>= replay_or_raise x) s)
  unfolding ◌>>=◌
  replay_found x s = elim (Option-cases (entry_by_reference r s.working)) [
    | inl missing ↦ rw missing tt
    | inr (e, there) ↦ rw there (replay_records e s there)
  ]

  entry_failed_records : (e : Error) → Ensures (IsRecorded r) (entry_failed r e)
  unfolding entry_failed
  entry_failed_records Error.integrity_error =
      Ensures-bind rollback _ (λ _. record { at = replay_found Error.integrity_error })
  entry_failed_records _ = Ensures-bind rollback _ (λ _. Ensures-raise _)

-- The entry that is written is found under its reference.
written_found :
    (w : Wallet) (r : EntryRequest) (s : Session)
    → entry_by_reference r.reference (write_entry (new_entry w r) s.working) ≡ some (new_entry w r)
unfolding write_entry new_entry
written_found w r s = rw (same_refl r.reference)

write_locked_records :
    (i : ℕ) (r : EntryRequest) → Ensures (IsRecorded r.reference) (write_locked i r)
unfolding write_locked ◌>>=◌
write_locked_records i r = record {
  at = λ s. elim (apply_ledger_entry_cases i r s) [
    | inr (e, failed) ↦ rw failed tt
    | inl (w, _, _, done) ↦ elim (commit_cases (write_in (new_entry w r) s)) [
      | inr (e, failed) ↦ rw (done, failed) tt
      | inl (saved, _) ↦
          elim (Option-cases
            (wallet_by_id (new_entry w r).wallet_id (write_entry (new_entry w r) s.working))) [
              | inl missing ↦ rw (done, saved, missing) tt
              | inr (row, there) ↦ rw (done, saved, there) (written_found w r s, there)
            ]
    ]
  ];
}

apply_unless_records : (r : EntryRequest) → Ensures (IsRecorded r.reference) (apply_unless r none)
apply_unless_records r = Ensures-bind _ _ (λ i.
    Ensures-try_except _ _
      (unfold write_and_commit in Ensures-bind _ _ (λ _. write_locked_records i r))
      (entry_failed_records r.reference))

apply_entry_records :
    (r : EntryRequest) (s : Session) → Post (IsRecorded r.reference) (apply_entry r s)
unfolding apply_entry ◌>>=◌
apply_entry_records r s = elim (Option-cases (entry_by_reference r.reference s.working)) [
  | inr (e, there) ↦ rw there (replay_records r.reference e s there)
  | inl new ↦ rw new ((apply_unless_records r).at s)
]

recorded_replays :
    (r : EntryRequest) (x : LedgerResult) (s : Session)
    → IsRecorded r.reference x s
    → apply_entry r s ≡ (ok (record x { replayed = true }), s)
unfolding apply_entry replay ◌>>=◌
recorded_replays r x s (entry, wallet) = rw (entry, wallet)

-- A movement that has returned, by writing or by replaying, is replayed when it is requested
-- again: the second call returns the same entry and wallet, marked as a replay, and changes
-- nothing.
pub apply_entry_twice :
    (r : EntryRequest) (s s' : Session) (x : LedgerResult)
    → apply_entry r s ≡ (ok x, s')
    → apply_entry r s' ≡ (ok (record x { replayed = true }), s')
apply_entry_twice r s s' x h =
    recorded_replays r x s' (subst (Post (IsRecorded r.reference)) h (apply_entry_records r s))
