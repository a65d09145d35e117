-- ===== src/Requests/Soundness.antt =====
-- The ledger over sequences of requests.
use mathlib.Core.Path.{subst}
use adehun_api.Prelude.{
  ℕ, suc, refl, ◌≤◌, ◌≡◌, true, false, Option, List, [], ◌∷◌, any, arith, if◌then◌else◌, Bool-cases,
  inl, inr,
}
use adehun_api.Reference.{Reference, same_reference, eq_of_same, same_refl}
use adehun_api.Models.{Transaction}
use adehun_api.Session.{Session, distinct_references}
use adehun_api.WalletRepository.Invariant.{IsSound}
use adehun_api.WalletRepository.Soundness.{IsSound-stable, modify-IsSound}
use adehun_api.BankAccounts.{write_accounts}
use adehun_api.BankAccounts.Stable.{StableAccounts}
use adehun_api.AuthService.{write_users, write_tokens}
use adehun_api.AuthService.Stable.{StableUsers}
use adehun_api.WalletService.{Settings, Provider}
use adehun_api.BankAccounts.{Banks}
use adehun_api.Webhook.Soundness.{add_event-IsSound, update_event-IsSound}
use adehun_api.Escrow.Soundness.{rows, routes}
use adehun_api.Requests.Stable.{serve_all-keeps}
use adehun_api.Requests.{Request, serve_all}

-- How many rows have a reference.
unfoldable pub occurrences : Reference → List Transaction → ℕ
occurrences r [] = 0
occurrences r (e ∷ es) =
    let rest = occurrences r es in if same_reference e.reference r then suc rest else rest

same_sym : (a b : Reference) → same_reference a b ≡ true → same_reference b a ≡ true
same_sym a b h = subst (λ x. same_reference x a ≡ true) (eq_of_same a b h) (same_refl a)

none_of :
    (r : Reference) (es : List Transaction)
    → any (λ x. same_reference r x.reference) es ≡ false
    → occurrences r es ≡ 0
unfolding occurrences
none_of r [] h = refl
none_of r (e ∷ es) h = ground (arith, none_of r es, same_sym e.reference r)

pub distinct-occurrences :
    (r : Reference) (es : List Transaction) → distinct_references es ≡ true → occurrences r es ≤ 1
unfolding occurrences distinct_references
distinct-occurrences r [] h = omega arith
distinct-occurrences r (e ∷ es) h = elim (Bool-cases (same_reference e.reference r)) [
  | inr other ↦ rw other (distinct-occurrences r es (ground arith))
  | inl same ↦ rw (same, none r (eq_of_same e.reference r same)) (omega arith)
]
  where
    none : (q : Reference) → e.reference ≡ q → occurrences q es ≡ 0
    none q eq = subst (λ x. occurrences x es ≡ 0) eq (none_of e.reference es (ground arith))

accounts : StableAccounts IsSound
unfolding write_accounts
accounts = record { at_accounts = λ f. modify-IsSound _ (λ n db h. h) }

users : StableUsers IsSound
unfolding write_users write_tokens
users = record {
  at_users = λ f. modify-IsSound _ (λ n db h. h);
  at_tokens = λ f. modify-IsSound _ (λ n db h. h);
}

module _ (settings : Settings) (provider : Provider) (banks : Banks) (owner : ℕ → Option ℕ) where
  -- Whatever requests are served in whatever order, from a sound session: afterwards every
  -- balance, committed or not, is the sum of its wallet's ledger rows and not negative, and the
  -- committed references are distinct. Other transactions may commit at each wait for a row
  -- lock, if what they commit keeps the ledger sound.
  pub serve_all-IsSound :
      (rs : List Request) (s : Session)
      → IsSound s
      → IsSound (serve_all settings provider banks owner rs s)
  serve_all-IsSound rs s h =
      serve_all-keeps IsSound-stable rows routes accounts users add_event-IsSound
        update_event-IsSound settings provider banks owner rs s h
