-- ===== src/Lib.antt =====
-- The money flow of the escrow API: users deposit through Paystack, lock money in escrow under an
-- agreement, release it to the other party or get it back, and withdraw to a bank account.
--
-- The parts, and how they work together. A request has one database session (Session: `commit`,
-- `rollback`, row locks, the table constraints that the database checks). Everything that moves money
-- is a row of the ledger that app/repository/wallet_repository.py writes together with a wallet's
-- balances (WalletRepository). app/service/wallet_service.py (WalletService) asks it for escrow
-- movements and withdrawals; app/service/paystack_webhook_service.py (Webhook) for deposits and
-- reversals, once for each event that app/repository/webhook_event_repository.py lets it claim
-- (WebhookEvents). app/service/agreement_service.py (AgreementService) guards the status of an
-- agreement, app/service/condition_service.py (Conditions) the conditions for a release,
-- app/service/dispute_service.py and app/routers/admin_dispute.py (Disputes) freeze and settle it, and
-- the routes in app/routers/agreement.py and app/routers/condition.py (Escrow) put these together.
-- app/core/idempotency.py (Idempotency) lets a client repeat a request, app/core/authz.py (Authz) says
-- who may touch an agreement. app/service/bank_account_service.py (BankAccounts) keeps the accounts
-- that withdrawals go to, app/service/auth_service.py and app/service/token_service.py (AuthService)
-- the refresh tokens of the users. app/service/asset_service.py and app/routers/asset.py (Assets) take
-- the files that are handed in under a condition, in front of the cache of app/redis.py (Redis), and
-- Disputes/Evidence those that belong to a dispute. app/service/notification_service.py
-- (Notifications) keeps what users have read; app/service/transaction_service.py (Transactions),
-- app/service/stats_service.py (Stats) and Disputes/Listings only read. app/service/paystack_client.py (PaystackClient) makes the calls to
-- Paystack and reads their answers; WalletService and BankAccounts take it as records of what it
-- returns or raises, and PaystackClient/Transfers puts it behind a withdrawal. Requests serves any sequence of the requests that these parts
-- answer; Authz and Idempotency are modelled on their own, and no sequence of requests has them.
--
-- How invariants are shown. `Keeps P m` (Session/Keeps) says that an action keeps `P` whether it
-- returns or raises; `Stable P` (WalletRepository/Stable) and the records of Escrow/Stable,
-- Escrow/Statuses, BankAccounts/Stable and AuthService/Stable list the single steps that are to keep
-- `P`, and Requests/Stable carries this to all requests. `Leads Q P m` (Session/Leads) is for actions
-- whose first writes need the rest: an escrow payout writes the agreement's final status before the
-- ledger rows, and a failure rolls both back (WalletRepository/Payouts, WalletRepository/Grows).
-- LifeCycle is the abstract state machine of an agreement: `Step` lists its moves, `Reaches` their
-- sequences; LifeCycle/Orderly says what a database that follows it looks like, LifeCycle/Sessions,
-- Opened, Payouts, Routes and Contested show it for the operations, LifeCycle/Served for all requests.
-- Requests/Tidy does the same for the references of the escrow rows.
--
-- How the model stands for the code. A method is an action: a function from the session to a result
-- and a session, with the name of the method where it has one (a leading underscore is left off);
-- `raise` is an error result, `try`/`except` is `try_except`, and what was written before an error
-- stays in the open transaction. Rows are the records of Models, tables are lists with the newest row
-- first, `uuid4` draws a fresh number, texts that only reach a reader are left out. Money is a
-- `Decimal` of sign, coefficient and places (Money); balances are integers in kobo. The references
-- of the ledger (`esc_lock_..`, `wd_..`) are constructors (Reference). What other transactions commit
-- while one waits for a row lock is a function in the session. What Paystack answers is a parameter
-- (`Provider`, or in PaystackClient what each attempt gives), and so are the settings, the time, and
-- the draw of the sweep. No definition needs fuel: the code has no loop but those over rows and the
-- retries of a call, which are counted down.
--
-- The cache is modelled for assets. Of the cached agreements only the status that funding asks for is
-- modelled, as a parameter: what changes a status reads the row (`get_attached`), but the guard on
-- funding may see a copy up to five minutes old. The parties and the amount of an escrow do not
-- change. The caches of the listings and of users are left out.
--
-- Not modelled: profiles of users, e-mail, websockets, the store for uploads, the notifications that
-- routes send, and the HTTP layer: they move no money and change no agreement. Of two
-- requests that run at the same time the model has what others commit at a wait for a row lock, and
-- nothing between two other statements.
pub mod Prelude
pub mod Enums
pub mod Money
pub mod Reference
pub mod Models
pub mod Errors
pub mod Redis
pub mod Session
pub mod WalletRepository
pub mod WalletService
pub mod WebhookEvents
pub mod Webhook
pub mod AgreementService
pub mod Conditions
pub mod Escrow
pub mod Disputes
pub mod Idempotency
pub mod Authz
pub mod Assets
pub mod Notifications
pub mod Transactions
pub mod Stats
pub mod BankAccounts
pub mod AuthService
pub mod LifeCycle
pub mod PaystackClient
pub mod Requests
pub mod Tests
