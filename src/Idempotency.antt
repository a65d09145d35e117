-- ===== src/Idempotency.antt =====
-- app/core/idempotency.py over app/repository/idempotency_repository.py: the key by which a client
-- repeats a request. A header is its text's number and length; a request body is its hash; a stored
-- response is a number; the time and the draw of the sweep are arguments.
pub mod Replay
pub mod RoundTrip
pub mod Release
use adehun_api.Prelude.{
  ℕ, ◌+◌, ◌*◌, Bool, true, false, not, ◌&&◌, List, [], ◌∷◌, Option, none, some, find, select_all,
  update_where, if◌then◌else◌, ltb, ◌==◌,
}
use adehun_api.Enums.{IdempotencyStatus}
use adehun_api.Reference.{Reference}
use adehun_api.Models.{Db, IdempotencyKey}
use adehun_api.Errors.{Error, bad_request, idempotency_key_reused, idempotency_conflict}
use adehun_api.Session.{
  Action, pure, raise, query, ◌>>=◌, ◌>>◌, raise_if, try_except, modify, uuid4, commit, rollback,
}

-- `_MAX_KEY_LENGTH`, and the settings of app/config.py in seconds
abbrev max_key_length : ℕ
max_key_length = 120

abbrev pub ttl : ℕ
ttl = 24 * 3600

abbrev pub inflight_timeout : ℕ
inflight_timeout = 120

pub record Header : Type 0 where
  pub key : ℕ
  pub length : ℕ

-- What a key is claimed for.
pub record Claim : Type 0 where
  pub user_id : ℕ
  pub endpoint : ℕ
  pub key : ℕ
  pub request_hash : ℕ

abbrev pub is_in_progress : IdempotencyStatus → Bool
is_in_progress IdempotencyStatus.in_progress = true
is_in_progress IdempotencyStatus.completed = false

abbrev pub names_row : Claim → IdempotencyKey → Bool
names_row c k = k.user_id == c.user_id && k.endpoint == c.endpoint && k.key == c.key

-- `get`
abbrev pub key_of : Claim → Db → Option IdempotencyKey
key_of c db = find (names_row c) db.idempotency_keys

abbrev pub key_by_id : ℕ → Db → Option IdempotencyKey
key_by_id i db = find (λ k. k.id == i) db.idempotency_keys

-- The VALUES of `reserve`.
abbrev pub reservation : ℕ → Claim → ℕ → IdempotencyKey
reservation i c now = record {
  id = i;
  user_id = c.user_id;
  endpoint = c.endpoint;
  key = c.key;
  request_hash = c.request_hash;
  status = IdempotencyStatus.in_progress;
  response = none;
  created_at = now;
  expires_at = now + ttl;
  resource_reference = none;
}

unfoldable pub add_key : ℕ → Claim → ℕ → Db → Db
add_key i c now db = record db { idempotency_keys = reservation i c now ∷ db.idempotency_keys }

unfoldable pub write_key : ℕ → (IdempotencyKey → IdempotencyKey) → Db → Db
write_key i f db = record db {
  idempotency_keys = update_where (λ k. k.id == i) f db.idempotency_keys;
}

unfoldable pub remove_keys : (IdempotencyKey → Bool) → Db → Db
remove_keys p db = record db { idempotency_keys = select_all (λ k. not (p k)) db.idempotency_keys }

-- The SET of the conflict clause of `reserve`.
abbrev pub taken_over : Claim → ℕ → IdempotencyKey → IdempotencyKey
taken_over c now k = record k {
  status = IdempotencyStatus.in_progress;
  request_hash = c.request_hash;
  created_at = now;
  expires_at = now + ttl;
  response = none;
}

-- The INSERT ... ON CONFLICT DO UPDATE ... WHERE of `reserve`, by the row that is there.
abbrev pub reserve_row : Claim → ℕ → ℕ → Option IdempotencyKey → Action (Option ℕ)
reserve_row c now i none = do modify (add_key i c now); commit; pure (some i)
reserve_row c now i (some k) =
    if is_in_progress k.status && ltb (k.created_at + inflight_timeout) now
    then (do modify (write_key k.id (taken_over c now)); commit; pure (some k.id))
    else (do commit; pure none)

-- `_sweep_expired`
unfoldable pub sweep_expired : ℕ → Action (Unit {0})
sweep_expired now =
    try_except (do modify (remove_keys (λ k. ltb k.expires_at now)); commit) (λ e. rollback)

abbrev pub sweep_if : Bool → ℕ → Option ℕ → Action (Unit {0})
sweep_if sweeps now none = pure tt
sweep_if sweeps now (some i) = if sweeps then sweep_expired now else pure tt

unfoldable pub reserve : Claim → ℕ → Bool → Action (Option ℕ)
reserve c now sweeps = do
  i ← uuid4
  existing ← query (key_of c)
  reserved ← reserve_row c now i existing
  sweep_if sweeps now reserved
  pure reserved

-- What `begin` leaves: a response to return, or the id of the reservation, if there is one.
pub data Begun : Type 0 where
  replay : Option ℕ → Begun
  proceed : Option ℕ → Begun

-- `begin` for a key that someone else holds.
abbrev pub begin_taken : Claim → Option IdempotencyKey → Action Begun
begin_taken c none = pure (proceed none)
begin_taken c (some k) =
    if not (k.request_hash == c.request_hash)
    then raise idempotency_key_reused
    else if not (is_in_progress k.status)
    then pure (replay k.response)
    else raise idempotency_conflict

abbrev pub begin_reserved : Claim → Option ℕ → Action Begun
begin_reserved c (some i) = pure (proceed (some i))
begin_reserved c none = do existing ← query (key_of c); begin_taken c existing

unfoldable pub begin_claim : Claim → ℕ → Bool → Action Begun
begin_claim c now sweeps = do reserved ← reserve c now sweeps; begin_reserved c reserved

-- `begin`
unfoldable pub begin_request : ℕ → ℕ → ℕ → Bool → Option Header → ℕ → Bool → Action Begun
begin_request u endpoint hash required none now sweeps =
    if required then raise bad_request else pure (proceed none)
begin_request u endpoint hash required (some h) now sweeps = do
  raise_if (ltb max_key_length h.length) bad_request
  begin_claim (record { user_id = u; endpoint = endpoint; key = h.key; request_hash = hash }) now
      sweeps

abbrev pub with_response : Option ℕ → IdempotencyKey → IdempotencyKey
with_response r k = record k { status = IdempotencyStatus.completed; response = r }

abbrev pub complete_row : ℕ → Option ℕ → Option IdempotencyKey → Action (Unit {0})
complete_row i r none = pure tt
complete_row i r (some k) = do modify (write_key i (with_response r)); commit

-- `complete` of the repository
unfoldable pub complete_key : ℕ → Option ℕ → Action (Unit {0})
complete_key i r = do existing ← query (key_by_id i); complete_row i r existing

-- `complete`
unfoldable pub complete : Option ℕ → Option ℕ → Action (Unit {0})
complete none r = pure tt
complete (some i) r = complete_key i r

abbrev pub bind_row : ℕ → Reference → Option IdempotencyKey → Action (Unit {0})
bind_row i r none = pure tt
bind_row i r (some k) = do
  modify (write_key i (λ x. record x { resource_reference = some r }))
  commit

-- `bind_reference`
unfoldable pub bind_reference : Option ℕ → Reference → Action (Unit {0})
bind_reference none r = pure tt
bind_reference (some i) r =
    try_except (do existing ← query (key_by_id i); bind_row i r existing) (λ e. pure tt)

-- `release` of the repository
unfoldable pub release : ℕ → Action (Unit {0})
release i = do rollback; modify (remove_keys (λ k. k.id == i && is_in_progress k.status)); commit

-- `release_if_abandoned`, for a request that did not complete
unfoldable pub release_if_abandoned : Option ℕ → Action (Unit {0})
release_if_abandoned none = pure tt
release_if_abandoned (some i) = try_except (release i) (λ e. pure tt)
