-- ===== src/PaystackClient.antt =====
-- app/service/paystack_client.py: requests to Paystack, their retries and how an answer is read.
-- What `httpx` gives for each attempt is a parameter. A message is the set of the phrases that its
-- lower-case form contains; a JSON body is taken to be an object. Left out: the log, the pooled
-- connection, and of a call's payload what only Paystack reads.
pub mod Attempts
pub mod Transfers
use adehun_api.Prelude.{
  ℕ, zero, suc, Bool, true, false, not, ◌&&◌, ◌||◌, Option, none, some, List, [], ◌∷◌, any,
  if◌then◌else◌, ltb, leb, length, ℤ,
}
use adehun_api.Errors.{
  Error, paystack_error, paystack_timeout, paystack_validation, paystack_duplicate_reference,
  index_error,
}
use adehun_api.Session.{Result, ok, err}

-- The phrases that a message is searched for.
pub data Phrase : Type 0 where
  could_not_resolve cannot_resolve invalid not_found unknown_bank no_such is_required must_be :
      Phrase
  reference duplicate already has_been_used : Phrase

abbrev pub Message : Type 0
Message = Phrase → Bool

abbrev pub validation_hints : List Phrase
validation_hints =
    could_not_resolve ∷ cannot_resolve ∷ invalid ∷ not_found ∷ unknown_bank ∷ no_such ∷ is_required
    ∷ must_be ∷ []

abbrev pub looks_like_validation : Message → Bool
looks_like_validation message = any message validation_hints

abbrev pub looks_like_duplicate_reference : Message → Bool
looks_like_duplicate_reference message =
    message reference && (message duplicate || message already || message has_been_used)

-- The fields of a JSON body: whether `status` is truthy, the message, and the `data` that are not
-- null.
pub record Body (D : Type 0) : Type 0 where
  pub is_success : Bool
  pub message : Message
  pub payload : Option D

-- What one attempt gives: `TimeoutException` or `ConnectError`, another `RequestError`, or a
-- response with its HTTP status and its JSON body, if it has one.
pub data Reply (D : Type 0) : Type 0 where
  timed_out : Reply D
  request_failed : Reply D
  response : ℕ → Option (Body D) → Reply D

-- The requests: an amount in kobo, references, an account number, a bank code, a recipient code.
pub data Call : Type 0 where
  post_initialize : ℤ → ℕ → Call
  get_transaction : ℕ → Call
  get_banks : Call
  get_account : ℕ → ℕ → Call
  post_recipient : ℕ → ℕ → Call
  post_transfer : ℤ → ℕ → ℕ → Call
  get_transfer : ℕ → Call

-- What a request comes to: what it returns or raises, and what was sent, in order.
pub record Exchange (D : Type 0) : Type 0 where
  pub outcome : Result D
  pub sent : List Call

abbrev pub retry_backoff_milliseconds : List ℕ
retry_backoff_milliseconds = 500 ∷ 1500 ∷ []

-- The part of `_parse` for a body whose `status` is falsy.
abbrev pub rejection : ℕ → Message → Error
rejection http_status message =
    if looks_like_duplicate_reference message
    then paystack_duplicate_reference
    else (if ltb http_status 500 && looks_like_validation message
        then paystack_validation
        else paystack_error)

module _ {D : Type 0} where
  abbrev pub or_no_data : Option D → Result D
  or_no_data none = err paystack_error
  or_no_data (some payload) = ok payload

  abbrev pub parse : ℕ → Option (Body D) → Result D
  parse http_status none = err paystack_error
  parse http_status (some body) =
      if not body.is_success
      then err (rejection http_status body.message)
      else or_no_data body.payload

  -- The replies after which `_request` goes on to another attempt if it has one left.
  abbrev pub is_retried : Reply D → Bool
  is_retried timed_out = true
  is_retried request_failed = false
  is_retried (response http_status _) = leb 500 http_status

  -- What `_request` returns or raises on the reply to its last attempt.
  abbrev pub outcome_of : Reply D → Result D
  outcome_of timed_out = err paystack_timeout
  outcome_of request_failed = err paystack_error
  outcome_of (response http_status body) =
      if leb 500 http_status then err paystack_error else parse http_status body

  abbrev pub after_sending : Call → Exchange D → Exchange D
  after_sending call e = record { outcome = e.outcome; sent = call ∷ e.sent }

  -- The wait before another attempt: there is one for each of the first two.
  abbrev pub backed_off : ℕ → Exchange D → Exchange D
  backed_off attempt rest =
      if ltb attempt (length retry_backoff_milliseconds)
      then rest
      else record { outcome = err index_error; sent = [] }

  module _ (answer : ℕ → Reply D) (call : Call) where
    -- The loop of `_request` from an attempt on, with so many more attempts after it.
    unfoldable pub attempt_from : ℕ → ℕ → Exchange D
    attempt_from attempt zero =
        after_sending call (record { outcome = outcome_of (answer attempt); sent = [] })
    attempt_from attempt (suc left) =
        let rest = attempt_from (suc attempt) left in
        after_sending call (
          if is_retried (answer attempt)
          then backed_off attempt rest
          else record { outcome = outcome_of (answer attempt); sent = [] })

    -- `_request`
    abbrev pub request : ℕ → Exchange D
    request retries = attempt_from 0 retries

  module _ (answer : ℕ → Reply D) where
    abbrev pub initialize_transaction : ℤ → ℕ → Exchange D
    initialize_transaction amount r = request answer (post_initialize amount r) 0

    abbrev pub verify_transaction : ℕ → Exchange D
    verify_transaction r = request answer (get_transaction r) 2

    abbrev pub resolve_account_number : ℕ → ℕ → Exchange D
    resolve_account_number account_number bank_code =
        request answer (get_account account_number bank_code) 2

    abbrev pub create_transfer_recipient : ℕ → ℕ → Exchange D
    create_transfer_recipient account_number bank_code =
        request answer (post_recipient account_number bank_code) 0

    abbrev pub initiate_transfer : ℤ → ℕ → ℕ → Exchange D
    initiate_transfer amount recipient_code r =
        request answer (post_transfer amount recipient_code r) 0

    abbrev pub verify_transfer : ℕ → Exchange D
    verify_transfer r = request answer (get_transfer r) 2

-- Of the `data` of `list_banks`: `none` where they are no list.
abbrev pub or_no_banks : {B : Type 0} → Result (Option (List B)) → Result (List B)
or_no_banks (ok none) = ok []
or_no_banks (ok (some banks)) = ok banks
or_no_banks (err e) = err e

abbrev pub list_banks : {B : Type 0} → (ℕ → Reply (Option (List B))) → Result (List B)
list_banks answer = or_no_banks (request answer get_banks 2).outcome
