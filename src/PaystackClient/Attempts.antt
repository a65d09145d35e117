-- ===== src/PaystackClient/Attempts.antt =====
-- How often `_request` of app/service/paystack_client.py asks Paystack, and which answer counts.
use mathlib.Core.Path.{subst}
use adehun_api.Prelude.{
  ℕ, zero, suc, ◌+◌, ◌≤◌, ◌<◌, ◌≡◌, refl, ◌⊎◌, inl, inr, true, false, ap, sym, List, [], ◌∷◌,
  Bool-cases, ltb, ◌==◌, ==_iff, arith,
}
use adehun_api.PaystackClient.{
  Reply, Call, Exchange, is_retried, outcome_of, after_sending, attempt_from, request,
}

abbrev pub copies : ℕ → Call → List Call
copies zero call = []
copies (suc n) call = call ∷ copies n call

-- A run from an attempt on, with so many more allowed: it made some more, was to retry after all but
-- the last, and the last one either is the last allowed or was not to be retried.
pub record IsRun {D : Type 0} (answer : ℕ → Reply D) (call : Call) (attempt left : ℕ)
    (e : Exchange D) : Type 0 where
  pub last : ℕ
  pub more : ℕ
  pub position : last ≡ attempt + more
  pub within : more ≤ left
  pub result : e.outcome ≡ outcome_of (answer last)
  pub requests : e.sent ≡ copies (suc more) call
  pub before : (j : ℕ) → attempt ≤ j → j < last → is_retried (answer j) ≡ true
  pub stopped : (more ≡ left) ⊎ (is_retried (answer last) ≡ false)

module _ {D : Type 0} (answer : ℕ → Reply D) (call : Call) where
  last-IsRun :
      (attempt left : ℕ)
      → (0 ≡ left) ⊎ (is_retried (answer attempt) ≡ false)
      → IsRun answer call attempt left
          (after_sending call (record { outcome = outcome_of (answer attempt); sent = [] }))
  last-IsRun attempt left stopped = record {
    last = attempt;
    more = 0;
    position = ground arith;
    within = ground arith;
    result = refl;
    requests = refl;
    before = λ j h h'. ground arith;
    stopped = stopped;
  }

  next-IsRun :
      (attempt left : ℕ) (e : Exchange D)
      → is_retried (answer attempt) ≡ true
      → IsRun answer call (suc attempt) left e
      → IsRun answer call attempt (suc left) (after_sending call e)
  next-IsRun attempt left e retry run = record {
    last = run.last;
    more = suc run.more;
    position = ground (arith, run.position);
    within = ground (arith, run.within);
    result = run.result;
    requests = ap (λ x. call ∷ x) run.requests;
    before = λ j h h'. elim (Bool-cases (j == attempt)) [
      | inl same ↦ subst (λ i. is_retried (answer i) ≡ true) (sym ((==_iff j attempt).0 same)) retry
      | inr other ↦ run.before j (ground (arith, other)) h'
    ];
    stopped = elim run.stopped [ inl end ↦ inl (ap suc end) | inr final ↦ inr final ];
  }

  attempt_from-IsRun :
      (attempt left : ℕ)
      → attempt + left ≤ 2
      → IsRun answer call attempt left (attempt_from answer call attempt left)
  unfolding attempt_from
  attempt_from-IsRun attempt zero h = last-IsRun attempt 0 (inl refl)
  attempt_from-IsRun attempt (suc left) h = elim (Bool-cases (is_retried (answer attempt))) [
    | inl retry ↦
        rw (retry, backed)
          (next-IsRun attempt left _ retry
            (attempt_from-IsRun (suc attempt) left (ground (arith, h))))
    | inr final ↦ rw final (last-IsRun attempt (suc left) (inr final))
  ]
    where
      backed : ltb attempt 2 ≡ true
      backed = ground (arith, h)

-- Whatever Paystack answers, a request with at most two retries ends after at most one more
-- attempt than it has retries, sends the same call at each, and returns or raises what the reply
-- to the last attempt comes to; every reply before was one to retry after, and the last is one
-- only if no retry was left.
pub request-IsRun :
    {D : Type 0} (answer : ℕ → Reply D) (call : Call) (retries : ℕ)
    → retries ≤ 2
    → IsRun answer call 0 retries (request answer call retries)
request-IsRun answer call retries h = attempt_from-IsRun answer call 0 retries (ground (arith, h))
