-- ===== src/Session/Keeps.antt =====
-- Invariants of actions: `m` keeps `P` if a session with `P` has it afterwards too, whether `m`
-- returns or raises. One rule for each way to build an action.
use adehun_api.Prelude.{Bool, true, false, if◌then◌else◌, Option, none, some}
use adehun_api.Models.{Db}
use adehun_api.Redis.{Cache}
use adehun_api.Errors.{Error}
use adehun_api.Session.{
  Session, Result, ok, err, Action, pure, raise, query, or_raise, continue, ◌>>=◌, handle,
  try_except, raise_if, ask_redis,
}

pub record Keeps {A : Type 0} (P : Session → Type 0) (m : Action A) : Type 0 where
  pub at : (s : Session) → P s → P (m s).1

module _ {A : Type 0} {P : Session → Type 0} where
  pub Keeps-pure : (a : A) → Keeps P (pure a)
  unfolding pure
  Keeps-pure a = record { at = λ s h. h }

  pub Keeps-raise : (e : Error) → Keeps P (raise {A = A} e)
  unfolding raise
  Keeps-raise e = record { at = λ s h. h }

  pub Keeps-query : (f : Db → A) → Keeps P (query f)
  unfolding query
  Keeps-query f = record { at = λ s h. h }

  pub Keeps-ask_redis : (f : Cache → Option A) → Keeps P (ask_redis f)
  unfolding ask_redis
  Keeps-ask_redis f = record { at = λ s h. h }

  pub Keeps-or_raise : (e : Error) (o : Option A) → Keeps P (or_raise e o)
  unfolding or_raise
  Keeps-or_raise e none = record { at = λ s h. h }
  Keeps-or_raise e (some a) = record { at = λ s h. h }

  pub Keeps-if : (b : Bool) (m n : Action A) → Keeps P m → Keeps P n → Keeps P (if b then m else n)
  Keeps-if true m n km kn = km
  Keeps-if false m n km kn = kn

  pub handle-keeps :
      (r : Result A) (h : Error → Action A) (s : Session)
      → ((e : Error) → Keeps P (h e))
      → P s
      → P (handle r h s).1
  handle-keeps (ok a) h s kh p = p
  handle-keeps (err e) h s kh p = (kh e).at s p

  pub Keeps-try_except :
      (m : Action A) (h : Error → Action A)
      → Keeps P m
      → ((e : Error) → Keeps P (h e))
      → Keeps P (try_except m h)
  unfolding try_except
  Keeps-try_except m h km kh = record {
    at = λ s p. let (r, s') = m s in handle-keeps r h s' kh (km.at s p);
  }

module _ {P : Session → Type 0} where
  pub Keeps-raise_if : (b : Bool) (e : Error) → Keeps P (raise_if b e)
  unfolding raise_if
  Keeps-raise_if true e = record { at = λ s h. h }
  Keeps-raise_if false e = record { at = λ s h. h }

module _ {A B : Type 0} {P : Session → Type 0} where
  continue-keeps :
      (r : Result A) (f : A → Action B) (s : Session)
      → ((a : A) → Keeps P (f a))
      → P s
      → P (continue r f s).1
  continue-keeps (ok a) f s kf p = (kf a).at s p
  continue-keeps (err e) f s kf p = p

  pub Keeps-bind :
      (m : Action A) (f : A → Action B) → Keeps P m → ((a : A) → Keeps P (f a)) → Keeps P (m >>= f)
  unfolding ◌>>=◌
  Keeps-bind m f km kf = record {
    at = λ s p. let (r, s') = m s in continue-keeps r f s' kf (km.at s p);
  }

pub ruleset keeps_rules = (
  Keeps-pure, Keeps-raise, Keeps-query, Keeps-ask_redis, Keeps-or_raise, Keeps-raise_if, Keeps-bind,
  Keeps-try_except, Keeps-if,
)
