-- ===== src/Session/Ensures.antt =====
-- What holds of the value and the session that an action returns, with one rule for each way to
-- build an action. Nothing is said of an action that raises.
use adehun_api.Prelude.{Bool, true, false, if◌then◌else◌}
use adehun_api.Errors.{Error}
use adehun_api.Session.{
  Session, Result, ok, err, Action, raise, ◌>>=◌, try_except, continue, handle,
}

-- What holds of the value and the session that an action returns.
abbrev pub Post : {A : Type 0} → (A → Session → Type 0) → Result A × Session → Type 0
Post Q (ok a, s) = Q a s
Post Q (err e, s) = Unit

pub record Ensures {A : Type 0} (Q : A → Session → Type 0) (m : Action A) : Type 0 where
  pub at : (s : Session) → Post Q (m s)

module _ {A B : Type 0} {Q : B → Session → Type 0} where
  continue-Ensures :
      (r : Result A) (f : A → Action B) (s : Session)
      → ((a : A) → Ensures Q (f a))
      → Post Q (continue r f s)
  continue-Ensures (ok a) f s k = (k a).at s
  continue-Ensures (err e) f s k = tt

  pub Ensures-bind :
      (m : Action A) (f : A → Action B) → ((a : A) → Ensures Q (f a)) → Ensures Q (m >>= f)
  unfolding ◌>>=◌
  Ensures-bind m f k = record { at = λ s. let (r, s') = m s in continue-Ensures r f s' k }

module _ {A B : Type 0} (R : A → Session → Type 0) (Q : B → Session → Type 0) where
  continue-Post :
      (r : Result A) (f : A → Action B) (s : Session)
      → Post R (r, s)
      → ((a : A) (t : Session) → R a t → Post Q (f a t))
      → Post Q (continue r f s)
  continue-Post (ok a) f s p k = k a s p
  continue-Post (err e) f s p k = tt

  -- What holds after the first action is used for the second.
  pub Post-bind :
      (m : Action A) (f : A → Action B) (s : Session)
      → Post R (m s)
      → ((a : A) (t : Session) → R a t → Post Q (f a t))
      → Post Q ((m >>= f) s)
  unfolding ◌>>=◌
  Post-bind m f s p k = let (r, t) = m s in continue-Post r f t p k

module _ {A : Type 0} {Q : A → Session → Type 0} where
  handle-Ensures :
      (r : Result A) (h : Error → Action A) (s : Session)
      → Post Q (r, s)
      → ((e : Error) → Ensures Q (h e))
      → Post Q (handle r h s)
  handle-Ensures (ok a) h s p k = p
  handle-Ensures (err e) h s p k = (k e).at s

  pub Post-try_except :
      (m : Action A) (h : Error → Action A) (s : Session)
      → Post Q (m s)
      → ((e : Error) → Ensures Q (h e))
      → Post Q (try_except m h s)
  unfolding ◌>>=◌
  Post-try_except m h s p k = let (r, s') = m s in handle-Ensures r h s' p k

  pub Ensures-try_except :
      (m : Action A) (h : Error → Action A)
      → Ensures Q m
      → ((e : Error) → Ensures Q (h e))
      → Ensures Q (try_except m h)
  unfolding ◌>>=◌
  Ensures-try_except m h km kh = record {
    at = λ s. let (r, s') = m s in handle-Ensures r h s' (km.at s) kh;
  }

  pub Ensures-raise : (e : Error) → Ensures Q (raise e)
  unfolding ◌>>=◌
  Ensures-raise e = record { at = λ s. tt }

  pub Ensures-if :
      (b : Bool) (m n : Action A) → Ensures Q m → Ensures Q n → Ensures Q (if b then m else n)
  Ensures-if true m n km kn = km
  Ensures-if false m n km kn = kn
