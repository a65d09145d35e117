-- ===== src/Session/Refuses.antt =====
-- Actions that only read, and actions that refuse: they raise and leave the session as it was.
use adehun_api.Prelude.{◌≡◌, refl, ◌⊎◌, inl, inr, Bool, true, false, Option, none, some}
use adehun_api.Models.{Db}
use adehun_api.Errors.{Error}
use adehun_api.Session.{Session, ok, err, Action, pure, raise, query, or_raise, ◌>>=◌, raise_if}

pub record Reads {A : Type 0} (m : Action A) : Type 0 where
  pub at : (s : Session) → ((a : A) × (m s ≡ (ok a, s))) ⊎ ((e : Error) × (m s ≡ (err e, s)))

-- `m` raises from every session with `P`, and changes nothing.
pub record Refuses {A : Type 0} (P : Session → Type 0) (m : Action A) : Type 0 where
  pub at : (s : Session) → P s → (e : Error) × (m s ≡ (err e, s))

module _ {A : Type 0} where
  pub Reads-pure : (a : A) → Reads (pure a)
  unfolding ◌>>=◌
  Reads-pure a = record { at = λ s. inl (a, refl) }

  pub Reads-raise : (e : Error) → Reads (raise {A = A} e)
  unfolding ◌>>=◌
  Reads-raise e = record { at = λ s. inr (e, refl) }

  pub Reads-query : (f : Db → A) → Reads (query f)
  unfolding ◌>>=◌
  Reads-query f = record { at = λ s. inl (f s.working, refl) }

  pub Reads-or_raise : (e : Error) (o : Option A) → Reads (or_raise e o)
  unfolding ◌>>=◌
  Reads-or_raise e none = record { at = λ s. inr (e, refl) }
  Reads-or_raise e (some a) = record { at = λ s. inl (a, refl) }

pub Reads-raise_if : (b : Bool) (e : Error) → Reads (raise_if b e)
unfolding ◌>>=◌
Reads-raise_if true e = record { at = λ s. inr (e, refl) }
Reads-raise_if false e = record { at = λ s. inl (tt, refl) }

module _ {A B : Type 0} where
  pub Reads-bind :
      (m : Action A) (f : A → Action B) → Reads m → ((a : A) → Reads (f a)) → Reads (m >>= f)
  unfolding ◌>>=◌
  Reads-bind m f rm rf = record {
    at = λ s. elim (rm.at s) [
      | inl (a, done) ↦ rw done ((rf a).at s)
      | inr (e, failed) ↦ inr (e, rw failed)
    ];
  }

  pub Refuses-bind :
      {P : Session → Type 0} (m : Action A) (f : A → Action B)
      → Reads m
      → ((a : A) → Refuses P (f a))
      → Refuses P (m >>= f)
  unfolding ◌>>=◌
  Refuses-bind m f rm rf = record {
    at = λ s p. elim (rm.at s) [
      | inl (a, done) ↦ rw done ((rf a).at s p)
      | inr (e, failed) ↦ (e, rw failed)
    ];
  }

  pub Refuses-first :
      {P : Session → Type 0} (m : Action A) (f : A → Action B) → Refuses P m → Refuses P (m >>= f)
  unfolding ◌>>=◌
  Refuses-first m f rm = record { at = λ s p. let (e, failed) = rm.at s p in (e, rw failed) }

pub ruleset refuses_rules =
    (Reads-pure, Reads-raise, Reads-query, Reads-or_raise, Reads-raise_if, Reads-bind, Refuses-bind)
