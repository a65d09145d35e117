-- ===== src/Session/Leads.antt =====
-- Actions that lead from one property of the session to another, whether they return or raise, and
-- what a guard adds to what is known.
use adehun_api.Prelude.{◌≡◌, refl, Bool, true, false, Option, none, some, if◌then◌else◌, inl, inr}
use adehun_api.Models.{Db}
use adehun_api.Errors.{Error}
use adehun_api.Session.{
  Session, Result, ok, err, Action, query, or_raise, continue, ◌>>=◌, handle, try_except, raise_if,
}
use adehun_api.Session.Keeps.{Keeps, handle-keeps}
use adehun_api.Session.Refuses.{Reads}

pub record Leads {A : Type 0} (Q P : Session → Type 0) (m : Action A) : Type 0 where
  pub at : (s : Session) → Q s → P (m s).1

-- `Q` says at least what `P` says.
abbrev pub Implies : (Session → Type 0) → (Session → Type 0) → Type 0
Implies Q P = (s : Session) → Q s → P s

pub Reads-Keeps : {A : Type 0} {P : Session → Type 0} (m : Action A) → Reads m → Keeps P m
Reads-Keeps m reads = record {
  at = λ s p. elim (reads.at s) [ inl (a, done) ↦ rw done p | inr (e, failed) ↦ rw failed p ];
}

pub Keeps-Leads : {A : Type 0} {P : Session → Type 0} (m : Action A) → Leads P P m → Keeps P m
Keeps-Leads m leads = record { at = leads.at }

module _ {A : Type 0} {Q P : Session → Type 0} where
  pub Leads-Keeps : (m : Action A) → Implies Q P → Keeps Q m → Leads Q P m
  Leads-Keeps m weaken keeps = record { at = λ s q. weaken _ (keeps.at s q) }

  pub Leads-from : {R : Session → Type 0} (m : Action A) → Implies R Q → Leads Q P m → Leads R P m
  Leads-from m more leads = record { at = λ s r. leads.at s (more s r) }

  pub Leads-if :
      (b : Bool) (m n : Action A)
      → (b ≡ true → Leads Q P m)
      → (b ≡ false → Leads Q P n)
      → Leads Q P (if b then m else n)
  Leads-if true m n lm ln = lm refl
  Leads-if false m n lm ln = ln refl

  handle-leads :
      (r : Result A) (h : Error → Action A) (s : Session)
      → Implies Q P
      → ((e : Error) → Leads Q P (h e))
      → Q s
      → P (handle r h s).1
  handle-leads (ok a) h s weaken lh q = weaken s q
  handle-leads (err e) h s weaken lh q = (lh e).at s q

  pub Leads-try_except :
      (m : Action A) (h : Error → Action A)
      → Implies Q P
      → Keeps Q m
      → ((e : Error) → Leads Q P (h e))
      → Leads Q P (try_except m h)
  unfolding try_except
  Leads-try_except m h weaken km lh = record {
    at = λ s q. let (r, t) = m s in handle-leads r h t weaken lh (km.at s q);
  }

  -- A handler that keeps what the block leads to.
  pub Leads-try :
      (m : Action A) (h : Error → Action A)
      → Leads Q P m
      → ((e : Error) → Keeps P (h e))
      → Leads Q P (try_except m h)
  unfolding try_except
  Leads-try m h lm kh = record { at = λ s q. let (r, t) = m s in handle-keeps r h t kh (lm.at s q) }

module _ {A B : Type 0} {Q P : Session → Type 0} where
  continue-leads :
      (r : Result A) (f : A → Action B) (s : Session)
      → Implies Q P
      → ((a : A) → Leads Q P (f a))
      → Q s
      → P (continue r f s).1
  continue-leads (ok a) f s weaken lf q = (lf a).at s q
  continue-leads (err e) f s weaken lf q = weaken s q

  pub Leads-bind :
      (m : Action A) (f : A → Action B)
      → Implies Q P
      → Keeps Q m
      → ((a : A) → Leads Q P (f a))
      → Leads Q P (m >>= f)
  unfolding ◌>>=◌
  Leads-bind m f weaken km lf = record {
    at = λ s q. let (r, t) = m s in continue-leads r f t weaken lf (km.at s q);
  }

  -- Once the first action has led to `P`, the second keeps it.
  pub Leads-then :
      (m : Action A) (f : A → Action B)
      → Leads Q P m
      → ((a : A) → Keeps P (f a))
      → Leads Q P (m >>= f)
  unfolding ◌>>=◌
  Leads-then m f lm kf = record { at = λ s q. let (r, t) = m s in went r t (lm.at s q) }
    where
      went : (r : Result A) (t : Session) → P t → P (continue r f t).1
      went (ok a) t p = (kf a).at t p
      went (err e) t p = p

  -- What a query returned is known in what follows.
  pub Leads-query :
      (g : Db → A) (f : A → Action B)
      → ((a : A) → Leads (λ s. Q s × (g s.working ≡ a)) P (f a))
      → Leads Q P (query g >>= f)
  unfolding ◌>>=◌
  Leads-query g f lf = record { at = λ s q. (lf (g s.working)).at s (q, refl) }

  pub Leads-or_raise :
      (e : Error) (o : Option A) (f : A → Action B)
      → Implies Q P
      → ((a : A) → o ≡ some a → Leads Q P (f a))
      → Leads Q P (or_raise e o >>= f)
  unfolding ◌>>=◌
  Leads-or_raise e none f weaken lf = record { at = λ s q. weaken s q }
  Leads-or_raise e (some a) f weaken lf = record { at = λ s q. (lf a refl).at s q }

module _ {B : Type 0} {Q P : Session → Type 0} where
  pub Leads-raise_if :
      (b : Bool) (e : Error) (f : Unit {0} → Action B)
      → Implies Q P
      → (b ≡ false → Leads Q P (f tt))
      → Leads Q P (raise_if b e >>= f)
  unfolding ◌>>=◌
  Leads-raise_if true e f weaken lf = record { at = λ s q. weaken s q }
  Leads-raise_if false e f weaken lf = record { at = λ s q. (lf refl).at s q }
