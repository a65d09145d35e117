-- ===== src/Prelude/Lists.antt =====
-- Tables as lists of rows: the first row that passes a test, and the tests `any` and `all`.
use mathlib.Core.Path.{◌≡◌, refl}
use Prim.Native.Nat.{ℕ, zero, suc}
use mathlib.Core.Bool.{Bool, true, false}
use mathlib.Core.Option.{Option, none, some}
use mathlib.Core.List.{List, [], ◌∷◌}
use native.Mathlib.Omega.{arith}
use adehun_api.Prelude.Tests.{if◌then◌else◌}

module _ {ℓ} {A : Type ℓ} where
  -- `session.exec(select(T).where(p)).first()`
  abbrev pub find : (A → Bool) → List A → Option A
  find p [] = none
  find p (x ∷ xs) = if p x then some x else find p xs

  -- `list(session.exec(select(T).where(p)).all())`
  abbrev pub select_all : (A → Bool) → List A → List A
  select_all p [] = []
  select_all p (x ∷ xs) = if p x then x ∷ select_all p xs else select_all p xs

  abbrev pub any : (A → Bool) → List A → Bool
  any p [] = false
  any p (x ∷ xs) = if p x then true else any p xs

  abbrev pub all : (A → Bool) → List A → Bool
  all p [] = true
  all p (x ∷ xs) = if p x then all p xs else false

  abbrev pub length : List A → ℕ
  length [] = 0
  length (x ∷ xs) = suc (length xs)

  abbrev pub take : ℕ → List A → List A
  take zero xs = []
  take (suc n) [] = []
  take (suc n) (x ∷ xs) = x ∷ take n xs

  abbrev pub drop : ℕ → List A → List A
  drop zero xs = xs
  drop (suc n) [] = []
  drop (suc n) (x ∷ xs) = drop n xs

  -- An update of every row that passes a test.
  abbrev pub update_where : (A → Bool) → (A → A) → List A → List A
  update_where p f [] = []
  update_where p f (x ∷ xs) = (if p x then f x else x) ∷ update_where p f xs

  -- The row that `find` returns passes the test.
  pub find_holds : (p : A → Bool) (xs : List A) {y : A} → find p xs ≡ some y → p y ≡ true
  find_holds p [] h = cc
  find_holds p (x ∷ xs) {y} h = ground (arith, find_holds p xs {y = y})

  -- `find` finds nothing exactly where `any` is false.
  pub any-eq-false : (p : A → Bool) (xs : List A) → find p xs ≡ none → any p xs ≡ false
  any-eq-false p [] h = refl
  any-eq-false p (x ∷ xs) h = ground (arith, any-eq-false p xs)

  pub any-find :
      (p b : A → Bool) (xs : List A) {x : A} → find p xs ≡ some x → b x ≡ true → any b xs ≡ true
  any-find p b [] found holds = cc
  any-find p b (y ∷ ys) {x} found holds = ground (arith, any-find p b ys {x = x})

  pub find-update :
      (p : A → Bool) (f : A → A) (xs : List A) {x : A}
      → ((x : A) → p x ≡ true → p (f x) ≡ true)
      → find p xs ≡ some x
      → find p (update_where p f xs) ≡ some (f x)
  find-update p f [] keep h = cc
  find-update p f (y ∷ ys) {x} keep h = ground (arith, keep y, find-update p f ys {x = x} keep)

  -- An update that the test of `find` does not see.
  pub find-update_other :
      (p q : A → Bool) (f : A → A) (xs : List A) {x : A}
      → ((x : A) → p (f x) ≡ p x)
      → find p xs ≡ some x
      → q x ≡ true
      → find p (update_where q f xs) ≡ some (f x)
  find-update_other p q f [] keep h here = cc
  find-update_other p q f (y ∷ ys) {x} keep h here =
      ground (arith, keep y, find-update_other p q f ys {x = x} keep)

  pub find-update_none :
      (p : A → Bool) (f : A → A) (xs : List A)
      → find p xs ≡ none
      → find p (update_where p f xs) ≡ none
  find-update_none p f [] h = refl
  find-update_none p f (y ∷ ys) h = ground (arith, find-update_none p f ys)

  pub find-select_all :
      (p q : A → Bool) (xs : List A) {x : A}
      → find p xs ≡ some x
      → q x ≡ true
      → find p (select_all q xs) ≡ some x
  find-select_all p q [] h keep = cc
  find-select_all p q (y ∷ ys) {x} h keep = ground (arith, find-select_all p q ys {x = x})

  -- A row that is found is found after an update too, updated if the update reaches it.
  pub find-update_if :
      (p q : A → Bool) (f : A → A) (xs : List A) {x : A}
      → ((x : A) → p (f x) ≡ p x)
      → find p xs ≡ some x
      → find p (update_where q f xs) ≡ some (if q x then f x else x)
  find-update_if p q f [] keep h = cc
  find-update_if p q f (y ∷ ys) {x} keep h =
      ground (arith, keep y, find-update_if p q f ys {x = x} keep)

  pub find-update_other_none :
      (p q : A → Bool) (f : A → A) (xs : List A)
      → ((x : A) → p (f x) ≡ p x)
      → find p xs ≡ none
      → find p (update_where q f xs) ≡ none
  find-update_other_none p q f [] keep h = refl
  find-update_other_none p q f (y ∷ ys) keep h =
      ground (arith, keep y, find-update_other_none p q f ys keep)

  -- An update that a test does not see.
  pub any-update :
      (p q : A → Bool) (f : A → A) (xs : List A)
      → ((x : A) → p (f x) ≡ p x)
      → any p (update_where q f xs) ≡ any p xs
  any-update p q f [] keep = refl
  any-update p q f (y ∷ ys) keep = ground (arith, keep y, any-update p q f ys keep)

  pub all-update :
      (p q : A → Bool) (f : A → A) (xs : List A)
      → ((x : A) → p (f x) ≡ p x)
      → all p (update_where q f xs) ≡ all p xs
  all-update p q f [] keep = refl
  all-update p q f (y ∷ ys) keep = ground (arith, keep y, all-update p q f ys keep)

  pub all-find :
      (p q : A → Bool) (xs : List A) {x : A} → all p xs ≡ true → find q xs ≡ some x → p x ≡ true
  all-find p q [] h found = cc
  all-find p q (y ∷ ys) {x} h found = ground (arith, all-find p q ys {x = x})
