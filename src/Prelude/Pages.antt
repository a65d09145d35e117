-- ===== src/Prelude/Pages.antt =====
-- What a SELECT makes of lists of rows: pages, as OFFSET and LIMIT cut them, and joins.
use Prim.Native.Nat.{ℕ, zero, suc, ◌+◌, ◌*◌, ◌≤◌}
use mathlib.Core.Path.{◌≡◌, refl, ap, sym, ◌∙◌}
use mathlib.Core.List.{List, [], ◌∷◌, ◌++◌}
use native.Mathlib.Omega.{arith}
use mathlib.Core.Bool.{Bool}
use adehun_api.Prelude.Lists.{select_all, take, drop, length}

module _ {ℓ} {A : Type ℓ} where
  abbrev pub page : ℕ → ℕ → List A → List A
  page skip limit xs = take limit (drop skip xs)

  -- What the first pages hold, one after the other.
  abbrev pub collected : (ℕ → List A) → ℕ → List A
  collected f zero = []
  collected f (suc n) = collected f n ++ f n

  take_nil : (n : ℕ) → take {A = A} n [] ≡ []
  take_nil zero = refl
  take_nil (suc n) = refl

  take-add : (n k : ℕ) (xs : List A) → take (n + k) xs ≡ take n xs ++ page n k xs
  take-add zero k xs = ap (λ m. take m xs) (ground arith)
  take-add (suc n) k [] = take_nil (suc n + k) ∙ sym (take_nil k)
  take-add (suc n) k (x ∷ xs) =
      ap (λ m. take m (x ∷ xs)) shifted ∙ ap (λ ys. x ∷ ys) (take-add n k xs)
    where
      shifted : suc n + k ≡ suc (n + k)
      shifted = ground arith

  take-length : (n : ℕ) (xs : List A) → length xs ≤ n → take n xs ≡ xs
  take-length zero [] h = refl
  take-length zero (x ∷ xs) h = ground arith
  take-length (suc n) [] h = refl
  take-length (suc n) (x ∷ xs) h = ap (λ ys. x ∷ ys) (take-length n xs (ground arith))

  collected-take : (k n : ℕ) (xs : List A) → collected (λ i. page (i * k) k xs) n ≡ take (n * k) xs
  collected-take k zero xs = ap (λ m. take m xs) none_yet
    where
      none_yet : 0 ≡ 0 * k
      none_yet = ground arith
  collected-take k (suc n) xs =
      ap (λ ys. ys ++ page (n * k) k xs) (collected-take k n xs)
      ∙ sym (take-add (n * k) k xs)
      ∙ ap (λ m. take m xs) one_more
    where
      one_more : n * k + k ≡ suc n * k
      one_more = ground arith

  -- As many pages as the length needs hold the whole list, in its order.
  pub collected-all :
      (k n : ℕ) (xs : List A) → length xs ≤ n * k → collected (λ i. page (i * k) k xs) n ≡ xs
  collected-all k n xs h = collected-take k n xs ∙ take-length (n * k) xs h

module _ {ℓ ℓ'} {A : Type ℓ} {B : Type ℓ'} where
  -- A row once for each of others.
  abbrev for_each : A → List B → List A
  for_each x [] = []
  for_each x (y ∷ ys) = x ∷ for_each x ys

  -- `select(A).join(B)`: each row once for each row on the other side that goes with it.
  abbrev pub inner_join : (A → B → Bool) → List B → List A → List A
  inner_join on ys [] = []
  inner_join on ys (x ∷ xs) = for_each x (select_all (on x) ys) ++ inner_join on ys xs
