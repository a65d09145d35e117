-- ===== src/Money.antt =====
-- `decimal.Decimal` as a sign, a coefficient and a number of places, and the rounding to two places
-- of app/repository/wallet_repository.py and app/service/wallet_service.py. Decimal's default
-- rounding is half-even.
pub mod Kobo
pub mod RoundTrip
use adehun_api.Prelude.{
  ℕ, ◌+◌, ◌-◌, ◌*◌, ◌/◌, ◌%◌, ◌^◌, Bool, not, ◌&&◌, ltb, leb, ◌==◌, if◌then◌else◌, ℤ, pos, ◌-ℤ◌,
  ltb_ℤ,
}

-- (-1)^negative * coefficient * 10^(-places)
pub record Decimal : Type 0 where
  pub negative : Bool
  pub coefficient : ℕ
  pub places : ℕ

-- The quotient, rounded half-even.
pub round_half_even : ℕ → ℕ → ℕ
round_half_even a m =
    if ltb (2 * (a % m)) m
    then a / m
    else if ltb m (2 * (a % m))
    then a / m + 1
    else a / m + a / m % 2

-- The coefficient of `amount.quantize(Decimal("0.01"))`: a number of kobo, without the sign.
unfoldable pub quantize : Decimal → ℕ
unfolding round_half_even
quantize d =
    if leb d.places 2
    then d.coefficient * 10 ^ (2 - d.places)
    else round_half_even d.coefficient (10 ^ (d.places - 2))

-- `not (amount <= 0)`
unfoldable pub is_positive : Decimal → Bool
is_positive d = not d.negative && ltb 0 d.coefficient

-- `amount == amount.quantize(_TWO_PLACES)`
unfoldable pub is_two_places : Decimal → Bool
unfolding quantize
is_two_places d = d.coefficient * 100 == quantize d * 10 ^ d.places

-- `to_kobo`: int(amount.quantize(Decimal("0.01")) * 100)
unfoldable pub to_kobo : Decimal → ℤ
unfolding quantize
to_kobo d = if d.negative then pos 0 -ℤ pos (quantize d) else pos (quantize d)

-- A Decimal as a number of units of 10^(-k), for `k` at least its places.
units : Decimal → ℕ → ℤ
units d k =
    let n = d.coefficient * 10 ^ (k - d.places) in if d.negative then pos 0 -ℤ pos n else pos n

-- `a < b`
unfoldable pub less : Decimal → Decimal → Bool
unfolding units
less a b = let k = a.places + b.places in ltb_ℤ (units a k) (units b k)
