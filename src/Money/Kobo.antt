-- ===== src/Money/Kobo.antt =====
-- Amounts in kobo: what `to_kobo` does to the amounts that the ledger accepts.
use adehun_api.Prelude.{ℕ, ◌≡◌, true, false, arith}
use adehun_api.Money.{Decimal, quantize, is_two_places}

-- An amount of `n` kobo, as `(Decimal(n) / 100).quantize(Decimal("0.01"))` builds it.
abbrev pub of_kobo : ℕ → Decimal
of_kobo n = record { negative = false; coefficient = n; places = 2 }

pub quantize-of_kobo : (n : ℕ) → quantize (of_kobo n) ≡ n
unfolding quantize
quantize-of_kobo n = omega arith

pub of_kobo_two_places : (n : ℕ) → is_two_places (of_kobo n) ≡ true
unfolding is_two_places quantize
of_kobo_two_places n = ground arith
