-- ===== src/Money/RoundTrip.antt =====
-- An amount that is asked for in kobo and paid in kobo: `to_kobo` of app/service/wallet_service.py and
-- the credit of app/service/paystack_webhook_service.py.
use adehun_api.Prelude.{◌*◌, ◌^◌, ◌≡◌, true, false, arith}
use adehun_api.Money.{Decimal, is_two_places, to_kobo}
use adehun_api.Webhook.{of_paid}

-- A non-negative amount with at most two decimal places that is asked for in kobo and paid in
-- full is credited as an equal amount.
pub of_paid-to_kobo :
    (d : Decimal)
    → d.negative ≡ false
    → is_two_places d ≡ true
    → (of_paid (to_kobo d)).coefficient * 10 ^ d.places
      ≡ d.coefficient * 10 ^ (of_paid (to_kobo d)).places
unfolding is_two_places to_kobo
of_paid-to_kobo d positive places = rw positive (ground arith)
