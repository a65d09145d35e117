-- ===== src/LifeCycle.antt =====
-- The life of an agreement as a state machine: `AgreementStatus` of app/common/enums.py with the
-- moves that app/service/agreement_service.py and app/service/dispute_service.py mean to allow.
pub mod Orderly
pub mod Created
pub mod Sessions
pub mod Payouts
pub mod Guarded
pub mod Routes
pub mod Contested
pub mod Opened
pub mod Served
use adehun_api.Prelude.{◌≡◌, refl, ap, arith, true, false, Bool}
use adehun_api.Enums.{AgreementStatus, same_status}

pub data Step : AgreementStatus → AgreementStatus → Type 0 where
  accept : Step AgreementStatus.pending AgreementStatus.active
  withdraw : Step AgreementStatus.pending AgreementStatus.cancelled
  cancel : Step AgreementStatus.active AgreementStatus.cancelled
  contest : Step AgreementStatus.active AgreementStatus.disputed
  resume : Step AgreementStatus.disputed AgreementStatus.active
  pay_early : Step AgreementStatus.pending AgreementStatus.completed
  pay : Step AgreementStatus.active AgreementStatus.completed
  return_early : Step AgreementStatus.pending AgreementStatus.refunded
  return_active : Step AgreementStatus.active AgreementStatus.refunded
  return_disputed : Step AgreementStatus.disputed AgreementStatus.refunded
  return_cancelled : Step AgreementStatus.cancelled AgreementStatus.refunded

pub data Reaches (t : AgreementStatus) : AgreementStatus → Type 0 where
  here : Reaches t t
  next : {u v : AgreementStatus} → Reaches t u → Step u v → Reaches t v

pub Reaches-trans : {t u v : AgreementStatus} → Reaches t u → Reaches u v → Reaches t v
Reaches-trans r here = r
Reaches-trans r (next q st) = Reaches.next (Reaches-trans r q) st

-- The statuses that are left by no step.
abbrev pub is_final : AgreementStatus → Bool
is_final AgreementStatus.completed = true
is_final AgreementStatus.refunded = true
is_final _ = false

Step-not_final : {t u : AgreementStatus} → Step t u → is_final t ≡ false
Step-not_final Step.accept = refl
Step-not_final _ = refl

stuck : (t u v : AgreementStatus) → u ≡ t → is_final t ≡ true → is_final u ≡ false → v ≡ t
stuck t u v e h f = cc (ap is_final e)

pub Reaches-final : {t v : AgreementStatus} → Reaches t v → is_final t ≡ true → v ≡ t
Reaches-final here h = refl
Reaches-final {t} {v} (next {u} r st) h = stuck t u v (Reaches-final r h) h (Step-not_final st)

pub Reaches-Step : {t u : AgreementStatus} → Step t u → Reaches t u
Reaches-Step st = Reaches.next Reaches.here st

pub eq_of_same_status : (t u : AgreementStatus) → same_status t u ≡ true → t ≡ u
eq_of_same_status AgreementStatus.pending u h = ground arith
eq_of_same_status AgreementStatus.active u h = ground arith
eq_of_same_status AgreementStatus.disputed u h = ground arith
eq_of_same_status _ u h = ground arith
