-- ===== src/Tests/Web.antt =====
-- The handlers of deposits, withdrawals and markets, with integers for the floats.
use w16crypto_engine.Db.Withdrawals.{create_withdrawal, create_withdrawal_body}
use w16crypto_engine.Db.Users.{audit}
use w16crypto_engine.Db.Balances.{record_deposit}
use w16crypto_engine.Db.Idempotency.{
  claim_idempotency_key, find_key, complete_idempotency_key, completed,
}
use w16crypto_engine.Db.Balances.Funds.{funds}
use w16crypto_engine.Db.Withdrawals.Conservation.{accounted}
use w16crypto_engine.Http.Withdrawals.{request, approve_request, requested}
use w16crypto_engine.Db.State.{Db}
use w16crypto_engine.Db.Withdrawals.Backing.{IsBacked}
use w16crypto_engine.Common.Error.{ok}
use text.Mathlib.Text.{◌==◌ as str_eq}
use w16crypto_engine.Base.{
  if◌then◌else◌, ℤ, pos, leb_ℤ, ℕ, ◌≡◌, refl, true, false, none, some, pos_part, ◌+ℤ◌, ◌*◌, [], ◌+◌,
  ◌/◌, ◌∷◌, map, ◌-ℤ◌,
}
use w16crypto_engine.Db.Balances.{balance_fault}
use w16crypto_engine.Base.{◌+ℤ◌}
use w16crypto_engine.Tests.Fixture.{bank}
use w16crypto_engine.Tests.Money.{bank-IsBacked}
use w16crypto_engine.Http.{Web, AuthContext}
use w16crypto_engine.Http.Deposits.{
  Json, DepositRequest, DepositResponse, Arrival, deposit, response_of, check_deposit, keyed,
  perform,
}
use w16crypto_engine.Http.Deposits.Once.{deposit_once}
use w16crypto_engine.Http.Withdrawals.Safety.{HttpReach, HttpStep, HttpReach-safe}

-- Floats that are numbers of ten-thousandths.
abbrev pub whole : Web
whole = record {
  Float = ℤ;
  float_of = λ n. pos (n * 10000);
  is_le = leb_ℤ;
  mul = λ a b. pos (pos_part a * pos_part b / 10000);
  round = λ a. pos ((pos_part a + 5000) / 10000 * 10000);
  as_i64 = λ a. pos (pos_part a / 10000);
  parse_uuid = λ s. if str_eq s "1" then some 1 else none;
  trim = λ s. s;
  to_lowercase = λ s. s;
}

abbrev pub root : AuthContext
root = record { user_id = "1"; is_admin = true }

abbrev pub trader : AuthContext
trader = record { user_id = "1"; is_admin = false }

abbrev gift : DepositRequest ℤ
gift = record { user_id = 2; amount = pos 3; reference = "wire" }

abbrev receipt : DepositResponse
receipt = record { user_id = 2; amount = pos 3; reference = "wire" }

-- A store of this one answer.
abbrev one_answer : Json
one_answer = record { to_value = λ r. "{}"; from_value = λ v. some receipt }

abbrev arrival : ℕ → Arrival
arrival now = record { header_key = some "k"; fresh_key = "f"; row_id = 40; now = now }

made :
    (deposit whole one_answer root (arrival 60) gift bank).0
    ≡ ok (record { status = 201; body = receipt })
unfolding deposit check_deposit keyed perform claim_idempotency_key find_key record_deposit audit
    complete_idempotency_key completed balance_fault ◌+ℤ◌
made = refl

abbrev paid_in : Db
paid_in = (deposit whole one_answer root (arrival 60) gift bank).1

deposit_once_example :
    (receipt ≡ response_of whole one_answer gift)
    × (funds paid_in.balances ≡ funds bank.balances +ℤ pos 3)
    × (deposit whole one_answer root (arrival 90) gift paid_in
        ≡ (ok (record { status = 200; body = receipt }), paid_in))
deposit_once_example =
    deposit_once whole one_answer root (arrival 60) (arrival 90) gift bank paid_in refl refl made
      (λ u known. refl)

-- The trader asks for 200, and the administrator approves.
abbrev asked : Db
asked = (request whole trader 30 (pos 200) bank).1

abbrev paid_out_to_trader : Db
paid_out_to_trader = (approve_request whole root 30 90 asked).1

asked_for : map (λ e. e.0) asked.withdrawals ≡ 30 ∷ []
unfolding request requested create_withdrawal create_withdrawal_body balance_fault ◌-ℤ◌ ◌+ℤ◌ audit
asked_for = refl

HttpReach-safe_example :
    IsBacked paid_out_to_trader × (accounted paid_out_to_trader ≡ accounted bank)
HttpReach-safe_example = HttpReach-safe whole bank-IsBacked (
    HttpReach.then_next
      (HttpReach.then_next HttpReach.arrived (HttpStep.asking trader 30 (pos 200)))
      (HttpStep.approving root 30 90))
