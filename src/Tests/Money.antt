-- ===== src/Tests/Money.antt =====
-- Balances, withdrawals and settlements on the fixture.
use w16crypto_engine.Settlement.Payouts.{paid_total}
use w16crypto_engine.Db.Balances.Funds.{reserved_of, funds}
use w16crypto_engine.Db.Positions.{get_user_positions, position_rows, traders, net_position}
use w16crypto_engine.Db.Balances.{apply_fill_balances, balance_fault}
use w16crypto_engine.Settlement.Once.{settle_once, apply_settlement_payouts-pays}
use w16crypto_engine.Tests.Fixture.{bank, funded, rain}
use w16crypto_engine.Db.Markets.{get_market, apply_settlement_payouts, payouts_body, pay_all}
use w16crypto_engine.Common.Error.{err, ok}
use w16crypto_engine.Common.Types.{Outcome, MarketStatus}
use w16crypto_engine.Db.Balances.Transfer.{Settles, apply_fill_balances-Settles}
use w16crypto_engine.Db.Withdrawals.Backing.{IsBacked}
use w16crypto_engine.Db.Withdrawals.Pending.{AreAmounts, pending_of}
use w16crypto_engine.Db.Withdrawals.Conservation.{accounted, Reach-accounted}
use w16crypto_engine.Db.State.{Db, WithdrawalRow, WithdrawalStatus}
use w16crypto_engine.Db.Withdrawals.Finality.{Reach-final}
use w16crypto_engine.Db.Withdrawals.Lifecycle.{
  Reach, Reach-IsBacked, next, here, create, reject, approve,
}
use w16crypto_engine.Settlement.{SettlementSummary, payouts_of, settle, cannot_settle, sum_payouts}
use w16crypto_engine.Db.Withdrawals.{
  approve_withdrawal, create_withdrawal, reviewed_row, create_withdrawal_body, reject_withdrawal,
  pending_row, approve_withdrawal_body,
}
use w16crypto_engine.Base.{
  pos, ◌+ℤ◌, ◌-ℤ◌, ◌≤ℤ◌, lookup, ℕ, ◌≡◌, refl, ◌≢◌, some, [], ◌∷◌, arith, total, ℤ, insert, List,
}

pub bank-IsBacked : IsBacked bank
unfolding AreAmounts total
bank-IsBacked = record { amounts = tt; backed = λ u. backed u }
  where
    backed : (u : ℕ) → pending_of u bank.withdrawals ≤ℤ reserved_of u bank
    backed u = ground arith

-- User 1 asks for 300, and it is approved.
abbrev asked : Db
asked = (create_withdrawal 5 1 (pos 300) bank).1

abbrev paid : Db
paid = (approve_withdrawal 5 2 60 asked).1

life : Reach bank paid
life = next (next here (create 5 1 (pos 300))) (approve 5 2 60)

Reach-accounted_example : accounted paid ≡ accounted bank
Reach-accounted_example = Reach-accounted bank-IsBacked life

Reach-IsBacked_example : IsBacked paid
Reach-IsBacked_example = Reach-IsBacked bank-IsBacked life

abbrev approved_row : WithdrawalRow
approved_row = reviewed_row WithdrawalStatus.approved 2 60 (pending_row 1 (pos 300))

approved_there : lookup 5 paid.withdrawals ≡ some approved_row
unfolding create_withdrawal create_withdrawal_body approve_withdrawal approve_withdrawal_body
    balance_fault ◌-ℤ◌ ◌+ℤ◌
approved_there = refl

abbrev late : Db
late = (reject_withdrawal 5 2 90 paid).1

Reach-final_example : lookup 5 late.withdrawals ≡ some approved_row
Reach-final_example =
    Reach-final 5 approved_row (λ e. cc) approved_there (next here (reject 5 2 90))

not_pending :
    (w : WithdrawalRow) → lookup 5 paid.withdrawals ≡ some w → w.status ≢ WithdrawalStatus.pending
not_pending w h = λ p. ground (arith, approved_there)

apply_fill_balances-Settles_example :
    Settles bank 1 2 (pos 20) (apply_fill_balances 1 2 (pos 20) bank)
apply_fill_balances-Settles_example =
    apply_fill_balances-Settles 1 2 (pos 20) bank funded funded (ground arith) refl refl

-- A market that nobody has a position in.
abbrev quiet : Db
quiet = record bank { position_changes = [] }

abbrev summary : SettlementSummary
summary = record {
  market_id = 7;
  outcome = Outcome.yes_outcome;
  payouts = [];
  total_payout = pos 0;
}

settled_now : (settle 7 Outcome.yes_outcome 60 quiet).0 ≡ ok summary
unfolding settle get_market get_user_positions position_rows traders net_position payouts_of
    sum_payouts apply_settlement_payouts payouts_body pay_all balance_fault ◌+ℤ◌
settled_now = refl

abbrev resolved : Db
resolved = (settle 7 Outcome.yes_outcome 60 quiet).1

settle_once_example :
    settle 7 Outcome.no_outcome 90 resolved ≡ (err (cannot_settle MarketStatus.settled), resolved)
settle_once_example = settle_once 7 Outcome.yes_outcome Outcome.no_outcome 60 90 quiet settled_now

abbrev payouts : List (ℕ × ℤ)
payouts = (1, pos 100) ∷ (2, pos 30) ∷ []

paid_out : (apply_settlement_payouts 7 Outcome.yes_outcome 61 payouts bank).0 ≡ ok tt
unfolding apply_settlement_payouts payouts_body pay_all balance_fault ◌+ℤ◌
paid_out = refl

apply_settlement_payouts-pays_example :
    let after = (apply_settlement_payouts 7 Outcome.yes_outcome 61 payouts bank).1 in
    (after.markets
      ≡ insert 7
          (record rain {
            status = MarketStatus.settled;
            settled_at = some 61;
            outcome = some Outcome.yes_outcome;
          })
          bank.markets)
    × (funds after.balances ≡ funds bank.balances +ℤ paid_total payouts)
apply_settlement_payouts-pays_example =
    apply_settlement_payouts-pays 7 Outcome.yes_outcome 61 payouts bank rain refl paid_out
