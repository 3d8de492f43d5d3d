-- ===== src/Engine/Flows.antt =====
-- Cash flows of the portfolio in the base currency, over the dates after `from` up to `to`.
use wealthboard.Base.{
  ℕ, Bool, true, false, not, ◌&&◌, ◌||◌, Option, none, some, ltb, leb, if◌then◌else◌, ℤ, pos, ◌+ℤ◌,
  ◌-ℤ◌, is_zero, Result, ok, ◌>>=◌, for_each,
}
use wealthboard.World.{
  TransactionType, opening_balance, deposit, withdrawal, interest, dividend, fee, liability_payment,
  liability_increase, transfer, AccountRecord, TxnRecord, PositionEventRecord,
}
use wealthboard.Engine.Ledgers.{Engine, txns, events}
use wealthboard.Engine.Lookup.{base, is_liability, convert}
use wealthboard.Engine.Totals.{Totals, totals_at}

pub data Flow : Type 0 where
  contribution outflow income charge internal growth : Flow

-- `flowKind`
unfoldable pub flow_kind : TransactionType → Bool → Flow
flow_kind opening_balance is_liability = if is_liability then outflow else contribution
flow_kind deposit _ = contribution
flow_kind withdrawal _ = outflow
flow_kind interest _ = income
flow_kind dividend _ = income
flow_kind fee _ = charge
flow_kind liability_payment _ = contribution
flow_kind liability_increase _ = outflow
flow_kind transfer _ = internal
flow_kind _ _ = growth

-- The variables of `flowsBetween`.
pub record FlowSums : Type 0 where
  pub contributions : ℤ
  pub withdrawals : ℤ
  pub incomes : ℤ
  pub fees : ℤ
  pub complete : Bool

abbrev pub no_flows : FlowSums
no_flows = record {
  contributions = pos 0;
  withdrawals = pos 0;
  incomes = pos 0;
  fees = pos 0;
  complete = true;
}

-- `add`
unfoldable pub add_flow : Flow → ℤ → FlowSums → FlowSums
add_flow contribution v s = record s { contributions = s.contributions +ℤ v }
add_flow outflow v s = record s { withdrawals = s.withdrawals +ℤ v }
add_flow income v s = record s { incomes = s.incomes +ℤ v }
add_flow charge v s = record s { fees = s.fees +ℤ v }
add_flow internal v s = s
add_flow growth v s = s

abbrev pub is_outside : ℕ → ℕ → ℕ → Bool
is_outside from to date = leb date from || ltb to date

abbrev pub is_counted : Flow → Bool
is_counted internal = false
is_counted growth = false
is_counted _ = true

abbrev pub add_known : Flow → FlowSums → Option ℤ → FlowSums
add_known kind s none = record s { complete = false }
add_known kind s (some v) = add_flow kind v s

-- One round of each of the two inner loops.
unfoldable pub add_txn_flow :
    Engine → ℕ → ℕ → AccountRecord → FlowSums → TxnRecord → Result FlowSums
add_txn_flow e from to a s t =
    if is_outside from to t.date || not (is_counted (flow_kind t.kind (is_liability e a)))
    then ok s
    else convert e t.amount_minor a.currency (base e) t.date >>= λ c.
        ok (add_known (flow_kind t.kind (is_liability e a)) s c)

unfoldable pub add_event_flow :
    Engine → ℕ → ℕ → AccountRecord → FlowSums → PositionEventRecord → Result FlowSums
add_event_flow e from to a s p =
    if is_outside from to p.date || is_zero p.fee_minor
    then ok s
    else convert e p.fee_minor a.currency (base e) p.date >>= λ c. ok (add_known charge s c)

unfoldable pub add_account_flows : Engine → ℕ → ℕ → FlowSums → AccountRecord → Result FlowSums
add_account_flows e from to s a =
    if not a.is_included_in_net_worth
    then ok s
    else for_each (add_txn_flow e from to a) s (txns e a.id) >>= λ s'.
        for_each (add_event_flow e from to a) s' (events e a.id)

pub record FlowsResult : Type 0 where
  pub start : ℤ
  pub end : ℤ
  pub contributions : ℤ
  pub withdrawals : ℤ
  pub incomes : ℤ
  pub fees : ℤ
  pub growth : ℤ
  pub complete : Bool

abbrev pub to_flows : FlowSums → Totals → Totals → FlowsResult
to_flows s start end = record {
  start = start.net_worth;
  end = end.net_worth;
  contributions = s.contributions;
  withdrawals = s.withdrawals;
  incomes = s.incomes;
  fees = s.fees;
  growth =
      end.net_worth -ℤ start.net_worth -ℤ s.contributions +ℤ s.withdrawals -ℤ s.incomes +ℤ s.fees;
  complete = s.complete && start.complete && end.complete;
}

-- `flowsBetween`
unfoldable pub flows_between : Engine → ℕ → ℕ → Result FlowsResult
flows_between e from to = do
  s ← for_each (add_account_flows e from to) no_flows e.world.accounts
  start ← totals_at e from
  end ← totals_at e to
  ok (to_flows s start end)
