-- ===== src/Goals.antt =====
-- web/src/api/mock/engine.ts, the goals: current value, monthly plan, projection with monthly
-- compounding, the search for the monthly contribution that is needed, scenarios and milestones.
-- Division is by constants that are not zero, so `rounded` is what `divRound` returns.
pub mod Growth
pub mod Required
use wealthboard.Base.{
  ℕ, zero, suc, ◌+◌, ◌-◌, ◌*◌, ◌^◌, Bool, true, false, not, ◌&&◌, ◌||◌, Option, none, some, List,
  [], ◌∷◌, ltb, leb, ◌==◌, if◌then◌else◌, keep, find, sort_by, ℤ, pos, ◌+ℤ◌, ◌-ℤ◌, ◌*ℤ◌, leb_ℤ,
  ltb_ℤ, eqb_ℤ, is_zero, quot, magnitude, Text, codes, member, Result, ok, err, ◌>>=◌,
}
use wealthboard.Decimal.{rounded, percent_of}
use wealthboard.World.{
  GoalRecord, MilestoneRecord, Frequency, weekly, monthly, quarterly, annually, custom,
  AccountRecord,
}
use wealthboard.Engine.Ledgers.{Engine}
use wealthboard.Engine.Lookup.{account, convert}
use wealthboard.Engine.Values.{ValueResult, value_at}

-- What the engine uses of date-fns and of `Date`: the number of the month of a date, the first day
-- of its month, and the addition of months.
pub record Calendar : Type 0 where
  pub month_index : ℕ → ℕ
  pub start_of_month : ℕ → ℕ
  pub add_months : ℕ → ℕ → ℕ

pub record GoalValue : Type 0 where
  pub value : ℤ
  pub complete : Bool
  pub missing : List Text

abbrev pub manual_value : GoalRecord → GoalValue
manual_value g = record { value = g.manual_current_minor; complete = true; missing = [] }

abbrev pub linked_value : AccountRecord → ValueResult → Option ℤ → GoalValue
linked_value a v none = record { value = pos 0; complete = false; missing = a.currency ∷ [] }
linked_value a v (some c) = record {
  value = c;
  complete = v.complete;
  missing = v.missing_currencies;
}

-- `goalCurrent`
unfoldable pub goal_current : Engine → GoalRecord → Result GoalValue
goal_current e g = elim g.linked_account_id [
  | none ↦ ok (manual_value g)
  | some id ↦ elim (account e id) [
    | none ↦ ok (manual_value g)
    | some a ↦ do
      v ← value_at e a.id e.today
      c ← convert e v.value a.currency g.currency e.today
      ok (linked_value a v c)
  ]
]

-- `monthlyContribution`
unfoldable pub monthly_contribution : GoalRecord → ℤ
monthly_contribution g = elim g.frequency [
  | weekly ↦ rounded (g.planned_contribution_minor *ℤ pos 52) (pos 12)
  | quarterly ↦ rounded g.planned_contribution_minor (pos 3)
  | annually ↦ rounded g.planned_contribution_minor (pos 12)
  | monthly ↦ g.planned_contribution_minor
  | custom ↦ g.planned_contribution_minor
]

-- `monthsUntil`: never negative
unfoldable pub months_until : Calendar → Engine → ℕ → ℕ
months_until c e date = c.month_index date - c.month_index e.today

-- A month of compounding: the yearly rate is in basis points, so 120000 is twelve months of 100%.
unfoldable pub grow : ℤ → ℤ → ℤ → ℤ
grow v payment bps = rounded (v *ℤ (pos 120000 +ℤ bps)) (pos 120000) +ℤ payment

-- `project`
unfoldable pub project : ℤ → ℤ → ℤ → ℕ → ℤ
project v payment bps zero = v
project v payment bps (suc months) = project (grow v payment bps) payment bps months

-- The `while` of `requiredMonthly`: the interval shrinks in each round, so its first length is
-- enough fuel.
unfoldable pub bisect : ℕ → (ℤ → Bool) → ℤ → ℤ → ℤ
bisect zero enough lo hi = hi
bisect (suc fuel) enough lo hi =
    let mid = quot (lo +ℤ hi) 2 in
    let next = if enough mid then bisect fuel enough lo mid else bisect fuel enough mid hi in
    if leb_ℤ (hi -ℤ lo) (pos 1) then hi else next

-- The engine's own `minorExp`, which does not change the case of a code.
unfoldable pub minor_exp : Text → ℕ
minor_exp currency =
    if member currency (codes "BIF" ∷ codes "JPY" ∷ codes "RWF" ∷ codes "UGX" ∷ [])
    then 0
    else if member currency (codes "BHD" ∷ codes "KWD" ∷ codes "OMR" ∷ [])
    then 3
    else 2

-- `((hi + unit - 1n) / unit) * unit`
unfoldable pub round_up : ℤ → ℕ → ℤ
round_up hi unit = quot (hi +ℤ pos unit -ℤ pos 1) unit *ℤ pos unit

-- `requiredMonthly`, for a goal that is `n` months away
unfoldable pub required_monthly : GoalRecord → ℤ → ℤ → ℕ → ℤ
required_monthly g current bps n =
    let target = g.target_minor in
    let enough = λ (m : ℤ). leb_ℤ target (project current m bps n) in
    if n == 0
    then (if ltb_ℤ current target then target -ℤ current else pos 0)
    else if enough (pos 0)
    then pos 0
    else round_up (bisect (magnitude target) enough (pos 0) target) (10 ^ minor_exp g.currency)

-- The loop of `scenario` that looks for the month in which the target is met, among the months `i`
-- up to 600; `none` if it is in none of them.
unfoldable pub completion_month : ℕ → ℕ → ℤ → ℤ → ℤ → ℤ → Option ℕ
completion_month zero i v target payment bps = none
completion_month (suc rounds) i v target payment bps =
    let later = completion_month rounds (suc i) (grow v payment bps) target payment bps in
    if leb_ℤ target v then some i else if is_zero payment && is_zero bps then none else later

-- The last day of the month that is `i` months on, or today.
unfoldable pub completion_date : Calendar → Engine → Option ℕ → Option ℕ
completion_date c e none = none
completion_date c e (some zero) = some e.today
completion_date c e (some (suc i)) =
    some (c.add_months (c.start_of_month e.today) (suc (suc i)) - 1)

pub record GoalScenario : Type 0 where
  pub monthly_contribution_minor : ℤ
  pub annual_return_bps : ℤ
  pub projected_at_target_minor : ℤ
  pub projected_progress_percent : Text
  pub new_contributions_minor : ℤ
  pub estimated_growth_minor : ℤ
  pub estimated_completion : Option ℕ
  pub reaches_target : Bool

-- `scenario`
unfoldable pub scenario : Calendar → Engine → GoalRecord → ℤ → ℤ → ℤ → Result GoalScenario
scenario c e g current payment bps =
    let n = months_until c e g.target_date in
    let projected = project current payment bps n in
    let added = payment *ℤ pos n in
    percent_of projected g.target_minor 1 >>= λ percent. ok (record {
      monthly_contribution_minor = payment;
      annual_return_bps = bps;
      projected_at_target_minor = projected;
      projected_progress_percent = percent;
      new_contributions_minor = added;
      estimated_growth_minor = projected -ℤ current -ℤ added;
      estimated_completion =
          completion_date c e (completion_month 601 0 current g.target_minor payment bps);
      reaches_target = leb_ℤ g.target_minor projected;
    })

pub record GoalScenarios : Type 0 where
  pub saved_plan : GoalScenario
  pub required_pace : GoalScenario
  pub lower_return : GoalScenario

abbrev pub or_else {ℓ} : {A : Type ℓ} → Option A → A → A
or_else none d = d
or_else (some a) d = a

-- `Math.max(0, bps - 300)`
abbrev pub lower_bps : ℤ → ℤ
lower_bps bps = if leb_ℤ (bps -ℤ pos 300) (pos 0) then pos 0 else bps -ℤ pos 300

-- `goalScenarios`, with the overrides of the what-if panel
unfoldable pub goal_scenarios :
    Calendar → Engine → GoalRecord → Option ℤ → Option ℤ → Result GoalScenarios
goal_scenarios c e g override_monthly override_bps = do
  cur ← goal_current e g
  let payment = or_else override_monthly (monthly_contribution g)
  let bps = or_else override_bps g.assumed_annual_return_bps
  saved ← scenario c e g cur.value payment bps
  let needed = required_monthly g cur.value bps (months_until c e g.target_date)
  pace ← scenario c e g cur.value needed bps
  lower ← scenario c e g cur.value payment (lower_bps bps)
  ok (record { saved_plan = saved; required_pace = pace; lower_return = lower })

pub data MilestoneStatus : Type 0 where
  reached overdue upcoming : MilestoneStatus

pub record GoalMilestone : Type 0 where
  pub id : ℕ
  pub target_amount_minor : ℤ
  pub status : MilestoneStatus
  pub progress_percent : Text
  pub remaining_minor : Option ℤ

abbrev pub is_past : Option ℕ → ℕ → Bool
is_past none today = false
is_past (some d) today = ltb d today

-- One milestone of `milestones`, for the goal's current value
unfoldable pub milestone_of : ℕ → ℤ → MilestoneRecord → Result GoalMilestone
milestone_of today cur m =
    let is_reached = leb_ℤ m.target_minor cur in
    percent_of (if ltb_ℤ m.target_minor cur then m.target_minor else cur) m.target_minor 1
    >>= λ percent. ok (record {
      id = m.id;
      target_amount_minor = m.target_minor;
      status =
          if is_reached then reached else if is_past m.target_date today then overdue else upcoming;
      progress_percent = percent;
      remaining_minor = if is_reached then none else some (m.target_minor -ℤ cur);
    })
