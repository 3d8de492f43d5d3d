-- ===== src/Adapter/Goals.antt =====
-- The handlers of `goals` in adapter.ts that write, and `percentToBps` of lib/money.ts.
use wealthboard.Base.{
  ℕ, ◌+◌, ◌-◌, ◌==◌, ◌&&◌, ◌||◌, ltb, Bool, not, Option, none, some, [], ◌∷◌, ◌++◌, if◌then◌else◌,
  keep, any, find, length, replicate, ℤ, pos, neg, Text, codes, all_digits, digits_value, Result,
  ok, err, ◌>>=◌, ◌>>◌, throw_if, type_error, not_found,
}
use wealthboard.Decimal.{major_to_minor, before_dot, after_dot, starts_minus, strip_minus}
use wealthboard.World.{GoalRecord, GoalStatus, active, Frequency, monthly, MilestoneRecord, World}
use wealthboard.Engine.Ledgers.{Engine}
use wealthboard.Adapter.Entries.{Host, update_first, is_empty}
use wealthboard.Adapter.Accounts.{or_default, trim}

-- `s.replace('%', '')`: the first one only
unfoldable pub drop_percent : Text → Text
drop_percent [] = []
drop_percent (c ∷ s) = if c == 37 then s else c ∷ drop_percent s

-- All that is behind the first dot
unfoldable pub after_dot_all : Text → Text
after_dot_all [] = []
after_dot_all (c ∷ s) = if c == 46 then s else after_dot_all s

abbrev pub has_dot : Text → Bool
has_dot s = any (λ c. c == 46) s

-- `DECIMAL_RE.test(s)`: digits, and a dot with digits behind it or no dot, after an optional sign
unfoldable pub is_decimal : Text → Bool
is_decimal s =
    let body = strip_minus s in
    not (is_empty (before_dot body))
    && all_digits (before_dot body)
    && (not (has_dot body)
        || not (is_empty (after_dot_all body)) && all_digits (after_dot_all body))

-- `percentToBps`
unfoldable pub percent_to_bps : Text → Result ℤ
percent_to_bps input = do
  let cleaned = drop_percent (trim input)
  throw_if (not (is_decimal cleaned)) type_error
  let whole = before_dot (strip_minus cleaned)
  let frac = after_dot (strip_minus cleaned)
  throw_if (ltb 2 (length frac)) type_error
  let bps = pos (digits_value 0 (whole ++ frac ++ replicate (2 - length frac) 48))
  ok (if starts_minus cleaned then neg bps else bps)

pub record GoalBody : Type 0 where
  pub name : Text
  pub description : Option Text
  pub target_amount : Text
  pub current_amount : Option Text
  pub currency : Text
  pub target_date : ℕ
  pub linked_account_id : Option ℕ
  pub icon : Option Text
  pub status : Option GoalStatus
  pub priority : Option ℕ
  pub assumed_annual_return : Text
  pub planned_contribution : Text
  pub frequency : Option Frequency
  pub plan_start_date : ℕ
  pub plan_end_date : Option ℕ

-- `body.currentAmount ? majorToMinor(body.currentAmount, body.currency) : …`
abbrev pub read_current : Option Text → Text → ℤ → Result ℤ
read_current none currency default = ok default
read_current (some []) currency default = ok default
read_current (some (c ∷ s)) currency default = major_to_minor (c ∷ s) currency

abbrev pub new_goal : Host → GoalBody → ℕ → ℤ → ℤ → ℤ → ℤ → GoalRecord
new_goal h body count target current bps planned = record {
  id = h.random_id 0;
  name = trim body.name;
  description = body.description;
  target_minor = target;
  manual_current_minor = current;
  currency = body.currency;
  target_date = body.target_date;
  linked_account_id = body.linked_account_id;
  icon = or_default body.icon (codes "target");
  status = or_default body.status active;
  priority = or_default body.priority (count + 1);
  assumed_annual_return_bps = bps;
  planned_contribution_minor = planned;
  frequency = or_default body.frequency monthly;
  plan_start_date = body.plan_start_date;
  plan_end_date = body.plan_end_date;
}

-- `goals.create`
unfoldable pub create_goal : Host → GoalBody → Engine → Result World
create_goal h body e = do
  target ← major_to_minor body.target_amount body.currency
  current ← read_current body.current_amount body.currency (pos 0)
  bps ← percent_to_bps body.assumed_annual_return
  planned ← major_to_minor body.planned_contribution body.currency
  ok (record e.world {
    goals = e.world.goals ++ new_goal h body (length e.world.goals) target current bps planned ∷ [];
  })

-- The edit: priority, status, currency and the dates of the plan stay.
abbrev pub edit_goal : GoalBody → ℤ → ℤ → ℤ → ℤ → GoalRecord → GoalRecord
edit_goal body target current bps planned g = record g {
  name = trim body.name;
  description = body.description;
  target_minor = target;
  manual_current_minor = current;
  target_date = body.target_date;
  linked_account_id = body.linked_account_id;
  icon = or_default body.icon g.icon;
  assumed_annual_return_bps = bps;
  planned_contribution_minor = planned;
  frequency = or_default body.frequency g.frequency;
}

-- `goals.update`
unfoldable pub update_goal : ℕ → GoalBody → Engine → Result World
update_goal id body e = elim (find (λ g. g.id == id) e.world.goals) [
  | none ↦ err not_found
  | some g ↦ do
    target ← major_to_minor body.target_amount body.currency
    current ← read_current body.current_amount body.currency g.manual_current_minor
    bps ← percent_to_bps body.assumed_annual_return
    planned ← major_to_minor body.planned_contribution body.currency
    ok (record e.world {
      goals =
          update_first (λ x. x.id == id) (edit_goal body target current bps planned) e.world.goals;
    })
]

-- `goals.remove`: the milestones go with the goal.
unfoldable pub remove_goal : ℕ → Engine → Result World
remove_goal id e = ok (record e.world {
  goals = keep (λ g. not (g.id == id)) e.world.goals;
  milestones = keep (λ m. not (m.goal_id == id)) e.world.milestones;
})

abbrev pub with_status : GoalStatus → GoalRecord → GoalRecord
with_status status g = record g { status = status }

-- `goals.setStatus`
unfoldable pub set_goal_status : ℕ → GoalStatus → Engine → Result World
set_goal_status id status e = do
  throw_if (not (any (λ g. g.id == id) e.world.goals)) not_found
  ok (record e.world { goals = update_first (λ g. g.id == id) (with_status status) e.world.goals })

pub record MilestoneBody : Type 0 where
  pub name : Text
  pub target_amount : Text
  pub target_date : Option ℕ

abbrev pub new_milestone : Host → ℕ → MilestoneBody → ℤ → MilestoneRecord
new_milestone h goal_id body target = record {
  id = h.random_id 0;
  goal_id = goal_id;
  name = body.name;
  target_minor = target;
  target_date = body.target_date;
}

-- `goals.createMilestone`
unfoldable pub create_milestone : Host → ℕ → MilestoneBody → Engine → Result World
create_milestone h id body e = elim (find (λ g. g.id == id) e.world.goals) [
  | none ↦ err not_found
  | some g ↦ do
    target ← major_to_minor body.target_amount g.currency
    ok (record e.world { milestones = e.world.milestones ++ new_milestone h id body target ∷ [] })
]

-- `goals.removeMilestone`
unfoldable pub remove_milestone : ℕ → ℕ → Engine → Result World
remove_milestone id milestone_id e = ok (record e.world {
  milestones = keep (λ m. not (m.goal_id == id && m.id == milestone_id)) e.world.milestones;
})
