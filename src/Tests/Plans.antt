-- ===== src/Tests/Plans.antt =====
-- The theorems on goals at a concrete goal.
use wealthboard.Base.{◌^◌, pos, ◌+ℤ◌, ◌*ℤ◌, ◌≤ℤ◌, ◌<ℤ◌, arith, int_laws}
use wealthboard.Goals.{project, required_monthly, minor_exp, grow}
use wealthboard.Goals.Growth.{project_mono}
use wealthboard.Goals.Required.{required_monthly-reaches, required_monthly-least}
use wealthboard.Tests.{house}
use wealthboard.Decimal.{rounded}

positive_rate : pos 0 ≤ℤ pos 120000 +ℤ pos 500
positive_rate = omega int_laws

project_mono_example :
    project (pos 100) (pos 5) (pos 500) 3 ≤ℤ project (pos 120) (pos 6) (pos 500) 3
project_mono_example =
    project_mono 3 (pos 100) (pos 120) (pos 5) (pos 6) (pos 500) positive_rate (omega arith)
      (omega arith)

required_monthly-reaches_example :
    house.target_minor
    ≤ℤ project (pos 20000) (required_monthly house (pos 20000) (pos 500) 12) (pos 500) 12
required_monthly-reaches_example =
    required_monthly-reaches house (pos 20000) (pos 500) 11 positive_rate (omega arith)

enough : house.target_minor ≤ℤ project (pos 20000) (pos 90000) (pos 500) 1
unfolding project grow rounded ◌*ℤ◌ ◌+ℤ◌
enough = omega arith

required_monthly-least_example :
    required_monthly house (pos 20000) (pos 500) 1
    <ℤ pos 90000 +ℤ pos (10 ^ minor_exp house.currency)
required_monthly-least_example =
    required_monthly-least house (pos 20000) (pos 500) (pos 90000) 0 positive_rate (omega arith)
      (omega arith) enough
