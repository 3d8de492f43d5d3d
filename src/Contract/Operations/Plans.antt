-- ===== src/Contract/Operations/Plans.antt =====
-- web/src/api/schema.ts: the operations on goals.
use wealthboard.Base.{[], ◌∷◌}
use wealthboard.Contract.{Operation, text, number, list_of, required, optional, nil, ◌&◌}
use wealthboard.Contract.Schemas.Plans.{goal, goal_alert, goal_milestone, goal_scenarios}
use wealthboard.Contract.Schemas.Requests.{
  goal_milestone_create_request, goal_mutation_request, goal_mutation_result, goal_status_request,
  mutation_status_response, resource_id_response,
}
use wealthboard.Contract.Schemas.Values.{minor_units}
use wealthboard.Contract.Shared.{idempotency_key, mutation_csrf_token, problem_answer, resource_id}

abbrev pub list_goals : Operation
list_goals = record {
  name = "listGoals";
  query = nil;
  header = nil;
  path = nil;
  body = nil;
  answers =
      (record {
        status = 200;
        headers = nil;
        content = (required "application/json" (list_of goal) & nil);
      })
      ∷ problem_answer 401
      ∷ problem_answer 403
      ∷ [];
}

abbrev pub create_goal : Operation
create_goal = record {
  name = "createGoal";
  query = nil;
  header =
      (optional "X-CSRF-Token" mutation_csrf_token
        & optional "Idempotency-Key" idempotency_key
        & nil);
  path = nil;
  body = (required "application/json" goal_mutation_request & nil);
  answers =
      (record {
        status = 200;
        headers = nil;
        content = (required "application/json" goal_mutation_result & nil);
      })
      ∷ (record {
        status = 201;
        headers = nil;
        content = (required "application/json" goal_mutation_result & nil);
      })
      ∷ problem_answer 400
      ∷ problem_answer 401
      ∷ problem_answer 403
      ∷ problem_answer 404
      ∷ problem_answer 409
      ∷ problem_answer 422
      ∷ problem_answer 503
      ∷ [];
}

abbrev pub get_goal : Operation
get_goal = record {
  name = "getGoal";
  query = nil;
  header = nil;
  path = (required "id" resource_id & nil);
  body = nil;
  answers =
      (record { status = 200; headers = nil; content = (required "application/json" goal & nil) })
      ∷ problem_answer 401
      ∷ problem_answer 403
      ∷ problem_answer 404
      ∷ [];
}

abbrev pub update_goal : Operation
update_goal = record {
  name = "updateGoal";
  query = nil;
  header = (optional "X-CSRF-Token" mutation_csrf_token & nil);
  path = (required "id" resource_id & nil);
  body = (required "application/json" goal_mutation_request & nil);
  answers =
      (record {
        status = 200;
        headers = nil;
        content = (required "application/json" mutation_status_response & nil);
      })
      ∷ problem_answer 400
      ∷ problem_answer 401
      ∷ problem_answer 403
      ∷ problem_answer 404
      ∷ problem_answer 409
      ∷ problem_answer 422
      ∷ problem_answer 503
      ∷ [];
}

abbrev pub delete_goal : Operation
delete_goal = record {
  name = "deleteGoal";
  query = nil;
  header = (optional "X-CSRF-Token" mutation_csrf_token & nil);
  path = (required "id" resource_id & nil);
  body = nil;
  answers =
      (record { status = 204; headers = nil; content = nil })
      ∷ problem_answer 401
      ∷ problem_answer 403
      ∷ problem_answer 404
      ∷ problem_answer 503
      ∷ [];
}

abbrev pub calculate_goal_scenarios : Operation
calculate_goal_scenarios = record {
  name = "calculateGoalScenarios";
  query =
      (required "monthlyContributionMinor" minor_units & required "annualReturnBps" number & nil);
  header = nil;
  path = (required "id" resource_id & nil);
  body = nil;
  answers =
      (record {
        status = 200;
        headers = nil;
        content = (required "application/json" goal_scenarios & nil);
      })
      ∷ problem_answer 401
      ∷ problem_answer 403
      ∷ problem_answer 404
      ∷ problem_answer 422
      ∷ problem_answer 503
      ∷ [];
}

abbrev pub set_goal_status : Operation
set_goal_status = record {
  name = "setGoalStatus";
  query = nil;
  header = (optional "X-CSRF-Token" mutation_csrf_token & nil);
  path = (required "id" resource_id & nil);
  body = (required "application/json" goal_status_request & nil);
  answers =
      (record {
        status = 200;
        headers = nil;
        content = (required "application/json" mutation_status_response & nil);
      })
      ∷ problem_answer 400
      ∷ problem_answer 401
      ∷ problem_answer 403
      ∷ problem_answer 404
      ∷ problem_answer 422
      ∷ problem_answer 503
      ∷ [];
}

abbrev pub list_goal_milestones : Operation
list_goal_milestones = record {
  name = "listGoalMilestones";
  query = nil;
  header = nil;
  path = (required "id" resource_id & nil);
  body = nil;
  answers =
      (record {
        status = 200;
        headers = nil;
        content = (required "application/json" (list_of goal_milestone) & nil);
      })
      ∷ problem_answer 401
      ∷ problem_answer 403
      ∷ problem_answer 404
      ∷ [];
}

abbrev pub create_goal_milestone : Operation
create_goal_milestone = record {
  name = "createGoalMilestone";
  query = nil;
  header = (optional "X-CSRF-Token" mutation_csrf_token & nil);
  path = (required "id" resource_id & nil);
  body = (required "application/json" goal_milestone_create_request & nil);
  answers =
      (record {
        status = 201;
        headers = nil;
        content = (required "application/json" resource_id_response & nil);
      })
      ∷ problem_answer 400
      ∷ problem_answer 401
      ∷ problem_answer 403
      ∷ problem_answer 404
      ∷ problem_answer 409
      ∷ problem_answer 422
      ∷ problem_answer 503
      ∷ [];
}

abbrev pub delete_goal_milestone : Operation
delete_goal_milestone = record {
  name = "deleteGoalMilestone";
  query = nil;
  header = (optional "X-CSRF-Token" mutation_csrf_token & nil);
  path = (required "id" resource_id & required "milestoneId" text & nil);
  body = nil;
  answers =
      (record { status = 204; headers = nil; content = nil })
      ∷ problem_answer 401
      ∷ problem_answer 403
      ∷ problem_answer 404
      ∷ problem_answer 503
      ∷ [];
}

abbrev pub dismiss_goal_alert : Operation
dismiss_goal_alert = record {
  name = "dismissGoalAlert";
  query = nil;
  header = (optional "X-CSRF-Token" mutation_csrf_token & nil);
  path = (required "id" resource_id & nil);
  body = nil;
  answers =
      (record {
        status = 200;
        headers = nil;
        content = (required "application/json" mutation_status_response & nil);
      })
      ∷ problem_answer 401
      ∷ problem_answer 403
      ∷ problem_answer 404
      ∷ problem_answer 503
      ∷ [];
}

abbrev pub list_goal_alerts : Operation
list_goal_alerts = record {
  name = "listGoalAlerts";
  query = nil;
  header = nil;
  path = nil;
  body = nil;
  answers =
      (record {
        status = 200;
        headers = nil;
        content = (required "application/json" (list_of goal_alert) & nil);
      })
      ∷ problem_answer 401
      ∷ problem_answer 403
      ∷ [];
}
