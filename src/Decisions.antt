-- ===== src/Decisions.antt =====
-- Decisions and their reasons (apps/api/src/authz/domain/decision.ts) and the query that a decision
-- answers (authorization-query.ts). The reason codes are the string literals of the source.
use accesscore.Prelude.{List, Option, none, Text}
use accesscore.Refs.{OrgId, Action, EntityRef}

pub data Effect : Type 0 where
  permit deny : Effect

pub data ReasonCode : Type 0 where
  grant_direct grant_indexed_userset grant_userset grant_computed_userset grant_tuple_to_userset
        grant_intersection grant_exclusion grant_policy :
      ReasonCode
  org_mismatch unknown_action default_deny walk_truncated forbid_matched outside_org_guardrail
        outside_permission_boundary no_org_context consistency_unavailable :
      ReasonCode

pub record Reason : Type 0 where
  pub code : ReasonCode
  pub message : Text
  pub relation : Option Text
  pub path : Option (List Text)

pub record Decision : Type 0 where
  pub effect : Effect
  pub reasons : List Reason

-- `{ code, message }`
abbrev pub plain : ReasonCode → Text → Reason
plain code message = record { code = code; message = message; relation = none; path = none }

abbrev pub denied : List Reason → Decision
denied reasons = record { effect = deny; reasons = reasons }

abbrev pub permitted : List Reason → Decision
permitted reasons = record { effect = permit; reasons = reasons }

pub record AuthorizationQuery : Type 0 where
  pub org_id : OrgId
  pub subject_of : EntityRef
  pub action : Action
  pub resource : EntityRef
