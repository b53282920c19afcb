-- ===== src/Policies/Tests.antt =====
-- Runs of `decide` and `applyBounds` (policy/decide.ts, policy/boundary.ts).
use accesscore.Prelude.{◌≡◌, ◌↔◌, ◌⊎◌, [], ◌∷◌, none, some, All, Any, text}
use accesscore.Refs.{EntityRef}
use accesscore.Decisions.{permit, denied}
use accesscore.Addresses.{Host}
use accesscore.Conditions.{cmp, attr, lit, principal_aal, number_lit, op_ge}
use accesscore.Verdicts.{EvaluationContext}
use accesscore.Policies.{Policy, permits, decide, BoundaryTarget, Bounds}
use accesscore.Policies.Combined.{StandsAside, Grants, decide_iff}

abbrev dateless : Host
dateless = record { date_parse = λ s. none; number_of = λ s. none }

abbrev request : EvaluationContext
request = record { aal = 2; auth_time = none; ip = text "10.1.2.3"; now = 1000 }

abbrev allow_strong : Policy
allow_strong = record {
  id = text "p1";
  org_id = record { value = text "acme" };
  effect = permits;
  resource_type = text "doc";
  action = text "doc.read";
  condition = cmp op_ge (attr principal_aal) (lit (number_lit 2));
  revision = record { value = 1 };
}

decide_example : ((decide dateless request (denied []) (allow_strong ∷ [])).effect ≡ permit) ↔ (
    All (StandsAside dateless request) (allow_strong ∷ [])
    × (((denied []).effect ≡ permit) ⊎ Any (Grants dateless request) (allow_strong ∷ [])))
decide_example = decide_iff dateless request (denied []) (allow_strong ∷ [])

abbrev reading : BoundaryTarget
reading = record { resource_type = text "doc"; action = text "doc.read" }

abbrev ana : EntityRef
ana = record { type = text "user"; id = text "ana" }

abbrev only_docs : Bounds
only_docs = record {
  boundaries = record { subject_of = ana; allow = reading ∷ [] } ∷ [];
  guardrail = some (record { resource_type = text "doc"; action = text "*" } ∷ []);
}
