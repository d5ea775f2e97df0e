-- ===== src/Journal/Examples/Data.antt =====
-- A goal, a correction and a milestone for the concrete journals.
use temp_js.Prelude.{Str, lit, pos, false, none, some, List, [], ◌∷◌}
use temp_js.Journal.Model.{number, GoalScope, Goal, GoalPatch, GoalMutation, Milestone}
use temp_js.Journal.Session.{Call, creates_goal}

abbrev pub scope : GoalScope
scope = record { organization = lit "o"; project = lit "p"; environment = lit "e"; site = lit "s" }

abbrev pub goal : Goal
goal = record {
  id = lit "g1";
  scope = scope;
  revision = pos 1;
  objective = lit "book";
  playbook = record {
    id = lit "pb";
    digest = lit "0123456789abcdef0123456789abcdef0123456789abcdef0123456789abcdef";
  };
  parameters = (lit "people", number (lit "2")) ∷ [];
}

abbrev pub mutation : Str → GoalMutation
mutation request = record { actor = lit "ann"; request_id = request; operation = lit "op" }

abbrev pub patch : GoalPatch
patch = record { objective = some (lit "cancel"); playbook = none; parameters = none }

abbrev pub before : List Call
before = creates_goal (mutation (lit "r1")) goal (pos 10) ∷ []

abbrev pub milestone : Milestone
milestone = record {
  id = lit "m1";
  preparation = lit "planned";
  evidence_references = [];
  parameter_dependencies = [];
  requires_refresh = false;
}
