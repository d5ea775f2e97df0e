-- ===== src/Runner/Examples.antt =====
-- The theorems on the runner at a concrete run.
use temp_js.Prelude.{
  suc, ◌≤◌, Str, lit, pos, ◌≡◌, ◌↔◌, refl, sym, ap, true, Option, none, some, List, [], ◌∷◌, ◌++◌,
  All, length, str_eq, select, arith,
}
use temp_js.Result.{ok}
use temp_js.Journal.Model.{Value, boolean, null, string, object, array, nil, cons, end, field}
use temp_js.Journal.Store.{RunEntry, Db, empty_db, null}
use temp_js.Journal.Steps.{StepRow, max_seq}
use temp_js.Journal.Runs.{create_run, new_run, require_current_goal_run_in_tx}
use temp_js.Journal.Validate
use temp_js.Journal.Store
use temp_js.Journal.Runs
use temp_js.Resume.Contract
use temp_js.Resume.Contract.{ToolResumeContract}
use temp_js.Runner.Replay
use temp_js.Runner.Replay.{ContractSerde, is_call, tool_replay_matches_recorded_contract}
use temp_js.Runner.Agreement.{CallLaws, IsWritten, tool_request-replayable}
use temp_js.Runner.Replayable.{IsReplayable, tool_replay_matches_iff}
use temp_js.Runner.Act.{Execution, Outside, Registry, DecisionTools, World}
use temp_js.Runner.Tools.{tool_request, execute_tool_step}
use temp_js.Runner.Loop.{Config, agent_loop}
use temp_js.Runner.Resuming.{last_llm, rebuild}
use temp_js.Runner.Executes.{call_of}
use temp_js.Runner.Recovery.{IsRerun, rebuild-reruns}
use temp_js.Runner.Bounds.{agent_loop-bounded}
use temp_js.Runner.Recorded.{recorded, settled, execute_tool_step-recorded}
use temp_js.Journal.Examples.Document.{document_serde, document_laws}

abbrev contract : ToolResumeContract
contract = record {
  version = 1;
  name = lit "t";
  idempotent = true;
  fingerprint = lit "0123456789abcdef0123456789abcdef0123456789abcdef0123456789abcdef";
}

abbrev contracts : ContractSerde
contracts = record {
  write_contract = λ c. string (lit "c");
  read_contract = λ v. elim v [ string s ↦ some contract | _ ↦ none ];
}

abbrev outside : Outside
outside = record {
  time = pos;
  execute = λ calls call. ok (lit "done");
  respond = λ requests body.
      ([], ok (object (field (lit "stop_reason") (string (lit "pause_turn")) end)));
  error_text = λ e. lit "error";
}

abbrev registry : Registry
registry = record { api_tools = array nil; resume_contract = λ name. some contract }

abbrev decisions : DecisionTools
decisions = record {
  tool_definitions = nil;
  resume_contract = λ name. none;
  validate = λ name input. ok tt;
  work = λ name run_id tool_use_id input now db. (ok [], db);
}

abbrev config : Config
config = record { system = string []; model = lit "m" }

abbrev request : Value
request = object (
    field (lit "name") (string (lit "t")) (
      field (lit "tool_use_id") (string (lit "u")) (
        field (lit "input") (string (lit "in")) (
          field (lit "idempotency_key") (string (lit "beater:run:tool:u"))
            (field (lit "resume_contract") (string (lit "c")) end)))))

abbrev block : Value
block = object (
    field (lit "type") (string (lit "tool_use")) (
      field (lit "name") (string (lit "t"))
        (field (lit "id") (string (lit "u")) (field (lit "input") (string (lit "in")) end))))

abbrev step : Str → Option Value → StepRow
step status result = record {
  seq = 2;
  kind = lit "tool_call";
  status = status;
  request = request;
  result = result;
  tool_name = some (lit "t");
  tool_use_id = some (lit "u");
  attempt = pos 1;
}

abbrev asked : StepRow
asked = record {
  seq = 1;
  kind = lit "llm_call";
  status = lit "completed";
  request = object (field (lit "messages") (array nil) end);
  result = some (
      object (
        field (lit "stop_reason") (string (lit "tool_use"))
          (field (lit "content") (array (cons block nil)) end)));
  tool_name = none;
  tool_use_id = none;
  attempt = pos 1;
}

abbrev dangling : List StepRow
dangling = asked ∷ step (lit "started") none ∷ []

abbrev finished : List StepRow
finished =
    asked
    ∷ step (lit "completed") (some (object (field (lit "content") (string (lit "done")) end)))
    ∷ []

abbrev row : RunEntry
row = new_run (lit "run") (lit "agent") (lit "hi") (pos 1) null

abbrev world : World
world = record {
  journal = (create_run (lit "run") (lit "agent") (lit "hi") (pos 1) empty_db).1;
  executed = [];
  journals = [];
  requests = [];
  readings = 0;
}

tool_replay_matches_iff_example :
    (tool_replay_matches_recorded_contract contracts
        (lit "run")
        (lit "t")
        (lit "u")
        (string (lit "in"))
        dangling
        (some contract)
      ≡ true)
    ↔ IsReplayable contracts
        (lit "run")
        (lit "t")
        (lit "u")
        (string (lit "in"))
        dangling
        (some contract)
tool_replay_matches_iff_example =
    tool_replay_matches_iff contracts (lit "run") (lit "t") (lit "u") (string (lit "in")) dangling
      (some contract)

rebuild-reruns_example :
    (new : List Execution) × ((rebuild outside contracts registry decisions config
        (lit "run")
        row
        dangling
        (last_llm dangling)
        world).1.executed
      ≡ world.executed ++ new)
    × All (IsRerun outside contracts registry decisions config (lit "run") dangling) new
rebuild-reruns_example =
    rebuild-reruns outside contracts registry decisions config (lit "run") row dangling world

agent_loop-bounded_example :
    (new : List Value) × ((agent_loop outside contracts registry decisions config
        (lit "run")
        nil
        (pos 1)
        world).1.requests
      ≡ world.requests ++ new)
    × (length new ≤ 50)
agent_loop-bounded_example =
    agent_loop-bounded outside contracts registry decisions config (lit "run") nil (pos 1) world

valid : Contract.is_valid contract ≡ true
unfolding lit Contract.is_valid Validate.is_empty
valid = refl

passes : (require_current_goal_run_in_tx (lit "run") (pos 0) world.journal).0 ≡ ok tt
unfolding lit str_eq Runs.create_run Runs.insert_run Runs.new_run Runs.gate_goal_run_in_tx
    Runs.gate_of_cell Runs.settle Runs.require_current_goal_run_in_tx Store.is_run Store.insert
    Store.transaction Store.empty_db
passes = refl

execute_tool_step-recorded_example :
    execute_tool_step outside contracts registry decisions
      (lit "run")
      (lit "t")
      (lit "u")
      (string (lit "in"))
      (pos 1)
      world
    ≡ (
      ok (lit "done"),
      record world {
        journal =
            settled outside contracts registry decisions
              (lit "run")
              (lit "t")
              (lit "u")
              (string (lit "in"))
              (pos 1)
              (ok (lit "done"))
              (suc (max_seq (lit "run") world.journal.steps))
              (pos 1)
              (recorded outside contracts registry decisions
                (lit "run")
                (lit "t")
                (lit "u")
                (string (lit "in"))
                (pos 1)
                world);
        executed = [] ++ call_of (lit "run") (lit "t") (lit "u") (string (lit "in")) ∷ [];
        journals =
            []
            ++ recorded outside contracts registry decisions
                (lit "run")
                (lit "t")
                (lit "u")
                (string (lit "in"))
                (pos 1)
                world
              ∷ [];
        readings = 2;
      },
    )
execute_tool_step-recorded_example =
    execute_tool_step-recorded outside contracts registry decisions (lit "run") (lit "t") (lit "u")
      (string (lit "in")) (pos 1) refl valid world passes

-- The fields of a contract that `is_valid` leaves open.
abbrev faithful : ContractSerde
faithful = record {
  write_contract = λ c. object (field c.name (boolean c.idempotent) (field c.fingerprint null end));
  read_contract = λ v. elim v [
    | object fields ↦ elim fields [
      | field name idempotent rest ↦ elim idempotent [
        | boolean b ↦ elim rest [
          | field fingerprint other more ↦
              some (record { version = 1; name = name; idempotent = b; fingerprint = fingerprint })
          | end ↦ none
        ]
        | _ ↦ none
      ]
      | end ↦ none
    ]
    | _ ↦ none
  ];
}

faithful_laws : CallLaws faithful
unfolding Contract.is_valid
faithful_laws = record {
  value_eq_refl = document_laws.value_eq_refl;
  contract_round = λ c h.
      let first : c.version ≡ 1 = ground arith in
      ap (λ n. some (record c { version = n })) (sym first);
}

abbrev written : StepRow
written = record (step (lit "started") none) {
  request =
      tool_request faithful (lit "t") (string (lit "in")) (lit "u")
        (Replay.tool_idempotency_key (lit "run") (lit "u")) (some contract);
}

abbrev crashed : List StepRow
crashed = asked ∷ written ∷ []

one_call : select (is_call (lit "u")) crashed ≡ written ∷ []
unfolding lit str_eq Replay.is_call
one_call = refl

given : ¬ (lit "u" ≡ [])
unfolding lit
given e = cc e

recordings :
    All
      (IsWritten faithful (lit "run") (lit "t") (lit "u") (string (lit "in")) contract)
      (select (is_call (lit "u")) crashed)
unfolding Replay.max_i64
recordings = rw one_call (
    (
      record {
        tool_name = refl;
        request = refl;
        attempt_positive = refl;
        attempt_can_grow = λ e. ground arith;
      },
      tt,
    ))

tool_request-replayable_example :
    (tool_replay_matches_recorded_contract faithful
        (lit "run")
        (lit "t")
        (lit "u")
        (string (lit "in"))
        crashed
        (some contract)
      ≡ true)
    ↔ ((some contract ≡ some contract) × (contract.idempotent ≡ true) × (contract.name ≡ lit "t"))
tool_request-replayable_example =
    tool_request-replayable faithful (lit "run") (lit "t") (lit "u") (string (lit "in")) contract
      faithful_laws (some contract) crashed valid given (λ e. cc (e, one_call)) recordings
