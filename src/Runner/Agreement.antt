-- ===== src/Runner/Agreement.antt =====
-- crates/beater-agent/src/runner.rs: a tool call as it is recorded, and the test on the record.
use temp_js.Prelude.{
  Str, lit, pos, leb_ℤ, true, false, ◌≡◌, ◌≢◌, ◌↔◌, refl, sym, ap, ◌∙◌, subst, Option, some, List,
  [], ◌∷◌, ◌++◌, All, str_eq, select,
}
use temp_js.Journal.Model.{Value}
use temp_js.Journal.Serde.{Serde}
use temp_js.Journal.Steps.{StepRow}
use temp_js.Journal.Validate.{is_empty}
use temp_js.Resume.Contract.{ToolResumeContract, is_valid}
use temp_js.Runner.Json.{index, get_field, as_str}
use temp_js.Runner.Replay.{
  ContractSerde, tool_idempotency_key, is_call, max_i64, tool_replay_matches_recorded_contract,
}
use temp_js.Runner.Replayable.{IsRecorded, tool_replay_matches_iff}
use temp_js.Runner.Tools.{tool_request}

module _ ⦃serde : Serde⦄ (contracts : ContractSerde) where
  open serde use {value_eq}

  -- What is assumed of serde_json: a value equals itself, and a valid contract that was written reads
  -- back.
  pub record CallLaws : Type 0 where
    pub value_eq_refl : (v : Value) → value_eq v v ≡ true
    pub contract_round :
        (c : ToolResumeContract)
        → is_valid c ≡ true
        → contracts.read_contract (contracts.write_contract c) ≡ some c

  module _ (run_id name tool_use_id : Str) (input : Value) (recorded : ToolResumeContract) where
    -- A step that `start_journaled_tool_call_with_contract` wrote of this call under the declaration,
    -- as it reads back, at an attempt that can be counted up.
    pub record IsWritten (step : StepRow) : Type 0 where
      pub tool_name : step.tool_name ≡ some name
      pub request :
          step.request
          ≡ tool_request contracts name input tool_use_id
              (tool_idempotency_key run_id tool_use_id)
              (some recorded)
      pub attempt_positive : leb_ℤ step.attempt (pos 0) ≡ false
      pub attempt_can_grow : step.attempt ≢ max_i64

    abbrev key : Str
    key = lit "beater:" ++ run_id ++ lit ":tool:" ++ tool_use_id

    keyed : ¬ (tool_use_id ≡ []) → tool_idempotency_key run_id tool_use_id ≡ some key
    unfolding tool_idempotency_key is_empty
    keyed given = go tool_use_id given
      where
        go :
            (id : Str)
            → ¬ (id ≡ [])
            → tool_idempotency_key run_id id ≡ some (lit "beater:" ++ run_id ++ lit ":tool:" ++ id)
        go [] given = absurd (given refl)
        go (c ∷ id) given = refl

    abbrev Sent : Value → Type 0
    Sent request =
        (as_str (index request "name") ≡ some name)
        × (as_str (index request "tool_use_id") ≡ some tool_use_id)
        × (index request "input" ≡ input)
        × (as_str (index request "idempotency_key") ≡ some key)
        × (index request "resume_contract" ≡ contracts.write_contract recorded)

    tool_request-Sent :
        Sent (tool_request contracts name input tool_use_id (some key) (some recorded))
    unfolding tool_request index get_field lit str_eq
    tool_request-Sent = (refl, refl, refl, refl, refl)

    written-IsRecorded :
        CallLaws
        → is_valid recorded ≡ true
        → ¬ (tool_use_id ≡ [])
        → (step : StepRow) → IsWritten step
        → IsRecorded contracts name tool_use_id input key recorded step
    written-IsRecorded laws valid given step w =
        let sent : Sent step.request =
          subst Sent
            (sym (
              w.request
              ∙ ap (λ k. tool_request contracts name input tool_use_id k (some recorded))
                  (keyed given)))
            tool_request-Sent in
        record {
          tool_name = w.tool_name;
          name_sent = sent.0;
          id_sent = sent.1;
          input_sent = ap (λ v. value_eq v input) sent.2 ∙ laws.value_eq_refl input;
          key_sent = sent.3;
          attempt_positive = w.attempt_positive;
          attempt_can_grow = w.attempt_can_grow;
          contract_sent = ap contracts.read_contract sent.4 ∙ laws.contract_round recorded valid;
        }

    all_recorded :
        CallLaws
        → is_valid recorded ≡ true
        → ¬ (tool_use_id ≡ [])
        → (steps : List StepRow) → All IsWritten steps
        → All (IsRecorded contracts name tool_use_id input key recorded) steps
    all_recorded laws valid given [] h = tt
    all_recorded laws valid given (step ∷ steps) h =
        (written-IsRecorded laws valid given step h.0, all_recorded laws valid given steps h.1)

    -- Steps that record the call under two declarations record it under one.
    same_declaration :
        (key' : Str) (contract : ToolResumeContract) (steps : List StepRow)
        → ¬ (steps ≡ [])
        → All (IsRecorded contracts name tool_use_id input key recorded) steps
        → All (IsRecorded contracts name tool_use_id input key' contract) steps
        → contract ≡ recorded
    same_declaration key' contract [] tried h k = absurd (tried refl)
    same_declaration key' contract (step ∷ steps) tried h k =
        cc (h.0.contract_sent, k.0.contract_sent)

    -- A call of a tool that has an id and was tried before, each time recorded by the runner under one
    -- valid declaration, at an attempt that can be counted up: it may be run again exactly if the tool
    -- still has this declaration, which is of its name and says that the tool is idempotent. The
    -- recorded requests are assumed to read back as they were written.
    pub tool_request-replayable :
        (laws : CallLaws) (current : Option ToolResumeContract) (steps : List StepRow)
        → is_valid recorded ≡ true
        → ¬ (tool_use_id ≡ [])
        → ¬ (select (is_call tool_use_id) steps ≡ [])
        → All IsWritten (select (is_call tool_use_id) steps)
        → (tool_replay_matches_recorded_contract contracts run_id name tool_use_id input steps
              current
            ≡ true)
          ↔ ((current ≡ some recorded) × (recorded.idempotent ≡ true) × (recorded.name ≡ name))
    tool_request-replayable laws current steps valid given tried written =
        let iff = tool_replay_matches_iff contracts run_id name tool_use_id input steps current in
        let recordings = all_recorded laws valid given _ written in
        (
          λ e.
              let r = iff.0 e in
              let same = same_declaration r.key r.contract _ tried recordings r.recorded in
              (
                r.declared ∙ ap some same,
                ap (λ c. c.idempotent) (sym same) ∙ r.idempotent,
                ap (λ c. c.name) (sym same) ∙ r.named,
              ),
          λ (declared, idempotent, named). iff.1 (record {
            contract = recorded;
            declared = declared;
            valid = valid;
            idempotent = idempotent;
            named = named;
            key = key;
            keyed = keyed given;
            tried = tried;
            recorded = recordings;
          }),
        )
