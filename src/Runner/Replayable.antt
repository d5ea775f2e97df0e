-- ===== src/Runner/Replayable.antt =====
-- crates/beater-agent/src/runner.rs: what a call that may be run again has in common with its record.
use temp_js.Prelude.{
  Str, pos, leb_ℤ, eq_ℤ, eq_ℤ_iff, Bool, true, false, ◌&&◌, ◌≡◌, ◌≢◌, ◌↔◌, ◌⊎◌, refl, sym, ap, ap₂,
  ◌∙◌, subst, inl, inr, Option, none, some, List, [], ◌∷◌, ==_iff, All, str_eq, str_eq_iff, select,
  arith, Bool-cases, Option-cases, if◌then◌else◌,
}
use temp_js.Journal.Model.{Value}
use temp_js.Journal.Serde.{Serde}
use temp_js.Journal.Steps.{StepRow}
use temp_js.Resume.Contract.{ToolResumeContract, is_valid}
use temp_js.Runner.Json.{index, as_str, is_text}
use temp_js.Runner.Replay.{
  ContractSerde, tool_idempotency_key, same, contract_eq, is_call, max_i64, same_request,
  same_contract, step_matches, all_match, usable, replay_with,
  tool_replay_matches_recorded_contract,
}

same_iff : (a b : Bool) → (same a b ≡ true) ↔ (a ≡ b)
same_iff true true = ground arith
same_iff true false = ground arith
same_iff false true = ground arith
same_iff false false = ground arith

contract_eq_iff : (a b : ToolResumeContract) → (contract_eq a b ≡ true) ↔ (a ≡ b)
unfolding contract_eq
contract_eq_iff a b = ground (
  arith,
  ==_iff a.version b.version,
  str_eq_iff a.name b.name,
  same_iff a.idempotent b.idempotent,
  str_eq_iff a.fingerprint b.fingerprint,
)

and_true : {a b : Bool} → a ≡ true → b ≡ true → a && b ≡ true
and_true h k = rw (h, k)

if_both : (b x : Bool) → (if b then x else false) ≡ true → (b ≡ true) × (x ≡ true)
if_both true x e = (refl, e)
if_both false x e = cc

is_text_iff : (s : Str) (o : Option Str) → (is_text s o ≡ true) ↔ (o ≡ some s)
is_text_iff s none = ground arith
is_text_iff s (some t) = ground (arith, str_eq_iff t s)

module _ ⦃serde : Serde⦄ (contracts : ContractSerde) where
  open serde use {value_eq}

  -- A step that recorded this very call, under this very contract.
  pub record IsRecorded (name tool_use_id : Str) (input : Value) (key : Str)
      (contract : ToolResumeContract) (step : StepRow) : Type 0 where
    pub tool_name : step.tool_name ≡ some name
    pub name_sent : as_str (index step.request "name") ≡ some name
    pub id_sent : as_str (index step.request "tool_use_id") ≡ some tool_use_id
    pub input_sent : value_eq (index step.request "input") input ≡ true
    pub key_sent : as_str (index step.request "idempotency_key") ≡ some key
    pub attempt_positive : leb_ℤ step.attempt (pos 0) ≡ false
    pub attempt_can_grow : step.attempt ≢ max_i64
    pub contract_sent :
        contracts.read_contract (index step.request "resume_contract") ≡ some contract

  module _ (name tool_use_id : Str) (input : Value) (key : Str) (contract : ToolResumeContract)
      (valid : is_valid contract ≡ true) (idempotent : contract.idempotent ≡ true) where
    same_contract_iff :
        (read : Option ToolResumeContract)
        → (same_contract contract read ≡ true) ↔ (read ≡ some contract)
    unfolding same_contract
    same_contract_iff none = ground arith
    same_contract_iff (some recorded) = (
      (λ e. ap some ((contract_eq_iff recorded contract).0 (ground arith))),
      (λ e.
          let own : recorded ≡ contract = cc e in
          let equal : contract_eq recorded contract ≡ true =
            (contract_eq_iff recorded contract).1 own in
          let good : is_valid recorded ≡ true = ap is_valid own ∙ valid in
          let again : recorded.idempotent ≡ true = ap (λ c. c.idempotent) own ∙ idempotent in
          and_true (and_true good again) equal),
    )

    step_matches_sound :
        (step : StepRow)
        → step_matches contracts name tool_use_id input key contract step ≡ true
        → IsRecorded name tool_use_id input key contract step
    unfolding step_matches same_request
    step_matches_sound step e = record {
      tool_name = (is_text_iff _ _).0 (ground arith);
      name_sent = (is_text_iff _ _).0 (ground arith);
      id_sent = (is_text_iff _ _).0 (ground arith);
      input_sent = ground arith;
      key_sent = (is_text_iff _ _).0 (ground arith);
      attempt_positive = ground arith;
      attempt_can_grow = λ e'. ground (arith, (eq_ℤ_iff step.attempt max_i64).1 e');
      contract_sent = (same_contract_iff _).0 (ground arith);
    }

    step_matches_complete :
        (step : StepRow)
        → IsRecorded name tool_use_id input key contract step
        → step_matches contracts name tool_use_id input key contract step ≡ true
    unfolding step_matches same_request
    step_matches_complete step r =
        let grows : eq_ℤ step.attempt max_i64 ≡ false =
          elim (Bool-cases (eq_ℤ step.attempt max_i64)) [
            | inl e ↦ absurd (r.attempt_can_grow ((eq_ℤ_iff step.attempt max_i64).0 e))
            | inr e ↦ e
          ] in
        rw (
          r.attempt_positive,
          grows,
          r.input_sent,
          (is_text_iff name step.tool_name).1 r.tool_name,
          (is_text_iff name (as_str (index step.request "name"))).1 r.name_sent,
          (is_text_iff tool_use_id (as_str (index step.request "tool_use_id"))).1 r.id_sent,
          (is_text_iff key (as_str (index step.request "idempotency_key"))).1 r.key_sent,
          (same_contract_iff (contracts.read_contract (index step.request "resume_contract"))).1
              r.contract_sent,
        )

    abbrev matching : Bool → List StepRow → Bool
    matching = all_match contracts name tool_use_id input key contract

    all_match_sound :
        (found : Bool) (steps : List StepRow)
        → matching found steps ≡ true
        → All (IsRecorded name tool_use_id input key contract) steps
    unfolding all_match
    all_match_sound found [] e = tt
    all_match_sound found (step ∷ steps) e =
        let (here, rest) =
          if_both (step_matches contracts name tool_use_id input key contract step)
            (matching true steps) e in
        (step_matches_sound step here, all_match_sound true steps rest)

    all_match_found : (steps : List StepRow) → matching false steps ≡ true → ¬ (steps ≡ [])
    unfolding all_match
    all_match_found [] e h = cc
    all_match_found (step ∷ steps) e h = cc

    all_match_complete :
        (found : Bool) (steps : List StepRow)
        → (found ≡ true) ⊎ (¬ (steps ≡ []))
        → All (IsRecorded name tool_use_id input key contract) steps
        → matching found steps ≡ true
    unfolding all_match
    all_match_complete found [] (inl e) h = e
    all_match_complete found [] (inr n) h = absurd (n refl)
    all_match_complete found (step ∷ steps) some_found h =
        rw (step_matches_complete step h.0) (all_match_complete true steps (inl refl) h.1)

  -- What a call must have in common with its record to be run again.
  pub record IsReplayable (run_id name tool_use_id : Str) (input : Value) (steps : List StepRow)
      (current : Option ToolResumeContract) : Type 0 where
    pub contract : ToolResumeContract
    pub declared : current ≡ some contract
    pub valid : is_valid contract ≡ true
    pub idempotent : contract.idempotent ≡ true
    pub named : contract.name ≡ name
    pub key : Str
    pub keyed : tool_idempotency_key run_id tool_use_id ≡ some key
    pub tried : ¬ (select (is_call tool_use_id) steps ≡ [])
    pub recorded :
        All (IsRecorded name tool_use_id input key contract) (select (is_call tool_use_id) steps)

  usable_sound :
      (name : Str) (current : Option ToolResumeContract) (contract : ToolResumeContract)
      → usable name current ≡ some contract
      → (current ≡ some contract)
        × (is_valid contract ≡ true)
        × (contract.idempotent ≡ true)
        × (contract.name ≡ name)
  unfolding usable
  usable_sound name none contract e = absurd (cc e)
  usable_sound name (some value) contract e =
      elim (Bool-cases (is_valid value && value.idempotent && str_eq value.name name)) [
        | inr refused ↦ absurd (ground arith)
        | inl fine ↦
            let same : value ≡ contract = ground arith in
            subst
              (λ c.
                (some value ≡ some c)
                × (is_valid c ≡ true)
                × (c.idempotent ≡ true)
                × (c.name ≡ name))
              same (refl, ground arith, ground arith, (str_eq_iff value.name name).0 (ground arith))
      ]

  usable_complete :
      (name : Str) (contract : ToolResumeContract)
      → is_valid contract ≡ true
      → contract.idempotent ≡ true
      → contract.name ≡ name
      → usable name (some contract) ≡ some contract
  unfolding usable
  usable_complete name contract valid idempotent named =
      let same_name : str_eq contract.name name ≡ true = (str_eq_iff contract.name name).1 named in
      rw (valid, idempotent, same_name)

  module _ (run_id name tool_use_id : Str) (input : Value) (steps : List StepRow)
      (current : Option ToolResumeContract) where
    abbrev matches : Bool
    matches =
        tool_replay_matches_recorded_contract contracts run_id name tool_use_id input steps current

    matches_lem :
        (u : Option ToolResumeContract) (k : Option Str)
        → usable name current ≡ u
        → tool_idempotency_key run_id tool_use_id ≡ k
        → matches ≡ replay_with contracts name tool_use_id input steps u k
    unfolding tool_replay_matches_recorded_contract
    matches_lem u k e f = ap₂ (replay_with contracts name tool_use_id input steps) e f

    replay_sound : matches ≡ true → IsReplayable run_id name tool_use_id input steps current
    replay_sound e = elim (Option-cases (usable name current)) [
      | inl unusable ↦ absurd (cc (sym (matches_lem _ _ unusable refl) ∙ e))
      | inr (contract, usable_now) ↦ elim (Option-cases (tool_idempotency_key run_id tool_use_id)) [
        | inl no_key ↦ absurd (cc (sym (matches_lem _ _ usable_now no_key) ∙ e))
        | inr (key, keyed) ↦
            let (declared, valid, idempotent, named) =
              usable_sound name current contract usable_now in
            let found : all_match contracts name tool_use_id input key contract false
                  (select (is_call tool_use_id) steps)
                ≡ true =
              sym (matches_lem _ _ usable_now keyed) ∙ e in
            record {
              contract = contract;
              declared = declared;
              valid = valid;
              idempotent = idempotent;
              named = named;
              key = key;
              keyed = keyed;
              tried = all_match_found name tool_use_id input key contract valid idempotent _ found;
              recorded =
                  all_match_sound name tool_use_id input key contract valid idempotent false _
                    found;
            }
      ]
    ]

    replay_complete : IsReplayable run_id name tool_use_id input steps current → matches ≡ true
    replay_complete r =
        let usable_now : usable name current ≡ some r.contract =
          ap (usable name) r.declared
          ∙ usable_complete name r.contract r.valid r.idempotent r.named in
        matches_lem _ _ usable_now r.keyed
        ∙ (all_match_complete name tool_use_id input r.key r.contract r.valid r.idempotent false _
            (inr r.tried) r.recorded)

    -- A tool call may be run again exactly if its current declaration is valid, idempotent and of its
    -- name, it has an id, it was tried before, and every recorded step of its id is this call, with
    -- this name, id, input and idempotency key, under this same declaration, at an attempt that can be
    -- counted up.
    pub tool_replay_matches_iff :
        (matches ≡ true) ↔ IsReplayable run_id name tool_use_id input steps current
    tool_replay_matches_iff = (replay_sound, replay_complete)
