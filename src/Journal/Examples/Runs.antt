-- ===== src/Journal/Examples/Runs.antt =====
-- The theorems on runs and steps at concrete databases.
use temp_js.Prelude.{lit, pos, str_eq, ◌≡◌, refl, none, some, List, [], ◌∷◌, ◌++◌, suc, find}
use temp_js.Result.{ok}
use temp_js.Journal.Model.{null, needs_review}
use temp_js.Journal.Store
use temp_js.Journal.Store.{other, RunEntry, Db, empty_db, is_run}
use temp_js.Journal.Runs
use temp_js.Journal.Runs.{gate_goal_run, set_status, require_current_goal_run_in_tx}
use temp_js.Journal.Gate.{gate_goal_run_fails_closed}
use temp_js.Journal.Steps.{start_step, started, max_seq}
use temp_js.Journal.Steps.Order.{start_step-gated}
use temp_js.Journal.Session.{Call, creates_run, starts_step, appends_partial, perform_all}
use temp_js.Journal.Steps.Numbering.{Numbered, perform_all-Numbered}
use temp_js.Journal.Examples.Document.{document_serde}

abbrev calls : List Call
calls =
    creates_run (lit "r1") (lit "support") (lit "hi") (pos 1)
    ∷ starts_step (lit "r1") (lit "llm_call") null none none (pos 1) (pos 2)
    ∷ appends_partial (lit "r1") 1 (lit "delta") null (pos 3)
    ∷ starts_step (lit "r1") (lit "tool_call") null none none (pos 1) (pos 4)
    ∷ []

perform_all-Numbered_example : Numbered (perform_all empty_db calls)
perform_all-Numbered_example = perform_all-Numbered calls

-- A journal with a run whose column `goal_binding` has the given content.
abbrev with_run : Store.Cell → Db
with_run cell = record empty_db {
  runs = Runs.new_run (lit "run") (lit "agent") (lit "hi") (pos 1) cell ∷ [];
}

found_run :
    (cell : Store.Cell)
    → find (is_run (lit "run")) (with_run cell).runs
      ≡ some (Runs.new_run (lit "run") (lit "agent") (lit "hi") (pos 1) cell)
unfolding Store.is_run Runs.new_run lit str_eq
found_run cell = refl

gate_goal_run_fails_closed_example :
    gate_goal_run (lit "run") (pos 2) (with_run other)
    ≡ (ok needs_review, set_status (lit "run") (lit "needs_review") (pos 2) (with_run other))
unfolding Runs.new_run
gate_goal_run_fails_closed_example =
    gate_goal_run_fails_closed (lit "run") (pos 2) (with_run other)
      (Runs.new_run (lit "run") (lit "agent") (lit "hi") (pos 1) other) (found_run other)
      (λ e. cc e) (λ raw b e. absurd (cc e))

ungated : (require_current_goal_run_in_tx (lit "run") (pos 2) (with_run Store.null)).0 ≡ ok tt
unfolding Runs.require_current_goal_run_in_tx Runs.gate_goal_run_in_tx Runs.gate_of_cell
    Store.is_run Runs.new_run lit str_eq
ungated = refl

start_step-gated_example :
    start_step (lit "run") (lit "llm_call") null none none (pos 1) (pos 2) (with_run Store.null) ≡ (
      ok (suc (max_seq (lit "run") [])),
      record (with_run Store.null) {
        steps =
            (with_run Store.null).steps
            ++ started
                (lit "run")
                (suc (max_seq (lit "run") (with_run Store.null).steps))
                (lit "llm_call")
                null
                none
                none
                (pos 1)
                (pos 2)
              ∷ [];
      },
    )
unfolding Store.empty_db
start_step-gated_example =
    (start_step-gated (lit "run") (lit "llm_call") null none none (pos 1) (pos 2)
        (with_run Store.null)).0
      ungated
