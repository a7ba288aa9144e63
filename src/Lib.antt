-- ===== src/Lib.antt =====
-- AI-DAN Venture OS, the governance kernel: a verification library.
--
-- The program governs ventures. Every piece of work is an action request, which passes a policy, an
-- approval where the policy asks for one, and a budget before it is claimed, and which succeeds only
-- with a proof receipt. Its Python functions run SQL statements inside transactions on one PostgreSQL
-- database; the modules below model those functions, from packages/core/aidan_core.
--
-- Base         names of the libraries, tests on numbers, and tables as lists of rows (the queries and
--              updates that the statements make).
-- Json         json.dumps with sorted keys (Json/Dumps) and actions.py, canonical_payload_hash
--              (Json/Canonical).
-- Db           the rows and vocabularies (Db/Rows: models.py and the migrations 0001 to 0004, 0012 and
--              0014; Db/Research: 0005 to 0007; Db/Validation: 0009, 0010, and the market's rows of
--              0019, 0020 and 0023 that an allocation reads), the database as a record of tables,
--              errors.py, db.py and audit.py (Db/Tx), and statements on one row by its key
--              (Db/Queries).
-- Budget       budget.py: grant_budget, reserve_budget (with _reserve), release_budget (with _release),
--              commit_budget, reconcile_completion, get_account. Budget/Ledger ties the balances to the
--              capital ledger: Spec is the invariant, Sums and Accounts what it adds up and looks up,
--              Posts and Effects the changes that the operations make. Limits and Overdraft bound the
--              balances by the CHECK of the table, Guards and Histories show when a constraint can
--              refuse an operation, and Undo is about a release after a reservation.
-- KillSwitch   killswitch.py. Its _engage and _release are engage and release, by scope.
-- Lifecycle    lifecycle.py: transition_cur is transition.
-- Policy       policy.py: evaluate, _load_policy_input (load_policy_input and input_of),
--              current_evaluation, persist_decision, evaluate_and_persist.
-- Approvals    approvals.py: create_pending, valid_approval, _decide (decide), approve, reject,
--              expire_if_due.
-- Actions      actions.py: submit_action_request.
-- Proof        proof.py: deterministic_verify (token_verdict), verified_proof_id, _write_receipt,
--              _record_receipt.
-- Execution    execution.py: Status has _set_status, _transition_to_success and get_status; Claim has
--              request_execution, _create_attempt and authorize_and_claim; Results has _upsert_result
--              and record_execution_result; Complete has _complete, complete_execution and
--              fail_attempt. The other children are proofs.
-- Recovery     recovery.py: recover_action, by its returns.
-- Ventures     ventures.py, decisions.py and evidence.py: the operations that write, and reads by key.
-- Validation   validation.py: create_hypothesis, create_test, link_action_request, record_result;
--              Criteria has _compare, evaluate_outcome and what _test_hash digests.
-- Research     research/adapters.py (AcquiredSource), sources.py and observations.py (Evidence),
--              claims.py (Claims), assumptions.py and interpretations.py (Reasoning), killcase.py
--              (KillCases), opportunities.py (Opportunities, where _transition is change_status);
--              Tables has the statements that they share. Relations, Status and Moves are proofs.
-- NextAction   nextaction.py: Gather has _gather, _cheapest_discriminating_test and _market_basis, Basis
--              has _basis_payload, and the parent _decide (decide and decide_build), current_basis and
--              recommend. Choices and Freshness are proofs.
-- Commitment   commitment.py: Gate has _build_gate and _validate_spend_bound, Keys the texts that name
--              a recommendation, Targets the request and the decision that it aims at, and the
--              parent _assert_not_stale, _existing_policy_outcome, _intake_action and
--              commit_recommendation, whose part after the replay is convert. Conditions writes
--              out what the gate demands, and the other children are proofs.
-- Migrate      migrate.py: discover and apply, on the files that the directory lists; Rerun is a proof.
-- ProviderCost factory/provider_cost.py: FROZEN_PRICING and estimate_cost.
-- Autonomy     alpha/autonomy.py: record_intervention and the classes of a venture.
-- System       sequences of the transactions on actions, capital and the lifecycle, as a relation.
-- Scenarios    concrete runs.
--
-- A transaction is a function from the database to a value and a new database, or to an error without
-- one: a raise inside db.transaction rolls the database back. Row locks (FOR UPDATE) make transactions
-- on one row take turns, so a transaction is modelled on its own. Tables hold their newest row first.
-- A uuid, a lease token and an identity column are natural numbers taken from one supply; an amount is
-- a number of ten-thousandths, as numeric(20,4) holds it; a time is a number of microseconds. The
-- CHECKs, unique indexes and foreign keys that can refuse a statement of these functions are written
-- out as errors. Error messages, created_at and updated_at are left out. Loops over tables are
-- recursion on lists. The one recursion on fuel, the digits of a numeral, has one more step than the
-- number itself, which is more than it has digits.
--
-- A name outside a vocabulary (an unknown test type, stance or importance) is refused by the types. The
-- thresholds of a test are numbers of ten-thousandths and an observed number is a whole one; the source
-- compares doubles, which agree where a double holds both. A comparison that raises a TypeError is an
-- error of the call. An amount that is asked for is not negative, nor is an autonomy. The number at
-- the head of a migration's name has the digits of ASCII alone.
--
-- SHA-256, the reconciler of a recovery, the proof hook of a completion and what the SQL of a migration
-- does are parameters. Floating point numbers in payloads, the connection to the database and the
-- read-only provenance, summaries and listings are not modelled, nor are the other parts of the program
-- yet: the orchestration of research with its proposals and providers, the rest of factory and alpha,
-- build, deploy and market.
pub mod Base
pub mod Json
pub mod Db
pub mod Budget
pub mod KillSwitch
pub mod Lifecycle
pub mod Policy
pub mod Approvals
pub mod Actions
pub mod Proof
pub mod Execution
pub mod Recovery
pub mod Ventures
pub mod Validation
pub mod Research
pub mod NextAction
pub mod Commitment
pub mod Migrate
pub mod ProviderCost
pub mod Autonomy
pub mod System
pub mod Scenarios
