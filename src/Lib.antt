-- ===== src/Lib.antt =====
-- Models of the afk pipeline: the driver that runs a pull request from a task to readiness for merge
-- (afk_orchestrate/), the commands that it calls (afk_pr/), and the validators of the records that a Run
-- leaves (afk_records/).
--
-- The driver keeps a run in a file, calls the commands as child processes, one per step, and decides
-- from their JSON answers alone. The commands keep jobs with phase records in files, read and write
-- GitHub through gh, and start managed workers. A Coordinator Run leaves a checkpoint, an output and
-- continuations, and the Planner a plan; afk_records/ says which JSON is one.
--
-- Py/ has what the code uses of Python: JSON values, subscripts and `get` with the errors that they
-- raise, dict equality, and actions that change an object and may raise, where what was written before
-- a raise stays written.
--
-- Orchestrate/ models afk_orchestrate/driver.py and the worker loop of afk_orchestrate/__main__.py:
--   State: the run state and record, transition, pause, request_repair, revision, job_id, action_id;
--   Receipts, Commands: the command lines and how a child process answers or fails;
--   Validation: repairable_validation; Selected: selected, with has_active_work;
--   Step and Step/Stages: each stage of step, and its handlers of a failed command and of bad evidence;
--   Run: create, advance, resume, and the worker loop on fuel, one unit for each step.
-- The world is a function from the number of calls made so far and a command to a process, so every
-- sequence of answers is covered. A run that waits has no fuel that suffices, as the source loops on.
--
-- Pr/ models afk_pr/:
--   Identity: identity of github.py; ReviewResult: validate of review_result.py;
--   Decision with Notes, Phases and Items: decide of decision.py; the notes are in the order in which
--   decide makes them;
--   Finish with Finish/State: request_merge, close_after_merge and the attempt of finish in finish.py,
--   whose effects are kept in a log with the latest first, and whose world may answer by all that was
--   done before;
--   Folder and Jobs/Status: status_job of jobs.py on what a directory holds and systemd answers;
--   Validation with Contract, Evidence and Reuse: contract, seal, sealed_execution, owning_evidence and
--   eligible of validation.py, whose contract is a record that is compared with a JSON value;
--   Jobs with Store, Creation, Publish, Worker and Start: start, worker, publish and retry_publication of
--   jobs.py, under guarded of lifecycle.py, on the phase records, the seals and the progress of a creation
--   in a directory. Creation has publish_creation and find_pr of creation.py, and queue_fixtures and
--   new_fixtures of jobs.py: the URL goes into the job, and a child with fixtures may be started, whose own
--   directory is outside of the store. The code of the phases, GitHub, systemd-run, the start of a child and
--   the clock are a world that may answer by all that was done before.
--   Actions with Desk and Reads: submit_action of actions.py, whose receipts are JSON values, and
--   response_branch of response.py.
--
-- Records/ models afk_records/:
--   Coordinator with Topology, Invocation, Sources, Terminal, Checkpoint and Output: COMPONENT_TOPOLOGY
--   and validate_checkpoint, validate_continuation and validate_output of coordinator.py, with
--   output_from_state and require_terminal_pair of continuation.py. Histories that the code reads
--   backwards have the latest record first. Coordinator/Run is the state machine that the topology tells,
--   as a step relation on records;
--   Continuation with Exhausted and Lineage: the rest of continuation.py. The directory of continuations,
--   the reader of component files and the verifiers are parameters; the sealed continuations and the
--   active one are one list, in which only the last can lack an output;
--   Plan with Shapes, Input, Quotes, Graph, Proposal, Build, Routing and Planner: plan.py. A validator that
--   returns its argument returns nothing here, or the parts that its caller reads. Graph has validate_graph
--   on the fields of the accepted children: visit has one more unit of fuel than there are children, since
--   it enters only children that are not on its way down, and ancestors one more than the visits left ids,
--   since those are in the order of their dependencies;
--   Review with Finding, Receipts and Projection: review.py. A Review's directory is told by the lens of
--   an invocation;
--   Request: validate_request and validate_component_output of coordinator.py, validate_policy of
--   validation_policy.py, validate_reference of related_work.py, validate_input of review.py.
--
-- Not modelled: fractional numbers in JSON, the texts of Python's own errors, what \w matches beyond
-- ASCII, times, the sort of publication_retry_job_ids, the encoding of files. Locks are Booleans.
-- SHA-256, json.loads, the length of json.dumps and the reading of timestamps are parameters. The
-- command lines, GitHub and systemd are the worlds of the models. Of an error's text that lists keys or
-- numbers items only the fixed part is kept. In afk_records the Parent Review (acceptance.py), the
-- records of related work, and the matching of retained Runs with their files (source.py) are not
-- modelled, nor are the other packages of the repository (afk_inference, afk_metrics, afk_agent,
-- afk_runtime).
pub mod Prelude
pub mod Py
pub mod Orchestrate
pub mod Pr
pub mod Records
