-- ===== src/Lib.antt =====
-- The runtime of tools/klevar-yolo-runtime: it takes items of a progress list in batches, lets an agent
-- work on each batch, holds the agent's result against gates, and keeps a state of findings until each
-- has evidence of its fix. A runtime locks its working copy, claims the tasks and files of its batch
-- beside other operators, may split its work into shards for several agents, and keeps a history of
-- failures for its prompts.
--
-- The files, by the part of the program that they model (paths are from the repository's root; a
-- function keeps its name in snake case):
--   Prelude and its children: lists, texts, JavaScript's sets as lists without repetition, and regular
--     expressions, matched by derivatives.
--   Types: tools/klevar-yolo-runtime/src/types.ts, the records that the other parts share.
--   Lock: tools/klevar-yolo-runtime/src/runtime-lock.ts. The lock file, the processes and the clock are explicit.
--   Failures: tools/klevar-yolo-runtime/src/failure-patterns.ts, the list of failure records and the operations on it.
--   Flags: tools/klevar-yolo-runtime/src/flag-classification.ts, which flags block, warn or tell of a success.
--   Findings: tools/klevar-yolo-runtime/src/runtime-batch-state.ts. An agent's result (import_agent_result_to_state) and the gates'
--     verdicts (record_gate_state) change the findings of a batch; State holds the operations, Close what
--     closes findings, Evidence what counts as evidence. It uses Flags throughout.
--   Progress: tools/klevar-yolo-runtime/src/progress-parser.ts, audit items and what a batch takes of a list.
--   Claims: tools/klevar-yolo-runtime/src/collaboration/claims.ts, the claims directory and the contract over the claims;
--     Normal is normalizeClaim, from the untyped object of a claim's JSON.
--   Support: tools/klevar-yolo-runtime/src/support-scheduler.ts, the support work after a phase and at the end.
--   Paths: tools/klevar-yolo-runtime/src/path-policy.ts, whose a path is and whether it is delivered; Affected is
--     tools/klevar-yolo-runtime/src/affected-tests.ts.
--   Verdicts: tools/klevar-yolo-runtime/src/gate-findings.ts and tools/klevar-yolo-runtime/src/adjudication.ts, how grave the gates' flags are and what an
--     adjudication leads to; it uses Flags and Paths.
--   Risk: classifyBatchRisk of tools/klevar-yolo-runtime/src/runtime-batch-state.ts, and tools/klevar-yolo-runtime/src/validation-policy.ts.
--   Healing: tools/klevar-yolo-runtime/src/self-healing.ts, the kinds of errors and the retries.
--   Recovery: the flags and signatures of failures that tools/klevar-yolo-runtime/src/runtime.ts recovers from, and below it
--     tools/klevar-yolo-runtime/src/recovery-merge.ts: Merge and Parts merge the parts of a result with those of its
--     bugfix, Recovered the flags and the whole.
--   Contracts: validateContract of tools/klevar-yolo-runtime/src/result-contracts.ts, and tools/klevar-yolo-runtime/src/journal-contract.ts with
--     tools/klevar-yolo-runtime/src/journal-fast-path.ts.
--   Gating: tools/klevar-yolo-runtime/src/validators/index.ts; Validators holds the validators of files,
--     Evidence those of tests and checks, Business\n    that of business logic, and Previous
--     tools/klevar-yolo-runtime/src/gates.ts.
--   Runtime: tools/klevar-yolo-runtime/src/runtime.ts on a state of the world that its calls change: Recover is
--     recoverGateFailure, Adversarial validateAdversarial, Single runSingleBatch. They use Contracts, Findings, Gating, Recovery, Risk and
--     Verdicts; the agents, the file system and git are the functions of two records.
--   Parallel: tools/klevar-yolo-runtime/src/collaboration/scheduler.ts, the plan of shards; it uses Claims and Progress.
--
-- Conventions:
--   A text is a list of characters. Case maps and letters are those of ASCII; blanks are those of ASCII, the
--   non-breaking space and the byte order mark. Dates and times are
--   texts or numbers that an operation takes; all readings of the clock in one operation give one time,
--   but for the lock, which takes each reading.
--   A map of the source with insertion order is an association list in that order.
--   Loops are recursion over lists. The loop of a recovery runs on what is left of its total of attempts,
--   which is the bound that the source gives it. Two functions run on fuel: the printing of a number n runs on n + 1
--   steps, one for each digit at most, and the removal of a repeated prefix on the length of the text,
--   since each step removes a character at least.
--   An operation that reads and writes a file takes its content and gives the new one; a failure of the
--   file system, and JSON as a text, are not modelled: a claim file is its claim or the message of the
--   failure to read it, and the claims directory's list of committed batches is an input.
--
-- Not modelled: the calls of git, of the file system, of child processes and of the network, the
-- building of prompts, and the parts of the runtime's loop that consist of those. Of the
-- rest of tools/klevar-yolo-runtime/src, the loops over several batches in runtime.ts, the validators of commands, wiring,
-- frontend, product quality, external operations and the progress file, the normalising of untyped JSON but for that of claims,
-- the retrieval of knowledge, the inbox, incidents, telemetry, worktrees and the merging of configurations are
-- not modelled either. The web application
-- itself and its browser tests are not part of this library.
pub mod Prelude
pub mod Types
pub mod Lock
pub mod Failures
pub mod Flags
pub mod Findings
pub mod Claims
pub mod Progress
pub mod Parallel
pub mod Support
pub mod Paths
pub mod Verdicts
pub mod Risk
pub mod Healing
pub mod Recovery
pub mod Contracts
pub mod Gating
pub mod Runtime
