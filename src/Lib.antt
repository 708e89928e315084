-- ===== src/Lib.antt =====
-- Verification library of the Foundry agent workspace: the TypeScript runtime of a desktop
-- application in which model agents work on Git worktrees, alone or as a coordinator with children.
--
-- Parts and how they interact. A coordinated task has one coordinator run and child runs, whose work
-- is laid down in numbered assignments and awaited by wait operations (orchestration-records.ts);
-- its tokens come from one shared budget (budget-ledger.ts), whose `reserve` reads the runs to refuse
-- a cancelled, superseded or finished one; what each child may read and write, and after which other
-- assignments, is its scope (scope.ts). An action of an agent
-- waits for a decision of the user (tool-runtime.ts) without a slot, and runs in an execution slot
-- (execution-slots.ts). A long conversation is compacted between user turns (compaction.ts).
-- A child hands its work off as one commit, which the coordinator integrates by a cherry-pick, both
-- prepared, approved and then run (git-operations.ts). The processes talk in lines (framing.ts), and
-- the usage that a provider reports is revalidated (usage-accounting.ts) before it is charged and
-- written down (usage-ledger.ts).
--
-- Files, and the code each models:
--   Base       shared lists, texts, results and tests (no code of the repository);
--   Runs       packages/runtime/src/orchestration-records.ts, the agent_runs methods, with the
--              constraints and triggers of agent_runs in packages/runtime/src/schema.ts:
--              insertCoordinatorRun, insertChildRun, run, requireRun, activeChildren, setLifecycle,
--              finishRun, fence, advanceGeneration. Runs/Lifecycle, Runs/Fencing, Runs/Admission
--              hold what sequences of these calls keep;
--   Assignments  the assignments methods of the same class: insertAssignment, setAssignmentState,
--              setAssignmentWait, admitAssignment, recordBase, revisionCount. Assignments/Finality is
--              what stays of an assignment, Assignments/Revisions the numbering;
--   Waits      its wait_operations methods: insertWait, wait, waitForCall, deliverWait, cancelWaits;
--              Waits/Delivery is what sequences of them keep;
--   Accounts   the rows and sums of packages/runtime/src/budget-ledger.ts: the budget tables, totals;
--   Budget     the operations of class BudgetLedger there: openAccount, hold, reserve, settle,
--              release, summary, runUsage. Budget/Tallies relates the loops
--              of `totals` to sums; Budget/Holding, Reserving and Settlement are the operations,
--              Budget/Invariant and Cap sequences of them, Budget/Fencing the meeting with Runs;
--   Slots      packages/runtime/src/execution-slots.ts, class ExecutionSlots: the method `use`, cut at
--              its awaits. Slots/Moves is what one event did, Slots/Counters and Counts the limits,
--              Slots/Waking the wake-ups;
--   Approvals  packages/runtime/src/tool-runtime.ts, class ToolRuntime: requestApproval, decide,
--              decideBound, revokeWaiting, invalidateBrowser; Approvals/Execution is what `execute`
--              does to an approved proposal, `reconcile`, and `recover` of
--              packages/runtime/src/store.ts. Approvals/Steps are sequences of these calls,
--              Approvals/Backing and Consent what the decisions account for, Approvals/Waiting,
--              Promises and Coherence the open promises, Approvals/Deciding the decisions accepted;
--   Compaction packages/runtime/src/compaction.ts, the native continuation: isSystemItem,
--              isUserBoundary; Compaction/Issues is continuationIssues, Compaction/Cuts is
--              extractSummaryText and compactContinuation, Compaction/Kept what one cut makes of the
--              items, Compaction/Retention what a compaction keeps, Compaction/Counting, Scanning and
--              Pairing what it means to have no issue;
--   Git        packages/runtime/src/git-operations.ts, class GitOperations, and assertNoGitHooks of
--              packages/runtime/src/git-environment.ts: the errors, the guards and the call of Git.
--              Git/Texts, Status and Manifests are the string helpers and parsers, Git/Inspection
--              the reads of a worktree, Git/Repositories the guards and the worktrees of children,
--              Git/Handoff and Commit a child's handoff, Git/Integration the cherry-picks.
--              Git/Quiet is what changes nothing that is seen, Git/Outcomes what a failure says,
--              Git/Running what a run that returned says, Git/Recovery a reconciliation after a cherry-pick,
--              Git/Scoped the paths and the patch of a handoff;
--   Framing    packages/protocol/src/framing.ts, class LineDecoder: push;
--   Usage      packages/runtime/src/usage-accounting.ts: measuredUsage;
--   Usage/Ledger
--              packages/runtime/src/usage-ledger.ts, class UsageLedger over the table
--              provider_requests of packages/runtime/src/schema.ts: the rows; Counting is totals and
--              add, Listing records, Reports summary and requests. Finality is the life of a row,
--              Totals and Pages what the reports hold;
--   Scope      packages/runtime/src/scope.ts: normalizeScopePath, normalizeScope, covers, inScope,
--              scopesOverlap; Scope/Segments relates it to the segments of paths,
--              Scope/Dependencies is assertAcyclic.
--
-- How state and operations correspond. A SQLite table is the list of its rows in insertion order; a
-- statement is a filter, an update or an append; a refused row is the error `constraint`. A
-- transaction is one function from state to state or error, since BudgetLedger runs each one as an
-- IMMEDIATE transaction; interleavings are sequences of transactions. Ids are numbers, compared for
-- equality only. Numbers are natural numbers; a number of JavaScript that may be negative,
-- fractional or not finite is the type `Number` of Accounts, whose other values the code refuses.
--
-- A promise is an entry of the map that holds its `resolve`; an approval object that a call of
-- `execute` holds in memory is kept apart from its row, since the decision changes a copy of the row.
--
-- The items of a continuation are records with the fields that the code reads; whether a value
-- matches a zod schema is the parameter `fits_schema`, any predicate on continuations.
--
-- A Git operation is a function from a session, that is the world and the mark of a mutation, to a
-- result and a session. The world belongs to the record `Host`, which runs Git and looks at files;
-- what other processes do between two calls is in how the host answers. What a theorem needs of Git is
-- its premise `ReadsOnly`, for a view of the world: each command of the list `ReadCommand`, by which the
-- class reads, leaves what is seen as it was. A worktree's diff, which refreshes the index, and
-- write-tree, which stores a tree, are not in that list, nor are the folders and the empty file that
-- the class makes: a theorem about code that uses them is for views that do not see what they add, which
-- is the premise `Aside`. Of the promises that an instance keeps, hooksDirectory has settled, as it has
-- after the first call of Git, and each preparation of the empty file is the first. Error messages
-- are kept as their literal text and the values put into them; they are not shortened.
--
-- Bounds and fuel. The slices of a list of paths recurse on fuel, the length of the list, of which each
-- slice takes one item at least. `visit` of Scope/Dependencies recurses on fuel, one more than there
-- are nodes, which is enough, since the nodes being visited are distinct. The reading of all pages of
-- usage recurses on fuel, one call more than there are requests. Every other recursion is
-- structural. Sums of tokens are not reduced modulo a power of two: the code computes with doubles
-- and SQLite integers, exact below 2 ^ 53 and 2 ^ 63.
--
-- Not modelled: timestamps outside the usage ledger, the free texts of errors, foreign keys to tables
-- outside the modelled ones but that of a usage request, case folding outside ASCII, the usage
-- breakdown and the usage without detailed tracking, and every other part of the repository
-- (the orchestrator, the agent loop, the arguments of tools, the rest of Git and process control, the
-- protocol schemas, the desktop application, and the C# port).
pub mod Base
pub mod Runs
pub mod Accounts
pub mod Budget
pub mod Scope
pub mod Slots
pub mod Approvals
pub mod Compaction
pub mod Waits
pub mod Assignments
pub mod Framing
pub mod Usage
pub mod Git
