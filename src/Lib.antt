-- ===== src/Lib.antt =====
-- moshu runs an agent on an agents server, which has tools executed by Runtime Boxes and asks people
-- for their approval of risky actions. This development is about the parts that keep an action from
-- being executed twice, without a decision, or by a process that was replaced.
--
-- The parts and the files that model them:
--   * apps/runtime-box/src/invocation-journal.ts, the journal of a Box, in which every call of a tool
--     stands before it is executed: Journal.antt (begin, the ends of a call, the write of the file),
--     Journal/Grant.antt (the checks of a grant), Journal/Receipts.antt (acknowledge, confirm, load,
--     list the evidence), Journal/Types.antt (records and
--     errors), Journal/Reconcile.antt (the loop that reports evidence to the agents server). Journal/Process.antt puts the
--     journal into a process that restarts. Journal/Tracking and Journal/Safety carry the invariant
--     through each method.
--   * packages/process-rpc-core/src/generation-fence.ts, which admits the connections of peers:
--     Fence.antt, with the peers' identities (packages/process-rpc-core/src/protocol.ts) in Peer.antt.
--   * packages/database/src/approval-repository.ts, the requests for approval and the "Allow all"
--     policies of sessions: Approval.antt and Approval/Types.antt, Approval/Sessions.antt (what ends
--     many requests, and policies), Approval/Policy.antt (updatePolicy), Approval/Calls.antt (every
--     method that writes, as a step).
--   * apps/agents-server/src/approval-service.ts, the gate at which an action waits for its approval:
--     ApprovalService.antt; ApprovalService/Gate.antt has every call as a step.
--   * packages/database/src/action-repository.ts, the agents server's record of every action and of the
--     grant that lets a Box execute it: Action.antt and Action/Types.antt (grants and ends),
--     Action/Evidence.antt (evidence, acknowledgements, receipts, the recovery on start),
--     Action/History.antt (every method that writes, as a step).
--   * apps/agents-server/src/product-event-hub.ts, which sends the events of chats and approvals to the
--     clients that may see them: EventRouter.antt (bindings of requests, subscriptions to sessions) and
--     EventRouter/View.antt (publish, and what the subscriptions promise).
--   * packages/action-broker/src/risk.ts, which actions must be approved and what is shown of them:
--     Risk.antt.
--   * the fences that survive a restart: apps/agents-server/src/runtime-box-generation-fence.ts and
--     mobile-ingress-generation-fence.ts over packages/database/src/runtime-box-repository.ts and
--     mobile-device-repository.ts: DurableFence.antt.
--   * packages/process-rpc-core/src/limits.ts, the limits of a connection: Limits.antt.
--   * packages/process-rpc-core/src/json-structure.ts, the scan of a message before it is parsed:
--     Json.antt, and Json/Symbols.antt with an independent description of a safe text.
--   * apps/runtime-box/src/tools/truncate.ts, the cut of a tool's output: Truncate.antt (truncateHead).
-- A Box executes a call under a grant that the action repository made, after the approval repository
-- has a decision; the journal's evidence goes back into the action repository, whose acknowledgement
-- lets the journal forget the record. The fence decides which process a peer's calls come from.
-- Common.antt and its children hold what the parts share: tests on numbers, lists, JavaScript's `Map`,
-- results with errors, and text. Files called Tests apply the theorems to concrete calls.
--
-- How the program is modelled. A function keeps its name, in snake case. Identifiers, tokens, digests
-- and stored values are numbers, since the code only compares and stores them. An instant is its
-- number of milliseconds, and a method runs at one instant. Text is a list of UTF-16 code units. The
-- state that a method changes is an argument and a part of its result. Where it reaches the outside,
-- what happens there is an argument: how each write of a file ends, the hash function, what a schema makes of a result, whether a
-- command matches a regular expression, and how long an identifier is. An error that is thrown is a value. The methods loop over finite maps and
-- lists only; the one loop without such a bound, the report of a Box's evidence, runs on fuel, and more
-- fuel than twice the records and the unconfirmed tombstones is enough. A transaction of the database is one step, and one that throws
-- changes nothing. A `Map` is an association list in insertion order, and a table is a map by its
-- primary key or, for actions and grants, by another unique one. The fields of an action that are only stored (its classes, rule and scope) are left out.
--
-- Not modelled: the text of files and messages, the schemas beyond the bounds that are used, foreign
-- keys and the deletion of sessions, crashes in the middle of a write of a file beyond its three ways
-- to end, sockets and timers, the queries `list` and `get` of the repositories, the timer that
-- repeats a Box's report, and the other parts of the program, which are user interface, transports, tools and
-- storage.
pub mod Common
pub mod Peer
pub mod Journal
pub mod Fence
pub mod Approval
pub mod Action
pub mod ApprovalService
pub mod EventRouter
pub mod Risk
pub mod DurableFence
pub mod Limits
pub mod Json
pub mod Truncate
