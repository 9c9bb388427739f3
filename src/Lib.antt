-- ===== src/Lib.antt =====
-- A verification library for the agent extensions of this configuration repository.
--
-- The extensions under ai/pi/extensions run in one coding-agent host. Each keeps a small state that it
-- restores from the session's entries, changes by the calls and events of the host, and appends again.
-- The modules here model the cores that decide; the wiring to the host is not modelled. They share
-- the way they read untrusted values, in Base; only transition.ts (Tasks) calls another of them, for the
-- keys of identity.ts (Issues).
--
-- The parts, with the paths from the root of the repository:
--   JobAttempt  ai/pi/extensions/shared/job-attempt.ts: the events of one attempt at a job, and the
--               decision whether the persistence owner appends one. JobAttempt/Decide has
--               decideAttemptEvent, Schema the checks of the schemas, Transition the state machine as a
--               step relation, Store an owner that records what it is told to.
--   Questions   ai/pi/extensions/questions/state.ts: applyQuestionAction and its actions, the decoder
--               (Decode), and the search for a question that was asked before (Repeat).
--   Loop        ai/pi/extensions/classified-workflows/loop.ts: the command parser (Command), the stored
--               state (Stored), nextLoopRunAt and advanceLoop (Schedule), the status text (Duration).
--   Compaction  ai/pi/extensions/safe-compaction/state.ts: beforeCompactionTransition, the restoration
--               from the session's entries (Decode), the recovery after an overflow (Recovery), and the
--               summary that is written without a model (Fallback).
--   Batcher     ai/pi/extensions/write-result-inspector/batcher.ts: MutationBatcher, with the firing of
--               a timer and the end of an inspection as steps.
--   Issues      ai/pi/extensions/issue-tasks/identity.ts and selector.ts and
--               ai/pi/extensions/shared/fibonacci-effort.ts: decoded issues and their keys, efforts
--               (Effort), and the selection of an issue from a snapshot (Selector).
--   Governor    ai/pi/extensions/usage-governor/core.ts: the lanes of turns (Governor, Governor/Follow),
--               the addresses of the control plane (Access), the preferred model (Models).
--   Circuit     ai/pi/extensions/classified-workflows/capability-circuit.ts and
--               ai/pi/extensions/shared/capability-state.ts: the circuit for an agent without tools.
--   Edits       ai/pi/extensions/lsp/workspace-edit.ts: what a language server proposes to change is decoded
--               (Edits/Decode), located (Edits/Offsets), sorted and applied (Edits/Normalize), previewed
--               (Edits/Prepare) and written file by file, with restoration (Edits/Write). WorkspaceEditIo and
--               Runtime are what the code calls of the file system and of node; the bytes of UTF-8 are
--               counted from the UTF-16 units. An error is its code.
--   Rpc         ai/pi/extensions/lsp/json-rpc.ts: a connection as its state and the log of its effects (Rpc),
--               its messages (Rpc/Messages), the framing of its input (Rpc/Frames) and its events
--               (Rpc/Run). The loop of #drainFrames runs on as much fuel as the buffer has bytes and one
--               more: every round but the last takes a header off the buffer.
--   Tasks       ai/pi/extensions/issue-tasks/transition.ts: a batch of changes to the tasks of some issues
--               is checked against a snapshot (Tasks/Snapshot), applied (Tasks/Operations) and turned into
--               events and revisions (Tasks/Prepare); validateGraph is in Tasks/Graph, with what its degrees
--               count and the fuel of its loop, which is the size of the graph, below it. Tasks/Replay reads
--               the events as an audit trail, Tasks/Authority is about cancellation.
--
-- Conventions. A JavaScript string is the list of its UTF-16 code units; a number that the code checks
-- to be a safe integer is a natural number or an integer, with the check written out against
-- Number.MAX_SAFE_INTEGER; a value of type `unknown` is a JSON value or `undefined`. Effects that fail
-- are a result type. A `Schema` of the effect library is the test of its documented combinators.
--
-- Parameters. The pattern of Schema.UUID (`is_uuid`) and randomInt (`sample`) are arguments of the
-- definitions that call them; the theorems hold for each.
--
-- Fuel. The loop of isFibonacciEffort takes the value as fuel: `current` starts at 2 and grows in every
-- round by at least 1. The decimal digits of a number take its successor as fuel.
--
-- Not modelled: `toLowerCase` and the case-insensitive patterns beyond ASCII where the code only tests
-- ASCII patterns; freezing of objects; the texts of error messages, of which the constructors of the
-- error types are the names; entries of arrays that are holes; keys that an option of a stored question
-- has besides its label and its description, which the code keeps.
mod Base
pub mod JobAttempt
pub mod Questions
pub mod Loop
pub mod Compaction
pub mod Batcher
pub mod Issues
pub mod Governor
pub mod Circuit
pub mod Edits
pub mod Rpc
pub mod Tasks
