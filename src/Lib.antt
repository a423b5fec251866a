-- ===== src/Lib.antt =====
-- This library models the core of the coding agent's harness (harness/), the part that decides
-- what the agent may do, what it has done and what comes next. The harness runs a task in bounded
-- steps. A step's output is reduced into the task's ledger and routed; the events of a task go to
-- an append-only stream from which the ledger can be replayed; users steer a running task through
-- a leased queue; risky commands wait for an approval that is bound to the exact operation; tool
-- calls leave receipts, so that a retry does not repeat an effect; and the input of the model is
-- kept to a token budget.
--
-- Files and sources:
-- Prelude: the shared names, lists measured by native numbers, tables with a key, sorting, texts
-- as code points, Python's exceptions as values (Prelude.Result).
-- Steering: harness/state/steering.py. Message has SteeringMessage and its validation; Queue has
-- the table and one function for each method of SteeringQueue; Invariant, Lease, Enqueue, Finish
-- and Life have the proofs.
-- Approvals: harness/approvals/contracts.py and harness/approvals/store.py. Contracts has the
-- requests, decisions and timestamps; Store has one function for each method of ApprovalStore;
-- Waiting has ApprovalWaiter of harness/approvals/waiting.py, a wait being the list of its polls
-- with what others do before each; Ended, Invariant, Expiry, Decision, Replies and Life have the
-- proofs.
-- Receipts: harness/state/receipts.py, with Once and Retry for the proofs.
-- Task: harness/models/task.py and harness/models/agent_step.py in Models,
-- harness/state/progress.py in Progress, the transitions of harness/orchestration/core.py in
-- Reduce and its routes, with can_answer_directly of harness/orchestration/runtime.py, in Routes;
-- Stagnation, Keys, Records and Repeats have the proofs.
-- Events: harness/state/event_store.py in Store and harness/state/events.py in Model and Reduce;
-- Append, Streams, Retry, Patch and Replay have the proofs.
-- Safety: harness/safety/approval.py. Pattern has its regular expressions, matched by
-- derivatives, Shell the splitting of commands and shlex, Risk and Classify the risks, Policy the
-- decisions, Highest the proofs.
-- Context: harness/context/compiler.py in Compiler and build_work_packet of
-- harness/orchestration/core.py in Packet, with Budget for the proofs.
-- Runs: harness/server/registry.py. Models and Store have the runs, Append, Terminal and Replay
-- the events of SqliteRunEventStore, Broker the subscriptions and the live fan-out, Journal the
-- journal that commits and then publishes; Attach has the client's attach and acknowledge of
-- harness/server/runtime.py. Rows, Batch, Registry, Advance, Moves, Streams and Life have the
-- invariant and what calls leave standing, Retry, Repeats and Endings the repeated calls, Paging,
-- Paged and Follow the pages and the client, Fanout, Follows and Reads the queues of the
-- subscribers.
-- Conversations: harness/server/sessions.py. Store has the follow-ups and continuations of
-- ConversationStore, Reads what it reads of the runs; Life, Retry and Continue have the proofs.
-- Verification: harness/verification/. Contracts has the commands, their strength and their
-- results, Scope the paths that may change, Counts the tests that an output tells of, Report the
-- completion report with the rows of harness/models/verification.py, Runner the run of a plan,
-- Services and Managed the executor that asks the approvals and the command policy before it uses
-- the sandbox. Verdict, InScope, Plan and Cleared have the proofs.
-- Ledger: harness/ledger/models.py in Models and harness/ledger/jsonl.py in Store, with
-- Numbering, Retry and Erasure for the proofs.
--
-- A table or a file is a list of rows or events, and a method a function from the state and its
-- arguments to its answer and the next state; the lock or the transaction of a method makes it
-- one step. What a method raises is a value of Prelude.Result.Error, and leaves the state as the
-- transaction or the unwritten file leaves it. Clock readings, new ids and digests are arguments,
-- and no theorem asks anything of them but what it says. Times are microseconds; the listeners
-- on_change and on_save are logs of what they are told. Numbers that the source bounds by 0 from
-- below are natural numbers, others are integers. Every loop is a recursion on a list or on a
-- number, so no fuel is needed.
--
-- Not modelled: pydantic, SQLite and the file system themselves, the JSON text of records,
-- SHA-256, the agent framework, the processes and containers that tools run, the network clients,
-- and the server's transport.
pub mod Prelude
pub mod Approvals
pub mod Context
pub mod Conversations
pub mod Events
pub mod Ledger
pub mod Receipts
pub mod Runs
pub mod Safety
pub mod Steering
pub mod Task
pub mod Verification
