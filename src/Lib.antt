-- ===== src/Lib.antt =====
-- A verification library for agentmixer, which runs coding agents of several providers under host
-- custody: an account is leased to one run at a time, a run is admitted only on a qualified adapter,
-- and custody is given back only on proof that the provider's processes have stopped.
--
-- The program's parts that are modelled, from the bottom up:
--
-- * Validation (src/validation.ts): the checks that each boundary applies to a value of unknown
--   type. `object` is `as_object`, `boundedText`, `identifier`, `safeInteger` and `provider` keep
--   their names in snake case. Validation/Data holds the values: JSON-like data with the attributes
--   of properties (enumerable, accessor, hidden, symbol), numbers as dyadic rationals, infinities
--   and NaN. Validation/Digest is the test for a SHA-256 digest, which several files share.
-- * Accounts (src/accounts.ts): the lease store. Its state is the table of rows; the queries of
--   `acquire`, `renew` and `release` are `upsert` and `update_rows` of Accounts/Rows, `expiry`,
--   `validateLease` and `leaseFrom` are in Accounts/Checks. Accounts/Trace has the calls in any
--   order and the machine that each account is by itself; Custody, Fencing, Release, Asked and
--   Opening have what follows. Accounts/Return is the return of a lease by the two runtimes.
-- * Ledger (src/codex-managed-ledger.ts): `CodexManagedCallLedger`, which binds callbacks to calls
--   that were observed. Its state is the record `Ledger`; `written` is `mark_written`. The mapping
--   of tool names, the canonical JSON text and `JSON.parse` are parameters. Ledger/Trace has the
--   operations in any order.
-- * Runtime (src/runtime.ts): the class `Xcb`. Runtime/Adapters has the types, Runtime/Admission
--   the constructor, `assertQualified` and the guards of `runAdmitted`; `run_admitted` and `run`
--   follow the source. An adapter is a function on the lease table, since other calls may change
--   the table while it runs.
-- * Task (src/task-runtime.ts): `runAgentTask`. Task/Read and Task/Receipts have the checks of
--   closed records, Task/Guards what precedes the lease (`admit`), Task/Events the cancellations and
--   the readings of the clock, and Task.antt the rest, from the lease to the last close of the
--   broker. What the adapter, the broker, the signal and the clock do is a `Course`, which lists
--   the events in the order of the source.
-- * Capabilities (src/capabilities.ts): the broker of a task. Capabilities/Json is `snapshot`, whose
--   recursion is on the levels that are left below the limit of depth; Capabilities.antt has the
--   broker's operations on its state: `invoke`, and `begin` and `finish`, the parts of a handler's
--   turn before and after its tool is awaited. Capabilities/Steps has them in any order.
-- * ToolBroker (src/broker.ts): the broker of a run of `Xcb`. ToolBroker/Paths has `relativeFile` and
--   `publicHttpsUrl`; ToolBroker.antt has `dispatch` with a function for each tool; a call of the
--   host is an `Effect`, and the effects so far are the state. ToolBroker/Scope has the calls in any
--   order.
-- * Models (src/models.ts): `parseClassification`; Models/Decisions has when it accepts a value.
--   Models/Catalog has `selectClassifierModel`, Models/Selection what it selects; doubles are counted
--   in units of the least one, and the order of `localeCompare` is a parameter.
-- * WriteQueue (src/process-write.ts): the queue of writes to a provider's process. `write`, `begin`,
--   `settle`, `expire` and `stop` are what is done with it or happens to it; `write_result` is
--   `providerProcessWriteResult` of src/process-port.ts. WriteQueue/Turns has what each does to the
--   order of the writes, WriteQueue/Order has them in any order.
-- * ManagedAccount (src/managed-account.ts): the controller of one account of a provider.
--   ManagedAccount/Controls has the variables of `createManagedAccountController`, as the record
--   `Account`, with `publish`, `invalidate`, `onEvent` and the ways in which an operation's promise
--   settles; Calls has the operations up to the await of `run` (`ensureTransport` among them), Tasks
--   the turns of their tasks, Shutdown `close`; Parsing, Usages, Challenges and Replies have the
--   checks. ManagedAccount/Trace has the steps in any order, and Fences, Settling, Transports,
--   Starting, Turns, Reading, Ending and Closes what each of them does; Custody, Signing, Barrier,
--   Unresolved and Sessions have what follows.
-- * Judge (src/judge.ts): the port of judges and its System One backend. Judge/Questions has
--   `checkJudgeQuestions` and `checkJudgeState`, Judge/Answers `parseJudgeResponse`, Judge/Matching
--   `checkJudgeAnswers`, Judge/Keys the key of the environment or of the vault's file, Judge/Targets
--   the endpoints, Judge/Backend `createSystemOneJudge` with `ask`, and `resolveJudge`. A response is
--   what the parameter `fetch` gives for a request; the key's file is a value with the stats and the
--   reads that an open of it shows. What `in` sees of a prototype is an
--   argument of `check_answers`. Ranges, Sound, Bodies, Vaults and Vaulted have what
--   follows.
--
-- Code that may throw returns a `Result` with the message of the error; code with a state is an
-- `Exec` (Prelude/Exec), in which what was written before a throw stays written. Every definition
-- is structural recursion on its data, so there is no fuel, but for the rounding to doubles in
-- Models/Catalog, which has more places than any cost has bits, and the text of an index, which
-- has ten digits.
--
-- Not modelled: the failure of a stat, read or write of an open key file, and the cancelling of a
-- stream that is too long (it has no result), answers to a judge's questions whose prototype is
-- neither `Object.prototype` nor none, `createCapabilityProfile`, SQLite's 64-bit bound on a
-- generation, lone surrogates in text, cyclic values, the bound of the generation of a managed
-- account, accessors that run code (the closed records of the task runtime exclude them), the
-- timer itself (its firing is an event), the check that an adapter makes on a request with
-- `assertAgentTaskAccountLease`, the constant launch plans of src/runtime.ts, and the providers'
-- adapters, processes, network and files.
pub mod Prelude
pub mod Validation
pub mod Accounts
pub mod Ledger
pub mod Runtime
pub mod Task
pub mod Capabilities
pub mod ToolBroker
pub mod Models
pub mod WriteQueue
pub mod ManagedAccount
pub mod Judge
