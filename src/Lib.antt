-- ===== src/Lib.antt =====
-- takt-ai: the execution history of delegated work, the decisions of package dispatch over it, and
-- the start of a maintenance cycle.
--
-- Base: shared names, Boolean tests, lists, Go's maps with string keys as association lists
-- (Base.Dict), strings and decimal numbers (Base.Text), sorted keys (Base.Sorted), the sums of
-- 64-bit words (Base.Words). An assignment to a key overwrites in place or adds at the end; where
-- Go leaves the order of a map open, the list's order stands for one order.
--
-- History (takt/history): Kinds and Entry hold the types of history.go, projection.go and
-- execution.go; Validate is Entry.validate; Projection holds the projected records and their
-- queries; Fold.Budgeted and Fold.Defs are `budgeted`, `accepts`, foldExecution, foldActivity, fold
-- and Project; Log.Defs is AppendBatch, the replay that Open runs, and ReadPage; Attach is the rest
-- of execution.go with HeldRoot. The modules below Fold and Log hold theorems. The JSON encoding is
-- a parameter with its round trip (Codec), and the database's answer to a transaction is an
-- argument: the theorems hold for either answer. Times are numbers.
--
-- Dispatch (takt/dispatch): Policy holds AdmissionPolicy, the causes of denials and the errors;
-- Admission is Admit, Admissible and decide of dispatch.go; Lifecycle is Finish, terminate, Record,
-- Launch, Reconcile, Withdraw, Except and checkException, and Contest of contest.go; Recovery is
-- DeclareRecovery, CloseRecovery and Account of recovery.go with what they call. They use the
-- history through an interface (History.Log.Interface), which the store fills. A call's two errors,
-- the append's and its own, are the two fields of a Report. Plan is plan.go: Graph holds validPlan
-- with the graph of a plan and Kahn's loop, Members the declared round, Changes the checks of a
-- revision, and Declaring the operations Commit, Revise and Declare; View is what a plan sees of a
-- unit. Interlocutor is interlocutor.go with the look-up of takt/memory/session_index.go that it
-- pages, Seats is seat.go, Activities is activity.go.
--
-- Gc (takt/gc): Trigger is Decide of trigger.go and Barrier of barrier.go, with the wrap-around of
-- Go's int in the cadence test; Rounds composes the two as their caller does. Plan is SessionDelta
-- and Declare of plan.go; Plan.Closure is about its closure. Coordinator is Observe,
-- ObserveExecutions, Bind, Advance and Close of coordinator.go; Coordinator.Deferrals is about how
-- long Advance puts a cycle off.
--
-- Counters and sequence numbers are natural numbers: they start at zero and go up by one or by a
-- count of calls. An exception's allowance has no upper bound in the code, so the allowances that
-- the fold adds up, and the limits that they raise, wrap around as Go's 64-bit int does. All
-- recursion is structural, with three exceptions on fuel: decimal numbers are printed on 20 digits,
-- enough below 2 ^ 64; Kahn's loop runs on the number of units of the plan, which a theorem shows
-- is enough; and a reader of a lent session's pages makes one call more than there are entries.
--
-- Not modelled: the opening of files and databases, the embedded policy files and their parsers,
-- the restoration of files, the texts of a substitute's identity, the later phases of a maintenance
-- cycle, the workspace file system, installation and the user interfaces.
pub mod Base
pub mod History
pub mod Dispatch
pub mod Gc
pub mod Tests
