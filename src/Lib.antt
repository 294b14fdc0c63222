-- ===== src/Lib.antt =====
-- A verification of core services of the Oneinstack panel, a Go server that manages a host. Each
-- service keeps its state in tables of a database through gorm. Here a table is a list of records,
-- an operation is a function from the tables, its arguments, the time and what it draws at random to
-- the new tables and its result, and an error is a value. A transaction is one function: where it
-- fails, the tables are those before it.
--
-- The parts, and the files of the repository that they model:
--   * Audit: the hash chain of audit events, internal/services/audit/manager.go and integrity.go
--     with internal/models/audit.go. Audit declares the rows and `Signer`, the keyed MAC and the
--     encodings that it signs, with the upper case of runes beyond ASCII. Audit/Normalize has
--     `sanitize`, `sanitizeDefault` and `normalize`, Audit/Chain `signEvent` and `verifyLocked`,
--     Audit/Append `Append`, Audit/Cleanup `CleanupBefore`.
--   * SoftwareTask: tasks that install, remove or control software, internal/services/softwaretask with
--     internal/models/software_task.go, software_configuration_history.go and software.go.
--     SoftwareTask/Phases has the table of phases, SoftwareTask/Reporter `publishLocked` and
--     SoftwareTask/Reports the reporter's calls, all of reporter.go. SoftwareTask/Catalog has the lookups
--     in the table of software, SoftwareTask/Submit the checks of `submit`, SoftwareTask/World the
--     manager's state and the writes of `submit`, SoftwareTask/Callers the calls that make its requests,
--     SoftwareTask/Workers the steps of `run`, SoftwareTask/Restart `reconcileInterruptedTasks`, all of
--     manager.go, and SoftwareTask/Cancel `Cancel` and `Touch` of repository.go. SoftwareTask/Steps has
--     every order of all these steps: a worker's `run` is cut where other goroutines may act between its
--     reads and writes, and `Cancel` is cut in two. A worker's steps may come in any number of workers at
--     once, where the code has two, and its deferred calls are one step. After the executor's return
--     the reads that choose the reports are one step, and each report is another.
--   * Approval: the requests that one user makes and another reviews,
--     internal/services/approval/service.go and expiry.go with internal/models/approval.go.
--     Approval/Service has the operations, `Approve` and `Reject` in two halves; Approval/Transitions
--     has the step relation of a request, and calls one after another; Approval/Overlap has the halves
--     of reviews in any order.
--   * Mfa: the second factor, internal/services/security/totp.go with internal/models/security.go and
--     user.go. Mfa declares `Crypto`, what the service takes from ciphers, MACs and encodings; Mfa/Totp
--     has the codes, Mfa/Manager the calls of `TOTPManager`, `Setup` in two halves; Mfa/Overlap has
--     these halves and the other calls in any order.
--   * Preview: the single-use previews of operations, internal/services/operationpreview/service.go.
--     Preview has `Create` and `Consume`, and Preview/Once the writes of calls that overlap.
--   * RateLimit: the limiter of requests, router/middleware/ratelimit.go. RateLimit has the two halves of
--     `Allow`, which two locks guard, and `cleanup`, and RateLimit/Visits any order of them.
--   * KeyTrust: the keys that may sign an update, internal/services/panelupdate/keytrust.go. KeyTrust
--     declares the records and `Crypto`, KeyTrust/Keyset has `validateKeyset` and `verifyKeyset`, and
--     KeyTrust/Refresh `RefreshKeyTrust` with the file, which may have changed between its load
--     and its write.
--   * Firewall: the validation of firewall rules, internal/services/safe/validation.go with
--     internal/models/iptables.go. Firewall has `normalizePorts` and `portSetContains`, Firewall/Rules
--     `normalizeIPs` and `normalizeRule`; `Net` has the parsers of addresses, and the sort of ranges that
--     start at the same port, which Go leaves open, keeps their order.
-- Common and Text hold what the parts share: tests on numbers, lists over the native numbers, signed
-- integers, and Go's strings as lists of runes with the functions of `strings` and `unicode` used.
--
-- The services meet in the rows of the database: a user's id, a task's id. Handlers of router/handler
-- call them, several at a time, and no service here calls another.
--
-- Bounds: the sequence numbers of the chain are uint64 and wrap at 2 ^ 64; theorems that need it
-- have the hypothesis that the chain is shorter. `Append` makes four attempts, as in the code, and
-- its loop is a recursion on the attempts that are left. The number of digits of a user's id is cut
-- at 20, which an int64 never exceeds, and the digits of a port at five. The queue of software tasks
-- takes 128, and a request beyond fails. A one-time code's counter is an integer that may be -1, as
-- in the code.
--
-- Not modelled: failures of a query or a write other than those of the transactions of `Append` and
-- `CleanupBefore`, since a failed one only returns its error; locks of a process, since what they
-- guard is one step here; lists, statistics and logs of software tasks; what an executor does beside
-- the calls of its reporter, whose outcome and error class are arguments; columns of a task's
-- request parameters; the encodings, MACs, ciphers and password hash, which are fields of a record
-- that the definitions take, with the laws that a theorem needs as its hypotheses; notification of
-- subscribers; logging; the unique index of a task's events on their number; columns that no
-- modelled operation reads or writes.
--
-- A call that reads and later writes in no transaction may overlap with others. `Cancel`, `run`, `Consume`,
-- `Setup` and the reviews of a request are cut into steps that others may come between. Runs of
-- `RefreshKeyTrust` are of whole calls, and KeyTrust/Examples has one call in which another comes in
-- between; Mfa/Examples has a `Setup` that undoes a confirmation. `CreateOrReusePending`, between whose query and insertion
-- another may create the same request, is one step.
pub mod Approval
pub mod Audit
pub mod Common
pub mod Firewall
pub mod KeyTrust
pub mod Mfa
pub mod Preview
pub mod RateLimit
pub mod SoftwareTask
pub mod Text
