-- ===== src/Lib.antt =====
-- axigate-finops, verified: the spend controls of its gateway and the totals of its ledger.
--
-- The gateway (internal/gateway) proxies model calls and keeps, per process, a controller that
-- decides which call of an agent's run may go through: calls and dollars per run, dollars per key
-- and per day, pauses that an operator lifts, a kill switch, a shadow mode and a bypass. A request
-- handler asks for an admission, forwards the call, and settles its cost or releases it.
--
-- Prelude holds what the parts share: Boolean tests, lists, byte strings, integers, maps as
-- association lists without order, and the operations of float64 as a record (Floats), taken as a
-- parameter by everything that computes with dollars. Laws of float64 that a theorem relies on are
-- named hypotheses; the witnesses take exact dollars in billionths.
--
-- Gateway.Control models internal/gateway/control.go and the key labels of
-- internal/gateway/keyid.go:
--   State     ControlPolicy, runState, keyState, StopEvent, controller; newController, noteRun,
--             noteKey, keyDay, money, micro, keyLabel
--   Evict     evict, evictKeys
--   Pause     keyLocked and its day rollover, pauseKeyLocked, keyCapLocked, pauseLocked
--   Admit     admit and admitKeyed, one helper for each of its steps in order
--   Settle    recordKeyed, releaseKeyed
--   Operator  noteRun, noteKey, resumeKey, markKeyPaused, setRunCap, markPaused, resumeRun,
--             setKilled
--   Status    status, shadowNote
-- The locked section of a method is a function from the controller to the controller; a history of
-- calls is a sequence of such steps, in any order (Trace), of which those that the call cap does not
-- bind are set apart. Go's map order, which eviction leaves
-- unspecified between equal times, is the order of the association list.
--
-- Gateway.Loop models internal/gateway/loop.go, the detector that annotates suspected loops: Detect
-- has LoopPolicy, Decision, detector, newDetector, observe and evict; History has the calls of a
-- detector's life and what they leave in the window, which is what it is compared with.
--
-- Gateway.Identity models internal/gateway/identity.go, which names the run of a request from its
-- headers; Header.Get is a parameter.
--
-- Gateway.Handler models what the proxy does with a request (internal/gateway/gateway.go, with
-- internal/gateway/counter.go, internal/gateway/admin.go, internal/gateway/recorder.go and
-- internal/gateway/keyid.go):
--   Request   copyHeaders, tagsFromHeaders, keyFingerprint, keyName, parseMoney, geminiModelFromPath,
--             preferRequestModel
--   Budget    the interface budget, filled by memoryBudget and by the shared counter
--   Row       the events of record and recordBlocked
--   Admin     serveAdmin, over any budget
--   Record    record, recordBlocked, capWriter, how a response's usage is read, and the recorder's
--             Record
--   Serve     ServeHTTP and signature
--   Ledger    ParseLedger of internal/gateway/ledger.go, which reads the recorder's file back
-- The provider's answer to a request, what the clock gives, and what is used of the standard library
-- are parameters. A request is served as a whole; the controller's own interleavings are those of
-- Gateway.Control.Trace, whose steps the requests of a gateway are (Handler.Reached, Handler.Capped).
--
-- Replicas can share a counter (internal/gateway/counter_redis.go) that stands in front of the
-- controller and keeps the same tallies in a Redis store. Three parts model it:
--   Gateway.Store   the Lua scripts that the store runs, each one step on its records: Admit, Settle
--             (record and release) and Operator (cap, resumes, pauses, the kill switch). Settlements
--             and admissions carry the id of the call. Dollars are whole micro-dollars.
--   Gateway.Resp    internal/gateway/resp.go: the wire protocol (Value; Wire has writeCommand and
--             readReply), a command on a connection (Client), and the pool of connections with get,
--             put, do and eval (Pool), over the network and the sizes that the runtime allocates as
--             parameters; a buffer that is not allocated is a panic
--   Gateway.Shared  sharedCounter: State, Reasons (reasonText, keyReason), Fallback (owe,
--             freshFallback, fail, degrade, the notes), Deliver (take, deliver, flush), Recover
--             (recovered, probeLoop), Calls (admitWhere, settle, record, release), Asked (resumes,
--             setRunCap, setKilled, report), Status, Date (time.Format)
-- Gateway.Shared asks the store through a client, a parameter: a function from a request and
-- everything beyond the process to an outcome and what becomes of it. Its local fallback is the
-- controller of Gateway.Control. A method runs as a whole.
--
-- Gateway.Stream models internal/gateway/stream.go, which reads the usage out of a streamed response:
-- Usage has sseUsage, consume and Write, with what json.Unmarshal gives as a parameter; Lines has the
-- lines of a text, which it is compared with. Body models extractUsage of
-- internal/gateway/gateway.go, for a response that came whole.
--
-- Ledger models internal/ledger/event.go: Event has the confidence states, the event and Validate, and
-- Identify has DeriveID over the digest. Report models internal/report/report.go: Rows has IsCostRow,
-- Metered, CostCoverage, Covers, countsTowardTotal, Included, ownerKey and lowestConfidence; Lines has
-- acc, add and linesOf; Build has the loop of Build over the events, and Finish what it makes of its
-- maps. How Go writes a day is a parameter. Importers write these events, and the exports take the
-- included ones.
--
-- Pricing models internal/pricing/pricing.go: Table has the tables and Resolve, Price has Price and
-- FullPriceEquivalent, with counts that wrap as int64 does, and uncachedOnly of the report.
-- Export models the exported CSV files, as the cells that the CSV writer is handed: Field has
-- internal/csvsafe/csvsafe.go, Focus has internal/focus/focus.go, and Statement has
-- internal/statement/statement.go. Owners.Mapping models internal/owners/owners.go,
-- over the records that the CSV reader gives; case and white space are those of ASCII.
--
-- Loops are structural recursion. The only bounds on a recursion are the 400 days that CostCoverage
-- itself allows; for the digits of strconv.Itoa one step more than the number, which is at least the
-- number of its digits; for readReply how deep arrays stand in arrays, where one more than the
-- number of bytes is enough; for the rounds of do one more than the idle connections; for the lines
-- of Write one more than the bytes; and for the batches of deliver one more than the items owed.
--
-- Not modelled: HTTP connections, files, JSON, templates and flags, which are I/O or the standard
-- library's; New and the startup lines; the start of the shared counter and the expiry of records in
-- the store; the stop alert; the importers.
pub mod Prelude
pub mod Gateway
pub mod Ledger
pub mod Report
pub mod Export
pub mod Pricing
pub mod Owners
