-- ===== src/Lib.antt =====
-- AvaSettle's settlement core: the NestJS services that pay out and collect USDC and USDT on
-- Avalanche, over a PostgreSQL database and an RPC node.
--
-- Parts and files
--   Common/      names passed on from the libraries, lists, tables, Boolean tests.
--   Effect/      what an `async` function is here: `Prog` is a program of atomic calls, each of which
--                reads an answer of the outside and changes the world; `throw`, `try`/`catch`,
--                `for … of` and `Promise.all` are functions on it (Defs, Errors). Sequential runs one
--                program alone; Pool runs any number of them, call by call, in any order, with
--                crashes. Weakest, Neutral: the logic in which handlers are proved for every
--                interleaving (Yields is the case with no tokens). Steps, Grows: the logic for what
--                no call undoes. Returns: programs that throw nothing, whatever they are answered.
--                Each: programs on the elements of a list.
--   Records/     the records and enums of src/payouts/payout.types.ts, src/payins/payins.types.ts,
--                src/audit/audit.types.ts, src/configuration/configuration.types.ts and
--                src/settlements/settlements.types.ts, and the webhook outbox.
--   World/       the database tables and what was handed to the network (State), the configuration
--                and the functions of viem as parameters (Setup), and the calls that all services
--                make: audit events of src/audit/audit.service.ts, `enqueue` of
--                src/webhooks/webhook.service.ts, and amounts (Calls). Alone: a run by itself while
--                the database answers. Unchanged: handlers that change nothing.
--   Blockchain/  src/blockchain/blockchain.service.ts: payout rails and transaction reconciliation
--                (Rail, Finality), log reads in chunks (Paginate, Coverage, Logs), deposit addresses,
--                sweeps and top-ups (Deposit).
--   Payouts/     src/payouts/payout-ledger.service.ts (Ledger, Exclusive) and
--                src/payouts/payouts.service.ts (Service/Defs, Authorize, Batch, Reconcile).
--                AtMostOnce/ is the proof for all interleavings of its requests, and Refused for those
--                of a payout that is not prepared.
--   Payins/      src/payins/payin-ledger.service.ts (Ledger) and src/payins/payins.service.ts
--                (Scan/ for the pure functions, Service/Defs, Create, Reconcile, Sweep, Accept).
--                Confirmed/ is the proof for all interleavings of its requests.
--   Webhooks/    src/webhooks/webhook.service.ts: the statements on the outbox (Outbox), an attempt and
--                a run of the dispatcher of src/webhooks/webhook-dispatcher.service.ts (Delivery).
--                Outcome, Verdict, Retry, Unloaded: attempts one by one; Claims, AllDue: claims.
--                Progress, Along, Delivered: what no call undoes.
--   Settlements/ src/settlements/settlements.repository.ts (Repository),
--                src/settlements/settlements.service.ts (Service), and the
--                PrivateSettlementRegistry calls of src/blockchain/blockchain.service.ts (Registry).
--                Opening, Requests: all interleavings of its requests. Outcome: runs alone.
--   Reconciliation/ src/reconciliation/reconciliation.service.ts and the tick of
--                src/reconciliation/auto-reconcile.service.ts (Service). Total: it answers for each
--                candidate; Covers, Complete: each open record is one.
--   Clients/     src/clients/clients.repository.ts (Directory), src/clients/clients.service.ts and
--                src/auth/client-api-key.guard.ts (Service), over a state of their own: the table and
--                the cache of API keys. Sound, Requests: all interleavings of its requests. Admin:
--                src/auth/admin-api-key.guard.ts.
--   Reports/     src/reports/reports.service.ts and `listForTrail` of src/audit/audit.service.ts
--                (Service, Trail).
--   Http/        src/auth/extract-api-key.ts (ApiKey) and src/common/throttle.middleware.ts
--                (Throttle); Bucket is a limiter of one bucket, and Windows, Limit and Refused relate
--                the middleware to it.
--   System/      payouts, pay-ins, settlements, reconciliation and the dispatcher on one world
--                (Messages); Quiet/ shows for each handler that it makes progress with the outbox and the audit log.
--   Tests/       concrete inputs.
--
-- How it corresponds. A SQL statement is one atomic function on a list of rows, and its answer may be
-- lost after it was executed. Every `await` of the database, the clock, the random source or the RPC
-- node is one `call`; between two calls of a handler any other handler may run.
-- The members of a `Promise.all` make their calls in order, and it waits for all of them, also when one
-- has failed. UUIDs, addresses and
-- hashes are numbers (the hashes of API keys are texts); amounts in atomic units are natural numbers
-- without bound, as `bigint` is;
-- timestamps are in milliseconds. `none` in a patch is a key that is not in the patch object, and
-- `some none` is `null`. Exceptions are constructors of one type, named after the place that throws.
-- A leg of `broadcasts` says for which payout it was sent, a POST for which outbox row, and a reveal of
-- which commitment, which the source knows at that point. The text of `last_error` is kept as data.
--
-- Fuel. `paginateLogs` has one round of fuel for each block of its range, and a round covers 2000
-- blocks or ends the loop; the loop is proved to end before the fuel does. The batch loop of a
-- reconciliation run has one round for each candidate, and a round covers ten or ends the loop.
--
-- Parameters. The configuration and viem's `parseUnits`, `formatUnits`, `isAddress`, `keccak256` and
-- key derivation, and the HMAC and SHA-256 of node:crypto, are arguments of the definitions. The
-- answers of the database and of the RPC node are arbitrary in the theorems on interleavings.
--
-- Not modelled: the controllers and DTO validation, reading the configuration, the timers
-- themselves, checkout, ChainFlow, the summary report (its volumes are floating-point sums), the SDK,
-- the landing page and the Solidity contracts. The references of vault transactions and the texts of
-- messages are left out. The auto-sweep that `reconcilePayIn` starts without awaiting it is returned
-- as a flag, as it is a request of its own.
pub mod Common
pub mod Effect
pub mod Http
pub mod Records
pub mod World
pub mod Blockchain
pub mod Payouts
pub mod Payins
pub mod Webhooks
pub mod Settlements
pub mod Reconciliation
pub mod Clients
pub mod Reports
pub mod System
pub mod Tests
