-- ===== src/Lib.antt =====
-- The Cardano Lightning relay swaps Lightning bitcoin for cBTC on Cardano (onramp) and back (offramp).
--
-- The parts, and where they stand:
--   Prelude           names shared by all: numbers, integers, lists, text.
--   Status, Mapping   src/mapping.rs: the two statuses, the rows, and each statement of `SwapDb` as a
--                     function on the two tables. A statement runs under the mutex of the
--                     connection, so it is atomic.
--   Types             src/types.rs: the records of payments, and the data of other crates.
--   Libs              the functions of other crates (bolt11, bech32, hex) as parameters.
--   Runtime           how asynchronous code runs: a task is a tree of statements on the shared state
--                     and of calls to the outside, whose replies are arbitrary (src/cardano_ops.rs, the
--                     clock, the node, the disk). `Runtime.Only` and `Runtime.Budget` have properties of all
--                     runs of a task, `Runtime.Logic` of the end of a task that runs alone, `Runtime.Tasks` of tasks
--                     that interleave.
--   Amounts, Helpers  src/amounts.rs and src/helpers.rs: units, and the two retry loops.
--   Swap              src/cardano_swap.rs: request, store and fulfil a swap; address checks.
--   Payments          `send_payment` of src/cli/payment_cmds.rs.
--   Offramp           src/cardano_offramp.rs: request, deposit, completion, failure, cancellation.
--   Recovery          src/recovery.rs: the passes over half-done rows at a start.
--   Background        src/background.rs: one tick of each expiry monitor.
--   RateLimiter, Api  src/api.rs: the limiter, the operator token, the handlers.
--   Events            the payment events of src/events.rs and the tasks that they spawn; `Events.Channels`
--                     has the events on channels and peers.
--   Hex               src/hex_utils.rs, on character codes.
--   Chain             src/esplora.rs, src/bitcoind_client.rs, src/bdk_wallet.rs and src/convert.rs: the table
--                     of fees, both fee estimators, funding and signing, broadcasts and spendable outputs. Floats,
--                     JSON, wallets and the replies of the node are parameters (`Chain.Float`, `Chain.Json`).
--   Cli               src/cli: `Cli.Terminal` turns a line into the effects it comes to, `Cli.Pay` has the payments,
--                     `Cli.Cardano` the commands on the contract. What the node knows is `Cli.Node`.
--   Args              src/args.rs: the command line, the env file, the cookie and the variables. What the
--                     process finds around it is the record `Args.Auth.Env`; `Args.Startup.Reading` tells a panic
--                     from an error.
--   Relay             all tasks on the database together, and what holds of any interleaving.
--   Examples, OfframpExamples, ApiExamples   concrete states on which the theorems are applied; the later parts
--                     have a module `Tests` each.
--
-- A function of the source is a function of the same name here; where it goes on after an answer, the
-- rest is a function of its own (`fulfill_claimed` is `fulfill_swap` after the claim). The loops run
-- over the attempts that are left, so they need no fuel: 3 attempts 15 seconds apart to submit, 24
-- attempts 10 seconds apart to find an entry on-chain, 3 attempts 5 seconds apart in the recovery.
-- Sums of signed 64-bit integers wrap at 2^63 and of unsigned ones at 2^64; the checked product of
-- amounts is cut at 2^64.
-- The process is built to abort on a panic, so a panic ends every task.
--
-- A panic in `Chain` is `none`. The cancel loops stop after a time budget, checked before each entry.
--
-- Not modelled: errors of SQLite itself, what is only printed, the connections to the Bitcoin node,
-- the files, the construction of the Lightning node in src/main.rs, and that node itself, which
-- only shows in its replies and events.
pub mod Prelude
pub mod Status
pub mod Mapping
pub mod Types
pub mod RateLimiter
pub mod Runtime
pub mod Libs
pub mod Amounts
pub mod Helpers
pub mod Chain
pub mod Args
pub mod Cli
pub mod Hex
pub mod Swap
pub mod Payments
pub mod Offramp
pub mod Recovery
pub mod Background
pub mod Events
pub mod Api
pub mod Relay
pub mod Examples
pub mod OfframpExamples
pub mod ApiExamples
