-- ===== src/Lib.antt =====
-- The Solana Yield Adapter Standard: an on-chain dispatcher that holds positions in USDC and routes
-- deposits, withdrawals, and readings of a position's value to listed adapter programs, each of which
-- puts the funds into one protocol.
--
-- The parts and their files:
--
--   crates/adapter-interface: the constants of the standard, the encoders of its four calls, the u64
--   that a program answers with as return data, and the check of the caller. Interface has the
--   definitions; Interface/Wire has the calls as data, a reader of Anchor instruction data, and the
--   laws.
--
--   programs/dispatcher: the registry, the entries of listed adapters, and the positions. Dispatcher
--   has the accounts, the seeds and the events (state.rs, constants.rs, events.rs);
--   Dispatcher/Governance has initialize_registry, whitelist_adapter and pause_adapter;
--   Dispatcher/Funds has open_position, deposit, withdraw and current_value; Dispatcher/Routing has
--   routing.rs. For an instruction `f`, `validate_f` is the `#[derive(Accounts)]` struct, and `f` is
--   the handler on what it yields. Dispatcher/Invariant has the program's entrypoints, and histories
--   of them as a step relation, whose chains are arbitrary from one step to the next.
--   Dispatcher/History and Dispatcher/Pausing have what no instruction undoes, and the registry as the
--   gate of routing.
--
--   programs/kamino-usdc: an adapter. Adapters has what the adapters share, Adapters/Scaling the
--   pricing by a product in 128 bits, and Adapters/Kamino the adapter's own accounts; under it are
--   klend_cpi.rs (Klend), the handlers (Handlers), and what these do (Value, Shares, Callers).
--
--   programs/marginfi-usdc: another adapter, under Adapters/Marginfi: marginfi_cpi.rs (Bank), the
--   handlers (Handlers), the search for a balance (Balances), the price (Value) and the booked
--   principal (Shares).
--
--   programs/maple-syrup: an adapter that buys and sells on a pool, under Adapters/Maple: orca_cpi.rs
--   (Orca), the handlers (Handlers), the price (Value) and the tracked shares (Shares).
--
--   programs/drift-if: an adapter that stakes in Drift's insurance fund, under Adapters/Drift:
--   drift_cpi.rs (Stake), the handlers (Handlers), the value (Value) and the tracked shares (Shares).
--
--   programs/jupiter-lp: an adapter that holds the liquidity token of a perpetuals pool, under
--   Adapters/Jupiter: jup_cpi.rs (Perps), the handlers (Handlers), the value (Value) and the tracked
--   shares (Shares).
--
--   Adapters/Calls has the shape of a CPI that was made; a child Calls of an adapter has the program, the
--   metas and the data that its CPIs send. In each adapter, Accounts takes the accounts of an instruction in the order of its struct, and
--   Program has lib.rs, the choice of the handler, with the proofs that the program keeps the contract
--   of Adapters/Standard. The contract is a record of operations and laws; what follows from it for any
--   adapter stands under Adapters/Standard (an abstract ledger of share counts, what is conserved, what
--   stays, who is served), and Adapters/Programs has it for the five programs. Integration puts the
--   dispatcher and an adapter together: it follows a routed instruction through the CPI into the
--   adapter's accounts.
--
-- Runtime has what the programs rely on and do not contain: the record `Runtime` holds program-derived
-- addresses, the instructions sysvar, CPIs, token transfers and the creation of accounts as
-- parameters; those that can fail return an option. `Chain` is all that these can read and change. Runtime/Anchor
-- has the constraints of Anchor as guards. The accounts that a program owns are kept apart, as a
-- `Store` for each account type; a failed instruction returns an error and no state, since the runtime
-- rolls it back. The order of the checks is that in which the framework makes them: the accounts are
-- loaded first, then `init`, then the other constraints. Where a result needs a law of the runtime, it
-- is a named hypothesis (`PdaLaws`, `SysvarLaws`, and `CpiLaws`, by which a CPI to an
-- adapter that succeeds has run its entrypoint), and the tests give a runtime that satisfies it.
--
-- An address is a number; so are bytes and machine words, with the checks of overflow written out.
-- Timestamps are integers. There are three loops, two over lists of remaining accounts, which are by
-- recursion on the list, and one over the sixteen balances of a MarginFi account, which is by
-- recursion on their number, so nothing needs fuel.
--
-- Not modelled: the encoding of accounts as bytes by the framework, lamports and rent, compute limits,
-- and what a protocol does in a CPI, all of which stand outside the repository. The scripts, the tests
-- in TypeScript and the build files are left out too: they carry none of the programs' behaviour.
--
-- Samples has a small concrete runtime, and Tests the runs on it.
pub mod Base
pub mod Runtime
pub mod Interface
pub mod Dispatcher
pub mod Adapters
pub mod Integration
pub mod Samples
pub mod Tests
