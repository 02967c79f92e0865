-- ===== src/Lib.antt =====
-- Models of the test automation library of the sovereign network, in src/ of the repository, and what
-- they guarantee. The library drives nodes, relayers, a backend and chains from end-to-end tests; all
-- its operations are asynchronous, may throw, and are built from retries, polls and deadline loops.
--
-- Js models thrown values and asynchronous code over a state: `Exec S A` takes a state to a result and
-- the state reached, also when it throws. Logging holds the `World`, which is the process's logger and
-- everything outside (a parameter `X`), and `Host`, the timers, clock and environment. Contracts,
-- providers, HTTP, docker and the backend are parameters: records of operations on the world.
--
-- Files and the code that they model:
--   Errors        src/exceptions-and-errors: error classes, patterns, transient conditions
--   Logging       src/entities/Logger.ts
--   Env, Nodes    src/config/env-config.ts, src/entities/PrivacyNodeManager.ts
--   Nodes/Wallets src/utils/wallet-factory.ts
--   Retry         src/utils/common.ts: retry
--   Polling       src/utils/common.ts: poll, eventually, never
--   Transactions  src/utils/common.ts: waitForReceipt, sendTx, submitTx
--   Messages      src/utils/common.ts: getMessageId
--   Timed         the deadline loops of src/utils/fault-injector.ts and src/utils/docker-compose.ts
--   Faults        src/utils/fault-injector.ts: services, points, injector and session
--   Compose       src/utils/docker-compose.ts
--   Backend       src/flows/backend, with the controllers of src/api as parameters
--   Tokens        src/entities/tokens/BaseTokenWrapper.ts; Erc721: ERC721Wrapper.ts there; Reads: the waits
--                 that poll one read of a chain
--   Tokens/Relay  src/entities/tokens/ERC1155Wrapper.ts: waitForPNHMintRelay
--   Tokens/Erc1155
--                 the same file: minting and transfers; Dvp: deposits, withdrawals and their waits
--   Tokens/Factory
--                 src/entities/tokens/ERC20Wrapper.ts, and the deployments through the node's factory
--   Tokens/Enygma src/entities/tokens/EnygmaWrapper.ts; Db: src/utils/db-utils.ts
--   Contracts     src/entities/ContractStore.ts
--   Blocks        src/utils/network-utils.ts: waitForNumberOfBlocks
--   PrivacyNode   src/entities/PrivacyNode.ts: the registry of deployments, the grants of roles, contract keys;
--                 Resources: setContractByResourceId there and in src/entities/PrivateHub.ts
--   PrivateHub    src/entities/PrivateHub.ts: the deployment and its wiring, getInstance; Registry: tokens,
--                 roles, participants and swaps
--   Runner/Queue  scripts/runners/base-parallel-runner.js: runParallelWithQueue, as a step relation
--   Runner/Flags  the same file: isScriptName, parseHardhatScript, _dedupeFlags; with Options and Words
--   Runner/Order  the same file: _loadDurationHints, _sortByExpectedDuration
--   Runner/Recovery, Runner/Phases
--                 the same file: awaitRelayerRecovery, and resolveFiles, bootstrap, runSerial and run;
--                 with the partitions of e2e-parallel-runner.js and smoke-parallel-runner.js
--   Runner/Bootstrap
--                 scripts/runners/bootstrap-worker-wallets.ts: the wallets' roles and ether
--   Shared        numbers, lists and texts; src/utils/formatters.ts: shortHex
--   Tests         concrete runs
-- Functions keep the source's names, in lower case with underscores.
--
-- The hub fills the interface that a token's wrapper uses for its activation (`Tokens.Hub`), so what is
-- known of the two together is stated in PrivateHub/Activation. A local variable that a check writes and
-- the code behind the wait reads is the value of the check in the model.
--
-- The runner starts the tests: it resolves the files, gives the workers' wallets their role and ether,
-- runs the serial files, waits for the relayers and then lets several slots take files from one queue.
-- A slot gives up control only where it awaits, so a step of the queue is the code between two awaits;
-- the steps may come in any order. Child processes, globbing, docker and reports are parameters.
--
-- Loops: retry, poll and submitTx recurse on the attempts that are left, which is the source's own
-- bound. The deadline loops take fuel, one round per millisecond of the timeout and one more, which is
-- enough if the clock runs forward and the pause between two probes is not zero. The queue makes at most
-- one step for each file and each slot. The wait for the relayers has no bound in the source; its fuel
-- is a number of rounds, and a run that uses it up has no result.
--
-- Simplifications: numbers are natural, so attempts and delays are not negative or fractional; the clock
-- is whole milliseconds; a JSON text of a polled value is a total function, where JSON.stringify throws
-- for a bigint; payload texts are left out of some logged lines, and all that the runner prints. `Number`
-- of a large integer is rounded to 53 bits, as in the source, for amounts of 256 bits.
--
-- Not modelled: the tests themselves, the configuration of hardhat and the reading of reports, the
-- governance API, the recovery scenario of the database, and those methods that only connect a
-- contract or send one call.
pub mod Shared
pub mod Js
pub mod Errors
pub mod Logging
pub mod Env
pub mod Retry
pub mod Runner
pub mod Polling
pub mod PrivacyNode
pub mod PrivateHub
pub mod Transactions
pub mod Messages
pub mod Timed
pub mod Faults
pub mod Backend
pub mod Tokens
pub mod Nodes
pub mod Compose
pub mod Blocks
pub mod Contracts
pub mod Tests
