-- ===== src/Lib.antt =====
-- MeterKit sells HTTP resources for payments in USDC on Solana: an SDK that guards a resource, a
-- gateway with a PostgreSQL store, and packages around them. This library models the parts that
-- decide whether money may move, as functions on explicit state, and proves what they guarantee.
--
-- * Spend models the allowance ledger of packages/database/src/index.ts and of
--   packages/database/migrations/005_authorization_reservations.sql: two tables and one function
--   for each method of `PostgresStore` that works on them (Tables, Allowances, Reservations). A method
--   is one transaction: an error leaves the tables as they were. `now()` and `new Date()` are an
--   argument of the functions. The other modules of Spend prove what the ledger keeps.
-- * Authorization models `agentAuthorizationViewSchema` of packages/core/src/authorization.ts, and
--   below it `AgentBudgetGuard` of packages/sdk/src/agent-budget.ts (Checks, Budget), `evaluateAgentSpend`
--   of packages/subscriptions/src/policy.ts (Spending), `buildFixedAuthorizationView` of
--   packages/subscriptions/src/authorization.ts (Fixed) and `toHostedAuthorization` of
--   apps/gateway/src/authorization.ts (Hosted). Guarded puts the guard over the ledger.
-- * Payments models the payment stores: `MemoryPaymentStore` of packages/core/src/index.ts (Memory), the
--   table of packages/database/src/index.ts (Table) and packages/database/src/standalone-payment-store.ts
--   (Standalone). Interface is the store that the SDK is given, which Stores and Logging fill; Finality is
--   the reconciler of apps/gateway/src/finality.ts over the store interface that the table fills.
-- * Receipts models public receipts: packages/core/src/receipt.ts and `savePublicReceipt`.
-- * Challenges models wallet challenges: apps/gateway/src/wallet-auth.ts, with its memory store and the
--   table behind one interface, whose law `IsSingleUse` both fill.
-- * Policies models packages/core/src/policy.ts and packages/sdk/src/policy-runner.ts.
-- * Products models `productSchema` of packages/core/src/index.ts and the tables of products, of
--   idempotency keys and of sessions in packages/database/src/index.ts.
-- * Evidence models packages/pilot/src/self-service-evidence.ts and
--   packages/pilot/src/self-service-ledger.ts.
-- * Settlement models `SolanaSettlementValidator` of packages/sdk/src/index.ts: the attempts, and the checks
--   on the balances.
-- * Middleware models `createMeterKitMiddleware` of the same file over the store interface of
--   Payments.Interface, with requests that overlap. Resource models `createMeterKitResourceServer`: the
--   facilitator that validates and saves, and the hooks that run the policies and the agent budget.
--   Dynamic models `createDynamicX402Middleware` and `parseProductScope`.
-- * Upstream models apps/gateway/src/upstream.ts. Gateway models handlers of apps/gateway/src/server.ts as
--   functions on its stores: the session of a request (Session), the receipts (Receipt), the requests on
--   allowances (Allowances), the requests that a wallet signs (Creating) and `resolveScopedProduct` (Resolving).
-- * Subscriptions models packages/subscriptions/src/index.ts: the policy of an allowance, and the builders
--   (Building) of the instructions (Instructions) that the client library is given.
-- * Configuration models apps/gateway/src/config.ts.
-- * Initializer models packages/core/src/initializer.ts and packages/create-meterkit/src: plan.ts (Planning) and
--   write.ts (Writing), over a file system whose calls may fail.
-- * Identities models the users, link states and linked GitHub identities of packages/database/src/index.ts
--   with packages/database/migrations/006_linked_identities.sql, apps/gateway/src/github-auth.ts (Github) and the
--   endpoints of apps/gateway/src/server.ts for them (Endpoints).
-- * Platform holds what is taken from the platform: URL parsing, SHA-256, the length of a text. Its
--   fields are parameters of the theorems about code that uses them.
-- * Prelude holds the shared list, number and result functions and their lemmas.
--
-- Atomic amounts are decimal texts in the source and natural numbers here, with the bound of
-- numeric(20, 0) where the database has it; an amount that `BigInt` may read as negative is an
-- integer. Times are milliseconds. A map or a table is a list, a thrown error is a value. The
-- ids of reservations are texts, where their column is a uuid. Every
-- function is structurally recursive, so no fuel is needed.
--
-- Not modelled: the routing, the rate limits and the reading and pilot endpoints of the gateway, the
-- web pages, the command line, the Solana RPC and x402 beyond what their callers
-- rely on, the builders of subscription instructions that only pass their input on, the pilot store,
-- row locks, and concurrent transactions of which one is not serialised behind the other.
pub mod Authorization
pub mod Challenges
pub mod Configuration
pub mod Dynamic
pub mod Evidence
pub mod Gateway
pub mod Identities
pub mod Initializer
pub mod Middleware
pub mod Payments
pub mod Platform
pub mod Policies
pub mod Prelude
pub mod Products
pub mod Receipts
pub mod Resource
pub mod Settlement
pub mod Spend
pub mod Subscriptions
pub mod Upstream
