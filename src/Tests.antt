-- ===== src/Tests.antt =====
-- Concrete runs, and the theorems at concrete inputs.
mod World
mod Ledger
mod Waiting
mod Idempotency
mod Payments
mod Saga
mod Refunds
mod Webhooks
mod Reconciliation
mod OutboxRelay
mod System
mod Schema
mod Accounts
mod Http
mod DailyPush
