-- ===== src/Lib.antt =====
-- Verification of the Apex payments engine: a double-entry ledger, a payment saga that holds,
-- settles and reverses funds around the call of a payment provider, refunds, idempotency keys, and
-- webhooks of the provider.
--
-- How the parts interact. `PaymentService.create` claims an idempotency key and holds the funds in
-- one transaction, calls the provider outside of any transaction, and settles, reverses or parks
-- the payment in a second one, which also stores the response under the key. `RefundService` and
-- `WebhookService` work in the one transaction of their handler. All of them move money by
-- `LedgerService.post` only, and announce it by rows of the outbox.
--
-- Which file models what (paths of the repository on the right):
--   Domain/Enums, Domain/Exceptions, Domain/Models   app/domain/enums.py, exceptions.py, models.py
--   Schemas         app/application/schemas.py
--   Session         the session of SQLAlchemy as the services use it, and the code outside of the
--                   repository
--   Ledger          app/application/ledger_service.py; Ledger/Waiting has concurrent transactions
--                   that wait for row locks, freed as app/infrastructure/database.py ends them
--   Idempotency     app/application/idempotency_service.py, `IdempotencyLock` of
--                   app/infrastructure/redis_client.py
--   Psp             app/infrastructure/psp/provider.py, mock_psp.py, stripe_psp.py, and the choice
--                   of a provider in app/api/dependencies.py
--   Saga            app/application/payment_saga.py
--   Payments        app/application/payment_service.py, app/api/payments.py
--   Refunds         app/application/refund_service.py, app/api/refunds.py
--   Webhooks        app/application/webhook_service.py, app/infrastructure/psp/signature.py,
--                   app/api/webhooks.py
--   Reconciliation  app/application/reconciliation_service.py, app/api/reconciliation.py;
--                   Reconciliation/Runs has sequences of the transactions of all services
--   OutboxRelay     app/application/outbox_relay.py; OutboxRelay/Loop has its loop
--   Accounts        app/api/accounts.py
--   Schema          alembic/versions: the constraints of the tables, the deferred trigger on the
--                   entries and the seeded rows
--   Http            the exception handlers of app/main.py, the messages of
--                   app/domain/exceptions.py, and the endpoints that change tables
--   DailyPush       scripts/daily_push.py
--   System          no code of its own: the calls of `create` that wait for the provider, and what
--                   may happen next, each event being the functions of the files above;
--                   System/Lifecycle has the statuses of a payment as a state machine
-- The functions keep the names of the methods, in snake case. The modules below a component prove
-- its properties; Prelude holds what all of them share, and Tests runs the program on concrete
-- tables.
--
-- The state. A `World` is the tables, each a list of rows in the order of insertion, and the number
-- of external calls made so far. An `Action` is a method in a session: it takes a world and gives a
-- result, a value or an exception, and the new world. What an action wrote before it raised stays
-- until `transaction`, which is `async with session.begin()`, rolls it back. A row that the code
-- changes in place is changed in its table, so that a later query of the same session sees it.
--
-- What is not in the repository is a field of `Environment`: clock, UUIDs, Redis, hashes, JSON,
-- Stripe, and whether the database takes a write (`accepts`). Each call is given its number, so
-- nothing is assumed of how two answers are related; nothing is assumed of the UUIDs either.
-- Theorems that a call returns take `AcceptsAll`, by which the database takes each write; those on
-- the whole service take `EnforcesIds`, by which it accepts no two payments with one id, and which
-- follows from the constraints of Schema.
--
-- Numbers. Amounts and balances are integers without bound, as in Python; that the columns are
-- BIGINT is a check of Schema, and what the database refuses is left to `accepts`. UUIDs and times
-- are numbers, of which only order, equality and, for times, the addition of a timeout are used.
-- The rounds of the relay's loop run on fuel, one more than the events that wait being enough; each
-- other recursion is on the structure of a list.
--
-- The commit script has a state of its own, the git commands that it has run; git and the files are
-- the record `Repository`, whose answers depend on them. The loop of its listing has as much fuel as
-- there are files, and takes one at least in each round. The digits of a number in a message are
-- drawn on one more fuel than the number is large, which is enough.
--
-- Not modelled: SQLAlchemy's engine and its pool (app/infrastructure/database.py), the FastAPI
-- application (app/main.py) but for its exception handlers, the settings that no decision reads
-- (app/config.py), Redis clients, the indexes and downgrades of the migrations, alembic/env.py, and
-- logging; they are set-up, glue, or code for other programs. Row locks have no effect in a run of
-- one request; what they mean for posts at the same time is modelled in Ledger/Waiting, for
-- transactions that post once, and without the lock of a payment's row that some of them take
-- before. Requests interleave by their transactions, in the order in which the database serialises
-- them (Reconciliation/Runs). Not modelled either: the sleep of the relay's loop and how it is
-- stopped.
pub mod Prelude
pub mod Domain
pub mod Schemas
pub mod Session
pub mod Ledger
pub mod Idempotency
pub mod Psp
pub mod Saga
pub mod Payments
pub mod Refunds
pub mod Webhooks
pub mod Reconciliation
pub mod OutboxRelay
pub mod System
pub mod Schema
pub mod Accounts
pub mod Http
pub mod DailyPush
pub mod Tests
