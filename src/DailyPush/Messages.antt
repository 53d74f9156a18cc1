-- ===== src/DailyPush/Messages.antt =====
-- The commit messages of scripts/daily_push.py: its two tables and `generate_commit_message`.
use apex_payments_engine.Prelude.{
  ℕ, suc, String, str_eq, Option, none, some, if◌then◌else◌, List, [], ◌∷◌,
}
use Prim.Native.String.{◌++◌}
use apex_payments_engine.DailyPush.Text.{ends_with_any, basename, mentions_test}

abbrev pub preferred_order : List String
preferred_order =
    "pyproject.toml" ∷ "requirements.txt" ∷ "alembic.ini" ∷ "alembic/env.py"
    ∷ "alembic/script.py.mako" ∷ "alembic/versions/001_initial_schema.py"
    ∷ "alembic/versions/002_processed_events_and_refunds.py" ∷ "app/config.py"
    ∷ "app/domain/enums.py" ∷ "app/domain/exceptions.py" ∷ "app/domain/models.py"
    ∷ "app/domain/__init__.py" ∷ "app/infrastructure/database.py"
    ∷ "app/infrastructure/redis_client.py" ∷ "app/infrastructure/psp/provider.py"
    ∷ "app/infrastructure/psp/mock_psp.py" ∷ "app/infrastructure/psp/stripe_psp.py"
    ∷ "app/infrastructure/psp/signature.py" ∷ "app/infrastructure/psp/__init__.py"
    ∷ "app/infrastructure/__init__.py" ∷ "app/application/schemas.py"
    ∷ "app/application/ledger_service.py" ∷ "app/application/idempotency_service.py"
    ∷ "app/application/payment_saga.py" ∷ "app/application/payment_service.py"
    ∷ "app/application/refund_service.py" ∷ "app/application/webhook_service.py"
    ∷ "app/application/reconciliation_service.py" ∷ "app/application/outbox_relay.py"
    ∷ "app/application/__init__.py" ∷ "app/api/dependencies.py" ∷ "app/api/payments.py"
    ∷ "app/api/accounts.py" ∷ "app/api/refunds.py" ∷ "app/api/webhooks.py"
    ∷ "app/api/reconciliation.py" ∷ "app/api/__init__.py" ∷ "app/main.py" ∷ "app/__init__.py"
    ∷ "tests/conftest.py" ∷ "tests/test_ledger.py" ∷ "tests/test_concurrency.py"
    ∷ "tests/test_idempotency.py" ∷ "tests/test_payments.py" ∷ "tests/test_refunds.py"
    ∷ "tests/test_webhooks.py" ∷ "tests/test_reconciliation.py" ∷ "Dockerfile"
    ∷ "docker-compose.yml" ∷ "README.md" ∷ []

abbrev pub file_commit_messages : List (String × String)
file_commit_messages =
    ("pyproject.toml", "chore(build): define python 3.13 project metadata and dependencies")
    ∷ (
      "requirements.txt", "chore(deps): add FastAPI, SQLAlchemy 2.0 async, and Stripe requirements",
    )
    ∷ ("alembic.ini", "chore(db): configure alembic database migration environment")
    ∷ ("alembic/env.py", "feat(db): implement async migration runner in alembic")
    ∷ ("alembic/script.py.mako", "chore(db): add alembic script template")
    ∷ (
      "alembic/versions/001_initial_schema.py",
      "feat(db): create initial double-entry schema and postgresql triggers",
    )
    ∷ (
      "alembic/versions/002_processed_events_and_refunds.py",
      "feat(db): add processed events dedupe and refunds tables",
    )
    ∷ (
      "app/config.py",
      "feat(config): implement pydantic BaseSettings for database and redis configuration",
    )
    ∷ (
      "app/domain/enums.py",
      "feat(domain): define domain enumerations for account types and payment states",
    )
    ∷ (
      "app/domain/exceptions.py",
      "feat(domain): define domain exceptions for balance guards and idempotency",
    )
    ∷ ("app/domain/models.py", "feat(domain): implement SQLAlchemy 2.0 async declarative models")
    ∷ (
      "app/domain/__init__.py", "feat(domain): expose domain models and exceptions in package init",
    )
    ∷ (
      "app/infrastructure/database.py",
      "feat(infra): configure async SQLAlchemy engine and session dependency",
    )
    ∷ (
      "app/infrastructure/redis_client.py",
      "feat(infra): implement async Redis connection pool and idempotency lock",
    )
    ∷ (
      "app/infrastructure/psp/provider.py",
      "feat(psp): define PaymentProvider abstract interface and authorization results",
    )
    ∷ (
      "app/infrastructure/psp/mock_psp.py",
      "feat(psp): implement MockPspClient for local testing and simulation",
    )
    ∷ (
      "app/infrastructure/psp/stripe_psp.py",
      "feat(psp): implement StripePaymentProvider with manual capture method",
    )
    ∷ (
      "app/infrastructure/psp/signature.py",
      "feat(security): add HMAC-SHA256 and Stripe webhook signature verifiers",
    )
    ∷ (
      "app/infrastructure/psp/__init__.py",
      "feat(psp): package psp providers and signature verifiers",
    )
    ∷ ("app/infrastructure/__init__.py", "feat(infra): expose database and redis infrastructure")
    ∷ (
      "app/application/schemas.py",
      "feat(app): define Pydantic v2 request and response DTO schemas",
    )
    ∷ (
      "app/application/ledger_service.py",
      "feat(ledger): implement double-entry balance validation and row locking",
    )
    ∷ (
      "app/application/idempotency_service.py",
      "feat(idempotency): implement two-tier Redis and Postgres idempotency engine",
    )
    ∷ (
      "app/application/payment_saga.py",
      "feat(saga): implement Hold-Authorize-Settle distributed payment saga",
    )
    ∷ (
      "app/application/payment_service.py",
      "feat(payments): implement PaymentService orchestrating payment lifecycle",
    )
    ∷ (
      "app/application/refund_service.py",
      "feat(refunds): implement RefundService with over-refund protection",
    )
    ∷ (
      "app/application/webhook_service.py",
      "feat(webhooks): implement WebhookService with deduplication and state guards",
    )
    ∷ (
      "app/application/reconciliation_service.py",
      "feat(reconciliation): implement continuous ledger audit and hold expiry",
    )
    ∷ (
      "app/application/outbox_relay.py",
      "feat(outbox): implement asynchronous OutboxRelay background worker",
    )
    ∷ ("app/application/__init__.py", "feat(app): package application services and schemas")
    ∷ ("app/api/dependencies.py", "feat(api): define FastAPI dependency injection providers")
    ∷ (
      "app/api/payments.py", "feat(api): implement /v1/payments endpoints with idempotency support",
    )
    ∷ (
      "app/api/accounts.py",
      "feat(api): implement /v1/accounts balance and ledger audit trail endpoints",
    )
    ∷ ("app/api/refunds.py", "feat(api): implement /v1/payments/{id}/refunds endpoint")
    ∷ (
      "app/api/webhooks.py",
      "feat(api): implement /v1/webhooks for Stripe and custom PSP callbacks",
    )
    ∷ ("app/api/reconciliation.py", "feat(api): implement /v1/reconciliation/report endpoint")
    ∷ ("app/api/__init__.py", "feat(api): expose API routers")
    ∷ (
      "app/main.py",
      "feat(core): initialize FastAPI application with Lifespan, Prometheus, and exception handlers",
    )
    ∷ ("app/__init__.py", "feat(core): expose FastAPI app instance")
    ∷ ("tests/conftest.py", "test: configure pytest-asyncio test fixtures and in-memory database")
    ∷ (
      "tests/test_ledger.py",
      "test(ledger): verify double-entry invariant validation and balance checks",
    )
    ∷ (
      "tests/test_concurrency.py",
      "test(concurrency): verify concurrent balance debits prevent oversell",
    )
    ∷ (
      "tests/test_idempotency.py",
      "test(idempotency): verify response replay and payload mismatch rejection",
    )
    ∷ (
      "tests/test_payments.py",
      "test(payments): verify hold-authorize-settle saga and failure reversals",
    )
    ∷ ("tests/test_refunds.py", "test(refunds): verify full, partial, and over-refund protections")
    ∷ (
      "tests/test_webhooks.py", "test(webhooks): verify webhook signature checks and async capture",
    )
    ∷ (
      "tests/test_reconciliation.py",
      "test(reconciliation): verify mathematical ledger integrity checks",
    )
    ∷ ("Dockerfile", "ci(docker): configure multi-stage Python 3.13-slim container build")
    ∷ (
      "docker-compose.yml",
      "ci(docker): configure full stack orchestration with Postgres, Redis, and Grafana",
    )
    ∷ (
      "README.md", "docs: update system architecture, double-entry specs, and Python API reference",
    )
    ∷ []

-- A dict's look-up, and `list.index`.
unfoldable pub message_of : String → List (String × String) → Option String
message_of file [] = none
message_of file (entry ∷ entries) =
    if str_eq file entry.0 then some entry.1 else message_of file entries

abbrev next : Option ℕ → Option ℕ
next none = none
next (some i) = some (suc i)

unfoldable pub index_of : String → List String → Option ℕ
index_of file [] = none
index_of file (f ∷ fs) = if str_eq file f then some 0 else next (index_of file fs)

-- The message of a file that the table does not have.
abbrev pub default_message : String → String
default_message file =
    if mentions_test file
    then "test: add test coverage for " ++ basename file
    else if ends_with_any file (".py" ∷ ".pyi" ∷ [])
    then "feat: implement updates in " ++ basename file
    else if ends_with_any file (".yml" ∷ ".yaml" ∷ ".ini" ∷ ".toml" ∷ ".plist" ∷ [])
    then "chore(config): update configuration in " ++ basename file
    else if ends_with_any file (".md" ∷ ".txt" ∷ [])
    then "docs: update documentation in " ++ basename file
    else "feat: update " ++ basename file

abbrev pub message_or : String → Option String → String
message_or file none = default_message file
message_or file (some message) = message

unfoldable pub generate_commit_message : String → String
generate_commit_message file = message_or file (message_of file file_commit_messages)
