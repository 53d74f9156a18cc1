-- ===== src/Schema.antt =====
-- alembic/versions/001_initial_schema.py and 002_processed_events_and_refunds.py: what the database
-- enforces of the tables, its deferred trigger, and the rows that the migration seeds. The table
-- `processed_events` is used by no code and left out.
pub mod Keys
pub mod Trigger
use Prim.Native.String.{count}
use apex_payments_engine.Prelude.{
  ℕ, ◌≡◌, String, str_eq, Bool, true, false, not, ◌&&◌, ◌||◌, Option, none, some, List, [], ◌∷◌,
  leb, ltb, ◌==◌, if◌then◌else◌,
}
use apex_payments_engine.Prelude.Int.{ℤ, pos, negsuc, ◌+ℤ◌, ltb_ℤ, leb_ℤ, eq_ℤ}
use apex_payments_engine.Domain.Enums.{OwnerType, AccountType}
use apex_payments_engine.Domain.Exceptions.{Uuid, Time}
use apex_payments_engine.Domain.Models.{
  Account, AccountBalance, LedgerTransaction, LedgerEntry, Payment, Refund, IdempotencyRecord,
  Outbox, WebhookEvent, Database,
}
use apex_payments_engine.Session.{Environment}
use apex_payments_engine.Saga.{psp_suspense_account_id, fee_income_account_id}
use apex_payments_engine.Reconciliation.{signed_amount}

module _ {A : Type 0} where
  abbrev pub any : (A → Bool) → List A → Bool
  any test [] = false
  any test (x ∷ xs) = test x || any test xs

  abbrev pub every : (A → Bool) → List A → Bool
  every test [] = true
  every test (x ∷ xs) = test x && every test xs

  -- `UniqueConstraint`: no two rows are the same in its columns.
  abbrev pub unique : (A → A → Bool) → List A → Bool
  unique same [] = true
  unique same (x ∷ xs) = not (any (same x) xs) && unique same xs

  -- `primary_key=True`, of a column of numbers
  abbrev pub primary_key : (A → ℕ) → List A → Bool
  primary_key key xs = unique (λ x y. key y == key x) xs

  -- `ForeignKey`: the row that `k` names is in the table.
  abbrev pub references : (A → ℕ) → List A → ℕ → Bool
  references key xs k = any (λ y. key y == k) xs

-- `BigInteger()` and `Integer()`: what PostgreSQL can store in the column
abbrev pub is_big_integer : ℤ → Bool
is_big_integer (pos n) = ltb n 9223372036854775808
is_big_integer (negsuc n) = ltb n 9223372036854775808

abbrev pub is_big_count : ℕ → Bool
is_big_count n = ltb n 9223372036854775808

abbrev pub is_integer : Option ℕ → Bool
is_integer none = true
is_integer (some n) = ltb n 2147483648

-- `String(length=n)`, whose column may be NULL in the second
abbrev pub has_length : ℕ → String → Bool
has_length n s = leb (count s) n

abbrev pub has_length_or_null : ℕ → Option String → Bool
has_length_or_null n none = true
has_length_or_null n (some s) = has_length n s

abbrev pub owner_type_rank : OwnerType → ℕ
owner_type_rank OwnerType.user = 0
owner_type_rank OwnerType.merchant = 1
owner_type_rank OwnerType.system = 2

abbrev pub account_type_rank : AccountType → ℕ
account_type_rank AccountType.user_wallet = 0
account_type_rank AccountType.merchant_payable = 1
account_type_rank AccountType.psp_suspense = 2
account_type_rank AccountType.fee_income = 3

-- `uq_accounts_owner_type_currency`
abbrev pub same_owner : Account → Account → Bool
same_owner a b =
    owner_type_rank a.owner_type == owner_type_rank b.owner_type
    && str_eq a.owner_id b.owner_id
    && account_type_rank a.type == account_type_rank b.type
    && str_eq a.currency b.currency

-- `uq_idempotency_merchant_key`
abbrev pub same_key : IdempotencyRecord → IdempotencyRecord → Bool
same_key a b = str_eq a.merchant_id b.merchant_id && str_eq a.idem_key b.idem_key

abbrev pub same_event : WebhookEvent → WebhookEvent → Bool
same_event a b = str_eq a.psp_event_id b.psp_event_id

module _ (d : Database) where
  abbrev pub is_account : Uuid → Bool
  is_account k = references (λ (a : Account). a.id) d.accounts k

  unfoldable pub accounts_table : Bool
  accounts_table =
      primary_key (λ (a : Account). a.id) d.accounts
      && unique same_owner d.accounts
      && every (λ (a : Account). has_length 255 a.owner_id && has_length 3 a.currency) d.accounts

  -- `non_negative_balance`
  unfoldable pub account_balances_table : Bool
  account_balances_table =
      primary_key (λ (r : AccountBalance). r.account_id) d.balances
      && every
          (λ (r : AccountBalance).
            is_account r.account_id
            && is_big_integer r.balance
            && is_big_count r.version
            && leb_ℤ (pos 0) r.balance)
          d.balances

  unfoldable pub ledger_transactions_table : Bool
  ledger_transactions_table = primary_key (λ (t : LedgerTransaction). t.id) d.transactions

  -- `positive_amount`
  unfoldable pub ledger_entries_table : Bool
  ledger_entries_table =
      primary_key (λ (e : LedgerEntry). e.id) d.entries
      && every
          (λ (e : LedgerEntry).
            references (λ (t : LedgerTransaction). t.id) d.transactions e.transaction_id
            && is_account e.account_id
            && is_big_count e.id
            && is_big_integer e.amount
            && ltb_ℤ (pos 0) e.amount)
          d.entries

  unfoldable pub payments_table : Bool
  payments_table =
      primary_key (λ (p : Payment). p.id) d.payments
      && every
          (λ (p : Payment).
            has_length 255 p.merchant_id
            && is_account p.payer_account
            && is_account p.payee_account
            && is_big_integer p.amount
            && has_length 3 p.currency
            && has_length_or_null 255 p.psp_reference
            && is_big_integer p.refunded_amount
            && is_big_count p.version)
          d.payments

  unfoldable pub idempotency_keys_table : Bool
  idempotency_keys_table =
      unique same_key d.idempotency_keys
      && every
          (λ (r : IdempotencyRecord).
            has_length 255 r.merchant_id
            && has_length 255 r.idem_key
            && has_length 64 r.request_hash
            && is_integer r.response_code)
          d.idempotency_keys

  unfoldable pub outbox_table : Bool
  outbox_table =
      primary_key (λ (e : Outbox). e.id) d.outbox
      && every (λ (e : Outbox). has_length 100 e.aggregate_type && has_length 100 e.event_type)
          d.outbox

  unfoldable pub webhook_events_table : Bool
  webhook_events_table =
      unique same_event d.webhook_events
      && every (λ (e : WebhookEvent). has_length 255 e.psp_event_id) d.webhook_events

  -- `positive_refund_amount`
  unfoldable pub refunds_table : Bool
  refunds_table =
      primary_key (λ (r : Refund). r.id) d.refunds
      && every
          (λ (r : Refund).
            references (λ (p : Payment). p.id) d.payments r.payment_id
            && is_big_integer r.amount
            && ltb_ℤ (pos 0) r.amount)
          d.refunds

  -- What the database checks of every statement.
  unfoldable pub satisfies : Bool
  satisfies =
      accounts_table && account_balances_table && ledger_transactions_table && ledger_entries_table
      && payments_table && idempotency_keys_table && outbox_table && webhook_events_table
      && refunds_table

-- `SUM(CASE direction WHEN 'DEBIT' THEN amount ELSE -amount END)` over a transaction's entries
unfoldable pub transaction_net : Uuid → List LedgerEntry → ℤ
transaction_net id [] = pos 0
transaction_net id (x ∷ xs) =
    (if x.transaction_id == id then signed_amount x.direction x.amount else pos 0)
    +ℤ transaction_net id xs

-- The trigger for a row that was inserted, at the commit: `false` where it raises.
unfoldable pub assert_ledger_balanced : List LedgerEntry → LedgerEntry → Bool
assert_ledger_balanced entries new = eq_ℤ (transaction_net new.transaction_id entries) (pos 0)

-- The tables after `upgrade` at the time `t`, on an empty database.
abbrev pub seed_accounts : Time → List Account
seed_accounts t =
    record {
      id = psp_suspense_account_id;
      owner_type = OwnerType.system;
      owner_id = "psp";
      type = AccountType.psp_suspense;
      currency = "INR";
      created_at = t;
    }
    ∷ record {
      id = fee_income_account_id;
      owner_type = OwnerType.system;
      owner_id = "fees";
      type = AccountType.fee_income;
      currency = "INR";
      created_at = t;
    }
    ∷ []

abbrev pub seed_balances : Time → List AccountBalance
seed_balances t =
    record { account_id = psp_suspense_account_id; balance = pos 0; version = 0; updated_at = t }
    ∷ record { account_id = fee_income_account_id; balance = pos 0; version = 0; updated_at = t }
    ∷ []

unfoldable pub upgrade : Time → Database
upgrade t = record {
  accounts = seed_accounts t;
  balances = seed_balances t;
  transactions = [];
  entries = [];
  payments = [];
  refunds = [];
  idempotency_keys = [];
  outbox = [];
  webhook_events = [];
}

-- The database accepts only tables that satisfy their constraints, at a flush and at a commit.
abbrev pub Enforces : Environment → Type 0
Enforces env = (n : ℕ) (d : Database) → env.accepts n d ≡ true → satisfies d ≡ true
