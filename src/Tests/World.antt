-- ===== src/Tests/World.antt =====
-- A concrete environment and concrete tables for the tests: a payer with 100000, a payee and the
-- suspense account with nothing.
use apex_payments_engine.Prelude.{ℕ, ◌+◌, refl, String, true, false, none, some, [], ◌∷◌}
use apex_payments_engine.Prelude.Int.{pos, ◌+ℤ◌, ◌-ℤ◌}
use apex_payments_engine.Domain.Enums.{
  OwnerType, AccountType, payment_status_value, refund_status_value,
}
use apex_payments_engine.Domain.Exceptions.{Uuid}
use apex_payments_engine.Schemas.{CreatePaymentRequest, is_valid_payment, is_valid_refund}
use apex_payments_engine.Domain.Models.{Account, AccountBalance, Database}
use apex_payments_engine.Session.{
  AcceptsAll, Environment, RequestPayload, payment_request, refund_request, World, intent, obj, end,
  transaction, ◌>>=◌,
}
use apex_payments_engine.Ledger.{
  net_from, check_net, validate_balanced, insert_id, sorted_account_ids, init_balance, lock_balance,
  lock_balances, apply_to_balance, apply_posting, apply_postings, create_transaction, post_entries,
  post,
}
use apex_payments_engine.Idempotency.{
  find_record, modify_record, compute_hash, acquire, fast_path, new_claim, replay_by_status,
  replay_record, check_record, claim_or_replay, complete_found, complete,
}
use apex_payments_engine.Psp.{Settings, captured, pending, declined, mock_authorize}
use apex_payments_engine.Saga.{emit, load_payment, post_and_emit, hold, settle, reverse}
use apex_payments_engine.Payments.{
  to_response, parse_payment, get_payment, replay_or_hold, open_payment, mark_authorized,
  apply_outcome, finish_payment, authorize_and_finish, create, create_payment,
}
use apex_payments_engine.Refunds.{
  parse_refund, check_refundable, record_refund, post_refund, refund_payment, replay_or_refund,
  refund, process_refund,
}
use apex_payments_engine.Webhooks.{
  contains_object, object_id, stripe_event, generic_event, get_or, has_item, has_key, parse_event,
  hmac_is_valid, stripe_is_valid, is_valid_signature, event_kind, payments_with, scalar_one_or_none,
  has_event, apply_event, transition_found, transition, record_event, process_event,
  parse_and_process, handle, handle_webhook,
}
use apex_payments_engine.Webhooks.Delivery.{recorded}
use apex_payments_engine.Schema.{
  Enforces, satisfies, accounts_table, account_balances_table, ledger_transactions_table,
  ledger_entries_table, payments_table, idempotency_keys_table, outbox_table, webhook_events_table,
  refunds_table, transaction_net, assert_ledger_balanced,
}
use apex_payments_engine.Accounts.{
  balance_response, get_balance, insert_entry, newest_first, ledger_limit, ledger_page,
  get_ledger_postings,
}
use apex_payments_engine.System.{arrive, advance, advance_all}
use apex_payments_engine.System.Escrow.{held_total}

abbrev pub dump : RequestPayload → String
dump (payment_request r) = "payment"
dump (refund_request id amount) = "refund"

abbrev pub env : Environment
env = record {
  uuid4 = λ n. n + 1000;
  uuid_hex = λ id. "0123456789ab";
  now = λ n. n;
  serial = λ n. n;
  accepts = λ n d. true;
  set_nx = λ n key value ttl. some true;
  dumps = dump;
  sha256_hex = λ text. text;
  lower = λ text. text;
  loads = λ text. some (obj end);
  uuid_str = λ id. "0123";
  hmac_sha256_hex = λ secret text. "signed";
  construct_event = λ n text signature secret tolerance. false;
  create_intent = λ n payment. intent "pi_1" "succeeded" none;
}

pub env_accepts : AcceptsAll env
env_accepts n d = refl

abbrev pub payer : Uuid
payer = 10

abbrev pub payee : Uuid
payee = 20

abbrev pub balance_at : Uuid → ℕ → AccountBalance
balance_at id n = record { account_id = id; balance = pos n; version = 0; updated_at = 0 }

abbrev pub tables : Database
tables = record {
  accounts = [];
  balances = balance_at 1 0 ∷ balance_at payer 100000 ∷ balance_at payee 0 ∷ [];
  transactions = [];
  entries = [];
  payments = [];
  refunds = [];
  idempotency_keys = [];
  outbox = [];
  webhook_events = [];
}

abbrev pub world : World
world = record { db = tables; calls = 0 }

-- The same balances, with the accounts that the schema wants for them.
abbrev pub wallet : Uuid → AccountType → String → Account
wallet id type owner_id = record {
  id = id;
  owner_type = OwnerType.user;
  owner_id = owner_id;
  type = type;
  currency = "INR";
  created_at = 0;
}

abbrev pub bank : Database
bank = record tables {
  accounts =
      wallet 1 AccountType.psp_suspense "psp"
      ∷ wallet payer AccountType.user_wallet "alice"
      ∷ wallet payee AccountType.merchant_payable "shop"
      ∷ [];
}

-- A database that accepts what satisfies the schema.
abbrev pub schema_env : Environment
schema_env = record env { accepts = λ n d. satisfies d }

pub schema_env-Enforces : Enforces schema_env
schema_env-Enforces n d accepted = accepted

abbrev pub settings : Settings
settings = record {
  psp_provider = "mock";
  psp_webhook_secret = "secret";
  stripe_api_key = "";
  stripe_webhook_secret = "whsec";
}

abbrev pub request : CreatePaymentRequest
request = record {
  merchant_id = "merchant_test";
  payer_account_id = payer;
  payee_account_id = payee;
  amount = pos 5000;
  currency = "INR";
}

-- The name by which a test opens the whole program.
unfoldable pub program : Unit {0}
unfolding ◌+ℤ◌ ◌-ℤ◌ payment_status_value is_valid_payment transaction ◌>>=◌ net_from check_net
    validate_balanced insert_id sorted_account_ids init_balance lock_balance lock_balances
    apply_to_balance apply_posting apply_postings create_transaction post_entries post find_record
    modify_record compute_hash acquire fast_path new_claim replay_by_status replay_record
    check_record claim_or_replay complete_found complete captured pending declined mock_authorize
    emit load_payment post_and_emit hold settle reverse to_response parse_payment get_payment
    replay_or_hold open_payment mark_authorized apply_outcome finish_payment authorize_and_finish
    create create_payment refund_status_value parse_refund check_refundable record_refund
    post_refund refund_payment replay_or_refund refund contains_object object_id stripe_event
    generic_event get_or has_item has_key parse_event hmac_is_valid stripe_is_valid
    is_valid_signature event_kind payments_with scalar_one_or_none has_event apply_event
    transition_found transition record_event process_event parse_and_process handle handle_webhook
    recorded is_valid_refund process_refund satisfies accounts_table account_balances_table
    ledger_transactions_table ledger_entries_table payments_table idempotency_keys_table
    outbox_table webhook_events_table refunds_table transaction_net assert_ledger_balanced
    balance_response get_balance insert_entry newest_first ledger_limit ledger_page
    get_ledger_postings arrive advance advance_all held_total
program = tt
