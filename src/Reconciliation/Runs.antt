-- ===== src/Reconciliation/Runs.antt =====
-- Sequences of the transactions that the service runs: those of concurrent requests in the order
-- in which the database serialises them. A payment is two of them, and between the two any others
-- may run.
use apex_payments_engine.Prelude.{ℕ, ◌≡◌, String, Bool, Option, List, [], ◌∷◌}
use apex_payments_engine.Prelude.Int.{ℤ}
use apex_payments_engine.Domain.Exceptions.{Uuid}
use apex_payments_engine.Schemas.{CreatePaymentRequest}
use apex_payments_engine.Session.{Environment, World, transaction, gets, ◌>>=◌}
use apex_payments_engine.Session.Ensures.{Ensures, transaction_keeps}
use apex_payments_engine.Ledger.Balances.{total, NoOverdraft}
use apex_payments_engine.Psp.{AuthorizationResult, Settings}
use apex_payments_engine.Payments.{open_payment, finish_payment}
use apex_payments_engine.Refunds.{refund}
use apex_payments_engine.Webhooks.{
  stripe_is_valid, is_valid_signature, handle, handle_webhook, first_of,
}
use apex_payments_engine.OutboxRelay.{batch, publish_batch, drain_batch}
use apex_payments_engine.Domain.Models.{Outbox}
use apex_payments_engine.Reconciliation.{ledger_net, expire_stale_holds}
use apex_payments_engine.Reconciliation.Books.{
  drift, KeepsBooks, KeepsBooks-preorder, books_rules, expire_stale_holds-KeepsBooks,
}
use apex_payments_engine.Reconciliation.Operations.{
  opening-KeepsBooks, finishing-KeepsBooks, refund-KeepsBooks, parse_and_process-KeepsBooks,
}

pub data Step : Type 0 where
  open_step : Bool → String → CreatePaymentRequest → Uuid → Step
  finish_step : String → CreatePaymentRequest → Uuid → AuthorizationResult → Step
  refund_step : Bool → String → Uuid → ℤ → Step
  webhook_step : String → Option String → Option String → Step
  expire_step : ℕ → Step
  drain_step : (Uuid → Bool) → ℕ → Step

module _ (env : Environment) (settings : Settings) where
  -- The state after a transaction, whether it has committed or rolled back.
  unfoldable pub step : Step → World → World
  step (open_step lock key request id) w = (open_payment env lock key request id w).1
  step (finish_step key request id auth_result) w =
      (finish_payment env key request id auth_result w).1
  step (refund_step lock key id amount) w = (transaction env (refund env lock key id amount) w).1
  step (webhook_step raw_body stripe_signature psp_signature) w =
      (handle_webhook env settings raw_body stripe_signature psp_signature w).1
  step (expire_step timeout_minutes) w =
      (transaction env (expire_stale_holds env timeout_minutes) w).1
  step (drain_step locked batch_size) w = (drain_batch env locked batch_size w).1

  unfoldable pub run : List Step → World → World
  run [] w = w
  run (s ∷ ss) w = run ss (step s w)

  handle-KeepsBooks :
      (raw_body signature : String) → Ensures KeepsBooks (handle env settings raw_body signature)
  unfolding handle is_valid_signature stripe_is_valid
  handle-KeepsBooks raw_body signature = search (books_rules, parse_and_process-KeepsBooks) depth 12

publish_batch-KeepsBooks :
    (env : Environment) (evs : List Outbox) → Ensures KeepsBooks (publish_batch env evs)
unfolding publish_batch
publish_batch-KeepsBooks env [] = search books_rules
publish_batch-KeepsBooks env (ev ∷ evs) = search books_rules depth 9

draining-KeepsBooks :
    (env : Environment) (locked : Uuid → Bool) (batch_size : ℕ)
    → Ensures KeepsBooks (gets (λ d. batch locked batch_size d.outbox) >>= publish_batch env)
draining-KeepsBooks env locked batch_size = search (books_rules, publish_batch-KeepsBooks) depth 9

module _ (env : Environment) (settings : Settings) where
  step-KeepsBooks : (s : Step) (w : World) → KeepsBooks w.db (step env settings s w).db
  unfolding step open_payment finish_payment handle_webhook drain_batch
  step-KeepsBooks (open_step lock key request id) w =
      transaction_keeps KeepsBooks-preorder env _ (opening-KeepsBooks env lock key request id) w
  step-KeepsBooks (finish_step key request id auth_result) w =
      transaction_keeps KeepsBooks-preorder env _
        (finishing-KeepsBooks env key request id auth_result) w
  step-KeepsBooks (refund_step lock key id amount) w =
      transaction_keeps KeepsBooks-preorder env _ (refund-KeepsBooks env lock key id amount) w
  step-KeepsBooks (webhook_step raw_body stripe_signature psp_signature) w =
      transaction_keeps KeepsBooks-preorder env _
        (handle-KeepsBooks env settings raw_body
          (first_of stripe_signature (first_of psp_signature "")))
        w
  step-KeepsBooks (expire_step timeout_minutes) w =
      transaction_keeps KeepsBooks-preorder env _
        (expire_stale_holds-KeepsBooks env timeout_minutes) w
  step-KeepsBooks (drain_step locked batch_size) w =
      transaction_keeps KeepsBooks-preorder env _ (draining-KeepsBooks env locked batch_size) w

  run-KeepsBooks : (ss : List Step) (w : World) → KeepsBooks w.db (run env settings ss w).db
  unfolding run
  run-KeepsBooks [] w = KeepsBooks-preorder.here w.db
  run-KeepsBooks (s ∷ ss) w =
      KeepsBooks-preorder.step w.db (step env settings s w).db
        (run env settings ss (step env settings s w)).db (step-KeepsBooks s w)
        (run-KeepsBooks ss (step env settings s w))

  -- From tables in which no balance is negative, any sequence of transactions, those that raise
  -- included, keeps every balance from becoming negative, the sum of all balances, the net of the
  -- journal, and for each account the difference of its balance and the sum of its entries.
  pub run_keeps_books :
      (ss : List Step) (w : World)
      → NoOverdraft w.db
      → NoOverdraft (run env settings ss w).db
        × (total (run env settings ss w).db ≡ total w.db)
        × (ledger_net (run env settings ss w).entries ≡ ledger_net w.entries)
        × ((a : Uuid) → drift a (run env settings ss w).db ≡ drift a w.db)
  run_keeps_books ss w covered =
      let k = run-KeepsBooks ss w in (k.no_overdraft covered, k.money, k.net, k.drifts)
