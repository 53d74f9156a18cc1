-- ===== src/System/Services.antt =====
-- The transactions of refunds, webhooks, the expiry of holds and the outbox keep the escrow.
use apex_payments_engine.Prelude.{
  ℕ, ◌≡◌, ◌≢◌, ◌⊎◌, refl, sym, ap, ◌∙◌, subst, String, Bool, true, Option, none, some, List, [],
  ◌∷◌, All, arith, inl, inr, Bool-cases,
}
use apex_payments_engine.Prelude.Int.{ℤ}
use apex_payments_engine.Prelude.Table.{IsRowOf, rows_found}
use apex_payments_engine.Domain.Enums.{PaymentStatus, is_authorized}
use apex_payments_engine.Domain.Exceptions.{Uuid}
use apex_payments_engine.Domain.Models.{Payment, Outbox, Database}
use apex_payments_engine.Schemas.{ResponseBody}
use apex_payments_engine.Session.{
  Environment, RequestPayload, Json, World, ok, pure, gets, lift, ◌>>=◌,
}
use apex_payments_engine.Session.Ensures.{
  >>=-eq-ok, pure-eq-ok, lift-eq-ok, gets-eq-ok, Ensures, Ensures-weaken, ensures_rules,
}
use apex_payments_engine.Idempotency.{claim_or_replay}
use apex_payments_engine.Idempotency.Frame.{OnlyKeys, claim_or_replay-OnlyKeys}
use apex_payments_engine.Psp.{Settings}
use apex_payments_engine.Saga.{payment_key, payment_row, settle, reverse}
use apex_payments_engine.Refunds.{replay_or_refund, refund}
use apex_payments_engine.Webhooks.{
  EventKind, capture, fail, other_event, event_kind, is_truthy, as_text, has_reference,
  payments_with, scalar_one_or_none, apply_event, transition_found, transition, record_event,
  process_event, parse_and_process, stripe_is_valid, is_valid_signature, handle,
}
use apex_payments_engine.OutboxRelay.{batch, publish_batch}
use apex_payments_engine.System.Escrow.{
  is_held, IsSound, IsKept, IsAdvanced, KeepsEscrow, KeepsEscrow-preorder, same_escrow,
  IsKept-of_IsAdvanced,
}
use apex_payments_engine.System.Phases.{
  settle-IsAdvanced, reverse-IsAdvanced, refund_payment-KeepsEscrow,
}

ruleset escrow_rules = (KeepsEscrow-preorder, ensures_rules, same_escrow, refl)

pub same_keys : (d e : Database) → OnlyKeys d e → KeepsEscrow d e
same_keys d e h =
    same_escrow d e (ap (λ (x : Database). x.payments) h.rest)
      (ap (λ (x : Database). x.balances) h.rest)

payments_with-All :
    (P : Payment → Type 0) (ref : String) (ps : List Payment)
    → All P ps
    → All P (payments_with ref ps)
unfolding payments_with
payments_with-All P ref [] h = tt
payments_with-All P ref (p ∷ ps) h = elim (Bool-cases (has_reference ref p)) [
  | inl here ↦ rw here (h.0, payments_with-All P ref ps h.1)
  | inr there ↦ rw there (payments_with-All P ref ps h.1)
]

scalar-All :
    (P : Payment → Type 0) (p : Payment) (ps : List Payment)
    → All P ps
    → scalar_one_or_none ps ≡ ok (some p)
    → P p
unfolding scalar_one_or_none
scalar-All P p [] h e = absurd (ground arith)
scalar-All P p (q ∷ []) h e = let same : q ≡ p = ground arith in subst P same h.0
scalar-All P p (q ∷ r ∷ ps) h e = absurd (ground arith)

not_processing_of_authorized :
    (s : PaymentStatus)
    → is_authorized s ≡ true
    → (s ≢ PaymentStatus.processing) × (is_held s ≡ true)
not_processing_of_authorized s h = (λ e. ground arith, ground arith)

still : (w w' : World) → w ≡ w' → IsSound w.db → IsKept w.db w'.db
still w w' same sound =
    subst (λ (x : World). IsKept w.db x.db) same ((KeepsEscrow-preorder.here w.db).keeps sound)

module _ (env : Environment) where
  -- A payment that is AUTHORIZED is settled, reversed, or left alone by an event.
  module _ (p : Payment) (w w' : World) (row : payment_row p.id w.db ≡ some p)
      (authorized : is_authorized p.status ≡ true) (sound : IsSound w.db) where
    moved-IsKept : IsAdvanced p.id w.db w'.db → IsKept w.db w'.db
    moved-IsKept h =
        IsKept-of_IsAdvanced w.db w'.db p.id p row
          (not_processing_of_authorized p.status authorized).0 h

    pub reverse-IsKept : (q : Payment) → reverse env p.id w ≡ (ok q, w') → IsKept w.db w'.db
    reverse-IsKept q h = moved-IsKept (
        reverse-IsAdvanced env p.id p w w' q row
          (not_processing_of_authorized p.status authorized).1 sound h)

    apply_event-IsKept :
        (kind : EventKind) (ref : String)
        → apply_event env kind p.id ref w ≡ (ok tt, w')
        → IsKept w.db w'.db
    unfolding apply_event
    apply_event-IsKept capture ref h =
        let (q, u, e, e') = >>=-eq-ok (settle env p.id ref) (λ _. pure tt) w w' h in
        let same : u ≡ w' = (pure-eq-ok tt tt u w' e').1 in
        moved-IsKept (
          settle-IsAdvanced env p.id p w w' q row
            (not_processing_of_authorized p.status authorized).1 sound ref (rw same at e))
    apply_event-IsKept fail ref h =
        let (q, u, e, e') = >>=-eq-ok (reverse env p.id) (λ _. pure tt) w w' h in
        let same : u ≡ w' = (pure-eq-ok tt tt u w' e').1 in reverse-IsKept q (rw same at e)
    apply_event-IsKept other_event ref h =
        let same : w ≡ w' = (pure-eq-ok tt tt w w' h).1 in still w w' same sound

  transition_found-IsKept :
      (event_type : Json) (ref : String) (found : Option Payment) (w w' : World)
      → ((p : Payment) → found ≡ some p → payment_row p.id w.db ≡ some p)
      → IsSound w.db
      → transition_found env event_type ref found w ≡ (ok tt, w')
      → IsKept w.db w'.db
  unfolding transition_found
  transition_found-IsKept event_type ref none w w' row sound h =
      let same : w ≡ w' = (pure-eq-ok tt tt w w' h).1 in still w w' same sound
  transition_found-IsKept event_type ref (some p) w w' row sound h =
      elim (Bool-cases (is_authorized p.status)) [
        | inl authorized ↦
            let (kind, u, e, e') =
              >>=-eq-ok (lift (event_kind event_type)) (λ k. apply_event env k p.id ref) w w'
                (rw authorized at h) in
            let same : w ≡ u = (lift-eq-ok (event_kind event_type) kind w u e).1 in
            apply_event-IsKept p w w' (row p refl) authorized sound kind ref (rw (← same) at e')
        | inr other ↦
            let same : w ≡ w' = (pure-eq-ok tt tt w w' (rw other at h)).1 in still w w' same sound
      ]

  transition-eq-ok :
      (event_type reference : Json) (w w' : World)
      → transition env event_type reference w ≡ (ok tt, w')
      → (w ≡ w')
        ⊎ ((ref : String) × (found : Option Payment) × (scalar_one_or_none
                (payments_with ref w.payments)
              ≡ ok found)
            × (transition_found env event_type ref found w ≡ (ok tt, w')))
  unfolding transition
  transition-eq-ok event_type reference w w' h = elim (Bool-cases (is_truthy reference)) [
    | inr absent ↦ inl (pure-eq-ok tt tt w w' (rw absent at h)).1
    | inl present ↦
        let rest = λ (ref : String). (do
          rows ← gets (λ d. payments_with ref d.payments)
          found ← lift (scalar_one_or_none rows)
          transition_found env event_type ref found) in
        let (ref, u, e, e') = >>=-eq-ok (lift (as_text reference)) rest w w' (rw present at h) in
        let same : w ≡ u = (lift-eq-ok (as_text reference) ref w u e).1 in
        let found_rest = λ (found : Option Payment). transition_found env event_type ref found in
        let (rows, v, f, f') =
          >>=-eq-ok (gets (λ d. payments_with ref d.payments))
            (λ rows. lift (scalar_one_or_none rows) >>= found_rest) u w' e' in
        let (rows_lem, same') = gets-eq-ok (λ d. payments_with ref d.payments) rows u v f in
        let (found, x, g, g') = >>=-eq-ok (lift (scalar_one_or_none rows)) found_rest v w' f' in
        let (one, same'') = lift-eq-ok (scalar_one_or_none rows) found v x g in
        let here : w ≡ x = same ∙ same' ∙ same'' in
        inr (
          ref,
          found,
          ap (λ (x : World). scalar_one_or_none (payments_with ref x.payments)) same
              ∙ ap scalar_one_or_none rows_lem
              ∙ one,
          subst (λ y. transition_found env event_type ref found y ≡ (ok tt, w')) (sym here) g',
        )
  ]

  transition-KeepsEscrow :
      (event_type reference : Json) → Ensures KeepsEscrow (transition env event_type reference)
  transition-KeepsEscrow event_type reference = record {
    at = λ w w' a h. record {
      keeps = λ sound. elim (transition-eq-ok event_type reference w w' h) [
        | inl same ↦ still w w' same sound
        | inr (ref, found, one, moved) ↦
            transition_found-IsKept event_type ref found w w'
              (λ p e.
                scalar-All (IsRowOf payment_key w.payments) p (payments_with ref w.payments)
                  (payments_with-All (IsRowOf payment_key w.payments) ref w.payments
                    (rows_found payment_key w.payments sound.unique))
                  (one ∙ ap ok e))
              sound moved
      ];
    };
  }

  parse_and_process-KeepsEscrow :
      (raw_body : String) → Ensures KeepsEscrow (parse_and_process env raw_body)
  unfolding parse_and_process process_event record_event
  parse_and_process-KeepsEscrow raw_body = search (escrow_rules, transition-KeepsEscrow) depth 22

  pub handle-KeepsEscrow :
      (settings : Settings) (raw_body signature : String)
      → Ensures KeepsEscrow (handle env settings raw_body signature)
  unfolding handle is_valid_signature stripe_is_valid
  handle-KeepsEscrow settings raw_body signature =
      search (escrow_rules, parse_and_process-KeepsEscrow) depth 12

  claim_or_replay-KeepsEscrow :
      (lock : Bool) (m k : String) (payload : RequestPayload)
      → Ensures KeepsEscrow (claim_or_replay env lock m k payload)
  claim_or_replay-KeepsEscrow lock m k payload =
      Ensures-weaken (claim_or_replay env lock m k payload) same_keys
        (claim_or_replay-OnlyKeys env lock m k payload)

  replay_or_refund-KeepsEscrow :
      (key : String) (id : Uuid) (amount : ℤ) (answered : Option (ℕ × ResponseBody))
      → Ensures KeepsEscrow (replay_or_refund env key id amount answered)
  unfolding replay_or_refund
  replay_or_refund-KeepsEscrow key id amount none = record {
    at = λ w w' a h. refund_payment-KeepsEscrow env key id amount a w w' h;
  }
  replay_or_refund-KeepsEscrow key id amount (some (code, body)) = search escrow_rules depth 9

  pub refund-KeepsEscrow :
      (lock : Bool) (key : String) (id : Uuid) (amount : ℤ)
      → Ensures KeepsEscrow (refund env lock key id amount)
  unfolding refund
  refund-KeepsEscrow lock key id amount =
      search (escrow_rules, claim_or_replay-KeepsEscrow, replay_or_refund-KeepsEscrow) depth 9

  publish_batch-KeepsEscrow : (evs : List Outbox) → Ensures KeepsEscrow (publish_batch env evs)
  unfolding publish_batch
  publish_batch-KeepsEscrow [] = search escrow_rules
  publish_batch-KeepsEscrow (ev ∷ evs) = search escrow_rules depth 9

  pub draining-KeepsEscrow :
      (locked : Uuid → Bool) (batch_size : ℕ)
      → Ensures KeepsEscrow (gets (λ d. batch locked batch_size d.outbox) >>= publish_batch env)
  draining-KeepsEscrow locked batch_size = search (escrow_rules, publish_batch-KeepsEscrow) depth 9
