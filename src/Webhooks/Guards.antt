-- ===== src/Webhooks/Guards.antt =====
-- The events that `WebhookService.handle` refuses or passes over.
use apex_payments_engine.Prelude.{
  ℕ, ◌≡◌, refl, inl, inr, String, false, Option, arith, Bool-cases, str_eq,
}
use apex_payments_engine.Domain.Exceptions.{domain, invalid_signature}
use apex_payments_engine.Session.{Environment, World, ok, err, ◌>>=◌}
use apex_payments_engine.Session.Transactions.{transaction-raises}
use apex_payments_engine.Psp.{Settings}
use apex_payments_engine.Webhooks.{
  is_blank, hmac_is_valid, stripe_is_valid, is_valid_signature, handle, handle_webhook, first_of,
}

module _ (env : Environment) (settings : Settings) (raw_body signature : String) (w : World) where
  module _
      (hmac : str_eq (env.hmac_sha256_hex settings.psp_webhook_secret raw_body) signature ≡ false)
      (stripe : (n : ℕ)
        → env.construct_event n raw_body signature settings.stripe_webhook_secret 300 ≡ false) where
    is_valid_signature-forged :
        (u : World) × (is_valid_signature env settings raw_body signature w ≡ (ok false, u))
        × (u.db ≡ w.db)
    unfolding is_valid_signature hmac_is_valid stripe_is_valid ◌>>=◌
    is_valid_signature-forged = (
      (is_valid_signature env settings raw_body signature w).1,
      ground (arith, stripe w.calls),
      ground arith,
    )

    handle-forged :
        (u : World) × (handle env settings raw_body signature w
          ≡ (err (domain invalid_signature), u))
        × (u.db ≡ w.db)
    unfolding handle ◌>>=◌
    handle-forged =
        let (u, e, same) = is_valid_signature-forged in
        elim (Bool-cases (is_blank signature)) [
          | inl blank ↦ (w, ground arith, refl)
          | inr some_text ↦ (u, ground arith, same)
        ]

-- A request is refused as badly signed, and changes no table, when the signature of its headers is
-- neither the HMAC of the body under the webhook secret nor one that Stripe's verifier accepts at
-- any time. Stripe's header is read before the other one.
forged_refused :
    (env : Environment) (settings : Settings) (raw_body : String)
    (stripe_header psp_header : Option String) (w : World)
    → (let signature = first_of stripe_header (first_of psp_header "") in
        str_eq (env.hmac_sha256_hex settings.psp_webhook_secret raw_body) signature ≡ false)
    → ((n : ℕ)
        → env.construct_event n raw_body
            (first_of stripe_header (first_of psp_header ""))
            settings.stripe_webhook_secret
            300
          ≡ false)
    → (w' : World) × (handle_webhook env settings raw_body stripe_header psp_header w
        ≡ (err (domain invalid_signature), w'))
      × (w'.db ≡ w.db)
unfolding handle_webhook
forged_refused env settings raw_body stripe_header psp_header w hmac stripe =
    let signature = first_of stripe_header (first_of psp_header "") in
    let (u, e, same) = handle-forged env settings raw_body signature w hmac stripe in
    (
      _,
      transaction-raises env (handle env settings raw_body signature) w u (domain invalid_signature)
          e,
      refl,
    )
