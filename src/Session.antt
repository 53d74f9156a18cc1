-- ===== src/Session.antt =====
-- The database session and the other services that the code calls: app/infrastructure.
-- An action is a method that runs in a session. It may raise, and what it wrote before it raised
-- stays in the session until the transaction around it rolls back.
pub mod Transactions
pub mod Ensures
use apex_payments_engine.Prelude.{
  ℕ, suc, ◌≡◌, String, Bool, true, false, Option, none, some, List, if◌then◌else◌,
}
use apex_payments_engine.Prelude.Int.{ℤ}
use apex_payments_engine.Schemas.{CreatePaymentRequest}
use apex_payments_engine.Domain.Exceptions.{Uuid, Time, Error, integrity_error}
use apex_payments_engine.Domain.Models.{Payment, Database}

-- The dictionaries that `compute_hash` is given.
pub data RequestPayload : Type 0 where
  payment_request : CreatePaymentRequest → RequestPayload
  refund_request : Uuid → ℤ → RequestPayload

-- A JSON text as Python reads it; of a number it matters only whether it is 0.
mutual
  pub data Json : Type 0 where
    null : Json
    bool : Bool → Json
    number : ℤ → Json
    str : String → Json
    arr : Items → Json
    obj : Fields → Json

  pub data Items : Type 0 where
    nil : Items
    cons : Json → Items → Items

  pub data Fields : Type 0 where
    end : Fields
    field : String → Json → Fields → Fields

-- What `stripe.PaymentIntent.create` may answer: the intent's id and status and its last error, if
-- it has one, or one of the two exceptions that the provider catches. A message may be None.
pub data IntentResult : Type 0 where
  intent : String → String → Option (Option String) → IntentResult
  card_error : Option String → IntentResult
  stripe_error : Option String → IntentResult

-- The code that is not in the repository. Each call is given the number of such calls made before
-- it, so nothing is assumed of how the answers of two calls are related.
pub record Environment : Type 0 where
  pub uuid4 : ℕ → Uuid
  pub uuid_hex : Uuid → String
  pub now : ℕ → Time
  pub serial : ℕ → ℕ
  pub accepts : ℕ → Database → Bool
  pub set_nx : ℕ → String → String → ℕ → Option Bool
  pub dumps : RequestPayload → String
  pub sha256_hex : String → String
  pub lower : String → String
  pub loads : String → Option Json
  pub uuid_str : Uuid → String
  pub hmac_sha256_hex : String → String → String
  pub construct_event : ℕ → String → String → String → ℕ → Bool
  pub create_intent : ℕ → Payment → IntentResult

-- The database takes every write that is flushed or committed.
abbrev pub AcceptsAll : Environment → Type 0
AcceptsAll env = (n : ℕ) (d : Database) → env.accepts n d ≡ true

pub record World : Type 0 where
  pub db : Database
  pub open db use *
  pub calls : ℕ

pub data Result (A : Type 0) : Type 0 where
  ok : A → Result A
  err : Error → Result A

abbrev pub Action : Type 0 → Type 0
Action A = World → Result A × World

module _ {A : Type 0} where
  pub pure : A → Action A
  pure a w = (ok a, w)

  pub raise : Error → Action A
  raise e w = (err e, w)

  pub lift : Result A → Action A
  lift r w = (r, w)

  pub gets : (Database → A) → Action A
  gets f w = (ok (f w.db), w)

  pub or_raise : Option A → Error → Action A
  or_raise none e w = (err e, w)
  or_raise (some a) e w = (ok a, w)

  -- A call of code outside the repository.
  pub external : (ℕ → A) → Action A
  external f w = (ok (f w.calls), record w { calls = suc w.calls })

pub raise_if : Bool → Error → Action Unit
raise_if c e w = (if c then err e else ok tt, w)

pub update : (Database → Database) → Action Unit
update f w = (ok tt, record w { db = f w.db })

-- `session.flush()`: the database takes the pending writes, or refuses them.
pub flush : Environment → Action Unit
flush env w = (
  if env.accepts w.calls w.db then ok tt else err integrity_error,
  record w { calls = suc w.calls },
)

module _ {A B : Type 0} where
  abbrev pub continue : Result A → (A → Action B) → Action B
  continue (ok a) f w = f a w
  continue (err e) f w = (err e, w)

  infixl 5 ◌>>=◌ ◌>>◌
  -- Opening this opens the actions above too.
  unfoldable pub ◌>>=◌ : Action A → (A → Action B) → Action B
  unfolding pure raise lift gets or_raise external raise_if update flush
  ◌>>=◌ m f w = let (r, w') = m w in continue r f w'

  abbrev pub ◌>>◌ : Action A → Action B → Action B
  m >> k = m >>= λ _. k

module _ {A : Type 0} where
  abbrev pub commit : Environment → Database → Result A → Action A
  commit env before (ok a) w =
      if env.accepts w.calls w.db
      then (ok a, record w { calls = suc w.calls })
      else (err integrity_error, record w { db = before; calls = suc w.calls })
  commit env before (err e) w = (err e, record w { db = before })

  -- `async with session.begin()`: commit at the end, roll back what a raise leaves.
  unfoldable pub transaction : Environment → Action A → Action A
  transaction env m w = let (r, w') = m w in commit env w.db r w'
