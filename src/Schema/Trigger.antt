-- ===== src/Schema/Trigger.antt =====
-- The deferred trigger at the commit of what `LedgerService.post` has written.
use apex_payments_engine.Prelude.{
  ◌≡◌, ◌≢◌, refl, sym, ap, ◌∙◌, Bool, true, false, ◌&&◌, List, [], ◌∷◌, ◌++◌, arith, ◌==◌,
}
use apex_payments_engine.Prelude.Int.{ℤ, pos, ◌+ℤ◌, ◌-ℤ◌, eq_ℤ, ltb_ℤ, int_laws}
use apex_payments_engine.Domain.Enums.{TransactionType}
use apex_payments_engine.Domain.Exceptions.{Uuid}
use apex_payments_engine.Domain.Models.{LedgerTransaction, LedgerEntry, Database}
use apex_payments_engine.Session.{Environment, World, ok}
use apex_payments_engine.Ledger.{Posting, post}
use apex_payments_engine.Ledger.Validation.{debits, credits}
use apex_payments_engine.Ledger.Applied.{Records}
use apex_payments_engine.Ledger.Post.{post-IsRecorded}
use apex_payments_engine.Reconciliation.{ledger_net}
use apex_payments_engine.Reconciliation.Audit.{ledger_net-Records}
use apex_payments_engine.Schema.{
  any, every, references, primary_key, is_account, is_big_count, is_big_integer,
  ledger_entries_table, ledger_transactions_table, transaction_net, assert_ledger_balanced,
}
use apex_payments_engine.Schema.Keys.{primary_key-append, references-apart}

abbrev transaction_key : LedgerTransaction → Uuid
transaction_key t = t.id

&&-eq-true : (a b : Bool) → (a && b) ≡ true → (a ≡ true) × (b ≡ true)
&&-eq-true true b h = (refl, h)
&&-eq-true false b h = absurd (ground arith)

-- Each entry is of a transaction in the table.
abbrev AllReferred : List LedgerTransaction → List LedgerEntry → Type 0
AllReferred ts [] = Unit
AllReferred ts (x ∷ xs) =
    (references transaction_key ts x.transaction_id ≡ true) × AllReferred ts xs

transaction_net-append :
    (id : Uuid) (xs ys : List LedgerEntry)
    → transaction_net id (xs ++ ys) ≡ transaction_net id xs +ℤ transaction_net id ys
unfolding transaction_net
transaction_net-append id [] ys = omega int_laws
transaction_net-append id (x ∷ xs) ys = rw (transaction_net-append id xs ys) (omega int_laws)

module _ (ts : List LedgerTransaction) (id : Uuid)
    (fresh : any (λ y. transaction_key y == id) ts ≡ false) where
  -- A transaction that is not in the table has no entries.
  fresh_net : (xs : List LedgerEntry) → AllReferred ts xs → transaction_net id xs ≡ pos 0
  unfolding transaction_net
  fresh_net [] h = refl
  fresh_net (x ∷ xs) h =
      let ne : x.transaction_id ≢ id =
        references-apart transaction_key x.transaction_id id ts h.0 fresh in
      let other : (x.transaction_id == id) ≡ false = ground arith in
      rw (other, fresh_net xs h.1) (omega int_laws)

-- The net of the entries that record postings, in their transaction and in another.
own_net :
    (id : Uuid) (ps : List Posting) (xs : List LedgerEntry)
    → Records id ps xs
    → transaction_net id xs ≡ ledger_net xs
unfolding transaction_net ledger_net
own_net id [] [] h = refl
own_net id [] (x ∷ xs) h = absurd h
own_net id (p ∷ ps) [] h = absurd h
own_net id (p ∷ ps) (x ∷ xs) h =
    let here : (x.transaction_id == id) ≡ true = let e = h.0.transaction_id in ground arith in
    rw (here, own_net id ps xs h.1) refl

other_net :
    (j id : Uuid) (ps : List Posting) (xs : List LedgerEntry)
    → j ≢ id
    → Records id ps xs
    → transaction_net j xs ≡ pos 0
unfolding transaction_net
other_net j id [] [] ne h = refl
other_net j id [] (x ∷ xs) ne h = absurd h
other_net j id (p ∷ ps) [] ne h = absurd h
other_net j id (p ∷ ps) (x ∷ xs) ne h =
    let there : (x.transaction_id == j) ≡ false = let e = h.0.transaction_id in ground arith in
    rw (there, other_net j id ps xs ne h.1) (omega int_laws)

every-append :
    (test : LedgerEntry → Bool) (xs ys : List LedgerEntry)
    → every test xs ≡ true
    → every test ys ≡ true
    → every test (xs ++ ys) ≡ true
every-append test [] ys h k = k
every-append test (x ∷ xs) ys h k = ground (arith, every-append test xs ys)

zero_passes : (z : ℤ) → z ≡ pos 0 → eq_ℤ z (pos 0) ≡ true
zero_passes z e = rw e refl

module _ (ts : List LedgerTransaction) (id : Uuid) (ps : List Posting) (es new : List LedgerEntry)
    (fresh : any (λ y. transaction_key y == id) ts ≡ false) (recorded : Records id ps new) where
  -- The entries that were there.
  old_pass :
      (xs : List LedgerEntry)
      → AllReferred ts xs
      → every (assert_ledger_balanced es) xs ≡ true
      → every (assert_ledger_balanced (es ++ new)) xs ≡ true
  unfolding assert_ledger_balanced
  old_pass [] h k = refl
  old_pass (x ∷ xs) h k =
      let ne = references-apart transaction_key x.transaction_id id ts h.0 fresh in
      let net : transaction_net x.transaction_id (es ++ new) ≡ transaction_net x.transaction_id es =
        transaction_net-append x.transaction_id es new
        ∙ rw (other_net x.transaction_id id ps new ne recorded) (omega int_laws) in
      let rest = old_pass xs h.1 (ground arith) in rw (net, rest) (ground arith)

  -- The entries that were appended.
  new_pass :
      (qs : List Posting) (xs : List LedgerEntry)
      → Records id qs xs
      → transaction_net id (es ++ new) ≡ pos 0
      → every (assert_ledger_balanced (es ++ new)) xs ≡ true
  unfolding assert_ledger_balanced
  new_pass [] [] h net = refl
  new_pass [] (x ∷ xs) h net = absurd h
  new_pass (q ∷ qs) [] h net = absurd h
  new_pass (q ∷ qs) (x ∷ xs) h net = rw (h.0.transaction_id, net, new_pass qs xs h.1 net) refl

referred :
    (d : Database) (xs : List LedgerEntry)
    → every
        (λ (e : LedgerEntry).
          references transaction_key d.transactions e.transaction_id
          && is_account d e.account_id
          && is_big_count e.id
          && is_big_integer e.amount
          && ltb_ℤ (pos 0) e.amount)
        xs
      ≡ true
    → AllReferred d.transactions xs
referred d [] h = tt
referred d (x ∷ xs) h = (ground arith, referred d xs (ground arith))

-- If `post` returns on tables whose entries satisfy their constraints and pass the deferred trigger,
-- and the ids of the transactions are unique afterwards, all entries pass the trigger afterwards,
-- the new ones included.
pub post_passes_trigger :
    (env : Environment) (kind : TransactionType) (ref : Uuid) (ps : List Posting) (w w' : World)
    (txn : LedgerTransaction)
    → post env kind ref ps w ≡ (ok txn, w')
    → ledger_entries_table w.db ≡ true
    → every (assert_ledger_balanced w.entries) w.entries ≡ true
    → ledger_transactions_table w'.db ≡ true
    → every (assert_ledger_balanced w'.entries) w'.entries ≡ true
unfolding ledger_entries_table ledger_transactions_table
post_passes_trigger env kind ref ps w w' txn h entries passed unique =
    let r = post-IsRecorded env kind ref ps w w' txn h in
    let known = referred w.db w.entries (&&-eq-true _ _ entries).1 in
    let fresh =
      primary_key-append transaction_key txn w.transactions
        (ap (primary_key transaction_key) (sym r.transactions) ∙ unique) in
    let balanced : debits ps -ℤ credits ps ≡ pos 0 = rw r.balanced.equal_sums (omega int_laws) in
    let net : transaction_net txn.id (w.entries ++ r.new) ≡ pos 0 =
      transaction_net-append txn.id w.entries r.new
      ∙ rw
          (
            fresh_net w.transactions txn.id fresh w.entries known,
            own_net txn.id ps r.new r.recorded,
            ledger_net-Records txn.id ps r.new r.recorded,
            balanced,
          )
          (omega int_laws) in
    let all =
      every-append (assert_ledger_balanced (w.entries ++ r.new)) w.entries r.new
        (old_pass w.transactions txn.id ps w.entries r.new fresh r.recorded w.entries known passed)
        (new_pass w.transactions txn.id ps w.entries r.new fresh r.recorded ps r.new r.recorded
          net) in
    rw r.entries all
