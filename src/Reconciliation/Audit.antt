-- ===== src/Reconciliation/Audit.antt =====
-- What a balanced report of `audit_integrity` says of the tables.
use apex_payments_engine.Prelude.{
  ◌≡◌, ◌↔◌, refl, sym, ap, ◌∙◌, true, List, [], ◌∷◌, ◌++◌, length, All, arith, inl, inr, Bool-cases,
  ◌==◌, if◌then◌else◌,
}
use apex_payments_engine.Prelude.Int.{ℤ, pos, ◌+ℤ◌, ◌-ℤ◌, eq_ℤ, eq_of_parts, int_laws}
use apex_payments_engine.Domain.Enums.{Direction, debit, credit}
use apex_payments_engine.Domain.Exceptions.{Uuid}
use apex_payments_engine.Domain.Models.{AccountBalance, LedgerEntry, Database}
use apex_payments_engine.Schemas.{IntegrityResponse}
use apex_payments_engine.Session.{Environment, World, ok, ◌>>=◌}
use apex_payments_engine.Ledger.{Posting}
use apex_payments_engine.Ledger.Validation.{debits, credits, debited, credited}
use apex_payments_engine.Ledger.Balances.{movement, moved}
use apex_payments_engine.Ledger.Applied.{Records}
use apex_payments_engine.Reconciliation.{
  signed_amount, calc_amount, ledger_net, computed_balance, drifted, integrity_of, audit_integrity,
}

-- The balance of a row is the sum of the entries of its account.
abbrev pub IsComputed : List LedgerEntry → AccountBalance → Type 0
IsComputed entries row = row.balance ≡ computed_balance row.account_id entries

eq_ℤ-true : (a b : ℤ) → eq_ℤ a b ≡ true → a ≡ b
eq_ℤ-true a b h = eq_of_parts a b (ground arith)

drifted_nil :
    (entries : List LedgerEntry) (rows : List AccountBalance)
    → length (drifted entries rows) ≡ 0
    → All (IsComputed entries) rows
unfolding drifted
drifted_nil entries [] h = tt
drifted_nil entries (row ∷ rows) h =
    elim (Bool-cases (eq_ℤ row.balance (computed_balance row.account_id entries))) [
      | inl same ↦ (
        eq_ℤ-true row.balance (computed_balance row.account_id entries) same,
        drifted_nil entries rows (ground arith),
      )
      | inr other ↦ absurd (ground arith)
    ]

nil_drifted :
    (entries : List LedgerEntry) (rows : List AccountBalance)
    → All (IsComputed entries) rows
    → length (drifted entries rows) ≡ 0
unfolding drifted
nil_drifted entries [] h = refl
nil_drifted entries (row ∷ rows) h = ground (arith, h.0, nil_drifted entries rows h.1)

pub balanced_iff :
    (d : Database)
    → ((integrity_of d).balanced ≡ true)
      ↔ ((ledger_net d.entries ≡ pos 0) × All (IsComputed d.entries) d.balances)
unfolding integrity_of
balanced_iff d = (
  λ h. (
    eq_ℤ-true (ledger_net d.entries) (pos 0) (ground arith),
    drifted_nil d.entries d.balances (ground arith),
  ),
  λ h. ground (arith, h.0, nil_drifted d.entries d.balances h.1),
)

pub ledger_net-append :
    (xs ys : List LedgerEntry) → ledger_net (xs ++ ys) ≡ ledger_net xs +ℤ ledger_net ys
unfolding ledger_net
ledger_net-append [] ys = omega int_laws
ledger_net-append (x ∷ xs) ys = rw (ledger_net-append xs ys) (omega int_laws)

pub computed_balance-append :
    (a : Uuid) (xs ys : List LedgerEntry)
    → computed_balance a (xs ++ ys) ≡ computed_balance a xs +ℤ computed_balance a ys
unfolding computed_balance
computed_balance-append a [] ys = omega int_laws
computed_balance-append a (x ∷ xs) ys = rw (computed_balance-append a xs ys) (omega int_laws)

calc_lem : (dir : Direction) (amount : ℤ) → calc_amount dir amount ≡ moved dir amount
calc_lem debit amount = refl
calc_lem credit amount = omega int_laws

signed_lem :
    (dir : Direction) (amount : ℤ)
    → signed_amount dir amount ≡ debited dir amount -ℤ credited dir amount
signed_lem debit amount = omega int_laws
signed_lem credit amount = refl

-- The entries of postings sum up to what the postings move, and their net is the debits less the
-- credits.
pub computed_balance-Records :
    (a txn_id : Uuid) (ps : List Posting) (xs : List LedgerEntry)
    → Records txn_id ps xs
    → computed_balance a xs ≡ movement a ps
unfolding computed_balance
computed_balance-Records a txn_id [] [] h = refl
computed_balance-Records a txn_id [] (x ∷ xs) h = absurd h
computed_balance-Records a txn_id (p ∷ ps) [] h = absurd h
computed_balance-Records a txn_id (p ∷ ps) (x ∷ xs) h =
    rw (h.0.account_id, h.0.direction, h.0.amount, computed_balance-Records a txn_id ps xs h.1)
      (rw (calc_lem p.direction p.amount) refl)

pub ledger_net-Records :
    (txn_id : Uuid) (ps : List Posting) (xs : List LedgerEntry)
    → Records txn_id ps xs
    → ledger_net xs ≡ debits ps -ℤ credits ps
unfolding ledger_net
ledger_net-Records txn_id [] [] h = omega int_laws
ledger_net-Records txn_id [] (x ∷ xs) h = absurd h
ledger_net-Records txn_id (p ∷ ps) [] h = absurd h
ledger_net-Records txn_id (p ∷ ps) (x ∷ xs) h =
    rw (h.0.direction, h.0.amount, ledger_net-Records txn_id ps xs h.1)
      (rw (signed_lem p.direction p.amount) (omega int_laws))

-- What the entries debit and what they credit, of all accounts and of one.
abbrev pub debit_total : List LedgerEntry → ℤ
debit_total [] = pos 0
debit_total (x ∷ xs) = debited x.direction x.amount +ℤ debit_total xs

abbrev pub credit_total : List LedgerEntry → ℤ
credit_total [] = pos 0
credit_total (x ∷ xs) = credited x.direction x.amount +ℤ credit_total xs

abbrev pub of_account : Uuid → List LedgerEntry → List LedgerEntry
of_account a [] = []
of_account a (x ∷ xs) = if x.account_id == a then x ∷ of_account a xs else of_account a xs

-- The balance is what the entries credit to the account less what they debit it.
abbrev pub IsFounded : List LedgerEntry → AccountBalance → Type 0
IsFounded entries row =
    let own = of_account row.account_id entries in row.balance ≡ credit_total own -ℤ debit_total own

ledger_net-totals : (xs : List LedgerEntry) → ledger_net xs ≡ debit_total xs -ℤ credit_total xs
unfolding ledger_net
ledger_net-totals [] = omega int_laws
ledger_net-totals (x ∷ xs) =
    rw (ledger_net-totals xs, signed_lem x.direction x.amount) (omega int_laws)

computed_balance-totals :
    (a : Uuid) (xs : List LedgerEntry)
    → computed_balance a xs ≡ credit_total (of_account a xs) -ℤ debit_total (of_account a xs)
unfolding computed_balance
computed_balance-totals a [] = omega int_laws
computed_balance-totals a (x ∷ xs) = elim (Bool-cases (x.account_id == a)) [
  | inl own ↦ rw (own, computed_balance-totals a xs, calc_lem x.direction x.amount) (omega int_laws)
  | inr other ↦ rw (other, computed_balance-totals a xs) (omega int_laws)
]

IsComputed-IsFounded :
    (entries : List LedgerEntry) (rows : List AccountBalance)
    → All (IsComputed entries) rows ↔ All (IsFounded entries) rows
IsComputed-IsFounded entries [] = (λ h. h, λ h. h)
IsComputed-IsFounded entries (row ∷ rows) =
    let rest = IsComputed-IsFounded entries rows in
    let same = computed_balance-totals row.account_id entries in
    (λ h. (h.0 ∙ same, rest.0 h.1), λ h. (h.0 ∙ sym same, rest.1 h.1))

no_difference : (a b : ℤ) → a -ℤ b ≡ pos 0 → a ≡ b
no_difference a b h =
    let split : a ≡ a -ℤ b +ℤ b = omega int_laws in
    let join : pos 0 +ℤ b ≡ b = omega int_laws in split ∙ ap (λ x. x +ℤ b) h ∙ join

equal_totals : (a b : ℤ) → a ≡ b → a -ℤ b ≡ pos 0
equal_totals a b h = let zero_net : b -ℤ b ≡ pos 0 = omega int_laws in ap (λ x. x -ℤ b) h ∙ zero_net

-- The audit answers a report and changes no table. The net of the report is the debits of all
-- entries less their credits. The report is balanced exactly when the debits of all entries are
-- their credits and each balance is the credits of the entries of its account less their debits.
pub audit_iff :
    (env : Environment) (w : World)
    → (report : IntegrityResponse) × (audit_integrity env w ≡ (ok report, w))
      × (report.ledger_net ≡ debit_total w.entries -ℤ credit_total w.entries)
      × ((report.balanced ≡ true) ↔ (
          (debit_total w.entries ≡ credit_total w.entries) × All (IsFounded w.entries) w.balances))
unfolding audit_integrity integrity_of ◌>>=◌
audit_iff env w =
    let net = ledger_net-totals w.entries in
    let rows = IsComputed-IsFounded w.entries w.balances in
    let computed = balanced_iff w.db in
    (
      integrity_of w.db,
      refl,
      net,
      (
        λ h.
            let (zero_net, all) = computed.0 h in
            (
              no_difference (debit_total w.entries) (credit_total w.entries) (sym net ∙ zero_net),
              rows.0 all,
            ),
        λ h.
            computed.1
              (net ∙ equal_totals (debit_total w.entries) (credit_total w.entries) h.0, rows.1 h.1),
      ),
    )
