-- ===== src/Ledger/Success.antt =====
-- When `post` returns, and when it refuses an overdraft.
use mathlib.Core.Path.{fun_ext}
use apex_payments_engine.Prelude.{
  suc, ◌≡◌, ◌↔◌, inl, inr, refl, sym, ◌∙◌, subst, true, some, List, [], ◌∷◌, arith, Option-cases,
}
use apex_payments_engine.Prelude.Int.{ℤ, pos}
use apex_payments_engine.Domain.Enums.{Direction, debit, credit, TransactionType}
use apex_payments_engine.Domain.Exceptions.{Uuid}
use apex_payments_engine.Domain.Models.{AccountBalance, LedgerTransaction}
use apex_payments_engine.Session.{
  AcceptsAll, Environment, World, ok, Action, ◌>>=◌, ◌>>◌, lift, flush, pure,
}
use apex_payments_engine.Ledger.{
  Posting, balance_row, add_balance_row, add_transaction, validate_balanced, sorted_account_ids,
  init_balance, lock_balance, lock_balances, apply_to_balance, apply_posting, apply_postings,
  create_transaction, post_entries, post,
}
use apex_payments_engine.Ledger.Validation.{IsBalanced, ok_of_IsBalanced}
use apex_payments_engine.Ledger.Locks.{has_posting, contains-sorted_account_ids}
use apex_payments_engine.Ledger.Postings.{balance_of, Covers, apply_posting-IsPosted}
use apex_payments_engine.Ledger.Balances.{CanApply}
use apex_payments_engine.Ledger.Applied.{IsPosted-IsShifted}
use apex_payments_engine.Ledger.Post.{lock_balances-IsLocked, post-IsRecorded}
use apex_payments_engine.Ledger.Rows.{
  HasRow, HasRows, KeepsRows, add_balance_row-KeepsRows, find-add_balance_row, IsPosted-HasRow,
  has_posting-cons, has_posting_self, rows_cons,
}

-- The action returns, and what it returns and leaves satisfies `P`.
abbrev pub Returns : {A : Type 0} → (A → World → Type 0) → Action A → World → Type 0
Returns {A} P m w = (a : A) × (w' : World) × (m w ≡ (ok a, w')) × P a w'

pub >>=-returns :
    {A B : Type 0} (m : Action A) (f : A → Action B) (w u : World) (a : A)
    → m w ≡ (ok a, u)
    → (m >>= f) w ≡ f a u
unfolding ◌>>=◌
>>=-returns m f w u a h = rw h

pub pure-returns : {A : Type 0} (a : A) (w : World) → pure a w ≡ (ok a, w)
unfolding ◌>>=◌
pure-returns a w = refl

module _ (env : Environment) (accepts : AcceptsAll env) where
  init_balance-Returns :
      (a : Uuid) (w : World)
      → Returns
          (λ _ w'. HasRow a w'.db × KeepsRows w.db w'.db)
          (init_balance env a (balance_row a w.db))
          w
  unfolding init_balance ◌>>=◌
  init_balance-Returns a w = elim (Option-cases (balance_row a w.db)) [
    | inl missing ↦
        let row : AccountBalance = record {
          account_id = a;
          balance = pos 0;
          version = 0;
          updated_at = env.now w.calls;
        } in
        let d = add_balance_row row w.db in
        (
          tt,
          record { db = d; calls = suc (suc w.calls) },
          rw missing (ground (arith, accepts (suc w.calls) d)),
          ((row, find-add_balance_row row w.db missing), add_balance_row-KeepsRows row w.db),
        )
    | inr (row, found) ↦ (tt, w, rw found, ((row, found), λ b r h. h))
  ]

  lock_balance-Returns :
      (a : Uuid) (w : World)
      → Returns (λ _ w'. HasRow a w'.db × KeepsRows w.db w'.db) (lock_balance env a) w
  unfolding lock_balance ◌>>=◌
  lock_balance-Returns a w = init_balance-Returns a w

  -- The lock loop returns, and every account that it was given has a row.
  pub lock_balances-Returns :
      (ids : List Uuid) (w : World)
      → Returns (λ _ w'. HasRows ids w'.db × KeepsRows w.db w'.db) (lock_balances env ids) w
  unfolding lock_balances
  lock_balances-Returns [] w = (tt, w, pure-returns tt w, ((λ a h. cc), λ b r h. h))
  lock_balances-Returns (a ∷ ids) w =
      let (x, u, e, first) = lock_balance-Returns a w in
      let (y, w', e', rest) = lock_balances-Returns ids u in
      (
        tt,
        w',
        >>=-returns (lock_balance env a) (λ _. lock_balances env ids) w u x e ∙ e',
        (
          rows_cons a ids w'.db (first.0.0, rest.1 a first.0.0 first.0.1) rest.0,
          λ b r h. rest.1 b r (first.1 b r h),
        ),
      )

  -- One posting to an account with a row goes through if the row covers it.
  posting-returns :
      (dir : Direction) (txn_id acc_id : Uuid) (amount : ℤ) (row : AccountBalance) (w : World)
      → let p : Posting = record { account_id = acc_id; direction = dir; amount = amount } in
        balance_row acc_id w.db ≡ some row
        → Covers dir amount row.balance
        → (w' : World) × (apply_posting env txn_id p w ≡ (ok tt, w'))
  unfolding apply_posting apply_to_balance ◌>>=◌
  posting-returns debit txn_id acc_id amount row w found c =
      let p : Posting = record { account_id = acc_id; direction = debit; amount = amount } in
      ((apply_posting env txn_id p w).1, ground arith)
  posting-returns credit txn_id acc_id amount row w found c =
      let p : Posting = record { account_id = acc_id; direction = credit; amount = amount } in
      ((apply_posting env txn_id p w).1, ground arith)

  apply_postings-returns :
      (txn_id : Uuid) (ps : List Posting) (w : World)
      → ((a : Uuid) → has_posting a ps ≡ true → HasRow a w.db)
      → CanApply (λ a. balance_of a w.db) ps
      → (w' : World) × (apply_postings env txn_id ps w ≡ (ok tt, w'))
  unfolding apply_postings
  apply_postings-returns txn_id [] w rows can = (w, pure-returns tt w)
  apply_postings-returns txn_id (p ∷ ps) w rows can =
      let row = rows p.account_id (has_posting_self p ps) in
      let (u, e) =
        posting-returns p.direction txn_id p.account_id p.amount row.0 w row.1
          (rw (row.1) at can.0) in
      let posted = apply_posting-IsPosted env txn_id p w u e in
      let (w', e') =
        apply_postings-returns txn_id ps u
          (λ a h. IsPosted-HasRow a txn_id p w.db u.db posted (rows a (has_posting-cons a p ps h)))
          (subst (λ b. CanApply b ps)
            (fun_ext λ a. sym ((IsPosted-IsShifted txn_id p w.db u.db posted).balances a)) can.1) in
      (
        w',
        >>=-returns (apply_posting env txn_id p) (λ _. apply_postings env txn_id ps) w u tt e ∙ e',
      )

  pub create_transaction-Returns :
      (kind : TransactionType) (ref : Uuid) (w : World)
      → Returns (λ txn w'. w'.db ≡ add_transaction txn w.db) (create_transaction env kind ref) w
  unfolding create_transaction ◌>>=◌
  create_transaction-Returns kind ref w =
      let txn : LedgerTransaction = record {
        id = env.uuid4 w.calls;
        type = kind;
        reference_id = ref;
        created_at = env.now (suc w.calls);
      } in
      let d = add_transaction txn w.db in
      (
        txn,
        record { db = d; calls = suc (suc (suc w.calls)) },
        ground (arith, accepts (suc (suc w.calls)) d),
        refl,
      )

  flush-returns :
      (txn : LedgerTransaction) (w : World)
      → (flush env >> pure txn) w ≡ (ok txn, record w { calls = suc w.calls })
  unfolding ◌>>=◌
  flush-returns txn w = ground (arith, accepts w.calls w.db)

  post_entries-returns :
      (ps : List Posting) (txn : LedgerTransaction) (w : World)
      → CanApply (λ a. balance_of a w.db) ps
      → (w' : World) × (post_entries env ps txn w ≡ (ok txn, w'))
  unfolding post_entries
  post_entries-returns ps txn w can =
      let ids = sorted_account_ids ps in
      let rest = flush env >> pure txn in
      let (x, u, e, after) = lock_balances-Returns ids w in
      let locked = (lock_balances-IsLocked env ids).at w u x e in
      let (v, e') =
        apply_postings-returns txn.id ps u (λ a h. after.0 a (contains-sorted_account_ids a ps ∙ h))
          (subst (λ b. CanApply b ps) (fun_ext λ a. sym (locked.balances a)) can) in
      (
        record v { calls = suc v.calls },
        >>=-returns (lock_balances env ids) (λ _. apply_postings env txn.id ps >> rest) w u x e
            ∙ >>=-returns (apply_postings env txn.id ps) (λ _. rest) u v tt e'
            ∙ flush-returns txn v,
      )

  pub validate-returns :
      (ps : List Posting) (w : World) → IsBalanced ps → lift (validate_balanced ps) w ≡ (ok tt, w)
  unfolding ◌>>=◌
  validate-returns ps w b = rw (ok_of_IsBalanced ps b)

  pub post-returns :
      (kind : TransactionType) (ref : Uuid) (ps : List Posting) (w : World)
      → IsBalanced ps
      → CanApply (λ a. balance_of a w.db) ps
      → (txn : LedgerTransaction) × (w' : World) × (post env kind ref ps w ≡ (ok txn, w'))
  unfolding post
  post-returns kind ref ps w balanced can =
      let create = create_transaction env kind ref in
      let (txn, u, e, made) = create_transaction-Returns kind ref w in
      let (w', e') = post_entries-returns ps txn u (rw made can) in
      (
        txn,
        w',
        >>=-returns (lift (validate_balanced ps)) (λ _. create >>= post_entries env ps) w w tt
              (validate-returns ps w balanced)
            ∙ >>=-returns create (post_entries env ps) w u txn e
            ∙ e',
      )

  -- If the database accepts the writes, `post` returns exactly for balanced postings of which, in
  -- their order, no debit exceeds the balance that its account has then.
  pub post_iff :
      (kind : TransactionType) (ref : Uuid) (ps : List Posting) (w : World)
      → ((txn : LedgerTransaction) × (w' : World) × (post env kind ref ps w ≡ (ok txn, w')))
        ↔ (IsBalanced ps × CanApply (λ a. balance_of a w.db) ps)
  post_iff kind ref ps w = (
    (λ (txn, w', h). let r = post-IsRecorded env kind ref ps w w' txn h in (r.balanced, r.can)),
    λ (balanced, can). post-returns kind ref ps w balanced can,
  )
