-- ===== src/Execution/Accounts/Isolation.antt =====
-- Accounts cannot change one another: src/spy_der/execution/accounts.py.
use spy_der.Prelude.{
  not, if◌then◌else◌, String, ◌≡◌, refl, ◌≢◌, ◌∙◌, Bool, true, false, none, some, Option,
  Option-cases, inl, inr,
}
use spy_der.Prelude.Int.{ℤ, pos, ltb_ℤ}
use spy_der.Prelude.Text.{elem}
use spy_der.Prelude.Dict.{lookup, lookup-insert_ne}
use spy_der.Prelude.Effects.{Result, ok, err, ◌>>=◌, pure, require, get}
use spy_der.Execution.Contracts.{
  Fault, valid_account_id, unknown_account, account_blocked, insufficient_cash, OrderFill,
  PaperAccount, account_error,
}
use spy_der.Execution.Accounts.{
  IsolatedAccountBook, BookAction, create_if_missing, fresh_account, cash_after, store, ensure,
  block, apply_fill, register_position, realize_pnl, close_position,
}

-- A call on account `a`, however it ends, leaves every other account as it was, and the starting
-- cash too.
pub record Touches {A : Type 0} (a : String) (m : BookAction A) : Type 0 where
  pub others :
      (b : String) (s : IsolatedAccountBook)
      → a ≢ b
      → lookup b (m s).1.accounts ≡ lookup b s.accounts
  pub start : (s : IsolatedAccountBook) → (m s).1.starting_cash ≡ s.starting_cash

pub >>=-Touches :
    {A B : Type 0} {a : String} (m : BookAction A) (f : A → BookAction B)
    → Touches a m
    → ((x : A) → Touches a (f x))
    → Touches a (m >>= f)
>>=-Touches {A} {B} {a} m f tm tf = record {
  others = λ b s ne. go b (m s).0 (m s).1 ne ∙ tm.others b s ne;
  start = λ s. back (m s).0 (m s).1 ∙ tm.start s;
}
  where
    go :
        (b : String) (r : Result Fault A) (s : IsolatedAccountBook)
        → a ≢ b
        → lookup b
            (let x : Result Fault B × IsolatedAccountBook = elim r [
              | ok y ↦ f y s
              | err e ↦ (err e, s)
            ] in
              x).1.accounts
          ≡ lookup b s.accounts
    go b (ok y) s ne = (tf y).others b s ne
    go b (err e) s ne = refl

    back :
        (r : Result Fault A) (s : IsolatedAccountBook)
        → (let x : Result Fault B × IsolatedAccountBook = elim r [
          | ok y ↦ f y s
          | err e ↦ (err e, s)
        ] in
            x).1.starting_cash
          ≡ s.starting_cash
    back (ok y) s = (tf y).start s
    back (err e) s = refl

store-Touches : (a : String) (acct : PaperAccount) → Touches a (store a acct)
unfolding store
store-Touches a acct = record {
  others = λ b s ne. elim (Option-cases (account_error acct)) [
    | inl e ↦ rw e (lookup-insert_ne a b acct s.accounts ne)
    | inr (x, e) ↦ rw e
  ];
  start = λ s. elim (Option-cases (account_error acct)) [ inl e ↦ rw e | inr (x, e) ↦ rw e ];
}

require-Touches : (a : String) (b : Bool) (e : Fault) → Touches a (require b e)
require-Touches a true e = record { others = λ b s ne. refl; start = λ s. refl }
require-Touches a false e = record { others = λ b s ne. refl; start = λ s. refl }

pure-Touches : {A : Type 0} (a : String) (x : A) → Touches a (pure x)
pure-Touches a x = record { others = λ b s ne. refl; start = λ s. refl }

create_if_missing-Touches :
    (a : String) (c : ℤ) (o : Option PaperAccount) → Touches a (create_if_missing a c o)
unfolding create_if_missing
create_if_missing-Touches a c none = store-Touches a (fresh_account a c)
create_if_missing-Touches a c (some x) = pure-Touches a x

ensure-Touches : (a : String) → Touches a (ensure a)
unfolding ensure
ensure-Touches a =
    >>=-Touches (require (valid_account_id a) (unknown_account a)) _ (require-Touches a _ _) (λ u.
      >>=-Touches get _ (record { others = λ b s ne. refl; start = λ s. refl })
        (λ s. create_if_missing-Touches a s.starting_cash (lookup a s.accounts)))

choose-Touches :
    {A : Type 0} {a : String} (b : Bool) {m n : BookAction A}
    → Touches a m
    → Touches a n
    → Touches a (if b then m else n)
choose-Touches true tm tn = tm
choose-Touches false tm tn = tn

-- Each method, on whatever account and with whatever result, leaves every other account alone.
pub methods-Touches :
    (a : String) (f : OrderFill) (debit : Bool) (p reason note : String) (pnl : ℤ)
    → Touches a (ensure a)
      × Touches a (block a reason)
      × Touches f.account_id (apply_fill f debit)
      × Touches a (register_position a p)
      × Touches a (realize_pnl a pnl note)
      × Touches a (close_position a p pnl)
unfolding block apply_fill register_position realize_pnl close_position
methods-Touches a f debit p reason note pnl = (
  ensure-Touches a,
  >>=-Touches (ensure a) _ (ensure-Touches a) (λ x. store-Touches a _),
  >>=-Touches (ensure f.account_id) _ (ensure-Touches f.account_id) (λ x.
      >>=-Touches (require (not x.is_blocked) account_blocked) _ (require-Touches f.account_id _ _)
        (λ u.
          >>=-Touches (require (not (ltb_ℤ (cash_after f debit x.cash) (pos 0))) insufficient_cash)
            _ (require-Touches f.account_id _ _) (λ v. store-Touches f.account_id _))),
  >>=-Touches (ensure a) _ (ensure-Touches a)
      (λ x. choose-Touches (elem p x.open_position_ids) (pure-Touches a x) (store-Touches a _)),
  >>=-Touches (ensure a) _ (ensure-Touches a) (λ x. store-Touches a _),
  >>=-Touches (ensure a) _ (ensure-Touches a) (λ x. store-Touches a _),
)
