-- ===== src/Execution/Accounts/Sound.antt =====
-- The invariant of the ledgers of src/spy_der/execution/accounts.py.
use spy_der.Prelude.{
  String, ◌≡◌, refl, ◌∙◌, Bool, true, none, some, arith, not, Option-cases, ap, inl, inr,
}
use spy_der.Prelude.Int.{ℤ, pos, ◌≤ℤ◌, ltb_ℤ}
use spy_der.Prelude.Text.{elem, str_eq_iff}
use spy_der.Prelude.Dict.{lookup, insert, lookup-insert, Each, insert-Each}
use spy_der.Prelude.Effects.{Result, ok, err, pure, require, get, ◌>>=◌}
use spy_der.Prelude.Hoare.{
  Keeps, Returned, >>=-Keeps, pure-Keeps, require-Keeps, get-Keeps, choose-Keeps,
}
use spy_der.Execution.Contracts.{
  Fault, unknown_account, account_blocked, insufficient_cash, valid_account_id, OrderFill,
  PaperAccount, account_error,
}
use spy_der.Execution.Accounts.{
  IsolatedAccountBook, BookAction, create_if_missing, fresh_account, cash_after, filled_account,
  blocked_account, registered_account, realized_account, closed_account, register_in, fill_in,
  settle_in, store, ensure, block, apply_fill, register_position, realize_pnl, close_position,
}

-- A known account, out of debt.
pub record IsSolvent (a : PaperAccount) : Type 0 where
  pub known : valid_account_id a.account_id ≡ true
  pub cash_nonneg : pos 0 ≤ℤ a.cash
  pub equity_nonneg : pos 0 ≤ℤ a.equity

-- Every account is solvent and stands under its own id.
pub record IsSound (s : IsolatedAccountBook) : Type 0 where
  pub solvent : Each IsSolvent s.accounts
  pub keyed : (k : String) (a : PaperAccount) → lookup k s.accounts ≡ some a → a.account_id ≡ k

account_error-IsSolvent : (a : PaperAccount) → account_error a ≡ none → IsSolvent a
unfolding account_error
account_error-IsSolvent a h = ground arith

insert-IsSound :
    (k : String) (a : PaperAccount) (s : IsolatedAccountBook)
    → IsSolvent a
    → a.account_id ≡ k
    → IsSound s
    → IsSound (record s { accounts = insert k a s.accounts })
insert-IsSound k a s sol same h = record {
  solvent = insert-Each IsSolvent k a s.accounts sol h.solvent;
  keyed = λ j b e. ground (arith, lookup-insert k j a s.accounts, str_eq_iff k j, h.keyed j b);
}

store-Keeps :
    (k : String) (a : PaperAccount)
    → a.account_id ≡ k
    → Keeps IsSound (λ b. (b ≡ a) × IsSolvent b) (store k a)
unfolding store
store-Keeps k a same = elim (Option-cases (account_error a)) [
  | inl e ↦ record {
    keeps = λ s h. rw e (insert-IsSound k a s (account_error-IsSolvent a e) same h);
    gives = λ s h. rw e (refl, account_error-IsSolvent a e);
  }
  | inr (x, e) ↦ record { keeps = λ s h. rw e h; gives = λ s h. rw e tt }
]

create_if_missing-Keeps :
    (k : String) (s : IsolatedAccountBook)
    → IsSound s
    → Keeps IsSound
        (λ a. (a.account_id ≡ k) × IsSolvent a)
        (create_if_missing k s.starting_cash (lookup k s.accounts))
unfolding create_if_missing
create_if_missing-Keeps k s h = elim (Option-cases (lookup k s.accounts)) [
  | inl e ↦ rw e (record {
    keeps = λ t i. (store-Keeps k (fresh_account k s.starting_cash) refl).keeps t i;
    gives = λ t i.
        named k s.starting_cash (store k (fresh_account k s.starting_cash) t).0
          ((store-Keeps k (fresh_account k s.starting_cash) refl).gives t i);
  })
  | inr (a, e) ↦ rw e (pure-Keeps IsSound _ a (h.keyed k a e, h.solvent k a e))
]
  where
    named :
        (j : String) (c : ℤ) (r : Result Fault PaperAccount)
        → Returned (λ b. (b ≡ fresh_account j c) × IsSolvent b) r
        → Returned (λ b. (b.account_id ≡ j) × IsSolvent b) r
    named j c (ok b) q = (ap (λ (x : PaperAccount). x.account_id) q.0, q.1)
    named j c (err e) q = tt

-- `ensure` returns a solvent account under the id that was asked for.
pub ensure-Keeps : (k : String) → Keeps IsSound (λ a. (a.account_id ≡ k) × IsSolvent a) (ensure k)
unfolding ensure
ensure-Keeps k =
    >>=-Keeps IsSound (require (valid_account_id k) (unknown_account k)) _
      (require-Keeps IsSound _ _)
      (λ u v. >>=-Keeps IsSound get _ (get-Keeps IsSound) (λ s h. create_if_missing-Keeps k s h))

-- A method that ensures an account and then stores a new version of it under the same id.
ensure_then-Keeps :
    {B : Type 0} {R : B → Type 0} (k : String) (f : PaperAccount → BookAction B)
    → ((a : PaperAccount) → a.account_id ≡ k → IsSolvent a → Keeps IsSound R (f a))
    → Keeps IsSound R (ensure k >>= f)
ensure_then-Keeps k f h = >>=-Keeps IsSound (ensure k) f (ensure-Keeps k) (λ a q. h a q.0 q.1)

store_any-Keeps :
    (k : String) (a : PaperAccount) → a.account_id ≡ k → Keeps IsSound IsSolvent (store k a)
store_any-Keeps k a e = record {
  keeps = (store-Keeps k a e).keeps;
  gives = λ s h. weaken (store k a s).0 ((store-Keeps k a e).gives s h);
}
  where
    weaken :
        (r : Result Fault PaperAccount)
        → Returned (λ b. (b ≡ a) × IsSolvent b) r
        → Returned IsSolvent r
    weaken (ok b) q = q.1
    weaken (err x) q = tt

-- A method that stores a new version of the account, with the same id.
stores-Keeps :
    (k : String) (g : PaperAccount → PaperAccount)
    → ((a : PaperAccount) → (g a).account_id ≡ a.account_id)
    → Keeps IsSound IsSolvent (ensure k >>= λ a. store k (g a))
stores-Keeps k g same =
    ensure_then-Keeps k (λ a. store k (g a)) (λ a e q. store_any-Keeps k (g a) (same a ∙ e))

fill_in-Keeps :
    (f : OrderFill) (debit : Bool) (a : PaperAccount)
    → a.account_id ≡ f.account_id
    → Keeps IsSound IsSolvent (fill_in f debit a)
unfolding fill_in
fill_in-Keeps f debit a e =
    >>=-Keeps IsSound (require (not a.is_blocked) account_blocked) (λ u. settle_in f debit a)
      (require-Keeps IsSound _ _)
      (λ u v.
        >>=-Keeps IsSound
          (require (not (ltb_ℤ (cash_after f debit a.cash) (pos 0))) insufficient_cash)
          (λ u. store f.account_id (filled_account f debit a)) (require-Keeps IsSound _ _)
          (λ w x. store_any-Keeps f.account_id (filled_account f debit a) e))

register_in-Keeps :
    (k p : String) (a : PaperAccount)
    → a.account_id ≡ k
    → IsSolvent a
    → Keeps IsSound IsSolvent (register_in k p a)
unfolding register_in
register_in-Keeps k p a e q =
    choose-Keeps IsSound (elem p a.open_position_ids) {m = pure a}
      {n = store k (registered_account p a)} (λ b. pure-Keeps IsSound IsSolvent a q)
      (λ b. store_any-Keeps k (registered_account p a) e)

block-Keeps : (k reason : String) → Keeps IsSound IsSolvent (block k reason)
unfolding block
block-Keeps k reason = stores-Keeps k (blocked_account reason) (λ a. refl)

pub apply_fill-Keeps : (f : OrderFill) (debit : Bool) → Keeps IsSound IsSolvent (apply_fill f debit)
unfolding apply_fill
apply_fill-Keeps f debit =
    ensure_then-Keeps f.account_id (fill_in f debit) (λ a e q. fill_in-Keeps f debit a e)

pub register_position-Keeps : (k p : String) → Keeps IsSound IsSolvent (register_position k p)
unfolding register_position
register_position-Keeps k p =
    ensure_then-Keeps k (register_in k p) (λ a e q. register_in-Keeps k p a e q)

pub realize_pnl-Keeps :
    (k note : String) (pnl : ℤ) → Keeps IsSound IsSolvent (realize_pnl k pnl note)
unfolding realize_pnl
realize_pnl-Keeps k note pnl = stores-Keeps k (realized_account pnl note) (λ a. refl)

pub close_position-Keeps :
    (k p : String) (pnl : ℤ) → Keeps IsSound IsSolvent (close_position k p pnl)
unfolding close_position
close_position-Keeps k p pnl = stores-Keeps k (closed_account p pnl) (λ a. refl)

-- Every method, `ensure` among them, with whatever arguments and result, keeps each account solvent and
-- under its own id, and an account that it returns is solvent; the one that `ensure` returns has the
-- id that was asked for.
pub methods-Keeps :
    (k : String) (f : OrderFill) (debit : Bool) (p reason note : String) (pnl : ℤ)
    → Keeps IsSound (λ a. (a.account_id ≡ k) × IsSolvent a) (ensure k)
      × Keeps IsSound IsSolvent (block k reason)
      × Keeps IsSound IsSolvent (apply_fill f debit)
      × Keeps IsSound IsSolvent (register_position k p)
      × Keeps IsSound IsSolvent (realize_pnl k pnl note)
      × Keeps IsSound IsSolvent (close_position k p pnl)
methods-Keeps k f debit p reason note pnl = (
  ensure-Keeps k,
  block-Keeps k reason,
  apply_fill-Keeps f debit,
  register_position-Keeps k p,
  realize_pnl-Keeps k note pnl,
  close_position-Keeps k p pnl,
)
