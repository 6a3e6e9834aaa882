-- ===== src/Execution/Accounts/View.antt =====
-- What a caller sees of the ledgers of src/spy_der/execution/accounts.py, and what creating and storing
-- an account do to it.
use spy_der.Prelude.{
  String, ◌≡◌, refl, true, none, some, Option, arith, Option-cases, Bool-cases, ap, inl, inr,
}
use spy_der.Prelude.Int.{ℤ, pos, ◌≤ℤ◌, ◌<ℤ◌}
use spy_der.Prelude.Text.{str_eq, str_eq_iff}
use spy_der.Prelude.Dict.{lookup, insert, lookup-insert, lookup-insert_self}
use spy_der.Prelude.Effects.{ok, err, ◌>>=◌, >>=-ok}
use spy_der.Execution.Contracts.{negative_cash, valid_account_id, PaperAccount, account_error}
use spy_der.Execution.Accounts.{
  IsolatedAccountBook, BookAction, fresh_account, create_if_missing, store, ensure,
}
use spy_der.Execution.Accounts.Sound.{IsSound}

abbrev or_fresh : String → ℤ → Option PaperAccount → PaperAccount
or_fresh k cash none = fresh_account k cash
or_fresh k cash (some a) = a

-- The account that a caller sees under an id.
abbrev pub view : String → IsolatedAccountBook → PaperAccount
view k s = or_fresh k s.starting_cash (lookup k s.accounts)

abbrev with_fresh : String → IsolatedAccountBook → Option PaperAccount → IsolatedAccountBook
with_fresh k s none = record s { accounts = insert k (fresh_account k s.starting_cash) s.accounts }
with_fresh k s (some a) = s

-- The book after `ensure`.
abbrev pub ensured : String → IsolatedAccountBook → IsolatedAccountBook
ensured k s = with_fresh k s (lookup k s.accounts)

pub ensure-eq :
    (k : String) (s : IsolatedAccountBook)
    → valid_account_id k ≡ true
    → pos 0 ≤ℤ s.starting_cash
    → ensure k s ≡ (ok (view k s), ensured k s)
unfolding ensure create_if_missing store account_error
ensure-eq k s known rich = ground arith

pub lookup-ensured :
    (k : String) (s : IsolatedAccountBook) → lookup k (ensured k s).accounts ≡ some (view k s)
lookup-ensured k s = elim (Option-cases (lookup k s.accounts)) [
  | inl e ↦ rw e (lookup-insert_self k (fresh_account k s.starting_cash) s.accounts)
  | inr (a, e) ↦ rw e e
]

-- `ensure` changes nothing that a caller sees.
pub view-ensured : (k j : String) (s : IsolatedAccountBook) → view j (ensured k s) ≡ view j s
view-ensured k j s = elim (Option-cases (lookup k s.accounts)) [
  | inl e ↦ rw e (elim (Bool-cases (str_eq k j)) [
    | inl same ↦
        let p : k ≡ j = (str_eq_iff k j).0 same in
        ground (
          arith,
          lookup-insert k j (fresh_account k s.starting_cash) s.accounts,
          ap (λ x. lookup x s.accounts) p,
        )
    | inr other ↦ rw (lookup-insert k j (fresh_account k s.starting_cash) s.accounts) (rw other)
  ])
  | inr (a, e) ↦ rw e
]

pub view-known :
    (k : String) (s : IsolatedAccountBook)
    → valid_account_id k ≡ true
    → IsSound s
    → (valid_account_id (view k s).account_id ≡ true) × ((view k s).account_id ≡ k)
view-known k s known h = elim (Option-cases (lookup k s.accounts)) [
  | inl e ↦ rw e (known, refl)
  | inr (a, e) ↦ rw e ((h.solvent k a e).known, h.keyed k a e)
]

-- A store that the constructor's checks let pass.
pub store-eq :
    (k : String) (a : PaperAccount) (s : IsolatedAccountBook)
    → valid_account_id a.account_id ≡ true
    → pos 0 ≤ℤ a.cash
    → pos 0 ≤ℤ a.equity
    → store k a s ≡ (ok a, record s { accounts = insert k a s.accounts })
unfolding store account_error
store-eq k a s known c e = ground arith

pub view-insert :
    (k : String) (a : PaperAccount) (s : IsolatedAccountBook)
    → view k (record s { accounts = insert k a s.accounts }) ≡ a
view-insert k a s = rw (lookup-insert_self k a s.accounts)

pub ensure_then :
    {B : Type 0} (k : String) (g : PaperAccount → BookAction B) (s : IsolatedAccountBook)
    → valid_account_id k ≡ true
    → pos 0 ≤ℤ s.starting_cash
    → (ensure k >>= g) s ≡ g (view k s) (ensured k s)
ensure_then k g s known rich = >>=-ok (ensure k) g s (ensure-eq k s known rich)

pub store-err :
    (k : String) (a : PaperAccount) (s : IsolatedAccountBook)
    → valid_account_id a.account_id ≡ true
    → a.cash <ℤ pos 0
    → store k a s ≡ (err negative_cash, s)
unfolding store account_error
store-err k a s known short = ground arith
