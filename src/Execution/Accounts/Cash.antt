-- ===== src/Execution/Accounts/Cash.antt =====
-- What the methods of src/spy_der/execution/accounts.py do to the account that they are called on,
-- on every branch.
use spy_der.Prelude.{
  String, ◌≡◌, refl, ◌∙◌, Bool, true, false, arith, not, Bool-cases, ap, inl, inr, subst, sym, List,
  [], ◌∷◌, ◌++◌, ◌+◌, ◌≢◌,
}
use spy_der.Prelude.Int.{ℤ, pos, ◌≤ℤ◌, ◌<ℤ◌, ◌+ℤ◌, ◌-ℤ◌, ◌*ℤ◌, ltb_ℤ, ltb_ℤ-false, ltb_ℤ-true}
use spy_der.Prelude.Text.{str_eq_iff, str_eq_ne, elem}
use spy_der.Prelude.Dict.{insert}
use spy_der.Prelude.Effects.{Result, ok, err, ◌>>=◌, require_met, require_failed}
use spy_der.Execution.Contracts.{
  Fault, account_blocked, insufficient_cash, negative_cash, valid_account_id, OrderFill,
  PaperAccount, AccountEvent,
}
use spy_der.Execution.Accounts.{
  IsolatedAccountBook, BookAction, cash_after, filled_account, realized_account, closed_account,
  fill_in, settle_in, store, ensure, apply_fill, realize_pnl, close_position, without,
}
use spy_der.Execution.Accounts.Sound.{IsSound}
use spy_der.Execution.Accounts.View.{
  view, ensured, view-ensured, view-known, store-eq, store-err, view-insert, ensure_then,
}

apply_fill-eq :
    (f : OrderFill) (debit : Bool) (s : IsolatedAccountBook)
    → valid_account_id f.account_id ≡ true
    → pos 0 ≤ℤ s.starting_cash
    → apply_fill f debit s ≡ fill_in f debit (view f.account_id s) (ensured f.account_id s)
unfolding apply_fill
apply_fill-eq f debit s known rich = ensure_then f.account_id (fill_in f debit) s known rich

fill_in-eq :
    (f : OrderFill) (debit : Bool) (a : PaperAccount) (t : IsolatedAccountBook)
    → valid_account_id a.account_id ≡ true
    → let c = cash_after f debit a.cash in
      (a.is_blocked ≡ true → fill_in f debit a t ≡ (err account_blocked, t))
      × (a.is_blocked ≡ false → c <ℤ pos 0 → fill_in f debit a t ≡ (err insufficient_cash, t))
      × (a.is_blocked ≡ false
          → pos 0 ≤ℤ c
          → fill_in f debit a t ≡ (
            ok (filled_account f debit a),
            record t { accounts = insert f.account_id (filled_account f debit a) t.accounts },
          ))
unfolding fill_in settle_in
fill_in-eq f debit a t known =
    let c : ℤ = cash_after f debit a.cash in
    let rest : BookAction PaperAccount = settle_in f debit a in
    let save : BookAction PaperAccount = store f.account_id (filled_account f debit a) in
    (
      λ b. require_failed (not a.is_blocked) account_blocked rest t (ap not b),
      λ b short.
          require_met (not a.is_blocked) account_blocked rest t (ap not b)
          ∙ require_failed (not (ltb_ℤ c (pos 0))) insufficient_cash save t
              (ap not ((ltb_ℤ-true c (pos 0)).1 short)),
      λ b enough.
          require_met (not a.is_blocked) account_blocked rest t (ap not b)
          ∙ require_met (not (ltb_ℤ c (pos 0))) insufficient_cash save t
              (ap not ((ltb_ℤ-false c (pos 0)).1 enough))
          ∙ store-eq f.account_id (filled_account f debit a) t known enough enough,
    )

-- The cash that a fill leaves: a buy pays its quantity times its price and its fees, a sale brings in
-- the same sum.
abbrev pub cash_due : OrderFill → Bool → ℤ → ℤ
cash_due f true cash = cash -ℤ (pos f.quantity *ℤ f.price +ℤ f.fees)
cash_due f false cash = cash +ℤ (pos f.quantity *ℤ f.price +ℤ f.fees)

-- How an account stands after a fill, against how it stood.
pub record Filled (f : OrderFill) (debit : Bool) (a b : PaperAccount) : Type 0 where
  pub account_id : b.account_id ≡ a.account_id
  pub cash : b.cash ≡ cash_due f debit a.cash
  pub equity : b.equity ≡ cash_due f debit a.cash
  pub starting_cash : b.starting_cash ≡ a.starting_cash
  pub positions : b.open_position_ids ≡ a.open_position_ids
  pub day : b.daily_realized_pnl ≡ a.daily_realized_pnl
  pub buys : debit ≡ true → b.trade_count ≡ a.trade_count + 1
  pub sales : debit ≡ false → b.trade_count ≡ a.trade_count
  pub allowed : b.is_blocked ≡ a.is_blocked
  pub reason : b.block_reason ≡ a.block_reason
  pub events : b.events ≡ a.events ++ AccountEvent.fill f.fill_id ∷ []

cash_due-after : (f : OrderFill) (debit : Bool) (c : ℤ) → cash_after f debit c ≡ cash_due f debit c
cash_due-after f true c = refl
cash_due-after f false c = refl

filled_account-Filled :
    (f : OrderFill) (debit : Bool) (a : PaperAccount) → Filled f debit a (filled_account f debit a)
filled_account-Filled f debit a = record {
  account_id = refl;
  cash = cash_due-after f debit a.cash;
  equity = cash_due-after f debit a.cash;
  starting_cash = refl;
  positions = refl;
  day = refl;
  buys = λ h. ground arith;
  sales = λ h. ground arith;
  allowed = refl;
  reason = refl;
  events = refl;
}

-- A fill on a known account, of a sound book whose starting cash is not negative, ends in one of
-- three ways. On a blocked account it raises; where the cash would fall below zero it raises; else it
-- returns the account with its cash lower (a buy) or higher (a sale) by exactly quantity times price
-- and fees, with its equity at its cash, one trade more for a buy, the fill on its record and all
-- else as it was, and that account is what is seen afterwards. When it raises no account is seen to
-- change.
pub apply_fill-effect :
    (f : OrderFill) (debit : Bool) (s : IsolatedAccountBook)
    → valid_account_id f.account_id ≡ true
    → pos 0 ≤ℤ s.starting_cash
    → IsSound s
    → let a = view f.account_id s in
      let (r, t) = apply_fill f debit s in
      (a.is_blocked ≡ true → r ≡ err account_blocked)
      × (a.is_blocked ≡ false → cash_due f debit a.cash <ℤ pos 0 → r ≡ err insufficient_cash)
      × (a.is_blocked ≡ false
          → pos 0 ≤ℤ cash_due f debit a.cash
          → (b : PaperAccount) × ((r ≡ ok b) × ((view f.account_id t ≡ b) × Filled f debit a b)))
      × ((e : Fault) → r ≡ err e → (k : String) → view k t ≡ view k s)
apply_fill-effect f debit s known rich sound =
    let id : String = f.account_id in
    let a : PaperAccount = view id s in
    let due = cash_due-after f debit a.cash in
    let same = view-known id s known sound in
    let cases = fill_in-eq f debit a (ensured id s) same.0 in
    rw (apply_fill-eq f debit s known rich) (
      λ b. rw (cases.0 b),
      λ b short. rw (cases.1 b (subst (λ c. c <ℤ pos 0) (sym due) short)),
      λ b enough. (
        filled_account f debit a,
        rw (cases.2 b (subst (λ c. pos 0 ≤ℤ c) (sym due) enough)) (
          refl,
          (
            view-insert id (filled_account f debit a) (ensured id s),
            filled_account-Filled f debit a,
          ),
        ),
      ),
      λ e raised k. elim (Bool-cases a.is_blocked) [
        | inl b ↦ rw (cases.0 b) (view-ensured id k s)
        | inr b ↦ elim (Bool-cases (ltb_ℤ (cash_after f debit a.cash) (pos 0))) [
          | inl short ↦
              rw (cases.1 b ((ltb_ℤ-true (cash_after f debit a.cash) (pos 0)).0 short))
                (view-ensured id k s)
          | inr enough ↦ cc (
            ap (λ (x : Result Fault PaperAccount × IsolatedAccountBook). x.0)
                (cases.2 b ((ltb_ℤ-false (cash_after f debit a.cash) (pos 0)).0 enough)),
            raised,
          )
        ]
      ],
    )

-- How a method ends that adds `pnl` to the account's cash and raises where that leaves it in debt.
abbrev pub Posts :
    String
    → ℤ
    → (PaperAccount → PaperAccount → Type 0)
    → BookAction PaperAccount
    → IsolatedAccountBook
    → Type 0
Posts k pnl P m s =
    let a = view k s in
    let (r, t) = m s in
    (pos 0 ≤ℤ a.cash +ℤ pnl → (b : PaperAccount) × ((r ≡ ok b) × ((view k t ≡ b) × P a b)))
    × (a.cash +ℤ pnl <ℤ pos 0 → (r ≡ err negative_cash) × ((j : String) → view j t ≡ view j s))

-- An amount on the cash, the equity and the day's result; what else an amount leaves as it was.
pub record Moved (pnl : ℤ) (a b : PaperAccount) : Type 0 where
  pub account_id : b.account_id ≡ a.account_id
  pub cash : b.cash ≡ a.cash +ℤ pnl
  pub equity : b.equity ≡ a.cash +ℤ pnl
  pub day : b.daily_realized_pnl ≡ a.daily_realized_pnl +ℤ pnl
  pub starting_cash : b.starting_cash ≡ a.starting_cash
  pub trades : b.trade_count ≡ a.trade_count
  pub allowed : b.is_blocked ≡ a.is_blocked
  pub reason : b.block_reason ≡ a.block_reason

-- An amount realized, with the positions as they were.
abbrev pub Realized : ℤ → String → PaperAccount → PaperAccount → Type 0
Realized pnl note a b =
    Moved pnl a b
    × ((b.open_position_ids ≡ a.open_position_ids)
        × ((note ≡ "" → b.events ≡ a.events ++ AccountEvent.realize_amount pnl ∷ [])
            × (note ≢ "" → b.events ≡ a.events ++ AccountEvent.realize note ∷ [])))

-- An amount realized, with a position off the list and the others still on it.
abbrev pub Closed : String → ℤ → PaperAccount → PaperAccount → Type 0
Closed p pnl a b =
    Moved pnl a b
    × ((elem p b.open_position_ids ≡ false)
        × (((j : String) → j ≢ p → elem j b.open_position_ids ≡ elem j a.open_position_ids)
            × (b.events ≡ a.events ++ AccountEvent.close p ∷ [])))

stores-Posts :
    (k : String) (pnl : ℤ) (P : PaperAccount → PaperAccount → Type 0)
    (g : PaperAccount → PaperAccount) (s : IsolatedAccountBook)
    → ((a : PaperAccount) → P a (g a))
    → ((a : PaperAccount)
        → ((g a).account_id ≡ a.account_id)
          × (((g a).cash ≡ a.cash +ℤ pnl) × ((g a).equity ≡ a.cash +ℤ pnl)))
    → valid_account_id k ≡ true
    → pos 0 ≤ℤ s.starting_cash
    → IsSound s
    → Posts k pnl P (ensure k >>= λ a. store k (g a)) s
stores-Posts k pnl P g s right same known rich sound =
    let a : PaperAccount = view k s in
    let keeps = same a in
    let valid : valid_account_id (g a).account_id ≡ true =
      rw (keeps.0) (view-known k s known sound).0 in
    rw (ensure_then k (λ x. store k (g x)) s known rich) (
      λ enough. (
        g a,
        rw
            (store-eq k (g a) (ensured k s) valid (subst (λ c. pos 0 ≤ℤ c) (sym keeps.1.0) enough)
              (subst (λ c. pos 0 ≤ℤ c) (sym keeps.1.1) enough))
            (refl, (view-insert k (g a) (ensured k s), right a)),
      ),
      λ short.
          rw (store-err k (g a) (ensured k s) valid (subst (λ c. c <ℤ pos 0) (sym keeps.1.0) short))
            (refl, λ j. view-ensured k j s),
    )

realized_account-Realized :
    (pnl : ℤ) (note : String) (a : PaperAccount) → Realized pnl note a (realized_account pnl note a)
realized_account-Realized pnl note a = (
  record {
    account_id = refl;
    cash = refl;
    equity = refl;
    day = refl;
    starting_cash = refl;
    trades = refl;
    allowed = refl;
    reason = refl;
  },
  (refl, (λ h. ground (arith, str_eq_iff note ""), λ h. rw (str_eq_ne note "" h) refl)),
)

without-gone : (p : String) (ids : List String) → elem p (without p ids) ≡ false
without-gone p [] = refl
without-gone p (q ∷ ids) = ground (arith, without-gone p ids)

without-others : (p j : String) (ids : List String) → j ≢ p → elem j (without p ids) ≡ elem j ids
without-others p j [] ne = refl
without-others p j (q ∷ ids) ne =
    ground (arith, without-others p j ids ne, str_eq_iff q p, str_eq_iff q j)

closed_account-Closed :
    (p : String) (pnl : ℤ) (a : PaperAccount) → Closed p pnl a (closed_account p pnl a)
closed_account-Closed p pnl a = (
  record {
    account_id = refl;
    cash = refl;
    equity = refl;
    day = refl;
    starting_cash = refl;
    trades = refl;
    allowed = refl;
    reason = refl;
  },
  (without-gone p a.open_position_ids, (λ j ne. without-others p j a.open_position_ids ne, refl)),
)

-- On a known account of a sound book whose starting cash is not negative: realizing a profit or a
-- loss and closing a position both move cash and the day's result by exactly that amount, set the
-- equity to the cash, note the event and leave the rest; realizing leaves the list of open positions,
-- and closing takes the position, and no other, off it. Where the cash would fall below zero they
-- raise, and no account is seen to change.
pub realize-close-Posts :
    (k p note : String) (pnl : ℤ) (s : IsolatedAccountBook)
    → valid_account_id k ≡ true
    → pos 0 ≤ℤ s.starting_cash
    → IsSound s
    → Posts k pnl (Realized pnl note) (realize_pnl k pnl note) s
      × Posts k pnl (Closed p pnl) (close_position k p pnl) s
unfolding realize_pnl close_position
realize-close-Posts k p note pnl s known rich sound = (
  stores-Posts k pnl (Realized pnl note) (realized_account pnl note) s
      (realized_account-Realized pnl note) (λ a. (refl, (refl, refl))) known rich sound,
  stores-Posts k pnl (Closed p pnl) (closed_account p pnl) s (closed_account-Closed p pnl)
      (λ a. (refl, (refl, refl))) known rich sound,
)
