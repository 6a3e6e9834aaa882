-- ===== src/Positions/Manager/Faults.antt =====
-- What `close` and `on_order_state` of src/spy_der/positions/manager.py do on the branches where the
-- position and the account, or the code and its comments, part ways.
use spy_der.Prelude.{
  ℕ, ◌<◌, String, ◌≡◌, refl, ◌∙◌, ◌⊎◌, Bool, true, false, not, ◌||◌, some, none, Option,
  Option-cases, inl, inr, sym, arith, ap, if◌then◌else◌, ltb, eqb,
}
use spy_der.Prelude.Int.{ℤ, pos, ◌+ℤ◌, ◌-ℤ◌, ◌*ℤ◌, ◌≤ℤ◌, ◌<ℤ◌}
use spy_der.Prelude.Dict.{lookup, insert, lookup-insert_self}
use spy_der.Prelude.Effects.{
  ok, err, pure, ◌>>=◌, ◌>>◌, >>=-ok, >>=-err, require_met, require_failed,
}
use spy_der.Execution.Contracts.{
  PositionStatus, open_position, partially_reduced, close_pending, closed, Fault, negative_cash,
  position_transition, valid_account_id, PaperAccount, OrderState,
}
use spy_der.Execution.Accounts.{BookAction, close_position}
use spy_der.Execution.Accounts.Sound.{IsSound}
use spy_der.Execution.Accounts.View.{view}
use spy_der.Execution.Accounts.Cash.{Closed, realize-close-Posts}
use spy_der.Positions.Contracts.{PositionState}
use spy_der.Positions.Status.{allowed, place, can_move, validate_position_transition}
use spy_der.Positions.Manager.{
  PositionManager, Outside, ManagerAction, on_book, save_position, get_position, is_filling,
  refilled_position, refill, open_or_refill, on_price, position_key_of, on_order_state, close_pnl,
  closed_position, is_closed, close_live, close_from, close,
}

-- A position that holds contracts and is not on its way out.
abbrev pub IsOpen : PositionState → Type 0
IsOpen p = (p.status ≡ open_position) ⊎ (p.status ≡ partially_reduced)

open_no_reopen :
    (s : PositionStatus)
    → (s ≡ open_position) ⊎ (s ≡ partially_reduced)
    → can_move s open_position ≡ false
unfolding can_move allowed place
open_no_reopen s h = ground arith

open_can_close :
    (s : PositionStatus)
    → (s ≡ open_position) ⊎ (s ≡ partially_reduced)
    → (can_move s close_pending ≡ true) × (can_move close_pending closed ≡ true)
unfolding can_move allowed place
open_can_close s h = ground arith

refill-open :
    (k : String) (o : OrderState) (price : ℤ) (p : PositionState) (s : PositionManager)
    → IsOpen p
    → p.opened_contracts < o.filled_contracts
    → refill k o price p s ≡ (err (position_transition p.status open_position), s)
unfolding refill validate_position_transition
refill-open k o price p s is_open more =
    let t : ltb p.opened_contracts o.filled_contracts ≡ true = ground arith in
    simp t (
      require_failed (can_move p.status open_position) _
        (save_position k (refilled_position o price p) >>= λ q. pure (some q)) s
        (open_no_reopen p.status is_open))

-- A further fill of an order whose position is open, or partly reduced, is never taken over: the call
-- raises on the transition to the open state and changes nothing.
pub on_order_state-more_fills :
    (outside : Outside) (o : OrderState) (max_loss price : ℤ) (policy : String) (credit : Bool)
    (now : ℕ) (s : PositionManager) (p : PositionState)
    → is_filling o.status ≡ true
    → o.avg_fill_price ≡ some price
    → lookup (position_key_of outside o) s.positions ≡ some p
    → IsOpen p
    → p.opened_contracts < o.filled_contracts
    → on_order_state outside o max_loss policy credit now s
      ≡ (err (position_transition p.status open_position), s)
unfolding on_order_state on_price open_or_refill
on_order_state-more_fills outside o max_loss price policy credit now s p filling priced found
      is_open more =
    let t : (not (is_filling o.status) || eqb o.filled_contracts 0) ≡ false = ground arith in
    simp (t, priced, found) (refill-open (position_key_of outside o) o price p s is_open more)

get_found :
    (k : String) (s : PositionManager) (p : PositionState)
    → lookup k s.positions ≡ some p
    → get_position k s ≡ (ok p, s)
get_found k s p found = rw found

-- A call on the account book whose answer is dropped, by how the book ends.
on_book_ok :
    {A B : Type 0} (m : BookAction A) (q : B) (s : PositionManager) {x : A}
    → (m s.accounts).0 ≡ ok x
    → (on_book m >> pure q) s ≡ (ok q, record s { accounts = (m s.accounts).1 })
on_book_ok m q s h =
    >>=-ok (on_book m) (λ _. pure q) s (ap (λ r. (r, record s { accounts = (m s.accounts).1 })) h)

on_book_err :
    {A B : Type 0} (m : BookAction A) (q : B) (s : PositionManager) {e : Fault}
    → (m s.accounts).0 ≡ err e
    → (on_book m >> pure q) s ≡ (err e, record s { accounts = (m s.accounts).1 })
on_book_err m q s h =
    >>=-err (on_book m) (λ _. pure q) s (ap (λ r. (r, record s { accounts = (m s.accounts).1 })) h)

-- What selling `n` contracts at a price gains on their entry price, which is 0 where it is missing.
abbrev pub gain : ℤ → Option ℤ → ℕ → ℤ
gain price none n = (price -ℤ pos 0) *ℤ pos n
gain price (some entry) n = (price -ℤ entry) *ℤ pos n

gain-close_pnl :
    (outside : Outside) (price : ℤ) (n : ℕ) (p : PositionState)
    → close_pnl outside price n p ≡ gain price p.entry_price n
gain-close_pnl outside price n p = elim (Option-cases p.entry_price) [
  | inl e ↦ rw e refl
  | inr (entry, e) ↦ rw e refl
]

-- How a closed position stands, against how it stood.
pub record ClosedAt (price : ℤ) (reason : String) (now : ℕ) (p q : PositionState) : Type 0 where
  pub position_id : q.position_id ≡ p.position_id
  pub account_id : q.account_id ≡ p.account_id
  pub candidate_id : q.candidate_id ≡ p.candidate_id
  pub status : q.status ≡ closed
  pub opened : q.opened_contracts ≡ p.opened_contracts
  pub left : q.open_contracts ≡ 0
  pub entry : q.entry_price ≡ p.entry_price
  pub mark : q.mark_price ≡ some price
  pub realized : q.realized_pnl ≡ p.realized_pnl +ℤ gain price p.entry_price p.open_contracts
  pub unrealized : q.unrealized_pnl ≡ pos 0
  pub peak : q.peak_pnl ≡ p.peak_pnl
  pub closed_at : q.closed_at ≡ some now
  pub exit_reason : q.exit_reason ≡ reason
  pub max_loss : q.max_loss ≡ p.max_loss
  pub policy : q.exit_policy_id ≡ p.exit_policy_id
  pub opened_at : q.opened_at ≡ p.opened_at
  pub geometry : q.geometry_hash ≡ p.geometry_hash
  pub credit : q.opened_for_credit ≡ p.opened_for_credit
  pub orders : q.order_ids ≡ p.order_ids

closed_position-ClosedAt :
    (outside : Outside) (price : ℤ) (reason : String) (now : ℕ) (p : PositionState)
    → ClosedAt price reason now p (closed_position outside price reason now p)
closed_position-ClosedAt outside price reason now p = record {
  position_id = refl;
  account_id = refl;
  candidate_id = refl;
  status = refl;
  opened = refl;
  left = refl;
  entry = refl;
  mark = refl;
  realized = ap (λ g. p.realized_pnl +ℤ g) (gain-close_pnl outside price p.open_contracts p);
  unrealized = refl;
  peak = refl;
  closed_at = refl;
  exit_reason = refl;
  max_loss = refl;
  policy = refl;
  opened_at = refl;
  geometry = refl;
  credit = refl;
  orders = refl;
}

module _ (outside : Outside) (k : String) (price : ℤ) (reason : String) (now : ℕ)
    (s : PositionManager) (p : PositionState) (found : lookup k s.positions ≡ some p)
    (is_open : IsOpen p) where
  -- `close` on an open position: the position is saved as closed, then the account is asked to post.
  close-posting :
      close outside k price reason now s
      ≡ (on_book (close_position p.account_id k (close_pnl outside price p.open_contracts p))
            >> pure (closed_position outside price reason now p))
          (record s {
            positions = insert k (closed_position outside price reason now p) s.positions;
          })
  unfolding close close_from close_live validate_position_transition
  close-posting =
      let q : PositionState = closed_position outside price reason now p in
      let post : ManagerAction PositionState =
        on_book (close_position p.account_id k (close_pnl outside price p.open_contracts p))
        >> pure q in
      let moves = open_can_close p.status is_open in
      let shut : is_closed outside p.status ≡ false = ground arith in
      >>=-ok (get_position k) (close_from outside k price reason now) s (get_found k s p found)
      ∙ ap (λ b. (if b then pure p else close_live outside k price reason now p) s) shut
      ∙ require_met (can_move p.status close_pending) (position_transition p.status close_pending)
          (validate_position_transition close_pending closed
            >> (save_position k q >>= λ x.
                on_book (close_position p.account_id k (close_pnl outside price p.open_contracts p))
                >> pure x))
          s moves.0
      ∙ require_met (can_move close_pending closed) (position_transition close_pending closed)
          (save_position k q >>= λ x.
            on_book (close_position p.account_id k (close_pnl outside price p.open_contracts p))
            >> pure x)
          s moves.1

  -- Closing an open position whose account is known, in a sound book whose starting cash is not
  -- negative, saves the position as closed: no contract is left, the mark is the price, the profit or
  -- loss is up by the price less the entry, times the contracts that were open, nothing is unrealized,
  -- and the time and the reason are noted. Where the account can bear it the same amount is posted
  -- there and the position taken off its list; where it cannot, the call raises, the position is saved
  -- as closed all the same, and no account is seen to change.
  pub close-effect :
      valid_account_id p.account_id ≡ true
      → pos 0 ≤ℤ s.accounts.starting_cash
      → IsSound s.accounts
      → let pnl = gain price p.entry_price p.open_contracts in
        let a = view p.account_id s.accounts in
        let (r, t) = close outside k price reason now s in
        (pos 0 ≤ℤ a.cash +ℤ pnl
          → (q : PositionState) × ((r ≡ ok q)
              × ((lookup k t.positions ≡ some q)
                  × (ClosedAt price reason now p q
                      × Closed k pnl a (view p.account_id t.accounts)))))
        × (a.cash +ℤ pnl <ℤ pos 0
            → (q : PositionState) × ((r ≡ err negative_cash)
                × ((lookup k t.positions ≡ some q)
                    × (ClosedAt price reason now p q
                        × ((j : String) → view j t.accounts ≡ view j s.accounts)))))
  close-effect known rich sound =
      let pnl : ℤ = close_pnl outside price p.open_contracts p in
      let same = gain-close_pnl outside price p.open_contracts p in
      let q : PositionState = closed_position outside price reason now p in
      let posts = (realize-close-Posts p.account_id k "" pnl s.accounts known rich sound).1 in
      let m : BookAction PaperAccount = close_position p.account_id k pnl in
      let u : PositionManager = record s { positions = insert k q s.positions } in
      let kept = lookup-insert_self k q s.positions in
      let right = closed_position-ClosedAt outside price reason now p in
      rw (sym same) (
        λ enough.
            let (b, (h, (seen, shut))) = posts.0 enough in
            (q, rw (close-posting ∙ on_book_ok m q u h) (refl, (kept, (right, rw seen shut)))),
        λ short. (
          q,
          rw (close-posting ∙ on_book_err m q u (posts.1 short).0)
              (refl, (kept, (right, (posts.1 short).1))),
        ),
      )
