-- ===== src/Execution/Simulator/Consistent.antt =====
-- The books of orders that src/spy_der/execution/simulator.py keeps: the counts, the fills and the
-- fees of every order agree, and no order is filled beyond what was asked for.
use spy_der.Prelude.{
  ℕ, ◌+◌, ◌≤◌, ◌<◌, String, ◌≡◌, refl, ◌≢◌, ◌∙◌, ◌&&◌, Option, some, List, [], ◌∷◌, ◌++◌, arith,
  Option-cases, inl, inr, if◌then◌else◌, ap, subst,
}
use spy_der.Prelude.Int.{ℤ, pos, ◌+ℤ◌, int_laws}
use spy_der.Prelude.Text.{str_eq_iff}
use spy_der.Prelude.Dict.{lookup, lookup-insert, Each, insert-Each}
use spy_der.Prelude.Effects.{Result, ok, err, pure, require, ◌>>=◌, ◌>>◌}
use spy_der.Prelude.Hoare.{Keeps, Returned, >>=-Keeps, pure-Keeps, require-Keeps, choose-Keeps}
use spy_der.Execution.Contracts.{
  OrderStatus, filled, partially_filled, validated, rejected, expired, submitted_simulated,
  acknowledged, cancel_pending, canceled, Fault, order_transition, PaperAccount, OrderIntent,
  OrderFill, OrderReason, note, account_blocked_by, OrderState,
}
use spy_der.Execution.Status.{
  same_status, can_transition, validate_order_transition, is_terminal_order,
}
use spy_der.Execution.Accounts.{BookAction, ensure, apply_fill}
use spy_der.Execution.Accounts.Sound.{IsSound, ensure-Keeps, apply_fill-Keeps}
use spy_der.Execution.Simulator.{
  SimulatorConfig, Environment, PaperExecutionSimulator, SimAction, on_accounts, save_order,
  get_order, moved_order, move_order, transition, is_buy, fill_quantity, new_fill, next_status,
  filled_order, book_fill, maybe_fill, order_id_of, new_order, expires_by, send, admit, submit,
  intent_or_implied, quote_live, quote_order, on_quote, cancel_live, cancel_order, cancel,
}

abbrev pub quantity_sum : List OrderFill → ℕ
quantity_sum [] = 0
quantity_sum (f ∷ fs) = f.quantity + quantity_sum fs

abbrev pub fee_sum : List OrderFill → ℤ
fee_sum [] = pos 0
fee_sum (f ∷ fs) = f.fees +ℤ fee_sum fs

-- The fills add up to the filled count and to the fees, the count is at most what was requested, and
-- the status says whether it is reached.
pub record IsConsistent (o : OrderState) : Type 0 where
  pub counted : quantity_sum o.fills ≡ o.filled_contracts
  pub charged : fee_sum o.fills ≡ o.fees
  pub bounded : o.filled_contracts ≤ o.requested_contracts
  pub complete : o.status ≡ filled → o.filled_contracts ≡ o.requested_contracts
  pub partial :
      o.status ≡ partially_filled
      → (0 < o.filled_contracts) × (o.filled_contracts < o.requested_contracts)

-- Every order is consistent and stands under its own id, and the accounts are sound.
pub record IsRight (s : PaperExecutionSimulator) : Type 0 where
  pub orders : Each IsConsistent s.orders
  pub keyed : (k : String) (o : OrderState) → lookup k s.orders ≡ some o → o.order_id ≡ k
  pub accounts : IsSound s.accounts

-- What an order read under an id satisfies.
abbrev pub Good : String → OrderState → Type 0
Good k o = IsConsistent o × (o.order_id ≡ k)

quantity_sum-append :
    (fs : List OrderFill) (f : OrderFill)
    → quantity_sum (fs ++ f ∷ []) ≡ quantity_sum fs + f.quantity
quantity_sum-append [] f = omega arith
quantity_sum-append (g ∷ fs) f = omega (arith, quantity_sum-append fs f)

fee_sum-append :
    (fs : List OrderFill) (f : OrderFill) → fee_sum (fs ++ f ∷ []) ≡ fee_sum fs +ℤ f.fees
fee_sum-append [] f = omega int_laws
fee_sum-append (g ∷ fs) f = rw (fee_sum-append fs f) (omega int_laws)

save_order-Keeps :
    (k : String) (o : OrderState)
    → o.order_id ≡ k
    → IsConsistent o
    → Keeps IsRight (Good k) (save_order k o)
save_order-Keeps k o same good = record {
  keeps = λ s h. record {
    orders = insert-Each IsConsistent k o s.orders good h.orders;
    keyed = λ j x e. ground (arith, lookup-insert k j o s.orders, str_eq_iff k j, h.keyed j x);
    accounts = h.accounts;
  };
  gives = λ s h. (good, same);
}

get_order-Keeps : (k : String) → Keeps IsRight (Good k) (get_order k)
get_order-Keeps k = record {
  keeps = λ s h. elim (Option-cases (lookup k s.orders)) [ inl e ↦ rw e h | inr (o, e) ↦ rw e h ];
  gives = λ s h. elim (Option-cases (lookup k s.orders)) [
    | inl e ↦ rw e tt
    | inr (o, e) ↦ rw e (h.orders k o e, h.keyed k o e)
  ];
}

on_accounts-Keeps :
    {A : Type 0} {Q : A → Type 0} (m : BookAction A)
    → Keeps IsSound Q m
    → Keeps IsRight Q (on_accounts m)
on_accounts-Keeps m k = record {
  keeps = λ s h. record {
    orders = h.orders;
    keyed = h.keyed;
    accounts = k.keeps s.accounts h.accounts;
  };
  gives = λ s h. k.gives s.accounts h.accounts;
}

validate-Keeps : (s t : OrderStatus) → Keeps IsRight (λ u. Unit {0}) (validate_order_transition s t)
unfolding validate_order_transition
validate-Keeps s t = record {
  keeps = (require-Keeps IsRight (can_transition s t) (order_transition s t)).keeps;
  gives = λ x h. trivial (require (can_transition s t) (order_transition s t) x).0;
}
  where
    trivial : (r : Result Fault (Unit {0})) → Returned (λ u. Unit {0}) r
    trivial (ok u) = tt
    trivial (err e) = tt

-- The statuses that no fill gives.
abbrev IsPlain : OrderStatus → Type 0
IsPlain t = (t ≢ filled) × (t ≢ partially_filled)

transition-Keeps :
    (k : String) (nxt : OrderStatus) (now : ℕ) (why : OrderReason)
    → IsPlain nxt
    → Keeps IsRight (Good k) (transition k nxt now why)
unfolding transition
transition-Keeps k nxt now why plain =
    >>=-Keeps IsRight (get_order k) (move_order k nxt now why) (get_order-Keeps k)
      (λ o g. move_order-Keeps o g)
  where
    moved : (o : OrderState) → IsConsistent o → IsConsistent (moved_order nxt now why o)
    moved o c = record {
      counted = c.counted;
      charged = c.charged;
      bounded = c.bounded;
      complete = λ e. absurd (plain.0 e);
      partial = λ e. absurd (plain.1 e);
    }

    move_order-Keeps :
        (o : OrderState) → Good k o → Keeps IsRight (Good k) (move_order k nxt now why o)
    move_order-Keeps o g =
        choose-Keeps IsRight (same_status o.status nxt) (λ e. pure-Keeps IsRight (Good k) o g)
          (λ e.
            >>=-Keeps IsRight (validate_order_transition o.status nxt)
              (λ u. save_order k (moved_order nxt now why o)) (validate-Keeps o.status nxt)
              (λ u v. save_order-Keeps k (moved_order nxt now why o) g.1 (moved o g.0)))

module _ (config : SimulatorConfig) (env : Environment) where
  -- A fill is of at least one contract and of no more than remain.
  pub fill_quantity_bounds :
      (i : OrderIntent) (o : OrderState) (price : ℤ) (now : ℕ) {q : ℕ}
      → fill_quantity config env i o price now ≡ some q
      → (0 < q) × (o.filled_contracts + q ≤ o.requested_contracts)
  unfolding fill_quantity
  fill_quantity_bounds i o price now h = ground arith

  filled_order-IsConsistent :
      (i : OrderIntent) (o : OrderState) (price : ℤ) (now q : ℕ)
      → IsConsistent o
      → 0 < q
      → o.filled_contracts + q ≤ o.requested_contracts
      → IsConsistent (filled_order config env o (new_fill config env i o price now q) now)
  filled_order-IsConsistent i o price now q c low high = record {
    counted =
        omega (arith, quantity_sum-append o.fills (new_fill config env i o price now q), c.counted);
    charged =
        fee_sum-append o.fills (new_fill config env i o price now q)
        ∙ ap (λ x. x +ℤ (new_fill config env i o price now q).fees) c.charged;
    bounded = high;
    complete = λ e. ground arith;
    partial = λ e. ground arith;
  }

  -- The account is charged first; whatever comes of that, the orders stay right.
  book_fill-Keeps :
      (i : OrderIntent) (o : OrderState) (f : OrderFill) (now : ℕ)
      → IsConsistent (filled_order config env o f now)
      → Keeps IsRight (Good o.order_id) (book_fill config env i o f now)
  unfolding book_fill
  book_fill-Keeps i o f now good =
      >>=-Keeps IsRight (on_accounts (apply_fill f (is_buy i)))
        (λ a.
          validate_order_transition o.status (next_status config env o f.quantity)
          >> save_order o.order_id (filled_order config env o f now))
        (on_accounts-Keeps (apply_fill f (is_buy i)) (apply_fill-Keeps f (is_buy i)))
        (λ a q.
          >>=-Keeps IsRight
            (validate_order_transition o.status (next_status config env o f.quantity))
            (λ u. save_order o.order_id (filled_order config env o f now))
            (validate-Keeps o.status (next_status config env o f.quantity))
            (λ u v. save_order-Keeps o.order_id (filled_order config env o f now) refl good))

  maybe_fill-Keeps :
      (k : String) (i : OrderIntent) (o : OrderState) (price : ℤ) (now : ℕ)
      → Good k o
      → Keeps IsRight (Good k) (maybe_fill config env i o price now)
  unfolding maybe_fill
  maybe_fill-Keeps k i o price now g =
      elim (Option-cases (fill_quantity config env i o price now)) [
        | inl e ↦ rw e (pure-Keeps IsRight (Good k) o g)
        | inr (q, e) ↦
            let (low, high) = fill_quantity_bounds i o price now e in
            rw e (
              subst
                (λ x.
                  Keeps IsRight (Good x)
                    (book_fill config env i o (new_fill config env i o price now q) now))
                g.1
                (book_fill-Keeps i o (new_fill config env i o price now q) now
                  (filled_order-IsConsistent i o price now q g.0 low high)))
      ]

  send-Keeps :
      (i : OrderIntent) (k : String) (now : ℕ) → Keeps IsRight (Good k) (send config env i k now)
  unfolding send
  send-Keeps i k now =
      >>=-Keeps IsRight (transition k submitted_simulated now (note "submitted_simulated"))
        (λ x. transition k acknowledged now (note "acked") >>= λ o.
          maybe_fill config env i o i.limit_price now)
        (transition-Keeps k submitted_simulated now _ (λ e. cc, λ e. cc))
        (λ x g.
          >>=-Keeps IsRight (transition k acknowledged now (note "acked"))
            (λ o. maybe_fill config env i o i.limit_price now)
            (transition-Keeps k acknowledged now _ (λ e. cc, λ e. cc))
            (λ o h. maybe_fill-Keeps k i o i.limit_price now h))

  admit-Keeps :
      (i : OrderIntent) (k : String) (now : ℕ) → Keeps IsRight (Good k) (admit config env i k now)
  unfolding admit
  admit-Keeps i k now =
      >>=-Keeps IsRight (transition k validated now (note "validated"))
        (λ x.
          if expires_by i.expires_at now
          then transition k expired now (note "expired_at_submit")
          else send config env i k now)
        (transition-Keeps k validated now _ (λ e. cc, λ e. cc))
        (λ x g.
          choose-Keeps IsRight (expires_by i.expires_at now)
            {m = transition k expired now (note "expired_at_submit")} {n = send config env i k now}
            (λ e. transition-Keeps k expired now _ (λ e. cc, λ e. cc)) (λ e. send-Keeps i k now))

  new_order-IsConsistent : (i : OrderIntent) (now : ℕ) → IsConsistent (new_order config env i now)
  new_order-IsConsistent i now = record {
    counted = refl;
    charged = refl;
    bounded = omega arith;
    complete = λ e. cc;
    partial = λ e. cc;
  }

  submit-Keeps :
      (i : OrderIntent) (now : ℕ)
      → Keeps IsRight (Good (order_id_of config env i now)) (submit config env i now)
  unfolding submit
  submit-Keeps i now =
      let k : String = order_id_of config env i now in
      let rest : PaperAccount → SimAction OrderState = λ a.
        if config.reject_if_account_blocked && a.is_blocked
        then transition k rejected now (account_blocked_by a.block_reason)
        else admit config env i k now in
      >>=-Keeps IsRight (save_order k (new_order config env i now))
        (λ o. on_accounts (ensure i.account_id) >>= rest)
        (save_order-Keeps k (new_order config env i now) refl (new_order-IsConsistent i now))
        (λ o g.
          >>=-Keeps IsRight (on_accounts (ensure i.account_id)) rest
            (on_accounts-Keeps (ensure i.account_id) (ensure-Keeps i.account_id))
            (λ a q.
              choose-Keeps IsRight (config.reject_if_account_blocked && a.is_blocked)
                {m = transition k rejected now (account_blocked_by a.block_reason)}
                {n = admit config env i k now}
                (λ e. transition-Keeps k rejected now _ (λ e. cc, λ e. cc))
                (λ e. admit-Keeps i k now)))

  on_quote-Keeps :
      (k : String) (price : ℤ) (now : ℕ) (intent : Option OrderIntent)
      → Keeps IsRight (Good k) (on_quote config env k price now intent)
  unfolding on_quote quote_order quote_live
  on_quote-Keeps k price now intent =
      >>=-Keeps IsRight (get_order k) (quote_order config env k price now intent)
        (get_order-Keeps k)
        (λ o g.
          let i : OrderIntent = intent_or_implied config env intent o in
          choose-Keeps IsRight (is_terminal_order o.status) {m = pure o}
            {n = quote_live config env k price now i o} (λ e. pure-Keeps IsRight (Good k) o g)
            (λ e.
              choose-Keeps IsRight (expires_by i.expires_at now)
                {m = transition k expired now (note "timeout")}
                {n = maybe_fill config env i o price now}
                (λ e. transition-Keeps k expired now _ (λ e. cc, λ e. cc))
                (λ e. maybe_fill-Keeps k i o price now g)))

cancel-Keeps : (k : String) (now : ℕ) → Keeps IsRight (Good k) (cancel k now)
unfolding cancel cancel_order cancel_live
cancel-Keeps k now =
    >>=-Keeps IsRight (get_order k) (cancel_order k now) (get_order-Keeps k) (λ o g.
      choose-Keeps IsRight (is_terminal_order o.status) {m = pure o} {n = cancel_live k now}
        (λ e. pure-Keeps IsRight (Good k) o g)
        (λ e.
          >>=-Keeps IsRight (transition k cancel_pending now (note "cancel_requested"))
            (λ x. transition k canceled now (note "canceled"))
            (transition-Keeps k cancel_pending now _ (λ e. cc, λ e. cc))
            (λ x h. transition-Keeps k canceled now _ (λ e. cc, λ e. cc))))

-- Submitting, quoting and canceling, with whatever arguments and however they end, keep every order
-- consistent, under its own id, and the accounts sound; the order that they return is the consistent
-- one under the id asked for.
pub operations-IsRight :
    (config : SimulatorConfig) (env : Environment) (i : OrderIntent) (k : String) (price : ℤ)
    (now : ℕ) (intent : Option OrderIntent)
    → Keeps IsRight (Good (order_id_of config env i now)) (submit config env i now)
      × Keeps IsRight (Good k) (on_quote config env k price now intent)
      × Keeps IsRight (Good k) (cancel k now)
operations-IsRight config env i k price now intent = (
  submit-Keeps config env i now,
  on_quote-Keeps config env k price now intent,
  cancel-Keeps k now,
)
