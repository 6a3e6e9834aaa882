-- ===== src/Execution/Simulator/Lifecycle.antt =====
-- The life of an order in src/spy_der/execution/simulator.py: it moves along the state machine's table,
-- no operation on it touches another order, and a finished one is never touched again.
use spy_der.Prelude.{
  ℕ, String, ◌≡◌, refl, ◌≢◌, ◌∙◌, true, ◌&&◌, Option, some, Option-cases, inl, inr, if◌then◌else◌,
  sym, ap, subst, subst,
}
use spy_der.Prelude.Int.{ℤ}
use spy_der.Prelude.Dict.{Dict, lookup, insert, lookup-insert_self, lookup-insert_ne}
use spy_der.Prelude.Effects.{>>=-ok, Result, ok, err, pure, ◌>>=◌, ◌>>◌}
use spy_der.Prelude.Hoare.{Keeps, Returned, >>=-Keeps, pure-Keeps, require-Keeps, choose-Keeps}
use spy_der.Execution.Contracts.{
  OrderStatus, created, validated, rejected, expired, submitted_simulated, acknowledged,
  cancel_pending, canceled, Fault, order_transition, PaperAccount, OrderIntent, OrderFill,
  OrderReason, note, account_blocked_by, OrderState,
}
use spy_der.Execution.Status.{
  Allows, ◌⟶*◌, here, next, same_status, can_transition, validate_order_transition,
  is_terminal_order,
}
use spy_der.Execution.Accounts.{BookAction, ensure, apply_fill}
use spy_der.Execution.Simulator.{
  SimulatorConfig, Environment, PaperExecutionSimulator, SimAction, on_accounts, save_order,
  get_order, moved_order, move_order, transition, is_buy, fill_quantity, new_fill, next_status,
  filled_order, book_fill, maybe_fill, order_id_of, new_order, expires_by, send, admit, submit,
  intent_or_implied, quote_live, quote_order, on_quote, cancel_live, cancel_order, cancel,
}

-- Since `before`, the order under `k` has come from the status `from` along allowed transitions, and
-- no other order has changed.
pub record Progress (k : String) (from : OrderStatus) (before : Dict OrderState)
    (s : PaperExecutionSimulator) : Type 0 where
  pub order : OrderState
  pub stored : lookup k s.orders ≡ some order
  pub named : order.order_id ≡ k
  pub reached : from ⟶* order.status
  pub others : (j : String) → k ≢ j → lookup j s.orders ≡ lookup j before

-- What an order read under `k` satisfies.
abbrev Came : String → OrderStatus → OrderState → Type 0
Came k from o = (o.order_id ≡ k) × (from ⟶* o.status)

module _ (k : String) (from : OrderStatus) (before : Dict OrderState) where
  save-Progress :
      (o : OrderState)
      → o.order_id ≡ k
      → from ⟶* o.status
      → Keeps (Progress k from before) (Came k from) (save_order k o)
  save-Progress o same came = record {
    keeps = λ s h. record {
      order = o;
      stored = lookup-insert_self k o s.orders;
      named = same;
      reached = came;
      others = λ j ne. lookup-insert_ne k j o s.orders ne ∙ h.others j ne;
    };
    gives = λ s h. (same, came);
  }

  get-Progress : Keeps (Progress k from before) (Came k from) (get_order k)
  get-Progress = record {
    keeps = λ s h. rw (h.stored) h;
    gives = λ s h. rw (h.stored) (h.named, h.reached);
  }

  on_accounts-Progress :
      {A : Type 0} (m : BookAction A)
      → Keeps (Progress k from before) (λ a. Unit {0}) (on_accounts m)
  on_accounts-Progress m = record {
    keeps = λ s h. record {
      order = h.order;
      stored = h.stored;
      named = h.named;
      reached = h.reached;
      others = h.others;
    };
    gives = λ s h. trivial (m s.accounts).0;
  }
    where
      trivial : {B : Type 0} (r : Result Fault B) → Returned (λ u. Unit {0}) r
      trivial (ok u) = tt
      trivial (err e) = tt

  validate-Progress :
      (s t : OrderStatus)
      → Keeps (Progress k from before) (λ u. Allows s t) (validate_order_transition s t)
  unfolding validate_order_transition
  validate-Progress s t =
      require-Keeps (Progress k from before) (can_transition s t) (order_transition s t)

  transition-Progress :
      (nxt : OrderStatus) (now : ℕ) (why : OrderReason)
      → Keeps (Progress k from before) (Came k from) (transition k nxt now why)
  unfolding transition move_order
  transition-Progress nxt now why =
      >>=-Keeps (Progress k from before) (get_order k) (move_order k nxt now why) get-Progress
        (λ o c.
          choose-Keeps (Progress k from before) (same_status o.status nxt) {m = pure o}
            {n = validate_order_transition o.status nxt >> save_order k (moved_order nxt now why o)}
            (λ e. pure-Keeps (Progress k from before) (Came k from) o c)
            (λ e.
              >>=-Keeps (Progress k from before) (validate_order_transition o.status nxt)
                (λ u. save_order k (moved_order nxt now why o)) (validate-Progress o.status nxt)
                (λ u a. save-Progress (moved_order nxt now why o) c.0 (next c.1 a))))

  module _ (config : SimulatorConfig) (env : Environment) where
    book_fill-Progress :
        (i : OrderIntent) (o : OrderState) (f : OrderFill) (now : ℕ)
        → Came k from o
        → Keeps (Progress k from before) (Came k from) (book_fill config env i o f now)
    unfolding book_fill
    book_fill-Progress i o f now c =
        >>=-Keeps (Progress k from before) (on_accounts (apply_fill f (is_buy i)))
          (λ a.
            validate_order_transition o.status (next_status config env o f.quantity)
            >> save_order o.order_id (filled_order config env o f now))
          (on_accounts-Progress (apply_fill f (is_buy i)))
          (λ a q.
            >>=-Keeps (Progress k from before)
              (validate_order_transition o.status (next_status config env o f.quantity))
              (λ u. save_order o.order_id (filled_order config env o f now))
              (validate-Progress o.status (next_status config env o f.quantity))
              (λ u a.
                subst
                  (λ x.
                    Keeps (Progress k from before) (Came k from)
                      (save_order x (filled_order config env o f now)))
                  (sym c.0) (save-Progress (filled_order config env o f now) c.0 (next c.1 a))))

    maybe_fill-Progress :
        (i : OrderIntent) (o : OrderState) (price : ℤ) (now : ℕ)
        → Came k from o
        → Keeps (Progress k from before) (Came k from) (maybe_fill config env i o price now)
    unfolding maybe_fill
    maybe_fill-Progress i o price now c =
        elim (Option-cases (fill_quantity config env i o price now)) [
          | inl e ↦ rw e (pure-Keeps (Progress k from before) (Came k from) o c)
          | inr (q, e) ↦ rw e (book_fill-Progress i o (new_fill config env i o price now q) now c)
        ]

    send-Progress :
        (i : OrderIntent) (now : ℕ)
        → Keeps (Progress k from before) (Came k from) (send config env i k now)
    unfolding send
    send-Progress i now =
        >>=-Keeps (Progress k from before)
          (transition k submitted_simulated now (note "submitted_simulated"))
          (λ x. transition k acknowledged now (note "acked") >>= λ o.
            maybe_fill config env i o i.limit_price now)
          (transition-Progress submitted_simulated now _)
          (λ x g.
            >>=-Keeps (Progress k from before) (transition k acknowledged now (note "acked"))
              (λ o. maybe_fill config env i o i.limit_price now)
              (transition-Progress acknowledged now _)
              (λ o h. maybe_fill-Progress i o i.limit_price now h))

    admit-Progress :
        (i : OrderIntent) (now : ℕ)
        → Keeps (Progress k from before) (Came k from) (admit config env i k now)
    unfolding admit
    admit-Progress i now =
        >>=-Keeps (Progress k from before) (transition k validated now (note "validated"))
          (λ x.
            if expires_by i.expires_at now
            then transition k expired now (note "expired_at_submit")
            else send config env i k now)
          (transition-Progress validated now _)
          (λ x g.
            choose-Keeps (Progress k from before) (expires_by i.expires_at now)
              {m = transition k expired now (note "expired_at_submit")}
              {n = send config env i k now} (λ e. transition-Progress expired now _)
              (λ e. send-Progress i now))

    on_quote-Progress :
        (price : ℤ) (now : ℕ) (intent : Option OrderIntent)
        → Keeps (Progress k from before) (Came k from) (on_quote config env k price now intent)
    unfolding on_quote quote_order quote_live
    on_quote-Progress price now intent =
        >>=-Keeps (Progress k from before) (get_order k) (quote_order config env k price now intent)
          get-Progress
          (λ o g.
            let i : OrderIntent = intent_or_implied config env intent o in
            choose-Keeps (Progress k from before) (is_terminal_order o.status) {m = pure o}
              {n = quote_live config env k price now i o}
              (λ e. pure-Keeps (Progress k from before) (Came k from) o g)
              (λ e.
                choose-Keeps (Progress k from before) (expires_by i.expires_at now)
                  {m = transition k expired now (note "timeout")}
                  {n = maybe_fill config env i o price now} (λ e. transition-Progress expired now _)
                  (λ e. maybe_fill-Progress i o price now g)))

  cancel-Progress : (now : ℕ) → Keeps (Progress k from before) (Came k from) (cancel k now)
  unfolding cancel cancel_order cancel_live
  cancel-Progress now =
      >>=-Keeps (Progress k from before) (get_order k) (cancel_order k now) get-Progress (λ o g.
        choose-Keeps (Progress k from before) (is_terminal_order o.status) {m = pure o}
          {n = cancel_live k now} (λ e. pure-Keeps (Progress k from before) (Came k from) o g)
          (λ e.
            >>=-Keeps (Progress k from before)
              (transition k cancel_pending now (note "cancel_requested"))
              (λ x. transition k canceled now (note "canceled"))
              (transition-Progress cancel_pending now _)
              (λ x h. transition-Progress canceled now _)))

get_order_found :
    (k : String) (s : PaperExecutionSimulator) (o : OrderState)
    → lookup k s.orders ≡ some o
    → get_order k s ≡ (ok o, s)
get_order_found k s o found = rw found

on_quote_done :
    (config : SimulatorConfig) (env : Environment) (k : String) (price : ℤ) (now : ℕ)
    (intent : Option OrderIntent) (s : PaperExecutionSimulator) (o : OrderState)
    → lookup k s.orders ≡ some o
    → is_terminal_order o.status ≡ true
    → on_quote config env k price now intent s ≡ (ok o, s)
unfolding on_quote quote_order
on_quote_done config env k price now intent s o found done =
    >>=-ok (get_order k) (quote_order config env k price now intent) s (get_order_found k s o found)
    ∙ ap
        (λ b.
          (if b
              then pure o
              else quote_live config env k price now (intent_or_implied config env intent o) o)
            s)
        done

cancel_done :
    (k : String) (now : ℕ) (s : PaperExecutionSimulator) (o : OrderState)
    → lookup k s.orders ≡ some o
    → is_terminal_order o.status ≡ true
    → cancel k now s ≡ (ok o, s)
unfolding cancel cancel_order
cancel_done k now s o found done =
    >>=-ok (get_order k) (cancel_order k now) s (get_order_found k s o found)
    ∙ ap (λ b. (if b then pure o else cancel_live k now) s) done

-- An order that is found under its own id, and that a quote or a cancel is applied to, has afterwards
-- come from its status along allowed transitions, and no other order has changed, however the call
-- ends. If the order was in a terminal state, the call returns it and changes nothing at all.
pub quote-cancel-Progress :
    (config : SimulatorConfig) (env : Environment) (k : String) (price : ℤ) (now : ℕ)
    (intent : Option OrderIntent) (s : PaperExecutionSimulator) (o : OrderState)
    → lookup k s.orders ≡ some o
    → o.order_id ≡ k
    → let quoted = on_quote config env k price now intent s in
      let canceled = cancel k now s in
      Progress k o.status s.orders quoted.1
      × Progress k o.status s.orders canceled.1
      × (is_terminal_order o.status ≡ true → (quoted ≡ (ok o, s)) × (canceled ≡ (ok o, s)))
quote-cancel-Progress config env k price now intent s o found named =
    let start : Progress k o.status s.orders s = record {
      order = o;
      stored = found;
      named = named;
      reached = here;
      others = λ j ne. refl;
    } in
    (
      (on_quote-Progress k o.status s.orders config env price now intent).keeps s start,
      (cancel-Progress k o.status s.orders now).keeps s start,
      λ done. (
        on_quote_done config env k price now intent s o found done,
        cancel_done k now s o found done,
      ),
    )

-- After a submission, however it ends, the order stands under its id, has come from the created state
-- along allowed transitions, and no other order has changed.
pub submit-Progress :
    (config : SimulatorConfig) (env : Environment) (i : OrderIntent) (now : ℕ)
    (s : PaperExecutionSimulator)
    → Progress (order_id_of config env i now) created s.orders (submit config env i now s).1
unfolding submit
submit-Progress config env i now s =
    let k : String = order_id_of config env i now in
    let o : OrderState = new_order config env i now in
    let s' : PaperExecutionSimulator = record s { orders = insert k o s.orders } in
    let rest : PaperAccount → SimAction OrderState = λ a.
      if config.reject_if_account_blocked && a.is_blocked
      then transition k rejected now (account_blocked_by a.block_reason)
      else admit config env i k now in
    let start : Progress k created s.orders s' = record {
      order = o;
      stored = lookup-insert_self k o s.orders;
      named = refl;
      reached = here;
      others = λ j ne. lookup-insert_ne k j o s.orders ne;
    } in
    (>>=-Keeps (Progress k created s.orders) (on_accounts (ensure i.account_id)) rest
        (on_accounts-Progress k created s.orders (ensure i.account_id))
        (λ a q.
          choose-Keeps (Progress k created s.orders)
            (config.reject_if_account_blocked && a.is_blocked)
            {m = transition k rejected now (account_blocked_by a.block_reason)}
            {n = admit config env i k now}
            (λ e. transition-Progress k created s.orders rejected now _)
            (λ e. admit-Progress k created s.orders config env i now))).keeps
      s' start
