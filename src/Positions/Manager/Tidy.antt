-- ===== src/Positions/Manager/Tidy.antt =====
-- The books of positions that src/spy_der/positions/manager.py keeps: counts and statuses agree.
use spy_der.Prelude.{
  ℕ, ◌≤◌, ◌<◌, String, ◌≡◌, refl, Bool, true, not, ◌||◌, Option, none, some, arith, Option-cases,
  inl, inr, if◌then◌else◌, ltb, leb, eqb,
}
use spy_der.Prelude.Int.{ℤ, pos, negsuc}
use spy_der.Prelude.Float.{Float, nan, real, zero_f, leb_f}
use spy_der.Prelude.Text.{str_eq_iff}
use spy_der.Prelude.Dict.{lookup, lookup-insert, Each, insert-Each}
use spy_der.Prelude.Effects.{Result, ok, err, pure, raise, ◌>>=◌, ◌>>◌}
use spy_der.Prelude.Hoare.{Keeps, >>=-Keeps, pure-Keeps, raise-Keeps, require-Keeps, choose-Keeps}
use spy_der.Execution.Contracts.{
  PositionStatus, pending_open, open_position, partially_reduced, close_pending, closed, settled,
  Fault, position_transition, fraction_not_positive, not_a_number, OrderState, PaperAccount,
}
use spy_der.Execution.Accounts.{BookAction, register_position, realize_pnl, close_position}
use spy_der.Execution.Accounts.Sound.{
  IsSound, register_position-Keeps, realize_pnl-Keeps, close_position-Keeps,
}
use spy_der.Positions.Contracts.{PositionState, ExitPolicy, profit_ratio}
use spy_der.Positions.Exits.{ExitCall, evaluate_exit}
use spy_der.Positions.Manager.Exit.{evaluate_exit_of}
use spy_der.Positions.Status.{can_move, validate_position_transition}
use spy_der.Positions.Manager.{
  PositionManager, Outside, ManagerAction, on_book, save_position, get_position, lift_result,
  is_filling, or_text, opened_position, refilled_position, open_new, refill, open_or_refill,
  on_price, position_key_of, on_order_state, marked_position, mark_from, mark, close_pnl,
  closed_position, is_closed, close_live, close_from, close, cut_of, reduced_position, reduce_part,
  reduce_marked, reduce_from, reduce, settle_from, settle,
}

-- No more contracts are open than were opened; an open or a partly reduced position has some, and a
-- closed one has none.
pub record IsCoherent (p : PositionState) : Type 0 where
  pub bounded : p.open_contracts ≤ p.opened_contracts
  pub live : p.status ≡ open_position → 0 < p.open_contracts
  pub reduced : p.status ≡ partially_reduced → 0 < p.open_contracts
  pub done : p.status ≡ closed → p.open_contracts ≡ 0

-- Every position is coherent and stands under its own id, and the accounts are sound.
pub record IsTidy (s : PositionManager) : Type 0 where
  pub positions : Each IsCoherent s.positions
  pub keyed : (k : String) (p : PositionState) → lookup k s.positions ≡ some p → p.position_id ≡ k
  pub accounts : IsSound s.accounts

abbrev pub Good : String → PositionState → Type 0
Good k p = IsCoherent p × (p.position_id ≡ k)

-- The same of a position that need not be there.
abbrev pub GoodIfAny : String → Option PositionState → Type 0
GoodIfAny k none = Unit
GoodIfAny k (some p) = Good k p

save-Keeps :
    (k : String) (p : PositionState)
    → p.position_id ≡ k
    → IsCoherent p
    → Keeps IsTidy (Good k) (save_position k p)
save-Keeps k p same good = record {
  keeps = λ s h. record {
    positions = insert-Each IsCoherent k p s.positions good h.positions;
    keyed = λ j x e. ground (arith, lookup-insert k j p s.positions, str_eq_iff k j, h.keyed j x);
    accounts = h.accounts;
  };
  gives = λ s h. (good, same);
}

get-Keeps : (k : String) → Keeps IsTidy (Good k) (get_position k)
get-Keeps k = record {
  keeps =
      λ s h. elim (Option-cases (lookup k s.positions)) [ inl e ↦ rw e h | inr (p, e) ↦ rw e h ];
  gives = λ s h. elim (Option-cases (lookup k s.positions)) [
    | inl e ↦ rw e tt
    | inr (p, e) ↦ rw e (h.positions k p e, h.keyed k p e)
  ];
}

on_book-Keeps :
    {A : Type 0} {Q : A → Type 0} (m : BookAction A)
    → Keeps IsSound Q m
    → Keeps IsTidy Q (on_book m)
on_book-Keeps m k = record {
  keeps = λ s h. record {
    positions = h.positions;
    keyed = h.keyed;
    accounts = k.keeps s.accounts h.accounts;
  };
  gives = λ s h. k.gives s.accounts h.accounts;
}

validate-Keeps :
    (s t : PositionStatus)
    → Keeps IsTidy (λ u. can_move s t ≡ true) (validate_position_transition s t)
unfolding validate_position_transition
validate-Keeps s t = require-Keeps IsTidy (can_move s t) (position_transition s t)

lift-Keeps : {A : Type 0} (r : Result Fault A) → Keeps IsTidy (λ a. Unit {0}) (lift_result r)
lift-Keeps (ok a) = record { keeps = λ s h. h; gives = λ s h. tt }
lift-Keeps (err e) = record { keeps = λ s h. h; gives = λ s h. tt }

open_new-Keeps :
    (k : String) (o : OrderState) (price max_loss : ℤ) (policy : String) (credit : Bool) (now : ℕ)
    → 0 < o.filled_contracts
    → Keeps IsTidy (GoodIfAny k) (open_new k o price max_loss policy credit now)
unfolding open_new
open_new-Keeps k o price max_loss policy credit now some_filled =
    let p : PositionState = opened_position k o price max_loss policy credit now in
    >>=-Keeps IsTidy (validate_position_transition pending_open open_position)
      (λ u. save_position k p >>= λ q. on_book (register_position o.account_id k) >> pure (some q))
      (validate-Keeps pending_open open_position)
      (λ u v.
        >>=-Keeps IsTidy (save_position k p)
          (λ q. on_book (register_position o.account_id k) >> pure (some q))
          (save-Keeps k p refl (record {
            bounded = omega arith;
            live = λ e. some_filled;
            reduced = λ e. cc;
            done = λ e. cc;
          }))
          (λ q g.
            >>=-Keeps IsTidy (on_book (register_position o.account_id k)) (λ a. pure (some q))
              (on_book-Keeps (register_position o.account_id k)
                (register_position-Keeps o.account_id k))
              (λ a w. pure-Keeps IsTidy (GoodIfAny k) (some q) g)))

refill-Keeps :
    (k : String) (o : OrderState) (price : ℤ) (p : PositionState)
    → Good k p
    → Keeps IsTidy (GoodIfAny k) (refill k o price p)
unfolding refill
refill-Keeps k o price p g =
    choose-Keeps IsTidy (ltb p.opened_contracts o.filled_contracts)
      {m = validate_position_transition p.status open_position
        >> (save_position k (refilled_position o price p) >>= λ q. pure (some q))}
      {n = pure (some p)}
      (λ e.
        >>=-Keeps IsTidy (validate_position_transition p.status open_position)
          (λ u. save_position k (refilled_position o price p) >>= λ q. pure (some q))
          (validate-Keeps p.status open_position)
          (λ u v.
            >>=-Keeps IsTidy (save_position k (refilled_position o price p)) (λ q. pure (some q))
              (save-Keeps k (refilled_position o price p) g.1 (record {
                bounded = omega arith;
                live = λ x. ground arith;
                reduced = λ x. cc;
                done = λ x. cc;
              }))
              (λ q h. pure-Keeps IsTidy (GoodIfAny k) (some q) h)))
      (λ e. pure-Keeps IsTidy (GoodIfAny k) (some p) g)

on_price-Keeps :
    (k : String) (o : OrderState) (max_loss : ℤ) (policy : String) (credit : Bool) (now : ℕ)
    (price : Option ℤ)
    → 0 < o.filled_contracts
    → Keeps IsTidy (GoodIfAny k) (on_price k o max_loss policy credit now price)
unfolding on_price open_or_refill
on_price-Keeps k o max_loss policy credit now none some_filled = record {
  keeps = λ s h. h;
  gives = λ s h. tt;
}
on_price-Keeps k o max_loss policy credit now (some price) some_filled = record {
  keeps = λ s h. (known (or_text policy s.default_policy_id) s h).keeps s h;
  gives = λ s h. (known (or_text policy s.default_policy_id) s h).gives s h;
}
  where
    known :
        (id : String) (s : PositionManager)
        → IsTidy s
        → Keeps IsTidy
            (GoodIfAny k)
            (open_or_refill k o price max_loss id credit now (lookup k s.positions))
    known id s h = elim (Option-cases (lookup k s.positions)) [
      | inl e ↦ rw e (open_new-Keeps k o price max_loss id credit now some_filled)
      | inr (p, e) ↦ rw e (refill-Keeps k o price p (h.positions k p e, h.keyed k p e))
    ]

module _ (outside : Outside) where
  on_order_state-Keeps :
      (o : OrderState) (max_loss : ℤ) (policy : String) (credit : Bool) (now : ℕ)
      → Keeps IsTidy
          (GoodIfAny (position_key_of outside o))
          (on_order_state outside o max_loss policy credit now)
  unfolding on_order_state
  on_order_state-Keeps o max_loss policy credit now =
      let k : String = position_key_of outside o in
      choose-Keeps IsTidy (not (is_filling o.status) || eqb o.filled_contracts 0) {m = pure none}
        {n = on_price k o max_loss policy credit now o.avg_fill_price}
        (λ e. pure-Keeps IsTidy (GoodIfAny k) none tt)
        (λ e. on_price-Keeps k o max_loss policy credit now o.avg_fill_price (ground arith))

  mark_from-Keeps :
      (k : String) (price : ℤ) (p : PositionState) (entry : Option ℤ)
      → Good k p
      → Keeps IsTidy (Good k) (mark_from outside k price p entry)
  unfolding mark_from
  mark_from-Keeps k price p none g = pure-Keeps IsTidy (Good k) p g
  mark_from-Keeps k price p (some entry) g =
      let ratio : Result Fault ℤ =
        profit_ratio outside.decimal_div entry price p.opened_for_credit in
      choose-Keeps IsTidy (eqb p.open_contracts 0) {m = pure p}
        {n = lift_result ratio >>= λ r. save_position k (marked_position outside price r p)}
        (λ e. pure-Keeps IsTidy (Good k) p g)
        (λ e.
          >>=-Keeps IsTidy (lift_result ratio)
            (λ r. save_position k (marked_position outside price r p)) (lift-Keeps ratio)
            (λ r u. save-Keeps k (marked_position outside price r p) g.1 (record {
              bounded = g.0.bounded;
              live = g.0.live;
              reduced = g.0.reduced;
              done = g.0.done;
            })))

  mark-Keeps : (k : String) (price : ℤ) → Keeps IsTidy (Good k) (mark outside k price)
  unfolding mark
  mark-Keeps k price =
      >>=-Keeps IsTidy (get_position k) (λ p. mark_from outside k price p p.entry_price)
        (get-Keeps k) (λ p g. mark_from-Keeps k price p p.entry_price g)

  close_live-Keeps :
      (k : String) (price : ℤ) (reason : String) (now : ℕ) (p : PositionState)
      → Good k p
      → Keeps IsTidy (Good k) (close_live outside k price reason now p)
  unfolding close_live
  close_live-Keeps k price reason now p g =
      let q : PositionState = closed_position outside price reason now p in
      let credit : BookAction PaperAccount =
        close_position p.account_id k (close_pnl outside price p.open_contracts p) in
      >>=-Keeps IsTidy (validate_position_transition p.status close_pending)
        (λ u.
          validate_position_transition close_pending closed
          >> (save_position k q >>= λ x. on_book credit >> pure x))
        (validate-Keeps p.status close_pending)
        (λ u v.
          >>=-Keeps IsTidy (validate_position_transition close_pending closed)
            (λ u. save_position k q >>= λ x. on_book credit >> pure x)
            (validate-Keeps close_pending closed)
            (λ w y.
              >>=-Keeps IsTidy (save_position k q) (λ x. on_book credit >> pure x)
                (save-Keeps k q g.1 (record {
                  bounded = omega arith;
                  live = λ e. cc;
                  reduced = λ e. cc;
                  done = λ e. refl;
                }))
                (λ x h.
                  >>=-Keeps IsTidy (on_book credit) (λ a. pure x)
                    (on_book-Keeps credit (close_position-Keeps p.account_id k _))
                    (λ a z. pure-Keeps IsTidy (Good k) x h))))

  close-Keeps :
      (k : String) (price : ℤ) (reason : String) (now : ℕ)
      → Keeps IsTidy (Good k) (close outside k price reason now)
  unfolding close close_from
  close-Keeps k price reason now =
      >>=-Keeps IsTidy (get_position k) (close_from outside k price reason now) (get-Keeps k)
        (λ p g.
          choose-Keeps IsTidy (is_closed outside p.status) {m = pure p}
            {n = close_live outside k price reason now p} (λ e. pure-Keeps IsTidy (Good k) p g)
            (λ e. close_live-Keeps k price reason now p g))

  reduced_position-IsCoherent :
      (price : ℤ) (reason : String) (cut : ℕ) (p : PositionState)
      → IsCoherent p
      → cut < p.open_contracts
      → IsCoherent (reduced_position outside price reason cut p)
  reduced_position-IsCoherent price reason cut p c less = record {
    bounded = omega (arith, c.bounded);
    live = λ e. cc;
    reduced = λ e. omega arith;
    done = λ e. cc;
  }

  reduce_part-Keeps :
      (k : String) (price : ℤ) (reason : String) (cut : ℕ) (p : PositionState)
      → Good k p
      → cut < p.open_contracts
      → Keeps IsTidy (Good k) (reduce_part outside k price reason cut p)
  unfolding reduce_part
  reduce_part-Keeps k price reason cut p g less =
      let q : PositionState = reduced_position outside price reason cut p in
      let credit : BookAction PaperAccount =
        realize_pnl p.account_id (close_pnl outside price cut p) "reduce" in
      >>=-Keeps IsTidy (validate_position_transition p.status partially_reduced)
        (λ u. save_position k q >>= λ x. on_book credit >> pure x)
        (validate-Keeps p.status partially_reduced)
        (λ w y.
          >>=-Keeps IsTidy (save_position k q) (λ x. on_book credit >> pure x)
            (save-Keeps k q g.1 (reduced_position-IsCoherent price reason cut p g.0 less))
            (λ x h.
              >>=-Keeps IsTidy (on_book credit) (λ a. pure x)
                (on_book-Keeps credit (realize_pnl-Keeps p.account_id "reduce" _))
                (λ a z. pure-Keeps IsTidy (Good k) x h)))

  reduce_from-Keeps :
      (k : String) (f : Float) (price : ℤ) (reason : String) (now : ℕ) (p : PositionState)
      → Good k p
      → Keeps IsTidy (Good k) (reduce_from outside k f price reason now p)
  unfolding reduce_from reduce_marked
  reduce_from-Keeps k nan price reason now p g = raise-Keeps IsTidy (Good k) not_a_number
  reduce_from-Keeps k (real (negsuc f)) price reason now p g =
      raise-Keeps IsTidy (Good k) fraction_not_positive
  reduce_from-Keeps k (real (pos f)) price reason now p g =
      let cut : ℕ = cut_of outside p.open_contracts f in
      let all : ManagerAction PositionState =
        close outside k price (or_text reason "ai_reduce_full") now in
      choose-Keeps IsTidy (leb p.open_contracts cut) {m = all}
        {n = reduce_part outside k price reason cut p} (λ e. close-Keeps k price _ now)
        (λ e. reduce_part-Keeps k price reason cut p g (ground arith))

  reduce-Keeps :
      (k : String) (f : Float) (price : ℤ) (reason : String) (now : ℕ)
      → Keeps IsTidy (Good k) (reduce outside k f price reason now)
  unfolding reduce
  reduce-Keeps k f price reason now =
      let all : ManagerAction PositionState =
        close outside k price (or_text reason "ai_reduce_full") now in
      let part : ManagerAction PositionState =
        mark outside k price >>= reduce_from outside k f price reason now in
      choose-Keeps IsTidy (leb_f f zero_f) {m = raise fraction_not_positive}
        {n = if leb_f (real (pos 10000)) f then all else part}
        (λ e. raise-Keeps IsTidy (Good k) fraction_not_positive)
        (λ e.
          choose-Keeps IsTidy (leb_f (real (pos 10000)) f) {m = all} {n = part}
            (λ x. close-Keeps k price _ now)
            (λ x.
              >>=-Keeps IsTidy (mark outside k price) (reduce_from outside k f price reason now)
                (mark-Keeps k price) (λ p g. reduce_from-Keeps k f price reason now p g)))

settle-Keeps : (k : String) → Keeps IsTidy (Good k) (settle k)
unfolding settle settle_from
settle-Keeps k = >>=-Keeps IsTidy (get_position k) (settle_from k) (get-Keeps k) (λ p g.
    >>=-Keeps IsTidy (validate_position_transition p.status settled)
      (λ u. save_position k (record p { status = settled })) (validate-Keeps p.status settled)
      (λ u v.
        save-Keeps k (record p { status = settled }) g.1
          (record { bounded = g.0.bounded; live = λ e. cc; reduced = λ e. cc; done = λ e. cc })))

evaluate_exit_of-Keeps :
    (outside : Outside) (et_time : ℕ → ℕ) (k : String) (c : ExitCall) (ex : Option ExitPolicy)
    → Keeps IsTidy (λ x. Unit {0}) (evaluate_exit_of outside et_time k c ex)
unfolding evaluate_exit_of
evaluate_exit_of-Keeps outside et_time k c ex =
    >>=-Keeps IsTidy (mark outside k c.mark_price)
      (λ p. lift_result (evaluate_exit outside.decimal_div et_time p c ex))
      (mark-Keeps outside k c.mark_price)
      (λ p g. lift-Keeps (evaluate_exit outside.decimal_div et_time p c ex))

-- Opening, marking, judging an exit, reducing, closing and settling, with whatever arguments and
-- however they end, keep every position coherent, under its own id, and the accounts sound; a position
-- that they return is the coherent one under the id asked for.
pub operations-IsTidy :
    (outside : Outside) (o : OrderState) (max_loss price : ℤ) (policy reason k : String)
    (credit : Bool) (f : Float) (now : ℕ) (et_time : ℕ → ℕ) (c : ExitCall) (ex : Option ExitPolicy)
    → Keeps IsTidy
        (GoodIfAny (position_key_of outside o))
        (on_order_state outside o max_loss policy credit now)
      × Keeps IsTidy (Good k) (mark outside k price)
      × Keeps IsTidy (Good k) (reduce outside k f price reason now)
      × Keeps IsTidy (Good k) (close outside k price reason now)
      × Keeps IsTidy (Good k) (settle k)
      × Keeps IsTidy (λ x. Unit {0}) (evaluate_exit_of outside et_time k c ex)
operations-IsTidy outside o max_loss price policy reason k credit f now et_time c ex = (
  on_order_state-Keeps outside o max_loss policy credit now,
  mark-Keeps outside k price,
  reduce-Keeps outside k f price reason now,
  close-Keeps outside k price reason now,
  settle-Keeps k,
  evaluate_exit_of-Keeps outside et_time k c ex,
)
