-- ===== src/Reconciliation/Books.antt =====
-- When the account and the records agree, and what becomes of an account where they do not.
use spy_der.Prelude.{
  and_iff, String, ◌≡◌, refl, sym, ◌∙◌, ap, subst, ◌↔◌, inl, inr, Bool, true, false, not, ◌&&◌,
  Option, none, some, List, [], ◌∷◌, ◌++◌, if◌then◌else◌, arith, when, is_nil, append-eq-nil,
  when-eq-nil, Bool-cases, Option-cases,
}
use spy_der.Prelude.Int.{pos, ◌≤ℤ◌, eqb_ℤ}
use spy_der.Prelude.Text.{str_eq, str_eq_iff, elem, distinct, distinct_from}
use spy_der.Prelude.Effects.{ok, pure, ◌>>◌, >>=-ok}
use spy_der.Execution.Contracts.{OrderState, AccountEvent, PaperAccount, valid_account_id}
use spy_der.Execution.Accounts.{IsolatedAccountBook, block, blocked_account, store}
use spy_der.Prelude.Hoare.{Returned}
use spy_der.Prelude.Dict.{lookup}
use spy_der.Execution.Accounts.Sound.{IsSound, IsSolvent, ensure-Keeps}
use spy_der.Execution.Accounts.View.{
  view, ensured, ensure-eq, ensure_then, view-ensured, store-eq, view-insert,
}
use spy_der.Positions.Contracts.{PositionState}
use spy_der.Reconciliation.{
  Discrepancy, missing_open_position, orphan_open_position, cross_account, open_position_ids_of,
  not_in, all_in, against_expected, discrepancies_of, result_of, conclude, reconcile_account,
}

elem-distinct_from :
    (p : String) (seen xs : List String)
    → elem p (distinct_from seen xs) ≡ (not (elem p seen) && elem p xs)
unfolding distinct_from
elem-distinct_from p seen [] = ground arith
elem-distinct_from p seen (x ∷ xs) = elim (Bool-cases (str_eq x p)) [
  | inl e ↦
      let same : x ≡ p = (str_eq_iff x p).0 e in
      ground (
        arith,
        elem-distinct_from p seen xs,
        elem-distinct_from p (x ∷ seen) xs,
        ap (λ y. elem y seen) same,
      )
  | inr e ↦ ground (arith, elem-distinct_from p seen xs, elem-distinct_from p (x ∷ seen) xs)
]

elem-distinct : (p : String) (xs : List String) → elem p (distinct xs) ≡ elem p xs
unfolding distinct
elem-distinct p xs = elem-distinct_from p [] xs

-- Every id of one list is in the other.
abbrev pub Within : List String → List String → Type 0
Within xs ys = (p : String) → elem p xs ≡ true → elem p ys ≡ true

Within-cons :
    (x : String) (xs ys : List String) → Within (x ∷ xs) ys ↔ ((elem x ys ≡ true) × Within xs ys)
Within-cons x xs ys = (
  λ h. (
    h x (ground (arith, (str_eq_iff x x).1 refl)),
    λ p k. h p (elim (Bool-cases (str_eq x p)) [ inl e ↦ rw e refl | inr e ↦ rw (e, k) refl ]),
  ),
  λ h p k. elim (Bool-cases (str_eq x p)) [
    | inl e ↦ subst (λ q. elem q ys ≡ true) ((str_eq_iff x p).0 e) h.0
    | inr e ↦ h.1 p (ground (arith, e, k))
  ],
)

not_in-nil : (d : String → Discrepancy) (ys xs : List String) → (not_in d ys xs ≡ []) ↔ Within xs ys
not_in-nil d ys [] = (λ h p k. cc, λ h. refl)
not_in-nil d ys (x ∷ xs) =
    let parts = append-eq-nil (when (not (elem x ys)) (d x)) (not_in d ys xs) in
    let one = when-eq-nil (not (elem x ys)) (d x) in
    let both = Within-cons x xs ys in
    (
      λ h. both.1 (ground (arith, one.0 (parts.0 h).0), (not_in-nil d ys xs).0 (parts.0 h).1),
      λ h. parts.1 (one.1 (ap not (both.0 h).0), (not_in-nil d ys xs).1 (both.0 h).1),
    )

all_in-Within : (xs ys : List String) → (all_in xs ys ≡ true) ↔ Within xs ys
all_in-Within [] ys = (λ h p k. cc, λ h. refl)
all_in-Within (x ∷ xs) ys =
    let both = Within-cons x xs ys in
    (
      λ h. both.1 (ground (arith, h), (all_in-Within xs ys).0 (ground (arith, h))),
      λ h. rw (both.0 h).0 ((all_in-Within xs ys).1 (both.0 h).1),
    )

abbrev pub AllUnder : String → List OrderState → Type 0
AllUnder account_id [] = Unit {0}
AllUnder account_id (o ∷ os) = (o.account_id ≡ account_id) × AllUnder account_id os

abbrev pub Agrees : String → PaperAccount → Option PaperAccount → Type 0
Agrees account_id acct none = Unit {0}
Agrees account_id acct (some e) =
    (e.account_id ≡ account_id)
    × ((eqb_ℤ e.cash acct.cash ≡ true)
        × (Within e.open_position_ids acct.open_position_ids
            × Within acct.open_position_ids e.open_position_ids))

-- The orders are the account's, it lists exactly the positions that hold contracts, and it is as
-- expected where something is.
abbrev pub InStep :
    String → PaperAccount → List OrderState → List PositionState → Option PaperAccount → Type 0
InStep account_id acct orders positions expected =
    AllUnder account_id orders
    × (Within (open_position_ids_of positions) acct.open_position_ids
        × (Within acct.open_position_ids (open_position_ids_of positions)
            × Agrees account_id acct expected))

is_nil_iff : (ds : List Discrepancy) → (is_nil ds ≡ true) ↔ (ds ≡ [])
is_nil_iff [] = (λ h. refl, λ h. refl)
is_nil_iff (d ∷ ds) = (λ h. cc, λ h. cc)

two_nil :
    {P Q : Type 0} (xs ys : List Discrepancy)
    → (xs ≡ []) ↔ P
    → (ys ≡ []) ↔ Q
    → (xs ++ ys ≡ []) ↔ (P × Q)
two_nil xs ys i j = (
  λ h. let k = (append-eq-nil xs ys).0 h in (i.0 k.0, j.0 k.1),
  λ h. (append-eq-nil xs ys).1 (i.1 h.0, j.1 h.1),
)

unless_nil : {P : Type 0} (b : Bool) (d : Discrepancy) → (b ≡ true) ↔ P → (when (not b) d ≡ []) ↔ P
unless_nil true d i = (λ h. i.0 refl, λ h. refl)
unless_nil false d i = (λ h. cc, λ h. absurd (no (i.1 h)))
  where
    no : ¬ (false ≡ true)
    no k = cc

cross_account-nil : (i : String) (os : List OrderState) → (cross_account i os ≡ []) ↔ AllUnder i os
cross_account-nil i [] = (λ h. tt, λ h. refl)
cross_account-nil i (o ∷ os) =
    two_nil (when (not (str_eq o.account_id i)) _) _
      (unless_nil (str_eq o.account_id i) _ (str_eq_iff o.account_id i)) (cross_account-nil i os)

expected-nil :
    (i : String) (a : PaperAccount) (e : Option PaperAccount)
    → (against_expected i a e ≡ []) ↔ Agrees i a e
expected-nil i a none = (λ h. tt, λ h. refl)
expected-nil i a (some e) =
    let xs : List String = e.open_position_ids in
    let ys : List String = a.open_position_ids in
    two_nil (when (not (str_eq e.account_id i)) _) _
      (unless_nil (str_eq e.account_id i) _ (str_eq_iff e.account_id i))
      (two_nil (when (not (eqb_ℤ e.cash a.cash)) _) _
        (unless_nil (eqb_ℤ e.cash a.cash) _ (λ h. h, λ h. h))
        (unless_nil (all_in xs ys && all_in ys xs) _
          (and_iff (all_in xs ys) _ (all_in-Within xs ys) (all_in-Within ys xs))))

through_distinct :
    (xs ys : List String)
    → (Within (distinct xs) ys ↔ Within xs ys) × (Within ys (distinct xs) ↔ Within ys xs)
through_distinct xs ys = (
  (λ h p k. h p (elem-distinct p xs ∙ k), λ h p k. h p (sym (elem-distinct p xs) ∙ k)),
  (λ h p k. sym (elem-distinct p xs) ∙ h p k, λ h p k. elem-distinct p xs ∙ h p k),
)

iff_trans : {P Q R : Type 0} → P ↔ Q → Q ↔ R → P ↔ R
iff_trans i j = (λ h. j.0 (i.0 h), λ h. i.1 (j.1 h))

discrepancies_of-InStep :
    (i : String) (a : PaperAccount) (os : List OrderState) (ps : List PositionState)
    (e : Option PaperAccount)
    → (discrepancies_of i a os ps e ≡ []) ↔ InStep i a os ps e
unfolding discrepancies_of
discrepancies_of-InStep i a os ps e =
    let ids : List String = open_position_ids_of ps in
    let same = through_distinct ids a.open_position_ids in
    two_nil (cross_account i os) _ (cross_account-nil i os) (
      two_nil (not_in missing_open_position a.open_position_ids (distinct ids)) _
        (iff_trans (not_in-nil missing_open_position a.open_position_ids (distinct ids)) same.0)
        (two_nil (not_in orphan_open_position (distinct ids) a.open_position_ids) _
          (iff_trans (not_in-nil orphan_open_position (distinct ids) a.open_position_ids) same.1)
          (expected-nil i a e)))

module _ (i : String) (s : IsolatedAccountBook) (known : valid_account_id i ≡ true)
    (rich : pos 0 ≤ℤ s.starting_cash) (sound : IsSound s) where
  view-IsSolvent : IsSolvent (view i s)
  view-IsSolvent =
      (subst (λ x. Returned (λ a. (a.account_id ≡ i) × IsSolvent a) x.0) (ensure-eq i s known rich)
        ((ensure-Keeps i).gives s sound)).1

  ensured-IsSound : IsSound (ensured i s)
  ensured-IsSound =
      subst (λ x. IsSound x.1) (ensure-eq i s known rich) ((ensure-Keeps i).keeps s sound)

  block-view :
      (why : String)
      → let (r, t) = block i why s in
        (r ≡ ok (blocked_account why (view i s))) × (view i t ≡ blocked_account why (view i s))
  unfolding block
  block-view why =
      let a : PaperAccount = blocked_account why (view i s) in
      let solvent = view-IsSolvent in
      rw
        (ensure_then i (λ x. store i (blocked_account why x)) s known rich
          ∙ store-eq i a (ensured i s) solvent.known solvent.cash_nonneg solvent.equity_nonneg)
        (refl, view-insert i a (ensured i s))

starting-ensured :
    (i : String) (s : IsolatedAccountBook) → (ensured i s).starting_cash ≡ s.starting_cash
starting-ensured i s = elim (Option-cases (lookup i s.accounts)) [
  | inl e ↦ rw e refl
  | inr (a, e) ↦ rw e refl
]

clash : {b : Bool} → b ≡ false → ¬ (b ≡ true)
clash h k = cc

-- How a blocked account stands, against how it stood.
pub record Stopped (why : String) (a b : PaperAccount) : Type 0 where
  pub blocked : b.is_blocked ≡ true
  pub reason : b.block_reason ≡ why
  pub events : b.events ≡ a.events ++ AccountEvent.blocked why ∷ []
  pub account_id : b.account_id ≡ a.account_id
  pub cash : b.cash ≡ a.cash
  pub equity : b.equity ≡ a.equity
  pub starting_cash : b.starting_cash ≡ a.starting_cash
  pub positions : b.open_position_ids ≡ a.open_position_ids
  pub day : b.daily_realized_pnl ≡ a.daily_realized_pnl
  pub trades : b.trade_count ≡ a.trade_count

blocked_account-Stopped : (why : String) (a : PaperAccount) → Stopped why a (blocked_account why a)
blocked_account-Stopped why a = record {
  blocked = refl;
  reason = refl;
  events = refl;
  account_id = refl;
  cash = refl;
  equity = refl;
  starting_cash = refl;
  positions = refl;
  day = refl;
  trades = refl;
}

-- Reconciling a known account of a sound book always gives a result, which says that they match
-- exactly where the account is in step with the orders, the positions and what is expected of it. It
-- changes no account that a caller sees where they match, and where they do not it blocks the
-- account, for that reason, and leaves the rest of it.
pub reconcile_account-InStep :
    (i : String) (os : List OrderState) (ps : List PositionState) (e : Option PaperAccount)
    (s : IsolatedAccountBook)
    → valid_account_id i ≡ true
    → pos 0 ≤ℤ s.starting_cash
    → IsSound s
    → let a = view i s in
      let (r, t) = reconcile_account i os ps e s in
      let ds = discrepancies_of i a os ps e in
      (r ≡ ok (result_of i ds))
      × (((result_of i ds).matched ≡ true) ↔ InStep i a os ps e)
      × (InStep i a os ps e → (j : String) → view j t ≡ view j s)
      × (¬ (InStep i a os ps e) → Stopped "reconciliation_mismatch" a (view i t))
unfolding reconcile_account conclude
reconcile_account-InStep i os ps e s known rich sound =
    let a : PaperAccount = view i s in
    let ds : List Discrepancy = discrepancies_of i a os ps e in
    let same = discrepancies_of-InStep i a os ps e in
    let first = ensure_then i (λ x. conclude i (discrepancies_of i x os ps e)) s known rich in
    elim (Bool-cases (is_nil ds)) [
      | inl h ↦
          let agreed : InStep i a os ps e = same.0 ((is_nil_iff ds).0 h) in
          rw (first, h)
            (refl, (λ _. agreed, λ _. refl), λ _ j. view-ensured i j s, λ no. absurd (no agreed))
      | inr h ↦
          let why : String = "reconciliation_mismatch" in
          let u : IsolatedAccountBook = ensured i s in
          let stopped =
            block-view i u known (rw (starting-ensured i s) rich)
              (ensured-IsSound i s known rich sound) why in
          let disagreed : ¬ (InStep i a os ps e) = λ k. clash h ((is_nil_iff ds).1 (same.1 k)) in
          let ended =
            >>=-ok (block i why) (λ _. pure (result_of i ds)) u
              (ap (λ r. (r, (block i why u).1)) stopped.0) in
          let chosen =
            ap (λ b. (if b then pure (result_of i ds) else block i why >> pure (result_of i ds)) u)
              h in
          rw (first ∙ chosen ∙ ended) (
            refl,
            (λ k. absurd (clash h k), λ k. absurd (disagreed k)),
            λ k. absurd (disagreed k),
            λ _.
                subst (Stopped why a)
                  (sym (stopped.1 ∙ ap (blocked_account why) (view-ensured i i s)))
                  (blocked_account-Stopped why a),
          )
    ]
