-- ===== src/Risk/Firewall/Service.antt =====
-- `RiskFirewallService` of src/spy_der/risk/firewall.py, whose duplicate guard is the memory of the
-- decisions that it approved.
use mathlib.Core.Option.{some-injective}
use spy_der.Prelude.{
  false≢true, ℕ, ◌-◌, ◌≤◌, ◌≡◌, refl, sym, ap, ◌∙◌, subst, ◌≢◌, true, false, Bool-cases, Option,
  none, some, List, [], ◌∷◌, String, arith, inl, inr, if◌then◌else◌, find?,
}
use spy_der.Prelude.Text.{str_eq_ne, is_blank, str_eq, str_eq_iff}
use spy_der.Risk.Contracts.{PortfolioState, RiskEnvelope, RiskDecision}
use spy_der.Risk.Duplicates.{DuplicateGuard, remember_decision, purge, observe}
use spy_der.Risk.Duplicates.Memory.{remember-is_duplicate}
use spy_der.Risk.Sizing.{Decimals}
use spy_der.Risk.Checks.{FirewallContext, RiskCandidate, SystemAction, SystemDecision, ask_guard}
use spy_der.Risk.Firewall.{wanted, apply_risk_firewall}
use spy_der.Risk.Firewall.Recent.{Unseen-iff}
use spy_der.Risk.Firewall.Approval.{AccountClear, Clear, Selected, apply_risk_firewall-Clear}

-- `DuplicateGuard()` remembers for 15 minutes.
abbrev pub or_new : Option DuplicateGuard → DuplicateGuard
or_new none = record { ttl = 900000000; seen = [] }
or_new (some g) = g

-- The service's guard where the context brings none.
abbrev pub with_guard : Option DuplicateGuard → FirewallContext → FirewallContext
with_guard own x = elim x.duplicate_guard [ none ↦ record x { duplicate_guard = own } | some g ↦ x ]

-- The service's guard after a call that handed back `asked` as the guard it used.
abbrev pub own_guard :
    FirewallContext → Option DuplicateGuard → Option DuplicateGuard → Option DuplicateGuard
own_guard x asked own = elim x.duplicate_guard [ none ↦ asked | some g ↦ own ]

abbrev pub remember_candidate :
    Option RiskCandidate → PortfolioState → ℕ → Option DuplicateGuard → Option DuplicateGuard
remember_candidate none p now own = own
remember_candidate (some c) p now own =
    some (remember_decision c.candidate_id c.geometry_hash p.account_id now (or_new own))

abbrev pub remember_selected :
    Option String
    → List RiskCandidate
    → Option PortfolioState
    → ℕ
    → Option DuplicateGuard
    → Option DuplicateGuard
remember_selected none universe o now own = own
remember_selected (some i) universe none now own = own
remember_selected (some i) universe (some p) now own =
    if is_blank i
    then own
    else remember_candidate (find? (λ c. str_eq c.candidate_id i) universe) p now own

-- The guard after the call, which remembers an approval.
abbrev pub remember_approved :
    Option RiskDecision → Option DuplicateGuard → Option DuplicateGuard → Option DuplicateGuard
remember_approved none known kept = kept
remember_approved (some r) known kept = if r.approved then known else kept

-- The decision, none where the call raises, and the service's guard afterwards.
unfoldable pub evaluate :
    Decimals
    → Option DuplicateGuard
    → SystemDecision
    → RiskEnvelope
    → List RiskCandidate
    → FirewallContext
    → Option RiskDecision × Option DuplicateGuard
evaluate ops own d e universe x =
    let (r, asked) = apply_risk_firewall ops d e universe (with_guard own x) in
    let kept = own_guard x asked own in
    let known = remember_selected d.selected_candidate_id universe x.portfolio x.now kept in
    (r, remember_approved r known kept)

remembered-asked :
    (c : RiskCandidate) (account_id : String) (at now : ℕ) (g : DuplicateGuard)
    → now - g.ttl ≤ at
    → (ask_guard c account_id now
        (some (remember_decision c.candidate_id c.geometry_hash account_id at g))).0
      ≡ false
remembered-asked c account_id at now g h =
    ap (λ answer. elim answer [ none ↦ true | some k ↦ false ])
      ((remember-is_duplicate c.candidate_id c.geometry_hash account_id at now g).0 h)

-- A candidate that the guard remembers is not cleared again.
Clear-seen :
    (ops : Decimals) (e : RiskEnvelope) (y : FirewallContext) (c : RiskCandidate)
    (q : PortfolioState) (at : ℕ) (g : DuplicateGuard)
    → y.portfolio ≡ some q
    → y.duplicate_guard ≡ some (remember_decision c.candidate_id c.geometry_hash q.account_id at g)
    → y.now - g.ttl ≤ at
    → ¬ (Clear ops e y c)
Clear-seen ops e y c q at g same held fresh clear =
    let account = subst (AccountClear ops e y c) same clear.1.1.1.1.0 in
    let asked =
      subst (λ k. (ask_guard c q.account_id y.now k).0 ≡ true) held
        ((Unseen-iff c q.account_id y.now y.duplicate_guard).1 account.1.0.1) in
    false≢true (sym (remembered-asked c q.account_id at y.now g fresh) ∙ asked)

wanted-selected :
    (a : SystemAction) (o : Option String) (i : String) → wanted a o ≡ some i → o ≡ some i
wanted-selected SystemAction.abstain o i h = cc
wanted-selected SystemAction.select_candidate o i h = h
wanted-selected SystemAction.fail_closed o i h = cc

find?-same :
    (i : String) (c : RiskCandidate) (universe : List RiskCandidate)
    → find? (λ k. str_eq k.candidate_id i) universe ≡ some c
    → c.candidate_id ≡ i
find?-same i c [] h = cc
find?-same i c (k ∷ universe) h = elim (Bool-cases (str_eq k.candidate_id i)) [
  | inl e ↦
      ap (λ z. z.candidate_id)
        (sym (
          some-injective _ _ (
            subst
              (λ b. (if b then some k else find? (λ k. str_eq k.candidate_id i) universe) ≡ some c)
              e h)))
      ∙ (str_eq_iff k.candidate_id i).0 e
  | inr e ↦ find?-same i c universe (
      subst (λ b. (if b then some k else find? (λ k. str_eq k.candidate_id i) universe) ≡ some c) e
        h)
]

remember-ttl :
    (c h a : String) (at : ℕ) (g : DuplicateGuard) → (remember_decision c h a at g).ttl ≡ g.ttl
unfolding remember_decision observe purge
remember-ttl c h a at g = ground arith

selected-remembered :
    (o : Option String) (i : String) (universe : List RiskCandidate) (c : RiskCandidate)
    (account : Option PortfolioState) (p : PortfolioState) (now : ℕ) (own : Option DuplicateGuard)
    → o ≡ some i
    → account ≡ some p
    → i ≢ ""
    → find? (λ k. str_eq k.candidate_id i) universe ≡ some c
    → remember_selected o universe account now own
      ≡ some (remember_decision c.candidate_id c.geometry_hash p.account_id now (or_new own))
selected-remembered o i universe c account p now own eo ea ne f =
    rw (eo, ea, str_eq_ne i "" ne, f) refl

module _ (ops : Decimals) where
  approved-remembered :
      (own : Option DuplicateGuard) (d : SystemDecision) (e : RiskEnvelope)
      (universe : List RiskCandidate) (x : FirewallContext) (p : PortfolioState) (r : RiskDecision)
      → x.portfolio ≡ some p
      → (evaluate ops own d e universe x).0 ≡ some r
      → r.approved ≡ true
      → (c : RiskCandidate) × (Selected d universe c
          × ((g : DuplicateGuard) × ((evaluate ops own d e universe x).1
                ≡ some (remember_decision c.candidate_id c.geometry_hash p.account_id x.now g))))
  unfolding evaluate
  approved-remembered own d e universe x p r same made h =
      let asked = (apply_risk_firewall ops d e universe (with_guard own x)).1 in
      let kept : Option DuplicateGuard = own_guard x asked own in
      let known : Option DuplicateGuard =
        remember_selected d.selected_candidate_id universe x.portfolio x.now kept in
      let (c, (sel, clear)) =
        (apply_risk_firewall-Clear ops d e universe (with_guard own x)).0 (r, (made, h)) in
      let chosen = wanted-selected d.action d.selected_candidate_id sel.0 sel.1.0 in
      let named : sel.0 ≢ "" = λ b. clear.1.1.1.0.0 (find?-same sel.0 c universe sel.1.1 ∙ b) in
      (
        c,
        (
          sel,
          (
            or_new kept,
            ap (λ o. remember_approved o known kept) made
                ∙ ap (λ b. if b then known else kept) h
                ∙ selected-remembered d.selected_candidate_id sel.0 universe c x.portfolio p x.now
                    kept chosen same named sel.1.1,
          ),
        ),
      )

  Selected-same :
      (d : SystemDecision) (universe : List RiskCandidate) (a b : RiskCandidate)
      → Selected d universe a
      → Selected d universe b
      → a ≡ b
  Selected-same d universe a b (i, (wi, fi)) (j, (wj, fj)) =
      let same : i ≡ j = some-injective i j (sym wi ∙ wj) in
      some-injective a b
        (sym fi ∙ ap (λ k. find? (λ c. str_eq c.candidate_id k) universe) same ∙ fj)

  with_guard-none :
      (k : Option DuplicateGuard) (y : FirewallContext)
      → y.duplicate_guard ≡ none
      → with_guard k y ≡ record y { duplicate_guard = k }
  with_guard-none k y h =
      ap (λ o. elim o [ none ↦ record y { duplicate_guard = k } | some g ↦ y ]) h

  -- After the service returned an approval of a decision for an account whose state was given, it does
  -- not approve the same decision over the same universe for that account again: what it returns, in
  -- any envelope and context that gives the account's state and no guard of its own, is a refusal, as
  -- long as the guard's time to live has not passed.
  pub evaluate-no_repeat :
      (own : Option DuplicateGuard) (d : SystemDecision) (e e' : RiskEnvelope)
      (universe : List RiskCandidate) (x y : FirewallContext) (p q : PortfolioState)
      (kept : DuplicateGuard) (r r' : RiskDecision)
      → x.portfolio ≡ some p
      → y.portfolio ≡ some q
      → q.account_id ≡ p.account_id
      → y.duplicate_guard ≡ none
      → (evaluate ops own d e universe x).0 ≡ some r
      → r.approved ≡ true
      → (evaluate ops own d e universe x).1 ≡ some kept
      → y.now - kept.ttl ≤ x.now
      → (evaluate ops (some kept) d e' universe y).0 ≡ some r'
      → r'.approved ≡ false
  unfolding evaluate
  evaluate-no_repeat own d e e' universe x y p q kept r r' px qy same bare made h held fresh again =
      let (c, (sel, (g, mem))) =
        approved-remembered own d e universe x p r px (unfold evaluate in made) h in
      let sig : DuplicateGuard =
        remember_decision c.candidate_id c.geometry_hash p.account_id x.now g in
      let is_sig : kept ≡ sig = some-injective kept sig (sym held ∙ mem) in
      let live : y.now - g.ttl ≤ x.now =
        subst (λ t. y.now - t ≤ x.now)
          (ap (λ k. k.ttl) is_sig
            ∙ remember-ttl c.candidate_id c.geometry_hash p.account_id x.now g)
          fresh in
      elim (Bool-cases r'.approved) [
        | inr f ↦ f
        | inl t ↦
            let (c', (sel', clear)) =
              (apply_risk_firewall-Clear ops d e' universe (with_guard (some kept) y)).0
                (r', (again, t)) in
            let back : c' ≡ c = Selected-same d universe c' c sel' sel in
            let z : FirewallContext = record y { duplicate_guard = some kept } in
            let cleared =
              subst (λ k. Clear ops e' z k) back
                (subst (λ w. Clear ops e' w c') (with_guard-none (some kept) y bare) clear) in
            absurd (
              Clear-seen ops e' z c q x.now g qy
                (ap some is_sig
                  ∙ ap (λ a. some (remember_decision c.candidate_id c.geometry_hash a x.now g))
                      (sym same))
                live cleared)
      ]
