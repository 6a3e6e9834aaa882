-- ===== src/Risk/Firewall/Recent.antt =====
-- When a trade is new and its decision is of now, for src/spy_der/risk/firewall.py: what its duplicate
-- and staleness checks ask for.
use Prim.Native.String.{◌++◌}
use spy_der.Prelude.{
  if◌then◌else◌, iff_trans, not_eq_true, ℕ, ◌-◌, ◌<◌, ◌≤◌, ◌≡◌, refl, sym, ◌∙◌, ◌↔◌, ◌≢◌, Bool,
  true, false, ◌&&◌, ◌||◌, Option, none, some, List, [], ◌∷◌, String, arith, Bool-cases, inl, inr,
  not, ltb, is_some, true≢false, false≢true,
}
use spy_der.Prelude.Int.{pos, ◌≤ℤ◌, ◌*ℤ◌}
use spy_der.Prelude.Text.{is_blank, elem, str_eq, str_eq_iff}
use spy_der.Prelude.Dict.{Dict, lookup}
use spy_der.Guard.Types.{aware, naive, Timestamp}
use spy_der.Risk.Contracts.{PortfolioState, RiskEnvelope}
use spy_der.Risk.Duplicates.{
  equivalent_position_candidate, equivalent_position_geometry, duplicate_order, DuplicateGuard,
  still_seen, purge, is_duplicate, decision_signature, is_stale_decision,
}
use spy_der.Risk.Duplicates.Memory.{signature_some, and_false}
use spy_der.Risk.Checks.{FirewallContext, RiskCandidate, is_equivalent, ask_guard, decided_in_time}

-- A text that is not in a list.
abbrev pub Absent : String → List String → Type 0
Absent s [] = Unit
Absent s (x ∷ xs) = (x ≢ s) × Absent s xs

Absent-iff : (s : String) (xs : List String) → (elem s xs ≡ false) ↔ Absent s xs
Absent-iff s [] = (λ h. tt, λ h. refl)
Absent-iff s (x ∷ xs) =
    let i = Absent-iff s xs in
    elim (Bool-cases (str_eq x s)) [
      | inl e ↦ rw e (λ h. cc, λ h. absurd (h.0 ((str_eq_iff x s).0 e)))
      | inr e ↦ rw e (λ h. (λ q. false≢true (sym e ∙ (str_eq_iff x s).1 q), i.0 h), λ h. i.1 h.1)
    ]

-- No entry of a guard is of this signature and recent enough to count.
abbrev pub Forgotten : ℕ → ℕ → String → Dict ℕ → Type 0
Forgotten ttl now key [] = Unit
Forgotten ttl now key ((k, at) ∷ d) = (k ≡ key → at < now - ttl) × Forgotten ttl now key d

Forgotten-iff :
    (ttl now : ℕ) (key : String) (d : Dict ℕ)
    → (is_some (lookup key (still_seen ttl now d)) ≡ false) ↔ Forgotten ttl now key d
unfolding still_seen lookup
Forgotten-iff ttl now key [] = (λ h. tt, λ h. refl)
Forgotten-iff ttl now key ((k, at) ∷ d) =
    let i = Forgotten-iff ttl now key d in
    elim (Bool-cases (ltb at (now - ttl))) [
      | inl old ↦ rw old (λ h. (λ q. ground arith, i.0 h), λ h. i.1 h.1)
      | inr young ↦ rw young (elim (Bool-cases (str_eq k key)) [
        | inl e ↦ rw e (λ h. cc, λ h. absurd (ground (arith, h.0 ((str_eq_iff k key).0 e))))
        | inr e ↦
            rw e (
              λ h. (λ q. absurd (false≢true (sym e ∙ (str_eq_iff k key).1 q)), i.0 h),
              λ h. i.1 h.1,
            )
      ])
    ]

-- No decision on the candidate for the account is in the guard's memory.
abbrev pub Unseen : RiskCandidate → String → ℕ → Option DuplicateGuard → Type 0
Unseen c account_id now none = Unit
Unseen c account_id now (some g) =
    Forgotten g.ttl now (account_id ++ ("|" ++ (c.candidate_id ++ ("|" ++ c.geometry_hash)))) g.seen

-- No open position is of the same candidate or geometry, and the guard has not seen the trade.
abbrev pub NewTrade : RiskCandidate → FirewallContext → PortfolioState → Type 0
NewTrade c x p =
    (Absent c.candidate_id p.open_candidate_ids
      × (c.geometry_hash ≢ "" → Absent c.geometry_hash p.open_geometry_hashes))
    × Unseen c p.account_id x.now x.duplicate_guard

neither_iff :
    {P Q : Type 0} (a b : Bool)
    → (a ≡ false) ↔ P
    → (b ≡ false) ↔ Q
    → (not (a || b) ≡ true) ↔ (P × Q)
neither_iff true b i j = (λ h. cc, λ h. absurd (true≢false (i.1 h.0)))
neither_iff false b i j =
    (λ h. (i.0 refl, j.0 ((not_eq_true b).0 h)), λ h. (not_eq_true b).1 (j.1 h.1))

hash_iff :
    (s : String) (xs : List String)
    → ((not (is_blank s) && elem s xs) ≡ false) ↔ (s ≢ "" → Absent s xs)
hash_iff s xs = elim (Bool-cases (is_blank s)) [
  | inl b ↦ rw b (λ h ne. absurd (ne ((str_eq_iff s "").0 b)), λ h. refl)
  | inr b ↦ rw b (
    λ h ne. (Absent-iff s xs).0 h,
    λ h. (Absent-iff s xs).1 (h (λ e. false≢true (sym b ∙ (str_eq_iff s "").1 e))),
  )
]

pub new_iff :
    (c : RiskCandidate) (p : PortfolioState)
    → (not (is_equivalent c p) ≡ true) ↔ (
        Absent c.candidate_id p.open_candidate_ids
        × (c.geometry_hash ≢ "" → Absent c.geometry_hash p.open_geometry_hashes))
new_iff c p =
    neither_iff (elem c.candidate_id p.open_candidate_ids) _
      (Absent-iff c.candidate_id p.open_candidate_ids)
      (hash_iff c.geometry_hash p.open_geometry_hashes)

-- The guard's answer, of an account without open positions.
answer_iff :
    (a b k m : Bool)
    → k ≡ false
    → (elim (if a && false
          then some equivalent_position_candidate
          else if b && false
          then some equivalent_position_geometry
          else if not k && m
          then some duplicate_order
          else none) [ none ↦ true | some d ↦ false ]
        ≡ true)
      ↔ (m ≡ false)
answer_iff a b k m h = ground (arith, and_false a, and_false b)

pub Unseen-iff :
    (c : RiskCandidate) (account_id : String) (now : ℕ) (o : Option DuplicateGuard)
    → ((ask_guard c account_id now o).0 ≡ true) ↔ Unseen c account_id now o
unfolding is_duplicate purge decision_signature
Unseen-iff c account_id now none = (λ h. tt, λ h. refl)
Unseen-iff c account_id now (some g) =
    let key : String = account_id ++ ("|" ++ (c.candidate_id ++ ("|" ++ c.geometry_hash))) in
    let some_text : is_blank key ≡ false =
      unfold decision_signature in signature_some c.candidate_id c.geometry_hash account_id in
    iff_trans
      (answer_iff (not (is_blank c.candidate_id)) (not (is_blank c.geometry_hash)) (is_blank key)
        (is_some (lookup key (still_seen g.ttl now g.seen))) some_text)
      (Forgotten-iff g.ttl now key g.seen)

-- A decision that has a time is of an aware instant, not ahead of now and no older than its time to
-- live.
abbrev pub InTime : RiskEnvelope → FirewallContext → Option Timestamp → Type 0
InTime e x none = Unit
InTime e x (some naive) = ⊥
InTime e x (some (aware at)) =
    (at ≤ x.now) × (pos (x.now - at) ≤ℤ e.decision_ttl_seconds *ℤ pos 1000000)

pub time_iff :
    (e : RiskEnvelope) (x : FirewallContext) (o : Option Timestamp)
    → (decided_in_time e x o ≡ true) ↔ InTime e x o
unfolding is_stale_decision
time_iff e x none = (λ h. tt, λ h. refl)
time_iff e x (some naive) = (λ h. cc, λ h. absurd h)
time_iff e x (some (aware at)) = (λ h. ground arith, λ h. ground arith)
