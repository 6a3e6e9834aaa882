-- ===== src/Guard/Permission.antt =====
-- When `apply_execution_guard` of src/spy_der/execution/guard.py lets a trade through, stated without
-- its tests: a record of orders, equations and memberships.
use spy_der.Prelude.{
  ℕ, String, ◌≡◌, refl, ◌≢◌, ◌↔◌, ◌⊎◌, inl, inr, true, false, Option, none, some, List, [], ◌∷◌,
  subst, Option-cases, ◌≤◌, arith, append-eq-nil, Bool-cases, is_nil,
}
use spy_der.Prelude.Int.{ℤ, pos, ◌≤ℤ◌, ◌<ℤ◌}
use spy_der.Prelude.Float.{Float, zero_f, Below, AtMost, ltb_f-false, leb_f-false, ltb_f, leb_f}
use spy_der.Prelude.Text.{str_eq, str_eq_iff}
use spy_der.Guard.Types.{
  live, shadow, paper, Mode, member, plain, GuardCandidate, GuardLimits, aware, GuardContext,
}
use spy_der.Guard.Run.{
  is_trade, gate_blocks, mode_blocks, find_candidate, selected, provenance_blocks, session_blocks,
  position_blocks, held, economics_blocks, quote_blocks, clamp_size, clamp_contracts, size_blocks,
  all_blocks, limits_or_default, apply_execution_guard,
}

-- The first candidate of that name.
pub data Picks (name : String) : List GuardCandidate → GuardCandidate → Type 0 where
  here :
      {c : GuardCandidate} {cs : List GuardCandidate}
      → c.candidate_id ≡ name
      → Picks name (c ∷ cs) c
  later :
      {c d : GuardCandidate} {cs : List GuardCandidate}
      → c.candidate_id ≢ name
      → Picks name cs d
      → Picks name (c ∷ cs) d

abbrev pub IsKnown : Mode → Type 0
IsKnown (member m) = Unit {0}
IsKnown (plain s) = (s ≡ "shadow") ⊎ ((s ≡ "paper") ⊎ (s ≡ "live"))

gate_blocks-nil :
    (ctx : GuardContext)
    → (gate_blocks ctx ≡ []) ↔ (
        (ctx.trading_enabled ≡ true) × (ctx.eligibility_passed ≡ true) × (ctx.snapshot_vetoes ≡ []))
unfolding gate_blocks
gate_blocks-nil ctx = (λ h. ground arith, λ h. ground arith)

mode_blocks-nil :
    (lim : GuardLimits) (m : Mode)
    → (mode_blocks lim m ≡ []) ↔ (IsKnown m × (m ≡ member live → lim.allow_live ≡ true))
unfolding mode_blocks
mode_blocks-nil lim (member live) = (λ h. ground arith, λ h. ground (arith, h.1 refl))
mode_blocks-nil lim (member shadow) = (λ h. (tt, λ e. cc), λ h. refl)
mode_blocks-nil lim (member paper) = (λ h. (tt, λ e. cc), λ h. refl)
mode_blocks-nil lim (plain s) = (
  λ h. ground (arith, str_eq_iff s "shadow", str_eq_iff s "paper", str_eq_iff s "live"),
  λ h. ground (arith, str_eq_iff s "shadow", str_eq_iff s "paper", str_eq_iff s "live"),
)

session_blocks-nil :
    (lim : GuardLimits) (ctx : GuardContext)
    → (session_blocks lim ctx.now ≡ [])
      ↔ ((t : _) × (ctx.now ≡ some (aware t)) × (lim.session_open ≤ t) × (t ≤ lim.session_close))
unfolding session_blocks
session_blocks-nil lim ctx = (λ h. ground arith, λ h. ground arith)

find_candidate-Picks :
    (name : String) (cs : List GuardCandidate) (c : GuardCandidate)
    → find_candidate name cs ≡ some c
    → Picks name cs c
find_candidate-Picks name [] c h = cc
find_candidate-Picks name (d ∷ cs) c h = elim (Bool-cases (str_eq d.candidate_id name)) [
  | inl e ↦
      let same : d ≡ c = ground arith in
      subst (λ x. Picks name (d ∷ cs) x) same (here ((str_eq_iff _ _).0 e))
  | inr e ↦
      later (λ eq. ground (arith, str_eq_iff d.candidate_id name))
        (find_candidate-Picks name cs c (rw e at h))
]

Picks-find_candidate :
    {name : String} {cs : List GuardCandidate} {c : GuardCandidate}
    → Picks name cs c
    → find_candidate name cs ≡ some c
Picks-find_candidate {name} (here {c = c} e) = rw ((str_eq_iff c.candidate_id name).1 e)
Picks-find_candidate {name} (later {c = c} ne p) =
    ground (arith, str_eq_iff c.candidate_id name, Picks-find_candidate p)

-- What the provenance check asks of the decision's candidate id.
pub record Provenance (ctx : GuardContext) (i : Option String) (c : GuardCandidate) : Type 0 where
  pub name : String
  pub named : i ≡ some name
  pub named_text : name ≢ ""
  pub picked : Picks name ctx.eligible c
  pub not_vetoed : c.hard_vetoed ≡ false

provenance_blocks-nil :
    (ctx : GuardContext) (i : Option String)
    → provenance_blocks ctx i ≡ []
    → (c : GuardCandidate) × (selected ctx i ≡ some c) × Provenance ctx i c
unfolding provenance_blocks selected
provenance_blocks-nil ctx none h = cc
provenance_blocks-nil ctx (some name) h = elim (Option-cases (find_candidate name ctx.eligible)) [
  | inl e ↦ ground arith
  | inr (c, e) ↦ (
    c,
    ground arith,
    record {
      name = name;
      named = refl;
      named_text = λ blank. ground (arith, str_eq_iff name "");
      picked = find_candidate-Picks name ctx.eligible c e;
      not_vetoed = ground arith;
    },
  )
]

Provenance-selected :
    (ctx : GuardContext) (i : Option String) {c : GuardCandidate}
    → Provenance ctx i c
    → (provenance_blocks ctx i ≡ []) × (selected ctx i ≡ some c)
unfolding provenance_blocks selected
Provenance-selected ctx none p = cc (p.named)
Provenance-selected ctx (some n) {c} p =
    let e : n ≡ p.name = ground (arith, p.named) in
    let f : find_candidate n ctx.eligible ≡ some c = rw e (Picks-find_candidate p.picked) in
    let g : n ≢ "" = rw e p.named_text in ground (arith, str_eq_iff n "", p.not_vetoed)

-- The limits on the candidate's own figures and on its family.
pub record WithinLimits (lim : GuardLimits) (ctx : GuardContext) (c : GuardCandidate) : Type 0 where
  pub loss : c.maximum_loss ≤ℤ lim.max_loss_per_trade
  pub capital : c.capital_required ≤ℤ lim.max_capital_per_trade
  pub power : (p : ℤ) → ctx.buying_power ≡ some p → c.capital_required ≤ℤ p
  pub family_room : held c.family ctx.open_families <ℤ lim.max_positions_per_family
  pub fill : ¬ (Below c.fill_probability lim.min_fill_probability)

economics_blocks-nil :
    (lim : GuardLimits) (ctx : GuardContext) (c : GuardCandidate)
    → (economics_blocks lim ctx (some c) ≡ []) ↔ WithinLimits lim ctx c
unfolding economics_blocks
economics_blocks-nil lim ctx c = (
  λ h. record {
    loss = ground arith;
    capital = ground arith;
    power = λ p e. ground arith;
    family_room = ground arith;
    fill = (ltb_f-false _ _).0 (ground arith);
  },
  λ w. elim (Option-cases ctx.buying_power) [
    | inl e ↦
        let f : ltb_f c.fill_probability lim.min_fill_probability ≡ false =
          (ltb_f-false _ _).1 w.fill in
        ground arith
    | inr (p, e) ↦
        let f : ltb_f c.fill_probability lim.min_fill_probability ≡ false =
          (ltb_f-false _ _).1 w.fill in
        let b : c.capital_required ≤ℤ p = w.power p e in ground arith
  ],
)

-- All that a trade must meet. An order that involves NaN does not hold, so `¬ Below` and `¬ AtMost`
-- say exactly what the comparisons of the code refuse.
pub record Permitted (lim : GuardLimits) (ctx : GuardContext) (i : Option String) (size : Float)
    : Type 0 where
  pub trading : ctx.trading_enabled ≡ true
  pub eligibility : ctx.eligibility_passed ≡ true
  pub no_veto : ctx.snapshot_vetoes ≡ []
  pub known : IsKnown ctx.mode
  pub live_allowed : ctx.mode ≡ member live → lim.allow_live ≡ true
  pub candidate : GuardCandidate
  pub provenance : Provenance ctx i candidate
  pub local : ℕ
  pub clock : ctx.now ≡ some (aware local)
  pub after_open : lim.session_open ≤ local
  pub before_close : local ≤ lim.session_close
  pub slot : ctx.open_positions <ℤ lim.max_open_positions
  pub within : WithinLimits lim ctx candidate
  pub fresh :
      (age : Float) → ctx.quote_age_seconds ≡ some age → ¬ (Below lim.max_quote_age_seconds age)
  pub sized : ¬ (AtMost (clamp_size lim size) zero_f)
  pub contracted : pos 0 <ℤ clamp_contracts lim ctx

position_blocks-nil :
    (lim : GuardLimits) (ctx : GuardContext)
    → (position_blocks lim ctx ≡ []) ↔ (ctx.open_positions <ℤ lim.max_open_positions)
unfolding position_blocks
position_blocks-nil lim ctx = (λ h. ground arith, λ h. ground arith)

quote_blocks-nil :
    (lim : GuardLimits) (ctx : GuardContext)
    → (quote_blocks lim ctx ≡ [])
      ↔ ((age : Float) → ctx.quote_age_seconds ≡ some age → ¬ (Below lim.max_quote_age_seconds age))
unfolding quote_blocks
quote_blocks-nil lim ctx = (
  λ h age e. (ltb_f-false _ _).0 (ground arith),
  λ h. elim (Option-cases ctx.quote_age_seconds) [
    | inl e ↦ ground arith
    | inr (age, e) ↦
        let f : ltb_f lim.max_quote_age_seconds age ≡ false = (ltb_f-false _ _).1 (h age e) in
        ground arith
  ],
)

size_blocks-nil :
    (lim : GuardLimits) (ctx : GuardContext) (size : Float)
    → (size_blocks lim ctx size ≡ [])
      ↔ (¬ (AtMost (clamp_size lim size) zero_f) × (pos 0 <ℤ clamp_contracts lim ctx))
unfolding size_blocks
size_blocks-nil lim ctx size = (
  λ h. ((leb_f-false _ _).0 (ground arith), ground arith),
  λ h. let f : leb_f (clamp_size lim size) zero_f ≡ false = (leb_f-false _ _).1 h.0 in ground arith,
)

-- The groups, one by one.
all_blocks-nil :
    (lim : GuardLimits) (ctx : GuardContext) (i : Option String) (size : Float)
    → (all_blocks lim ctx i size ≡ []) ↔ (
        (gate_blocks ctx ≡ [])
        × (mode_blocks lim ctx.mode ≡ [])
        × (provenance_blocks ctx i ≡ [])
        × (session_blocks lim ctx.now ≡ [])
        × (position_blocks lim ctx ≡ [])
        × (economics_blocks lim ctx (selected ctx i) ≡ [])
        × (quote_blocks lim ctx ≡ [])
        × (size_blocks lim ctx size ≡ []))
unfolding all_blocks
all_blocks-nil lim ctx i size = (
  λ h.
      let a = (append-eq-nil _ _).0 h in
      let b = (append-eq-nil _ _).0 a.1 in
      let c = (append-eq-nil _ _).0 b.1 in
      let d = (append-eq-nil _ _).0 c.1 in
      let e = (append-eq-nil _ _).0 d.1 in
      let f = (append-eq-nil _ _).0 e.1 in
      let g = (append-eq-nil _ _).0 f.1 in (a.0, b.0, c.0, d.0, e.0, f.0, g.0, g.1),
  λ h. rw (h.0, h.1, h.2, h.3, h.4, h.5, h.6, h.7),
)

all_blocks-Permitted :
    (lim : GuardLimits) (ctx : GuardContext) (i : Option String) (size : Float)
    → all_blocks lim ctx i size ≡ []
    → Permitted lim ctx i size
all_blocks-Permitted lim ctx i size h =
    let parts = (all_blocks-nil lim ctx i size).0 h in
    let gates = (gate_blocks-nil ctx).0 parts.0 in
    let modes = (mode_blocks-nil lim ctx.mode).0 parts.1 in
    let (c, picked, proven) = provenance_blocks-nil ctx i parts.2 in
    let (t, clock, lo, hi) = (session_blocks-nil lim ctx).0 parts.3 in
    let sizes = (size_blocks-nil lim ctx size).0 parts.7 in
    record {
      trading = gates.0;
      eligibility = gates.1;
      no_veto = gates.2;
      known = modes.0;
      live_allowed = modes.1;
      candidate = c;
      provenance = proven;
      local = t;
      clock = clock;
      after_open = lo;
      before_close = hi;
      slot = (position_blocks-nil lim ctx).0 parts.4;
      within = (economics_blocks-nil lim ctx c).0 (rw picked at (parts.5));
      fresh = (quote_blocks-nil lim ctx).0 parts.6;
      sized = sizes.0;
      contracted = sizes.1;
    }

Permitted-all_blocks :
    (lim : GuardLimits) (ctx : GuardContext) (i : Option String) (size : Float)
    → Permitted lim ctx i size
    → all_blocks lim ctx i size ≡ []
Permitted-all_blocks lim ctx i size p =
    let (proven, picked) = Provenance-selected ctx i p.provenance in
    (all_blocks-nil lim ctx i size).1 (
      (gate_blocks-nil ctx).1 (p.trading, p.eligibility, p.no_veto),
      (mode_blocks-nil lim ctx.mode).1 (p.known, p.live_allowed),
      proven,
      (session_blocks-nil lim ctx).1 (p.local, p.clock, p.after_open, p.before_close),
      (position_blocks-nil lim ctx).1 p.slot,
      rw picked ((economics_blocks-nil lim ctx p.candidate).1 p.within),
      (quote_blocks-nil lim ctx).1 p.fresh,
      (size_blocks-nil lim ctx size).1 (p.sized, p.contracted),
    )

pub is_nil-eq : {A : Type 0} (xs : List A) → (is_nil xs ≡ true) ↔ (xs ≡ [])
is_nil-eq [] = (λ h. refl, λ h. refl)
is_nil-eq (x ∷ xs) = (λ h. cc, λ h. cc)

-- A trade is approved exactly when it is permitted: the guard is sound and refuses nothing more.
pub apply_execution_guard-Permitted :
    (action : String) (i : Option String) (size : Float) (ctx : GuardContext)
    (limits : Option GuardLimits)
    → is_trade action ≡ true
    → ((apply_execution_guard action i size ctx limits).approved ≡ true)
      ↔ Permitted (limits_or_default limits) ctx i size
unfolding apply_execution_guard
apply_execution_guard-Permitted action i size ctx limits h = rw h (
  λ e. all_blocks-Permitted _ ctx i size ((is_nil-eq _).0 e),
  λ p. (is_nil-eq _).1 (Permitted-all_blocks _ ctx i size p),
)
