-- ===== src/Positions/Exits/Signals.antt =====
-- Why `evaluate_exit` of src/spy_der/positions/exits.py says what it says.
use spy_der.Prelude.{
  and_iff, false≢true, ℕ, ◌-◌, ◌*◌, ◌≤◌, ◌<◌, String, ◌≡◌, refl, sym, ◌∙◌, ◌↔◌, ◌⊎◌, inl, inr, Bool,
  true, false, ◌&&◌, ◌||◌, Option, none, some, arith, if◌then◌else◌, Bool-cases, leb, eqb,
}
use spy_der.Prelude.Int.{ℤ, pos, ◌-ℤ◌, eqb_ℤ}
use spy_der.Prelude.Float.{real, zero_f, ltb_f, leb_f, ltb_f-true, leb_f-true, Below, AtMost}
use spy_der.Prelude.Text.{str_eq}
use spy_der.Prelude.Effects.{Result, ok}
use spy_der.Execution.Contracts.{Fault}
use spy_der.Positions.Contracts.{PositionState, ExitPolicy, profit_ratio, trailing, eod_exit}
use spy_der.Positions.Exits.{
  ExitReason, flat, emergency_now, expiration, structural_ras, no_entry, target, stop, trail,
  time_limit, eod, hold, ExitSignal, ExitCall, neg_f, follows_ras, takes_profit, stops_loss,
  target_hit, stop_hit, trail_hit, held_for, eod_time, signal, eod_hit, on_ratio, on_ratio_result,
  on_entry, on_policy, evaluate_exit,
}

-- The part of the entry price gained, positive for a profit whichever way the structure was opened.
abbrev gain : (ℤ → ℤ → ℤ) → ℤ → ℤ → Bool → ℤ
gain decimal_div entry mark true = pos 0 -ℤ decimal_div (mark -ℤ entry) entry
gain decimal_div entry mark false = decimal_div (mark -ℤ entry) entry

abbrev pub EntryOf : Option ℤ → (ℤ → Type 0) → Type 0
EntryOf none P = ⊥
EntryOf (some e) P = (eqb_ℤ e (pos 0) ≡ false) × P e

abbrev pub HeldFor : Option ℕ → ℕ → ℕ → Type 0
HeldFor none now m = ⊥
HeldFor (some at) now m = (0 < m) × (m * 60000000 ≤ now - at)

module _ (decimal_div : ℤ → ℤ → ℤ) (et_time : ℕ → ℕ) (p : ExitPolicy) (q : PositionState)
    (c : ExitCall) where
  abbrev Gained : Option ℤ → (ℤ → Type 0) → Type 0
  Gained entry P = EntryOf entry (λ e. P (gain decimal_div e c.mark_price q.opened_for_credit))

  -- What has to hold for each exit, of an entry price.
  abbrev DueAt : Option ℤ → ExitReason → Type 0
  DueAt entry emergency_now = c.emergency ≡ true
  DueAt entry expiration = c.expired ≡ true
  DueAt entry structural_ras = (c.ras_exit ≡ true) × (follows_ras p ≡ true)
  DueAt entry target = Gained entry (λ r.
      (takes_profit p ≡ true)
      × (Below zero_f p.take_profit_ratio × AtMost p.take_profit_ratio (real r)))
  DueAt entry stop = Gained entry (λ r.
      (stops_loss p ≡ true)
      × (Below zero_f p.stop_loss_ratio × AtMost (real r) (neg_f p.stop_loss_ratio)))
  DueAt entry trail = Gained entry (λ r.
      (str_eq p.policy_id trailing ≡ true)
      × (AtMost p.trailing_arm_ratio (real q.peak_pnl)
          × AtMost p.trailing_giveback_ratio (real (q.peak_pnl -ℤ r))))
  DueAt entry time_limit = Gained entry (λ r. HeldFor q.opened_at c.now p.max_holding_minutes)
  DueAt entry eod = Gained entry (λ r.
      ((p.eod_close ≡ true) ⊎ (str_eq p.policy_id eod_exit ≡ true)) × (eod_time ≤ et_time c.now))
  DueAt entry flat = ⊥
  DueAt entry no_entry = ⊥
  DueAt entry hold = ⊥

  abbrev pub Due : ExitReason → Type 0
  Due = DueAt q.entry_price

or_iff : {P Q : Type 0} (a b : Bool) → (a ≡ true) ↔ P → (b ≡ true) ↔ Q → (a || b ≡ true) ↔ (P ⊎ Q)
or_iff true b i j = (λ h. inl (i.0 refl), λ h. refl)
or_iff false b i j =
    (λ h. inr (j.0 h), λ h. elim h [ inl x ↦ absurd (false≢true (i.1 x)) | inr y ↦ j.1 y ])

same : {P : Type 0} → P ↔ P
same = (λ h. h, λ h. h)

-- A signal to exit names something that is due, and one to stay says that nothing is.
abbrev pub Right : (ExitReason → Type 0) → ExitSignal → Type 0
Right D s =
    (s.should_exit ≡ true → D s.reason) × (s.should_exit ≡ false → (x : ExitReason) → ¬ (D x))

chain-Right :
    (D : ExitReason → Type 0) (t s r h e : Bool) (i : String)
    → (t ≡ true) ↔ D target
    → (s ≡ true) ↔ D stop
    → (r ≡ true) ↔ D trail
    → (h ≡ true) ↔ D time_limit
    → (e ≡ true) ↔ D eod
    → ¬ (D emergency_now)
    → ¬ (D expiration)
    → ¬ (D structural_ras)
    → ¬ (D flat)
    → ¬ (D no_entry)
    → ¬ (D hold)
    → Right D (
        if t
        then signal true target i
        else if s
        then signal true stop i
        else if r
        then signal true trail i
        else if h
        then signal true time_limit i
        else if e
        then signal true eod i
        else signal false hold i)
chain-Right D true s r h e i t1 s1 r1 h1 e1 a b c d f g = (λ z. t1.0 refl, λ z. cc)
chain-Right D false true r h e i t1 s1 r1 h1 e1 a b c d f g = (λ z. s1.0 refl, λ z. cc)
chain-Right D false false true h e i t1 s1 r1 h1 e1 a b c d f g = (λ z. r1.0 refl, λ z. cc)
chain-Right D false false false true e i t1 s1 r1 h1 e1 a b c d f g = (λ z. h1.0 refl, λ z. cc)
chain-Right D false false false false true i t1 s1 r1 h1 e1 a b c d f g = (λ z. e1.0 refl, λ z. cc)
chain-Right D false false false false false i t1 s1 r1 h1 e1 a b c d f g = (
  λ z. cc,
  λ z x. elim x as (λ k. ¬ (D k)) [
    | flat ↦ d
    | emergency_now ↦ a
    | expiration ↦ b
    | structural_ras ↦ c
    | no_entry ↦ f
    | target ↦ λ k. false≢true (t1.1 k)
    | stop ↦ λ k. false≢true (s1.1 k)
    | trail ↦ λ k. false≢true (r1.1 k)
    | time_limit ↦ λ k. false≢true (h1.1 k)
    | eod ↦ λ k. false≢true (e1.1 k)
    | hold ↦ g
  ],
)

-- The tests on the ratio, as statements.
target_iff :
    (p : ExitPolicy) (r : ℤ)
    → (target_hit p r ≡ true) ↔ (
        (takes_profit p ≡ true)
        × (Below zero_f p.take_profit_ratio × AtMost p.take_profit_ratio (real r)))
target_iff p r = and_iff (takes_profit p) _ same (
    and_iff (ltb_f zero_f p.take_profit_ratio) _ (ltb_f-true zero_f p.take_profit_ratio)
      (leb_f-true p.take_profit_ratio (real r)))

stop_iff :
    (p : ExitPolicy) (r : ℤ)
    → (stop_hit p r ≡ true) ↔ (
        (stops_loss p ≡ true)
        × (Below zero_f p.stop_loss_ratio × AtMost (real r) (neg_f p.stop_loss_ratio)))
stop_iff p r = and_iff (stops_loss p) _ same (
    and_iff (ltb_f zero_f p.stop_loss_ratio) _ (ltb_f-true zero_f p.stop_loss_ratio)
      (leb_f-true (real r) (neg_f p.stop_loss_ratio)))

trail_iff :
    (p : ExitPolicy) (peak r : ℤ)
    → (trail_hit p peak r ≡ true) ↔ (
        (str_eq p.policy_id trailing ≡ true)
        × (AtMost p.trailing_arm_ratio (real peak)
            × AtMost p.trailing_giveback_ratio (real (peak -ℤ r))))
trail_iff p peak r = and_iff (str_eq p.policy_id trailing) _ same (
    and_iff (leb_f p.trailing_arm_ratio (real peak)) _ (leb_f-true p.trailing_arm_ratio (real peak))
      (leb_f-true p.trailing_giveback_ratio (real (peak -ℤ r))))

held_iff :
    (p : ExitPolicy) (now : ℕ) (at : Option ℕ)
    → (held_for p now at ≡ true) ↔ HeldFor at now p.max_holding_minutes
held_iff p now none = (λ h. cc, λ h. absurd h)
held_iff p now (some at) = (λ h. ground arith, λ h. ground arith)

given_iff :
    {P : Type 0} {z : Bool} (t : Bool) → z ≡ false → (t ≡ true) ↔ P → (t ≡ true) ↔ ((z ≡ false) × P)
given_iff t h i = (λ k. (h, i.0 k), λ k. i.1 k.1)

leb_iff : (a b : ℕ) → (leb a b ≡ true) ↔ (a ≤ b)
leb_iff a b = (λ h. ground arith, λ h. ground arith)

profit_ratio-eq :
    (d : ℤ → ℤ → ℤ) (e mark : ℤ) (b : Bool)
    → eqb_ℤ e (pos 0) ≡ false
    → profit_ratio d e mark b ≡ ok (gain d e mark b)
unfolding profit_ratio
profit_ratio-eq d e mark true h = rw h refl
profit_ratio-eq d e mark false h = rw h refl

module _ (decimal_div : ℤ → ℤ → ℤ) (et_time : ℕ → ℕ) (p : ExitPolicy) (q : PositionState)
    (c : ExitCall) where
  abbrev RightAt : Option ℤ → ExitSignal → Type 0
  RightAt entry = Right (DueAt decimal_div et_time p q c entry)

  on_ratio-Right :
      (e : ℤ)
      → eqb_ℤ e (pos 0) ≡ false
      → c.emergency ≡ false
      → c.expired ≡ false
      → (c.ras_exit && follows_ras p) ≡ false
      → RightAt (some e) (
          on_ratio decimal_div et_time p q c.now
            (gain decimal_div e c.mark_price q.opened_for_credit))
  unfolding on_ratio
  on_ratio-Right e h calm live quiet =
      let r : ℤ = gain decimal_div e c.mark_price q.opened_for_credit in
      chain-Right (DueAt decimal_div et_time p q c (some e)) (target_hit p r) (stop_hit p r)
        (trail_hit p q.peak_pnl r) (held_for p c.now q.opened_at)
        (eod_hit decimal_div et_time p c.now) p.policy_id
        (given_iff (target_hit p r) h (target_iff p r)) (given_iff (stop_hit p r) h (stop_iff p r))
        (given_iff (trail_hit p q.peak_pnl r) h (trail_iff p q.peak_pnl r))
        (given_iff (held_for p c.now q.opened_at) h (held_iff p c.now q.opened_at))
        (given_iff (eod_hit decimal_div et_time p c.now) h (
          and_iff (p.eod_close || str_eq p.policy_id eod_exit) _ (or_iff p.eod_close _ same same)
            (leb_iff eod_time (et_time c.now))))
        (λ k. cc) (λ k. cc)
        (λ k. false≢true (sym quiet ∙ (and_iff c.ras_exit (follows_ras p) same same).1 k)) (λ k. k)
        (λ k. k) (λ k. k)

  -- With no entry price to go by, nothing but the caller's flags is due.
  stay-Right :
      (x : ExitReason)
      → c.emergency ≡ false
      → c.expired ≡ false
      → (c.ras_exit && follows_ras p) ≡ false
      → (entry : Option ℤ) → ((e : ℤ) → entry ≡ some e → eqb_ℤ e (pos 0) ≡ true)
      → RightAt entry (signal false x "")
  stay-Right x calm live quiet none flat_entry = (
    λ z. cc,
    λ z y. elim y as (λ k. ¬ (DueAt decimal_div et_time p q c none k)) [
      | emergency_now ↦ λ k. cc
      | expiration ↦ λ k. cc
      | structural_ras ↦
          λ k. false≢true (sym quiet ∙ (and_iff c.ras_exit (follows_ras p) same same).1 k)
      | _ ↦ λ k. k
    ],
  )
  stay-Right x calm live quiet (some e) flat_entry = (
    λ z. cc,
    λ z y. elim y as (λ k. ¬ (DueAt decimal_div et_time p q c (some e) k)) [
      | emergency_now ↦ λ k. cc
      | expiration ↦ λ k. cc
      | structural_ras ↦
          λ k. false≢true (sym quiet ∙ (and_iff c.ras_exit (follows_ras p) same same).1 k)
      | flat ↦ λ k. k
      | no_entry ↦ λ k. k
      | hold ↦ λ k. k
      | _ ↦ λ k. false≢true (sym k.0 ∙ flat_entry e refl)
    ],
  )

  abbrev Answers : Option ℤ → Result Fault ExitSignal → Type 0
  Answers entry a = (s : ExitSignal) × ((a ≡ ok s) × RightAt entry s)

  on_entry-Right :
      c.emergency ≡ false
      → c.expired ≡ false
      → (c.ras_exit && follows_ras p) ≡ false
      → (entry : Option ℤ) → Answers entry (on_entry decimal_div et_time p q c entry)
  unfolding on_entry on_ratio_result
  on_entry-Right calm live quiet none =
      (signal false no_entry "", (refl, stay-Right no_entry calm live quiet none (λ e k. cc)))
  on_entry-Right calm live quiet (some e) = elim (Bool-cases (eqb_ℤ e (pos 0))) [
    | inl h ↦ (
      signal false no_entry "",
      (rw h refl, stay-Right no_entry calm live quiet (some e) (λ x k. ground (arith, h, k))),
    )
    | inr h ↦ (
      on_ratio decimal_div et_time p q c.now (gain decimal_div e c.mark_price q.opened_for_credit),
      (
        rw (h, profit_ratio-eq decimal_div e c.mark_price q.opened_for_credit h) refl,
        on_ratio-Right e h calm live quiet,
      ),
    )
  ]

  -- An approved policy's evaluation of a position that holds contracts always gives a signal. A signal
  -- to exit names a reason that is due: the caller's flags, or what the signed gain, the peak, the
  -- holding time or the clock say against the policy's thresholds. A signal to stay is given only
  -- where no reason at all is due.
  pub evaluate_exit-Right :
      0 < q.open_contracts
      → (s : ExitSignal) × ((evaluate_exit decimal_div et_time q c (some p) ≡ ok s)
          × Right (Due decimal_div et_time p q c) s)
  unfolding evaluate_exit on_policy
  evaluate_exit-Right held =
      let full : eqb q.open_contracts 0 ≡ false = ground arith in
      elim (Bool-cases c.emergency) [
        | inl a ↦ (signal true emergency_now p.policy_id, (rw (full, a) refl, (λ z. a, λ z. cc)))
        | inr a ↦ elim (Bool-cases c.expired) [
          | inl b ↦ (signal true expiration p.policy_id, (rw (full, a, b) refl, (λ z. b, λ z. cc)))
          | inr b ↦ elim (Bool-cases (c.ras_exit && follows_ras p)) [
            | inl d ↦ (
              signal true structural_ras p.policy_id,
              (
                rw (full, a, b, d) refl,
                (λ z. (and_iff c.ras_exit (follows_ras p) same same).0 d, λ z. cc),
              ),
            )
            | inr d ↦
                let answer = on_entry-Right a b d q.entry_price in
                (answer.0, (rw (full, a, b, d) answer.1.0, answer.1.1))
          ]
        ]
      ]
