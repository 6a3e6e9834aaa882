-- ===== src/Deployment/Cutover/Activation/Owner.antt =====
-- When a cutover of src/spy_der/deployment/cutover.py is activated, and what holds from then on.
use text.Mathlib.Text.{starts_with}
use spy_der.Prelude.{
  not_eq_false, iff_trans, some≢none, ℕ, String, ◌≡◌, refl, sym, ap, ◌∙◌, subst, ◌↔◌, ◌⊎◌, Bool,
  true, false, not, inl, inr, Option, none, some, [], ◌∷◌,
}
use spy_der.Prelude.Text.{str_eq, str_eq_iff}
use spy_der.Prelude.Effects.{Result, ok, err, ◌>>=◌, ◌>>◌}
use spy_der.Journal.Store.{InMemoryJournalStore}
use spy_der.Journal.Sealed.{IsSealed, append-IsSealed}
use spy_der.Deployment.Manifest.{DeploymentError, DeploymentManifest, DeploymentMode}
use spy_der.Deployment.Pointer.{DeploymentPointer, activate}
use spy_der.Deployment.Promotion.{raise_if}
use spy_der.Deployment.Promotion.Complete.{both_none, raise_if-none}
use spy_der.Deployment.Agent.{AgentDeploymentManifest, NotificationBus}
use spy_der.Deployment.Cutover.{
  CutoverApproval, state_error, ControlledCutover, Library, checked, built,
}
use spy_der.Deployment.Cutover.Control.{set_agent_authority, rollback_to_system_a, announced}
use spy_der.Deployment.Cutover.Control.Gate.{
  Guarded, Replaces, activate-cases, set_agent_authority-Guarded, rollback_to_system_a-Guarded,
}
use spy_der.Deployment.Cutover.Activation.{
  default_system_b_primary_manifest, default_system_a_rollback_manifest, or_default, may_lead,
  activation_error, activated, agent_made, controller, finished, activate_on,
  activate_controlled_cutover,
}

-- What the approval and the two manifests have to be.
abbrev pub Approved : CutoverApproval → DeploymentManifest → DeploymentManifest → Type 0
Approved approval primary rollback =
    (approval.phase ≡ "phase-17")
    × (((primary.mode ≡ DeploymentMode.research) ⊎ (primary.mode ≡ DeploymentMode.shadow))
        × ((starts_with primary.account_id "system_a_" ≡ false)
            × (starts_with rollback.account_id "system_a_" ≡ true)))

may_lead_iff :
    (m : DeploymentMode)
    → (may_lead m ≡ true) ↔ ((m ≡ DeploymentMode.research) ⊎ (m ≡ DeploymentMode.shadow))
may_lead_iff DeploymentMode.research = (λ h. inl refl, λ h. refl)
may_lead_iff DeploymentMode.shadow = (λ h. inr refl, λ h. refl)
may_lead_iff DeploymentMode.advisory = (λ h. cc, λ h. elim h [ inl e ↦ cc | inr e ↦ cc ])
may_lead_iff DeploymentMode.candidate = (λ h. cc, λ h. elim h [ inl e ↦ cc | inr e ↦ cc ])
may_lead_iff DeploymentMode.champion = (λ h. cc, λ h. elim h [ inl e ↦ cc | inr e ↦ cc ])
may_lead_iff DeploymentMode.frozen = (λ h. cc, λ h. elim h [ inl e ↦ cc | inr e ↦ cc ])

activation_error-none :
    (approval : CutoverApproval) (primary rollback : DeploymentManifest)
    → (activation_error approval primary rollback ≡ none) ↔ Approved approval primary rollback
unfolding activation_error
activation_error-none approval primary rollback =
    both_none (raise_if (not (str_eq approval.phase "phase-17")) _) _
      (iff_trans (raise_if-none _ _) (
        iff_trans (not_eq_false (str_eq approval.phase "phase-17"))
          (str_eq_iff approval.phase "phase-17")))
      (both_none (raise_if (not (may_lead primary.mode)) _) _
        (iff_trans (raise_if-none _ _)
          (iff_trans (not_eq_false (may_lead primary.mode)) (may_lead_iff primary.mode)))
        (both_none (raise_if (starts_with primary.account_id "system_a_") _) _ (raise_if-none _ _) (
          iff_trans (raise_if-none _ _)
            (not_eq_false (starts_with rollback.account_id "system_a_")))))

module _ (lib : Library) where
  -- The controller that an activation hands back.
  abbrev pub Activated : DeploymentManifest → DeploymentManifest → ControlledCutover → Type 0
  Activated primary rollback k =
      Guarded lib k
      × ((k.state.primary_manifest ≡ primary)
          × ((k.state.rollback_manifest ≡ rollback) × (k.pointer.history ≡ rollback ∷ [])))

  module _ (approval : CutoverApproval) (primary rollback : DeploymentManifest) (enabled : Bool)
      (journal : InMemoryJournalStore) (bus : NotificationBus) (now : ℕ)
      (sealed : IsSealed lib.hashes journal) where
    -- The end of an activation, from what the pointer answers.
    abbrev ended :
        AgentDeploymentManifest
        → Result DeploymentError DeploymentManifest × DeploymentPointer
        → Result DeploymentError ControlledCutover
    ended a z =
        let q : Result DeploymentError ControlledCutover × DeploymentPointer = elim z.0 [
          | ok m ↦
              finished lib approval (activated approval primary rollback a enabled now) enabled
                journal bus now z.1
          | err e ↦ (err e, z.1)
        ] in
        q.0

    -- What an activation comes to, from the pointer's answer.
    abbrev Ends : Type 0 → Result DeploymentError ControlledCutover → Type 0
    Ends P r =
        (P × ((k : ControlledCutover) × ((r ≡ ok k) × Activated primary rollback k)))
        ⊎ ((¬ P) × ((e : DeploymentError) × (r ≡ err e)))

    abbrev start : DeploymentPointer
    start = record { current = rollback; history = [] }

    ended-Ends :
        (a : AgentDeploymentManifest)
        → Ends (Replaces lib primary rollback) (ended a (activate primary start))
    unfolding state_error announced
    ended-Ends a = elim (activate-cases lib primary start) [
      | inr (unfit, (e, same)) ↦
          subst (λ z. Ends (Replaces lib primary rollback) (ended a z)) (sym same)
            (inr (unfit, (e, refl)))
      | inl (fit, same) ↦
          subst (λ z. Ends (Replaces lib primary rollback) (ended a z)) (sym same)
            (inl (
              fit,
              (
                controller lib (activated approval primary rollback a enabled now)
                    (record { current = primary; history = rollback ∷ [] }) journal bus approval
                    enabled now,
                (
                  refl,
                  (
                    (refl, (refl, (refl, (refl, append-IsSealed lib.hashes _ journal sealed)))),
                    (refl, (refl, refl)),
                  ),
                ),
              ),
            ))
    ]

    map-Ends :
        {P Q : Type 0} (r : Result DeploymentError ControlledCutover) → P ↔ Q → Ends P r → Ends Q r
    map-Ends r i h = elim h [ inl (p, k) ↦ inl (i.0 p, k) | inr (f, e) ↦ inr (λ q. f (i.1 q), e) ]

    abbrev Made : Result DeploymentError AgentDeploymentManifest → Type 0
    Made r = (a : AgentDeploymentManifest) × (r ≡ ok a)

    -- The steps after the first check, from what the agent's manifest comes to.
    abbrev with_made :
        Result DeploymentError AgentDeploymentManifest → Result DeploymentError ControlledCutover
    with_made r =
        ((built r >>= λ a.
        activate primary
        >> finished lib approval (activated approval primary rollback a enabled now) enabled journal
            bus now)
          start).0

    Made-Ends :
        (r : Result DeploymentError AgentDeploymentManifest)
        → Ends (Made r × Replaces lib primary rollback) (with_made r)
    Made-Ends (err e) = inr (λ h. err≢ok h.0.0 h.0.1, (e, refl))
      where
        err≢ok : (a : AgentDeploymentManifest) → ¬ (err e ≡ ok a)
        err≢ok a h = cc
    Made-Ends (ok a) =
        map-Ends (ended a (activate primary start)) (λ fit. ((a, refl), fit), λ h. h.1)
          (ended-Ends a)

    module _ (agent : Option AgentDeploymentManifest) where
      -- The steps from the first check on.
      abbrev from_check : Option DeploymentError → Result DeploymentError ControlledCutover
      from_check o =
          ((checked o
              >> (built (agent_made lib approval agent enabled) >>= λ a.
                  activate primary
                  >> finished lib approval (activated approval primary rollback a enabled now)
                      enabled journal bus now))
            start).0

      check-Ends :
          (o : Option DeploymentError)
          → Ends
              ((o ≡ none)
                × (Made (agent_made lib approval agent enabled) × Replaces lib primary rollback))
              (from_check o)
      check-Ends (some e) = inr (λ h. some≢none e h.0, (e, refl))
      check-Ends none =
          map-Ends (with_made (agent_made lib approval agent enabled)) (λ h. (refl, h), λ h. h.1)
            (Made-Ends (agent_made lib approval agent enabled))

      -- What an activation needs: the owner's approval of this phase, a primary manifest for research
      -- or shadow use outside the accounts of System A, a rollback manifest inside them that may be
      -- replaced, and an agent's manifest that its constructor accepts.
      abbrev pub Activatable : Type 0
      Activatable =
          Approved approval primary rollback
          × (Made (agent_made lib approval agent enabled) × Replaces lib primary rollback)

      pub activate_on-Ends :
          Ends Activatable
            (activate_on lib approval primary rollback agent enabled journal bus now start).0
      unfolding activate_on
      activate_on-Ends =
          map-Ends (from_check (activation_error approval primary rollback))
            (
              λ h. ((activation_error-none approval primary rollback).0 h.0, h.1),
              λ h. ((activation_error-none approval primary rollback).1 h.0, h.1),
            )
            (check-Ends (activation_error approval primary rollback))

  -- On a journal that is sealed, a cutover is activated exactly where the approval, the manifests of the
  -- two systems and the agent's manifest are in order, defaults in the place of missing ones, and else
  -- raises. The activated cutover has live execution disabled, an owner's approval, a state that passes
  -- its checks, a sealed journal, and the pointer at System B with System A as its only history.
  pub activate_controlled_cutover-Activatable :
      (approval : CutoverApproval) (system_b system_a : Option DeploymentManifest)
      (agent : Option AgentDeploymentManifest) (enabled : Bool) (journal : InMemoryJournalStore)
      (bus : NotificationBus) (now : ℕ) (sealed : IsSealed lib.hashes journal)
      → let primary = or_default system_b (default_system_b_primary_manifest "") in
        let rollback = or_default system_a (default_system_a_rollback_manifest "") in
        let r =
          activate_controlled_cutover lib approval system_b system_a agent enabled journal bus
            now in
        (Activatable approval primary rollback enabled journal bus now sealed agent
          × ((k : ControlledCutover) × ((r ≡ ok k) × Activated primary rollback k)))
        ⊎ ((¬ (Activatable approval primary rollback enabled journal bus now sealed agent))
            × ((e : DeploymentError) × (r ≡ err e)))
  unfolding activate_controlled_cutover
  activate_controlled_cutover-Activatable approval system_b system_a agent enabled journal bus now
        sealed =
      activate_on-Ends approval (or_default system_b (default_system_b_primary_manifest ""))
        (or_default system_a (default_system_a_rollback_manifest "")) enabled journal bus now sealed
        agent

  -- A cutover that came about by an activation, with a sealed journal, and uses of it.
  pub data Reached : ControlledCutover → Type 0 where
    activation :
        (approval : CutoverApproval) (system_b system_a : Option DeploymentManifest)
        (agent : Option AgentDeploymentManifest) (enabled : Bool) (journal : InMemoryJournalStore)
        (bus : NotificationBus) (now : ℕ) {k : ControlledCutover}
        → IsSealed lib.hashes journal
        → activate_controlled_cutover lib approval system_b system_a agent enabled journal bus now
          ≡ ok k
        → Reached k
    authority :
        (enabled : Bool) (m : Option AgentDeploymentManifest) (now : ℕ) {k : ControlledCutover}
        → Reached k
        → Reached (set_agent_authority lib enabled m now k).1
    return :
        (reason : String) (now : ℕ) {k : ControlledCutover}
        → Reached k
        → Reached (rollback_to_system_a lib reason now k).1

  ok-injective :
      (k j : ControlledCutover)
      → ◌≡◌ {A = Result DeploymentError ControlledCutover} (ok k) (ok j)
      → k ≡ j
  ok-injective k j h =
      ap {A = Result DeploymentError ControlledCutover} (λ r. elim r [ ok x ↦ x | err e ↦ k ]) h

  err≢ok : (e : DeploymentError) (k : ControlledCutover) → ¬ (err e ≡ ok k)
  err≢ok e k h = cc

  -- However a cutover came about and was used, with whatever arguments and however the calls ended:
  -- live execution is disabled, the state passes the checks of its constructor, an owner has approved,
  -- the pointer stands at the primary manifest, and the journal is sealed.
  pub Reached-Guarded : {k : ControlledCutover} → Reached k → Guarded lib k
  Reached-Guarded (activation approval b a agent enabled journal bus now {k} sealed h) =
      elim (activate_controlled_cutover-Activatable approval b a agent enabled journal bus now
        sealed) [
          | inl (_, (j, (same, done))) ↦
              subst (λ z. Guarded lib z) (ok-injective j k (sym same ∙ h)) done.0
          | inr (_, (e, raised)) ↦ absurd (err≢ok e k (sym raised ∙ h))
        ]
  Reached-Guarded (authority enabled m now {k} r) =
      set_agent_authority-Guarded lib enabled m now k (Reached-Guarded r)
  Reached-Guarded (return reason now {k} r) =
      rollback_to_system_a-Guarded lib reason now k (Reached-Guarded r)
