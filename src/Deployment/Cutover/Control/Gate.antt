-- ===== src/Deployment/Cutover/Control/Gate.antt =====
-- What every cutover of src/spy_der/deployment/cutover.py keeps to.
use mathlib.Core.List.{◌++◌ as ◌+++◌}
use spy_der.Prelude.{
  true≢false, ◌⊎◌, ℕ, String, ◌≡◌, refl, sym, ◌∙◌, subst, Bool, false, not, ◌&&◌, Bool-cases, inl,
  inr, Option, none, some, [], ◌∷◌,
}
use spy_der.Prelude.Text.{is_white, str_eq}
use spy_der.Prelude.Effects.{Result, ok, err, ◌>>=◌, ◌>>◌}
use spy_der.Journal.Chain.{JournalEvent}
use spy_der.Journal.Sealed.{IsSealed, append-IsSealed}
use spy_der.Deployment.Manifest.{DeploymentError, DeploymentManifest, make_manifest}
use spy_der.Deployment.Pointer.{DeploymentPointer, activate}
use spy_der.Deployment.Agent.{AgentDeploymentManifest, NotificationLevel}
use spy_der.Deployment.Cutover.{
  CutoverState, is_missing, state_error, ControlledCutover, Library, checked, built,
}
use spy_der.Deployment.Cutover.Control.{
  agent_for, announced, concluded, with_agent, authorize, last_of, return_to, going_back, going,
  set_agent_authority, returned, rollback_to_system_a,
}

module _ (lib : Library) where
  -- Live execution is disabled, the state passes the checks of its constructor, an owner has approved,
  -- the pointer stands at the primary manifest, and the journal verifies.
  abbrev pub Guarded : ControlledCutover → Type 0
  Guarded k =
      (k.state.live_execution.enabled ≡ false)
      × ((state_error k.state ≡ none)
          × ((is_missing k.state.approval ≡ false)
              × ((k.pointer.current ≡ k.state.primary_manifest) × IsSealed lib.hashes k.journal)))

  pub announced-Guarded :
      (e : JournalEvent) (level : NotificationLevel) (topic message : String)
      (k : ControlledCutover)
      → Guarded k
      → Guarded (announced lib e level topic message k)
  unfolding announced
  announced-Guarded e level topic message k (live, (fine, (owner, (at, sealed)))) =
      (live, (fine, (owner, (at, append-IsSealed lib.hashes e k.journal sealed))))

  concluded-Guarded :
      (e : JournalEvent) (level : NotificationLevel) (topic message : String) (s : CutoverState)
      (k : ControlledCutover)
      → Guarded (record k { state = s })
      → (o : Option DeploymentError) → o ≡ none
      → Guarded ((checked o >> concluded lib e level topic message s) k).1
  concluded-Guarded e level topic message s k h none z =
      announced-Guarded e level topic message (record k { state = s }) h
  concluded-Guarded e level topic message s k h (some x) z = cc

  pub set_agent_authority-Guarded :
      (enabled : Bool) (m : Option AgentDeploymentManifest) (now : ℕ) (k : ControlledCutover)
      → Guarded k
      → Guarded (set_agent_authority lib enabled m now k).1
  unfolding set_agent_authority state_error
  set_agent_authority-Guarded enabled m now k h =
      made (agent_for enabled m k.state.agent_authority.manifest)
    where
      made :
          (r : Result DeploymentError AgentDeploymentManifest)
          → Guarded ((built r >>= authorize lib enabled now k.state) k).1
      made (err e) = h
      made (ok a) =
          let s : CutoverState = with_agent lib enabled a k.state in
          concluded-Guarded _ NotificationLevel.info "cutover.agent_authority" _ s k
            (h.0, (h.1.0, (h.1.1.0, (h.1.1.1.0, h.1.1.1.1)))) (state_error s) h.1.0

  -- Whether a manifest may take the place of another.
  abbrev pub Replaces : DeploymentManifest → DeploymentManifest → Type 0
  Replaces m current =
      (current.frozen && not (str_eq m.deployment_id current.deployment_id)) ≡ false

  pub activate-cases :
      (m : DeploymentManifest) (p : DeploymentPointer)
      → (Replaces m p.current
          × (activate m p
              ≡ (ok m, record { current = m; history = p.history +++ (p.current ∷ []) })))
        ⊎ ((¬ (Replaces m p.current)) × ((e : DeploymentError) × (activate m p ≡ (err e, p))))
  unfolding activate
  activate-cases m p =
      elim (Bool-cases (p.current.frozen && not (str_eq m.deployment_id p.current.deployment_id))) [
        | inl e ↦
            inr (λ h. true≢false (sym e ∙ h), (DeploymentError.deployment_is_frozen, rw e refl))
        | inr e ↦ inl (e, rw e refl)
      ]

  -- The end of a rollback, from what the pointer answers.
  abbrev pub moved :
      String
      → ℕ
      → ControlledCutover
      → Result DeploymentError DeploymentManifest × DeploymentPointer
      → Result DeploymentError CutoverState × ControlledCutover
  moved reason now k z = elim z.0 [
    | ok a ↦ return_to lib reason now k a (record k { pointer = z.1 })
    | err e ↦ (err e, record k { pointer = z.1 })
  ]

  moved-Guarded :
      (reason : String) (now : ℕ) (k : ControlledCutover) (m : DeploymentManifest)
      → Guarded k
      → Guarded (moved reason now k (activate m k.pointer)).1
  unfolding state_error
  moved-Guarded reason now k m h = elim (activate-cases m k.pointer) [
    | inr (_, (e, same)) ↦ subst (λ z. Guarded (moved reason now k z).1) (sym same) h
    | inl (_, same) ↦
        let p : DeploymentPointer = record {
          current = m;
          history = k.pointer.history +++ (k.pointer.current ∷ []);
        } in
        let s : CutoverState =
          returned lib k (last_of lib k.pointer.current k.pointer.history) reason now m in
        subst (λ z. Guarded (moved reason now k z).1) (sym same)
          (concluded-Guarded _ NotificationLevel.critical "cutover.rollback" _ s
            (record k { pointer = p }) (refl, (refl, (h.1.1.0, (refl, h.1.1.1.1)))) (state_error s)
            refl)
  ]

  pub rollback_to_system_a-Guarded :
      (reason : String) (now : ℕ) (k : ControlledCutover)
      → Guarded k
      → Guarded (rollback_to_system_a lib reason now k).1
  unfolding rollback_to_system_a
  rollback_to_system_a-Guarded reason now k h = elim (Bool-cases (is_white reason)) [
    | inl e ↦ rw e h
    | inr e ↦ rw e (made (make_manifest lib.manifest_hash (going_back lib reason k.state)))
  ]
    where
      made :
          (r : Result DeploymentError DeploymentManifest) → Guarded (going lib reason now k r k).1
      made (err e) = h
      made (ok m) = moved-Guarded reason now k m h
