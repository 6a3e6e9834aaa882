-- ===== src/Deployment/Cutover/Control/Return.antt =====
-- Going back to System A, in src/spy_der/deployment/cutover.py, once and again.
use mathlib.Core.List.{◌++◌ as ◌+++◌}
use spy_der.Prelude.{ℕ, String, ◌≡◌, refl, sym, ap, ◌∙◌, subst, false, not, inl, inr, [], ◌∷◌}
use spy_der.Prelude.Text.{is_white}
use spy_der.Prelude.Effects.{ok, require_met}
use spy_der.Deployment.Manifest.{DeploymentError, DeploymentManifest}
use spy_der.Deployment.Pointer.{DeploymentPointer, activate}
use spy_der.Deployment.Pointer.History.{Valid, make_manifest-Valid}
use spy_der.Deployment.Cutover.{RuntimeSystem, state_error, ControlledCutover, Library}
use spy_der.Deployment.Cutover.Control.{
  announced, last_of, returned, going_back, going, go_back, rollback_to_system_a,
}
use spy_der.Deployment.Cutover.Control.Gate.{Replaces, activate-cases, moved}

module _ (lib : Library) where
  -- The pointer after a rollback.
  abbrev pointer_back : String → ControlledCutover → DeploymentPointer
  pointer_back reason k = record {
    current = going_back lib reason k.state;
    history = k.pointer.history +++ (k.pointer.current ∷ []);
  }

  activate-back :
      (reason : String) (k : ControlledCutover)
      → Replaces lib (going_back lib reason k.state) k.pointer.current
      → activate (going_back lib reason k.state) k.pointer
        ≡ (ok (going_back lib reason k.state), pointer_back reason k)
  activate-back reason k fit = elim (activate-cases lib (going_back lib reason k.state) k.pointer) [
    | inl (_, same) ↦ same
    | inr (unfit, _) ↦ absurd (unfit fit)
  ]

  -- What a rollback leaves, where it has a reason and the manifest may take the place of the current.
  rollback-after :
      (reason : String) (now : ℕ) (k : ControlledCutover)
      → is_white reason ≡ false
      → Valid k.state.rollback_manifest
      → Replaces lib (going_back lib reason k.state) k.pointer.current
      → let k1 = (rollback_to_system_a lib reason now k).1 in
        (k1.state
          ≡ returned lib k
              (last_of lib k.pointer.current k.pointer.history)
              reason
              now
              (going_back lib reason k.state))
        × (k1.pointer ≡ pointer_back reason k)
  unfolding rollback_to_system_a state_error announced
  rollback-after reason now k some_reason valid fit =
      let m : DeploymentManifest = going_back lib reason k.state in
      let run =
        require_met (not (is_white reason)) DeploymentError.reason_required (go_back lib reason now)
          k (ap not some_reason)
        ∙ ap (λ r. going lib reason now k r k) (make_manifest-Valid lib.manifest_hash m valid)
        ∙ ap (moved lib reason now k) (activate-back reason k fit) in
      (ap (λ z. z.1.state) run, ap (λ z. z.1.pointer) run)

  thawed-Replaces :
      (m current : DeploymentManifest) → current.frozen ≡ false → Replaces lib m current
  thawed-Replaces m current h = rw h refl

  -- A rollback, for a reason that is not blank, from a deployment that is not frozen, puts the rollback
  -- manifest in force. A second one, where that is not frozen either, puts the manifest in force that
  -- was primary before the first, and still says that System A is primary.
  pub rollback_to_system_a-twice :
      (r1 r2 : String) (t1 t2 : ℕ) (k : ControlledCutover)
      → is_white r1 ≡ false
      → is_white r2 ≡ false
      → Valid k.state.primary_manifest
      → Valid k.state.rollback_manifest
      → k.pointer.current.frozen ≡ false
      → k.state.rollback_manifest.frozen ≡ false
      → let k1 = (rollback_to_system_a lib r1 t1 k).1 in
        let k2 = (rollback_to_system_a lib r2 t2 k1).1 in
        (k1.state.primary ≡ RuntimeSystem.system_a)
        × ((k1.pointer.current.deployment_id ≡ k.state.rollback_manifest.deployment_id)
            × ((k2.state.primary ≡ RuntimeSystem.system_a)
                × (k2.pointer.current.deployment_id ≡ k.state.primary_manifest.deployment_id)))
  rollback_to_system_a-twice r1 r2 t1 t2 k w1 w2 vp vr live live' =
      let k1 : ControlledCutover = (rollback_to_system_a lib r1 t1 k).1 in
      let once =
        rollback-after r1 t1 k w1 vr
          (thawed-Replaces (going_back lib r1 k.state) k.pointer.current live) in
      let valid : Valid k1.state.rollback_manifest =
        subst (λ s. Valid s.rollback_manifest) (sym once.0) vp in
      let thawed : k1.pointer.current.frozen ≡ false = ap (λ p. p.current.frozen) once.1 ∙ live' in
      let again =
        rollback-after r2 t2 k1 w2 valid
          (thawed-Replaces (going_back lib r2 k1.state) k1.pointer.current thawed) in
      (
        ap (λ s. s.primary) once.0,
        (
          ap (λ p. p.current.deployment_id) once.1,
          (
            ap (λ s. s.primary) again.0,
            ap (λ p. p.current.deployment_id) again.1
                ∙ ap (λ s. s.rollback_manifest.deployment_id) once.0,
          ),
        ),
      )
