-- ===== src/Deployment/Pointer/History.antt =====
-- Rolling back what was activated, in src/spy_der/deployment/rollback.py.
use Prim.Native.String.{◌++◌}
use mathlib.Core.List.{◌++◌ as ◌+++◌}
use spy_der.Prelude.{
  String, ◌≡◌, refl, sym, ap, ◌∙◌, subst, ◌≢◌, true, false, not, none, some, List, [], ◌∷◌, arith,
  length,
}
use spy_der.Prelude.Text.{str_eq_ne, is_blank, str_eq_iff, elem}
use spy_der.Prelude.Effects.{ok, err, require_met, require_failed}
use spy_der.Deployment.Manifest.{
  DeploymentMode, DeploymentError, DeploymentManifest, ManifestHash, fallback_policies,
  make_manifest,
}
use spy_der.Deployment.Pointer.{
  DeploymentPointer, pop_last, noted, activate, put_in_force, put_back, freeze_deployment, thawed,
  restored, rollback_deployment,
}

-- A manifest as its constructor leaves it.
abbrev pub Valid : DeploymentManifest → Type 0
Valid m = (elem m.fallback_policy fallback_policies ≡ true) × (is_blank m.deployment_id ≡ false)

-- A manifest that is not frozen.
abbrev pub Live : DeploymentManifest → Type 0
Live m = Valid m × ((m.frozen ≡ false) × (m.mode ≢ DeploymentMode.frozen))

pop_last-append :
    (ms : List DeploymentManifest) (m : DeploymentManifest)
    → pop_last (ms +++ (m ∷ [])) ≡ some (ms, m)
unfolding pop_last
pop_last-append [] m = refl
pop_last-append (n ∷ []) m = refl
pop_last-append (n ∷ (k ∷ ms)) m =
    ap (λ o. elim o [ none ↦ none | some (rest, last) ↦ some (n ∷ rest, last) ])
      (pop_last-append (k ∷ ms) m)

pub make_manifest-Valid :
    (h : ManifestHash) (m : DeploymentManifest) → Valid m → make_manifest h m ≡ ok m
unfolding make_manifest
make_manifest-Valid h m v = rw (v.0, v.1) refl

thawed-same : (m : DeploymentMode) → m ≢ DeploymentMode.frozen → thawed m ≡ m
thawed-same DeploymentMode.research h = refl
thawed-same DeploymentMode.shadow h = refl
thawed-same DeploymentMode.advisory h = refl
thawed-same DeploymentMode.candidate h = refl
thawed-same DeploymentMode.champion h = refl
thawed-same DeploymentMode.frozen h = absurd (h refl)

-- The same manifest, but for its notes and the deployment that it names as the one before.
abbrev pub SameDeployment : DeploymentManifest → DeploymentManifest → Type 0
SameDeployment m n =
    n ≡ record m { notes = n.notes; previous_deployment_id = n.previous_deployment_id }

module _ (h : ManifestHash) where
  rollback-eq :
      (reason : String) (c m : DeploymentManifest) (ms : List DeploymentManifest)
      → Live m
      → rollback_deployment h reason (record { current = c; history = ms +++ (m ∷ []) }) ≡ (
        ok (restored m reason c.deployment_id),
        record { current = restored m reason c.deployment_id; history = ms },
      )
  unfolding rollback_deployment
  rollback-eq reason c m ms live = rw (pop_last-append ms m) (
      require_met (not m.frozen) DeploymentError.rollback_target_frozen (put_back h reason m)
        (record { current = c; history = ms }) (ap not live.1.0)
      ∙ ap (λ r. put_in_force r (record { current = c; history = ms }))
          (make_manifest-Valid h (restored m reason c.deployment_id) live.0))

  restored-Same :
      (m : DeploymentManifest) (reason from : String)
      → Live m
      → SameDeployment m (restored m reason from)
  restored-Same m reason from live =
      ap
        (λ mode. record m {
          mode = mode;
          frozen = false;
          notes = noted m ("rollback:" ++ reason);
          previous_deployment_id = some from;
        })
        (thawed-same m.mode live.1.1)
      ∙ ap
          (λ z. record m {
            frozen = z;
            notes = noted m ("rollback:" ++ reason);
            previous_deployment_id = some from;
          })
          (sym live.1.0)

  activate-eq :
      (m c : DeploymentManifest) (ms : List DeploymentManifest)
      → c.frozen ≡ false
      → (activate m (record { current = c; history = ms })).1
        ≡ record { current = m; history = ms +++ (c ∷ []) }
  unfolding activate
  activate-eq m c ms live = rw live refl

  -- A row of activations, and a row of rollbacks, whatever they return.
  abbrev pub activate_all : List DeploymentManifest → DeploymentPointer → DeploymentPointer
  activate_all [] p = p
  activate_all (m ∷ ms) p = activate_all ms (activate m p).1

  abbrev pub rollback_all : List String → DeploymentPointer → DeploymentPointer
  rollback_all [] p = p
  rollback_all (r ∷ rs) p = (rollback_deployment h r (rollback_all rs p)).1

  abbrev pub AllLive : List DeploymentManifest → Type 0
  AllLive [] = Unit {0}
  AllLive (m ∷ ms) = Live m × AllLive ms

  rolled_back :
      (r : String) (c : DeploymentManifest) (hs : List DeploymentManifest) (q : DeploymentPointer)
      → Live c
      → q.history ≡ hs +++ (c ∷ [])
      → (rollback_deployment h r q).1
        ≡ record { current = restored c r q.current.deployment_id; history = hs }
  rolled_back r c hs q live same =
      ap (λ k. (rollback_deployment h r (record { current = q.current; history = k })).1) same
      ∙ ap (λ k. k.1) (rollback-eq r q.current c hs live)

  -- After any number of activations of manifests that are not frozen, as many rollbacks put the
  -- manifest in force that was in force before, but for its notes and the deployment that it names as
  -- the one before, and leave the history as it was; where no manifest in play is frozen.
  pub rollback_all-activate_all :
      (ms : List DeploymentManifest) (rs : List String) (c : DeploymentManifest)
      (hs : List DeploymentManifest)
      → length rs ≡ length ms
      → Live c
      → AllLive ms
      → let q = rollback_all rs (activate_all ms (record { current = c; history = hs })) in
        SameDeployment c q.current × (q.history ≡ hs)
  rollback_all-activate_all [] [] c hs same live lives = (refl, refl)
  rollback_all-activate_all [] (r ∷ rs) c hs same live lives = absurd (omega arith)
  rollback_all-activate_all (m ∷ ms) [] c hs same live lives = absurd (omega arith)
  rollback_all-activate_all (m ∷ ms) (r ∷ rs) c hs same live lives =
      let rest =
        rollback_all-activate_all ms rs m (hs +++ (c ∷ [])) (omega arith) lives.0 lives.1 in
      let q : DeploymentPointer =
        rollback_all rs (activate_all ms (record { current = m; history = hs +++ (c ∷ []) })) in
      let done = rolled_back r c hs q live rest.1 in
      rw (activate-eq m c hs live.1.0) (
        subst (λ k. SameDeployment c k.current × (k.history ≡ hs)) (sym done)
          (restored-Same c r q.current.deployment_id live, refl))

  abbrev frozen_as : String → DeploymentManifest → DeploymentManifest
  frozen_as reason c = record c {
    mode = DeploymentMode.frozen;
    frozen = true;
    notes = noted c ("freeze:" ++ reason);
  }

  freeze-eq :
      (reason : String) (c : DeploymentManifest) (hs : List DeploymentManifest)
      → Valid c
      → freeze_deployment h reason (record { current = c; history = hs })
        ≡ (ok (frozen_as reason c), record { current = frozen_as reason c; history = hs })
  unfolding freeze_deployment
  freeze-eq reason c hs v =
      ap (λ r. put_in_force r (record { current = c; history = hs }))
        (make_manifest-Valid h (frozen_as reason c) v)

  rollback-refused :
      (reason : String) (c m : DeploymentManifest) (ms : List DeploymentManifest)
      → m.frozen ≡ true
      → rollback_deployment h reason (record { current = c; history = ms +++ (m ∷ []) })
        ≡ (err DeploymentError.rollback_target_frozen, record { current = c; history = ms })
  unfolding rollback_deployment
  rollback-refused reason c m ms frozen = rw (pop_last-append ms m) (
      require_failed (not m.frozen) DeploymentError.rollback_target_frozen (put_back h reason m)
        (record { current = c; history = ms }) (ap not frozen))

  -- Once a deployment is frozen, activating a manifest with another id raises and changes nothing. One
  -- with the same id can still be activated; a rollback after that raises, since its target is the
  -- frozen deployment, and the target has left the history all the same.
  pub freeze_deployment-effect :
      (reason r : String) (c m : DeploymentManifest) (hs : List DeploymentManifest)
      → Valid c
      → let p = (freeze_deployment h reason (record { current = c; history = hs })).1 in
        (m.deployment_id ≢ c.deployment_id
          → activate m p ≡ (err DeploymentError.deployment_is_frozen, p))
        × (m.deployment_id ≡ c.deployment_id
            → ((activate m p).0 ≡ ok m)
              × (rollback_deployment h r (activate m p).1 ≡ (
                err DeploymentError.rollback_target_frozen,
                record { current = m; history = hs },
              )))
  unfolding activate
  freeze_deployment-effect reason r c m hs v = rw (freeze-eq reason c hs v) (
    λ ne. rw (str_eq_ne m.deployment_id c.deployment_id ne) refl,
    λ same.
        rw ((str_eq_iff m.deployment_id c.deployment_id).1 same)
          (refl, rollback-refused r m (frozen_as reason c) hs refl),
  )
