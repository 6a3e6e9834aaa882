-- ===== src/Deployment/Tests.antt =====
-- The theorems of the deployment layer at the manifests that a cutover falls back on.
use spy_der.Prelude.{String, ◌≡◌, refl, true, false, none, List, [], ◌∷◌, ◌⊎◌, arith, ◌≢◌}
use spy_der.Prelude.Text.{is_white}
use spy_der.Prelude.Effects.{ok, err}
use spy_der.Guard.Types.{aware}
use spy_der.Journal.Chain.{verify_chain}
use spy_der.Journal.Store.{InMemoryJournalStore}
use spy_der.Journal.Sealed.{IsSealed}
use spy_der.Deployment.Manifest.{DeploymentMode, DeploymentError, DeploymentManifest}
use spy_der.Deployment.Pointer.{DeploymentPointer, activate, freeze_deployment, rollback_deployment}
use spy_der.Deployment.Pointer.History.{
  SameDeployment, activate_all, rollback_all, rollback_all-activate_all, freeze_deployment-effect,
}
use spy_der.Deployment.Promotion.{PromotionReviewPacket, promote}
use spy_der.Deployment.Promotion.Complete.{Complete, Promoted, told, promote-Complete}
use spy_der.Deployment.Agent.{NotificationBus, agent_error}
use spy_der.Deployment.Cutover.{
  CutoverApproval, ControlledCutover, Library, RuntimeSystem, state_error,
}
use spy_der.Deployment.Cutover.Control.{rollback_to_system_a, set_agent_authority, announced}
use spy_der.Deployment.Cutover.Control.Gate.{Guarded}
use spy_der.Deployment.Cutover.Control.Return.{rollback_to_system_a-twice}
use spy_der.Deployment.Cutover.Activation.{
  default_system_a_rollback_manifest, default_system_b_primary_manifest,
  activate_controlled_cutover, activation_error, controller, activated, default_agent,
}
use spy_der.Deployment.Cutover.Activation.Owner.{
  Activatable, Activated, activate_controlled_cutover-Activatable, activation, authority, return,
  Reached-Guarded,
}

abbrev system_a : DeploymentManifest
system_a = default_system_a_rollback_manifest ""

abbrev system_b : DeploymentManifest
system_b = default_system_b_primary_manifest ""

abbrev manifest_hash : DeploymentMode → String → List (String × String) → String → String
manifest_hash mode config models commit = "hash"

abbrev both_back : DeploymentPointer
both_back = rollback_all manifest_hash ("second" ∷ "first" ∷ []) (
    activate_all manifest_hash (system_b ∷ system_a ∷ [])
      (record { current = system_a; history = [] }))

rollback_all-activate_all_example :
    SameDeployment system_a both_back.current × (both_back.history ≡ [])
rollback_all-activate_all_example =
    rollback_all-activate_all manifest_hash (system_b ∷ system_a ∷ []) ("second" ∷ "first" ∷ [])
      system_a [] (omega arith) ((refl, refl), (refl, λ h. cc))
      (((refl, refl), (refl, λ h. cc)), (((refl, refl), (refl, λ h. cc)), tt))

abbrev stopped : DeploymentPointer
stopped = (freeze_deployment manifest_hash "drift" (record { current = system_b; history = [] })).1

freeze_deployment-effect_example :
    (system_a.deployment_id ≢ system_b.deployment_id
      → activate system_a stopped ≡ (err DeploymentError.deployment_is_frozen, stopped))
    × (system_a.deployment_id ≡ system_b.deployment_id
        → ((activate system_a stopped).0 ≡ ok system_a)
          × (rollback_deployment manifest_hash "retry" (activate system_a stopped).1 ≡ (
            err DeploymentError.rollback_target_frozen,
            record { current = system_a; history = [] },
          )))
freeze_deployment-effect_example =
    freeze_deployment-effect manifest_hash "drift" "retry" system_b system_a [] (refl, refl)

abbrev packet : PromotionReviewPacket
packet = record {
  review_id = "r1";
  model_group_id = "g1";
  model_ids = "m1" ∷ [];
  artifact_hashes = ("m1", "h1") ∷ [];
  dataset_hashes = ("d1", "h2") ∷ [];
  rollback_target = system_b;
  fold_definitions = ("f1", "2025") ∷ [];
  headline_metrics = [];
  drift_status = [];
  known_weaknesses = [];
  git_commit = "";
  reviewer = none;
  approval_status = "pending";
  approval_note = "";
  review_timestamp = none;
}

promote-Complete_example :
    let (r, calls) =
      promote manifest_hash packet DeploymentMode.champion "owner" "ready" "candidate" "now" in
    (Complete packet DeploymentMode.champion "owner" "ready" "candidate"
      × (((m : DeploymentManifest) × ((r ≡ ok m)
              × Promoted manifest_hash packet DeploymentMode.champion "owner" "now" m))
          × (calls ≡ told packet DeploymentMode.champion "ready")))
    ⊎ ((¬ (Complete packet DeploymentMode.champion "owner" "ready" "candidate"))
        × (((e : DeploymentError) × (r ≡ err e)) × (calls ≡ [])))
promote-Complete_example =
    promote-Complete manifest_hash packet DeploymentMode.champion "owner" "ready" "candidate" "now"
      refl

abbrev library : Library
library = record {
  manifest_hash = manifest_hash;
  configuration_hash = λ m. m.deployment_id;
  state_hash = λ s. s.primary_manifest.deployment_id;
  canonical_json = λ p. "{}";
  payload_hash = λ p. "payload";
  hashes = record { content_hash = λ c. c.aggregate_id; event_key = λ n t i at. t };
}

abbrev approval : CutoverApproval
approval = record {
  approved_by = "owner";
  approved_at = aware 0;
  approval_note = "go";
  phase = "phase-17";
}

abbrev no_events : InMemoryJournalStore
no_events = record { events = [] }

abbrev no_messages : NotificationBus
no_messages = record { messages = [] }

nothing-IsSealed : IsSealed library.hashes no_events
unfolding verify_chain
nothing-IsSealed = (refl, tt)

activate_controlled_cutover-Activatable_example :
    let r =
      activate_controlled_cutover library approval none none none true no_events no_messages 0 in
    (Activatable library approval system_b system_a true no_events no_messages 0 nothing-IsSealed
        none
      × ((k : ControlledCutover) × ((r ≡ ok k) × Activated library system_b system_a k)))
    ⊎ ((¬ (
          Activatable library approval system_b system_a true no_events no_messages 0
            nothing-IsSealed none))
        × ((e : DeploymentError) × (r ≡ err e)))
activate_controlled_cutover-Activatable_example =
    activate_controlled_cutover-Activatable library approval none none none true no_events
      no_messages 0 nothing-IsSealed

abbrev cutover : ControlledCutover
cutover =
    controller library (activated approval system_b system_a (default_agent approval true) true 0)
      (record { current = system_b; history = system_a ∷ [] }) no_events no_messages approval true 0

Reached-Guarded_example :
    Guarded library
      (rollback_to_system_a library "drift" 1
        (set_agent_authority library false none 1 cutover).1).1
unfolding activate_controlled_cutover activation_error agent_error activate state_error
Reached-Guarded_example = Reached-Guarded library (
    return "drift" 1 (
      authority false none 1
        (activation approval none none none true no_events no_messages 0 nothing-IsSealed refl)))

rollback_to_system_a-twice_example :
    let k1 = (rollback_to_system_a library "drift" 1 cutover).1 in
    let k2 = (rollback_to_system_a library "again" 2 k1).1 in
    (k1.state.primary ≡ RuntimeSystem.system_a)
    × ((k1.pointer.current.deployment_id ≡ "system-a-rollback")
        × ((k2.state.primary ≡ RuntimeSystem.system_a)
            × (k2.pointer.current.deployment_id ≡ "system-b-primary-shadow")))
unfolding announced is_white
rollback_to_system_a-twice_example =
    rollback_to_system_a-twice library "drift" "again" 1 2 cutover refl refl (refl, refl)
      (refl, refl) refl refl
