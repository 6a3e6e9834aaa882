-- ===== src/Deployment/Cutover/Control.antt =====
-- `ControlledCutover` and `activate_controlled_cutover` of src/spy_der/deployment/cutover.py.
pub mod Gate
pub mod Return
use Prim.Native.String.{◌++◌}
use mathlib.Core.List.{◌++◌ as ◌+++◌}
use spy_der.Prelude.{
  ℕ, String, Bool, true, false, not, Option, none, some, List, [], ◌∷◌, if◌then◌else◌,
}
use spy_der.Prelude.Text.{is_white}
use spy_der.Prelude.Effects.{Result, ok, err, pure, get, modify, require, within, ◌>>=◌, ◌>>◌}
use spy_der.Journal.Chain.{JournalEvent}
use spy_der.Journal.Store.{append}
use spy_der.Deployment.Manifest.{DeploymentError, DeploymentManifest, make_manifest}
use spy_der.Deployment.Pointer.{noted, activate}
use spy_der.Deployment.Agent.{AgentDeploymentManifest, agent_error, NotificationLevel, publish}
use spy_der.Deployment.Cutover.{
  RuntimeSystem, CutoverPhase, closed_gate, CutoverState, state_error, ControlledCutover, Payload,
  Library, Method, checked, built,
}

abbrev pub made_agent : AgentDeploymentManifest → Result DeploymentError AgentDeploymentManifest
made_agent m = elim (agent_error m) [ none ↦ ok m | some e ↦ err e ]

abbrev pub same_flag : Bool → Bool → Bool
same_flag true b = b
same_flag false b = not b

-- The manifest that the authority is set with.
unfoldable pub agent_for :
    Bool
    → Option AgentDeploymentManifest
    → AgentDeploymentManifest
    → Result DeploymentError AgentDeploymentManifest
agent_for enabled none current = made_agent (record current { enabled = enabled })
agent_for enabled (some m) current =
    if same_flag m.enabled enabled then ok m else made_agent (record m { enabled = enabled })

module _ (lib : Library) where
  -- A journal event of the deployment, as its constructor leaves it.
  unfoldable pub event_of : String → String → ℕ → Payload → JournalEvent
  event_of event_type deployment_id now payload = record {
    event_id = "";
    event_type = event_type;
    aggregate_type = "deployment";
    aggregate_id = deployment_id;
    sequence_number = 0;
    occurred_at = now;
    recorded_at = now;
    schema_version = "journal.event.v1";
    payload_json = lib.canonical_json payload;
    payload_hash = lib.payload_hash payload;
    previous_event_hash = none;
    event_hash = "";
    deployment_id = deployment_id;
    snapshot_id = none;
    correlation_id = "uncorrelated";
    causation_id = none;
  }

  -- What a method leaves behind at its end: an event, and a message.
  unfoldable pub announced :
      JournalEvent → NotificationLevel → String → String → ControlledCutover → ControlledCutover
  announced e level topic message k = record k {
    journal = (append lib.hashes e k.journal).1;
    notifications =
        publish (record { level = level; topic = topic; message = message; payload = [] })
          k.notifications;
  }

  -- The end of a method: the new state, its event and its message.
  abbrev pub concluded :
      JournalEvent → NotificationLevel → String → String → CutoverState → Method CutoverState
  concluded e level topic message s = do
    modify (λ j. announced e level topic message (record j { state = s }))
    pure s

  abbrev pub with_agent : Bool → AgentDeploymentManifest → CutoverState → CutoverState
  with_agent enabled m s = record s {
    agent_authority = record { enabled = enabled; manifest = m };
    notes = s.notes +++ ((if enabled then "agent_authority:on" else "agent_authority:off") ∷ []);
  }

  -- The steps of `set_agent_authority` once it has the agent's manifest.
  abbrev pub authorize : Bool → ℕ → CutoverState → AgentDeploymentManifest → Method CutoverState
  authorize enabled now s m = do
    checked (state_error (with_agent enabled m s))
    concluded
        (event_of "deployment_changed" s.primary_manifest.deployment_id now
          (Payload.agent_authority enabled m.provider (lib.configuration_hash m)))
        NotificationLevel.info "cutover.agent_authority"
        (if enabled then "agent_authority=enabled" else "agent_authority=disabled")
        (with_agent enabled m s)

  unfoldable pub set_agent_authority :
      Bool → Option AgentDeploymentManifest → ℕ → Method CutoverState
  unfolding agent_for event_of announced
  set_agent_authority enabled manifest now = do
    k ← get
    m ← built (agent_for enabled manifest k.state.agent_authority.manifest)
    authorize enabled now k.state m

  -- The deployment that a rollback notes as the one that was in force before.
  abbrev pub last_of : DeploymentManifest → List DeploymentManifest → DeploymentManifest
  last_of m [] = m
  last_of m (n ∷ ns) = last_of n ns

  abbrev pub returned :
      ControlledCutover → DeploymentManifest → String → ℕ → DeploymentManifest → CutoverState
  returned k was reason now current = record {
    phase = CutoverPhase.rolled_back;
    primary = RuntimeSystem.system_a;
    rollback = RuntimeSystem.system_b;
    primary_manifest = current;
    rollback_manifest = k.state.primary_manifest;
    agent_authority = k.state.agent_authority;
    live_execution = closed_gate;
    approval = k.state.approval;
    activated_at = some now;
    notes = k.state.notes +++ (("rolled_back:" ++ reason) ∷ (("was:" ++ was.deployment_id) ∷ []));
  }

  -- The steps of `rollback_to_system_a` once the pointer has moved.
  abbrev pub return_to : String → ℕ → ControlledCutover → DeploymentManifest → Method CutoverState
  return_to reason now k current = do
    let s = returned k (last_of k.pointer.current k.pointer.history) reason now current
    checked (state_error s)
    concluded
        (event_of "deployment_rolled_back" current.deployment_id now
          (Payload.cutover_rollback reason RuntimeSystem.system_a RuntimeSystem.system_b))
        NotificationLevel.critical "cutover.rollback" ("rolled_back_to_system_a:" ++ reason) s

  -- The manifest that it goes back to.
  abbrev pub going_back : String → CutoverState → DeploymentManifest
  going_back reason s = record s.rollback_manifest {
    notes = noted s.rollback_manifest ("cutover_rollback:" ++ reason);
    previous_deployment_id = some s.primary_manifest.deployment_id;
  }

  -- The steps once there is a reason, from what the manifest comes to.
  abbrev pub going :
      String
      → ℕ
      → ControlledCutover
      → Result DeploymentError DeploymentManifest
      → Method CutoverState
  going reason now k made = do
    m ← built made
    current ← within (λ j. j.pointer) (λ p j. record j { pointer = p }) (activate m)
    return_to reason now k current

  abbrev pub go_back : String → ℕ → Method CutoverState
  go_back reason now = do
    k ← get
    going reason now k (make_manifest lib.manifest_hash (going_back reason k.state))

  unfoldable pub rollback_to_system_a : String → ℕ → Method CutoverState
  unfolding event_of announced
  rollback_to_system_a reason now = do
    require (not (is_white reason)) DeploymentError.reason_required
    go_back reason now
