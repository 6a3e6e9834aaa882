-- ===== src/Deployment/Cutover/Activation.antt =====
-- `activate_controlled_cutover` of src/spy_der/deployment/cutover.py, with the manifests that it falls
-- back on. The versions of the agent stand in src/spy_der/agents.
pub mod Owner
use text.Mathlib.Text.{starts_with}
use spy_der.Prelude.{ℕ, String, Bool, true, false, not, Option, none, some, [], ◌∷◌}
use spy_der.Prelude.Int.{pos}
use spy_der.Prelude.Float.{real}
use spy_der.Prelude.Text.{str_eq}
use spy_der.Prelude.Effects.{Result, ok, Action, pure, get, ◌>>=◌, ◌>>◌}
use spy_der.Journal.Store.{InMemoryJournalStore}
use spy_der.Deployment.Manifest.{DeploymentMode, DeploymentError, DeploymentManifest}
use spy_der.Deployment.Pointer.{DeploymentPointer, activate}
use spy_der.Deployment.Promotion.{◌else_raise◌, raise_if}
use spy_der.Deployment.Agent.{AgentDeploymentManifest, NotificationLevel, NotificationBus}
use spy_der.Deployment.Cutover.{
  RuntimeSystem, CutoverPhase, CutoverApproval, closed_gate, CutoverState, state_error,
  ControlledCutover, Payload, Library, checked, built,
}
use spy_der.Deployment.Cutover.Control.{made_agent, event_of, announced}

abbrev pub default_system_b_primary_manifest : String → DeploymentManifest
default_system_b_primary_manifest git_commit = record {
  schema_version = "deployment.manifest.v1";
  deployment_id = "system-b-primary-shadow";
  mode = DeploymentMode.shadow;
  config_version = "cutover-17";
  model_versions = ("system_b", "primary") ∷ [];
  feature_version = "features.v1";
  label_version = "labels.v1";
  risk_version = "risk.v1";
  policy_version = "policy.v1";
  execution_version = "execution.paper.v1";
  fallback_policy = "abstain";
  account_id = "system_b_ensemble";
  git_commit = git_commit;
  frozen = false;
  notes = "phase17_primary" ∷ "research_shadow" ∷ [];
  previous_deployment_id = none;
}

abbrev pub default_system_a_rollback_manifest : String → DeploymentManifest
default_system_a_rollback_manifest git_commit = record {
  schema_version = "deployment.manifest.v1";
  deployment_id = "system-a-rollback";
  mode = DeploymentMode.shadow;
  config_version = "system-a-retained";
  model_versions = ("system_a", "rollback") ∷ [];
  feature_version = "features.v1";
  label_version = "labels.v1";
  risk_version = "risk.v1";
  policy_version = "policy.v1";
  execution_version = "execution.paper.v1";
  fallback_policy = "legacy";
  account_id = "system_a_legacy";
  git_commit = git_commit;
  frozen = false;
  notes = "phase17_rollback_target" ∷ "system_a_retained" ∷ [];
  previous_deployment_id = none;
}

abbrev pub default_agent : CutoverApproval → Bool → AgentDeploymentManifest
default_agent approval enabled = record {
  deployment_id = "agent-grok-cutover-17";
  provider = "grok";
  model_id = "grok-4.20-0309-non-reasoning";
  adapter_version = "grok-adapter.v2";
  prompt_version = "spy-der-entry-prompt.v3";
  mode = "shadow";
  response_schema_version = "agent.decision.v1";
  capability_version = "1.0.0";
  timeout_seconds = real (pos 300000);
  maximum_retries = pos 0;
  maximum_packet_age_seconds = real (pos 300000);
  maximum_calls_per_session = pos 10000;
  maximum_cost_per_session = none;
  allowed_account_ids = "system_b_grok" ∷ [];
  permitted_actions = "SELECT_CANDIDATE" ∷ "NO_EDGE" ∷ "ABSTAIN" ∷ "HOLD" ∷ "REDUCE" ∷ "CLOSE" ∷ [];
  rollback_deployment_id = none;
  enabled = enabled;
  approved_by = some approval.approved_by;
  approved_at = some approval.approved_at;
  schema_version = "agent.deployment.v1";
}

abbrev pub or_default : {A : Type 0} → Option A → A → A
or_default none d = d
or_default (some a) d = a

abbrev pub may_lead : DeploymentMode → Bool
may_lead DeploymentMode.research = true
may_lead DeploymentMode.shadow = true
may_lead _ = false

-- The checks on the approval and the two manifests.
unfoldable pub activation_error :
    CutoverApproval → DeploymentManifest → DeploymentManifest → Option DeploymentError
activation_error approval primary rollback =
    raise_if (not (str_eq approval.phase "phase-17")) DeploymentError.wrong_phase
    else_raise raise_if (not (may_lead primary.mode)) DeploymentError.primary_mode
    else_raise raise_if (starts_with primary.account_id "system_a_") DeploymentError.primary_account
    else_raise raise_if (not (starts_with rollback.account_id "system_a_"))
        DeploymentError.rollback_account

abbrev pub activated :
    CutoverApproval
    → DeploymentManifest
    → DeploymentManifest
    → AgentDeploymentManifest
    → Bool
    → ℕ
    → CutoverState
activated approval primary rollback agent enabled now = record {
  phase = CutoverPhase.active;
  primary = RuntimeSystem.system_b;
  rollback = RuntimeSystem.system_a;
  primary_manifest = primary;
  rollback_manifest = rollback;
  agent_authority = record { enabled = enabled; manifest = agent };
  live_execution = closed_gate;
  approval = some approval;
  activated_at = some now;
  notes = "phase17_activated" ∷ [];
}

module _ (lib : Library) where
  abbrev pub agent_made :
      CutoverApproval
      → Option AgentDeploymentManifest
      → Bool
      → Result DeploymentError AgentDeploymentManifest
  agent_made approval none enabled = made_agent (default_agent approval enabled)
  agent_made approval (some m) enabled = ok m

  -- The controller of a state, with its event and its message.
  abbrev pub controller :
      CutoverState
      → DeploymentPointer
      → InMemoryJournalStore
      → NotificationBus
      → CutoverApproval
      → Bool
      → ℕ
      → ControlledCutover
  controller s p journal bus approval enabled now =
      announced lib
        (event_of lib "deployment_changed" s.primary_manifest.deployment_id now (
          Payload.controlled_cutover_activate approval.approved_by approval.approval_note enabled
            (lib.state_hash s)))
        NotificationLevel.info "cutover.activate"
        "system_b_primary_shadow; system_a_rollback; live_disabled"
        (record { state = s; pointer = p; journal = journal; notifications = bus })

  -- The last steps, once System B is in force.
  abbrev pub finished :
      CutoverApproval
      → CutoverState
      → Bool
      → InMemoryJournalStore
      → NotificationBus
      → ℕ
      → Action DeploymentError DeploymentPointer ControlledCutover
  finished approval s enabled journal bus now = do
    checked (state_error s)
    p ← get
    pure (controller s p journal bus approval enabled now)

  -- The steps after the defaults.
  unfoldable pub activate_on :
      CutoverApproval
      → DeploymentManifest
      → DeploymentManifest
      → Option AgentDeploymentManifest
      → Bool
      → InMemoryJournalStore
      → NotificationBus
      → ℕ
      → Action DeploymentError DeploymentPointer ControlledCutover
  activate_on approval primary rollback agent enabled journal bus now = do
    checked (activation_error approval primary rollback)
    a ← built (agent_made approval agent enabled)
    activate primary
    finished approval (activated approval primary rollback a enabled now) enabled journal bus now

  unfoldable pub activate_controlled_cutover :
      CutoverApproval
      → Option DeploymentManifest
      → Option DeploymentManifest
      → Option AgentDeploymentManifest
      → Bool
      → InMemoryJournalStore
      → NotificationBus
      → ℕ
      → Result DeploymentError ControlledCutover
  unfolding activate_on
  activate_controlled_cutover approval system_b system_a agent enabled journal bus now =
      let primary = or_default system_b (default_system_b_primary_manifest "") in
      let rollback = or_default system_a (default_system_a_rollback_manifest "") in
      (activate_on approval primary rollback agent enabled journal bus now
        (record { current = rollback; history = [] })).0
