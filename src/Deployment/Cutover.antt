-- ===== src/Deployment/Cutover.antt =====
-- src/spy_der/deployment/cutover.py. The clock, the canonical JSON text of a payload and the hashes are
-- parameters.
pub mod Control
pub mod Activation
use spy_der.Prelude.{ℕ, String, Bool, true, false, not, Option, none, some, List}
use spy_der.Prelude.Text.{is_white}
use spy_der.Prelude.Effects.{Result, ok, err, Action, ◌>>=◌, ◌>>◌}
use spy_der.Guard.Types.{Timestamp, naive, aware}
use spy_der.Journal.Chain.{Hashes}
use spy_der.Journal.Store.{InMemoryJournalStore}
use spy_der.Deployment.Manifest.{DeploymentError, DeploymentManifest, ManifestHash}
use spy_der.Deployment.Pointer.{DeploymentPointer}
use spy_der.Deployment.Promotion.{◌else_raise◌, raise_if}
use spy_der.Deployment.Agent.{AgentDeploymentManifest, AgentAuthorityControl, NotificationBus}

pub data RuntimeSystem : Type 0 where
  system_a system_b : RuntimeSystem

pub data CutoverPhase : Type 0 where
  pre_cutover active rolled_back : CutoverPhase

pub record CutoverApproval : Type 0 where
  pub approved_by : String
  pub approved_at : Timestamp
  pub approval_note : String
  pub phase : String

-- `CutoverApproval.__post_init__`
unfoldable pub approval_error : CutoverApproval → Option DeploymentError
approval_error a =
    raise_if (is_white a.approved_by) DeploymentError.approved_by_required
    else_raise raise_if (is_white a.approval_note) DeploymentError.approval_note_required
    else_raise (elim a.approved_at [
      | naive ↦ some DeploymentError.naive_approved_at
      | aware t ↦ none
    ])

pub record LiveExecutionGate : Type 0 where
  pub enabled : Bool
  pub reason : String

-- `LiveExecutionGate.__post_init__` and `assert_disabled`, which test the same.
abbrev pub gate_error : LiveExecutionGate → Option DeploymentError
gate_error g = raise_if g.enabled DeploymentError.live_execution_forbidden

-- `LiveExecutionGate()`
abbrev pub closed_gate : LiveExecutionGate
closed_gate = record { enabled = false; reason = "phase17_live_execution_disabled" }

pub record CutoverState : Type 0 where
  pub phase : CutoverPhase
  pub primary : RuntimeSystem
  pub rollback : RuntimeSystem
  pub primary_manifest : DeploymentManifest
  pub rollback_manifest : DeploymentManifest
  pub agent_authority : AgentAuthorityControl
  pub live_execution : LiveExecutionGate
  pub approval : Option CutoverApproval
  pub activated_at : Option ℕ
  pub notes : List String

abbrev pub is_b : RuntimeSystem → Bool
is_b RuntimeSystem.system_a = false
is_b RuntimeSystem.system_b = true

abbrev pub is_missing : Option CutoverApproval → Bool
is_missing none = true
is_missing (some a) = false

-- What an active cutover has to have.
abbrev pub active_error : CutoverState → CutoverPhase → Option DeploymentError
active_error s CutoverPhase.active =
    raise_if (not (is_b s.primary)) DeploymentError.primary_must_be_b
    else_raise raise_if (is_b s.rollback) DeploymentError.rollback_must_be_a
    else_raise raise_if (is_missing s.approval) DeploymentError.approval_required
active_error s _ = none

-- `CutoverState.__post_init__`
unfoldable pub state_error : CutoverState → Option DeploymentError
state_error s = gate_error s.live_execution else_raise active_error s s.phase

pub record ControlledCutover : Type 0 where
  pub state : CutoverState
  pub pointer : DeploymentPointer
  pub journal : InMemoryJournalStore
  pub notifications : NotificationBus

-- The payloads of the journal's events.
pub data Payload : Type 0 where
  agent_authority : Bool → String → String → Payload
  cutover_rollback : String → RuntimeSystem → RuntimeSystem → Payload
  controlled_cutover_activate : String → String → Bool → String → Payload

-- What is taken from the hash and JSON libraries.
pub record Library : Type 0 where
  pub manifest_hash : ManifestHash
  pub configuration_hash : AgentDeploymentManifest → String
  pub state_hash : CutoverState → String
  pub canonical_json : Payload → String
  pub payload_hash : Payload → String
  pub hashes : Hashes

abbrev pub Method : Type 0 → Type 0
Method A = Action DeploymentError ControlledCutover A

-- A check that may raise, in a method.
abbrev pub checked : {S : Type 0} → Option DeploymentError → Action DeploymentError S (Unit {0})
checked none s = (ok tt, s)
checked (some e) s = (err e, s)

-- What a constructor makes, or raises.
abbrev pub built : {A : Type 0} {S : Type 0} → Result DeploymentError A → Action DeploymentError S A
built (ok a) s = (ok a, s)
built (err e) s = (err e, s)
