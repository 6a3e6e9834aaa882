-- ===== src/Deployment/Agent.antt =====
-- src/spy_der/deployment/agent_manifest.py, the authority that it gives (of cutover.py), and the
-- messages of src/spy_der/deployment/notifications.py, without their times.
use text.Mathlib.Text.{starts_with}
use spy_der.Prelude.{
  String, Bool, true, false, not, ◌&&◌, Option, none, some, List, [], ◌∷◌, ◌++◌, if◌then◌else◌, any,
  keep,
}
use spy_der.Prelude.Int.{ℤ, pos, ltb_ℤ}
use spy_der.Prelude.Float.{Float, leb_f, zero_f}
use spy_der.Prelude.Text.{is_blank, elem, str_eq}
use spy_der.Guard.Types.{Timestamp, naive}
use spy_der.Deployment.Manifest.{DeploymentError}
use spy_der.Deployment.Promotion.{◌else_raise◌, raise_if}

pub record AgentDeploymentManifest : Type 0 where
  pub deployment_id : String
  pub provider : String
  pub model_id : String
  pub adapter_version : String
  pub prompt_version : String
  pub mode : String
  pub response_schema_version : String
  pub capability_version : String
  pub timeout_seconds : Float
  pub maximum_retries : ℤ
  pub maximum_packet_age_seconds : Float
  pub maximum_calls_per_session : ℤ
  pub maximum_cost_per_session : Option ℤ
  pub allowed_account_ids : List String
  pub permitted_actions : List String
  pub rollback_deployment_id : Option String
  pub enabled : Bool
  pub approved_by : Option String
  pub approved_at : Option Timestamp
  pub schema_version : String

abbrev pub is_naive : Option Timestamp → Bool
is_naive (some naive) = true
is_naive _ = false

-- `AgentDeploymentManifest.__post_init__`
unfoldable pub agent_error : AgentDeploymentManifest → Option DeploymentError
agent_error m =
    raise_if (is_blank m.deployment_id) DeploymentError.agent_id_required
    else_raise raise_if (is_blank m.provider) DeploymentError.agent_provider_required
    else_raise raise_if (leb_f m.timeout_seconds zero_f) DeploymentError.timeout_not_positive
    else_raise raise_if (ltb_ℤ m.maximum_retries (pos 0)) DeploymentError.retries_negative
    else_raise raise_if (is_naive m.approved_at) DeploymentError.naive_approved_at
    else_raise raise_if
        (any (λ a. not (starts_with a "system_b_") && not (starts_with a "system_a_"))
          m.allowed_account_ids)
        DeploymentError.unknown_account_scope

pub record AgentAuthorityControl : Type 0 where
  pub enabled : Bool
  pub manifest : AgentDeploymentManifest

-- Whether an action is permitted.
unfoldable pub permits : AgentAuthorityControl → String → Bool
permits c action = if c.enabled then elem action c.manifest.permitted_actions else false

pub data NotificationLevel : Type 0 where
  info warning critical : NotificationLevel

pub record Notification : Type 0 where
  pub level : NotificationLevel
  pub topic : String
  pub message : String
  pub payload : List (String × String)

pub record NotificationBus : Type 0 where
  pub messages : List Notification

unfoldable pub publish : Notification → NotificationBus → NotificationBus
publish n b = record b { messages = b.messages ++ (n ∷ []) }

-- The messages, or those of one topic.
unfoldable pub history : Option String → NotificationBus → List Notification
history none b = b.messages
history (some topic) b = keep (λ n. str_eq n.topic topic) b.messages
