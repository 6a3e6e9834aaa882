-- ===== src/Deployment/Manifest.antt =====
-- src/spy_der/deployment/manifest.py. The hash that names a manifest without an id is a parameter.
use spy_der.Prelude.{String, Bool, Option, none, some, List, [], ◌∷◌, if◌then◌else◌}
use spy_der.Prelude.Text.{is_blank, str_eq, elem}
use spy_der.Prelude.Effects.{Result, ok, err}

pub data DeploymentMode : Type 0 where
  research shadow advisory candidate champion frozen : DeploymentMode

abbrev pub mode_value : DeploymentMode → String
mode_value DeploymentMode.research = "research"
mode_value DeploymentMode.shadow = "shadow"
mode_value DeploymentMode.advisory = "advisory"
mode_value DeploymentMode.candidate = "candidate"
mode_value DeploymentMode.champion = "champion"
mode_value DeploymentMode.frozen = "frozen"

-- The errors of the layer, without their rendered details.
pub data DeploymentError : Type 0 where
  mode_not_permitted invalid_fallback_policy deployment_is_frozen no_previous_deployment :
      DeploymentError
  rollback_target_frozen review_id_required model_ids_required : DeploymentError
  artifact_hashes_required dataset_hashes_required rollback_target_required : DeploymentError
  fold_definitions_required reviewer_required approval_note_required : DeploymentError
  shadow_to_champion status_to_champion : DeploymentError
  approved_by_required naive_approved_at live_execution_forbidden : DeploymentError
  primary_must_be_b rollback_must_be_a approval_required : DeploymentError
  wrong_phase primary_mode primary_account rollback_account reason_required : DeploymentError
  agent_id_required agent_provider_required timeout_not_positive : DeploymentError
  retries_negative unknown_account_scope : DeploymentError

-- `_MODE_PERMISSIONS.get(status, frozenset())`
unfoldable pub mode_permissions : String → List String
mode_permissions status =
    if str_eq status "research"
    then "research" ∷ []
    else if str_eq status "shadow"
    then "research" ∷ "shadow" ∷ []
    else if str_eq status "advisory"
    then "research" ∷ "shadow" ∷ "advisory" ∷ []
    else if str_eq status "candidate"
    then "research" ∷ "shadow" ∷ "advisory" ∷ "candidate" ∷ []
    else if str_eq status "pending_review"
    then "research" ∷ "shadow" ∷ "advisory" ∷ "candidate" ∷ []
    else if str_eq status "champion"
    then "research" ∷ "shadow" ∷ "advisory" ∷ "candidate" ∷ "champion" ∷ []
    else if str_eq status "rejected"
    then "research" ∷ []
    else if str_eq status "archived"
    then "research" ∷ []
    else if str_eq status "frozen"
    then "research" ∷ "shadow" ∷ []
    else []

-- `assert_mode_permission`, as the error that it raises.
unfoldable pub mode_error : String → String → Option DeploymentError
unfolding mode_permissions
mode_error status mode =
    if elem mode (mode_permissions status) then none else some DeploymentError.mode_not_permitted

pub record DeploymentManifest : Type 0 where
  pub schema_version : String
  pub deployment_id : String
  pub mode : DeploymentMode
  pub config_version : String
  pub model_versions : List (String × String)
  pub feature_version : String
  pub label_version : String
  pub risk_version : String
  pub policy_version : String
  pub execution_version : String
  pub fallback_policy : String
  pub account_id : String
  pub git_commit : String
  pub frozen : Bool
  pub notes : List String
  pub previous_deployment_id : Option String

abbrev pub fallback_policies : List String
fallback_policies = "abstain" ∷ "legacy" ∷ "no_trade" ∷ []

-- The mode, the configuration, the models and the commit, hashed.
abbrev pub ManifestHash : Type 0
ManifestHash = DeploymentMode → String → List (String × String) → String → String

-- `DeploymentManifest.__post_init__`
unfoldable pub make_manifest :
    ManifestHash → DeploymentManifest → Result DeploymentError DeploymentManifest
make_manifest content_hash m =
    if elem m.fallback_policy fallback_policies
    then ok (record m {
      deployment_id =
          if is_blank m.deployment_id
          then content_hash m.mode m.config_version m.model_versions m.git_commit
          else m.deployment_id;
    })
    else err DeploymentError.invalid_fallback_policy
