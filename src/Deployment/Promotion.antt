-- ===== src/Deployment/Promotion.antt =====
-- `promote` of src/spy_der/deployment/promotion.py. The calls of the registry's `set_status` come back
-- as a list, in the case that one is given, and the time in the notes is a parameter.
pub mod Complete
use Prim.Native.String.{◌++◌}
use spy_der.Prelude.{
  String, Bool, true, false, not, Option, none, some, List, [], ◌∷◌, if◌then◌else◌, is_nil, map,
}
use spy_der.Prelude.Text.{is_blank, str_eq, elem}
use spy_der.Prelude.Dict.{lookup, from_pairs}
use spy_der.Prelude.Effects.{Result, err}
use spy_der.Deployment.Manifest.{
  DeploymentMode, DeploymentError, DeploymentManifest, ManifestHash, make_manifest, mode_value,
  mode_error,
}

pub record PromotionReviewPacket : Type 0 where
  pub review_id : String
  pub model_group_id : String
  pub model_ids : List String
  pub artifact_hashes : List (String × String)
  pub dataset_hashes : List (String × String)
  pub rollback_target : DeploymentManifest
  pub fold_definitions : List (String × String)
  pub headline_metrics : List (String × String)
  pub drift_status : List (String × String)
  pub known_weaknesses : List String
  pub git_commit : String
  pub reviewer : Option String
  pub approval_status : String
  pub approval_note : String
  pub review_timestamp : Option String

-- The first of two checks that raises.
infixr 20 ◌else_raise◌
abbrev pub ◌else_raise◌ : Option DeploymentError → Option DeploymentError → Option DeploymentError
(some e) else_raise k = some e
none else_raise k = k

abbrev pub raise_if : Bool → DeploymentError → Option DeploymentError
raise_if b e = if b then some e else none

-- `validate_promotion_packet`
unfoldable pub packet_error : PromotionReviewPacket → Option DeploymentError
packet_error p =
    raise_if (is_blank p.review_id) DeploymentError.review_id_required
    else_raise raise_if (is_nil p.model_ids) DeploymentError.model_ids_required
    else_raise raise_if (is_nil p.artifact_hashes) DeploymentError.artifact_hashes_required
    else_raise raise_if (is_nil p.dataset_hashes) DeploymentError.dataset_hashes_required
    else_raise raise_if (is_blank p.rollback_target.deployment_id)
        DeploymentError.rollback_target_required
    else_raise raise_if (is_nil p.fold_definitions) DeploymentError.fold_definitions_required

abbrev pub is_champion : DeploymentMode → Bool
is_champion DeploymentMode.champion = true
is_champion _ = false

-- The checks on a promotion to champion.
unfoldable pub champion_error : String → Option DeploymentError
champion_error status =
    raise_if (str_eq status "shadow") DeploymentError.shadow_to_champion
    else_raise raise_if (not (elem status ("candidate" ∷ "pending_review" ∷ "champion" ∷ [])))
        DeploymentError.status_to_champion
    else_raise mode_error "candidate" "candidate"

unfoldable pub promotion_error :
    PromotionReviewPacket → DeploymentMode → String → String → String → Option DeploymentError
unfolding packet_error champion_error
promotion_error packet target reviewer note status =
    packet_error packet
    else_raise raise_if (is_blank reviewer) DeploymentError.reviewer_required
    else_raise raise_if (is_blank note) DeploymentError.approval_note_required
    else_raise raise_if packet.rollback_target.frozen DeploymentError.rollback_target_frozen
    else_raise (if is_champion target then champion_error status else none)

-- A call `set_status(model_id, mode, note)`.
pub record StatusCall : Type 0 where
  pub model_id : String
  pub status : String
  pub note : String

abbrev pub artifact_of : PromotionReviewPacket → String → String
artifact_of p i = elim (lookup i (from_pairs [] p.artifact_hashes)) [ none ↦ "" | some h ↦ h ]

abbrev pub promoted_fields :
    PromotionReviewPacket → DeploymentMode → String → String → DeploymentManifest
promoted_fields p target reviewer at = record {
  schema_version = "deployment.manifest.v1";
  deployment_id = "";
  mode = target;
  config_version = p.rollback_target.config_version;
  model_versions = map (λ i. (i, artifact_of p i)) p.model_ids;
  feature_version = p.rollback_target.feature_version;
  label_version = p.rollback_target.label_version;
  risk_version = p.rollback_target.risk_version;
  policy_version = p.rollback_target.policy_version;
  execution_version = p.rollback_target.execution_version;
  fallback_policy = p.rollback_target.fallback_policy;
  account_id = p.rollback_target.account_id;
  git_commit = if is_blank p.git_commit then p.rollback_target.git_commit else p.git_commit;
  frozen = false;
  notes = ("promoted_by=" ++ reviewer) ∷ ("review=" ++ p.review_id) ∷ ("at=" ++ at) ∷ [];
  previous_deployment_id = some p.rollback_target.deployment_id;
}

-- What follows the checks: the registry's calls, and the manifest.
abbrev pub carry_out :
    ManifestHash
    → PromotionReviewPacket
    → DeploymentMode
    → String
    → String
    → String
    → Option DeploymentError
    → Result DeploymentError DeploymentManifest × List StatusCall
carry_out content_hash packet target reviewer note at (some e) = (err e, [])
carry_out content_hash packet target reviewer note at none = (
  make_manifest content_hash (promoted_fields packet target reviewer at),
  map
      (λ i. record {
        model_id = i;
        status = mode_value target;
        note = "review=" ++ (packet.review_id ++ ("; " ++ note));
      })
      packet.model_ids,
)

-- The manifest or the error, and the calls that were made of the registry.
unfoldable pub promote :
    ManifestHash
    → PromotionReviewPacket
    → DeploymentMode
    → String
    → String
    → String
    → String
    → Result DeploymentError DeploymentManifest × List StatusCall
promote content_hash packet target reviewer note status at =
    carry_out content_hash packet target reviewer note at
      (promotion_error packet target reviewer note status)
