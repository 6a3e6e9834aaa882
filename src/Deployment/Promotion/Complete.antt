-- ===== src/Deployment/Promotion/Complete.antt =====
-- When `promote` of src/spy_der/deployment/promotion.py goes through.
use Prim.Native.String.{◌++◌}
use spy_der.Prelude.{
  some≢none, ◌≢◌, ◌∷◌, String, Bool, true, false, Option, none, some, List, [], if◌then◌else◌,
  is_nil, map, ◌≡◌, refl, ◌↔◌, ◌⊎◌, inl, inr, arith, ap, sym, ◌∙◌, Option-cases,
}
use spy_der.Prelude.Text.{is_blank, elem, str_eq_iff, str_eq_ne}
use spy_der.Prelude.Dict.{lookup, from_pairs}
use spy_der.Prelude.Effects.{ok, err}
use spy_der.Deployment.Manifest.{
  DeploymentMode, DeploymentError, DeploymentManifest, ManifestHash, make_manifest, mode_value,
  mode_error, mode_permissions, fallback_policies,
}
use spy_der.Deployment.Promotion.{
  PromotionReviewPacket, ◌else_raise◌, raise_if, packet_error, is_champion, champion_error,
  promotion_error, StatusCall, promoted_fields, promote,
}

pub both_none :
    {P Q : Type 0} (a b : Option DeploymentError)
    → (a ≡ none) ↔ P
    → (b ≡ none) ↔ Q
    → ((a else_raise b) ≡ none) ↔ (P × Q)
both_none none b i j = (λ h. (i.0 refl, j.0 h), λ h. j.1 h.1)
both_none (some e) b i j = (λ h. cc, λ h. absurd (some≢none e (i.1 h.0)))

pub raise_if-none : (b : Bool) (e : DeploymentError) → (raise_if b e ≡ none) ↔ (b ≡ false)
raise_if-none true e = (λ h. cc, λ h. cc)
raise_if-none false e = (λ h. refl, λ h. refl)

-- A packet with everything that a review needs.
abbrev pub Reviewable : PromotionReviewPacket → Type 0
Reviewable p =
    (is_blank p.review_id ≡ false)
    × ((is_nil p.model_ids ≡ false)
        × ((is_nil p.artifact_hashes ≡ false)
            × ((is_nil p.dataset_hashes ≡ false)
                × ((is_blank p.rollback_target.deployment_id ≡ false)
                    × (is_nil p.fold_definitions ≡ false)))))

packet_error-none : (p : PromotionReviewPacket) → (packet_error p ≡ none) ↔ Reviewable p
unfolding packet_error
packet_error-none p = both_none (raise_if (is_blank p.review_id) _) _ (raise_if-none _ _) (
    both_none (raise_if (is_nil p.model_ids) _) _ (raise_if-none _ _) (
      both_none (raise_if (is_nil p.artifact_hashes) _) _ (raise_if-none _ _) (
        both_none (raise_if (is_nil p.dataset_hashes) _) _ (raise_if-none _ _) (
          both_none (raise_if (is_blank p.rollback_target.deployment_id) _) _ (raise_if-none _ _)
            (raise_if-none (is_nil p.fold_definitions) _)))))

-- The statuses from which a model may become champion; a shadow may not.
abbrev pub MayLead : DeploymentMode → String → Type 0
MayLead target status =
    is_champion target ≡ true
    → (status ≡ "candidate") ⊎ ((status ≡ "pending_review") ⊎ (status ≡ "champion"))

champion_error-none :
    (status : String)
    → (champion_error status ≡ none)
      ↔ ((status ≡ "candidate") ⊎ ((status ≡ "pending_review") ⊎ (status ≡ "champion")))
unfolding champion_error mode_error mode_permissions
champion_error-none status = (
  λ h. ground (
    arith,
    str_eq_iff "candidate" status,
    str_eq_iff "pending_review" status,
    str_eq_iff "champion" status,
  ),
  λ h. elim h [
    | inl e ↦ ap champion_error e
    | inr k ↦ elim k [ inl e ↦ ap champion_error e | inr e ↦ ap champion_error e ]
  ],
)

lead_none :
    (target : DeploymentMode) (status : String)
    → ((if is_champion target then champion_error status else none) ≡ none) ↔ MayLead target status
lead_none DeploymentMode.champion status =
    let i = champion_error-none status in (λ h z. i.0 h, λ h. i.1 (h refl))
lead_none DeploymentMode.research status = (λ h z. cc, λ h. refl)
lead_none DeploymentMode.shadow status = (λ h z. cc, λ h. refl)
lead_none DeploymentMode.advisory status = (λ h z. cc, λ h. refl)
lead_none DeploymentMode.candidate status = (λ h z. cc, λ h. refl)
lead_none DeploymentMode.frozen status = (λ h z. cc, λ h. refl)

-- A promotion with a complete packet, a reviewer and a note, a rollback target that is not frozen, and
-- a status from which the mode can be reached.
abbrev pub Complete : PromotionReviewPacket → DeploymentMode → String → String → String → Type 0
Complete p target reviewer note status =
    Reviewable p
    × ((is_blank reviewer ≡ false)
        × ((is_blank note ≡ false) × ((p.rollback_target.frozen ≡ false) × MayLead target status)))

promotion_error-none :
    (p : PromotionReviewPacket) (target : DeploymentMode) (reviewer note status : String)
    → (promotion_error p target reviewer note status ≡ none)
      ↔ Complete p target reviewer note status
unfolding promotion_error
promotion_error-none p target reviewer note status =
    both_none (packet_error p) _ (packet_error-none p) (
      both_none (raise_if (is_blank reviewer) _) _ (raise_if-none _ _) (
        both_none (raise_if (is_blank note) _) _ (raise_if-none _ _) (
          both_none (raise_if p.rollback_target.frozen _) _ (raise_if-none _ _)
            (lead_none target status))))

-- What the registry is told of a promotion: each model of the packet once, in order.
abbrev pub told : PromotionReviewPacket → DeploymentMode → String → List StatusCall
told p target note =
    map
      (λ i. record {
        model_id = i;
        status = mode_value target;
        note = "review=" ++ (p.review_id ++ ("; " ++ note));
      })
      p.model_ids

-- The hash that a packet gives for a model, or none.
abbrev pub packet_hash : List (String × String) → String → String
packet_hash hashes i = elim (lookup i (from_pairs [] hashes)) [ none ↦ "" | some h ↦ h ]

-- The manifest of a promotion: the target mode and the packet's models over the configuration of the
-- rollback target, which it names as the deployment before.
pub record Promoted (h : ManifestHash) (p : PromotionReviewPacket) (target : DeploymentMode)
    (reviewer at : String) (m : DeploymentManifest) : Type 0 where
  pub schema_version : m.schema_version ≡ "deployment.manifest.v1"
  pub deployment_id : m.deployment_id ≡ h target m.config_version m.model_versions m.git_commit
  pub mode : m.mode ≡ target
  pub frozen : m.frozen ≡ false
  pub previous : m.previous_deployment_id ≡ some p.rollback_target.deployment_id
  pub models : m.model_versions ≡ map (λ i. (i, packet_hash p.artifact_hashes i)) p.model_ids
  pub config : m.config_version ≡ p.rollback_target.config_version
  pub feature : m.feature_version ≡ p.rollback_target.feature_version
  pub label : m.label_version ≡ p.rollback_target.label_version
  pub risk : m.risk_version ≡ p.rollback_target.risk_version
  pub policy : m.policy_version ≡ p.rollback_target.policy_version
  pub execution : m.execution_version ≡ p.rollback_target.execution_version
  pub fallback : m.fallback_policy ≡ p.rollback_target.fallback_policy
  pub account : m.account_id ≡ p.rollback_target.account_id
  pub own_commit : p.git_commit ≢ "" → m.git_commit ≡ p.git_commit
  pub old_commit : p.git_commit ≡ "" → m.git_commit ≡ p.rollback_target.git_commit
  pub notes :
      m.notes ≡ ("promoted_by=" ++ reviewer) ∷ ("review=" ++ p.review_id) ∷ ("at=" ++ at) ∷ []

-- A manifest named by its hash, where the fields leave it without an id.
abbrev named : ManifestHash → DeploymentManifest → DeploymentManifest
named h m = record m { deployment_id = h m.mode m.config_version m.model_versions m.git_commit }

named-Promoted :
    (h : ManifestHash) (p : PromotionReviewPacket) (target : DeploymentMode) (reviewer at : String)
    → Promoted h p target reviewer at (named h (promoted_fields p target reviewer at))
named-Promoted h p target reviewer at = record {
  schema_version = refl;
  deployment_id = refl;
  mode = refl;
  frozen = refl;
  previous = refl;
  models = refl;
  config = refl;
  feature = refl;
  label = refl;
  risk = refl;
  policy = refl;
  execution = refl;
  fallback = refl;
  account = refl;
  own_commit = λ ne. rw (str_eq_ne p.git_commit "" ne) refl;
  old_commit = λ e. rw ((str_eq_iff p.git_commit "").1 e) refl;
  notes = refl;
}

-- Where the rollback target has a fallback policy that its constructor accepts: a complete promotion
-- tells the registry of each model once and hands back an unfrozen manifest, named by its hash, in the
-- target mode with the packet's models, over the configuration of the rollback target, which it names
-- as the deployment before; an incomplete one raises before the registry is told of anything. Only a
-- candidate, a model under review or a champion is made champion.
pub promote-Complete :
    (h : ManifestHash) (p : PromotionReviewPacket) (target : DeploymentMode)
    (reviewer note status at : String)
    → elem p.rollback_target.fallback_policy fallback_policies ≡ true
    → let (r, calls) = promote h p target reviewer note status at in
      (Complete p target reviewer note status
        × (((m : DeploymentManifest) × ((r ≡ ok m) × Promoted h p target reviewer at m))
            × (calls ≡ told p target note)))
      ⊎ ((¬ (Complete p target reviewer note status))
          × (((e : DeploymentError) × (r ≡ err e)) × (calls ≡ [])))
unfolding promote make_manifest
promote-Complete h p target reviewer note status at valid =
    let i = promotion_error-none p target reviewer note status in
    let m : DeploymentManifest = named h (promoted_fields p target reviewer at) in
    elim (Option-cases (promotion_error p target reviewer note status)) [
      | inl clear ↦
          rw (clear, valid)
            (inl (i.0 clear, ((m, (refl, named-Promoted h p target reviewer at)), refl)))
      | inr (e, raised) ↦
          rw raised (inr (λ c. absurd (some≢none e (sym raised ∙ i.1 c)), ((e, refl), refl)))
    ]
