-- ===== src/Deployment/Pointer.antt =====
-- src/spy_der/deployment/rollback.py: the pointer to the manifest in force, with those before it.
pub mod History
use Prim.Native.String.{◌++◌}
use mathlib.Core.List.{◌++◌ as ◌+++◌}
use spy_der.Prelude.{String, true, false, not, ◌&&◌, Option, none, some, List, [], ◌∷◌}
use spy_der.Prelude.Text.{str_eq}
use spy_der.Prelude.Effects.{
  Result, ok, err, Action, pure, raise, get, modify, require, ◌>>=◌, ◌>>◌,
}
use spy_der.Deployment.Manifest.{
  DeploymentMode, DeploymentError, DeploymentManifest, ManifestHash, make_manifest,
}

pub record DeploymentPointer : Type 0 where
  pub current : DeploymentManifest
  pub history : List DeploymentManifest

-- `history.pop()`: what is left and what was last.
unfoldable pub pop_last :
    List DeploymentManifest → Option (List DeploymentManifest × DeploymentManifest)
pop_last [] = none
pop_last (m ∷ []) = some ([], m)
pop_last (m ∷ (n ∷ ms)) = elim (pop_last (n ∷ ms)) [
  | none ↦ none
  | some (rest, last) ↦ some (m ∷ rest, last)
]

abbrev pub noted : DeploymentManifest → String → List String
noted m note = m.notes +++ (note ∷ [])

abbrev pub from_result :
    {A : Type 0} → Result DeploymentError A → Action DeploymentError DeploymentPointer A
from_result (ok a) p = (ok a, p)
from_result (err e) p = (err e, p)

unfoldable pub activate :
    DeploymentManifest → Action DeploymentError DeploymentPointer DeploymentManifest
activate m = do
  p ← get
  require (not (p.current.frozen && not (str_eq m.deployment_id p.current.deployment_id)))
      DeploymentError.deployment_is_frozen
  modify (λ q. record q { current = m; history = q.history +++ (q.current ∷ []) })
  pure m

abbrev pub thawed : DeploymentMode → DeploymentMode
thawed DeploymentMode.frozen = DeploymentMode.shadow
thawed m = m

abbrev pub restored : DeploymentManifest → String → String → DeploymentManifest
restored target reason from = record target {
  mode = thawed target.mode;
  frozen = false;
  notes = noted target ("rollback:" ++ reason);
  previous_deployment_id = some from;
}

-- A manifest that is put in force in the place of the current one.
abbrev pub put_in_force :
    Result DeploymentError DeploymentManifest
    → Action DeploymentError DeploymentPointer DeploymentManifest
put_in_force made = do m ← from_result made; modify (λ q. record q { current = m }); pure m

module _ (content_hash : ManifestHash) where
  unfoldable pub freeze_deployment :
      String → Action DeploymentError DeploymentPointer DeploymentManifest
  freeze_deployment reason = do
    p ← get
    put_in_force (
        make_manifest content_hash (record p.current {
          mode = DeploymentMode.frozen;
          frozen = true;
          notes = noted p.current ("freeze:" ++ reason);
        }))

  abbrev pub put_back :
      String → DeploymentManifest → Action DeploymentError DeploymentPointer DeploymentManifest
  put_back reason target = do
    p ← get
    put_in_force (make_manifest content_hash (restored target reason p.current.deployment_id))

  -- What follows once the last entry has left the history.
  abbrev pub roll_to :
      String → DeploymentManifest → Action DeploymentError DeploymentPointer DeploymentManifest
  roll_to reason target = do
    require (not target.frozen) DeploymentError.rollback_target_frozen
    put_back reason target

  abbrev pub roll_from :
      String
      → Option (List DeploymentManifest × DeploymentManifest)
      → Action DeploymentError DeploymentPointer DeploymentManifest
  roll_from reason none = raise DeploymentError.no_previous_deployment
  roll_from reason (some (rest, target)) = do
    modify (λ q. record q { history = rest })
    roll_to reason target

  unfoldable pub rollback_deployment :
      String → Action DeploymentError DeploymentPointer DeploymentManifest
  unfolding pop_last
  rollback_deployment reason = do p ← get; roll_from reason (pop_last p.history)
