-- ===== src/Compat/Messages/RoundTrip.antt =====
-- Which messages and artifacts survive the way to version 0.3 and back.
use package.a2a_js.Prelude.{
  true, false, not, ◌&&◌, List, [], ◌∷◌, or_else, truthy, All, All-imp, ◌==◌, ◌≡◌, ◌⊎◌, inl, inr,
  refl,
}
use package.a2a_js.Types.{Part, Message, Artifact, Role, role_user, role_agent}
use package.a2a_js.Errors.{Result, map_result}
use package.a2a_js.Compat.Enums.{to_core_role, to_compat_role}
use package.a2a_js.Compat.Parts.{Base64, to_core_part, to_compat_part}
use package.a2a_js.Compat.Parts.RoundTrip.{
  Survives, or_else-non_empty, IsPartCompat, IsInverse, part_survives,
}
use package.a2a_js.Compat.Messages.{
  non_empty_list, compat_message_of, compat_artifact_of, to_core_message, to_compat_message,
  to_core_artifact, to_compat_artifact,
}

pub or_else-non_empty_list {ℓ} : {A : Type ℓ} (xs : List A) → or_else (non_empty_list xs) [] ≡ xs
or_else-non_empty_list [] = refl
or_else-non_empty_list (x ∷ xs) = refl

-- A list survives if its entries do.
pub map_result-Survives {ℓ κ} :
    {A : Type ℓ} {B : Type κ} (f : A → Result B) (g : B → Result A) (as_ : List A)
    → All (Survives f g) as_
    → Survives (map_result f) (map_result g) as_
unfolding map_result
map_result-Survives f g [] h = ([], refl, refl)
map_result-Survives f g (a ∷ as_) ((b, there, back), rest) =
    let (bs, there_all, back_all) = map_result-Survives f g as_ rest in
    (b ∷ bs, rw (there, there_all) refl, rw (back, back_all) refl)

-- A role that both versions have.
abbrev pub IsRoleCompat : Role → Type 0
IsRoleCompat r = (r ≡ role_user) ⊎ (r ≡ role_agent)

abbrev pub IsMessageCompat : Message → Type 0
IsMessageCompat m = (truthy m.message_id ≡ true) × IsRoleCompat m.role × All IsPartCompat m.parts

abbrev pub IsArtifactCompat : Artifact → Type 0
IsArtifactCompat a = All IsPartCompat a.parts

role_survives :
    (r : Role)
    → IsRoleCompat r
    → (to_core_role (to_compat_role r) ≡ r)
      × ((not (to_compat_role r == "user") && not (to_compat_role r == "agent")) ≡ false)
unfolding to_core_role to_compat_role
role_survives r (inl e) = rw e (refl, refl)
role_survives r (inr e) = rw e (refl, refl)

module _ (b64 : Base64) (inverse : IsInverse b64) where
  parts_survive :
      (ps : List Part)
      → All IsPartCompat ps
      → Survives (map_result (to_compat_part b64)) (map_result (to_core_part b64)) ps
  parts_survive ps h = map_result-Survives (to_compat_part b64) (to_core_part b64) ps (
      All-imp IsPartCompat (Survives (to_compat_part b64) (to_core_part b64)) ps
        (λ p k. part_survives b64 p inverse k) h)

  pub artifact-Survives :
      (a : Artifact)
      → IsArtifactCompat a
      → Survives (to_compat_artifact b64) (to_core_artifact b64) a
  unfolding to_compat_artifact to_core_artifact
  artifact-Survives a h =
      let (ps, there, back) = parts_survive a.parts h in
      (
        compat_artifact_of a ps,
        rw there refl,
        rw
            (
              back,
              or_else-non_empty a.name,
              or_else-non_empty a.description,
              or_else-non_empty_list a.extensions,
            )
            refl,
      )

  pub message-Survives :
      (m : Message) → IsMessageCompat m → Survives (to_compat_message b64) (to_core_message b64) m
  unfolding to_compat_message to_core_message
  message-Survives m (named, known, compat) =
      let (ps, there, back) = parts_survive m.parts compat in
      let (same, valid) = role_survives m.role known in
      (
        compat_message_of m ps,
        rw there refl,
        rw
            (
              named,
              valid,
              back,
              same,
              or_else-non_empty m.context_id,
              or_else-non_empty m.task_id,
              or_else-non_empty_list m.extensions,
              or_else-non_empty_list m.reference_task_ids,
            )
            refl,
      )
