-- ===== src/Result/Artifacts.antt =====
-- The artifacts of a task after a merge and after an artifact update, looked up by id.
use package.a2a_js.Prelude.{
  String, Bool, false, not, ◌||◌, Option, none, some, List, [], ◌∷◌, ◌++◌, map, or_else, find,
  filter, is_some, JsMap, get, set, get-set, if◌then◌else◌, ◌==◌, ◌≡◌, arith, refl, eq_iff,
  Option-cases, inl, inr,
}
use mathlib.Core.Option
use package.a2a_js.Types.{Artifact}
use package.a2a_js.Result.Merge.{
  has_artifact, by_id, overlay, merge_artifacts, append_chunk, put_artifact,
}

abbrev pub find_artifact : String → List Artifact → Option Artifact
find_artifact id = find (λ a. a.artifact_id == id)

-- Each artifact id stands once.
abbrev pub HasUniqueArtifacts : List Artifact → Type 0
HasUniqueArtifacts [] = Unit
HasUniqueArtifacts (a ∷ rest) = (has_artifact a.artifact_id rest ≡ false) × HasUniqueArtifacts rest

-- What an artifact update makes of the artifact with its id.
abbrev pub updated : Bool → Artifact → Option Artifact → Artifact
updated append art none = art
updated append art (some a) = if append then append_chunk a art else art

-- An artifact update changes the artifact with its id and no other: it appends to that artifact
-- or replaces it, and adds it if there is none.
pub find_artifact-put_artifact :
    (append : Bool) (art : Artifact) (id : String) (as_ : List Artifact)
    → find_artifact id (put_artifact append art as_) ≡ (
        if art.artifact_id == id
        then some (updated append art (find_artifact id as_))
        else find_artifact id as_)
unfolding put_artifact
find_artifact-put_artifact append art id [] = refl
find_artifact-put_artifact append art id (a ∷ rest) = ground (
  arith,
  find_artifact-put_artifact append art id rest,
  eq_iff a.artifact_id art.artifact_id,
  eq_iff a.artifact_id id,
  eq_iff art.artifact_id id,
)

has_artifact-put_artifact :
    (append : Bool) (art : Artifact) (id : String) (as_ : List Artifact)
    → has_artifact id (put_artifact append art as_) ≡ (art.artifact_id == id || has_artifact id as_)
unfolding put_artifact
has_artifact-put_artifact append art id [] = refl
has_artifact-put_artifact append art id (a ∷ rest) = ground (
  arith,
  has_artifact-put_artifact append art id rest,
  eq_iff a.artifact_id art.artifact_id,
  eq_iff a.artifact_id id,
  eq_iff art.artifact_id id,
)

-- An artifact update keeps the ids of a task's artifacts distinct.
pub put_artifact-HasUniqueArtifacts :
    (append : Bool) (art : Artifact) (as_ : List Artifact)
    → HasUniqueArtifacts as_
    → HasUniqueArtifacts (put_artifact append art as_)
unfolding put_artifact
put_artifact-HasUniqueArtifacts append art [] h = (refl, tt)
put_artifact-HasUniqueArtifacts append art (a ∷ rest) (p, h) = ground (
  arith,
  put_artifact-HasUniqueArtifacts append art rest h,
  has_artifact-put_artifact append art a.artifact_id rest,
  eq_iff a.artifact_id art.artifact_id,
  eq_iff art.artifact_id a.artifact_id,
)

-- The map of the incoming artifacts, looked up by id.
get-by_id :
    (id : String) (m : JsMap Artifact) (as_ : List Artifact)
    → HasUniqueArtifacts as_
    → get id (by_id m as_) ≡ (if has_artifact id as_ then find_artifact id as_ else get id m)
unfolding by_id
get-by_id id m [] h = refl
get-by_id id m (a ∷ rest) (p, h) = ground (
  arith,
  get-by_id id (set a.artifact_id a m) rest h,
  get-set a.artifact_id id a m,
  eq_iff a.artifact_id id,
)

find_artifact-id :
    (id : String) (as_ : List Artifact) (a : Artifact)
    → find_artifact id as_ ≡ some a
    → a.artifact_id ≡ id
find_artifact-id id [] a h = cc
find_artifact-id id (b ∷ rest) a h =
    ground (arith, eq_iff b.artifact_id id, find_artifact-id id rest a)

has_artifact-find :
    (id : String) (as_ : List Artifact) → has_artifact id as_ ≡ is_some (find_artifact id as_)
has_artifact-find id [] = refl
has_artifact-find id (a ∷ rest) = ground (arith, has_artifact-find id rest)

-- The artifact that the merge puts in the place of a persisted one.
abbrev chosen : List Artifact → Artifact → Artifact
chosen incoming a = or_else (get a.artifact_id (by_id [] incoming)) a

chosen_lem :
    (incoming : List Artifact) (a : Artifact)
    → HasUniqueArtifacts incoming
    → chosen incoming a ≡ or_else (find_artifact a.artifact_id incoming) a
chosen_lem incoming a h =
    ground (arith, get-by_id a.artifact_id [] incoming h, has_artifact-find a.artifact_id incoming)

chosen-id :
    (incoming : List Artifact) (a : Artifact)
    → HasUniqueArtifacts incoming
    → (chosen incoming a).artifact_id ≡ a.artifact_id
chosen-id incoming a h = elim (Option-cases (find_artifact a.artifact_id incoming)) [
  | inl e ↦ rw (chosen_lem incoming a h, e) refl
  | inr (b, e) ↦ rw (chosen_lem incoming a h, e) (find_artifact-id a.artifact_id incoming b e)
]

find_artifact-map :
    (incoming : List Artifact) (id : String) (as_ : List Artifact)
    → HasUniqueArtifacts incoming
    → find_artifact id (map (chosen incoming) as_)
      ≡ Option.map (chosen incoming) (find_artifact id as_)
find_artifact-map incoming id [] h = refl
find_artifact-map incoming id (a ∷ rest) h =
    rw (chosen-id incoming a h) (ground (arith, find_artifact-map incoming id rest h))

find_artifact-filter :
    (persisted : List Artifact) (id : String) (as_ : List Artifact)
    → find_artifact id (filter (λ art. not (has_artifact art.artifact_id persisted)) as_)
      ≡ (if has_artifact id persisted then none else find_artifact id as_)
find_artifact-filter persisted id [] = ground arith
find_artifact-filter persisted id (a ∷ rest) =
    ground (arith, find_artifact-filter persisted id rest, eq_iff a.artifact_id id)

find_artifact-append :
    (id : String) (xs ys : List Artifact)
    → find_artifact id (xs ++ ys)
      ≡ (if has_artifact id xs then find_artifact id xs else find_artifact id ys)
find_artifact-append id [] ys = refl
find_artifact-append id (a ∷ xs) ys = ground (arith, find_artifact-append id xs ys)

find_artifact-overlay :
    (id : String) (persisted incoming : List Artifact)
    → HasUniqueArtifacts incoming
    → find_artifact id (overlay persisted incoming)
      ≡ (if has_artifact id incoming then find_artifact id incoming else find_artifact id persisted)
unfolding overlay
find_artifact-overlay id persisted incoming h =
    let old = map (chosen incoming) persisted in
    let new = filter (λ art. not (has_artifact art.artifact_id persisted)) incoming in
    rw
      (
        find_artifact-append id old new,
        has_artifact-find id old,
        find_artifact-map incoming id persisted h,
        find_artifact-filter persisted id incoming,
        has_artifact-find id persisted,
        has_artifact-find id incoming,
      )
      (find_chosen (find_artifact id persisted) refl)
  where
    find_chosen :
        (o : Option Artifact)
        → find_artifact id persisted ≡ o
        → (if is_some (Option.map (chosen incoming) o)
            then Option.map (chosen incoming) o
            else if is_some o
            then none
            else find_artifact id incoming)
          ≡ (if is_some (find_artifact id incoming) then find_artifact id incoming else o)
    find_chosen none e = ground arith
    find_chosen (some a) e =
        rw (chosen_lem incoming a h, find_artifact-id id persisted a e) (ground arith)

-- The artifact of an id after a merge: the incoming one if there is one, and otherwise the
-- persisted one. The incoming ids are distinct.
pub find_artifact-merge_artifacts :
    (id : String) (persisted incoming : List Artifact)
    → HasUniqueArtifacts incoming
    → find_artifact id (merge_artifacts persisted incoming)
      ≡ (if has_artifact id incoming then find_artifact id incoming else find_artifact id persisted)
unfolding merge_artifacts
find_artifact-merge_artifacts id [] incoming h = rw (has_artifact-find id incoming) (ground arith)
find_artifact-merge_artifacts id (p ∷ ps) [] h = refl
find_artifact-merge_artifacts id (p ∷ ps) (i ∷ is) h = find_artifact-overlay id (p ∷ ps) (i ∷ is) h
