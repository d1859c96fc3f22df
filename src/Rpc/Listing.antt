-- ===== src/Rpc/Listing.antt =====
-- src/server/transports/list_tasks_serializer.ts.
pub mod RoundTrip
use package.a2a_js.Prelude.{
  pos, String, Bool, true, false, Option, none, some, List, [], ◌∷◌, ◌++◌, map, get, set, delete,
  or_else, is_some, is_true, if◌then◌else◌,
}
use package.a2a_js.Types.{
  Json, null, bool, num, str, arr, obj, nil, Struct, struct_of, fields_of, list_of, items_of,
  ListTasksResponse,
}
use package.a2a_js.Codec.Fields.{JsPlatform, entries_object}
use package.a2a_js.Codec.Responses.{list_response_entries}

-- `{ ...task, artifacts: [] }` where the task has no `artifacts`.
abbrev pub artifacts_added : Struct → Struct
artifacts_added task =
    if is_some (get "artifacts" task) then task else set "artifacts" (arr nil) task

unfoldable pub with_materialized_artifacts : Json → Json
with_materialized_artifacts (obj fs) = obj (fields_of (artifacts_added (struct_of fs)))
with_materialized_artifacts v = v

-- `(tasks as unknown[]) ?? []`.
abbrev pub tasks_of : Option Json → List Json
tasks_of (some (arr vs)) = list_of vs
tasks_of _ = []

-- The object that is returned.
abbrev pub page_fields : List Json → Json → Json → Json → Struct → Struct
page_fields tasks next_page_token page_size total_size rest =
    ("tasks", arr (items_of tasks))
    ∷ ("nextPageToken", next_page_token)
    ∷ ("pageSize", page_size)
    ∷ ("totalSize", total_size)
    ∷ rest

module _ (js : JsPlatform) where
  open js use {literal}

  -- `serializeListTasksResponse(response, { includeArtifacts })`.
  unfoldable pub serialize_list_tasks_response : ListTasksResponse → Option Bool → Json
  unfolding with_materialized_artifacts
  serialize_list_tasks_response response include_artifacts =
      let serialized = entries_object (list_response_entries js response) in
      let tasks = tasks_of (get "tasks" serialized) in
      let rest =
        delete "tasks"
          (delete "nextPageToken" (delete "pageSize" (delete "totalSize" serialized))) in
      obj (
        fields_of (
          page_fields
            (if is_true include_artifacts then map with_materialized_artifacts tasks else tasks)
            (or_else (get "nextPageToken" serialized) (str ""))
            (or_else (get "pageSize" serialized) (num (literal (pos 0))))
            (or_else (get "totalSize" serialized) (num (literal (pos 0)))) rest))
