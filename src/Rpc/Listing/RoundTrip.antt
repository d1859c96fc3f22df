-- ===== src/Rpc/Listing/RoundTrip.antt =====
-- Reading a page of tasks that src/server/transports/list_tasks_serializer.ts wrote.
use package.a2a_js.Prelude.{
  ℤ, pos, negsuc, zero, suc, String, Bool, true, false, Option, none, some, List, [], ◌∷◌, JsMap,
  All, All-imp, get, set, delete, get-set, or_else, is_true, map, ◌==◌, ◌≡◌, arith, refl, ap, ◌∙◌,
  eq_iff, fun_ext, Bool-cases, inl, inr, if◌then◌else◌,
}
use package.a2a_js.Types.{
  Json, num, str, arr, obj, nil, Struct, fields_of, struct_of-fields_of, list_of-items_of, Artifact,
  Task, ListTasksResponse,
}
use package.a2a_js.Errors.{Result, ok, map_result}
use package.a2a_js.Codec.Fields.{
  JsPlatform, IsFaithful, MessageFns, entries_object, if_set, to_json, from_json, text_entry,
  number_entry, list_entry, read_list, read_elements, read_text, read_number, read_with,
}
use package.a2a_js.Codec.Messages.{message_fns}
use package.a2a_js.Codec.Tasks.{status_fns, artifact_fns, task_fns, read_task, task_entries}
use package.a2a_js.Codec.Responses.{list_response_fns, list_response_entries, read_list_response}
use package.a2a_js.Codec.RoundTrip.{
  flat, get-entries_object, has_unique_keys, read_text-text_entry, read_option-option_entry,
  read_struct-struct_entry, read_list-messages, map_result-map,
}
use package.a2a_js.Codec.RoundTrip.Messages.{from_json-to_json_message}
use package.a2a_js.Codec.RoundTrip.Tasks.{
  HasReadableParts, IsReadableStatus, IsReadableTask, from_json-to_json_status,
  from_json-to_json_task,
}
use package.a2a_js.Rpc.Listing.{
  artifacts_added, page_fields, with_materialized_artifacts, tasks_of,
  serialize_list_tasks_response,
}

-- An object that has one more entry reads like it, but for that entry.
from_json-set {ℓ} :
    {A : Type ℓ} (fns : MessageFns A) (k : String) (v : Json) (es : JsMap (Option Json))
    → has_unique_keys es ≡ true
    → from_json fns (obj (fields_of (set k v (entries_object es))))
      ≡ fns.read (λ j. if_set (if k == j then some v else flat (get j es)))
unfolding from_json
from_json-set fns k v es h = ap fns.read (
    fun_ext (λ j. ap if_set (
      ap (get j) (struct_of-fields_of (set k v (entries_object es)))
      ∙ get-set k j v (entries_object es)
      ∙ ap (λ (o : Option Json). if k == j then some v else o) (get-entries_object j es h))))

materialized_of_none :
    (m : Struct)
    → get "artifacts" m ≡ none
    → with_materialized_artifacts (obj (fields_of m))
      ≡ obj (fields_of (set "artifacts" (arr nil) m))
unfolding with_materialized_artifacts
materialized_of_none m e =
    ap (λ r. obj (fields_of (artifacts_added r))) (struct_of-fields_of m)
    ∙ ap (λ r. obj (fields_of r)) (rw (e, artifacts_added) refl)

materialized_of_some :
    (v : Json) (m : Struct)
    → get "artifacts" m ≡ some v
    → with_materialized_artifacts (obj (fields_of m)) ≡ obj (fields_of m)
unfolding with_materialized_artifacts
materialized_of_some v m e =
    ap (λ r. obj (fields_of (artifacts_added r))) (struct_of-fields_of m)
    ∙ ap (λ r. obj (fields_of r)) (rw (e, artifacts_added) refl)

read_list_of_nil :
    {A : Type 0} (read : Json → Result A) → read_list read (some (arr nil)) none ≡ ok []
unfolding read_list read_elements map_result
read_list_of_nil read = refl

or_else-text_entry : (s : String) → or_else (text_entry s) (str "") ≡ str s
unfolding text_entry
or_else-text_entry s = ground (arith, eq_iff s "")

tasks_of-list_entry :
    {A : Type 0} (f : A → Json) (xs : List A) → tasks_of (list_entry f xs) ≡ map f xs
unfolding list_entry
tasks_of-list_entry f [] = refl
tasks_of-list_entry f (x ∷ xs) = list_of-items_of (map f (x ∷ xs))

module _ (js : JsPlatform) (faithful : IsFaithful js) where
  open js use {literal}
  open faithful use {string_lem, number_lem}

  or_else-number_entry :
      (z : ℤ) → or_else (number_entry js z) (num (literal (pos 0))) ≡ num (literal z)
  unfolding number_entry
  or_else-number_entry (pos zero) = refl
  or_else-number_entry (pos (suc n)) = refl
  or_else-number_entry (negsuc n) = refl

  entries_of_response :
      (r : ListTasksResponse)
      → let m = entries_object (list_response_entries js r) in
        (get "tasks" m ≡ list_entry (to_json (task_fns js)) r.tasks)
        × (get "nextPageToken" m ≡ text_entry r.next_page_token)
        × (get "pageSize" m ≡ number_entry js r.page_size)
        × (get "totalSize" m ≡ number_entry js r.total_size)
  unfolding list_response_entries
  entries_of_response r =
      let found = λ (k : String). get-entries_object k (list_response_entries js r) refl in
      (found "tasks", found "nextPageToken", found "pageSize", found "totalSize")

  unique-task_entries : (t : Task) → has_unique_keys (task_entries js t) ≡ true
  unfolding task_entries
  unique-task_entries t = refl

  artifacts_of_entries :
      (t : Task)
      → get "artifacts" (entries_object (task_entries js t))
        ≡ list_entry (to_json (artifact_fns js)) t.artifacts
  unfolding task_entries
  artifacts_of_entries t = get-entries_object "artifacts" (task_entries js t) refl

  -- The properties of a task to which an empty list of artifacts is added.
  read_task_of_added :
      (t : Task)
      → IsReadableTask t
      → read_task js (λ k.
        if_set (if "artifacts" == k then some (arr nil) else flat (get k (task_entries js t))))
        ≡ ok (record t { artifacts = [] })
  unfolding read_task task_entries
  read_task_of_added t (s, a, h) =
      simp
        (
          read_list_of_nil,
          read_text-text_entry js faithful,
          read_struct-struct_entry js,
          read_option-option_entry (status_fns js) IsReadableStatus t.status
              (from_json-to_json_status js faithful) s,
          read_list-messages (message_fns js) HasReadableParts t.history
              (from_json-to_json_message js faithful) h,
        )
        refl

  materialized-reads :
      (as_ : List Artifact) (t : Task)
      → IsReadableTask (record t { artifacts = as_ })
      → from_json
          (task_fns js)
          (with_materialized_artifacts (to_json (task_fns js) (record t { artifacts = as_ })))
        ≡ ok (record t { artifacts = as_ })
  unfolding to_json list_entry
  materialized-reads [] t h =
      let t' : Task = record t { artifacts = [] } in
      ap (from_json (task_fns js))
        (materialized_of_none (entries_object (task_entries js t')) (artifacts_of_entries t'))
      ∙ from_json-set (task_fns js) "artifacts" (arr nil) (task_entries js t')
          (unique-task_entries t')
      ∙ read_task_of_added t' h
  materialized-reads (x ∷ xs) t h =
      let t' : Task = record t { artifacts = x ∷ xs } in
      ap (from_json (task_fns js))
        (materialized_of_some _ (entries_object (task_entries js t')) (artifacts_of_entries t'))
      ∙ from_json-to_json_task js faithful t' h

  -- The JSON of a task in a page.
  abbrev task_json : Option Bool → Task → Json
  task_json include_artifacts t =
      let v = to_json (task_fns js) t in
      if is_true include_artifacts then with_materialized_artifacts v else v

  task_json-reads :
      (b : Option Bool) (t : Task)
      → IsReadableTask t
      → from_json (task_fns js) (task_json b t) ≡ ok t
  task_json-reads b t h = elim (Bool-cases (is_true b)) [
    | inl included ↦ rw (included, task_json) (materialized-reads t.artifacts t h)
    | inr omitted ↦ rw (omitted, task_json) (from_json-to_json_task js faithful t h)
  ]

  page_tasks :
      (b : Option Bool) (ts : List Task)
      → (if is_true b
          then map with_materialized_artifacts (map (to_json (task_fns js)) ts)
          else map (to_json (task_fns js)) ts)
        ≡ map (task_json b) ts
  page_tasks none ts = refl
  page_tasks (some false) ts = refl
  page_tasks (some true) [] = refl
  page_tasks (some true) (t ∷ ts) =
      ap (λ vs. task_json (some true) t ∷ vs) (page_tasks (some true) ts)

  page_of_response :
      (r : ListTasksResponse) (b : Option Bool)
      → let m = entries_object (list_response_entries js r) in
        serialize_list_tasks_response js r b
        ≡ obj (
            fields_of (
              page_fields
                (map (task_json b) r.tasks)
                (str r.next_page_token)
                (num (literal r.page_size))
                (num (literal r.total_size))
                (delete "tasks"
                  (delete "nextPageToken" (delete "pageSize" (delete "totalSize" m))))))
  unfolding serialize_list_tasks_response
  page_of_response r b =
      let (t, n, p, q) = entries_of_response r in
      rw (t, n, p, q)
        (rw
          (
            tasks_of-list_entry (to_json (task_fns js)) r.tasks,
            or_else-text_entry r.next_page_token,
            or_else-number_entry r.page_size,
            or_else-number_entry r.total_size,
            page_tasks b r.tasks,
          )
          refl)

  -- A page of tasks that is serialized for the wire is read back, with or without its artifacts
  -- asked for. The data parts of its tasks must have values other than `null`.
  pub from_json-serialize_list_tasks_response :
      (r : ListTasksResponse) (b : Option Bool)
      → All IsReadableTask r.tasks
      → from_json (list_response_fns js) (serialize_list_tasks_response js r b) ≡ ok r
  unfolding read_list_response from_json read_text read_number read_with read_list read_elements
  from_json-serialize_list_tasks_response r b h =
      ap (from_json (list_response_fns js)) (page_of_response r b)
      ∙ simp
          (
            list_of-items_of (map (task_json b) r.tasks),
            map_result-map (from_json (task_fns js)) (task_json b) r.tasks (
                All-imp IsReadableTask (λ t. from_json (task_fns js) (task_json b t) ≡ ok t) r.tasks
                  (task_json-reads b) h),
            string_lem,
            number_lem,
          )
          refl
