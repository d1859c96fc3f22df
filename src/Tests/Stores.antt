-- ===== src/Tests/Stores.antt =====
-- The scoped stores with a caller and a stranger.
use package.a2a_js.Prelude.{false, none, some, [], ◌≡◌, ◌==◌, ◌&&◌, if◌then◌else◌}
use package.a2a_js.Types.{working, completed}
use package.a2a_js.Context.{ServerCallContext}
use package.a2a_js.Store.Scoped.{get_bucket, update_bucket, same_scope}
use package.a2a_js.Store.Tasks.{load, save}
use package.a2a_js.Store.Tasks.Scope.{load-save_by_scope}
use package.a2a_js.Prelude.{suc, ◌∷◌, pos, length, All, ◌≤◌, refl}
use package.a2a_js.Types.{Task, ListTasksRequest, ListTasksResponse}
use package.a2a_js.Errors.{ok}
use package.a2a_js.Context.{resolve_user_scope}
use package.a2a_js.Store.Scoped.{new_scoped_store}
use package.a2a_js.Store.Tasks.{
  list, matching, skip_to, next_token, filter_context, filter_status, filter_after, sort_tasks,
  insert_sorted, compare_tasks, timestamp_of, InMemoryTaskStore,
}
use package.a2a_js.Store.Tasks.Listing.{Passes, list-Passes}
use package.a2a_js.Store.Tasks.Paging.{HasUniqueTasks, has_bar}
use package.a2a_js.Store.Tasks.Pages.{given_out, read_pages, list-all_pages}
use package.a2a_js.Tests.Data.{platform, caller, store_with, task_of}

abbrev stranger : ServerCallContext
stranger = record caller { user = none }

load-save_by_scope_example :
    load "t1" stranger (save (task_of completed) caller (store_with working)) ≡ (
      if same_scope (store_with working) caller stranger && (task_of completed).id == "t1"
      then some (task_of completed)
      else load "t1" stranger (store_with working))
load-save_by_scope_example =
    load-save_by_scope (task_of completed) caller stranger (store_with working) "t1"

abbrev list_request : ListTasksRequest
list_request = record {
  tenant = "acme";
  context_id = "ctx";
  status = working;
  page_size = some (pos 1);
  page_token = "";
  history_length = none;
  status_timestamp_after = none;
  include_artifacts = none;
}

abbrev listed : ListTasksResponse
listed = record {
  tasks = task_of working ∷ [];
  next_page_token = "";
  page_size = pos 1;
  total_size = pos 1;
}

lists : list platform list_request caller (store_with working) ≡ ok listed
unfolding list matching skip_to filter_context filter_status filter_after sort_tasks next_token save
    get_bucket update_bucket new_scoped_store resolve_user_scope
lists = refl

list-Passes_example :
    (length listed.tasks ≤ 1)
    × All (Passes list_request) listed.tasks
    × (listed.total_size
        ≡ pos (length (matching platform list_request caller (store_with working))))
list-Passes_example =
    list-Passes platform list_request caller (store_with working) 1 listed refl lists

abbrev second_task : Task
second_task = record (task_of working) { id = "t2" }

abbrev third_task : Task
third_task = record (task_of working) { id = "t3" }

abbrev store_of_three : InMemoryTaskStore
store_of_three = save third_task caller (save second_task caller (store_with working))

three_are_unique : HasUniqueTasks (matching platform list_request caller store_of_three)
unfolding matching filter_context filter_status filter_after sort_tasks save get_bucket
    update_bucket new_scoped_store resolve_user_scope insert_sorted compare_tasks
three_are_unique = (refl, (refl, (refl, tt)))

no_bars :
    All
      (λ t. has_bar (timestamp_of t) ≡ false)
      (matching platform list_request caller store_of_three)
unfolding matching filter_context filter_status filter_after sort_tasks save get_bucket
    update_bucket new_scoped_store resolve_user_scope insert_sorted compare_tasks
no_bars = (refl, (refl, (refl, tt)))

list-all_pages_example :
    read_pages platform list_request caller store_of_three
      (suc (length (matching platform list_request caller store_of_three)))
      ""
    ≡ some (given_out list_request (matching platform list_request caller store_of_three))
list-all_pages_example =
    list-all_pages platform (λ s. refl) refl list_request caller store_of_three 0 refl
      three_are_unique no_bars
