-- ===== src/Tests/Cancels.antt =====
-- Cancelling a task of the in-memory store.
use package.a2a_js.Prelude.{none, some, [], ◌≡◌, ◌≢◌, refl}
use package.a2a_js.Types.{Task, working, canceled, failed, TaskState}
use package.a2a_js.Context.{resolve_user_scope}
use package.a2a_js.Errors.{ok}
use package.a2a_js.Store.Scoped.{get_bucket, update_bucket, new_scoped_store}
use package.a2a_js.Store.Tasks.{InMemoryTaskStore, load, save}
use package.a2a_js.Handler.Tasks.{cancel_task, carry_out, mark_canceled}
use package.a2a_js.Handler.Tasks.Cancel.{cancel_task_idempotent}
use package.a2a_js.Tests.Data.{task_store, caller, store_with, task_of, cancel_request}

abbrev canceled_task : Task
canceled_task = mark_canceled "u1" "12:05" (task_of working)

abbrev canceled_store : InMemoryTaskStore
canceled_store = save canceled_task caller (store_with working)

is_stored : (s : TaskState) → load "t1" caller (store_with s) ≡ some (task_of s)
unfolding load save get_bucket update_bucket new_scoped_store resolve_user_scope
is_stored s = refl

is_cancelled :
    cancel_task task_store "u1" "12:05" none cancel_request caller (store_with working)
    ≡ (ok canceled_task, canceled_store)
unfolding cancel_task carry_out load save get_bucket update_bucket new_scoped_store
    resolve_user_scope mark_canceled
is_cancelled = refl

cancel_task_idempotent_example :
    (load "t1" caller canceled_store ≡ some canceled_task)
    × (some canceled ≡ some canceled)
    × (cancel_task task_store "u1" "12:05" (some []) cancel_request caller canceled_store
        ≡ (ok canceled_task, canceled_store))
unfolding mark_canceled
cancel_task_idempotent_example =
    cancel_task_idempotent task_store "u1" "12:05" none (some []) cancel_request caller
      (store_with working) canceled_store canceled_task is_cancelled

not_canceled : some failed ≢ some canceled
not_canceled e = cc
