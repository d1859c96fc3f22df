-- ===== src/Tests/Pushes.antt =====
-- A push notification config created, read and deleted.
use package.a2a_js.Prelude.{some, ◌≡◌, true, refl}
use package.a2a_js.Types.{TaskPushNotificationConfig, working}
use package.a2a_js.Context.{resolve_user_scope}
use package.a2a_js.Errors.{ok}
use package.a2a_js.Store.Scoped.{get_bucket, update_bucket, new_scoped_store}
use package.a2a_js.Store.Tasks
use package.a2a_js.Store.Push.{PushStore, load_with_metadata, with_id, save, delete_config}
use package.a2a_js.Store.Push.Laws.{AllUnique, save-AllUnique}
use package.a2a_js.Handler.Push.{with_push_task, create_config, get_config}
use package.a2a_js.Handler.Push
use package.a2a_js.Tests.Data.{
  task_store, caller, card_with, store_with, empty_push_store, push_config, config_request,
}

empty-AllUnique : AllUnique empty_push_store
unfolding load_with_metadata get_bucket new_scoped_store
empty-AllUnique id d = tt

-- The store with one config of the task, under the id "u1".
abbrev saved_store : PushStore
saved_store = (save "u1" "t1" caller push_config empty_push_store).0

abbrev saved_config : TaskPushNotificationConfig
saved_config = record push_config { id = "u1" }

saved-AllUnique : AllUnique saved_store
saved-AllUnique = save-AllUnique "u1" "t1" caller push_config empty_push_store empty-AllUnique

config_is_created :
    create_config task_store
      (card_with true)
      "u1"
      push_config
      caller
      (store_with working)
      empty_push_store
    ≡ ok (saved_config, saved_store)
unfolding create_config with_push_task Tasks.load Tasks.save get_bucket update_bucket
    new_scoped_store resolve_user_scope save with_id
config_is_created = refl

abbrev deleted_store : PushStore
deleted_store = delete_config "t1" caller (some "u1") saved_store

config_is_deleted :
    Push.delete_config task_store
      (card_with true)
      config_request
      caller
      (store_with working)
      saved_store
    ≡ ok deleted_store
unfolding Push.delete_config with_push_task Tasks.load Tasks.save get_bucket update_bucket
    new_scoped_store resolve_user_scope
config_is_deleted = refl
