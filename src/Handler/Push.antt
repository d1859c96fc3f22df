-- ===== src/Handler/Push.antt =====
-- The four operations on push notification configs.
pub mod Laws
use package.a2a_js.Prelude.{
  String, Bool, Option, none, some, List, [], ◌∷◌, find, is_true, if◌then◌else◌, ◌==◌,
}
use package.a2a_js.Types.{
  Task, TaskPushNotificationConfig, PushConfigRequest, ListPushConfigsResponse, AgentCard,
  AgentCapabilities,
}
use package.a2a_js.Context.{ServerCallContext}
use package.a2a_js.Errors.{Result, ok, err, ◌>>=◌, a2a_error, push_notification_not_supported}
use package.a2a_js.Store.Interface.{TaskStore}
use package.a2a_js.Store.Push.{PushStore}
use package.a2a_js.Store.Push
use package.a2a_js.Handler.Context.{concat}
use package.a2a_js.Handler.Tasks.{found_or}

abbrev push_flag : Option AgentCapabilities → Option Bool
push_flag none = none
push_flag (some c) = c.push_notifications

-- `agentCard.capabilities?.pushNotifications`.
abbrev pub supports_push : AgentCard → Bool
supports_push card = is_true (push_flag card.capabilities)

-- `configs.find((c) => c.id === id)` and its errors.
unfoldable pub pick_config :
    String → String → List TaskPushNotificationConfig → Result TaskPushNotificationConfig
pick_config task_id id [] =
    err (a2a_error (concat "Push notification config not found for task " (concat task_id ".")))
pick_config task_id id (x ∷ xs) = elim (find (λ c. c.id == id) (x ∷ xs)) [
  | none ↦ err (
      a2a_error (
        concat "Push notification config with id '"
          (concat id (concat "' not found for task " (concat task_id ".")))))
  | some c ↦ ok c
]

module _ (ts : TaskStore) (card : AgentCard) where
  open ts use {Store, load}

  -- The guards that the four operations share: the agent sends push notifications, and the caller
  -- has the task.
  unfoldable pub with_push_task : String → ServerCallContext → Store → Result Task
  with_push_task id c s =
      if supports_push card then found_or id (load id c s) else err push_notification_not_supported

  -- `uuid` is the value of `crypto.randomUUID()`.
  unfoldable pub create_config :
      String
      → TaskPushNotificationConfig
      → ServerCallContext
      → Store
      → PushStore
      → Result (TaskPushNotificationConfig × PushStore)
  create_config uuid config c s ps = do
    _ ← with_push_task config.task_id c s
    let (ps', stored) = Push.save uuid config.task_id c config ps
    ok (stored, ps')

  unfoldable pub get_config :
      PushConfigRequest → ServerCallContext → Store → PushStore → Result TaskPushNotificationConfig
  get_config q c s ps = do
    _ ← with_push_task q.task_id c s
    pick_config q.task_id q.id (Push.load q.task_id c ps)

  unfoldable pub list_configs :
      String → ServerCallContext → Store → PushStore → Result ListPushConfigsResponse
  list_configs task_id c s ps = do
    _ ← with_push_task task_id c s
    ok (record { configs = Push.load task_id c ps; next_page_token = "" })

  unfoldable pub delete_config :
      PushConfigRequest → ServerCallContext → Store → PushStore → Result PushStore
  delete_config q c s ps = do
    _ ← with_push_task q.task_id c s
    ok (Push.delete_config q.task_id c (some q.id) ps)
