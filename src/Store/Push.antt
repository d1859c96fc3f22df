-- ===== src/Store/Push.antt =====
-- `InMemoryPushNotificationStore` of src/server/push_notification/push_notification_store.ts.
pub mod Laws
use package.a2a_js.Prelude.{
  String, Option, none, some, List, [], ◌∷◌, ◌++◌, map, JsMap, get, set, delete, truthy, or_else,
  or_string, is_empty, if◌then◌else◌, ◌==◌,
}
use package.a2a_js.Types.{TaskPushNotificationConfig}
use package.a2a_js.Context.{ServerCallContext}
use package.a2a_js.Store.Scoped.{ScopedStore, get_bucket, update_bucket}

-- A config with the wire version that it was registered over.
pub record StoredConfig : Type 0 where
  pub config : TaskPushNotificationConfig
  pub wire_version : String

abbrev pub PushStore : Type 0
PushStore = ScopedStore (List StoredConfig)

abbrev pub legacy_protocol_version : String
legacy_protocol_version = "0.3"

-- `bucket?.get(taskId)`, or no entries.
abbrev pub bucket_entries : String → Option (JsMap (List StoredConfig)) → List StoredConfig
bucket_entries id none = []
bucket_entries id (some bucket) = or_else (get id bucket) []

-- `findIndex` on the config's id and `splice` of the index that it finds.
unfoldable pub remove_config : String → List StoredConfig → List StoredConfig
remove_config id [] = []
remove_config id (e ∷ es) =
    let rest = remove_config id es in if e.config.id == id then es else e ∷ rest

-- The id that Create assigns to a config that came without one.
unfoldable pub with_id : String → TaskPushNotificationConfig → TaskPushNotificationConfig
with_id uuid config = record config { id = or_string config.id uuid }

abbrev pub put_entry : StoredConfig → List StoredConfig → List StoredConfig
put_entry e entries = remove_config e.config.id entries ++ e ∷ []

-- The entry that `save` puts behind the task's others.
unfoldable pub entry_of : String → ServerCallContext → TaskPushNotificationConfig → StoredConfig
unfolding with_id
entry_of uuid c config = record {
  config = with_id uuid config;
  wire_version = or_string c.requested_version legacy_protocol_version;
}

-- The store after `save`, and the caller's config, into which an id is written. `uuid` is the
-- value of `crypto.randomUUID()`.
unfoldable pub save :
    String
    → String
    → ServerCallContext
    → TaskPushNotificationConfig
    → PushStore
    → PushStore × TaskPushNotificationConfig
save uuid id c config s = (
  update_bucket s c
      (λ bucket. set id (put_entry (entry_of uuid c config) (or_else (get id bucket) [])) bucket),
  with_id uuid config,
)

unfoldable pub load_with_metadata : String → ServerCallContext → PushStore → List StoredConfig
load_with_metadata id c s = bucket_entries id (get_bucket s c)

unfoldable pub load : String → ServerCallContext → PushStore → List TaskPushNotificationConfig
unfolding load_with_metadata
load id c s = map (λ e. e.config) (load_with_metadata id c s)

-- What `delete` leaves in the bucket.
abbrev delete_entry : String → String → JsMap (List StoredConfig) → JsMap (List StoredConfig)
delete_entry id config_id bucket = elim (get id bucket) [
  | none ↦ bucket
  | some entries ↦
      if is_empty (remove_config config_id entries)
      then delete id bucket
      else set id (remove_config config_id entries) bucket
]

-- A missing config id stands for the task's id.
unfoldable pub delete_config : String → ServerCallContext → Option String → PushStore → PushStore
unfolding remove_config
delete_config id c config_id s = elim (get_bucket s c) [
  | none ↦ s
  | some _ ↦ update_bucket s c (delete_entry id (or_else config_id id))
]
