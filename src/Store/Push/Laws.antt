-- ===== src/Store/Push/Laws.antt =====
-- What `load` returns after `save` and `delete`, for the same and for other calls.
use package.a2a_js.Prelude.{
  String, Bool, false, Option, none, some, List, [], ◌∷◌, ◌++◌, JsMap, get, set, delete, get-set,
  get-delete, or_else, is_empty, ◌≡◌, ◌==◌, ◌&&◌, arith, refl, eq_iff, if◌then◌else◌, inl, inr,
  Bool-cases, Option-cases, any, any-append,
}
use package.a2a_js.Types.{TaskPushNotificationConfig}
use package.a2a_js.Context.{ServerCallContext}
use package.a2a_js.Store.Scoped.{
  get_bucket, same_scope, get_bucket-update_bucket, get_bucket_of_same_scope,
}
use package.a2a_js.Store.Push.{
  StoredConfig, PushStore, bucket_entries, remove_config, with_id, put_entry, entry_of, save,
  load_with_metadata, delete_entry, delete_config,
}

abbrev pub has_config : String → List StoredConfig → Bool
has_config id = any (λ e. e.config.id == id)

-- Each config id stands once.
abbrev pub HasUniqueIds : List StoredConfig → Type 0
HasUniqueIds [] = Unit
HasUniqueIds (e ∷ es) = (has_config e.config.id es ≡ false) × HasUniqueIds es

has_config-remove_config :
    (id other : String) (es : List StoredConfig)
    → has_config other es ≡ false
    → has_config other (remove_config id es) ≡ false
unfolding remove_config
has_config-remove_config id other [] h = refl
has_config-remove_config id other (e ∷ es) h = ground (arith, has_config-remove_config id other es)

remove_config-HasUniqueIds :
    (id : String) (es : List StoredConfig) → HasUniqueIds es → HasUniqueIds (remove_config id es)
unfolding remove_config
remove_config-HasUniqueIds id [] h = tt
remove_config-HasUniqueIds id (e ∷ es) (p, h) =
    ground (arith, remove_config-HasUniqueIds id es h, has_config-remove_config id e.config.id es)

pub has_config-remove_self :
    (id : String) (es : List StoredConfig)
    → HasUniqueIds es
    → has_config id (remove_config id es) ≡ false
unfolding remove_config
has_config-remove_self id [] h = refl
has_config-remove_self id (e ∷ es) (p, h) =
    ground (arith, has_config-remove_self id es h, eq_iff e.config.id id)

HasUniqueIds-concat :
    (es : List StoredConfig) (e : StoredConfig)
    → HasUniqueIds es
    → has_config e.config.id es ≡ false
    → HasUniqueIds (es ++ e ∷ [])
HasUniqueIds-concat [] e h q = (refl, tt)
HasUniqueIds-concat (d ∷ es) e (p, h) q = ground (
  arith,
  any-append (λ (x : StoredConfig). x.config.id == d.config.id) es (e ∷ []),
  HasUniqueIds-concat es e h,
  eq_iff d.config.id e.config.id,
  eq_iff e.config.id d.config.id,
)

entries-put :
    (id other : String) (e : StoredConfig) (o : Option (JsMap (List StoredConfig)))
    → let bucket = or_else o [] in
      bucket_entries other (some (set id (put_entry e (or_else (get id bucket) [])) bucket))
      ≡ (if id == other then put_entry e (bucket_entries other o) else bucket_entries other o)
entries-put id other e none = ground (arith, eq_iff id other)
entries-put id other e (some bucket) =
    ground
      (arith, get-set id other (put_entry e (or_else (get id bucket) [])) bucket, eq_iff id other)

-- The entries of a task after a save, by a call of the same scope or of another one: the new
-- entry replaces the one with its id and comes last, and no other task or scope changes.
pub load_with_metadata-save :
    (uuid id other : String) (c d : ServerCallContext) (config : TaskPushNotificationConfig)
    (s : PushStore)
    → load_with_metadata other d (save uuid id c config s).0 ≡ (
        if same_scope s c d && id == other
        then put_entry (entry_of uuid c config) (load_with_metadata other d s)
        else load_with_metadata other d s)
unfolding load_with_metadata save
load_with_metadata-save uuid id other c d config s = elim (Bool-cases (same_scope s c d)) [
  | inl same ↦
      rw (get_bucket-update_bucket s c d _, same)
        (rw (← get_bucket_of_same_scope s c d same)
          (entries-put id other (entry_of uuid c config) (get_bucket s c)))
  | inr apart ↦ rw (get_bucket-update_bucket s c d _, apart) refl
]

entries-put_back :
    (id other : String) (left : List StoredConfig) (bucket : JsMap (List StoredConfig))
    → or_else (get other (if is_empty left then delete id bucket else set id left bucket)) []
      ≡ (if id == other then left else or_else (get other bucket) [])
entries-put_back id other [] bucket = rw (get-delete id other bucket) (ground arith)
entries-put_back id other (e ∷ es) bucket = rw (get-set id other (e ∷ es) bucket) (ground arith)

entries-delete :
    (id config_id other : String) (bucket : JsMap (List StoredConfig))
    → or_else (get other (delete_entry id config_id bucket)) [] ≡ (
        if id == other
        then remove_config config_id (or_else (get other bucket) [])
        else or_else (get other bucket) [])
unfolding remove_config
entries-delete id config_id other bucket = elim (Option-cases (get id bucket)) [
  | inl e ↦ rw (e, delete_entry) (ground (arith, eq_iff id other))
  | inr (entries, e) ↦
      rw (e, delete_entry)
        (rw (entries-put_back id other (remove_config config_id entries) bucket)
          (ground (arith, eq_iff id other)))
]

-- The entries of a task after a deletion: the entry with the config's id is gone, that of the
-- task's own id where no config id is given, and no other task or scope changes.
pub load_with_metadata-delete_config :
    (id other : String) (config_id : Option String) (c d : ServerCallContext) (s : PushStore)
    → load_with_metadata other d (delete_config id c config_id s) ≡ (
        if same_scope s c d && id == other
        then remove_config (or_else config_id id) (load_with_metadata other d s)
        else load_with_metadata other d s)
unfolding load_with_metadata delete_config
load_with_metadata-delete_config id other config_id c d s = elim (Option-cases (get_bucket s c)) [
  | inl e ↦ rw (e, delete_config) (ground (arith, get_bucket_of_same_scope s c d))
  | inr (bucket, e) ↦ elim (Bool-cases (same_scope s c d)) [
    | inl same ↦
        rw (e, delete_config)
          (rw (get_bucket-update_bucket s c d _, same)
            (rw (← get_bucket_of_same_scope s c d same, e)
              (entries-delete id (or_else config_id id) other bucket)))
    | inr apart ↦ rw (e, delete_config) (rw (get_bucket-update_bucket s c d _, apart) refl)
  ]
]

-- No task of any caller has two configs of one id.
abbrev pub AllUnique : PushStore → Type 0
AllUnique s = (id : String) (d : ServerCallContext) → HasUniqueIds (load_with_metadata id d s)

put_entry-HasUniqueIds :
    (e : StoredConfig) (es : List StoredConfig) → HasUniqueIds es → HasUniqueIds (put_entry e es)
put_entry-HasUniqueIds e es h =
    HasUniqueIds-concat (remove_config e.config.id es) e
      (remove_config-HasUniqueIds e.config.id es h) (has_config-remove_self e.config.id es h)

-- Saving a config keeps the ids of every task's configs distinct.
pub save-AllUnique :
    (uuid id : String) (c : ServerCallContext) (config : TaskPushNotificationConfig) (s : PushStore)
    → AllUnique s
    → AllUnique (save uuid id c config s).0
save-AllUnique uuid id c config s h other d = elim (Bool-cases (same_scope s c d && id == other)) [
  | inl hit ↦
      rw (load_with_metadata-save uuid id other c d config s, hit)
        (put_entry-HasUniqueIds (entry_of uuid c config) (load_with_metadata other d s) (h other d))
  | inr miss ↦ rw (load_with_metadata-save uuid id other c d config s, miss) (h other d)
]

-- Deleting a config keeps the ids of every task's configs distinct.
pub delete_config-AllUnique :
    (id : String) (config_id : Option String) (c : ServerCallContext) (s : PushStore)
    → AllUnique s
    → AllUnique (delete_config id c config_id s)
delete_config-AllUnique id config_id c s h other d =
    elim (Bool-cases (same_scope s c d && id == other)) [
      | inl hit ↦
          rw (load_with_metadata-delete_config id other config_id c d s, hit)
            (remove_config-HasUniqueIds (or_else config_id id) (load_with_metadata other d s)
              (h other d))
      | inr miss ↦ rw (load_with_metadata-delete_config id other config_id c d s, miss) (h other d)
    ]

pub config-save :
    (uuid id : String) (c : ServerCallContext) (config : TaskPushNotificationConfig) (s : PushStore)
    → (save uuid id c config s).1 ≡ with_id uuid config
unfolding save
config-save uuid id c config s = refl
