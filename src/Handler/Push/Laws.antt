-- ===== src/Handler/Push/Laws.antt =====
-- Creating, reading and deleting a push notification config.
use package.a2a_js.Prelude.{
  String, true, false, none, some, List, [], ◌∷◌, ◌++◌, map, find, ◌==◌, ◌≡◌, arith, refl, eq_refl,
}
use package.a2a_js.Types.{TaskPushNotificationConfig, PushConfigRequest, AgentCard}
use package.a2a_js.Context.{ServerCallContext}
use package.a2a_js.Errors.{ok, >>=-ok, is_err}
use package.a2a_js.Store.Interface.{TaskStore}
use package.a2a_js.Store.Scoped.{same_scope_refl}
use package.a2a_js.Store.Push.{
  PushStore, StoredConfig, remove_config, put_entry, entry_of, with_id, load_with_metadata, load,
}
use package.a2a_js.Store.Push
use package.a2a_js.Store.Push.Laws.{
  AllUnique, has_config, load_with_metadata-save, load_with_metadata-delete_config,
  has_config-remove_self, config-save,
}
use package.a2a_js.Handler.Push.{
  with_push_task, pick_config, create_config, get_config, delete_config,
}

find_config-concat :
    (e : StoredConfig) (es : List StoredConfig)
    → has_config e.config.id es ≡ false
    → find (λ c. c.id == e.config.id) (map (λ x. x.config) (es ++ e ∷ [])) ≡ some e.config
find_config-concat e [] h = rw eq_refl refl
find_config-concat e (x ∷ es) h = ground (arith, find_config-concat e es)

pick_config_of_find :
    (task_id id : String) (cs : List TaskPushNotificationConfig) (c : TaskPushNotificationConfig)
    → find (λ x. x.id == id) cs ≡ some c
    → pick_config task_id id cs ≡ ok c
unfolding pick_config
pick_config_of_find task_id id [] c h = cc
pick_config_of_find task_id id (x ∷ xs) c h = ground arith

find_config-none :
    (id : String) (es : List StoredConfig)
    → has_config id es ≡ false
    → find (λ c. c.id == id) (map (λ x. x.config) es) ≡ none
find_config-none id [] h = refl
find_config-none id (e ∷ es) h = ground (arith, find_config-none id es)

pick_config_of_none :
    (task_id id : String) (cs : List TaskPushNotificationConfig)
    → find (λ x. x.id == id) cs ≡ none
    → is_err (pick_config task_id id cs) ≡ true
unfolding pick_config
pick_config_of_none task_id id [] h = refl
pick_config_of_none task_id id (x ∷ xs) h = ground arith

find_config-save :
    (uuid id : String) (config : TaskPushNotificationConfig) (c : ServerCallContext)
    (ps : PushStore)
    → AllUnique ps
    → find (λ x. x.id == (with_id uuid config).id) (load id c (Push.save uuid id c config ps).0)
      ≡ some (with_id uuid config)
unfolding load entry_of
find_config-save uuid id config c ps unique =
    let e = entry_of uuid c config in
    rw (load_with_metadata-save uuid id id c c config ps, same_scope_refl ps c, eq_refl)
      (find_config-concat e (remove_config e.config.id (load_with_metadata id c ps))
        (has_config-remove_self e.config.id (load_with_metadata id c ps) (unique id c)))

find_config-delete_config :
    (id config_id : String) (c : ServerCallContext) (ps : PushStore)
    → AllUnique ps
    → find (λ x. x.id == config_id) (load id c (Push.delete_config id c (some config_id) ps)) ≡ none
unfolding load
find_config-delete_config id config_id c ps unique =
    rw
      (
        load_with_metadata-delete_config id id (some config_id) c c ps,
        same_scope_refl ps c,
        eq_refl,
      )
      (find_config-none config_id (remove_config config_id (load_with_metadata id c ps))
        (has_config-remove_self config_id (load_with_metadata id c ps) (unique id c)))

module _ (ts : TaskStore) (card : AgentCard) where
  open ts use {Store}

  -- The config that Create returns is the one that Get returns for the same task under the id
  -- that Create gave it. No task had two configs of one id before.
  pub get_config-create_config :
      (uuid : String) (config stored : TaskPushNotificationConfig) (c : ServerCallContext)
      (s : Store) (ps ps' : PushStore) (q : PushConfigRequest)
      → AllUnique ps
      → create_config ts card uuid config c s ps ≡ ok (stored, ps')
      → q.task_id ≡ config.task_id
      → q.id ≡ stored.id
      → get_config ts card q c s ps' ≡ ok stored
  unfolding create_config get_config
  get_config-create_config uuid config stored c s ps ps' q unique h same same_id =
      let (t, found, made) = >>=-ok (with_push_task ts card config.task_id c s) _ _ h in
      let ps_eq : (Push.save uuid config.task_id c config ps).0 ≡ ps' = cc in
      let stored_eq : with_id uuid config ≡ stored =
        cc (config-save uuid config.task_id c config ps) in
      rw (same, found)
        (pick_config_of_find config.task_id q.id (load config.task_id c ps') stored (
          rw (same_id, ← ps_eq, ← stored_eq)
            (find_config-save uuid config.task_id config c ps unique)))

  -- A config that was deleted is not found any more by the same request: Get throws. No task had
  -- two configs of one id before.
  pub get_config-delete_config :
      (c : ServerCallContext) (s : Store) (ps ps' : PushStore) (q : PushConfigRequest)
      → AllUnique ps
      → delete_config ts card q c s ps ≡ ok ps'
      → is_err (get_config ts card q c s ps') ≡ true
  unfolding delete_config get_config
  get_config-delete_config c s ps ps' q unique h =
      let (t, found, made) = >>=-ok (with_push_task ts card q.task_id c s) _ _ h in
      let ps_eq : Push.delete_config q.task_id c (some q.id) ps ≡ ps' = cc in
      rw found (
        pick_config_of_none q.task_id q.id (load q.task_id c ps')
          (rw (← ps_eq) (find_config-delete_config q.task_id q.id c ps unique)))
