-- ===== src/Handler/Context/Accepted.antt =====
-- Which messages `_createRequestContext` accepts, and what it leaves in the store.
use package.a2a_js.Prelude.{
  String, true, false, Option, none, some, List, [], ◌∷◌, ◌++◌, is_empty, truthy, All, or_else, ◌≡◌,
  ◌⊎◌, inl, inr, arith, refl, Bool-cases, eq_iff, sym, ap, subst, ◌∙◌,
}
use package.a2a_js.Types.{Message, Task, SendMessageRequest, AgentCard, AgentExtension}
use package.a2a_js.Context.{ServerCallContext}
use package.a2a_js.Errors.{
  Result, ok, err, extension_support_required, A2aError, throw_if, throw_if-ok, if-ok, >>=-ok,
}
use package.a2a_js.Store.Interface.{TaskStore}
use package.a2a_js.Handler.Context.{
  RequestContext, check_task, continued_task, create_request_context, create_with, with_task,
  resolve_request, is_terminal, has_context_mismatch, missing_required, card_extensions, contains,
  concat, join_uris,
}

-- `t` with a message at the end of its history.
abbrev pub with_message : Message → Task → Task
with_message m t = record t { history = t.history ++ m ∷ [] }

-- A task is continued exactly if it is stored, not terminal and of the message's context.
check_task-ok :
    (m : Message) (o : Option Task) (t' : Task)
    → check_task m o ≡ ok t'
    → (t : Task) × (o ≡ some t)
      × (is_terminal t ≡ false)
      × (has_context_mismatch m t ≡ false)
      × (t' ≡ with_message m t)
unfolding check_task
check_task-ok m none t' h = cc
check_task-ok m (some t) t' h =
    let (open_, h') = throw_if-ok (is_terminal t) _ _ t' h in
    let (fits, h'') = throw_if-ok (has_context_mismatch m t) _ _ t' h' in (t, refl, open_, fits, cc)

-- Every extension that the card requires is among the declared ones.
abbrev pub DeclaresRequired : List AgentExtension → List String → Type 0
DeclaresRequired exts requested =
    All (λ e. (e.required ≡ false) ⊎ (contains e.uri requested ≡ true)) exts

missing_required-nil :
    (exts : List AgentExtension) (requested : List String)
    → is_empty (missing_required exts requested) ≡ true
    → DeclaresRequired exts requested
unfolding missing_required
missing_required-nil [] requested h = tt
missing_required-nil (e ∷ es) requested h = ground (arith, missing_required-nil es requested)

module _ (ts : TaskStore) where
  open ts use {Store, save, load, load-save}

  -- What an accepted message has met, and what it leaves behind.
  pub record IsAccepted (card : AgentCard) (m : Message) (c : ServerCallContext) (s : Store)
      (rc : RequestContext) (s' : Store) : Type 0 where
    pub declares : DeclaresRequired (card_extensions card) (or_else c.requested_extensions [])
    pub origin :
        ((truthy m.task_id ≡ false) × (rc.task ≡ none) × (s' ≡ s))
        ⊎ ((t : Task) × (load m.task_id c s ≡ some t)
            × (is_terminal t ≡ false)
            × (has_context_mismatch m t ≡ false)
            × (rc.task ≡ some (with_message m t))
            × (s' ≡ save (with_message m t) c s))

  resolve_request-declares :
      (task_uuid context_uuid : String) (card : AgentCard) (request : SendMessageRequest)
      (m : Message) (c : ServerCallContext) (o : Option Task) (s : Store) (rc : RequestContext)
      → resolve_request ts task_uuid context_uuid card request m c o s ≡ ok rc
      → DeclaresRequired (card_extensions card) (or_else c.requested_extensions []) × (rc.task ≡ o)
  unfolding resolve_request
  resolve_request-declares task_uuid context_uuid card request m c o s rc h =
      let (declared, same) =
        if-ok (is_empty (missing_required (card_extensions card) _)) _ _ rc h in
      (
        missing_required-nil (card_extensions card) _ declared,
        sym (ap (λ (r : RequestContext). r.task) same),
      )

  with_task-ok :
      (s : Store) (r : Result (Option Task × Store))
      (k : Option Task → Store → Result RequestContext) (rc : RequestContext) (s' : Store)
      → with_task ts s r k ≡ (ok rc, s')
      → (o : Option Task) × (r ≡ ok (o, s')) × (k o s' ≡ ok rc)
  with_task-ok s (err e) k rc s' h = cc
  with_task-ok s (ok (o, t)) k rc s' h =
      let same : t ≡ s' = cc in
      let resolved : k o t ≡ ok rc = cc in (o, cc, subst (λ u. k o u ≡ ok rc) same resolved)

  abbrev Origin : Message → ServerCallContext → Store → Option Task → Store → Type 0
  Origin m c s o s' =
      ((truthy m.task_id ≡ false) × (o ≡ none) × (s' ≡ s))
      ⊎ ((t : Task) × (load m.task_id c s ≡ some t)
          × (is_terminal t ≡ false)
          × (has_context_mismatch m t ≡ false)
          × (o ≡ some (with_message m t))
          × (s' ≡ save (with_message m t) c s))

  continued_task-ok :
      (m : Message) (c : ServerCallContext) (s s' : Store) (o : Option Task)
      → continued_task ts m c s ≡ ok (o, s')
      → Origin m c s o s'
  unfolding continued_task
  continued_task-ok m c s s' o h = elim (Bool-cases (truthy m.task_id)) [
    | inl named ↦
        let (t', checked, done) =
          >>=-ok (check_task m (load m.task_id c s)) _ (o, s') (rw named at h) in
        let taken : o ≡ some t' = cc in
        let saved : s' ≡ save t' c s = cc in
        let (t, found, open_, fits, same) = check_task-ok m _ t' checked in
        inr (t, found, open_, fits, rw (← same) taken, rw (← same) saved)
    | inr new ↦ let done = rw new at h in inl (new, cc, cc)
  ]

  create_with-IsAccepted :
      (task_uuid context_uuid : String) (card : AgentCard) (request : SendMessageRequest)
      (m : Message) (c : ServerCallContext) (s s' : Store) (rc : RequestContext)
      → create_with ts task_uuid context_uuid card request c (some m) s ≡ (ok rc, s')
      → IsAccepted card m c s rc s'
  create_with-IsAccepted task_uuid context_uuid card request m c s s' rc h =
      let (o, continued, resolved) = with_task-ok s (continued_task ts m c s) _ rc s' h in
      let (declares, same) =
        resolve_request-declares task_uuid context_uuid card request m c o s' rc resolved in
      record { declares = declares; origin = rw same (continued_task-ok m c s s' o continued) }

  -- A message is accepted only from a client that declares every required extension, and only
  -- for a new task or for a stored task that is not terminal and whose context it does not
  -- contradict; that task is saved with the message at the end of its history, and the store is
  -- otherwise as before.
  pub create_request_context-IsAccepted :
      (task_uuid context_uuid : String) (card : AgentCard) (request : SendMessageRequest)
      (m : Message) (c : ServerCallContext) (s s' : Store) (rc : RequestContext)
      → request.message ≡ some m
      → create_request_context ts task_uuid context_uuid card request c s ≡ (ok rc, s')
      → IsAccepted card m c s rc s'
  unfolding create_request_context
  create_request_context-IsAccepted task_uuid context_uuid card request m c s s' rc given h =
      create_with-IsAccepted task_uuid context_uuid card request m c s s' rc (
        subst (λ o. create_with ts task_uuid context_uuid card request c o s ≡ (ok rc, s')) given h)

  continued_task_of_open :
      (m : Message) (c : ServerCallContext) (s : Store) (t : Task)
      → truthy m.task_id ≡ true
      → load m.task_id c s ≡ some t
      → is_terminal t ≡ false
      → has_context_mismatch m t ≡ false
      → continued_task ts m c s ≡ ok (some (with_message m t), save (with_message m t) c s)
  unfolding continued_task check_task
  continued_task_of_open m c s t named found open_ fits =
      rw (named, continued_task)
        (rw (found, check_task) (rw (open_, throw_if) (rw (fits, throw_if) refl)))

  resolve_request_refused :
      (task_uuid context_uuid : String) (card : AgentCard) (request : SendMessageRequest)
      (m : Message) (c : ServerCallContext) (o : Option Task) (s : Store)
      → is_empty (missing_required (card_extensions card) (or_else c.requested_extensions []))
        ≡ false
      → (e : A2aError) × (resolve_request ts task_uuid context_uuid card request m c o s ≡ err e)
  unfolding resolve_request
  resolve_request_refused task_uuid context_uuid card request m c o s h = (
    extension_support_required (
        concat "Client must declare support for required extensions: " (
          join_uris (missing_required (card_extensions card) (or_else c.requested_extensions [])))),
    rw h refl,
  )

  -- A message for a stored task that is not terminal and whose context it does not contradict,
  -- from a client that lacks a required extension, is refused, and yet the task is saved with
  -- the message in its history.
  pub refused_message_is_saved :
      (task_uuid context_uuid : String) (card : AgentCard) (request : SendMessageRequest)
      (m : Message) (c : ServerCallContext) (s : Store) (t : Task)
      → request.message ≡ some m
      → truthy m.task_id ≡ true
      → load m.task_id c s ≡ some t
      → t.id ≡ m.task_id
      → is_terminal t ≡ false
      → has_context_mismatch m t ≡ false
      → is_empty (missing_required (card_extensions card) (or_else c.requested_extensions []))
        ≡ false
      → let after = create_request_context ts task_uuid context_uuid card request c s in
        ((e : A2aError) × (after.0 ≡ err e)) × (load m.task_id c after.1 ≡ some (with_message m t))
  unfolding create_request_context
  refused_message_is_saved task_uuid context_uuid card request m c s t given named found keyed open_
        fits missing =
      let saved = save (with_message m t) c s in
      let refused =
        resolve_request_refused task_uuid context_uuid card request m c (some (with_message m t))
          saved missing in
      let created : create_with ts task_uuid context_uuid card request c request.message s ≡ (
        resolve_request ts task_uuid context_uuid card request m c (some (with_message m t)) saved,
        saved,
      ) =
        subst
          (λ o. create_with ts task_uuid context_uuid card request c o s ≡ (
            resolve_request ts task_uuid context_uuid card request m c (some (with_message m t))
                saved,
            saved,
          ))
          (sym given) (rw (continued_task_of_open m c s t named found open_ fits) refl) in
      let kept : load m.task_id c saved ≡ some (with_message m t) =
        ground (arith, load-save (with_message m t) c s m.task_id, eq_iff t.id m.task_id) in
      (
        (refused.0, ap (λ (r : Result RequestContext × Store). r.0) created ∙ refused.1),
        ap (λ (r : Result RequestContext × Store). load m.task_id c r.1) created ∙ kept,
      )
