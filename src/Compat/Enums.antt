-- ===== src/Compat/Enums.antt =====
-- src/compat/v0_3/translate/enums.ts: task states and roles in versions 1.0 and 0.3. A state of
-- version 0.3 is a string; one that names a property which every object inherits is not considered.
use package.a2a_js.Prelude.{
  String, Option, none, some, [], ◌∷◌, JsMap, get, or_else, All, refl, ◌≡◌, ◌==◌, if◌then◌else◌,
}
use package.a2a_js.Types.{
  TaskState, unspecified, submitted, working, completed, failed, canceled, input_required, rejected,
  auth_required, unknown_state, state_eq, Role, role_unspecified, role_user, role_agent,
  unrecognized,
}

-- `TASK_STATE_COMPAT_TO_CORE`.
abbrev pub compat_to_core : JsMap TaskState
compat_to_core =
    ("unknown", unspecified)
    ∷ ("submitted", submitted)
    ∷ ("working", working)
    ∷ ("completed", completed)
    ∷ ("failed", failed)
    ∷ ("canceled", canceled)
    ∷ ("input-required", input_required)
    ∷ ("rejected", rejected)
    ∷ ("auth-required", auth_required)
    ∷ []

-- `TASK_STATE_CORE_TO_COMPAT.get(s)`: the last literal that the table gives for a state.
unfoldable pub literal_of : TaskState → JsMap TaskState → Option String
literal_of s [] = none
literal_of s ((literal, t) ∷ rest) =
    let later = literal_of s rest in some_or later (if state_eq t s then some literal else none)
  where
    some_or : Option String → Option String → Option String
    some_or none o = o
    some_or (some l) o = some l

unfoldable pub to_core_task_state : String → TaskState
to_core_task_state literal = or_else (get literal compat_to_core) unspecified

unfoldable pub to_compat_task_state : TaskState → String
unfolding literal_of
to_compat_task_state s = or_else (literal_of s compat_to_core) "unknown"

unfoldable pub to_core_role : String → Role
to_core_role role =
    if role == "user" then role_user else if role == "agent" then role_agent else role_unspecified

unfoldable pub to_compat_role : Role → String
to_compat_role role_user = "user"
to_compat_role role_unspecified = "agent"
to_compat_role role_agent = "agent"
to_compat_role unrecognized = "agent"

-- A state survives the way to version 0.3 and back, except that an unrecognized one becomes
-- unspecified; and a literal of the table survives the way to version 1.0 and back.
pub to_core_task_state-to_compat_task_state :
    ((s : TaskState)
      → to_core_task_state (to_compat_task_state s)
        ≡ (if state_eq s unknown_state then unspecified else s))
    × All (λ e. to_compat_task_state (to_core_task_state e.0) ≡ e.0) compat_to_core
unfolding to_core_task_state to_compat_task_state
to_core_task_state-to_compat_task_state =
    (survives, (refl, (refl, (refl, (refl, (refl, (refl, (refl, (refl, (refl, tt))))))))))
  where
    survives :
        (s : TaskState)
        → to_core_task_state (to_compat_task_state s)
          ≡ (if state_eq s unknown_state then unspecified else s)
    survives unspecified = refl
    survives submitted = refl
    survives working = refl
    survives completed = refl
    survives failed = refl
    survives canceled = refl
    survives input_required = refl
    survives rejected = refl
    survives auth_required = refl
    survives unknown_state = refl
