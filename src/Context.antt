-- ===== src/Context.antt =====
-- src/server/context.ts, src/server/authentication/user.ts, src/server/owner_resolver.ts and
-- src/extensions.ts: who calls, for which tenant, with which extensions. The `state` bag of a
-- context, which no modelled code reads, is left out.
pub mod Header
use package.a2a_js.Prelude.{
  String, Bool, Option, none, some, List, [], ◌∷◌, ◌++◌, or_string, any, ◌==◌, if◌then◌else◌,
}

pub record User : Type 0 where
  pub is_authenticated : Bool
  pub user_name : String

pub record ServerCallContext : Type 0 where
  pub requested_extensions : Option (List String)
  pub user : Option User
  pub requested_version : String
  pub tenant : Option String
  pub activated_extensions : Option (List String)

abbrev pub OwnerResolver : Type 0
OwnerResolver = ServerCallContext → String

-- `context.user?.userName`, read as a string.
abbrev user_name_or : Option User → String → String
user_name_or none other = other
user_name_or (some u) other = or_string u.user_name other

unfoldable pub resolve_user_scope : OwnerResolver
resolve_user_scope c = user_name_or c.user "unknown"

-- `Extensions.createFrom`.
unfoldable pub create_from : Option (List String) → String → List String
create_from none additional = additional ∷ []
create_from (some current) additional =
    if any (λ e. e == additional) current then current else current ++ additional ∷ []

pub add_activated_extension : ServerCallContext → String → ServerCallContext
add_activated_extension c uri = record c {
  activated_extensions = some (create_from c.activated_extensions uri);
}

unfoldable pub set_requested_extensions :
    ServerCallContext → Option (List String) → ServerCallContext
set_requested_extensions c extensions = record c { requested_extensions = extensions }
