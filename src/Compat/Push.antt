-- ===== src/Compat/Push.antt =====
-- src/compat/v0_3/translate/push_notifications.ts.
use package.a2a_js.Prelude.{String, List, [], ◌∷◌, or_else, truthy, if◌then◌else◌}
use mathlib.Core.Option
use package.a2a_js.Types.{AuthenticationInfo, TaskPushNotificationConfig}
use package.a2a_js.Compat.Legacy.{
  LegacyAuthenticationInfo, LegacyPushNotificationConfig, LegacyTaskPushNotificationConfig,
}
use package.a2a_js.Compat.Parts.{non_empty}

abbrev first_or_empty : List String → String
first_or_empty [] = ""
first_or_empty (s ∷ ss) = s

unfoldable pub to_core_authentication_info : LegacyAuthenticationInfo → AuthenticationInfo
to_core_authentication_info a = record {
  scheme = first_or_empty a.schemes;
  credentials = or_else a.credentials "";
}

unfoldable pub to_compat_authentication_info : AuthenticationInfo → LegacyAuthenticationInfo
to_compat_authentication_info a = record {
  schemes = if truthy a.scheme then a.scheme ∷ [] else [];
  credentials = non_empty a.credentials;
}

unfoldable pub to_core_push_notification_config :
    LegacyPushNotificationConfig → String → TaskPushNotificationConfig
unfolding to_core_authentication_info
to_core_push_notification_config c tenant = record {
  tenant = tenant;
  task_id = "";
  id = or_else c.id "";
  url = c.url;
  token = or_else c.token "";
  authentication = Option.map to_core_authentication_info c.authentication;
}

unfoldable pub to_compat_push_notification_config :
    TaskPushNotificationConfig → LegacyPushNotificationConfig
unfolding to_compat_authentication_info
to_compat_push_notification_config c = record {
  url = c.url;
  id = non_empty c.id;
  token = non_empty c.token;
  authentication = Option.map to_compat_authentication_info c.authentication;
}

unfoldable pub to_core_task_push_notification_config :
    LegacyTaskPushNotificationConfig → String → TaskPushNotificationConfig
unfolding to_core_authentication_info
to_core_task_push_notification_config c tenant = record {
  tenant = tenant;
  task_id = c.task_id;
  id = or_else c.push_notification_config.id "";
  url = c.push_notification_config.url;
  token = or_else c.push_notification_config.token "";
  authentication = Option.map to_core_authentication_info c.push_notification_config.authentication;
}

unfoldable pub to_compat_task_push_notification_config :
    TaskPushNotificationConfig → LegacyTaskPushNotificationConfig
unfolding to_compat_push_notification_config
to_compat_task_push_notification_config c = record {
  task_id = c.task_id;
  push_notification_config = to_compat_push_notification_config c;
}
