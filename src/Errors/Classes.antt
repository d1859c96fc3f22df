-- ===== src/Errors/Classes.antt =====
-- The registry of semantic errors and the objects of `A2AError` of src/errors/base.ts. A look-up of
-- a name that every JavaScript object inherits, such as `constructor`, is not modelled.
use package.a2a_js.Prelude.{
  ℕ, ℤ, String, Option, none, some, List, [], ◌∷◌, JsMap, or_else, find, is_empty, if◌then◌else◌,
  ◌==◌,
}
use package.a2a_js.Types.{str, obj, Struct, fields_of}

pub record ErrorSpec : Type 0 where
  pub name : String
  pub reason : String
  pub default_message : String

abbrev spec : String → String → String → ErrorSpec
spec name reason text = record { name = name; reason = reason; default_message = text }

abbrev pub error_specs : List ErrorSpec
error_specs =
    spec "TaskNotFoundError" "TASK_NOT_FOUND" "Task not found"
    ∷ spec "TaskNotCancelableError" "TASK_NOT_CANCELABLE" "Task cannot be canceled"
    ∷ spec "PushNotificationNotSupportedError" "PUSH_NOTIFICATION_NOT_SUPPORTED"
        "Push Notification is not supported"
    ∷ spec "UnsupportedOperationError" "UNSUPPORTED_OPERATION" "This operation is not supported"
    ∷ spec "ContentTypeNotSupportedError" "CONTENT_TYPE_NOT_SUPPORTED" "Incompatible content types"
    ∷ spec "InvalidAgentResponseError" "INVALID_AGENT_RESPONSE" "Invalid agent response type"
    ∷ spec "ExtendedAgentCardNotConfiguredError" "EXTENDED_AGENT_CARD_NOT_CONFIGURED"
        "Extended Agent Card not configured"
    ∷ spec "ExtensionSupportRequiredError" "EXTENSION_SUPPORT_REQUIRED" "Extension support required"
    ∷ spec "VersionNotSupportedError" "VERSION_NOT_SUPPORTED" "Version not supported"
    ∷ spec "RequestMalformedError" "INVALID_PARAMS" "Request malformed"
    ∷ []

-- `A2A_ERROR_SPECS[name]` and `A2A_ERROR_SPECS_BY_REASON[reason]`.
abbrev pub spec_by_name : String → Option ErrorSpec
spec_by_name name = find (λ s. s.name == name) error_specs

abbrev pub spec_by_reason : String → Option ErrorSpec
spec_by_reason reason = find (λ s. s.reason == reason) error_specs

-- The `data` of a JSON-RPC error.
pub data ErrorData : Type 0 where
  detail_list : List Struct → ErrorData
  detail_object : Struct → ErrorData

-- What a transport class adds to an error: nothing, an envelope, or a response.
pub data Transport : Type 0 where
  no_transport : Transport
  json_rpc : ℤ → Option ErrorData → Transport
  rest : ℕ → Option (JsMap (List String)) → Transport

pub record ErrorObject : Type 0 where
  pub name : String
  pub reason : String
  pub message : String
  pub metadata : Option Struct
  pub transport : Transport

-- What a call throws: an `A2AError`, another `Error` with its message, or any other value.
pub data Thrown : Type 0 where
  a2a : ErrorObject → Thrown
  other_error : String → Thrown
  other_value : Thrown

abbrev pub unexpected_text : String
unexpected_text = "An unexpected error occurred."

-- The constructor keeps metadata that is not empty.
abbrev pub kept_metadata : Option Struct → Option Struct
kept_metadata none = none
kept_metadata (some m) = if is_empty m then none else some m

abbrev reason_of : Option ErrorSpec → String
reason_of none = "INTERNAL_ERROR"
reason_of (some s) = s.reason

abbrev default_of : Option ErrorSpec → String
default_of none = unexpected_text
default_of (some s) = s.default_message

-- An object of the class of a name, or of its twin for a transport; a name that has no row gives
-- the base class. Without a message it has the default of its class.
unfoldable pub make_error : String → Option String → Option Struct → Transport → ErrorObject
make_error name message metadata transport = record {
  name = name;
  reason = reason_of (spec_by_name name);
  message = or_else message (default_of (spec_by_name name));
  metadata = kept_metadata metadata;
  transport = transport;
}

abbrev pub error_info_type : String
error_info_type = "type.googleapis.com/google.rpc.ErrorInfo"

abbrev pub error_domain : String
error_domain = "a2a-protocol.org"

abbrev metadata_entry : Option Struct → Struct
metadata_entry none = []
metadata_entry (some m) = ("metadata", obj (fields_of m)) ∷ []

-- `toErrorInfo`.
unfoldable pub to_error_info : ErrorObject → Struct
to_error_info e =
    ("@type", str error_info_type)
    ∷ ("reason", str e.reason)
    ∷ ("domain", str error_domain)
    ∷ metadata_entry e.metadata
