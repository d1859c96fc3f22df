-- ===== src/Errors/JsonRpc.antt =====
-- src/errors/json_rpc.ts. An envelope is its error: the version and the identifier of the response
-- stay aside, also in a `JsonRpcTransportError`.
use package.a2a_js.Prelude.{
  ℤ, pos, negsuc, String, Bool, false, Option, none, some, [], ◌∷◌, JsMap, get, or_else, or_string,
  is_some, if◌then◌else◌, nat_eq,
}
use package.a2a_js.Errors.Classes.{
  ErrorData, detail_list, no_transport, json_rpc, rest, ErrorObject, Thrown, a2a, other_error,
  other_value, unexpected_text, spec_by_name, make_error, to_error_info,
}

abbrev pub int_eq : ℤ → ℤ → Bool
int_eq (pos m) (pos n) = nat_eq m n
int_eq (negsuc m) (negsuc n) = nat_eq m n
int_eq _ _ = false

-- The codes that no semantic class has: -32700, -32600, -32601 and -32603.
abbrev pub parse_error : ℤ
parse_error = negsuc 32699

abbrev pub invalid_request : ℤ
invalid_request = negsuc 32599

abbrev pub method_not_found : ℤ
method_not_found = negsuc 32600

abbrev pub internal_error : ℤ
internal_error = negsuc 32602

-- `JSON_RPC_ERROR_CODE`: from -32001 to -32009, and -32602.
abbrev pub json_rpc_error_code : JsMap ℤ
json_rpc_error_code =
    ("TaskNotFoundError", negsuc 32000)
    ∷ ("TaskNotCancelableError", negsuc 32001)
    ∷ ("PushNotificationNotSupportedError", negsuc 32002)
    ∷ ("UnsupportedOperationError", negsuc 32003)
    ∷ ("ContentTypeNotSupportedError", negsuc 32004)
    ∷ ("InvalidAgentResponseError", negsuc 32005)
    ∷ ("ExtendedAgentCardNotConfiguredError", negsuc 32006)
    ∷ ("ExtensionSupportRequiredError", negsuc 32007)
    ∷ ("VersionNotSupportedError", negsuc 32008)
    ∷ ("RequestMalformedError", negsuc 32601)
    ∷ []

abbrev pub name_in : JsMap ℤ → ℤ → Option String
name_in [] code = none
name_in ((name, c) ∷ m) code = if int_eq c code then some name else name_in m code

-- `JSON_RPC_CODE_TO_ERROR[code]`: each code stands once.
unfoldable pub json_rpc_code_to_error : ℤ → Option String
json_rpc_code_to_error code = name_in json_rpc_error_code code

-- `JSON_RPC_ERROR_CODE[name] ?? A2A_ERROR_CODE.INTERNAL_ERROR`.
abbrev pub code_for : String → ℤ
code_for name = or_else (get name json_rpc_error_code) internal_error

pub record JsonRpcError : Type 0 where
  pub code : ℤ
  pub message : String
  pub details : Option ErrorData

abbrev info_of : ErrorObject → Option ErrorData
info_of e = some (detail_list (to_error_info e ∷ []))

abbrev json_rpc_error_of : ErrorObject → JsonRpcError
json_rpc_error_of e = elim e.transport [
  | json_rpc code details ↦ record {
    code = code;
    message = e.message;
    details = if is_some (spec_by_name e.name) then info_of e else none;
  }
  | no_transport ↦ record { code = code_for e.name; message = e.message; details = info_of e }
  | rest status headers ↦ record {
    code = code_for e.name;
    message = e.message;
    details = info_of e;
  }
]

unfoldable pub to_json_rpc_error : Thrown → JsonRpcError
unfolding to_error_info
to_json_rpc_error (a2a e) = json_rpc_error_of e
to_json_rpc_error (other_error text) = record {
  code = internal_error;
  message = or_string text unexpected_text;
  details = none;
}
to_json_rpc_error other_value = record {
  code = internal_error;
  message = unexpected_text;
  details = none;
}

-- `RESERVED_CODE_TO_SEMANTIC`.
abbrev pub reserved_code_to_semantic : JsMap ℤ
reserved_code_to_semantic =
    ("RequestMalformedError", parse_error)
    ∷ ("RequestMalformedError", invalid_request)
    ∷ ("RequestMalformedError", method_not_found)
    ∷ []

-- `JsonRpcTransportError`.
unfoldable pub transport_error : JsonRpcError → ErrorObject
unfolding make_error
transport_error r =
    make_error "JsonRpcTransportError" (some r.message) none (json_rpc r.code r.details)

unfoldable pub from_json_rpc_error_response : JsonRpcError → ErrorObject
unfolding json_rpc_code_to_error make_error transport_error
from_json_rpc_error_response r = elim (json_rpc_code_to_error r.code) [
  | some name ↦ make_error name (some r.message) none (json_rpc r.code r.details)
  | none ↦ elim (name_in reserved_code_to_semantic r.code) [
    | some name ↦ make_error name (some r.message) none (json_rpc r.code r.details)
    | none ↦ transport_error r
  ]
]
