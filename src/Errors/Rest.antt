-- ===== src/Errors/Rest.antt =====
-- src/errors/rest.ts. The details of a body are objects, as their type says, and the metadata of an
-- `ErrorInfo` is one.
use package.a2a_js.Prelude.{
  ℕ, String, Bool, false, Option, none, some, List, [], ◌∷◌, JsMap, get, or_else, or_string,
  if◌then◌else◌, nat_eq, ◌==◌,
}
use package.a2a_js.Types.{Json, str, obj, Struct, struct_of}
use package.a2a_js.Errors.Classes.{
  ErrorSpec, spec_by_reason, no_transport, json_rpc, rest, ErrorObject, Thrown, a2a, other_error,
  other_value, unexpected_text, make_error, to_error_info, error_info_type, error_domain,
}

abbrev pub rest_error_http_status : JsMap ℕ
rest_error_http_status =
    ("TaskNotFoundError", 404)
    ∷ ("TaskNotCancelableError", 400)
    ∷ ("PushNotificationNotSupportedError", 400)
    ∷ ("UnsupportedOperationError", 400)
    ∷ ("ContentTypeNotSupportedError", 400)
    ∷ ("InvalidAgentResponseError", 500)
    ∷ ("ExtendedAgentCardNotConfiguredError", 400)
    ∷ ("ExtensionSupportRequiredError", 400)
    ∷ ("VersionNotSupportedError", 400)
    ∷ ("RequestMalformedError", 400)
    ∷ []

abbrev pub rest_error_status_name : JsMap String
rest_error_status_name =
    ("TaskNotFoundError", "NOT_FOUND")
    ∷ ("TaskNotCancelableError", "FAILED_PRECONDITION")
    ∷ ("PushNotificationNotSupportedError", "FAILED_PRECONDITION")
    ∷ ("UnsupportedOperationError", "FAILED_PRECONDITION")
    ∷ ("ContentTypeNotSupportedError", "INVALID_ARGUMENT")
    ∷ ("InvalidAgentResponseError", "INTERNAL")
    ∷ ("ExtendedAgentCardNotConfiguredError", "FAILED_PRECONDITION")
    ∷ ("ExtensionSupportRequiredError", "FAILED_PRECONDITION")
    ∷ ("VersionNotSupportedError", "FAILED_PRECONDITION")
    ∷ ("RequestMalformedError", "INVALID_ARGUMENT")
    ∷ []

unfoldable pub rest_status_for : Thrown → ℕ
rest_status_for (a2a e) = elim e.transport [
  | rest status headers ↦ status
  | no_transport ↦ or_else (get e.name rest_error_http_status) 500
  | json_rpc code details ↦ or_else (get e.name rest_error_http_status) 500
]
rest_status_for (other_error text) = 500
rest_status_for other_value = 500

-- The `error` of a body; a parsed one may lack any of these.
pub record RestError : Type 0 where
  pub code : Option ℕ
  pub status : Option String
  pub message : Option String
  pub details : Option (List Struct)

abbrev coarse_status : ℕ → String
coarse_status http_status =
    if nat_eq http_status 404
    then "NOT_FOUND"
    else if nat_eq http_status 500
    then "INTERNAL"
    else if nat_eq http_status 400
    then "INVALID_ARGUMENT"
    else "UNKNOWN"

abbrev rest_error_of : ℕ → String → String → List Struct → RestError
rest_error_of code status message details = record {
  code = some code;
  status = some status;
  message = some message;
  details = some details;
}

unfoldable pub to_rest_error_body : Thrown → ℕ → RestError
unfolding to_error_info
to_rest_error_body (a2a e) http_status =
    rest_error_of http_status (or_else (get e.name rest_error_status_name) "UNKNOWN") e.message
      (to_error_info e ∷ [])
to_rest_error_body (other_error text) http_status =
    rest_error_of http_status (coarse_status http_status) text []
to_rest_error_body other_value http_status =
    rest_error_of http_status (coarse_status http_status) unexpected_text []

abbrev text_of : Option Json → Option String
text_of (some (str s)) = some s
text_of _ = none

abbrev object_of : Option Json → Option Struct
object_of (some (obj fs)) = some (struct_of fs)
object_of _ = none

abbrev is_text : Option String → String → Bool
is_text none s = false
is_text (some t) s = t == s

-- The row that a detail names, if it is an `ErrorInfo`.
unfoldable pub spec_of_detail : Struct → Option ErrorSpec
spec_of_detail d =
    if is_text (text_of (get "@type" d)) error_info_type
    then elim (text_of (get "reason" d)) [ none ↦ none | some r ↦ spec_by_reason r ]
    else none

unfoldable pub metadata_of_detail : Struct → Option Struct
metadata_of_detail d =
    if is_text (text_of (get "domain" d)) error_domain then object_of (get "metadata" d) else none

-- The loop over the details, and what follows it.
unfoldable pub from_details : String → List Struct → ℕ → Option (JsMap (List String)) → ErrorObject
unfolding make_error spec_of_detail metadata_of_detail
from_details message [] status headers =
    make_error "A2AError" (some message) none (rest status headers)
from_details message (d ∷ ds) status headers = elim (spec_of_detail d) [
  | some s ↦ make_error s.name (some message) (metadata_of_detail d) (rest status headers)
  | none ↦ from_details message ds status headers
]

unfoldable pub from_rest_error_body : RestError → ℕ → Option (JsMap (List String)) → ErrorObject
unfolding from_details
from_rest_error_body body status headers =
    from_details (or_string (or_else body.message "") "Unknown error") (or_else body.details [])
      status headers
