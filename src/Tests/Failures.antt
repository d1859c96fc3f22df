-- ===== src/Tests/Failures.antt =====
-- Errors that a server sends, read by a client.
use package.a2a_js.Prelude.{negsuc, none, some, [], ◌∷◌, ◌≡◌, refl, true, not, ◌==◌}
use package.a2a_js.Types.{str}
use package.a2a_js.Errors.Classes.{
  detail_list, no_transport, json_rpc, rest, a2a, make_error, to_error_info, ErrorSpec, ErrorObject,
}
use package.a2a_js.Errors.JsonRpc.{to_json_rpc_error, from_json_rpc_error_response}
use package.a2a_js.Errors.Rest.{rest_status_for, to_rest_error_body, from_rest_error_body}
use package.a2a_js.Errors.RoundTrip.{
  from_json_rpc_error_response-to_json_rpc_error, from_rest_error_body-to_rest_error_body,
}
use package.a2a_js.Compat.Failures.{
  to_compat_error_body, make_a2a_error, to_compat_error_body-make_a2a_error,
}

abbrev not_found : ErrorObject
not_found =
    make_error "TaskNotFoundError" (some "no t1") (some (("id", str "t1") ∷ [])) no_transport

from_json_rpc_error_response-to_json_rpc_error_example :
    from_json_rpc_error_response (to_json_rpc_error (a2a not_found)) ≡ record not_found {
      metadata = none;
      transport = json_rpc (negsuc 32000) (some (detail_list (to_error_info not_found ∷ [])));
    }
from_json_rpc_error_response-to_json_rpc_error_example =
    from_json_rpc_error_response-to_json_rpc_error "TaskNotFoundError" (negsuc 32000) (some "no t1")
      (some (("id", str "t1") ∷ [])) refl

abbrev not_found_row : ErrorSpec
not_found_row = record {
  name = "TaskNotFoundError";
  reason = "TASK_NOT_FOUND";
  default_message = "Task not found";
}

not_found_text : (not (not_found.message == "")) ≡ true
unfolding make_error
not_found_text = refl

not_found_status : rest_status_for (a2a not_found) ≡ 404
unfolding rest_status_for make_error
not_found_status = refl

from_rest_error_body-to_rest_error_body_example :
    from_rest_error_body (to_rest_error_body (a2a not_found) 404) 404 none
    ≡ record not_found { transport = rest 404 none }
from_rest_error_body-to_rest_error_body_example =
    from_rest_error_body-to_rest_error_body "TaskNotFoundError" not_found_row (some "no t1")
      (some (("id", str "t1") ∷ [])) 404 none refl not_found_text

to_compat_error_body-make_a2a_error_example :
    to_compat_error_body (a2a (make_a2a_error (negsuc 32600) "no such method" none))
    ≡ record { code = negsuc 32600; message = "no such method"; details = none }
to_compat_error_body-make_a2a_error_example =
    to_compat_error_body-make_a2a_error (negsuc 32600) "no such method" none
