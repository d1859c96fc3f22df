-- ===== src/Rpc/Wire.antt =====
-- Errors and responses as JSON: what `res.json(response)` of src/server/express/json_rpc_handler.ts
-- sends, and what src/client/transports/json_rpc_transport.ts takes an error response to be. An
-- error with members of other types than JSON-RPC gives is not modelled.
use package.a2a_js.Prelude.{pos, String, Option, none, some, [], ◌∷◌, map, get, or_else}
use package.a2a_js.Types.{
  Json, null, num, str, arr, obj, Struct, struct_of, fields_of, list_of, items_of,
}
use package.a2a_js.Errors.{ok, err}
use package.a2a_js.Errors.Classes.{ErrorData, detail_list, detail_object}
use package.a2a_js.Errors.JsonRpc.{JsonRpcError}
use package.a2a_js.Codec.Fields.{JsPlatform, members}
use package.a2a_js.Rpc.{Outcome, result, failure, RpcResponse}

abbrev pub object_json : Struct → Json
object_json m = obj (fields_of m)

abbrev details_entry : Option ErrorData → Struct
details_entry none = []
details_entry (some (detail_list ds)) = ("data", arr (items_of (map object_json ds))) ∷ []
details_entry (some (detail_object d)) = ("data", object_json d) ∷ []

abbrev details_of : Option Json → Option ErrorData
details_of (some (arr vs)) = some (detail_list (map (λ v. members v) (list_of vs)))
details_of (some (obj fs)) = some (detail_object (struct_of fs))
details_of _ = none

abbrev text_of : Option Json → String
text_of (some (str s)) = s
text_of _ = ""

module _ (js : JsPlatform) where
  open js use {number_of, literal}

  unfoldable pub error_to_json : JsonRpcError → Json
  error_to_json e =
      object_json
        (("code", num (literal e.code)) ∷ ("message", str e.message) ∷ details_entry e.details)

  unfoldable pub error_from_json : Json → JsonRpcError
  error_from_json v = record {
    code = elim (number_of (or_else (get "code" (members v)) null)) [ ok z ↦ z | err e ↦ pos 0 ];
    message = text_of (get "message" (members v));
    details = details_of (get "data" (members v));
  }

  abbrev outcome_entry : Outcome → Struct
  outcome_entry (result v) = ("result", v) ∷ []
  outcome_entry (failure e) = ("error", error_to_json e) ∷ []

  unfoldable pub response_to_json : RpcResponse → Json
  unfolding error_to_json
  response_to_json r = object_json (("jsonrpc", str "2.0") ∷ ("id", r.id) ∷ outcome_entry r.outcome)
