-- ===== src/Errors/RoundTrip.antt =====
-- A semantic error that a server sends reaches its client.
use package.a2a_js.Prelude.{
  ℕ, ℤ, pos, negsuc, String, Bool, true, Option, none, some, List, [], ◌∷◌, JsMap, get, truthy,
  is_empty, find, All, ◌==◌, ◌≡◌, arith, refl, ap, ◌∙◌, eq_iff, Bool-cases, inl, inr,
}
use package.a2a_js.Types.{Struct, struct_of-fields_of, nat_eq_iff}
use package.a2a_js.Errors.Classes.{
  ErrorSpec, error_specs, spec_by_name, spec_by_reason, detail_list, no_transport, json_rpc, rest,
  ErrorObject, a2a, kept_metadata, make_error, to_error_info,
}
use package.a2a_js.Errors.JsonRpc.{
  int_eq, json_rpc_error_code, name_in, json_rpc_code_to_error, to_json_rpc_error,
  from_json_rpc_error_response,
}
use package.a2a_js.Errors.Rest.{
  to_rest_error_body, spec_of_detail, metadata_of_detail, from_details, from_rest_error_body,
}

pub int_eq_sound : (a b : ℤ) → int_eq a b ≡ true → a ≡ b
int_eq_sound (pos m) (pos n) h = ap pos ((nat_eq_iff m n).0 h)
int_eq_sound (negsuc m) (negsuc n) h = ap negsuc ((nat_eq_iff m n).0 h)
int_eq_sound (pos m) (negsuc n) h = cc
int_eq_sound (negsuc m) (pos n) h = cc

-- What holds of the entries holds of a look-up.
pub All-get {ℓ κ} :
    {V : Type ℓ} (P : String × V → Type κ) (k : String) (v : V) (m : JsMap V)
    → All P m
    → get k m ≡ some v
    → P (k, v)
All-get P k v [] h e = cc
All-get P k v ((j, w) ∷ m) (p, h) e = elim (Bool-cases (j == k)) [
  | inl same ↦
      let found : some w ≡ some v = rw same at e in
      let value : w ≡ v = cc in
      let key : j ≡ k = ground (arith, eq_iff j k) in rw (← key, ← value) p
  | inr other ↦ All-get P k v m h (rw other at e)
]

All-find {ℓ κ} :
    {A : Type ℓ} (P : A → Type κ) (f : A → Bool) (x : A) (xs : List A)
    → All P xs
    → find f xs ≡ some x
    → P x × (f x ≡ true)
All-find P f x [] h e = cc
All-find P f x (y ∷ ys) (p, h) e = elim (Bool-cases (f y)) [
  | inl yes_f ↦
      let found : some y ≡ some x = rw yes_f at e in let same : y ≡ x = cc in rw (← same) (p, yes_f)
  | inr no_f ↦ All-find P f x ys h (rw no_f at e)
]

codes-names : All (λ e. name_in json_rpc_error_code e.1 ≡ some e.0) json_rpc_error_code
codes-names = (refl, (refl, (refl, (refl, (refl, (refl, (refl, (refl, (refl, (refl, tt))))))))))

code-name :
    (name : String) (code : ℤ)
    → get name json_rpc_error_code ≡ some code
    → json_rpc_code_to_error code ≡ some name
unfolding json_rpc_code_to_error
code-name name code h =
    All-get (λ e. name_in json_rpc_error_code e.1 ≡ some e.0) name code json_rpc_error_code
      codes-names h

-- A semantic error that is sent over JSON-RPC comes back as an error of the same class and reason,
-- with its message and with the code of its class, and its `ErrorInfo` is the only detail. Its
-- metadata stands in that detail only.
pub from_json_rpc_error_response-to_json_rpc_error :
    (name : String) (code : ℤ) (message : Option String) (metadata : Option Struct)
    → get name json_rpc_error_code ≡ some code
    → let e = make_error name message metadata no_transport in
      from_json_rpc_error_response (to_json_rpc_error (a2a e)) ≡ record e {
        metadata = none;
        transport = json_rpc code (some (detail_list (to_error_info e ∷ [])));
      }
unfolding from_json_rpc_error_response to_json_rpc_error make_error to_error_info
from_json_rpc_error_response-to_json_rpc_error name code message metadata h =
    rw h (rw (code-name name code h, from_json_rpc_error_response) refl)

reasons-specs : All (λ s. spec_by_reason s.reason ≡ some s) error_specs
reasons-specs = (refl, (refl, (refl, (refl, (refl, (refl, (refl, (refl, (refl, (refl, tt))))))))))

kept_metadata-kept_metadata :
    (o : Option Struct) → kept_metadata (kept_metadata o) ≡ kept_metadata o
kept_metadata-kept_metadata none = refl
kept_metadata-kept_metadata (some m) = elim (Bool-cases (is_empty m)) [
  | inl empty ↦ rw empty refl
  | inr filled ↦ rw (filled, filled) refl
]

metadata_of_info_with :
    (e : ErrorObject) (o : Option Struct)
    → metadata_of_detail (to_error_info (record e { metadata = o })) ≡ o
unfolding metadata_of_detail to_error_info
metadata_of_info_with e none = refl
metadata_of_info_with e (some m) = ap some (struct_of-fields_of m)

metadata_of_detail-to_error_info :
    (e : ErrorObject) → metadata_of_detail (to_error_info e) ≡ e.metadata
metadata_of_detail-to_error_info e = metadata_of_info_with e e.metadata

spec_of_detail-to_error_info :
    (e : ErrorObject) → spec_of_detail (to_error_info e) ≡ spec_by_reason e.reason
unfolding spec_of_detail to_error_info
spec_of_detail-to_error_info e = refl

from_details_of_first :
    (text : String) (d : Struct) (s : ErrorSpec) (status : ℕ)
    (headers : Option (JsMap (List String)))
    → spec_of_detail d ≡ some s
    → from_details text (d ∷ []) status headers
      ≡ make_error s.name (some text) (metadata_of_detail d) (rest status headers)
unfolding from_details
from_details_of_first text d s status headers h = rw (h, from_details) refl

from_details_of_info :
    (e : ErrorObject) (s : ErrorSpec) (text : String) (status : ℕ)
    (headers : Option (JsMap (List String)))
    → spec_by_reason e.reason ≡ some s
    → from_details text (to_error_info e ∷ []) status headers
      ≡ make_error s.name (some text) e.metadata (rest status headers)
from_details_of_info e s text status headers h =
    from_details_of_first text (to_error_info e) s status headers
      (spec_of_detail-to_error_info e ∙ h)
    ∙ ap (λ o. make_error s.name (some text) o (rest status headers))
        (metadata_of_detail-to_error_info e)

-- A semantic error that is sent over REST, with a message that is not empty, comes back as an
-- error of the same class and reason, with its message, its metadata, and the status and the
-- headers of the response.
pub from_rest_error_body-to_rest_error_body :
    (name : String) (s : ErrorSpec) (message : Option String) (metadata : Option Struct)
    (status : ℕ) (headers : Option (JsMap (List String)))
    → spec_by_name name ≡ some s
    → let e = make_error name message metadata no_transport in
      truthy e.message ≡ true
      → from_rest_error_body (to_rest_error_body (a2a e) status) status headers
        ≡ record e { transport = rest status headers }
unfolding from_rest_error_body to_rest_error_body make_error
from_rest_error_body-to_rest_error_body name s message metadata status headers found filled =
    let e = make_error name message metadata no_transport in
    let (back, same) =
      All-find (λ r. spec_by_reason r.reason ≡ some r) (λ r. r.name == name) s error_specs
        reasons-specs found in
    let row : s.name ≡ name = ground (arith, eq_iff s.name name) in
    let known : spec_by_reason e.reason ≡ some s = rw found back in
    rw filled (
      from_details_of_info e s e.message status headers known
      ∙ rw (row, kept_metadata-kept_metadata metadata) refl)
