-- ===== src/Compat/Failures.antt =====
-- The errors of version 0.3: src/compat/v0_3/server/error.ts, which makes an error of a code, and
-- src/compat/v0_3/translate/errors.ts, which writes the body of an error.
use package.a2a_js.Prelude.{
  ℤ, String, Bool, true, false, Option, none, some, [], ◌∷◌, JsMap, get, or_string, if◌then◌else◌,
  All, ◌≡◌, refl, ap, Bool-cases, inl, inr,
}
use package.a2a_js.Errors.Classes.{
  ErrorData, no_transport, json_rpc, rest, ErrorObject, Thrown, a2a, other_error, other_value,
  unexpected_text, make_error,
}
use package.a2a_js.Errors.JsonRpc.{
  int_eq, parse_error, invalid_request, method_not_found, internal_error, json_rpc_error_code,
  name_in, json_rpc_code_to_error, code_for, JsonRpcError, transport_error,
}
use package.a2a_js.Errors.RoundTrip.{int_eq_sound}

abbrev body_of : ℤ → String → Option ErrorData → JsonRpcError
body_of code message details = record { code = code; message = message; details = details }

unfoldable pub to_compat_error_body : Thrown → JsonRpcError
to_compat_error_body (a2a e) = elim e.transport [
  | json_rpc code details ↦ body_of code e.message details
  | no_transport ↦ body_of (code_for e.name) e.message none
  | rest status headers ↦ body_of (code_for e.name) e.message none
]
to_compat_error_body (other_error text) =
    body_of internal_error (or_string text unexpected_text) none
to_compat_error_body other_value = body_of internal_error unexpected_text none

-- An error of a code that a semantic class has.
unfoldable pub semantic_of_code : String → ℤ → String → Option ErrorData → ErrorObject
unfolding make_error
semantic_of_code name code message none = make_error name (some message) none no_transport
semantic_of_code name code message (some d) =
    make_error name (some message) none (json_rpc code (some d))

-- `new A2AError(code, message, data)`.
unfoldable pub make_a2a_error : ℤ → String → Option ErrorData → ErrorObject
unfolding json_rpc_code_to_error make_error transport_error semantic_of_code
make_a2a_error code message details = elim (json_rpc_code_to_error code) [
  | some name ↦ semantic_of_code name code message details
  | none ↦
      if int_eq code method_not_found
      then make_error "UnsupportedOperationError" (some message) none (json_rpc code details)
      else if int_eq code parse_error
      then make_error "RequestMalformedError" (some message) none (json_rpc code details)
      else if int_eq code invalid_request
      then make_error "RequestMalformedError" (some message) none (json_rpc code details)
      else transport_error (body_of code message details)
]

names-codes : All (λ e. get e.0 json_rpc_error_code ≡ some e.1) json_rpc_error_code
names-codes = (refl, (refl, (refl, (refl, (refl, (refl, (refl, (refl, (refl, (refl, tt))))))))))

name_in-All {κ} :
    (P : String × ℤ → Type κ) (code : ℤ) (name : String) (m : JsMap ℤ)
    → All P m
    → name_in m code ≡ some name
    → P (name, code)
name_in-All P code name [] h e = cc
name_in-All P code name ((n, c) ∷ m) (p, h) e = elim (Bool-cases (int_eq c code)) [
  | inl same ↦
      let found : some n ≡ some name = rw same at e in
      let key : n ≡ name = cc in rw (← key, ← int_eq_sound c code same) p
  | inr other ↦ name_in-All P code name m h (rw other at e)
]

code_for-name :
    (code : ℤ) (name : String) → json_rpc_code_to_error code ≡ some name → code_for name ≡ code
unfolding json_rpc_code_to_error
code_for-name code name h =
    let known =
      name_in-All (λ e. get e.0 json_rpc_error_code ≡ some e.1) code name json_rpc_error_code
        names-codes h in
    rw known refl

semantic_body :
    (name : String) (code : ℤ) (message : String) (details : Option ErrorData)
    → code_for name ≡ code
    → to_compat_error_body (a2a (semantic_of_code name code message details))
      ≡ body_of code message details
unfolding to_compat_error_body semantic_of_code make_error
semantic_body name code message none h = ap (λ c. body_of c message none) h
semantic_body name code message (some d) h = refl

wire_only_body :
    (b c d : Bool) (code : ℤ) (message : String) (details : Option ErrorData)
    → to_compat_error_body (
        a2a (
          if b
          then make_error "UnsupportedOperationError" (some message) none (json_rpc code details)
          else if c
          then make_error "RequestMalformedError" (some message) none (json_rpc code details)
          else if d
          then make_error "RequestMalformedError" (some message) none (json_rpc code details)
          else transport_error (body_of code message details)))
      ≡ body_of code message details
unfolding to_compat_error_body make_error transport_error
wire_only_body true c d code message details = refl
wire_only_body false true d code message details = refl
wire_only_body false false true code message details = refl
wire_only_body false false false code message details = refl

-- An error that is made of any code, message and data is written with this code, message and data.
pub to_compat_error_body-make_a2a_error :
    (code : ℤ) (message : String) (details : Option ErrorData)
    → to_compat_error_body (a2a (make_a2a_error code message details))
      ≡ record { code = code; message = message; details = details }
unfolding to_compat_error_body make_a2a_error make_error transport_error
to_compat_error_body-make_a2a_error code message details = split (json_rpc_code_to_error code) refl
  where
    split :
        (o : Option String)
        → json_rpc_code_to_error code ≡ o
        → to_compat_error_body (a2a (make_a2a_error code message details))
          ≡ body_of code message details
    split (some name) e =
        rw (e, make_a2a_error) (semantic_body name code message details (code_for-name code name e))
    split none e =
        rw (e, make_a2a_error)
          (wire_only_body (int_eq code method_not_found) (int_eq code parse_error)
            (int_eq code invalid_request) code message details)
