-- ===== src/Codec/Fields.antt =====
-- The building blocks that `fromJSON` and `toJSON` of every message of src/types/pb/a2a.ts share.
-- The conversions of JavaScript are a parameter. The value of a property that every object or
-- array inherits is not modelled; no field of a message is named like one.
use package.a2a_js.Prelude.{
  ℕ, ℤ, pos, zero, suc, String, Bool, true, false, Option, none, some, List, [], ◌∷◌, JsMap, get,
  truthy, is_empty, map, ◌==◌, ◌≡◌, if◌then◌else◌,
}
use package.a2a_js.Types.{
  Json, null, bool, num, str, arr, obj, Struct, struct_of, fields_of, list_of, items_of,
}
use package.a2a_js.Errors.{Result, ok, err, type_error, map_result, ◌>>=◌}

-- `String(v)`, `Number(v)` and `Boolean(v)`, `Buffer.from(v, 'base64')` and
-- `Buffer.from(bytes).toString('base64')`, and the literal of an integer. A number that is no
-- integer is not modelled.
pub record JsPlatform : Type 0 where
  pub string_of : Json → Result String
  pub number_of : Json → Result ℤ
  pub boolean_of : Json → Bool
  pub bytes_from_base64 : Json → Result (List ℕ)
  pub base64_from_bytes : List ℕ → String
  pub literal : ℤ → String

-- What ECMAScript and Node.js say of the conversions, on the values that `toJSON` writes.
pub record IsFaithful (js : JsPlatform) : Type 0 where
  pub string_lem : (s : String) → js.string_of (str s) ≡ ok s
  pub number_lem : (z : ℤ) → js.number_of (num (js.literal z)) ≡ ok z
  pub boolean_lem : (b : Bool) → js.boolean_of (bool b) ≡ b
  pub bytes_lem : (b : List ℕ) → js.bytes_from_base64 (str (js.base64_from_bytes b)) ≡ ok b

-- The fields that `toJSON` may set, in order, and what `fromJSON` makes of the properties that are
-- neither `null` nor absent.
pub record MessageFns {ℓ} (A : Type ℓ) : Type ℓ where
  pub entries : A → JsMap (Option Json)
  pub read : (String → Option Json) → Result A

-- The object with those entries that are set.
unfoldable pub entries_object : JsMap (Option Json) → Struct
entries_object [] = []
entries_object ((k, none) ∷ es) = entries_object es
entries_object ((k, some v) ∷ es) = (k, v) ∷ entries_object es

abbrev pub members : Json → Struct
members (obj fs) = struct_of fs
members _ = []

-- `isSet`, as the value if it holds.
abbrev pub if_set : Option Json → Option Json
if_set none = none
if_set (some null) = none
if_set (some v) = some v

abbrev pub is_null : Json → Bool
is_null null = true
is_null _ = false

unfoldable pub to_json {ℓ} : {A : Type ℓ} → MessageFns A → A → Json
unfolding entries_object
to_json fns x = obj (fields_of (entries_object (fns.entries x)))

unfoldable pub from_json {ℓ} : {A : Type ℓ} → MessageFns A → Json → Result A
from_json fns v = if is_null v then err type_error else fns.read (λ k. if_set (get k (members v)))

-- The first of two spellings of a property that is set.
abbrev pub first_set : Option Json → Option Json → Option Json
first_set none b = b
first_set (some v) b = some v

-- A property that is read only if it is set, and what stands for it otherwise.
unfoldable pub read_with {ℓ} : {A : Type ℓ} → (Json → Result A) → A → Option Json → Result A
read_with read absent none = ok absent
read_with read absent (some v) = read v

-- `Array.isArray(v)`, as the elements if it holds.
abbrev pub elements : Option Json → Option (List Json)
elements (some (arr vs)) = some (list_of vs)
elements _ = none

unfoldable pub read_elements {ℓ} :
    {A : Type ℓ} → (Json → Result A) → Option (List Json) → Option (List Json) → Result (List A)
read_elements read (some vs) b = map_result read vs
read_elements read none (some vs) = map_result read vs
read_elements read none none = ok []

-- The elements of the first of two spellings that is an array, or none.
unfoldable pub read_list {ℓ} :
    {A : Type ℓ} → (Json → Result A) → Option Json → Option Json → Result (List A)
read_list read a b = read_elements read (elements a) (elements b)

-- A property that is read only if it is set, and `undefined` otherwise.
unfoldable pub read_option {ℓ} : {A : Type ℓ} → (Json → Result A) → Option Json → Result (Option A)
read_option read none = ok none
read_option read (some v) = do x ← read v; ok (some x)

-- The own enumerable keys of an array with their values.
abbrev indexed : (ℤ → String) → ℕ → List Json → Struct
indexed literal n [] = []
indexed literal n (v ∷ vs) = (literal (pos n), v) ∷ indexed literal (suc n) vs

module _ (js : JsPlatform) where
  open js use {string_of, number_of, boolean_of, literal}

  -- `isSet(a) ? String(a) : isSet(b) ? String(b) : ""`.
  unfoldable pub read_text : Option Json → Option Json → Result String
  read_text a b = read_with string_of "" (first_set a b)

  unfoldable pub read_number : Option Json → Option Json → Result ℤ
  read_number a b = read_with number_of (pos 0) (first_set a b)

  unfoldable pub read_option_flag : Option Json → Option Bool
  read_option_flag none = none
  read_option_flag (some v) = some (boolean_of v)

  -- `isSet(a) ? Boolean(a) : false`.
  unfoldable pub read_flag : Option Json → Bool
  read_flag none = false
  read_flag (some v) = boolean_of v

  -- `isObject(v) ? v : undefined`.
  unfoldable pub read_struct : Option Json → Option Struct
  read_struct (some (obj fs)) = some (struct_of fs)
  read_struct (some (arr vs)) = some (indexed literal 0 (list_of vs))
  read_struct _ = none

  -- `if (n !== 0) obj.k = Math.round(n)`, and the same for `n !== undefined`.
  unfoldable pub number_entry : ℤ → Option Json
  number_entry (pos zero) = none
  number_entry z = some (num (literal z))

  unfoldable pub option_number_entry : Option ℤ → Option Json
  option_number_entry none = none
  option_number_entry (some z) = some (num (literal z))

-- `if (s !== "") obj.k = s`.
unfoldable pub text_entry : String → Option Json
text_entry s = if truthy s then some (str s) else none

-- `if (b !== false) obj.k = b`.
unfoldable pub flag_entry : Bool → Option Json
flag_entry b = if b then some (bool b) else none

-- `if (o !== undefined) obj.k = f(o)`.
unfoldable pub option_entry {ℓ} : {A : Type ℓ} → (A → Json) → Option A → Option Json
option_entry f none = none
option_entry f (some x) = some (f x)

unfoldable pub struct_entry : Option Struct → Option Json
struct_entry none = none
struct_entry (some m) = some (obj (fields_of m))

-- `if (xs?.length) obj.k = xs.map(f)`.
unfoldable pub list_entry {ℓ} : {A : Type ℓ} → (A → Json) → List A → Option Json
list_entry f xs = if is_empty xs then none else some (arr (items_of (map f xs)))

-- The entry of one property of a `oneof`: its value if the payload has that case.
unfoldable pub case_entry : String → Option (String × Option Json) → Option Json
case_entry k none = none
case_entry k (some (name, v)) = if name == k then v else none

-- The entries of the first of two objects, each value read.
unfoldable pub read_entries {ℓ} : {A : Type ℓ} → (Json → Result A) → Struct → Result (JsMap A)
read_entries read [] = ok []
read_entries read ((k, v) ∷ m) = do x ← read v; rest ← read_entries read m; ok ((k, x) ∷ rest)

unfoldable pub read_map {ℓ} :
    {A : Type ℓ} → (Json → Result A) → Option Struct → Option Struct → Result (JsMap A)
unfolding read_entries
read_map read (some m) b = read_entries read m
read_map read none (some m) = read_entries read m
read_map read none none = ok []

-- `obj.k` with the entries of a map, if it has any.
unfoldable pub written {ℓ} : {A : Type ℓ} → (A → Json) → JsMap A → Struct
written write [] = []
written write ((k, x) ∷ m) = (k, write x) ∷ written write m

unfoldable pub map_entry {ℓ} : {A : Type ℓ} → (A → Json) → JsMap A → Option Json
unfolding written
map_entry write m = if is_empty m then none else some (obj (fields_of (written write m)))
