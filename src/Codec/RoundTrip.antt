-- ===== src/Codec/RoundTrip.antt =====
-- What `fromJSON` of src/types/pb/a2a.ts reads of what `toJSON` wrote: the building blocks.
pub mod Messages
pub mod Tasks
pub mod Requests
pub mod Security
pub mod Cards
pub mod Responses
use package.a2a_js.Prelude.{
  ℕ, ℤ, pos, negsuc, zero, suc, String, Bool, true, false, Option, none, some, List, [], ◌∷◌, JsMap,
  get, All, All-imp, is_some, truthy, is_empty, map, ◌==◌, ◌≡◌, arith, refl, ap, ◌∙◌, eq_iff,
  Bool-cases, inl, inr, not, ◌&&◌, fun_ext, if◌then◌else◌,
}
use package.a2a_js.Types.{
  Json, bool, str, obj, num, Struct, fields_of, struct_of, struct_of-fields_of, list_of, items_of,
  list_of-items_of,
}
use package.a2a_js.Errors.{Result, ok, err, map_result, ◌>>=◌}
use package.a2a_js.Codec.Fields.{
  JsPlatform, IsFaithful, MessageFns, entries_object, if_set, to_json, from_json, first_set,
  read_with, read_list, read_elements, elements, read_text, read_number, read_option, read_flag,
  read_option_flag, read_struct, number_entry, option_number_entry, text_entry, flag_entry,
  option_entry, struct_entry, list_entry, map_entry, read_map, read_entries, written,
}

-- No key stands twice.
abbrev pub has_unique_keys : JsMap (Option Json) → Bool
has_unique_keys [] = true
has_unique_keys ((k, v) ∷ es) = not (is_some (get k es)) && has_unique_keys es

abbrev pub flat : Option (Option Json) → Option Json
flat none = none
flat (some o) = o

get-object_of_absent :
    (k : String) (es : JsMap (Option Json)) → get k es ≡ none → get k (entries_object es) ≡ none
unfolding entries_object
get-object_of_absent k [] h = refl
get-object_of_absent k ((j, none) ∷ es) h = ground (arith, get-object_of_absent k es)
get-object_of_absent k ((j, some v) ∷ es) h = ground (arith, get-object_of_absent k es)

-- A property of the object is the entry of its key.
pub get-entries_object :
    (k : String) (es : JsMap (Option Json))
    → has_unique_keys es ≡ true
    → get k (entries_object es) ≡ flat (get k es)
unfolding entries_object
get-entries_object k [] h = refl
get-entries_object k ((j, none) ∷ es) h =
    ground (arith, eq_iff j k, get-entries_object k es, get-object_of_absent k es)
get-entries_object k ((j, some v) ∷ es) h =
    ground (arith, eq_iff j k, get-entries_object k es, get-object_of_absent k es)

-- What `fromJSON` finds of a property.
abbrev pub entry_at : JsMap (Option Json) → String → Option Json
entry_at es k = if_set (flat (get k es))

-- `fromJSON` after `toJSON` reads the entries.
pub from_json-to_json {ℓ} :
    {A : Type ℓ} (fns : MessageFns A) (x : A)
    → has_unique_keys (fns.entries x) ≡ true
    → from_json fns (to_json fns x) ≡ fns.read (entry_at (fns.entries x))
unfolding from_json to_json
from_json-to_json fns x h = ap fns.read (
    fun_ext (λ k. ap if_set (
      ap (get k) (struct_of-fields_of (entries_object (fns.entries x)))
      ∙ get-entries_object k (fns.entries x) h)))

-- The values for which `fromJSON` gives back what `toJSON` was given.
abbrev pub ReadsBack {ℓ} : {A : Type ℓ} → MessageFns A → A → Type ℓ
ReadsBack fns x = from_json fns (to_json fns x) ≡ ok x

abbrev pub OnSome {ℓ κ} : {A : Type ℓ} → (A → Type κ) → Option A → Type κ
OnSome P none = Unit
OnSome P (some x) = P x

pub read_option-option_entry {ℓ κ} :
    {A : Type ℓ} (fns : MessageFns A) (P : A → Type κ) (o : Option A)
    → ((x : A) → P x → ReadsBack fns x)
    → OnSome P o
    → read_option (from_json fns) (first_set (if_set (option_entry (to_json fns) o)) none) ≡ ok o
unfolding read_option option_entry to_json
read_option-option_entry fns P none f h = refl
read_option-option_entry fns P (some x) f h = rw (f x h) refl

pub map_result-map {ℓ} :
    {A : Type ℓ} (read : Json → Result A) (write : A → Json) (xs : List A)
    → All (λ x. read (write x) ≡ ok x) xs
    → map_result read (map write xs) ≡ ok xs
unfolding map_result
map_result-map read write [] h = refl
map_result-map read write (x ∷ xs) (e, h) = rw (e, map_result-map read write xs h) refl

pub read_list-list_entry {ℓ} :
    {A : Type ℓ} (read : Json → Result A) (write : A → Json) (xs : List A)
    → All (λ x. read (write x) ≡ ok x) xs
    → read_list read (if_set (list_entry write xs)) none ≡ ok xs
unfolding read_list read_elements list_entry
read_list-list_entry read write [] h = refl
read_list-list_entry read write (x ∷ xs) h =
    rw (list_of-items_of (map write (x ∷ xs))) (map_result-map read write (x ∷ xs) h)

pub read_list-messages {ℓ κ} :
    {A : Type ℓ} (fns : MessageFns A) (P : A → Type κ) (xs : List A)
    → ((x : A) → P x → ReadsBack fns x)
    → All P xs
    → read_list (from_json fns) (if_set (list_entry (to_json fns) xs)) none ≡ ok xs
read_list-messages fns P xs f h =
    read_list-list_entry (from_json fns) (to_json fns) xs (All-imp P (ReadsBack fns) xs f h)

read_entries-written {ℓ} :
    {A : Type ℓ} (read : Json → Result A) (write : A → Json) (m : JsMap A)
    → All (λ e. read (write e.1) ≡ ok e.1) m
    → read_entries read (written write m) ≡ ok m
unfolding read_entries written
read_entries-written read write [] h = refl
read_entries-written read write ((k, x) ∷ m) (e, h) =
    rw (e, read_entries-written read write m h) refl

pub read_map-map_entry {ℓ} :
    {A : Type ℓ} (js : JsPlatform) (read : Json → Result A) (write : A → Json) (m : JsMap A)
    → All (λ e. read (write e.1) ≡ ok e.1) m
    → read_map read (read_struct js (if_set (map_entry write m))) none ≡ ok m
unfolding read_map map_entry read_struct
read_map-map_entry js read write [] h = refl
read_map-map_entry js read write (e ∷ m) h =
    ap (read_entries read) (struct_of-fields_of (written write (e ∷ m)))
    ∙ read_entries-written read write (e ∷ m) h

pub values-All {ℓ κ} :
    {A : Type ℓ} (P : A → Type κ) (m : JsMap A) → ((x : A) → P x) → All (λ e. P e.1) m
values-All P [] f = tt
values-All P ((k, x) ∷ m) f = (f x, values-All P m f)

-- A message that has no condition to meet.
abbrev Any {ℓ} : {A : Type ℓ} → A → Type 0
Any x = Unit

OnSome-Any {ℓ} : {A : Type ℓ} (o : Option A) → OnSome Any o
OnSome-Any none = tt
OnSome-Any (some x) = tt

All-Any {ℓ} : {A : Type ℓ} (xs : List A) → All Any xs
All-Any [] = tt
All-Any (x ∷ xs) = (tt, All-Any xs)

-- Nested messages that are always read back.
pub read_option-any {ℓ} :
    {A : Type ℓ} (fns : MessageFns A) (o : Option A)
    → ((x : A) → ReadsBack fns x)
    → read_option (from_json fns) (first_set (if_set (option_entry (to_json fns) o)) none) ≡ ok o
read_option-any fns o f = read_option-option_entry fns Any o (λ x h. f x) (OnSome-Any o)

pub read_list-any {ℓ} :
    {A : Type ℓ} (fns : MessageFns A) (xs : List A)
    → ((x : A) → ReadsBack fns x)
    → read_list (from_json fns) (if_set (list_entry (to_json fns) xs)) none ≡ ok xs
read_list-any fns xs f = read_list-messages fns Any xs (λ x h. f x) (All-Any xs)

pub read_struct-none : (js : JsPlatform) → read_struct js none ≡ none
unfolding read_struct
read_struct-none js = refl

pub read_struct-struct_entry :
    (js : JsPlatform) (o : Option Struct) → read_struct js (if_set (struct_entry o)) ≡ o
unfolding read_struct struct_entry
read_struct-struct_entry js none = refl
read_struct-struct_entry js (some m) = ap some (struct_of-fields_of m)

module _ (js : JsPlatform) (faithful : IsFaithful js) where
  open js use {string_of, number_of, literal}
  open faithful use {string_lem, number_lem, boolean_lem}

  pub read_text-text_entry : (s : String) → read_text js (if_set (text_entry s)) none ≡ ok s
  unfolding read_text text_entry read_with
  read_text-text_entry s = elim (Bool-cases (s == "")) [
    | inl empty ↦ rw (empty, truthy) (ground (arith, eq_iff s ""))
    | inr filled ↦ rw (filled, truthy) (string_lem s)
  ]

  pub read_number-number_entry : (z : ℤ) → read_number js (if_set (number_entry js z)) none ≡ ok z
  unfolding read_number number_entry read_with
  read_number-number_entry (pos zero) = refl
  read_number-number_entry (pos (suc n)) = number_lem (pos (suc n))
  read_number-number_entry (negsuc n) = number_lem (negsuc n)

  pub read_option-option_number_entry :
      (o : Option ℤ)
      → read_option number_of (first_set (if_set (option_number_entry js o)) none) ≡ ok o
  unfolding read_option option_number_entry
  read_option-option_number_entry none = refl
  read_option-option_number_entry (some z) = rw (number_lem z) refl

  pub read_option-option_text :
      (o : Option String)
      → read_option string_of (first_set (if_set (option_entry str o)) none) ≡ ok o
  unfolding read_option option_entry
  read_option-option_text none = refl
  read_option-option_text (some s) = rw (string_lem s) refl

  pub read_flag-flag_entry : (b : Bool) → read_flag js (first_set (if_set (flag_entry b)) none) ≡ b
  unfolding read_flag flag_entry
  read_flag-flag_entry false = refl
  read_flag-flag_entry true = boolean_lem true

  pub read_option_flag-option_entry :
      (o : Option Bool) → read_option_flag js (first_set (if_set (option_entry bool o)) none) ≡ o
  unfolding read_option_flag option_entry
  read_option_flag-option_entry none = refl
  read_option_flag-option_entry (some b) = ap some (boolean_lem b)

  texts-All : (xs : List String) → All (λ s. string_of (str s) ≡ ok s) xs
  texts-All [] = tt
  texts-All (s ∷ xs) = (string_lem s, texts-All xs)

  pub read_list-texts :
      (xs : List String) → read_list string_of (if_set (list_entry str xs)) none ≡ ok xs
  read_list-texts xs = read_list-list_entry string_of str xs (texts-All xs)

  pub read_map-texts :
      (m : JsMap String)
      → read_map string_of (read_struct js (if_set (map_entry str m))) none ≡ ok m
  read_map-texts m =
      read_map-map_entry js string_of str m
        (values-All (λ s. string_of (str s) ≡ ok s) m string_lem)
