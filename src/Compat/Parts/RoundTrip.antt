-- ===== src/Compat/Parts/RoundTrip.antt =====
-- Which parts survive the way to version 0.3 and back.
use package.a2a_js.Prelude.{
  ℕ, String, true, false, Option, none, some, List, [], ◌∷◌, get, set, delete, or_else, is_empty,
  truthy, get-set, ◌==◌, ◌≡◌, inl, inr, arith, refl, eq_iff, eq_refl, ap, Bool-cases,
}
use package.a2a_js.Types.{
  struct_of, fields_of, Json, null, bool, num, str, arr, obj, Fields, end, field, Struct, Part,
  Content, text, raw, url, json,
}
use package.a2a_js.Errors.{Result, ok}
use package.a2a_js.Compat.Legacy.{legacy_text, legacy_data}
use package.a2a_js.Compat.Parts.{
  Base64, data_part_compat_flag, is_flagged, some_if_filled, unwrap_value, core_data_part,
  compat_data_part, non_empty, core_file_part, to_core_part, to_compat_part,
}

-- A value survives one function and then the other, and neither throws.
abbrev pub Survives {ℓ κ} :
    {A : Type ℓ} {B : Type κ} → (A → Result B) → (B → Result A) → A → Type (ℓ ⊔ κ)
Survives {B = B} f g a = (b : B) × (f a ≡ ok b) × (g b ≡ ok a)

pub or_else-non_empty : (s : String) → or_else (non_empty s) "" ≡ s
or_else-non_empty s = elim (Bool-cases (truthy s)) [
  | inl filled ↦ rw filled refl
  | inr blank ↦ rw blank (ground (arith, eq_iff s ""))
]

fields_of-struct_of : (fs : Fields) → fields_of (struct_of fs) ≡ fs
fields_of-struct_of end = refl
fields_of-struct_of (field k v fs) = ap (field k v) (fields_of-struct_of fs)

-- The flag is not in use: it is no key of the metadata, and the metadata is absent or not empty.
abbrev pub IsFree : Option Struct → Type 0
IsFree none = Unit
IsFree (some m) = (get data_part_compat_flag m ≡ none) × (is_empty m ≡ false)

-- No name and no media type, which version 0.3 has for files only.
abbrev pub HasNoFile : Part → Type 0
HasNoFile p = (p.filename ≡ "") × (p.media_type ≡ "")

-- The parts that version 0.3 can represent.
abbrev pub IsContentCompat : Option Content → Part → Type 0
IsContentCompat none p = ⊥
IsContentCompat (some (text s)) p = HasNoFile p
IsContentCompat (some (raw b)) p = Unit
IsContentCompat (some (url u)) p = Unit
IsContentCompat (some (json none)) p = ⊥
IsContentCompat (some (json (some (obj fs)))) p = HasNoFile p × (is_flagged p.metadata ≡ false)
IsContentCompat (some (json (some v))) p = HasNoFile p × IsFree p.metadata

abbrev pub IsPartCompat : Part → Type 0
IsPartCompat p = IsContentCompat p.content p

delete-set_absent : (k : String) (v : Json) (m : Struct) → get k m ≡ none → delete k (set k v m) ≡ m
delete-set_absent k v [] h = rw eq_refl refl
delete-set_absent k v ((j, w) ∷ m) h = elim (Bool-cases (j == k)) [
  | inl same ↦ let clash = rw same at h in cc
  | inr other ↦
      let absent = rw other at h in
      rw (other, set) (rw (other, delete) (ap (◌∷◌ (j, w)) (delete-set_absent k v m absent)))
]

get-set_self : (k : String) (v : Json) (m : Struct) → get k (set k v m) ≡ some v
get-set_self k v m = simp (get-set, eq_refl)

some_if_filled-delete-set :
    (v : Json) (metadata : Option Struct)
    → IsFree metadata
    → some_if_filled
        (delete data_part_compat_flag (set data_part_compat_flag v (or_else metadata [])))
      ≡ metadata
some_if_filled-delete-set v none h = refl
some_if_filled-delete-set v (some m) (absent, filled) =
    rw (delete-set_absent data_part_compat_flag v m absent, filled) refl

abbrev data_value_part : Json → Option Struct → Part
data_value_part v metadata = record {
  content = some (json (some v));
  metadata = metadata;
  filename = "";
  media_type = "";
}

core_data_part_of_wrapped :
    (v : Json) (metadata : Option Struct)
    → IsFree metadata
    → core_data_part
        (("value", v) ∷ [])
        (some (set data_part_compat_flag (bool true) (or_else metadata [])))
      ≡ data_value_part v metadata
unfolding core_data_part unwrap_value
core_data_part_of_wrapped v metadata h =
    rw (get-set_self data_part_compat_flag (bool true) (or_else metadata []))
      (rw (some_if_filled-delete-set (bool true) metadata h) refl)

core_data_part_of_object :
    (fs : Fields) (metadata : Option Struct)
    → is_flagged metadata ≡ false
    → core_data_part (struct_of fs) metadata ≡ data_value_part (obj fs) metadata
unfolding core_data_part
core_data_part_of_object fs metadata h = rw (h, fields_of-struct_of fs) refl

module _ (b64 : Base64) where
  open b64 use {to_base64, from_base64}

  -- The decoder of base64 inverts the encoder.
  abbrev pub IsInverse : Type 0
  IsInverse = (b : List ℕ) → from_base64 (to_base64 b) ≡ b

  abbrev PartSurvives : Part → Type 0
  PartSurvives = Survives (to_compat_part b64) (to_core_part b64)

  data_survives :
      (v : Json) (p : Part)
      → IsContentCompat (some (json (some v))) p
      → PartSurvives (record p { content = some (json (some v)) })
  unfolding to_compat_part to_core_part compat_data_part
  data_survives (obj fs) p ((no_name, no_type), free) = (
    legacy_data (struct_of fs) p.metadata,
    refl,
    rw (core_data_part_of_object fs p.metadata free) (rw (no_name, no_type) refl),
  )
  data_survives null p ((no_name, no_type), free) =
      (_, refl, rw (core_data_part_of_wrapped null p.metadata free) (rw (no_name, no_type) refl))
  data_survives (bool b) p ((no_name, no_type), free) = (
    _,
    refl,
    rw (core_data_part_of_wrapped (bool b) p.metadata free) (rw (no_name, no_type) refl),
  )
  data_survives (num n) p ((no_name, no_type), free) =
      (_, refl, rw (core_data_part_of_wrapped (num n) p.metadata free) (rw (no_name, no_type) refl))
  data_survives (str s) p ((no_name, no_type), free) =
      (_, refl, rw (core_data_part_of_wrapped (str s) p.metadata free) (rw (no_name, no_type) refl))
  data_survives (arr xs) p ((no_name, no_type), free) = (
    _,
    refl,
    rw (core_data_part_of_wrapped (arr xs) p.metadata free) (rw (no_name, no_type) refl),
  )

  content_survives :
      (o : Option Content) (p : Part)
      → IsInverse
      → IsContentCompat o p
      → PartSurvives (record p { content = o })
  unfolding to_compat_part to_core_part core_file_part
  content_survives none p inverse h = absurd h
  content_survives (some (text s)) p inverse (no_name, no_type) =
      (legacy_text s p.metadata, refl, rw (no_name, no_type) refl)
  content_survives (some (raw b)) p inverse h =
      (_, refl, rw (inverse b, or_else-non_empty p.filename, or_else-non_empty p.media_type) refl)
  content_survives (some (url u)) p inverse h =
      (_, refl, rw (or_else-non_empty p.filename, or_else-non_empty p.media_type) refl)
  content_survives (some (json none)) p inverse h = absurd h
  content_survives (some (json (some v))) p inverse h = data_survives v p h

  pub part_survives : (p : Part) → IsInverse → IsPartCompat p → PartSurvives p
  part_survives p inverse h = content_survives p.content p inverse h
