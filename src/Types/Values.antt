-- ===== src/Types/Values.antt =====
-- The values of type `any` and `{ [key: string]: any }` in src/types/pb/a2a.ts.
use package.a2a_js.Prelude.{String, Bool, List, JsMap, [], ◌∷◌, ◌≡◌, refl, ap}

-- A JSON value; a number stands as its literal, which no modelled code computes with.
mutual
  pub data Json : Type 0 where
    null : Json
    bool : Bool → Json
    num : String → Json
    str : String → Json
    arr : Items → Json
    obj : Fields → Json

  pub data Items : Type 0 where
    nil : Items
    cons : Json → Items → Items

  pub data Fields : Type 0 where
    end : Fields
    field : String → Json → Fields → Fields

-- A metadata object: its own enumerable keys with their values.
abbrev pub Struct : Type 0
Struct = JsMap Json

-- An object value as a map of its keys, and back.
abbrev pub struct_of : Fields → Struct
struct_of end = []
struct_of (field k v fs) = (k, v) ∷ struct_of fs

abbrev pub fields_of : Struct → Fields
fields_of [] = end
fields_of ((k, v) ∷ m) = field k v (fields_of m)

-- The elements of an array value, and back.
abbrev pub list_of : Items → List Json
list_of nil = []
list_of (cons v vs) = v ∷ list_of vs

abbrev pub items_of : List Json → Items
items_of [] = nil
items_of (v ∷ vs) = cons v (items_of vs)

pub struct_of-fields_of : (m : Struct) → struct_of (fields_of m) ≡ m
struct_of-fields_of [] = refl
struct_of-fields_of ((k, v) ∷ m) = ap (λ r. (k, v) ∷ r) (struct_of-fields_of m)

pub list_of-items_of : (vs : List Json) → list_of (items_of vs) ≡ vs
list_of-items_of [] = refl
list_of-items_of (v ∷ vs) = ap (λ r. v ∷ r) (list_of-items_of vs)
