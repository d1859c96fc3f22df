-- ===== src/Context/Header.antt =====
-- `parseServiceParameter` and `toServiceParameter` of src/extensions.ts, on texts of code units.
-- `trim` is the method of a string.
use package.a2a_js.Prelude.{
  Text, ℕ, Bool, true, false, not, Option, none, some, List, [], ◌∷◌, ◌++◌, map, filter, any,
  is_empty, All, nat_eq, if◌then◌else◌, ◌&&◌, ◌≡◌, arith, refl, ap, ◌∙◌,
}

abbrev pub comma : ℕ
comma = 44

abbrev pub text_eq : Text → Text → Bool
text_eq [] [] = true
text_eq (a ∷ s) (b ∷ t) = nat_eq a b && text_eq s t
text_eq _ _ = false

abbrev put_unit : ℕ → List Text → List Text
put_unit c [] = (c ∷ []) ∷ []
put_unit c (t ∷ ts) = (c ∷ t) ∷ ts

-- `value.split(',')`.
unfoldable pub split_at_commas : Text → List Text
split_at_commas [] = [] ∷ []
split_at_commas (c ∷ cs) =
    let rest = split_at_commas cs in if nat_eq c comma then [] ∷ rest else put_unit c rest

-- `Array.from(new Set(ts))`: the first of equal texts stays.
unfoldable pub unique_from : List Text → List Text → List Text
unique_from seen [] = []
unique_from seen (t ∷ ts) = elim (any (text_eq t) seen) [
  | true ↦ unique_from seen ts
  | false ↦ t ∷ unique_from (t ∷ seen) ts
]

abbrev is_filled : Text → Bool
is_filled t = not (is_empty t)

unfoldable pub parse_service_parameter : (Text → Text) → Option Text → List Text
unfolding split_at_commas unique_from
parse_service_parameter trim none = []
parse_service_parameter trim (some []) = []
parse_service_parameter trim (some (c ∷ cs)) =
    unique_from [] (filter is_filled (map trim (split_at_commas (c ∷ cs))))

-- `value.join(',')`.
unfoldable pub to_service_parameter : List Text → Text
to_service_parameter [] = []
to_service_parameter (t ∷ []) = t
to_service_parameter (t ∷ u ∷ ts) = t ++ comma ∷ to_service_parameter (u ∷ ts)

abbrev has_comma : Text → Bool
has_comma = any (λ c. nat_eq c comma)

-- An identifier of an extension: neither empty nor surrounded by space, and without a comma.
abbrev pub IsExtension : (Text → Text) → Text → Type 0
IsExtension trim t = (has_comma t ≡ false) × (trim t ≡ t) × (is_empty t ≡ false)

-- No text stands twice, nor is it among those seen before.
abbrev pub IsDistinct : List Text → List Text → Type 0
IsDistinct seen [] = Unit
IsDistinct seen (t ∷ ts) = (any (text_eq t) seen ≡ false) × IsDistinct (t ∷ seen) ts

split_of_one : (t : Text) → has_comma t ≡ false → split_at_commas t ≡ t ∷ []
unfolding split_at_commas
split_of_one [] h = refl
split_of_one (c ∷ cs) h =
    let other : nat_eq c comma ≡ false = ground (arith, h) in
    let rest : has_comma cs ≡ false = ground (arith, h) in rw (other, split_of_one cs rest) refl

split_of_first :
    (t rest : Text)
    → has_comma t ≡ false
    → split_at_commas (t ++ comma ∷ rest) ≡ t ∷ split_at_commas rest
unfolding split_at_commas
split_of_first [] rest h = refl
split_of_first (c ∷ cs) rest h =
    let other : nat_eq c comma ≡ false = ground (arith, h) in
    let later : has_comma cs ≡ false = ground (arith, h) in
    rw (other, split_of_first cs rest later) refl

split-to_service_parameter :
    (trim : Text → Text) (t : Text) (ts : List Text)
    → All (IsExtension trim) (t ∷ ts)
    → split_at_commas (to_service_parameter (t ∷ ts)) ≡ t ∷ ts
unfolding to_service_parameter
split-to_service_parameter trim t [] ((plain, _, _), _) = split_of_one t plain
split-to_service_parameter trim t (u ∷ ts) ((plain, _, _), h) =
    split_of_first t (to_service_parameter (u ∷ ts)) plain
    ∙ ap (◌∷◌ t) (split-to_service_parameter trim u ts h)

kept-All :
    (trim : Text → Text) (ts : List Text)
    → All (IsExtension trim) ts
    → filter is_filled (map trim ts) ≡ ts
kept-All trim [] h = refl
kept-All trim (t ∷ ts) ((_, trimmed, filled), h) = rw (trimmed, kept-All trim ts h) (rw filled refl)

unique_of_distinct : (seen ts : List Text) → IsDistinct seen ts → unique_from seen ts ≡ ts
unfolding unique_from
unique_of_distinct seen [] h = refl
unique_of_distinct seen (t ∷ ts) (new, h) =
    rw (new, unique_from) (ap (◌∷◌ t) (unique_of_distinct (t ∷ seen) ts h))

parse_of_filled :
    (trim : Text → Text) (s : Text)
    → is_empty s ≡ false
    → parse_service_parameter trim (some s)
      ≡ unique_from [] (filter is_filled (map trim (split_at_commas s)))
unfolding parse_service_parameter
parse_of_filled trim [] h = cc
parse_of_filled trim (c ∷ cs) h = refl

join_is_filled :
    (t : Text) (ts : List Text)
    → is_empty t ≡ false
    → is_empty (to_service_parameter (t ∷ ts)) ≡ false
unfolding to_service_parameter
join_is_filled [] ts h = cc
join_is_filled (c ∷ cs) [] h = refl
join_is_filled (c ∷ cs) (u ∷ ts) h = refl

-- Extensions that are printed into a header are parsed back in their order, where no extension
-- stands twice, and each is neither empty nor surrounded by space and has no comma.
pub parse_service_parameter-to_service_parameter :
    (trim : Text → Text) (ts : List Text)
    → All (IsExtension trim) ts
    → IsDistinct [] ts
    → parse_service_parameter trim (some (to_service_parameter ts)) ≡ ts
unfolding parse_service_parameter to_service_parameter
parse_service_parameter-to_service_parameter trim [] h distinct = refl
parse_service_parameter-to_service_parameter trim (t ∷ ts) h distinct =
    let ((_, _, filled), _) = h in
    parse_of_filled trim (to_service_parameter (t ∷ ts)) (join_is_filled t ts filled)
    ∙ ap (λ us. unique_from [] (filter is_filled (map trim us)))
        (split-to_service_parameter trim t ts h)
    ∙ ap (unique_from []) (kept-All trim (t ∷ ts) h)
    ∙ unique_of_distinct [] (t ∷ ts) distinct
