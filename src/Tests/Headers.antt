-- ===== src/Tests/Headers.antt =====
-- The header of extensions printed and parsed.
use package.a2a_js.Prelude.{Text, codes, some, List, [], ◌∷◌, ◌≡◌, refl}
use package.a2a_js.Context.Header.{
  parse_service_parameter, to_service_parameter, parse_service_parameter-to_service_parameter,
}

-- The identifiers have no space around them.
abbrev as_is : Text → Text
as_is t = t

abbrev identifiers : List Text
identifiers = codes "urn:a" ∷ codes "urn:b" ∷ []

parse_service_parameter-to_service_parameter_example :
    parse_service_parameter as_is (some (to_service_parameter identifiers)) ≡ identifiers
parse_service_parameter-to_service_parameter_example =
    parse_service_parameter-to_service_parameter as_is identifiers
      ((refl, refl, refl), ((refl, refl, refl), tt)) (refl, (refl, tt))

printed : to_service_parameter identifiers ≡ codes "urn:a,urn:b"
unfolding to_service_parameter
printed = refl
