-- ===== src/Config/Environment.antt =====
-- common/src/config/simple_config.cpp: Trim, ResolveEnvironmentReference and
-- ExpandEnvironmentVariables. `getenv` is std::getenv, `none` where the variable is not set.
pub mod Laws
use project_moon.Base.{
  ℕ, zero, suc, ◌+◌, Bool, true, false, not, Option, none, some, [], ◌∷◌, ◌++◌, if◌then◌else◌,
  Bytes, length,
}
use project_moon.Base.Text.{is_empty, split_at, split_at_pair, skip_spaces, drop_spaces_end}

unfoldable pub trim : Bytes → Bytes
trim value = drop_spaces_end (skip_spaces value)

-- `expression.find(":-")` as the texts on its two sides
separated : Bytes → Bytes × Option Bytes
separated expression = elim (split_at_pair b':' b'-' expression) [
  | none ↦ (expression, none)
  | some (name, fallback) ↦ (name, some fallback)
]

module _ (getenv : Bytes → Option Bytes) where
  -- The value of a variable that is set and not empty
  set_value : Bytes → Option Bytes
  set_value variable_name =
      let env_value : Option Bytes =
        if is_empty variable_name then none else getenv variable_name in
      elim env_value [ none ↦ none | some value ↦ if is_empty value then none else some value ]

  unfoldable pub resolve_environment_reference : Bytes → Bytes
  unfolding separated set_value
  resolve_environment_reference text =
      let (name, fallback) = separated (trim text) in
      elim (set_value (trim name)) [
        | some value ↦ value
        | none ↦ elim fallback [ some rest ↦ trim rest | none ↦ [] ]
      ]

  -- The loop of ExpandEnvironmentVariables. `expanded` is `front ++ rest`, and `position` stands
  -- between the two: a round that replaces a reference goes on behind the replacement.
  unfoldable pub expand_from : ℕ → Bytes → Bytes → Bytes
  expand_from zero front rest = front ++ rest
  expand_from (suc fuel) front rest = elim (split_at_pair b'$' b'{' rest) [
    | none ↦ front ++ rest
    | some (before, behind) ↦ elim (split_at b'}' behind) [
      | none ↦ front ++ rest
      | some (expression, tail) ↦
          let replacement = resolve_environment_reference expression in
          expand_from fuel (front ++ before ++ replacement) tail
    ]
  ]

  -- A round takes three bytes at least, so the text's length is fuel enough.
  unfoldable pub expand_environment_variables : Bytes → Bytes
  expand_environment_variables value = expand_from (length value) [] value
