-- ===== src/Features.antt =====
-- src/feature_flags.rs: the names, values and loading of feature flags.
pub mod Names
pub mod Regex
pub mod Loading
mod Tests
use marreta_lang.Base.{
  ℕ, Bool, true, false, ◌&&◌, ◌||◌, List, [], ◌∷◌, ◌++◌, map, if◌then◌else◌, Option, none, some,
  all, any, is_empty,
}
use marreta_lang.Base.Results.{Result, ok, err}
use marreta_lang.Text.{
  Text, codes, text_eq, strip_prefix, split, is_ascii_lowercase, is_ascii_digit, lowercase,
  uppercase,
}
use marreta_lang.Text.Trim.{trim}
use marreta_lang.Text.Order.{sort_by}
use marreta_lang.Text.Dict.{Dict, get, insert}

-- `FEATURE_ENV_PREFIX`
abbrev pub feature_env_prefix : Text
feature_env_prefix = codes "MARRETA_FEATURE_"

abbrev pub is_name_char : ℕ → Bool
is_name_char c = is_ascii_lowercase c || is_ascii_digit c

-- A part behind an underscore.
abbrev pub is_name_part : Text → Bool
is_name_part [] = false
is_name_part (c ∷ cs) = all is_name_char (c ∷ cs)

-- The part in front of the first underscore.
abbrev pub is_first_part : Text → Bool
is_first_part [] = false
is_first_part (c ∷ cs) = is_ascii_lowercase c && all is_name_char (c ∷ cs)

abbrev pub are_name_parts : List Text → Bool
are_name_parts [] = false
are_name_parts (first ∷ parts) = is_first_part first && all is_name_part parts

unfoldable pub is_valid_feature_name : Text → Bool
is_valid_feature_name name = are_name_parts (split b'_' name)

abbrev lowered : Option Text → Option Text
lowered none = none
lowered (some suffix) = some (lowercase suffix)

unfoldable pub normalize_env_feature_name : Text → Option Text
normalize_env_feature_name env_key = lowered (strip_prefix feature_env_prefix env_key)

unfoldable pub env_key_for_feature_name : Text → Text
env_key_for_feature_name name = feature_env_prefix ++ uppercase name

abbrev pub true_words : List Text
true_words = codes "true" ∷ codes "1" ∷ codes "yes" ∷ codes "on" ∷ codes "enabled" ∷ []

abbrev pub false_words : List Text
false_words = codes "false" ∷ codes "0" ∷ codes "no" ∷ codes "off" ∷ codes "disabled" ∷ []

-- The text is one of the words.
abbrev pub one_of : List Text → Text → Bool
one_of words t = any (text_eq t) words

unfoldable pub parse_feature_bool : Text → Result Text Bool
parse_feature_bool raw =
    let word = lowercase (trim raw) in
    if one_of true_words word
    then ok true
    else if one_of false_words word
    then ok false
    else err raw

-- The messages that `load_feature_flags` collects, before they are put into words.
pub data LoadError : Type 0 where
  invalid_name : Text → LoadError
  invalid_value : Text → Text → LoadError

abbrev pub Loaded : Type 0
Loaded = Dict Bool × List LoadError

-- One round of the loop, for a variable with a normalized name.
unfoldable pub load_named : Text → Text → Result Text Bool → Loaded → Loaded
load_named key name (ok enabled) (flags, errors) = (insert name enabled flags, errors)
load_named key name (err raw) (flags, errors) = (flags, errors ++ (invalid_value key raw ∷ []))
load_named key name other loaded = loaded

unfoldable pub load_variable : Text → Text → Option Text → Loaded → Loaded
load_variable key value none loaded = loaded
load_variable key value (some name) (flags, errors) =
    if is_valid_feature_name name
    then load_named key name (parse_feature_bool value) (flags, errors)
    else (flags, errors ++ (invalid_name key ∷ []))

unfoldable pub load_loop : Dict Text → Loaded → Loaded
load_loop [] loaded = loaded
load_loop ((key, value) ∷ vars) loaded =
    load_loop vars (load_variable key value (normalize_env_feature_name key) loaded)

unfoldable pub load_feature_flags : Dict Text → Loaded
load_feature_flags vars = load_loop vars ([], [])

abbrev or_false : Option Bool → Bool
or_false none = false
or_false (some b) = b

-- `FeatureFlags::enabled`
unfoldable pub enabled : Text → Dict Bool → Bool
enabled name flags = or_false (get name flags)

-- `FeatureFlags::is_empty`
abbrev pub has_no_flags : Dict Bool → Bool
has_no_flags flags = is_empty flags

-- `FeatureFlags::entries`, sorted by the names.
abbrev pub entries : Dict Bool → Dict Bool
entries flags = sort_by (λ p. p.0) flags
