-- ===== src/Features/Tests.antt =====
-- The theorems on src/feature_flags.rs at concrete names and environments.
use marreta_lang.Base.{◌≡◌, ◌↔◌, refl, true, false, [], ◌∷◌, some}
use marreta_lang.Text.{Text, codes, split}
use marreta_lang.Text.Dict.{Dict, get}
use marreta_lang.Features.{
  is_valid_feature_name, normalize_env_feature_name, env_key_for_feature_name, load_feature_flags,
  enabled,
}
use marreta_lang.Features.Regex.{Matches, feature_name_regex}
use marreta_lang.Features.Names.{is_valid_feature_name_iff, normalize-env_key}
use marreta_lang.Features.Loading.{
  setting, problems, load_feature_flags_lem, load_feature_flags-order, switched_on, switched_off,
}

abbrev beta : Text
beta = codes "new_checkout_2"

beta-valid : is_valid_feature_name beta ≡ true
unfolding is_valid_feature_name split
beta-valid = refl

-- One variable of another program, one flag that is set twice, and two mistakes.
abbrev environment : Dict Text
environment =
    (codes "HOME", codes "/root")
    ∷ (codes "MARRETA_FEATURE_BETA", codes "on")
    ∷ (codes "MARRETA_FEATURE__X", codes "1")
    ∷ (codes "MARRETA_FEATURE_beta", codes " No ")
    ∷ (codes "MARRETA_FEATURE_GAMMA", codes "maybe")
    ∷ []

is_valid_feature_name_iff_example :
    (is_valid_feature_name beta ≡ true) ↔ Matches feature_name_regex beta
is_valid_feature_name_iff_example = is_valid_feature_name_iff beta

normalize-env_key_example : normalize_env_feature_name (env_key_for_feature_name beta) ≡ some beta
normalize-env_key_example = normalize-env_key beta beta-valid

load_feature_flags_lem_example :
    (get (codes "beta") (load_feature_flags environment).0 ≡ setting (codes "beta") environment)
    × ((load_feature_flags environment).1 ≡ problems environment)
load_feature_flags_lem_example = load_feature_flags_lem environment (codes "beta")

load_feature_flags-order_example :
    (enabled beta (load_feature_flags (switched_off beta ∷ switched_on beta ∷ [])).0 ≡ true)
    × (enabled beta (load_feature_flags (switched_on beta ∷ switched_off beta ∷ [])).0 ≡ false)
load_feature_flags-order_example = load_feature_flags-order beta beta-valid
