-- ===== src/Features/Loading.antt =====
-- src/feature_flags.rs: what `load_feature_flags` makes of the environment.
use marreta_lang.Base.{
  ◌≡◌, refl, sym, ap, ◌∙◌, Bool, true, false, List, [], ◌∷◌, ◌++◌, arith, if◌then◌else◌, Option,
  none, some, append_assoc, append-nil, all, Bool-cases, inl, inr,
}
use marreta_lang.Base.Results.{Result, ok, err, panic, timeout}
use marreta_lang.Text.{
  Text, codes, text_eq, text_eq_refl, lowercase, strip_prefix_append, to_ascii_lowercase,
}
use marreta_lang.Text.{is_whitespace}
use marreta_lang.Text.Trim.{trim_start, trim_end}
use marreta_lang.Text.Dict.{Dict, get, insert, get-insert}
use marreta_lang.Features.{
  LoadError, invalid_name, invalid_value, Loaded, load_named, load_variable, load_loop,
  load_feature_flags, normalize_env_feature_name, is_valid_feature_name, parse_feature_bool,
  enabled, env_key_for_feature_name, feature_env_prefix,
}
use marreta_lang.Features.Names.{is_any_char, valid-chars, normalize-env_key}

-- What one variable of the environment says.
pub data Verdict : Type 0 where
  ignored : Verdict
  sets : Text → Bool → Verdict
  fails : LoadError → Verdict

unfoldable pub value_verdict : Text → Text → Result Text Bool → Verdict
value_verdict key name (ok b) = sets name b
value_verdict key name (err raw) = fails (invalid_value key raw)
value_verdict key name _ = ignored

unfoldable pub name_verdict : Text → Text → Option Text → Verdict
name_verdict key value none = ignored
name_verdict key value (some name) =
    if is_valid_feature_name name
    then value_verdict key name (parse_feature_bool value)
    else fails (invalid_name key)

unfoldable pub verdict : Text → Text → Verdict
verdict key value = name_verdict key value (normalize_env_feature_name key)

abbrev apply : Verdict → Loaded → Loaded
apply ignored loaded = loaded
apply (sets name b) (flags, errors) = (insert name b flags, errors)
apply (fails e) (flags, errors) = (flags, errors ++ (e ∷ []))

load_named-apply :
    (key name : Text) (r : Result Text Bool) (l : Loaded)
    → load_named key name r l ≡ apply (value_verdict key name r) l
unfolding load_named value_verdict
load_named-apply key name (ok b) (flags, errors) = refl
load_named-apply key name (err raw) (flags, errors) = refl
load_named-apply key name panic (flags, errors) = refl
load_named-apply key name timeout (flags, errors) = refl

load_variable-apply :
    (key value : Text) (n : Option Text) (l : Loaded)
    → load_variable key value n l ≡ apply (name_verdict key value n) l
unfolding load_variable name_verdict
load_variable-apply key value none (flags, errors) = refl
load_variable-apply key value (some name) (flags, errors) =
    elim (Bool-cases (is_valid_feature_name name)) [
      | inl valid ↦ rw valid (load_named-apply key name (parse_feature_bool value) (flags, errors))
      | inr invalid ↦ rw invalid
    ]

-- The setting of a flag by the last variable that sets it.
abbrev pub or_earlier : Option Bool → Option Bool → Option Bool
or_earlier none b = b
or_earlier (some a) b = some a

abbrev pub setting_of : Text → Verdict → Option Bool
setting_of name (sets n b) = if text_eq n name then some b else none
setting_of name v = none

unfoldable pub setting : Text → Dict Text → Option Bool
setting name [] = none
setting name ((k, v) ∷ vars) = or_earlier (setting name vars) (setting_of name (verdict k v))

-- The errors of the variables, in order.
abbrev pub error_of : Verdict → List LoadError
error_of (fails e) = e ∷ []
error_of v = []

unfoldable pub problems : Dict Text → List LoadError
problems [] = []
problems ((k, v) ∷ vars) = error_of (verdict k v) ++ problems vars

get-apply :
    (name : Text) (v : Verdict) (l : Loaded)
    → get name (apply v l).0 ≡ or_earlier (setting_of name v) (get name l.0)
get-apply name ignored l = refl
get-apply name (sets n b) (flags, errors) = ground (arith, get-insert n name b flags)
get-apply name (fails e) (flags, errors) = refl

errors-apply : (v : Verdict) (l : Loaded) → (apply v l).1 ≡ l.1 ++ error_of v
errors-apply ignored l = sym (append-nil l.1)
errors-apply (sets n b) (flags, errors) = sym (append-nil errors)
errors-apply (fails e) (flags, errors) = refl

or_earlier_assoc :
    (a b c : Option Bool) → or_earlier a (or_earlier b c) ≡ or_earlier (or_earlier a b) c
or_earlier_assoc none b c = refl
or_earlier_assoc (some a) b c = refl

or_earlier-none : (a : Option Bool) → or_earlier a none ≡ a
or_earlier-none none = refl
or_earlier-none (some a) = refl

load_loop-flags :
    (name : Text) (vars : Dict Text) (l : Loaded)
    → get name (load_loop vars l).0 ≡ or_earlier (setting name vars) (get name l.0)
unfolding load_loop setting verdict
load_loop-flags name [] l = refl
load_loop-flags name ((k, v) ∷ vars) l =
    load_loop-flags name vars (load_variable k v (normalize_env_feature_name k) l)
    ∙ rw (load_variable-apply k v (normalize_env_feature_name k) l) (
        rw (get-apply name (name_verdict k v (normalize_env_feature_name k)) l)
          (or_earlier_assoc (setting name vars) _ _))

load_loop-errors : (vars : Dict Text) (l : Loaded) → (load_loop vars l).1 ≡ l.1 ++ problems vars
unfolding load_loop problems verdict
load_loop-errors [] l = sym (append-nil l.1)
load_loop-errors ((k, v) ∷ vars) l =
    load_loop-errors vars (load_variable k v (normalize_env_feature_name k) l)
    ∙ rw (load_variable-apply k v (normalize_env_feature_name k) l) (
        rw (errors-apply (name_verdict k v (normalize_env_feature_name k)) l)
          (append_assoc l.1 _ (problems vars)))

-- After loading, a flag has the value that the last variable for it sets, and the errors are those
-- of the variables, in order.
pub load_feature_flags_lem :
    (vars : Dict Text) (name : Text)
    → (get name (load_feature_flags vars).0 ≡ setting name vars)
      × ((load_feature_flags vars).1 ≡ problems vars)
unfolding load_feature_flags
load_feature_flags_lem vars name = (
  load_loop-flags name vars ([], []) ∙ unfold get in or_earlier-none (setting name vars),
  load_loop-errors vars ([], []),
)

lowercase-valid : (t : Text) → all is_any_char t ≡ true → lowercase t ≡ t
unfolding to_ascii_lowercase
lowercase-valid [] h = refl
lowercase-valid (c ∷ t) h = ground (arith, lowercase-valid t)

normalize-lower_key :
    (name : Text)
    → is_valid_feature_name name ≡ true
    → normalize_env_feature_name (feature_env_prefix ++ name) ≡ some name
unfolding normalize_env_feature_name
normalize-lower_key name h =
    rw (strip_prefix_append feature_env_prefix name)
      (ap some (lowercase-valid name (valid-chars name h)))

-- The variable that switches a flag on in upper case, and the one that switches it off in lower case.
abbrev pub switched_on : Text → Text × Text
switched_on name = (env_key_for_feature_name name, codes "true")

abbrev pub switched_off : Text → Text × Text
switched_off name = (feature_env_prefix ++ name, codes "off")

verdict-switched_on :
    (name : Text)
    → is_valid_feature_name name ≡ true
    → verdict (switched_on name).0 (switched_on name).1 ≡ sets name true
unfolding verdict name_verdict
verdict-switched_on name h =
    rw (normalize-env_key name h, h)
      (unfold value_verdict parse_feature_bool trim_start trim_end is_whitespace to_ascii_lowercase
          text_eq in
        refl)

verdict-switched_off :
    (name : Text)
    → is_valid_feature_name name ≡ true
    → verdict (switched_off name).0 (switched_off name).1 ≡ sets name false
unfolding verdict name_verdict
verdict-switched_off name h =
    rw (normalize-lower_key name h, h)
      (unfold value_verdict parse_feature_bool trim_start trim_end is_whitespace to_ascii_lowercase
          text_eq in
        refl)

-- For every valid flag name there are two variables of the environment that set the flag on and
-- off, and the order in which the map gives them decides its value.
pub load_feature_flags-order :
    (name : Text)
    → is_valid_feature_name name ≡ true
    → (enabled name (load_feature_flags (switched_off name ∷ switched_on name ∷ [])).0 ≡ true)
      × (enabled name (load_feature_flags (switched_on name ∷ switched_off name ∷ [])).0 ≡ false)
unfolding enabled setting
load_feature_flags-order name h = (
  rw (
    (load_feature_flags_lem (switched_off name ∷ switched_on name ∷ []) name).0,
    verdict-switched_on name h,
    verdict-switched_off name h,
    text_eq_refl name,
  ),
  rw (
    (load_feature_flags_lem (switched_on name ∷ switched_off name ∷ []) name).0,
    verdict-switched_on name h,
    verdict-switched_off name h,
    text_eq_refl name,
  ),
)
