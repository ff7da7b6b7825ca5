-- ===== src/Features/Names.antt =====
-- src/feature_flags.rs: `is_valid_feature_name` accepts what `FEATURE_NAME_REGEX` matches.
use marreta_lang.Base.{
  ℕ, ◌≡◌, ◌↔◌, refl, sym, ap, ◌∙◌, Bool, true, ◌||◌, List, [], ◌∷◌, ◌++◌, arith, ◌==◌, all,
  and-eq_true, and_true, append-nil, all-append, ==_iff, some,
}
use marreta_lang.Text.{
  Text, split, join, join-split, split-append, split-lacks, lacks, is_ascii_lowercase,
  strip_prefix_append, lowercase-uppercase, is_ascii_digit, uppercase,
}
use marreta_lang.Features.{
  is_name_char, is_name_part, is_first_part, are_name_parts, is_valid_feature_name,
  normalize_env_feature_name, env_key_for_feature_name, feature_env_prefix,
}
use marreta_lang.Features.Regex.{
  Matches, class, seq, star, match_class, match_seq, match_nil, match_more, name_chars,
  is_underscore, feature_name_regex,
}

all-Matches : (p : ℕ → Bool) (t : Text) → all p t ≡ true → Matches (star (class p)) t
all-Matches p [] h = match_nil
all-Matches p (c ∷ t) h =
    match_more (match_class (and-eq_true (p c) (all p t) h).0)
      (all-Matches p t (and-eq_true (p c) (all p t) h).1) refl

Matches-all : {p : ℕ → Bool} {t : Text} → Matches (star (class p)) t → all p t ≡ true
Matches-all match_nil = refl
Matches-all (match_more (match_class h) m e) = rw e (and_true h (Matches-all m))

-- Parts behind underscores, written one after the other.
abbrev behind : List Text → Text
behind [] = []
behind (p ∷ ps) = b'_' ∷ (p ++ behind ps)

join-behind : (p : Text) (ps : List Text) → join (b'_' ∷ []) (p ∷ ps) ≡ p ++ behind ps
unfolding join
join-behind p [] = sym (append-nil p)
join-behind p (q ∷ ps) = rw (join-behind q ps)

part-Matches : (p : Text) → is_name_part p ≡ true → Matches name_chars p
part-Matches [] h = cc
part-Matches (c ∷ t) h =
    match_seq (match_class (and-eq_true (is_name_char c) (all is_name_char t) h).0)
      (all-Matches is_name_char t (and-eq_true (is_name_char c) (all is_name_char t) h).1) refl

parts-Matches :
    (ps : List Text)
    → all is_name_part ps ≡ true
    → Matches (star (seq (class is_underscore) name_chars)) (behind ps)
parts-Matches [] h = match_nil
parts-Matches (p ∷ ps) h =
    match_more
      (match_seq (match_class refl)
        (part-Matches p (and-eq_true (is_name_part p) (all is_name_part ps) h).0) refl)
      (parts-Matches ps (and-eq_true (is_name_part p) (all is_name_part ps) h).1) refl

record Parts (t : Text) : Type 0 where
  parts : List Text
  valid : all is_name_part parts ≡ true
  written : t ≡ behind parts

Matches-part : {t : Text} → Matches name_chars t → is_name_part t ≡ true
Matches-part (match_seq (match_class h) m e) = rw e (and_true h (Matches-all m))

part-chars : (p : Text) → is_name_part p ≡ true → all is_name_char p ≡ true
part-chars [] h = refl
part-chars (c ∷ p) h = h

Matches-Parts : {t : Text} → Matches (star (seq (class is_underscore) name_chars)) t → Parts t
Matches-Parts match_nil = record { parts = []; valid = refl; written = refl }
Matches-Parts (match_more {v = v} (match_seq {v = p} (match_class {c = c} h) m e) n f) =
    let r = Matches-Parts n in
    record {
      parts = p ∷ r.parts;
      valid = and_true (Matches-part m) r.valid;
      written =
          f
          ∙ ap (λ (w : Text). w ++ v) e
          ∙ rw ((==_iff c b'_').0 h) (ap (λ (w : Text). b'_' ∷ (p ++ w)) r.written);
    }

name_char-lacks : (t : Text) → all is_name_char t ≡ true → lacks b'_' t ≡ true
name_char-lacks [] h = refl
name_char-lacks (c ∷ t) h = ground (arith, name_char-lacks t)

split-behind :
    (p : Text) (ps : List Text)
    → all is_name_char p ≡ true
    → all is_name_part ps ≡ true
    → split b'_' (p ++ behind ps) ≡ p ∷ ps
split-behind p [] h k = rw append-nil (split-lacks b'_' p (name_char-lacks p h))
split-behind p (q ∷ ps) h k =
    split-append b'_' p (q ++ behind ps) (name_char-lacks p h)
    ∙ ap (◌∷◌ p) (
        split-behind q ps (part-chars q (and-eq_true (is_name_part q) (all is_name_part ps) k).0)
          (and-eq_true (is_name_part q) (all is_name_part ps) k).1)

first-Matches :
    (p : Text) (ps : List Text)
    → is_first_part p ≡ true
    → all is_name_part ps ≡ true
    → Matches feature_name_regex (p ++ behind ps)
first-Matches [] ps h k = cc
first-Matches (c ∷ p) ps h k =
    match_seq (match_class (and-eq_true (is_ascii_lowercase c) (all is_name_char (c ∷ p)) h).0)
      (match_seq
        (all-Matches is_name_char p
          (and-eq_true (is_name_char c) (all is_name_char p)
            (and-eq_true (is_ascii_lowercase c) (all is_name_char (c ∷ p)) h).1).1)
        (parts-Matches ps k) refl)
      refl

parts_valid-Matches :
    (ps : List Text) → are_name_parts ps ≡ true → Matches feature_name_regex (join (b'_' ∷ []) ps)
parts_valid-Matches [] h = cc
parts_valid-Matches (p ∷ ps) h = rw (join-behind p ps) (
    first-Matches p ps (and-eq_true (is_first_part p) (all is_name_part ps) h).0
      (and-eq_true (is_first_part p) (all is_name_part ps) h).1)

valid-Matches : (name : Text) → is_valid_feature_name name ≡ true → Matches feature_name_regex name
unfolding is_valid_feature_name
valid-Matches name h = rw (join-split b'_' name) at (parts_valid-Matches (split b'_' name) h)

lowercase-name_char : (c : ℕ) → is_ascii_lowercase c ≡ true → is_name_char c ≡ true
lowercase-name_char c h = rw h

Matches-valid : {name : Text} → Matches feature_name_regex name → is_valid_feature_name name ≡ true
unfolding is_valid_feature_name
Matches-valid {name}
      (match_seq {u = first} (match_class {c = c} h) (match_seq {u = u} {v = v} m n e) f) =
    let r = Matches-Parts n in
    let chars : all is_name_char (c ∷ u) ≡ true =
      and_true (lowercase-name_char c h) (Matches-all m) in
    let written : name ≡ (c ∷ u) ++ behind r.parts =
      f ∙ ap (◌∷◌ c) e ∙ ap (λ (w : Text). c ∷ (u ++ w)) r.written in
    rw (written, split-behind (c ∷ u) r.parts chars r.valid) (and_true (and_true h chars) r.valid)

-- The hand-written check of feature names accepts exactly the names that the documented regular
-- expression matches.
pub is_valid_feature_name_iff :
    (name : Text) → (is_valid_feature_name name ≡ true) ↔ Matches feature_name_regex name
is_valid_feature_name_iff name = (valid-Matches name, Matches-valid)

abbrev pub is_any_char : ℕ → Bool
is_any_char c = is_ascii_lowercase c || is_ascii_digit c || c == b'_'

name_chars-any : (t : Text) → all is_name_char t ≡ true → all is_any_char t ≡ true
name_chars-any [] h = refl
name_chars-any (c ∷ t) h = ground (arith, name_chars-any t)

behind-any : (ps : List Text) → all is_name_part ps ≡ true → all is_any_char (behind ps) ≡ true
behind-any [] h = refl
behind-any (p ∷ ps) h =
    all-append is_any_char p (behind ps)
      (name_chars-any p (part-chars p (and-eq_true (is_name_part p) (all is_name_part ps) h).0))
      (behind-any ps (and-eq_true (is_name_part p) (all is_name_part ps) h).1)

first-any : (p : Text) → is_first_part p ≡ true → all is_any_char p ≡ true
first-any [] h = refl
first-any (c ∷ p) h =
    name_chars-any (c ∷ p) (and-eq_true (is_ascii_lowercase c) (all is_name_char (c ∷ p)) h).1

parts-any :
    (ps : List Text) → are_name_parts ps ≡ true → all is_any_char (join (b'_' ∷ []) ps) ≡ true
parts-any [] h = cc
parts-any (p ∷ ps) h =
    let (first, rest) = and-eq_true (is_first_part p) (all is_name_part ps) h in
    rw (join-behind p ps)
      (all-append is_any_char p (behind ps) (first-any p first) (behind-any ps rest))

pub valid-chars : (name : Text) → is_valid_feature_name name ≡ true → all is_any_char name ≡ true
unfolding is_valid_feature_name
valid-chars name h = rw (join-split b'_' name) at (parts-any (split b'_' name) h)

-- A valid feature name is read back from the key of its environment variable.
pub normalize-env_key :
    (name : Text)
    → is_valid_feature_name name ≡ true
    → normalize_env_feature_name (env_key_for_feature_name name) ≡ some name
unfolding normalize_env_feature_name env_key_for_feature_name
normalize-env_key name h =
    rw (strip_prefix_append feature_env_prefix (uppercase name))
      (ap some (lowercase-uppercase name (valid-chars name h)))
