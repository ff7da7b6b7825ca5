-- ===== src/Parser/Lawful.antt =====
-- src/parser.rs: what the parser promises of a statement, and rules for what an action returns.
pub mod Types
pub mod Handlers
pub mod Programs
use marreta_lang.Base.{
  ℕ, zero, suc, ◌==◌, ◌≡◌, refl, Bool, true, false, not, ◌&&◌, ◌||◌, Option, none, some, List, [],
  ◌∷◌, ◌++◌, all, if◌then◌else◌, Bool-cases, inl, inr, length,
}
use marreta_lang.Base.Results.{Result, ok, err, panic, timeout}
use marreta_lang.Text.{Text}
use marreta_lang.Syntax.{Expression, Statement, ScenarioSteps, ScenarioStep, no_steps, and_step}
use marreta_lang.Syntax.Types.{SchemaType, SchemaField}
use marreta_lang.Parser.State.{Parser, ParseError}
use marreta_lang.Parser.Action.{
  Outcome, Parse, and_then, ◌>>=◌, pure, throw, gets, loop, loop_on, again, while_loop, while_on,
  turn, collect,
}
use marreta_lang.Parser.Schema.{seen, is_empty}
use marreta_lang.Parser.Scenario.{when_count, then_count}
use marreta_lang.Parser.Route.{has_wildcard}

-- No value is empty or stands twice.
abbrev pub distinct_values : List Text → Bool
distinct_values [] = true
distinct_values (v ∷ vs) = not (is_empty v) && not (seen v vs) && distinct_values vs

abbrev pub nonempty_values : List Text → Bool
nonempty_values [] = false
nonempty_values (_ ∷ _) = true

-- An `enum` has values, none of them empty or twice.
abbrev pub lawful_type : SchemaType → Bool
lawful_type (SchemaType.enum_type values) = nonempty_values values && distinct_values values
lawful_type (SchemaType.typed_list inner) = lawful_type inner
lawful_type _ = true

abbrev pub steps_of : ScenarioSteps → List ScenarioStep
steps_of no_steps = []
steps_of (and_step s ss) = s ∷ steps_of ss

abbrev pub exportable : Statement → Bool
exportable (Statement.task_def _ _ _ _ _) = true
exportable (Statement.schema _ _ _ _ _) = true
exportable (Statement.assignment _ _ _ _) = true
exportable (Statement.conditional_assignment _ _ _ _ _) = true
exportable _ = false

-- A schema has lawful types; a scenario has one request and some assertion; an export is of a task, a
-- schema or an assignment; the name of a topic, if it is a literal, has no wildcard.
unfoldable pub lawful : Statement → Bool
lawful (Statement.schema _ _ fields _ _) = all (λ f. lawful_type f.field_type) fields
lawful (Statement.scenario _ steps _ _) =
    (when_count (steps_of steps) == 1) && not (then_count (steps_of steps) == 0)
lawful (Statement.export s) = exportable s && lawful s
lawful (Statement.on_topic (Expression.string_literal topic) _ _ _ _ _) = not (has_wildcard topic)
lawful _ = true

-- If the outcome is a value, it has the property.
abbrev pub Yields : {A : Type 0} → (A → Type 0) → Outcome A → Type 0
Yields Q timeout = Unit
Yields Q panic = Unit
Yields Q (err e) = Unit
Yields Q (ok (a, s)) = Q a

pub record Gives {A : Type 0} (Q : A → Type 0) (p : Parse A) : Type 0 where
  pub run : (s : Parser) → Yields Q (p s)

module _ {A : Type 0} {Q : A → Type 0} where
  pub Gives-pure : (a : A) → Q a → Gives Q (pure a)
  unfolding pure
  Gives-pure a q = record { run = λ s. q }

  pub Gives-throw : (e : ParseError) → Gives Q (throw e)
  unfolding throw
  Gives-throw e = record { run = λ s. tt }

  pub Gives-if :
      (b : Bool) {p q : Parse A}
      → (b ≡ true → Gives Q p)
      → (b ≡ false → Gives Q q)
      → Gives Q (if b then p else q)
  Gives-if true h k = h refl
  Gives-if false h k = k refl

module _ {A B : Type 0} {Q : B → Type 0} where
  -- What the first action returns does not matter.
  and_then-Yields_any :
      (r : Outcome A) (f : A → Parse B) → ((a : A) → Gives Q (f a)) → Yields Q (and_then r f)
  and_then-Yields_any timeout f each = tt
  and_then-Yields_any panic f each = tt
  and_then-Yields_any (err e) f each = tt
  and_then-Yields_any (ok (a, s)) f each = (each a).run s

  pub Gives-then : (p : Parse A) {f : A → Parse B} → ((a : A) → Gives Q (f a)) → Gives Q (p >>= f)
  unfolding ◌>>=◌
  Gives-then p {f} each = record { run = λ s. and_then-Yields_any (p s) f each }

  and_then-Yields :
      (P : A → Type 0) (r : Outcome A) (f : A → Parse B)
      → Yields P r
      → ((a : A) → P a → Gives Q (f a))
      → Yields Q (and_then r f)
  and_then-Yields P timeout f h each = tt
  and_then-Yields P panic f h each = tt
  and_then-Yields P (err e) f h each = tt
  and_then-Yields P (ok (a, s)) f h each = (each a h).run s

  pub Gives-bind :
      {P : A → Type 0} {p : Parse A} {f : A → Parse B}
      → Gives P p
      → ((a : A) → P a → Gives Q (f a))
      → Gives Q (p >>= f)
  unfolding ◌>>=◌
  Gives-bind {P} {p} {f} gives each = record {
    run = λ s. and_then-Yields P (p s) f (gives.run s) each;
  }

module _ {B : Type 0} {Q : B → Type 0} where
  turn-Gives : (b : Bool) {body : Parse B} (v : B) → Q v → Gives Q body → Gives Q (turn b body v)
  turn-Gives true v q gives = gives
  turn-Gives false v q gives = Gives-pure v q

  while_on-Gives :
      (fuel : ℕ) (test : B → Parser → Bool) {body : B → Parse B}
      → ((b : B) → Q b → Gives Q (body b))
      → (b : B) → Q b
      → Gives Q (while_on fuel test body b)
  unfolding while_on
  while_on-Gives zero test each b q = record { run = λ s. tt }
  while_on-Gives (suc fuel) test each b q = record {
    run = λ s.
        (turn-Gives (test b s) b q (Gives-bind (each b q) (while_on-Gives fuel test each))).run s;
  }

  -- An invariant of the loop.
  pub Gives-while_loop :
      (test : B → Parser → Bool) {body : B → Parse B}
      → ((b : B) → Q b → Gives Q (body b))
      → (b : B) → Q b
      → Gives Q (while_loop test body b)
  unfolding while_loop
  Gives-while_loop test each b q = record {
    run = λ s. (while_on-Gives (suc (length s.rest)) test each b q).run s;
  }

  again-Gives :
      (P : B → Type 0) {rest : B → Parse B} (r : B × Bool)
      → P r.0 × Q r.0
      → ((b : B) → P b → Gives Q (rest b))
      → Gives Q (again rest r)
  again-Gives P (b, true) (p, q) each = each b p
  again-Gives P (b, false) (p, q) each = Gives-pure b q

  loop_on-Gives :
      (P : B → Type 0) (fuel : ℕ) {body : B → Parse (B × Bool)}
      → ((b : B) → P b → Gives (λ r. P r.0 × Q r.0) (body b))
      → (b : B) → P b
      → Gives Q (loop_on fuel body b)
  unfolding loop_on
  loop_on-Gives P zero each b p = record { run = λ s. tt }
  loop_on-Gives P (suc fuel) each b p = record {
    run = (Gives-bind (each b p) λ r h. again-Gives P r h (loop_on-Gives P fuel each)).run;
  }

  -- An invariant of the loop, and what each round has reached.
  pub Gives-loop :
      (P : B → Type 0) {body : B → Parse (B × Bool)}
      → ((b : B) → P b → Gives (λ r. P r.0 × Q r.0) (body b))
      → (b : B) → P b
      → Gives Q (loop body b)
  unfolding loop
  Gives-loop P each b p = record {
    run = λ s. (loop_on-Gives P (suc (length s.rest)) each b p).run s;
  }
