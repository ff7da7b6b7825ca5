-- ===== src/Parser/Progress/Blocks.antt =====
-- src/parser.rs: the parts of blocks and literals add no token, if the recursive calls take one.
use marreta_lang.Base.{ℕ, suc, refl, Bool, false, Option, none, some, List, [], not, and-eq_true}
use marreta_lang.Text.{Text}
use marreta_lang.Token.Kind.{TokenKind}
use marreta_lang.Syntax.{Argument, Expression}
use marreta_lang.Parser.State.{check}
use marreta_lang.Parser.Action.{while_loop, loop}
use marreta_lang.Parser.Calls.{Calls}
use marreta_lang.Parser.Blocks.{
  parse_as, parse_block, parse_indented, parse_expression_block_body, parse_task_like_body,
  parse_else, parse_if_expression, parse_match_arm, parse_match_expression, parse_list_literal,
  parse_map_literal, constructor_round, constructor_goes_on, parse_schema_constructor,
  argument_round, parse_argument_list, next_argument, pair, block_item, if_rest, constructor_tail,
}
use marreta_lang.Parser.Progress.{Keeps-bind, Eats-bind_rest, Keeps-gets, Keeps, Eats, EatsOn}
use marreta_lang.Parser.Progress.Actions.{
  At, EatsOn-first_suc, EatsOn-skip, EatsOn-Unless, EatsOn-sub, When,
}
use marreta_lang.Parser.Progress.Loops.{Keeps-while_loop, Keeps-collect, Eats-loop}
use marreta_lang.Parser.Progress.Expects.{keeps_rules, eats_rules}

-- The recursive calls take a token, from fewer than `n`.
pub record Good (n : ℕ) (c : Calls) : Type 0 where
  pub expression : (prec : ℕ) → Eats n (c.expression prec)
  pub statement : Eats n c.statement
  pub if_expression : Eats n c.if_expression

pub Keeps-parse_as : {n : ℕ} → Keeps n parse_as
unfolding parse_as
Keeps-parse_as = search keeps_rules depth 30

module _ {n : ℕ} {c : Calls} (good : Good n c) where
  pub Eats-block_item : Eats n (block_item c)
  Eats-block_item = search (eats_rules, good.statement)

  pub Keeps-parse_block : Keeps n (parse_block c)
  unfolding parse_block
  Keeps-parse_block = search (keeps_rules, Eats-block_item)

  pub Keeps-parse_indented : Keeps n (parse_indented c)
  unfolding parse_indented
  Keeps-parse_indented = search (keeps_rules, Keeps-parse_block)

  pub Keeps-block_body : Keeps n (parse_expression_block_body c)
  unfolding parse_expression_block_body
  Keeps-block_body = search (keeps_rules, Keeps-parse_indented)

  pub Keeps-parse_task_like_body : Keeps n (parse_task_like_body c)
  unfolding parse_task_like_body
  Keeps-parse_task_like_body = search (keeps_rules, Keeps-block_body, good.expression) depth 20

  Keeps-parse_else : Keeps n (parse_else c)
  unfolding parse_else
  Keeps-parse_else = search (keeps_rules, Keeps-block_body, good.if_expression) depth 20

  -- What follows the condition of an `if`.
  pub Keeps-if_rest : (e : Expression) → Keeps n (if_rest c e)
  Keeps-if_rest e = search (keeps_rules, Keeps-block_body, Keeps-parse_else) depth 20

  pub EatsOn-parse_if_expression : EatsOn (At TokenKind.if_kw) (suc n) (parse_if_expression c)
  unfolding parse_if_expression
  EatsOn-parse_if_expression =
      EatsOn-first_suc refl λ u. search (keeps_rules, good.expression, Keeps-if_rest)

  pub Keeps-conditional : Keeps n (parse_if_expression c)
  unfolding parse_if_expression
  Keeps-conditional = search (keeps_rules, good.expression, Keeps-if_rest) depth 8

  Eats-parse_match_arm : Eats n (parse_match_arm c)
  unfolding parse_match_arm
  Eats-parse_match_arm =
      Eats-bind_rest (search (keeps_rules, good.expression) depth 10)
        λ pattern. search (eats_rules, good.expression) depth 10

  pub EatsOn-parse_match_expression : EatsOn (At TokenKind.match) (suc n) (parse_match_expression c)
  unfolding parse_match_expression
  EatsOn-parse_match_expression =
      EatsOn-first_suc refl
        λ u. search (keeps_rules, good.expression, Eats-parse_match_arm) depth 20

  pub Keeps-match : Keeps n (parse_match_expression c)
  unfolding parse_match_expression
  Keeps-match = search (keeps_rules, good.expression, Eats-parse_match_arm) depth 20

  pub EatsOn-parse_list_literal : EatsOn (At TokenKind.left_bracket) (suc n) (parse_list_literal c)
  unfolding parse_list_literal
  EatsOn-parse_list_literal = EatsOn-first_suc refl λ u.
      Keeps-bind (Keeps-collect _ (search (eats_rules, good.expression) depth 10))
        λ es. search keeps_rules

  Eats-pair : Eats n (pair c)
  Eats-pair = search (eats_rules, good.expression) depth 10

  pub EatsOn-parse_map_literal : EatsOn (At TokenKind.left_brace) (suc n) (parse_map_literal c)
  unfolding parse_map_literal
  EatsOn-parse_map_literal = EatsOn-first_suc refl λ u.
      Keeps-bind (Keeps-collect _ (search (eats_rules, Eats-pair) depth 10))
        λ es. search keeps_rules

  constructor_tail-Eats : (fields : List (Text × Expression)) → Eats n (constructor_tail c fields)
  constructor_tail-Eats fields = search (eats_rules, Eats-pair) depth 10

  constructor_round-EatsOn :
      (b : List (Text × Expression) × Bool)
      → EatsOn (When (constructor_goes_on b)) n (constructor_round c b)
  unfolding constructor_round
  constructor_round-EatsOn (fields, broken) =
      let eats = constructor_tail-Eats fields in
      EatsOn-sub (λ s on. (and-eq_true (not broken) _ on).1)
        (EatsOn-skip TokenKind.right_brace (search (keeps_rules, eats))
          (EatsOn-Unless (check TokenKind.right_brace) _ eats))

  constructor_loop : Keeps n (while_loop constructor_goes_on (constructor_round c) ([], false))
  constructor_loop = Keeps-while_loop constructor_round-EatsOn ([], false)

  pub Keeps-schema_constructor : (name : Text) → Keeps n (parse_schema_constructor c name)
  unfolding parse_schema_constructor
  Keeps-schema_constructor name = search (keeps_rules, constructor_loop)

  argument_round-Eats :
      (args : List Argument) (name : Option Text) → Eats n (argument_round c args name)
  unfolding argument_round
  argument_round-Eats args (some name) = search (eats_rules, good.expression) depth 20
  argument_round-Eats args none = search (eats_rules, good.expression) depth 20

  argument_loop : Eats n (loop (next_argument c) [])
  argument_loop = Eats-loop (λ args. Eats-bind_rest (Keeps-gets _) (argument_round-Eats args)) []

  pub Keeps-parse_argument_list : Keeps n (parse_argument_list c)
  unfolding parse_argument_list
  Keeps-parse_argument_list = search (keeps_rules, argument_loop)
