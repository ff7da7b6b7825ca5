-- ===== src/Parser/Progress/Stages.antt =====
-- src/parser.rs: pipelines and broadcasts.
use marreta_lang.Base.{ℕ, ◌≡◌, refl, Bool, true, false, not, List, [], and-eq_true}
use marreta_lang.Token.Kind.{TokenKind}
use marreta_lang.Syntax.{Expression, PipelineStage}
use marreta_lang.Parser.State.{Parser, same_kind, discriminant}
use marreta_lang.Parser.Calls.{Calls}
use marreta_lang.Parser.Stages.{
  parse_rescue_inline, parse_rescue_stage, parse_keep, parse_skip, parse_map_statement,
  parse_map_stage, parse_reduce_stage, stage_round, stages_go_on, parse_pipeline_stages,
  parse_broadcast, plain_statement, expression_stage, target, target_lines, single_target,
  one_stage, block_handler, broadcast_rest,
}
use marreta_lang.Parser.Progress.{Ready, Keeps, Eats, EatsOn, Keeps-bind}
use marreta_lang.Parser.Progress.Actions.{
  At, When, EatsOn-first, EatsOn-sub, EatsOn-bind, EatsOn-advance, Keeps-advance,
  Keeps-skip_newlines,
}
use marreta_lang.Parser.Progress.Loops.{EatsOn-while_loop, Keeps-while_loop}
use marreta_lang.Parser.Progress.Expects.{keeps_rules, eats_rules, check→Open, At→inside}
use marreta_lang.Parser.Progress.Rewinds.{
  Rewinds-Keeps, Rewinds-if, Rewinds-rewind, Rewinds-bind, Keeps-saved,
}
use marreta_lang.Parser.Progress.Blocks.{Good, Keeps-parse_block, Keeps-parse_task_like_body}

module _ {n : ℕ} {c : Calls} (good : Good n c) where
  Keeps-rescue_inline : Keeps n (parse_rescue_inline c)
  unfolding parse_rescue_inline
  Keeps-rescue_inline = search (keeps_rules, good.expression)

  rescue_block : Keeps n (block_handler c)
  rescue_block = search (keeps_rules, Keeps-parse_block)

  Keeps-rescue_stage : Keeps n (parse_rescue_stage c)
  unfolding parse_rescue_stage
  Keeps-rescue_stage = Keeps-bind Keeps-advance λ u. Keeps-saved λ saved.
      Rewinds-bind Keeps-skip_newlines λ v. Rewinds-bind (search keeps_rules) λ block.
        Rewinds-if block (Rewinds-Keeps rescue_block) (Rewinds-rewind _ Keeps-rescue_inline)

  Eats-plain_statement : Eats n (plain_statement c)
  Eats-plain_statement = search (eats_rules, good.statement)

  Eats-parse_keep : Eats n (parse_keep c)
  unfolding parse_keep
  Eats-parse_keep = search (eats_rules, good.expression) depth 20

  Eats-parse_skip : Eats n (parse_skip c)
  unfolding parse_skip
  Eats-parse_skip = search (eats_rules, good.expression) depth 20

  Eats-map_statement : Eats n (parse_map_statement c)
  unfolding parse_map_statement
  Eats-map_statement =
      search (eats_rules, Eats-parse_keep, Eats-parse_skip, Eats-plain_statement) depth 20

  Keeps-map_stage : Keeps n (parse_map_stage c)
  unfolding parse_map_stage
  Keeps-map_stage = search (keeps_rules, Eats-map_statement) depth 20

  Keeps-reduce_stage : Keeps n (parse_reduce_stage c)
  unfolding parse_reduce_stage
  Keeps-reduce_stage = search (keeps_rules, good.expression, Keeps-parse_task_like_body) depth 20

  Keeps-expression_stage : Keeps n (expression_stage c)
  Keeps-expression_stage = search (keeps_rules, good.expression)

  Keeps-one_stage : Keeps n (one_stage c)
  Keeps-one_stage =
      search
        (
          keeps_rules, Keeps-map_stage, Keeps-reduce_stage, Keeps-rescue_stage,
          Keeps-expression_stage,
        )
        depth 20

  stage_round-EatsOn :
      (b : List PipelineStage × Bool) → EatsOn (When (stages_go_on b)) n (stage_round c b)
  unfolding stage_round
  stage_round-EatsOn (stages, broken) =
      EatsOn-bind
        (EatsOn-sub (λ s on. check→Open TokenKind.pipeline s (and-eq_true (not broken) _ on).1)
          EatsOn-advance)
        λ u. search (keeps_rules, Keeps-one_stage)

  pub Keeps-parse_pipeline_stages : (e : Expression) → Keeps n (parse_pipeline_stages c e)
  unfolding parse_pipeline_stages
  Keeps-parse_pipeline_stages e =
      Keeps-bind (Keeps-while_loop stage_round-EatsOn ([], false)) λ r. search keeps_rules

  At-pipeline : (s : Parser) → At TokenKind.pipeline s → Ready s → stages_go_on ([], false) s ≡ true
  unfolding same_kind discriminant
  At-pipeline s at ready = rw (At→inside TokenKind.pipeline s refl at ready, at) refl

  pub EatsOn-parse_pipeline_stages :
      (e : Expression) → EatsOn (At TokenKind.pipeline) n (parse_pipeline_stages c e)
  unfolding parse_pipeline_stages
  EatsOn-parse_pipeline_stages e =
      EatsOn-bind (EatsOn-while_loop ([], false) At-pipeline stage_round-EatsOn)
        λ r. search keeps_rules

  Eats-target : Eats n (target c)
  Eats-target = search (eats_rules, good.expression)

  Keeps-target_lines : Keeps n (target_lines c)
  Keeps-target_lines = search (keeps_rules, Eats-target) depth 12

  Keeps-single_target : Keeps n (single_target c)
  Keeps-single_target = search (keeps_rules, good.expression)

  pub Keeps-broadcast_rest : (e : Expression) → Keeps n (broadcast_rest c e)
  Keeps-broadcast_rest e = search (keeps_rules, Keeps-target_lines, Keeps-single_target) depth 10

  pub EatsOn-parse_broadcast :
      (e : Expression) → EatsOn (At TokenKind.broadcast) n (parse_broadcast c e)
  unfolding parse_broadcast
  EatsOn-parse_broadcast e = EatsOn-first refl λ u. Keeps-broadcast_rest e

  pub Keeps-parse_broadcast : (e : Expression) → Keeps n (parse_broadcast c e)
  unfolding parse_broadcast
  Keeps-parse_broadcast e = Keeps-bind Keeps-advance λ u. Keeps-broadcast_rest e
