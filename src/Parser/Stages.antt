-- ===== src/Parser/Stages.antt =====
-- src/parser.rs: pipelines and their stages, and broadcasts.
use marreta_lang.Base.{◌-◌, Bool, true, false, not, ◌&&◌, ◌||◌, List, [], ◌∷◌, ◌++◌, if◌then◌else◌}
use marreta_lang.Token.Kind.{TokenKind}
use marreta_lang.Syntax.{
  Expression, PipelineStage, RescueHandler, MapStatement, some_expression, no_expression,
  expressions, statements, pipeline_stages, map_statements,
}
use marreta_lang.Parser.State.{Parser, check, sees, current_kind, same_kind}
use marreta_lang.Parser.Action.{
  Parse, ◌>>=◌, ◌>>◌, pure, gets, advance, skip_newlines, rewind, expect, expect_identifier,
  collect, while_loop,
}
use marreta_lang.Parser.Calls.{Calls, prec_none, prec_call}
use marreta_lang.Parser.Blocks.{parse_block, parse_task_like_body, before}

-- `matches!(self.current_kind(), Newline | Dedent | Eof)`
abbrev pub ends_line : Parser → Bool
ends_line s =
    same_kind TokenKind.newline (current_kind s)
    || same_kind TokenKind.dedent (current_kind s)
    || same_kind TokenKind.eof (current_kind s)

abbrev pub stages_go_on : List PipelineStage × Bool → Parser → Bool
stages_go_on (stages, broken) s = not broken && check TokenKind.pipeline s

module _ (calls : Calls) where
  unfoldable pub parse_rescue_inline : Parse PipelineStage
  parse_rescue_inline = do
    silent ← gets ends_line
    if silent
        then pure (PipelineStage.rescue_stage (RescueHandler.inline_handler Expression.null))
        else (do
          e ← calls.expression prec_none
          pure (PipelineStage.rescue_stage (RescueHandler.inline_handler e)))

  abbrev pub block_handler : Parse PipelineStage
  block_handler = do
    advance
    body ← parse_block calls
    pure (PipelineStage.rescue_stage (RescueHandler.block_handler (statements body)))

  unfoldable pub parse_rescue_stage : Parse PipelineStage
  parse_rescue_stage = do
    advance
    saved ← gets (λ s. s.rest)
    skip_newlines
    block ← gets (check TokenKind.indent)
    if block then block_handler else (do rewind saved; parse_rescue_inline)

  unfoldable pub parse_keep : Parse MapStatement
  parse_keep = do
    advance
    value ← calls.expression prec_none
    guarded ← gets (check TokenKind.if_kw)
    if guarded
        then (do
          advance
          condition ← calls.expression prec_none
          pure (MapStatement.keep value (some_expression condition)))
        else pure (MapStatement.keep value no_expression)

  unfoldable pub parse_skip : Parse MapStatement
  parse_skip = do
    advance
    expect TokenKind.if_kw
    condition ← calls.expression prec_none
    pure (MapStatement.skip condition)

  abbrev pub plain_statement : Parse MapStatement
  plain_statement = do s ← calls.statement; pure (MapStatement.plain s)

  -- A round of the loop over the body of a `map`.
  unfoldable pub parse_map_statement : Parse MapStatement
  parse_map_statement = do
    keeps ← gets (check TokenKind.keep)
    skips ← gets (check TokenKind.skip)
    item ← if keeps then parse_keep else if skips then parse_skip else plain_statement
    skip_newlines
    pure item

  unfoldable pub parse_map_stage : Parse PipelineStage
  parse_map_stage = do
    advance
    variable ← expect_identifier
    expect TokenKind.newline
    expect TokenKind.indent
    skip_newlines
    body ← collect (before TokenKind.dedent) parse_map_statement
    expect TokenKind.dedent
    pure (PipelineStage.map_stage variable (map_statements body))

  unfoldable pub parse_reduce_stage : Parse PipelineStage
  parse_reduce_stage = do
    advance
    expect TokenKind.left_paren
    initial ← calls.expression prec_none
    expect TokenKind.right_paren
    accumulator ← expect_identifier
    expect TokenKind.comma
    item ← expect_identifier
    body ← parse_task_like_body calls
    pure (PipelineStage.reduce_stage initial accumulator item body)

  abbrev pub expression_stage : Parse PipelineStage
  expression_stage = do e ← calls.expression (prec_call - 1); pure (PipelineStage.stage e)

  -- The stage, and whether the loop breaks behind it.
  abbrev pub one_stage : Parse (PipelineStage × Bool)
  one_stage = do
    mapped ← gets (sees TokenKind.map)
    reduced ← gets (sees TokenKind.reduce)
    rescued ← gets (sees TokenKind.rescue)
    if mapped
        then (do next ← parse_map_stage; skip_newlines; pure (next, false))
        else if reduced
        then (do next ← parse_reduce_stage; skip_newlines; pure (next, false))
        else if rescued
        then (do next ← parse_rescue_stage; pure (next, true))
        else (do next ← expression_stage; skip_newlines; pure (next, false))

  -- A round of the loop of `parse_pipeline_stages`, that may `break`: then the flag is set.
  unfoldable pub stage_round : List PipelineStage × Bool → Parse (List PipelineStage × Bool)
  stage_round (stages, broken) = do
    advance
    skip_newlines
    (next, last) ← one_stage
    pure (stages ++ next ∷ [], last)

  unfoldable pub parse_pipeline_stages : Expression → Parse Expression
  parse_pipeline_stages input = do
    (stages, _) ← while_loop stages_go_on stage_round ([], false)
    pure (Expression.pipeline input (pipeline_stages stages))

  abbrev pub target : Parse Expression
  target = do advance; e ← calls.expression prec_none; skip_newlines; pure e

  abbrev pub target_lines : Parse (List Expression)
  target_lines = do
    advance
    skip_newlines
    targets ← collect (check TokenKind.arrow) target
    expect TokenKind.dedent
    pure targets

  abbrev pub single_target : Parse (List Expression)
  single_target = do expect TokenKind.arrow; e ← calls.expression prec_none; pure (e ∷ [])

  abbrev pub broadcast_rest : Expression → Parse Expression
  broadcast_rest left = do
    skip_newlines
    indented ← gets (check TokenKind.indent)
    targets ← if indented then target_lines else single_target
    pure (Expression.broadcast left (expressions targets))

  -- The arm of `parse_infix` for `*>>`.
  unfoldable pub parse_broadcast : Expression → Parse Expression
  parse_broadcast left = do advance; broadcast_rest left
