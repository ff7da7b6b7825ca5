-- ===== src/Parser/Expressions/Queues.antt =====
-- src/parser.rs: the expressions that push to a queue or publish to a topic, and `as NAME`.
use marreta_lang.Base.{Option, none, some, if◌then◌else◌}
use marreta_lang.Text.{Text, codes, text_eq}
use marreta_lang.Token.Kind.{TokenKind}
use marreta_lang.Syntax.{Expression, MaybeExpression, some_expression, no_expression}
use marreta_lang.Parser.State.{check, current_kind, words}
use marreta_lang.Parser.Action.{Parse, ◌>>=◌, ◌>>◌, pure, gets, advance, unexpected}
use marreta_lang.Parser.Calls.{Calls, prec_none}

abbrev pub schema_name_at : TokenKind → Parse (Option Text)
schema_name_at (TokenKind.identifier name) = advance >> pure (some name)
schema_name_at _ = unexpected (words (codes "schema name"))

-- `[as NAME]`, with the error of queue statements.
unfoldable pub parse_as_schema : Parse (Option Text)
parse_as_schema = do
  found ← gets (check TokenKind.as_kw)
  if found then (do advance; kind ← gets current_kind; schema_name_at kind) else pure none

module _ (calls : Calls) where
  abbrev pub queue_payload : Parse MaybeExpression
  queue_payload = do
    found ← gets (check TokenKind.comma)
    if found
        then (do advance; e ← calls.expression prec_none; pure (some_expression e))
        else pure no_expression

  unfoldable pub parse_queue_producer_args : Parse (Expression × Option Text × MaybeExpression)
  parse_queue_producer_args = do
    name ← calls.expression prec_none
    schema ← parse_as_schema
    payload ← queue_payload
    pure (name, schema, payload)

  abbrev pub push_at : TokenKind → Parse Expression
  push_at (TokenKind.identifier method) =
      if text_eq method (codes "push")
      then (do
        advance
        (name, schema, payload) ← parse_queue_producer_args
        pure (Expression.queue_push name schema payload))
      else if text_eq method (codes "publish")
      then unexpected (words (codes "push (use topic.publish to publish to a topic)"))
      else unexpected (words (codes "push"))
  push_at _ = unexpected (words (codes "push"))

  -- The arm of `queue`.
  unfoldable pub parse_queue : Parse Expression
  parse_queue = do
    advance
    dotted ← gets (check TokenKind.dot)
    if dotted
        then (do advance; kind ← gets current_kind; push_at kind)
        else pure (Expression.identifier (codes "queue"))

  abbrev pub publish_at : TokenKind → Parse Expression
  publish_at (TokenKind.identifier method) =
      if text_eq method (codes "publish")
      then (do
        advance
        (topic, schema, payload) ← parse_queue_producer_args
        pure (Expression.topic_publish topic schema payload))
      else unexpected (words (codes "publish"))
  publish_at _ = unexpected (words (codes "publish"))

  -- The arm of `topic`.
  unfoldable pub parse_topic : Parse Expression
  parse_topic = do
    advance
    dotted ← gets (check TokenKind.dot)
    if dotted
        then (do advance; kind ← gets current_kind; publish_at kind)
        else pure (Expression.identifier (codes "topic"))
