-- ===== src/Parser/Progress/Queues.antt =====
-- src/parser.rs: the expressions on queues and topics take a token.
use marreta_lang.Base.{ℕ, suc, refl}
use marreta_lang.Token.Kind.{TokenKind}
use marreta_lang.Parser.Calls.{Calls}
use marreta_lang.Parser.Expressions.{
  schema_name_at, parse_as_schema, parse_queue_producer_args, push_at, parse_queue, publish_at,
  parse_topic,
}
use marreta_lang.Parser.Progress.{Keeps, EatsOn}
use marreta_lang.Parser.Progress.Actions.{At, EatsOn-first_suc}
use marreta_lang.Parser.Progress.Expects.{keeps_rules}
use marreta_lang.Parser.Progress.Blocks.{Good}

Keeps-schema_name_at : {n : ℕ} (kind : TokenKind) → Keeps n (schema_name_at kind)
Keeps-schema_name_at (TokenKind.identifier name) = search keeps_rules
Keeps-schema_name_at _ = search keeps_rules

pub Keeps-parse_as_schema : {n : ℕ} → Keeps n parse_as_schema
unfolding parse_as_schema
Keeps-parse_as_schema = search (keeps_rules, Keeps-schema_name_at) depth 10

module _ {n : ℕ} {c : Calls} (good : Good n c) where
  Keeps-queue_args : Keeps n (parse_queue_producer_args c)
  unfolding parse_queue_producer_args
  Keeps-queue_args = search (keeps_rules, Keeps-parse_as_schema, good.expression) depth 12

  Keeps-push_at : (kind : TokenKind) → Keeps n (push_at c kind)
  Keeps-push_at (TokenKind.identifier name) = search (keeps_rules, Keeps-queue_args) depth 10
  Keeps-push_at _ = search keeps_rules

  pub EatsOn-parse_queue : EatsOn (At TokenKind.queue) (suc n) (parse_queue c)
  unfolding parse_queue
  EatsOn-parse_queue = EatsOn-first_suc refl λ u. search (keeps_rules, Keeps-push_at) depth 10

  Keeps-publish_at : (kind : TokenKind) → Keeps n (publish_at c kind)
  Keeps-publish_at (TokenKind.identifier name) = search (keeps_rules, Keeps-queue_args) depth 10
  Keeps-publish_at _ = search keeps_rules

  pub EatsOn-parse_topic : EatsOn (At TokenKind.topic) (suc n) (parse_topic c)
  unfolding parse_topic
  EatsOn-parse_topic = EatsOn-first_suc refl λ u. search (keeps_rules, Keeps-publish_at) depth 10
