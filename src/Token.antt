-- ===== src/Token.antt =====
-- src/token.rs: the reserved words and `keyword_lookup`.
pub mod Kind
use marreta_lang.Base.{ℕ, Option, none, some, List, [], ◌∷◌, if◌then◌else◌}
use marreta_lang.Text.{Text, codes, text_eq}
use Kind.{TokenKind}

-- The arms of the match, in order.
abbrev pub keywords : List (Text × TokenKind)
keywords =
    (codes "task", TokenKind.task)
    ∷ (codes "match", TokenKind.match)
    ∷ (codes "fallback", TokenKind.fallback)
    ∷ (codes "map", TokenKind.map)
    ∷ (codes "reduce", TokenKind.reduce)
    ∷ (codes "keep", TokenKind.keep)
    ∷ (codes "skip", TokenKind.skip)
    ∷ (codes "require", TokenKind.require)
    ∷ (codes "reject", TokenKind.reject)
    ∷ (codes "while", TokenKind.while)
    ∷ (codes "if", TokenKind.if_kw)
    ∷ (codes "else", TokenKind.else_kw)
    ∷ (codes "and", TokenKind.and)
    ∷ (codes "or", TokenKind.or)
    ∷ (codes "not", TokenKind.not)
    ∷ (codes "true", TokenKind.true)
    ∷ (codes "false", TokenKind.false)
    ∷ (codes "null", TokenKind.null)
    ∷ (codes "route", TokenKind.route)
    ∷ (codes "take", TokenKind.take)
    ∷ (codes "reply", TokenKind.reply)
    ∷ (codes "fail", TokenKind.fail)
    ∷ (codes "listen", TokenKind.listen)
    ∷ (codes "db", TokenKind.db)
    ∷ (codes "queue", TokenKind.queue)
    ∷ (codes "cache", TokenKind.cache)
    ∷ (codes "fs", TokenKind.fs)
    ∷ (codes "json", TokenKind.json)
    ∷ (codes "base64", TokenKind.base64)
    ∷ (codes "uuid", TokenKind.uuid)
    ∷ (codes "log", TokenKind.log)
    ∷ (codes "time", TokenKind.time)
    ∷ (codes "math", TokenKind.math)
    ∷ (codes "http_client", TokenKind.http_client)
    ∷ (codes "doc", TokenKind.doc)
    ∷ (codes "feature", TokenKind.feature)
    ∷ (codes "env", TokenKind.env)
    ∷ (codes "GET", TokenKind.get)
    ∷ (codes "POST", TokenKind.post)
    ∷ (codes "PUT", TokenKind.put)
    ∷ (codes "PATCH", TokenKind.patch)
    ∷ (codes "DELETE", TokenKind.delete)
    ∷ (codes "schema", TokenKind.schema)
    ∷ (codes "as", TokenKind.as_kw)
    ∷ (codes "export", TokenKind.export)
    ∷ (codes "of", TokenKind.of)
    ∷ (codes "string", TokenKind.type_string)
    ∷ (codes "integer", TokenKind.type_integer)
    ∷ (codes "float", TokenKind.type_float)
    ∷ (codes "boolean", TokenKind.type_boolean)
    ∷ (codes "instant", TokenKind.type_instant)
    ∷ (codes "date", TokenKind.type_date)
    ∷ (codes "duration", TokenKind.type_duration)
    ∷ (codes "interval", TokenKind.type_interval)
    ∷ (codes "transaction", TokenKind.transaction)
    ∷ (codes "raise", TokenKind.raise)
    ∷ (codes "rescue", TokenKind.rescue)
    ∷ (codes "on", TokenKind.on)
    ∷ (codes "topic", TokenKind.topic)
    ∷ (codes "nack", TokenKind.nack)
    ∷ (codes "requeue", TokenKind.requeue)
    ∷ []

-- The first arm that fits.
unfoldable pub first_arm : Text → List (Text × TokenKind) → Option TokenKind
first_arm word [] = none
first_arm word ((w, k) ∷ arms) = if text_eq w word then some k else first_arm word arms

unfoldable pub keyword_lookup : Text → Option TokenKind
keyword_lookup word = first_arm word keywords
