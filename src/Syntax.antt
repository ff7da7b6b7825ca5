-- ===== src/Syntax.antt =====
-- src/ast.rs: the syntax tree that the parser builds. A `Vec` or an `Option` of a part of the tree
-- is a list type of its own here, and a `Box` is its content.
pub mod Types
use marreta_lang.Base.{ℕ, Bool, Option, List, [], ◌∷◌}
use marreta_lang.Text.{Text}
use Types.{
  HttpVerb, RouteAuth, ReplyContentType, TakeBinding, ParamDef, SchemaField, BinaryOperator,
  UnaryOperator,
}

mutual
  -- An integer is an `i64` that the lexer accepted; a float is the text of its literal.
  pub data Expression : Type 0 where
    integer : ℕ → Expression
    float : Text → Expression
    string_literal : Text → Expression
    boolean : Bool → Expression
    null : Expression
    list : Expressions → Expression
    map_literal : Pairs → Expression
    schema_constructor : Text → Pairs → Expression
    identifier : Text → Expression
    binary_op : Expression → BinaryOperator → Expression → Expression
    unary_op : UnaryOperator → Expression → Expression
    property_access : Expression → Text → Expression
    method_call : Expression → Text → Arguments → Expression
    http_client_response_schema : Expression → Text → Expression
    function_call : Text → Arguments → Expression
    task_call : Text → Expression
    match : Expression → MatchArms → Expression
    conditional : Expression → TaskBody → MaybeBody → Expression
    subscript : Expression → Expression → Expression
    pipeline : Expression → PipelineStages → Expression
    broadcast : Expression → Expressions → Expression
    rescue : Expression → Expression → Expression
    queue_push : Expression → Option Text → MaybeExpression → Expression
    topic_publish : Expression → Option Text → MaybeExpression → Expression

  -- The last two numbers of a statement are its line and column.
  pub data Statement : Type 0 where
    assignment : Text → Expression → ℕ → ℕ → Statement
    conditional_assignment : Text → Expression → Expression → ℕ → ℕ → Statement
    require : Expression → ℕ → Text → ℕ → ℕ → Statement
    reject : Expression → ℕ → Text → ℕ → ℕ → Statement
    while : Expression → Statements → ℕ → ℕ → Statement
    task_def : Text → List ParamDef → TaskBody → ℕ → ℕ → Statement
    expression_statement : Expression → ℕ → ℕ → Statement
    route :
        HttpVerb
        → Text
        → Option RouteAuth
        → Expressions
        → List TakeBinding
        → Statements
        → ℕ
        → ℕ
        → Statement
    schema : Text → Option Text → List SchemaField → ℕ → ℕ → Statement
    auth_provider : AuthProvider → ℕ → ℕ → Statement
    reply :
        Expression
        → ReplyContentType
        → Expression
        → Option Text
        → MaybeExpression
        → ℕ
        → ℕ
        → Statement
    fail : ℕ → Expression → ℕ → ℕ → Statement
    raise : Expression → MaybeExpression → ℕ → ℕ → Statement
    export : Statement → Statement
    transaction : Statements → ℕ → ℕ → Statement
    on_queue : Expression → Text → Option Text → Statements → ℕ → ℕ → Statement
    on_topic : Expression → Text → Option Text → Statements → ℕ → ℕ → Statement
    nack : Bool → MaybeExpression → ℕ → ℕ → Statement
    scenario : Text → ScenarioSteps → ℕ → ℕ → Statement

  pub data AuthProvider : Type 0 where
    jwt : Text → AuthProviderFields → AuthProvider
    api_key : Text → AuthProviderFields → AuthProvider

  pub data AuthProviderField : Type 0 where
    auth_provider_field : Text → Expression → ℕ → ℕ → AuthProviderField

  pub data ScenarioStep : Type 0 where
    given : Expression → Expression → ℕ → ℕ → ScenarioStep
    when : HttpVerb → Text → MaybeExpression → MaybeExpression → ℕ → ℕ → ScenarioStep
    then_status : Expression → ℕ → ℕ → ScenarioStep
    then_response : Expression → ℕ → ℕ → ScenarioStep

  pub data TaskBody : Type 0 where
    inline : Expression → TaskBody
    block : Statements → Expression → TaskBody

  pub data MatchArm : Type 0 where
    match_arm : MatchPattern → Expression → MatchArm

  pub data MatchPattern : Type 0 where
    literal : Expression → MatchPattern
    fallback : MatchPattern

  pub data PipelineStage : Type 0 where
    stage : Expression → PipelineStage
    map_stage : Text → MapStatements → PipelineStage
    reduce_stage : Expression → Text → Text → TaskBody → PipelineStage
    rescue_stage : RescueHandler → PipelineStage

  pub data RescueHandler : Type 0 where
    inline_handler : Expression → RescueHandler
    block_handler : Statements → RescueHandler

  pub data MapStatement : Type 0 where
    plain : Statement → MapStatement
    keep : Expression → MaybeExpression → MapStatement
    skip : Expression → MapStatement

  pub data Argument : Type 0 where
    positional : Expression → Argument
    named : Text → Expression → Argument

  pub data MaybeExpression : Type 0 where
    no_expression : MaybeExpression
    some_expression : Expression → MaybeExpression

  pub data MaybeBody : Type 0 where
    no_body : MaybeBody
    some_body : TaskBody → MaybeBody

  pub data Expressions : Type 0 where
    no_expressions : Expressions
    and_expression : Expression → Expressions → Expressions

  pub data Statements : Type 0 where
    no_statements : Statements
    and_statement : Statement → Statements → Statements

  pub data Pairs : Type 0 where
    no_pairs : Pairs
    and_pair : Text → Expression → Pairs → Pairs

  pub data Arguments : Type 0 where
    no_arguments : Arguments
    and_argument : Argument → Arguments → Arguments

  pub data MatchArms : Type 0 where
    no_arms : MatchArms
    and_arm : MatchArm → MatchArms → MatchArms

  pub data PipelineStages : Type 0 where
    no_stages : PipelineStages
    and_stage : PipelineStage → PipelineStages → PipelineStages

  pub data MapStatements : Type 0 where
    no_map_statements : MapStatements
    and_map_statement : MapStatement → MapStatements → MapStatements

  pub data ScenarioSteps : Type 0 where
    no_steps : ScenarioSteps
    and_step : ScenarioStep → ScenarioSteps → ScenarioSteps

  pub data AuthProviderFields : Type 0 where
    no_fields : AuthProviderFields
    and_field : AuthProviderField → AuthProviderFields → AuthProviderFields

-- The vectors that the parser collects, as parts of the tree.
abbrev pub expressions : List Expression → Expressions
expressions [] = no_expressions
expressions (e ∷ es) = and_expression e (expressions es)

abbrev pub statements : List Statement → Statements
statements [] = no_statements
statements (s ∷ ss) = and_statement s (statements ss)

abbrev pub pairs : List (Text × Expression) → Pairs
pairs [] = no_pairs
pairs ((key, value) ∷ ps) = and_pair key value (pairs ps)

abbrev pub arguments : List Argument → Arguments
arguments [] = no_arguments
arguments (a ∷ xs) = and_argument a (arguments xs)

abbrev pub match_arms : List MatchArm → MatchArms
match_arms [] = no_arms
match_arms (a ∷ xs) = and_arm a (match_arms xs)

abbrev pub pipeline_stages : List PipelineStage → PipelineStages
pipeline_stages [] = no_stages
pipeline_stages (p ∷ ps) = and_stage p (pipeline_stages ps)

abbrev pub map_statements : List MapStatement → MapStatements
map_statements [] = no_map_statements
map_statements (m ∷ ms) = and_map_statement m (map_statements ms)

abbrev pub scenario_steps : List ScenarioStep → ScenarioSteps
scenario_steps [] = no_steps
scenario_steps (s ∷ ss) = and_step s (scenario_steps ss)

abbrev pub auth_provider_fields : List AuthProviderField → AuthProviderFields
auth_provider_fields [] = no_fields
auth_provider_fields (f ∷ fs) = and_field f (auth_provider_fields fs)
