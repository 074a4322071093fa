-- ===== src/Ast/Program.antt =====
-- ast/types.rs: a parsed file, with its configurations, routes, resolvers and tests.
use webpipe.Base.{ℕ, String, Bool, Option, List}
use webpipe.Ast.{SourceLocation, Variable, Pipeline}

-- The library's integers, on the native numbers.
pub data ℤ : Type 0 where
  pos negsuc : ℕ → ℤ

pub record Import : Type 0 where
  pub path : String
  pub alias : String
  pub location : SourceLocation

pub record GraphQlSchema : Type 0 where
  pub sdl : String

pub record QueryResolver : Type 0 where
  pub name : String
  pub pipeline : Pipeline

pub record MutationResolver : Type 0 where
  pub name : String
  pub pipeline : Pipeline

pub record TypeResolver : Type 0 where
  pub type_name : String
  pub field_name : String
  pub pipeline : Pipeline

pub data ConfigValue : Type 0 where
  string : String → ConfigValue
  env_var : String → Option String → ConfigValue
  boolean : Bool → ConfigValue
  number : ℤ → ConfigValue

pub record ConfigProperty : Type 0 where
  pub key : String
  pub value : ConfigValue

pub record Config : Type 0 where
  pub name : String
  pub properties : List ConfigProperty

pub record NamedPipeline : Type 0 where
  pub name : String
  pub pipeline : Pipeline

pub data PipelineRef : Type 0 where
  inline : Pipeline → PipelineRef
  named : String → PipelineRef

pub record Route : Type 0 where
  pub method : String
  pub path : String
  pub pipeline : PipelineRef

pub data LetValueFormat : Type 0 where
  quoted backtick bare : LetValueFormat

pub record Mock : Type 0 where
  pub target : String
  pub return_value : String

pub data When : Type 0 where
  calling_route : String → String → When
  executing_pipeline : String → When
  executing_variable : String → String → When

pub data ConditionType : Type 0 where
  then and : ConditionType

pub data DomAssertType : Type 0 where
  exists text count : DomAssertType
  attribute : String → DomAssertType

pub record Condition : Type 0 where
  pub condition_type : ConditionType
  pub field : String
  pub header_name : Option String
  pub jq_expr : Option String
  pub comparison : String
  pub value : String
  pub is_call_assertion : Bool
  pub call_target : Option String
  pub selector : Option String
  pub dom_assert : Option DomAssertType

pub record It : Type 0 where
  pub name : String
  pub mocks : List Mock
  pub when : When
  pub variables : List (String × String × LetValueFormat)
  pub input : Option String
  pub body : Option String
  pub headers : Option String
  pub cookies : Option String
  pub stdin : Option String
  pub args : Option String
  pub options : Option String
  pub conditions : List Condition
  pub location : SourceLocation

pub record Describe : Type 0 where
  pub name : String
  pub variables : List (String × String × LetValueFormat)
  pub mocks : List Mock
  pub tests : List It
  pub location : SourceLocation

pub record Program : Type 0 where
  pub configs : List Config
  pub imports : List Import
  pub pipelines : List NamedPipeline
  pub variables : List Variable
  pub routes : List Route
  pub describes : List Describe
  pub graphql_schema : Option GraphQlSchema
  pub queries : List QueryResolver
  pub mutations : List MutationResolver
  pub resolvers : List TypeResolver
  pub feature_flags : Option Pipeline
