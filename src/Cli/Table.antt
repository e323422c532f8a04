-- ===== src/Cli/Table.antt =====
-- internal/cli/options.go: the types of the table of options, whose rows stand in the children, in
-- the source's order.
pub mod Output
pub mod Toggle
pub mod Other
use facts.Base.{Bool, List, String}
use facts.Base.Text.{Text}

pub data ValueArity : Type 0 where
  no_value required_value : ValueArity

pub record OptionDocumentation : Type 0 where
  pub help : String
  pub man : String

-- `Option` of the source
pub record CliOption : Type 0 where
  pub canonical : Text
  pub aliases : List Text
  pub arity : ValueArity
  pub repeatable : Bool
  pub task_flag : Bool
  pub hidden : Bool
  pub conflicts : List Text
  pub documentation : OptionDocumentation
