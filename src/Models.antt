-- ===== src/Models.antt =====
-- models.py: what a backend says of one tool.
use beherouter.Prelude.{String, Bool, Option}
use beherouter.Data.{Value, Fields}

pub record ToolDescriptor : Type 0 where
  pub name : String
  pub verb : String
  pub summary : String
  pub schema : Fields
  pub pinned : Bool
  pub mutating : Option Bool  -- `none`: the backend did not say
  pub annotations : Value
  pub output_schema : Value
