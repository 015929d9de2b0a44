-- ===== src/Specs/Schema.antt =====
-- The JSON values and the schemas that the scripts on API descriptions read.
use go_platform_starter.Prelude.{ℕ, Bool, Option, List, Text}

mutual
  -- A value of JavaScript as `JSON.parse` gives it, and `undefined`.
  pub data Value : Type 0 where
    undefined null : Value
    bool : Bool → Value
    num : ℕ → Value
    str : Text → Value
    arr : Values → Value
    obj : Fields → Value

  pub data Values : Type 0 where
    nil : Values
    cons : Value → Values → Values

  pub data Fields : Type 0 where
    end : Fields
    field : Text → Value → Fields → Fields

pub data TypeName : Type 0 where
  object array string integer number boolean null_type : TypeName

-- `schema.type`: absent, a name, or a list of names.
pub data TypeField : Type 0 where
  untyped : TypeField
  typed : TypeName → TypeField
  one_of : List TypeName → TypeField

-- The keywords that hold no schema.
pub record Keywords : Type 0 where
  pub type : TypeField
  pub example : Option Value
  pub enum : Option (List Value)
  pub default : Option Value
  pub format : Option Text
  pub pattern : Option Text
  pub min_length : Option ℕ

mutual
  -- A schema: its keywords, `$ref`, `allOf`, `properties` and `items`.
  pub data Schema : Type 0 where
    schema : Keywords → Option Text → Parts → Properties → Items → Schema

  pub data Parts : Type 0 where
    no_parts : Parts
    all_of : Schemas → Parts

  pub data Schemas : Type 0 where
    last : Schemas
    also : Schema → Schemas → Schemas

  pub data Properties : Type 0 where
    finished : Properties
    property : Text → Schema → Properties → Properties

  pub data Items : Type 0 where
    no_items : Items
    items : Schema → Items
