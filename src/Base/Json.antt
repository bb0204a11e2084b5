-- ===== src/Base/Json.antt =====
-- The values that a message of type `unknown` can hold, as they come from JSON. Numbers are whole.
use Prim.Native.Nat.{zero, suc}
use Prim.Native.String.{String}
use mathlib.Core.Bool.{Bool, true, false}
use mathlib.Core.Option.{Option, none, some}
use text.Mathlib.Text.{◌==◌}
use mcp_debugger.Base.Tests.{if◌then◌else◌}
use mcp_debugger.Base.Int.{ℤ, pos, negsuc}

mutual
  pub data Json : Type 0 where
    null : Json
    bool : Bool → Json
    num : ℤ → Json
    str : String → Json
    arr : Items → Json
    obj : Fields → Json

  pub data Items : Type 0 where
    nil : Items
    cons : Json → Items → Items

  pub data Fields : Type 0 where
    end : Fields
    field : String → Json → Fields → Fields

unfoldable pub field_of : String → Fields → Option Json
field_of k end = none
field_of k (field j v fs) = if j == k then some v else field_of k fs

-- `value?.name`, where `undefined` is `none`. What is no object has no such property here.
unfoldable pub member : String → Option Json → Option Json
unfolding field_of
member k (some (obj fs)) = field_of k fs
member k _ = none

-- JavaScript's truth of a value.
unfoldable pub truthy : Option Json → Bool
truthy none = false
truthy (some null) = false
truthy (some (bool b)) = b
truthy (some (num (pos zero))) = false
truthy (some (num (pos (suc n)))) = true
truthy (some (num (negsuc n))) = true
truthy (some (str String.[])) = false
truthy (some (str (String.◌∷◌ c s))) = true
truthy (some (arr xs)) = true
truthy (some (obj fs)) = true

-- `typeof value === 'string'`
unfoldable pub has_type_string : Option Json → Bool
has_type_string (some (str s)) = true
has_type_string _ = false

-- `typeof value === 'object' && value !== null`
unfoldable pub is_object : Option Json → Bool
is_object (some (obj fs)) = true
is_object (some (arr xs)) = true
is_object _ = false
