-- ===== src/Common/Json.antt =====
-- A JSON value as the source handles it at run time. A finite number is the text that `String` makes
-- of it; an object is its own enumerable fields in their order.
use mathlib.Core.Bool.{Bool}
use olane.Common.Texts.{Text}

mutual
  pub data Json : Type 0 where
    undefined null : Json
    boolean : Bool → Json
    number string : Text → Json
    non_finite : Json
    other : Text → Json
    array : Items → Json
    object : Fields → Json

  pub data Items : Type 0 where
    end : Items
    item : Json → Items → Items

  pub data Fields : Type 0 where
    closed : Fields
    field : Text → Json → Fields → Fields
