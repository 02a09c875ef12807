-- ===== src/Prelude/Json.antt =====
-- JSON values, for the settings that the console passes on without reading them, and numbers read
-- from text fields.
use Prim.Native.Nat.{ℕ}
use Prim.Native.String.{String}
use mathlib.Core.Bool.{Bool}

-- A JavaScript number: a natural number, or any other, named by the text that `Number` read.
pub data Number : Type 0 where
  nat : ℕ → Number
  other : String → Number

mutual
  pub data Json : Type 0 where
    null : Json
    bool : Bool → Json
    num : Number → Json
    str : String → Json
    arr : Items → Json
    obj : Fields → Json

  pub data Items : Type 0 where
    nil : Items
    cons : Json → Items → Items

  pub data Fields : Type 0 where
    end : Fields
    field : String → Json → Fields → Fields
