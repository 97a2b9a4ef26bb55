-- ===== src/Json.antt =====
-- The values that `JSON.parse` returns and `JSON.stringify` takes, and the tests that the source makes
-- on them.
use infinite_context.Prelude.{ℕ, String, Option, none, some, Bool, if◌then◌else◌, str_eq}

-- A JavaScript number as the code sees it: a multiple of one millionth, or a value that the guards
-- refuse.
pub data Number : Type 0 where
  millionths : ℕ → Number
  negative non_finite : Number

mutual
  pub data Json : Type 0 where
    null : Json
    bool : Bool → Json
    num : Number → Json
    str : String → Json
    arr : Items → Json
    obj : Fields → Json

  pub data Items : Type 0 where
    nil : Items
    cons : Json → Items → Items

  pub data Fields : Type 0 where
    end : Fields
    field : String → Json → Fields → Fields

-- `raw.key`; `none` is `undefined`.
unfoldable pub get : String → Fields → Option Json
get key end = none
get key (field k v rest) = if str_eq k key then some v else get key rest
