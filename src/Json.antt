-- ===== src/Json.antt =====
-- JSON values, as `JSON.parse` returns them and the code reads them.
use agent_control_center_cor.Base.{
  ℕ, ◌^◌, ◌-◌, String, Bool, Option, none, some, leb, ◌==◌, if◌then◌else◌,
}

mutual
  -- `num` is a number that is a non-negative integer; `real` is any other number, by its text.
  pub data Json : Type 0 where
    null : Json
    bool : Bool → Json
    num : ℕ → Json
    real : String → Json
    str : String → Json
    arr : Items → Json
    obj : Fields → Json

  pub data Items : Type 0 where
    nil : Items
    cons : Json → Items → Items

  pub data Fields : Type 0 where
    end : Fields
    field : String → Json → Fields → Fields

-- `value[name]`; of a repeated name the first, since an object holds each name once
unfoldable pub get_field : String → Fields → Option Json
get_field name end = none
get_field name (field k v rest) = if k == name then some v else get_field name rest

abbrev pub max_safe_integer : ℕ
max_safe_integer = 2 ^ 53 - 1

-- `Number.isSafeInteger(value)` and its value, where that is not negative
unfoldable pub safe_integer : Json → Option ℕ
safe_integer (num n) = if leb n max_safe_integer then some n else none
safe_integer _ = none
