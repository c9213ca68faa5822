-- ===== src/Task/Payload.antt =====
-- The values of a request's payload: what JSON carries. Numbers are integers; a float has no
-- model here.
use latency_aware_inference.Common.{Bool, Option, none, some, String, str_eq, if◌then◌else◌}
use latency_aware_inference.Common.Int.{ℤ}

mutual
  -- The members of an object, in order.
  pub data Fields : Type 0 where
    field : String → Value → Fields → Fields
    end : Fields

  pub data Items : Type 0 where
    cons : Value → Items → Items
    nil : Items

  pub data Value : Type 0 where
    obj : Fields → Value
    arr : Items → Value
    str : String → Value
    int : ℤ → Value
    bool : Bool → Value
    null : Value

-- `d.get(key)` on an object
abbrev pub get : String → Fields → Option Value
get key end = none
get key (field name v rest) = if str_eq name key then some v else get key rest
