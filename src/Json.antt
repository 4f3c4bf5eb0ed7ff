-- ===== src/Json.antt =====
-- JSON values, and what encoding/json does to decode one into a struct of texts with
-- DisallowUnknownFields.
use taifa_exchange.Outcome.{Result, err, ok, plain}
use taifa_exchange.Base.{Bool, String}

mutual
  pub data Json : Type 0 where
    null : Json
    bool : Bool → Json
    number : String → Json
    str : String → Json
    arr : Items → Json
    obj : Fields → Json

  pub data Items : Type 0 where
    nil : Items
    cons : Json → Items → Items

  pub data Fields : Type 0 where
    end : Fields
    field : String → Json → Fields → Fields

-- A value decoded into a text field that holds `old`: null leaves it alone.
abbrev pub decode_text : String → Json → Result String
decode_text old (str s) = ok s
decode_text old null = ok old
decode_text old _ = err (plain "json: cannot unmarshal into Go struct field of type string")
