-- ===== src/Prelude/Json.antt =====
-- `serde_json::Value`, with its objects as lists of fields; the model reads no number out of it.
use coin_listener.Prelude.{Bool}
use coin_listener.Prelude.Int.{ℤ}
use coin_listener.Prelude.Text.{Text}

mutual
  pub data Json : Type 0 where
    null : Json
    bool : Bool → Json
    number : ℤ → Json
    string : Text → Json
    array : Items → Json
    object : Fields → Json

  pub data Items : Type 0 where
    nil : Items
    cons : Json → Items → Items

  pub data Fields : Type 0 where
    end : Fields
    field : Text → Json → Fields → Fields
