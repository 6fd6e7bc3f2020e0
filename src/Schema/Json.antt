-- ===== src/Schema/Json.antt =====
-- Values that the records take as they come: JSON documents, and Python's floating numbers.
use deep_thought.Prelude.{ℕ, String, Bool}
use deep_thought.Prelude.Ints.{ℤ}

-- A float exactly: `finite neg m k` is m / 2^k, with its sign.
pub data Float : Type 0 where
  nan : Float
  inf : Bool → Float
  finite : Bool → ℕ → ℕ → Float

mutual
  pub data Json : Type 0 where
    null : Json
    boolean : Bool → Json
    integer : ℤ → Json
    number : Float → Json
    text : String → Json
    array : Items → Json
    object : Fields → Json

  pub data Items : Type 0 where
    nil : Items
    cons : Json → Items → Items

  pub data Fields : Type 0 where
    end : Fields
    field : String → Json → Fields → Fields
