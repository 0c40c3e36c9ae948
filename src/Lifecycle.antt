-- ===== src/Lifecycle.antt =====
-- turnvector_benchmark/cross_engine/lifecycle.py: the messages of an engine adapter and the machine
-- that both ends follow. A value of a parsed message is a `Json`; the checks of contracts.py are in
-- Contracts, those of the messages in Messages.
pub mod Contracts
pub mod Messages
pub mod Payloads
pub mod Envelopes
pub mod Strict
pub mod Machine
pub mod Client
mod Tests
use turn_vector_benchmark.Base.{ℕ, String, Bool, List, [], ◌∷◌, Option}
use turn_vector_benchmark.Base.Dict.{Dict}
use turn_vector_benchmark.Base.Int.{ℤ}

-- What `json.loads` returns. A float is kept as whether it is finite, the length of its text and the
-- integer that it equals, if it equals one: no check looks at more of it.
mutual
  pub data Json : Type 0 where
    null : Json
    bool : Bool → Json
    int : ℤ → Json
    float : Bool → ℕ → Option ℤ → Json
    str : String → Json
    arr : Items → Json
    obj : Fields → Json

  pub data Items : Type 0 where
    no_items : Items
    item : Json → Items → Items

  pub data Fields : Type 0 where
    no_fields : Fields
    field : String → Json → Fields → Fields

abbrev pub items : Items → List Json
items no_items = []
items (item v vs) = v ∷ items vs

abbrev pub entries : Fields → Dict Json
entries no_fields = []
entries (field k v fs) = (k, v) ∷ entries fs
