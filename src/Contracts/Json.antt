-- ===== src/Contracts/Json.antt =====
-- JSON values, and the flat dicts of scalars that the program builds for its readers. A `moment` is
-- the ISO text of a `datetime`, and a `side` the text of a `Side`; the text of an `integer` or a
-- `number` is left to the writer.
use agora_perp_agent.Prelude.{ℕ, String, Bool, Option, none, some, ◌==◌, if◌then◌else◌}
use agora_perp_agent.Prelude.Dict.{Dict}
use agora_perp_agent.Contracts.Market.{Side}

pub data Scalar (F : Type 0) : Type 0 where
  null : Scalar F
  boolean : Bool → Scalar F
  integer : ℕ → Scalar F
  number : F → Scalar F
  words : String → Scalar F
  side : Side → Scalar F
  moment : ℕ → Scalar F

-- A dict of scalars.
abbrev pub Row : Type 0 → Type 0
Row F = Dict (Scalar F)

mutual
  pub data Json (F : Type 0) : Type 0 where
    leaf : Scalar F → Json F
    array : Items F → Json F
    object : Fields F → Json F

  pub data Items (F : Type 0) : Type 0 where
    nil : Items F
    item : Json F → Items F → Items F

  pub data Fields (F : Type 0) : Type 0 where
    end : Fields F
    field : String → Json F → Fields F → Fields F

module _ {F : Type 0} where
  -- `d.get(k)` of a JSON object, in which a later field of the same name has replaced the earlier.
  abbrev pub get : String → Fields F → Option (Json F)
  get k end = none
  get k (field j v fields) = if j == k then some v else get k fields
