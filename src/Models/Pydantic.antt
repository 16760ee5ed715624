-- ===== src/Models/Pydantic.antt =====
-- What the model classes take from pydantic: the conversions of JSON values to `bool`, to
-- `datetime` (a datetime is kept by its ISO text) and of a text to `int`.
use provisioning_api.Base.{ℕ, String, Bool, Option, some, ◌≡◌}
use provisioning_api.Models.Json.{Json, bool}

pub record Conversions : Type 0 where
  pub as_bool : Json → Option Bool
  pub as_datetime : Json → Option String
  pub as_int : String → Option ℕ

-- A Boolean value stays itself.
abbrev pub KeepsBool : Conversions → Type 0
KeepsBool c = (b : Bool) → c.as_bool (bool b) ≡ some b
