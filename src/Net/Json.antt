-- ===== src/Net/Json.antt =====
-- What control/NetCommand.cpp asks of its library of JSON: `J` is the type of a JSON value.
use Prim.Native.String.{String}
use ts_m2cellcpp.Prelude.{ℕ, ◌≡◌, Bool, Option, some, ℤ, Parsed}

-- `none` stands for the exception of the library: the key is missing, or its value has another type. `object s n` has the "id" `s` and the "sequence_id" `n`.
pub record Json (J : Type 0) : Type 0 where
  pub parse : String → Parsed J
  pub get_string : String → J → Option String
  pub get_uint : String → J → Option ℕ
  pub get_int : String → J → Option ℤ
  pub get_bool : String → J → Option Bool
  pub object : String → ℕ → J
  pub get_string-object : (s : String) (n : ℕ) → get_string "id" (object s n) ≡ some s
  pub get_uint-object : (s : String) (n : ℕ) → get_uint "sequence_id" (object s n) ≡ some n
