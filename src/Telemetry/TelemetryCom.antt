-- ===== src/Telemetry/TelemetryCom.antt =====
-- The connections of system/TelemetryCom.cpp: the bytes that the sender of a connection writes, and
-- the loops of the server and of the client that read bytes up to "\r\n".
pub mod Bytes
pub mod Transfer
pub mod Layout
pub mod Handlers
pub mod Examples
use Prim.Native.String.{String}
use text.Mathlib.Text
use ts_m2cellcpp.Prelude.{
  Parsed, parsed, parse_error, too_large, range_error, bug, undefined_behaviour, ℕ, ◌+◌, ◌≡◌, Bool,
  true, false, ◌==◌, List, [], ◌∷◌, ◌++◌, Option, none, some, Result, ok, err, Exception,
  if◌then◌else◌,
}
use ts_m2cellcpp.Util.CsvFile.{Text, newline}
use ts_m2cellcpp.Util.CsvFile.Laws.{Without}
use ts_m2cellcpp.Net.ComConnection.{take}
use ts_m2cellcpp.Telemetry.Json.{Value, Json}
use ts_m2cellcpp.Telemetry.TelemetryItem.{Item, ItemMap, build_json_from_map}
use ts_m2cellcpp.Telemetry.TelemetryMap.{set_item_from_json}

abbrev pub carriage_return : ℕ
carriage_return = 13

-- The texts of the library of JSON; a text may hold a value that is not an object.
pub record Texts (J : Type 0) : Type 0 where
  pub to_string : J → Text
  pub parse : Text → Parsed (Option J)

-- The object is written in one line, from which it is parsed again.
abbrev pub Readable : {J : Type 0} → Texts J → J → Type 0
Readable texts j =
    (texts.parse (texts.to_string j) ≡ parsed (some j)) × Without newline (texts.to_string j)

abbrev pub back : Text → Option ℕ
back [] = none
back (c ∷ []) = some c
back (c ∷ d ∷ s) = back (d ∷ s)

abbrev pub pop_back : Text → Text
pop_back [] = []
pop_back (c ∷ []) = []
pop_back (c ∷ d ∷ s) = c ∷ pop_back (d ∷ s)

-- A byte completes a message or is kept; `no_back` is the call of `back` on an empty string, whose
-- behaviour is undefined.
pub data Taken : Type 0 where
  no_back : Taken
  kept message : Text → Taken

take_newline : Option ℕ → Text → Taken
take_newline none s = no_back
take_newline (some b) s =
    if b == carriage_return then message (pop_back s) else kept (s ++ newline ∷ [])

unfoldable pub take_byte : ℕ → Text → Taken
unfolding take_newline
take_byte c s = if c == newline then take_newline (back s) s else kept (s ++ c ∷ [])

-- A reader that still reads, with the bytes of a message that is not complete, one that ended with
-- an exception, and one whose behaviour is undefined.
pub data Reading (S : Type 0) : Type 0 where
  reading : S → Text → Reading S
  thrown : S → Exception → Reading S
  undefined : S → Reading S

module _ {S : Type 0} where
  abbrev pub and_read : S × Option Exception → (S → Reading S) → Reading S
  and_read (s, none) f = f s
  and_read (s, some undefined_behaviour) f = undefined s
  and_read (s, some range_error) f = thrown s range_error
  and_read (s, some bug) f = thrown s bug

  -- The loop over the bytes, in which `handle` is done with each message.
  unfoldable pub read_bytes : (Text → S → S × Option Exception) → List ℕ → S → Text → Reading S
  read_bytes handle [] s in_msg = reading s in_msg
  read_bytes handle (c ∷ cs) s in_msg = elim (take_byte c in_msg) [
    | no_back ↦ undefined s
    | kept more ↦ read_bytes handle cs s more
    | message m ↦ and_read (handle m s) (λ t. read_bytes handle cs t [])
  ]

-- The message of an item, with the terminator.
unfoldable pub frame : Text → Text
frame s = s ++ carriage_return ∷ newline ∷ []

-- What was sent before the rest.
abbrev pub sent_first : Text → Text × ℕ × Bool → Text × ℕ × Bool
sent_first s (bytes, count, stands) = (s ++ bytes, count, stands)

-- An item of the map with its flag.
abbrev pub Sending : Type 0 → Type 0
Sending D = ItemMap D × Bool

module _ {D : Type 0} where
  abbrev pub exception_of :
      List (ItemMap D) × Result (Option String) → List (ItemMap D) × Option Exception
  exception_of (map, ok id) = (map, none)
  exception_of (map, err e) = (map, some e)

  abbrev pub item_val : String → List (Item D) → Option (Value D)
  item_val k [] = none
  item_val k (i ∷ is) = if Text.◌==◌ i.id k then some i.val else item_val k is

  abbrev pub put_val : String → Value D → List (Item D) → List (Item D)
  put_val k v [] = []
  put_val k v (i ∷ is) = if Text.◌==◌ i.id k then record i { val = v } ∷ is else i ∷ put_val k v is

  abbrev pub map_val : String → String → List (ItemMap D) → Option (Value D)
  map_val id k [] = none
  map_val id k (m ∷ ms) = if Text.◌==◌ m.id id then item_val k m.ti_map else map_val id k ms

  abbrev pub put_map_val : String → String → Value D → List (ItemMap D) → List (ItemMap D)
  put_map_val id k v [] = []
  put_map_val id k v (m ∷ ms) =
      if Text.◌==◌ m.id id
      then record m { ti_map = put_val k v m.ti_map } ∷ ms
      else m ∷ put_map_val id k v ms

  -- The elevation of the telescope becomes the angle of the inclinometer.
  unfoldable pub copy_elevation : List (ItemMap D) → List (ItemMap D)
  copy_elevation map = elim (map_val "tel_elevation" "actualPosition" map) [
    | none ↦ map
    | some ang ↦ put_map_val "inclinometerAngleTma" "inclinometer" ang map
  ]

  updated : List (ItemMap D) × Result (Option String) → List (ItemMap D) × Option Exception
  updated (map, ok none) = (map, none)
  updated (map, ok (some id)) =
      (if Text.◌==◌ id "tel_elevation" then copy_elevation map else map, none)
  updated (map, err e) = (map, some e)

module _ {D J V : Type 0} (lib : Json D J V) (texts : Texts J) where
  set_parsed : Parsed (Option J) → List (ItemMap D) → List (ItemMap D) × Result (Option String)
  set_parsed parse_error map = (map, ok none)
  set_parsed too_large map = (map, err range_error)
  set_parsed (parsed none) map = (map, err range_error)
  set_parsed (parsed (some js)) map = set_item_from_json lib js map

  -- setItemFromJsonStr, which catches only the parse_error.
  unfoldable pub set_item_from_json_str :
      Text → List (ItemMap D) → List (ItemMap D) × Result (Option String)
  unfolding set_parsed
  set_item_from_json_str s map = set_parsed (texts.parse s) map

  -- What the loop of `client` does with a message.
  unfoldable pub client_message : Text → List (ItemMap D) → List (ItemMap D) × Option Exception
  client_message s map = exception_of (set_item_from_json_str s map)

  -- What _servConnReader does with a message.
  unfoldable pub server_message : Text → List (ItemMap D) → List (ItemMap D) × Option Exception
  unfolding updated
  server_message s map = updated (set_item_from_json_str s map)

  unfoldable pub serv_conn_reader : List ℕ → List (ItemMap D) → Reading (List (ItemMap D))
  serv_conn_reader bytes map = read_bytes server_message bytes map []

  unfoldable pub client : List ℕ → List (ItemMap D) → Reading (List (ItemMap D))
  client bytes map = read_bytes client_message bytes map []

  -- The loop of _servConnHandler over the items: `sent n msg` is how many bytes of `msg` the n-th
  -- `send` takes, and `none` a negative status, which ends the connection. Bytes that were not taken
  -- are not sent again. The answer is the bytes that were sent, with the count of the messages and
  -- whether the connection stands.
  unfoldable pub send_items : (ℕ → Text → Option ℕ) → ℕ → List (Sending D) → Text × ℕ × Bool
  send_items sent n [] = ([], n, true)
  send_items sent n ((item, do_not_send) ∷ items) =
      let skipped = send_items sent n items in
      let msg = frame (texts.to_string (build_json_from_map lib item)) in
      let more = send_items sent (n + 1) items in
      if do_not_send
      then skipped
      else elim (sent n msg) [ none ↦ ([], n + 1, false) | some k ↦ sent_first (take k msg) more ]
