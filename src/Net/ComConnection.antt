-- ===== src/Net/ComConnection.antt =====
-- The messages of a connection, system/ComConnection.cpp: the loop that writes one to the socket,
-- and the read of a command out of what the socket has received.
pub mod Laws
pub mod Examples
use ts_m2cellcpp.Prelude.{
  ℕ, ◌+◌, ◌-◌, ◌≡◌, ◌≤◌, Bool, true, false, List, [], ◌∷◌, ◌++◌, length, Option, none, some,
}
use ts_m2cellcpp.Util.CsvFile.{Text, newline}
use ts_m2cellcpp.Util.CsvFile.Laws.{Without}

-- The library's counts in another ℕ.
abbrev pub take : ℕ → Text → Text
take n [] = []
take ℕ.zero (c ∷ s) = []
take (ℕ.suc n) (c ∷ s) = c ∷ take n s

abbrev pub drop : ℕ → Text → Text
drop n [] = []
drop ℕ.zero (c ∷ s) = c ∷ s
drop (ℕ.suc n) (c ∷ s) = drop n s

abbrev pub get_delimiter : Text
get_delimiter = 13 ∷ newline ∷ []

-- The bytes that reached the socket, all of them or those before its error; `looping` is a loop
-- that needs more turns.
pub data Written : Type 0 where
  finished failed looping : Text → Written

-- The loop of _syncWrite on the rest of the message: the `n`-th call of `write_some` takes as many
-- bytes as it answers, or throws.
unfoldable pub write_loop : ℕ → (ℕ → Option ℕ) → ℕ → Text → Text → Written
write_loop turns write_some n [] sent = finished sent
write_loop ℕ.zero write_some n (c ∷ s) sent = looping sent
write_loop (ℕ.suc turns) write_some n (c ∷ s) sent = elim (write_some n) [
  | none ↦ failed sent
  | some k ↦ write_loop turns write_some (n + 1) (drop k (c ∷ s)) (sent ++ take k (c ∷ s))
]

-- _syncWrite, after the bytes `sent`, with one turn for each byte.
unfoldable pub sync_write : (ℕ → Option ℕ) → ℕ → Text → Text → Written
sync_write write_some n sent msg =
    let whole = msg ++ get_delimiter in write_loop (length whole) write_some n whole sent

read_found : Option ℕ → Text → Option (Text × Text)
read_found none buffer = none
read_found (some xfer) buffer = some (take (xfer - length get_delimiter) buffer, drop xfer buffer)

-- _readCommand: `async_read_until` has stored the bytes and says how many there are up to the
-- delimiter, this included; the command is what stands before it, and the bytes are consumed.
unfoldable pub read_command : (Text → Option ℕ) → Text → Option (Text × Text)
unfolding read_found
read_command read_until buffer = read_found (read_until buffer) buffer

-- The commands that a buffer holds, one after the other, and what is left.
unfoldable pub read_commands : ℕ → (Text → Option ℕ) → Text → List Text × Text
read_commands ℕ.zero read_until buffer = ([], buffer)
read_commands (ℕ.suc n) read_until buffer = elim (read_command read_until buffer) [
  | none ↦ ([], buffer)
  | some (m, rest) ↦ let (ms, left) = read_commands n read_until rest in (m ∷ ms, left)
]
