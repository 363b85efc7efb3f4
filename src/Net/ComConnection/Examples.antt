-- ===== src/Net/ComConnection/Examples.antt =====
-- A socket that takes two bytes at a time, and a buffer that is searched for a newline.
use ts_m2cellcpp.Prelude.{
  ℕ, ◌+◌, ◌≡◌, refl, ap, ◌==◌, List, [], ◌∷◌, ◌++◌, length, Option, none, some, if◌then◌else◌,
  arith,
}
use ts_m2cellcpp.Util.CsvFile.{Text, newline}
use ts_m2cellcpp.Util.CsvFile.Laws.{Without}
use ts_m2cellcpp.Net.ComConnection.{get_delimiter, sync_write, read_commands}
use ts_m2cellcpp.Net.ComConnection.Laws.{
  Progresses, WrittenOf, sync_write-WrittenOf, ReadsUntil, stream, read_commands-stream,
}

two_bytes : ℕ → Option ℕ
two_bytes n = if n == 7 then none else some 2

two_bytes-Progresses : Progresses two_bytes
unfolding two_bytes
two_bytes-Progresses n k h = ground (arith, h)

abbrev hello : Text
hello = 104 ∷ 101 ∷ 108 ∷ 108 ∷ 111 ∷ []

sync_write-WrittenOf_example :
    WrittenOf (33 ∷ []) (hello ++ get_delimiter) (sync_write two_bytes 0 (33 ∷ []) hello)
sync_write-WrittenOf_example = sync_write-WrittenOf two_bytes 0 (33 ∷ []) hello two_bytes-Progresses

abbrev counted : Option ℕ → Option ℕ
counted none = none
counted (some n) = some (ℕ.suc n)

up_to_newline : Text → Option ℕ
up_to_newline [] = none
up_to_newline (c ∷ s) =
    let more = counted (up_to_newline s) in if c == newline then some 1 else more

up_to_newline_found :
    (m rest : Text)
    → Without newline m
    → up_to_newline (m ++ get_delimiter ++ rest) ≡ some (length m + 2)
unfolding up_to_newline
up_to_newline_found [] rest w = refl
up_to_newline_found (c ∷ m) rest (n, w) =
    rw (n, up_to_newline_found m rest w) (ap (λ k. some k) (omega arith))

up_to_newline-none : (m : Text) → Without newline m → up_to_newline m ≡ none
unfolding up_to_newline
up_to_newline-none [] w = refl
up_to_newline-none (c ∷ m) (n, w) = rw (n, up_to_newline-none m w) refl

up_to_newline-ReadsUntil : ReadsUntil up_to_newline
up_to_newline-ReadsUntil = record { found = up_to_newline_found; not_found = up_to_newline-none }

abbrev commands : List Text
commands = hello ∷ [] ∷ []

read_commands-stream_example :
    read_commands 3 up_to_newline (stream commands (104 ∷ [])) ≡ (commands, 104 ∷ [])
read_commands-stream_example =
    read_commands-stream up_to_newline 3 commands (104 ∷ []) up_to_newline-ReadsUntil
      ((refl, (refl, (refl, (refl, (refl, tt))))), (tt, tt)) (refl, tt) (omega arith)
