-- ===== src/Net/ComConnection/Laws.antt =====
-- Messages are written whole and read whole.
use ts_m2cellcpp.Prelude.{
  ℕ, ◌+◌, ◌-◌, ◌≡◌, ◌≤◌, refl, sym, ap, ◌∙◌, List, [], ◌∷◌, ◌++◌, append_assoc, append-nil, length,
  Option, none, some, All, arith,
}
use ts_m2cellcpp.Util.CsvFile.{Text, newline}
use ts_m2cellcpp.Util.CsvFile.Laws.{Without}
use ts_m2cellcpp.Net.ComConnection.{
  take, drop, get_delimiter, Written, finished, failed, looping, write_loop, sync_write, read_found,
  read_command, read_commands,
}

take-drop : (k : ℕ) (s : Text) → take k s ++ drop k s ≡ s
take-drop k [] = refl
take-drop ℕ.zero (c ∷ s) = refl
take-drop (ℕ.suc k) (c ∷ s) = ap (λ t. c ∷ t) (take-drop k s)

length-drop : (k c : ℕ) (s : Text) → 1 ≤ k → length (drop k (c ∷ s)) ≤ length s
length-drop ℕ.zero c s h = absurd (omega arith)
length-drop (ℕ.suc k) c s h = le_drop k s
  where
    le_drop : (k : ℕ) (s : Text) → length (drop k s) ≤ length s
    le_drop k [] = omega arith
    le_drop ℕ.zero (c ∷ s) = omega arith
    le_drop (ℕ.suc k) (c ∷ s) = omega (arith, le_drop k s)

-- A call that does not throw writes at least one byte.
abbrev pub Progresses : (ℕ → Option ℕ) → Type 0
Progresses write_some = (n k : ℕ) → write_some n ≡ some k → 1 ≤ k

-- All of the message went behind the bytes before it, or the part that came before an error.
abbrev pub WrittenOf : Text → Text → Written → Type 0
WrittenOf sent msg (finished s) = s ≡ sent ++ msg
WrittenOf sent msg (failed s) = (rest : Text) × (s ++ rest ≡ sent ++ msg)
WrittenOf sent msg (looping s) = ⊥

WrittenOf-whole :
    (r : Written) (s t a b : Text) → s ++ t ≡ a ++ b → WrittenOf s t r → WrittenOf a b r
WrittenOf-whole (finished x) s t a b e h = h ∙ e
WrittenOf-whole (failed x) s t a b e (rest, h) = (rest, h ∙ e)
WrittenOf-whole (looping x) s t a b e h = h

write_loop-WrittenOf :
    (turns : ℕ) (write_some : ℕ → Option ℕ) (n : ℕ) (msg sent : Text)
    → Progresses write_some
    → length msg ≤ turns
    → WrittenOf sent msg (write_loop turns write_some n msg sent)
unfolding write_loop
write_loop-WrittenOf turns write_some n [] sent p h = sym (append-nil sent)
write_loop-WrittenOf ℕ.zero write_some n (c ∷ s) sent p h = absurd (omega arith)
write_loop-WrittenOf (ℕ.suc turns) write_some n (c ∷ s) sent p h = turn (write_some n) (p n) (λ k l.
    write_loop-WrittenOf turns write_some (n + 1) (drop k (c ∷ s)) (sent ++ take k (c ∷ s)) p
      (omega (arith, length-drop k c s l)))
  where
    turn :
        (o : Option ℕ)
        → ((k : ℕ) → o ≡ some k → 1 ≤ k)
        → ((k : ℕ)
            → 1 ≤ k
            → WrittenOf
                (sent ++ take k (c ∷ s))
                (drop k (c ∷ s))
                (write_loop turns write_some (n + 1) (drop k (c ∷ s)) (sent ++ take k (c ∷ s))))
        → WrittenOf sent (c ∷ s) (elim o [
          | none ↦ failed sent
          | some k ↦ write_loop turns write_some (n + 1) (drop k (c ∷ s)) (sent ++ take k (c ∷ s))
        ])
    turn none q f = (c ∷ s, refl)
    turn (some k) q f =
        WrittenOf-whole
          (write_loop turns write_some (n + 1) (drop k (c ∷ s)) (sent ++ take k (c ∷ s)))
          (sent ++ take k (c ∷ s)) (drop k (c ∷ s)) sent (c ∷ s)
          (append_assoc sent (take k (c ∷ s)) (drop k (c ∷ s))
            ∙ ap (λ t. sent ++ t) (take-drop k (c ∷ s)))
          (f k (q k refl))

-- The loop ends, in at most one turn for each byte: however few bytes a call writes, as long as each
-- writes one or throws, the whole message and its delimiter follow the bytes before it, or the part of
-- them that came before an error.
pub sync_write-WrittenOf :
    (write_some : ℕ → Option ℕ) (n : ℕ) (sent msg : Text)
    → Progresses write_some
    → WrittenOf sent (msg ++ get_delimiter) (sync_write write_some n sent msg)
unfolding sync_write
sync_write-WrittenOf write_some n sent msg p =
    write_loop-WrittenOf (length (msg ++ get_delimiter)) write_some n (msg ++ get_delimiter) sent p
      (omega arith)

-- What the library says of a buffer: the count ends with the first delimiter, if there is one.
pub record ReadsUntil (read_until : Text → Option ℕ) : Type 0 where
  pub found :
      (m rest : Text)
      → Without newline m
      → read_until (m ++ get_delimiter ++ rest) ≡ some (length m + 2)
  pub not_found : (m : Text) → Without newline m → read_until m ≡ none

take-append : (m rest : Text) → take (length m) (m ++ rest) ≡ m
take-append [] [] = refl
take-append [] (c ∷ s) = refl
take-append (c ∷ m) rest = ap (λ t. c ∷ t) (take-append m rest)

drop-append : (m rest : Text) → drop (length m + 2) (m ++ get_delimiter ++ rest) ≡ rest
drop-append [] [] = refl
drop-append [] (c ∷ s) = refl
drop-append (c ∷ m) rest =
    ap (λ n. drop n (c ∷ m ++ get_delimiter ++ rest)) (suc_plus (length m)) ∙ drop-append m rest
  where
    suc_plus : (n : ℕ) → ℕ.suc n + 2 ≡ ℕ.suc (n + 2)
    suc_plus n = omega arith

-- Messages with their delimiters, as they arrive.
abbrev pub stream : List Text → Text → Text
stream [] rest = rest
stream (m ∷ ms) rest = m ++ get_delimiter ++ stream ms rest

read_command_lem :
    (read_until : Text → Option ℕ) (m rest : Text)
    → ReadsUntil read_until
    → Without newline m
    → read_command read_until (m ++ get_delimiter ++ rest) ≡ some (m, rest)
unfolding read_command read_found
read_command_lem read_until m rest r w =
    rw (r.found m rest w, drop-append m rest, before (length m))
      (ap (λ t. some (t, rest))
        (ap (take (length m)) (append_assoc m get_delimiter rest)
          ∙ take-append m (get_delimiter ++ rest)))
  where
    before : (n : ℕ) → n + 2 - 2 ≡ n
    before n = omega arith

read_command-none :
    (read_until : Text → Option ℕ) (rest : Text)
    → ReadsUntil read_until
    → Without newline rest
    → read_command read_until rest ≡ none
unfolding read_command read_found
read_command-none read_until rest r w = rw (r.not_found rest w) refl

-- What several messages leave in the buffer is read as these messages, in their order, and the part
-- of a message that has no delimiter yet stays; no message has a newline of its own.
pub read_commands-stream :
    (read_until : Text → Option ℕ) (n : ℕ) (ms : List Text) (rest : Text)
    → ReadsUntil read_until
    → All (Without newline) ms
    → Without newline rest
    → length ms ≤ n
    → read_commands n read_until (stream ms rest) ≡ (ms, rest)
unfolding read_commands
read_commands-stream read_until ℕ.zero [] rest r ws w h = refl
read_commands-stream read_until (ℕ.suc n) [] rest r ws w h =
    rw (read_commands, read_command-none read_until rest r w) refl
read_commands-stream read_until ℕ.zero (m ∷ ms) rest r ws w h = absurd (omega arith)
read_commands-stream read_until (ℕ.suc n) (m ∷ ms) rest r (v, ws) w h =
    rw (read_commands, read_command_lem read_until m (stream ms rest) r v)
      (ap (λ (p : List Text × Text). (m ∷ p.0, p.1))
        (read_commands-stream read_until n ms rest r ws w (omega arith)))
