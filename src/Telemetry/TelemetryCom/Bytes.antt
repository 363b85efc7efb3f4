-- ===== src/Telemetry/TelemetryCom/Bytes.antt =====
-- The bytes of whole messages are read as these messages.
use ts_m2cellcpp.Prelude.{
  range_error, bug, undefined_behaviour, ℕ, ◌≡◌, refl, sym, ap, ◌∙◌, false, ◌==◌, List, [], ◌∷◌,
  ◌++◌, append_assoc, append-nil, Option, none, some, All, Exception,
}
use ts_m2cellcpp.Util.CsvFile.{Text, newline}
use ts_m2cellcpp.Util.CsvFile.Laws.{Without}
use ts_m2cellcpp.Telemetry.TelemetryCom.{
  carriage_return, back, pop_back, take_newline, take_byte, no_back, kept, message, Reading,
  reading, undefined, and_read, read_bytes, frame,
}

back-append : (s : Text) (c : ℕ) → back (s ++ c ∷ []) ≡ some c
back-append [] c = refl
back-append (a ∷ []) c = refl
back-append (a ∷ b ∷ s) c = back-append (b ∷ s) c

pop_back-append : (s : Text) (c : ℕ) → pop_back (s ++ c ∷ []) ≡ s
pop_back-append [] c = refl
pop_back-append (a ∷ []) c = refl
pop_back-append (a ∷ b ∷ s) c = ap (λ t. a ∷ t) (pop_back-append (b ∷ s) c)

take_byte-kept : (c : ℕ) (s : Text) → (c == newline) ≡ false → take_byte c s ≡ kept (s ++ c ∷ [])
unfolding take_byte
take_byte-kept c s n = rw n refl

take_byte-message : (s : Text) → take_byte newline (s ++ carriage_return ∷ []) ≡ message s
unfolding take_byte take_newline
take_byte-message s = rw (back-append s carriage_return, pop_back-append s carriage_return) refl

take_byte-no_back : take_byte newline [] ≡ no_back
unfolding take_byte take_newline
take_byte-no_back = refl

abbrev pub frames : List Text → Text
frames [] = []
frames (m ∷ ms) = frame m ++ frames ms

module _ {S : Type 0} (handle : Text → S → S × Option Exception) where
  -- Bytes without a newline are kept.
  read_bytes-Without :
      (m bytes : Text) (s : S) (in_msg : Text)
      → Without newline m
      → read_bytes handle (m ++ bytes) s in_msg ≡ read_bytes handle bytes s (in_msg ++ m)
  unfolding read_bytes
  read_bytes-Without [] bytes s in_msg w = ap (read_bytes handle bytes s) (sym (append-nil in_msg))
  read_bytes-Without (c ∷ m) bytes s in_msg (n, w) =
      rw (read_bytes, take_byte-kept c in_msg n)
        (read_bytes-Without m bytes s (in_msg ++ c ∷ []) w
          ∙ ap (read_bytes handle bytes s) (append_assoc in_msg (c ∷ []) m))

  read_bytes-terminator :
      (bytes : Text) (s : S) (in_msg : Text)
      → read_bytes handle (carriage_return ∷ newline ∷ bytes) s in_msg
        ≡ and_read (handle in_msg s) (λ t. read_bytes handle bytes t [])
  unfolding read_bytes
  read_bytes-terminator bytes s in_msg =
      rw (read_bytes, take_byte-kept carriage_return in_msg refl, take_byte-message in_msg) refl

  -- A message with its terminator is handled.
  pub read_bytes-frame :
      (m bytes : Text) (s : S)
      → Without newline m
      → read_bytes handle (frame m ++ bytes) s []
        ≡ and_read (handle m s) (λ t. read_bytes handle bytes t [])
  unfolding frame
  read_bytes-frame m bytes s w =
      ap (λ b. read_bytes handle b s []) (append_assoc m (carriage_return ∷ newline ∷ []) bytes)
      ∙ read_bytes-Without m (carriage_return ∷ newline ∷ bytes) s [] w
      ∙ read_bytes-terminator bytes s m

  -- The messages are handled one after the other, up to the first exception.
  abbrev pub handle_all : List Text → S → (S → Reading S) → Reading S
  handle_all [] s f = f s
  handle_all (m ∷ ms) s f = and_read (handle m s) (λ t. handle_all ms t f)

  and_read_cong :
      (r : S × Option Exception) (f g : S → Reading S)
      → ((t : S) → f t ≡ g t)
      → and_read r f ≡ and_read r g
  and_read_cong (s, none) f g h = h s
  and_read_cong (s, some undefined_behaviour) f g h = refl
  and_read_cong (s, some range_error) f g h = refl
  and_read_cong (s, some bug) f g h = refl

  -- However the bytes arrive, the loop handles the messages one after the other, up to the first
  -- exception, and keeps the bytes that follow the last terminator; the messages have no newline of
  -- their own, and neither do the bytes after them.
  pub read_bytes-frames :
      (ms : List Text) (rest : Text) (s : S)
      → All (Without newline) ms
      → Without newline rest
      → read_bytes handle (frames ms ++ rest) s [] ≡ handle_all ms s (λ t. reading t rest)
  unfolding read_bytes
  read_bytes-frames [] rest s ws w =
      ap (λ b. read_bytes handle b s []) (sym (append-nil rest)) ∙ read_bytes-Without rest [] s [] w
  read_bytes-frames (m ∷ ms) rest s (v, ws) w =
      ap (λ b. read_bytes handle b s []) (append_assoc (frame m) (frames ms) rest)
      ∙ read_bytes-frame m (frames ms ++ rest) s v
      ∙ and_read_cong (handle m s) _ _ (λ t. read_bytes-frames ms rest t ws w)

  -- A newline that follows a terminator, or stands first, makes the loop call `back` on an empty
  -- string, whatever follows.
  pub read_bytes-undefined :
      (m rest : Text) (s t : S)
      → Without newline m
      → handle m s ≡ (t, none)
      → read_bytes handle (frame m ++ newline ∷ rest) s [] ≡ undefined t
  unfolding read_bytes
  read_bytes-undefined m rest s t w e =
      read_bytes-frame m (newline ∷ rest) s w
      ∙ ap (λ r. and_read r (λ u. read_bytes handle (newline ∷ rest) u [])) e
      ∙ rw (read_bytes, take_byte-no_back) refl
