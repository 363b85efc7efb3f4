-- ===== src/Util/NamedValue/Laws.antt =====
-- What a row of a file sets.
use ts_m2cellcpp.Prelude.{
  ◌>>=◌, ℕ, ◌≡◌, refl, subst, All, Bool, true, false, List, [], ◌∷◌, Option, none, some, Result, ok,
  err, ℤ, pos, negsuc, arith,
}
use ts_m2cellcpp.Util.CsvFile.{Text, same_text, CsvFile, get_value}
use ts_m2cellcpp.Util.NamedValue.{
  Numbers, NamedValueType, NamedValue, named_string, named_bool, named_int, named_double,
  named_angle, set_value_read, same_bool, same_int, bool_of, to_int, get_name, set_converted,
  Answer, in_units, set_from_string, approx_equal, check, set_next, set_got,
  set_map_values_from_file,
}

same_text_self : (s : Text) → same_text s s ≡ true
same_text_self [] = refl
same_text_self (a ∷ s) = rw (same_text_self s) ground arith

same_bool_self : (b : Bool) → same_bool b b ≡ true
same_bool_self true = refl
same_bool_self false = refl

same_int_self : (i : ℤ) → same_int i i ≡ true
same_int_self (pos n) = ground arith
same_int_self (negsuc n) = ground arith

module _ {D : Type 0} (lib : Numbers D) where
  -- A double that was read is within the tolerance of itself, as every finite one is.
  abbrev pub Near : D → D → Type 0
  Near t d = lib.le (lib.mul (lib.sub d d) (lib.sub d d)) (lib.mul t t) ≡ true

  abbrev pub Finite : Text → NamedValue D → Type 0
  Finite s (named_double name t x) = (d : D) → lib.strtod s ≡ some d → Near t d
  Finite s (named_angle name u t x) = (d : D) → in_units lib u (lib.strtod s) ≡ some d → Near t d
  Finite s v = Unit

  abbrev pub Passes : Result (NamedValue D) → Type 0
  Passes (err e) = Unit
  Passes (ok w) = check lib w ≡ true

  set_converted-Passes :
      {T : Type 0} (o : Option T) (mk : NamedValueType T → NamedValue D)
      → ((x : T) → o ≡ some x → check lib (mk (set_value_read x)) ≡ true)
      → Passes (set_converted o mk)
  set_converted-Passes none mk k = tt
  set_converted-Passes (some x) mk k = k x refl

  set_from_string-Passes :
      (s : Text) (v : NamedValue D) → Finite s v → Passes (set_from_string lib s v)
  unfolding set_from_string check approx_equal
  set_from_string-Passes s (named_string name x) k = same_text_self s
  set_from_string-Passes s (named_bool name x) k =
      set_converted-Passes (bool_of s) (named_bool name) (λ b e. same_bool_self b)
  set_from_string-Passes s (named_int name x) k =
      set_converted-Passes (lib.strtol s >>= λ x. some (to_int x)) (named_int name)
        (λ i e. same_int_self i)
  set_from_string-Passes s (named_double name t x) k =
      set_converted-Passes (lib.strtod s) (named_double name t) k
  set_from_string-Passes s (named_angle name u t x) k =
      set_converted-Passes (in_units lib u (lib.strtod s)) (named_angle name u t) k

  -- The value is what the cell of its column converts to, and passes its check.
  abbrev pub Loaded : CsvFile → ℕ → NamedValue D → NamedValue D → Type 0
  Loaded f row v w =
      (text : Text) × (get_value (get_name v) row f ≡ ok text)
      × (set_from_string lib text v ≡ ok w)
      × (check lib w ≡ true)

  abbrev pub AllLoaded : CsvFile → ℕ → List (NamedValue D) → List (NamedValue D) → Type 0
  AllLoaded f row [] ws = ws ≡ []
  AllLoaded f row (v ∷ vs) [] = ⊥
  AllLoaded f row (v ∷ vs) (w ∷ ws) = Loaded f row v w × AllLoaded f row vs ws

  -- The cells that the values are read from convert to finite numbers, if to any.
  abbrev pub FiniteRow : CsvFile → ℕ → NamedValue D → Type 0
  FiniteRow f row v = (text : Text) → get_value (get_name v) row f ≡ ok text → Finite text v

  set_next-AllLoaded :
      (f : CsvFile) (row : ℕ) (text : Text) (v : NamedValue D) (vs : List (NamedValue D))
      (r : Result (NamedValue D)) (rest : Answer D)
      → FiniteRow f row v
      → get_value (get_name v) row f ≡ ok text
      → set_from_string lib text v ≡ r
      → (rest.1 ≡ none → AllLoaded f row vs rest.0)
      → (set_next lib r (v ∷ vs) rest).1 ≡ none
      → AllLoaded f row (v ∷ vs) (set_next lib r (v ∷ vs) rest).0
  unfolding set_next
  set_next-AllLoaded f row text v vs (err e) rest k g s h n = ground (arith, n)
  set_next-AllLoaded f row text v vs (ok w) (ws, thrown) k g s h n =
      ((text, g, s, subst Passes s (set_from_string-Passes text v (k text g))), h n)

  set_got-AllLoaded :
      (f : CsvFile) (row : ℕ) (v : NamedValue D) (vs : List (NamedValue D)) (r : Result Text)
      (rest : Answer D)
      → FiniteRow f row v
      → get_value (get_name v) row f ≡ r
      → (rest.1 ≡ none → AllLoaded f row vs rest.0)
      → (set_got lib r v vs rest).1 ≡ none
      → AllLoaded f row (v ∷ vs) (set_got lib r v vs rest).0
  unfolding set_got
  set_got-AllLoaded f row v vs (err e) rest k g h n = ground (arith, n)
  set_got-AllLoaded f row v vs (ok text) rest k g h n =
      set_next-AllLoaded f row text v vs (set_from_string lib text v) rest k g refl h n

  -- A read of a row that throws nothing sets every value of the map to what the cell of its column
  -- converts to, and every value then passes its check, if the cells convert to finite numbers only.
  pub set_map_values_from_file-AllLoaded :
      (m : List (NamedValue D)) (f : CsvFile) (row : ℕ)
      → All (FiniteRow f row) m
      → (set_map_values_from_file lib m f row).1 ≡ none
      → AllLoaded f row m (set_map_values_from_file lib m f row).0
  unfolding set_map_values_from_file
  set_map_values_from_file-AllLoaded [] f row k n = refl
  set_map_values_from_file-AllLoaded (v ∷ vs) f row (k, ks) n =
      set_got-AllLoaded f row v vs (get_value (get_name v) row f)
        (set_map_values_from_file lib vs f row) k refl
        (set_map_values_from_file-AllLoaded vs f row ks) n
