-- ===== src/Telemetry/TelemetryCom/Layout.antt =====
-- The ids, the types and the sizes of the items of the server outlast every client.
use Prim.Native.String.{String}
use text.Mathlib.Text
use ts_m2cellcpp.Prelude.{
  Parsed, parsed, parse_error, too_large, range_error, bug, undefined_behaviour, ℕ, ◌≡◌, refl, sym,
  ap, ◌∙◌, inl, inr, true, Bool-cases, List, [], ◌∷◌, Option, none, some, Result, ok, err,
  Exception, if_both, arith,
}
use ts_m2cellcpp.Util.CsvFile.{Text}
use ts_m2cellcpp.Telemetry.Json.{
  Value, double, boolean, string, doubles, ints, shape, is_double, Json,
}
use ts_m2cellcpp.Telemetry.TelemetryItem.{Item, ItemMap, fits}
use ts_m2cellcpp.Telemetry.TelemetryItem.Laws.{Alike, AllAlike}
use ts_m2cellcpp.Telemetry.TelemetryMap.Layout.{
  SameLayout, SameLayout-trans, SameLayout-self, set_item_from_json-SameLayout,
}
use ts_m2cellcpp.Telemetry.TelemetryCom.{
  Texts, Reading, reading, thrown, undefined, no_back, kept, message, take_byte, and_read,
  read_bytes, item_val, put_val, map_val, put_map_val, copy_elevation, set_parsed,
  set_item_from_json_str, updated, server_message, serv_conn_reader,
}

module _ {D : Type 0} where
  -- The value, if it is there, is a double.
  abbrev pub IsDouble : Option (Value D) → Type 0
  IsDouble o = (v : Value D) → o ≡ some v → shape v ≡ is_double

  IsDouble_alike : (a b : Item D) → Alike a b → IsDouble (some b.val) → IsDouble (some a.val)
  IsDouble_alike a b h d v e = ap shape (cc e) ∙ h.same_shape ∙ d b.val refl

  item_val-IsDouble :
      (k : String) (xs ys : List (Item D))
      → AllAlike xs ys
      → IsDouble (item_val k ys)
      → IsDouble (item_val k xs)
  item_val-IsDouble k [] ys h d = λ v e. ground (arith, e)
  item_val-IsDouble k (x ∷ xs) [] h d = elim h [ ]
  item_val-IsDouble k (x ∷ xs) (y ∷ ys) (h, hs) d = elim (Bool-cases (Text.◌==◌ y.id k)) [
    | inl c ↦ rw (h.same_id, c) (IsDouble_alike x y h (rw c at d))
    | inr c ↦ rw (h.same_id, c) (item_val-IsDouble k xs ys hs (rw c at d))
  ]

  map_val-IsDouble :
      (id k : String) (ms ns : List (ItemMap D))
      → SameLayout ms ns
      → IsDouble (map_val id k ns)
      → IsDouble (map_val id k ms)
  map_val-IsDouble id k [] ns h d = λ v e. ground (arith, e)
  map_val-IsDouble id k (m ∷ ms) [] h d = elim h [ ]
  map_val-IsDouble id k (m ∷ ms) (n ∷ ns) (i, h, hs) d = elim (Bool-cases (Text.◌==◌ n.id id)) [
    | inl c ↦ rw (i, c) (item_val-IsDouble k m.ti_map n.ti_map h (rw c at d))
    | inr c ↦ rw (i, c) (map_val-IsDouble id k ms ns hs (rw c at d))
  ]

  double-fits : (n : ℕ) (v : Value D) → shape v ≡ is_double → fits n v ≡ true
  double-fits n (double x) e = refl
  double-fits n (boolean x) e = ground (arith, e)
  double-fits n (string x) e = ground (arith, e)
  double-fits n (doubles x) e = ground (arith, e)
  double-fits n (ints x) e = ground (arith, e)

  put_val-AllAlike :
      (k : String) (v : Value D) (is : List (Item D))
      → shape v ≡ is_double
      → IsDouble (item_val k is)
      → AllAlike is is
      → AllAlike (put_val k v is) is
  put_val-AllAlike k v [] e d h = tt
  put_val-AllAlike k v (i ∷ is) e d (h, hs) = elim (Bool-cases (Text.◌==◌ i.id k)) [
    | inl c ↦ rw c (
      record {
        same_id = refl;
        same_size = refl;
        same_shape = e ∙ sym ((rw c at d) i.val refl);
        sized = double-fits i.size v e;
      },
      hs,
    )
    | inr c ↦ rw c (h, put_val-AllAlike k v is e (rw c at d) hs)
  ]

  put_map_val-SameLayout :
      (id k : String) (v : Value D) (ms : List (ItemMap D))
      → shape v ≡ is_double
      → IsDouble (map_val id k ms)
      → SameLayout ms ms
      → SameLayout (put_map_val id k v ms) ms
  put_map_val-SameLayout id k v [] e d h = tt
  put_map_val-SameLayout id k v (m ∷ ms) e d (i, h, hs) = elim (Bool-cases (Text.◌==◌ m.id id)) [
    | inl c ↦ rw c (refl, put_val-AllAlike k v m.ti_map e (rw c at d) h, hs)
    | inr c ↦ rw c (refl, h, put_map_val-SameLayout id k v ms e (rw c at d) hs)
  ]

  -- The two values that the elevation touches are doubles.
  pub record HasElevation (ms : List (ItemMap D)) : Type 0 where
    pub position : IsDouble (map_val "tel_elevation" "actualPosition" ms)
    pub angle : IsDouble (map_val "inclinometerAngleTma" "inclinometer" ms)

  copied-SameLayout :
      (o : Option (Value D)) (ms : List (ItemMap D))
      → IsDouble o
      → IsDouble (map_val "inclinometerAngleTma" "inclinometer" ms)
      → SameLayout ms ms
      → SameLayout
          (elim o [
            | none ↦ ms
            | some ang ↦ put_map_val "inclinometerAngleTma" "inclinometer" ang ms
          ])
          ms
  copied-SameLayout none ms d a h = h
  copied-SameLayout (some ang) ms d a h =
      put_map_val-SameLayout "inclinometerAngleTma" "inclinometer" ang ms (d ang refl) a h

  copy_elevation-SameLayout :
      (ms : List (ItemMap D))
      → HasElevation ms
      → SameLayout ms ms
      → SameLayout (copy_elevation ms) ms
  unfolding copy_elevation
  copy_elevation-SameLayout ms d h =
      copied-SameLayout (map_val "tel_elevation" "actualPosition" ms) ms d.position d.angle h

  HasElevation-layout :
      (ms ns : List (ItemMap D)) → SameLayout ms ns → HasElevation ns → HasElevation ms
  HasElevation-layout ms ns h d = record {
    position = map_val-IsDouble "tel_elevation" "actualPosition" ms ns h d.position;
    angle = map_val-IsDouble "inclinometerAngleTma" "inclinometer" ms ns h d.angle;
  }

module _ {S : Type 0} (P : S → Type 0) where
  -- What holds of the state of a reader, however far it came, while the behaviour is defined.
  abbrev pub Reads : Reading S → Type 0
  Reads (reading s in_msg) = P s
  Reads (thrown s e) = P s
  Reads (undefined s) = Unit

  and_read-Reads :
      (r : S × Option Exception) (f : S → Reading S)
      → P r.0
      → ((s : S) → P s → Reads (f s))
      → Reads (and_read r f)
  and_read-Reads (s, none) f p k = k s p
  and_read-Reads (s, some undefined_behaviour) f p k = tt
  and_read-Reads (s, some range_error) f p k = p
  and_read-Reads (s, some bug) f p k = p

  read_bytes-Reads :
      (handle : Text → S → S × Option Exception)
      → ((m : Text) (s : S) → P s → P (handle m s).0)
      → (bytes : List ℕ) (s : S) (in_msg : Text) → P s
      → Reads (read_bytes handle bytes s in_msg)
  unfolding read_bytes
  read_bytes-Reads handle k [] s in_msg p = p
  read_bytes-Reads handle k (c ∷ cs) s in_msg p =
      elim (take_byte c in_msg)
        as (λ t. Reads (elim t [
          | no_back ↦ undefined s
          | kept more ↦ read_bytes handle cs s more
          | message m ↦ and_read (handle m s) (λ t. read_bytes handle cs t [])
        ])) [
          | no_back ↦ tt
          | kept more ↦ read_bytes-Reads handle k cs s more p
          | message m ↦
              and_read-Reads (handle m s) (λ t. read_bytes handle cs t []) (k m s p)
                (λ t q. read_bytes-Reads handle k cs t [] q)
        ]

module _ {D J V : Type 0} (lib : Json D J V) (texts : Texts J) where
  parsed-SameLayout :
      (o : Parsed (Option J)) (ms : List (ItemMap D))
      → SameLayout ms ms
      → SameLayout (set_parsed lib texts o ms).0 ms
  unfolding set_parsed
  parsed-SameLayout parse_error ms h = h
  parsed-SameLayout too_large ms h = h
  parsed-SameLayout (parsed none) ms h = h
  parsed-SameLayout (parsed (some js)) ms h = set_item_from_json-SameLayout lib js ms h

  updated-SameLayout :
      (r : List (ItemMap D) × Result (Option String)) (ms : List (ItemMap D))
      → SameLayout r.0 ms
      → HasElevation ms
      → SameLayout (updated r).0 ms
  unfolding updated
  updated-SameLayout (map, err e) ms h d = h
  updated-SameLayout (map, ok none) ms h d = h
  updated-SameLayout (map, ok (some id)) ms h d =
      if_both (λ (x : List (ItemMap D)). SameLayout x ms) (Text.◌==◌ id "tel_elevation")
        (SameLayout-trans (copy_elevation map) map ms
          (copy_elevation-SameLayout map (HasElevation-layout map ms h d)
            (SameLayout-self map ms h))
          h)
        h

  server_message-SameLayout :
      (s : Text) (map ms : List (ItemMap D))
      → HasElevation ms
      → SameLayout map ms
      → SameLayout (server_message lib texts s map).0 ms
  unfolding server_message set_item_from_json_str
  server_message-SameLayout s map ms d h =
      updated-SameLayout (set_item_from_json_str lib texts s map) ms
        (SameLayout-trans (set_item_from_json_str lib texts s map).0 map ms
          (parsed-SameLayout (texts.parse s) map (SameLayout-self map ms h)) h)
        d

  -- Whatever bytes a client sends, unless they make the behaviour of the code undefined, as a line
  -- feed where a message starts and an object without an "id" do: the map of the server keeps its
  -- items, with their ids, and their values with their ids, types and sizes, whether the reader still
  -- reads or an exception has ended it, if every value of the map has
  -- the size that its item says, and the elevation of the telescope and the angle of the inclinometer
  -- are doubles.
  pub serv_conn_reader-SameLayout :
      (bytes : List ℕ) (map : List (ItemMap D))
      → SameLayout map map
      → HasElevation map
      → Reads (λ (ms : List (ItemMap D)). SameLayout ms map) (serv_conn_reader lib texts bytes map)
  unfolding serv_conn_reader
  serv_conn_reader-SameLayout bytes map h d =
      read_bytes-Reads (λ (ms : List (ItemMap D)). SameLayout ms map) (server_message lib texts)
        (λ s ms k. server_message-SameLayout s ms map d k) bytes map [] h
