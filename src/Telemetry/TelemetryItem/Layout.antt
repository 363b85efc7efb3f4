-- ===== src/Telemetry/TelemetryItem/Layout.antt =====
-- The id, the type and the size of an item outlast every message.
use ts_m2cellcpp.Prelude.{
  ◌≡◌, refl, sym, ◌∙◌, subst, inl, inr, Bool, true, Bool-cases, List, [], ◌∷◌, Option, none, some,
  Result, ok, err,
}
use ts_m2cellcpp.Telemetry.Json.{Value, shape, Json}
use ts_m2cellcpp.Telemetry.TelemetryItem.{
  Item, ItemMap, fits, set_vals, set_got, set_at, set_from_json, and_then, set_items,
  check_id_correct, set_map_from_json,
}
use ts_m2cellcpp.Telemetry.TelemetryItem.Laws.{Alike, AllAlike}

module _ {D : Type 0} where
  Alike-trans : (a b c : Item D) → Alike a b → Alike b c → Alike a c
  Alike-trans a b c h k = record {
    same_id = h.same_id ∙ k.same_id;
    same_size = h.same_size ∙ k.same_size;
    same_shape = h.same_shape ∙ k.same_shape;
    sized = subst (λ n. fits n a.val ≡ true) k.same_size h.sized;
  }

  pub AllAlike-trans : (xs ys zs : List (Item D)) → AllAlike xs ys → AllAlike ys zs → AllAlike xs zs
  AllAlike-trans [] [] [] h k = tt
  AllAlike-trans [] [] (z ∷ zs) h k = elim k [ ]
  AllAlike-trans [] (y ∷ ys) zs h k = elim h [ ]
  AllAlike-trans (x ∷ xs) [] zs h k = elim h [ ]
  AllAlike-trans (x ∷ xs) (y ∷ ys) [] h k = elim k [ ]
  AllAlike-trans (x ∷ xs) (y ∷ ys) (z ∷ zs) (h, hs) (k, ks) =
      (Alike-trans x y z h k, AllAlike-trans xs ys zs hs ks)

  -- An item of the layout of another is sized itself.
  Alike-self : (a b : Item D) → Alike a b → Alike a a
  Alike-self a b h = record {
    same_id = refl;
    same_size = refl;
    same_shape = refl;
    sized = subst (λ n. fits n a.val ≡ true) (sym h.same_size) h.sized;
  }

  pub AllAlike-self : (xs ys : List (Item D)) → AllAlike xs ys → AllAlike xs xs
  AllAlike-self [] ys h = tt
  AllAlike-self (x ∷ xs) [] h = elim h [ ]
  AllAlike-self (x ∷ xs) (y ∷ ys) (h, hs) = (Alike-self x y h, AllAlike-self xs ys hs)

module _ {D J V : Type 0} (lib : Json D J V) where
  set_vals-Alike :
      (v : Value D) (item : Item D)
      → shape v ≡ shape item.val
      → Alike item item
      → Alike (set_vals v item).0 item
  unfolding set_vals
  set_vals-Alike v item e h = elim (Bool-cases (fits item.size v)) [
    | inl f ↦ rw f (record { same_id = refl; same_size = refl; same_shape = e; sized = f })
    | inr f ↦ rw f h
  ]

  set_got-Alike :
      (o : Option (Value D)) (item : Item D)
      → ((v : Value D) → o ≡ some v → shape v ≡ shape item.val)
      → Alike item item
      → Alike (set_got lib o item).0 item
  unfolding set_got
  set_got-Alike none item k h = h
  set_got-Alike (some v) item k h = set_vals-Alike v item (k v refl) h

  set_at-Alike : (o : Option V) (item : Item D) → Alike item item → Alike (set_at lib o item).0 item
  unfolding set_at
  set_at-Alike none item h = h
  set_at-Alike (some x) item h =
      set_got-Alike (lib.get (shape item.val) x) item (lib.get_shape (shape item.val) x) h

  and_then-AllAlike :
      (r : Item D × Result Bool) (s : List (Item D) × Result Bool) (item : Item D)
      (items : List (Item D))
      → Alike r.0 item
      → AllAlike s.0 items
      → AllAlike items items
      → AllAlike (and_then lib r s items).0 (item ∷ items)
  unfolding and_then
  and_then-AllAlike (after, err e) s item items h k l = (h, l)
  and_then-AllAlike (after, ok b) (rest, err e) item items h k l = (h, k)
  and_then-AllAlike (after, ok b) (rest, ok c) item items h k l = (h, k)

  set_items-AllAlike :
      (js : J) (items : List (Item D))
      → AllAlike items items
      → AllAlike (set_items lib js items).0 items
  unfolding set_items set_from_json
  set_items-AllAlike js [] h = tt
  set_items-AllAlike js (item ∷ items) (h, hs) =
      and_then-AllAlike (set_from_json lib js item) (set_items lib js items) item items
        (set_at-Alike (lib.at item.id js) item h) (set_items-AllAlike js items hs) hs

  -- A message leaves the values of a map of their types and sizes.
  pub set_map_from_json-AllAlike :
      (js : J) (m : ItemMap D)
      → AllAlike m.ti_map m.ti_map
      → AllAlike (set_map_from_json lib js m).0.ti_map m.ti_map
  unfolding set_map_from_json
  set_map_from_json-AllAlike js m h = elim (Bool-cases (check_id_correct lib js m.id)) [
    | inl c ↦ rw c (set_items-AllAlike js m.ti_map h)
    | inr c ↦ rw c h
  ]

  pub set_map_from_json-id : (js : J) (m : ItemMap D) → (set_map_from_json lib js m).0.id ≡ m.id
  unfolding set_map_from_json
  set_map_from_json-id js m = elim (Bool-cases (check_id_correct lib js m.id)) [
    | inl c ↦ rw c refl
    | inr c ↦ rw c refl
  ]
