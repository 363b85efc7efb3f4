-- ===== src/Telemetry/TelemetryItem/Laws.antt =====
-- What an item writes, an item of the same layout reads.
use Prim.Native.String.{String}
use text.Mathlib.TextPositions.{eq_refl}
use ts_m2cellcpp.Prelude.{
  ◌≡◌, ◌≢◌, refl, sym, ap, ◌∙◌, Bool, true, false, List, [], ◌∷◌, some, ◌>>=◌, All, ok, if_true,
}
use ts_m2cellcpp.Telemetry.Json.{string, is_string, shape, Json}
use ts_m2cellcpp.Telemetry.TelemetryItem.{
  Item, ItemMap, fits, set_vals, get_json, set_got, set_at, set_from_json, merge_items,
  build_json_from_map, and_then, set_items, is_id, check_id_correct, set_map_from_json,
}

module _ {D : Type 0} where
  -- Two items with the same id, size and type, of which the first has the size it says.
  pub record Alike (a b : Item D) : Type 0 where
    pub same_id : a.id ≡ b.id
    pub same_size : a.size ≡ b.size
    pub same_shape : shape a.val ≡ shape b.val
    pub sized : fits b.size a.val ≡ true

  abbrev pub AllAlike : List (Item D) → List (Item D) → Type 0
  AllAlike [] [] = Unit
  AllAlike (a ∷ xs) (b ∷ ys) = Alike a b × AllAlike xs ys
  AllAlike _ _ = ⊥

  -- No two items have one id, and none has "id".
  abbrev pub Fresh : String → List (Item D) → Type 0
  Fresh k items = All (λ (i : Item D). k ≢ i.id) items

  abbrev pub Distinct : List (Item D) → Type 0
  Distinct [] = Unit
  Distinct (i ∷ is) = Fresh i.id is × Distinct is

  Alike-set_vals : (a b : Item D) → Alike a b → set_vals a.val b ≡ (a, true)
  unfolding set_vals
  Alike-set_vals a b h =
      if_true (λ r. r ≡ (a, true)) (fits b.size a.val) (record b { val = a.val }, true) (b, false)
        h.sized (cc (h.same_id, h.same_size))

module _ {D J V : Type 0} (lib : Json D J V) where
  -- The object has the value of the item.
  abbrev Carries : J → Item D → Type 0
  Carries js a = lib.at a.id js ≡ some (lib.to_json a.val)

  Carries-set_from_json :
      (js : J) (a b : Item D) → Carries js a → Alike a b → set_from_json lib js b ≡ (a, ok true)
  unfolding set_from_json set_at set_got
  Carries-set_from_json js a b c h =
      ap (λ k. set_at lib (lib.at k js) b) (sym h.same_id)
      ∙ ap (λ o. set_at lib o b) c
      ∙ ap (λ t. set_got lib (lib.get t (lib.to_json a.val)) b) (sym h.same_shape)
      ∙ ap (λ o. set_got lib o b) (lib.get-to_json a.val)
      ∙ ap (λ (r : Item D × Bool). (r.0, ok r.1)) (Alike-set_vals a b h)

  Carries-set_items :
      (js : J) (xs ys : List (Item D))
      → All (Carries js) xs
      → AllAlike xs ys
      → set_items lib js ys ≡ (xs, ok true)
  unfolding set_items and_then
  Carries-set_items js [] [] c h = refl
  Carries-set_items js [] (b ∷ ys) c h = elim h [ ]
  Carries-set_items js (a ∷ xs) [] c h = elim h [ ]
  Carries-set_items js (a ∷ xs) (b ∷ ys) (c, cs) (h, hs) =
      rw (Carries-set_from_json js a b c h, Carries-set_items js xs ys cs hs) refl

  -- A key that none of the items has is left as it was.
  at-merge_items-Fresh :
      (k : String) (items : List (Item D)) (js : J)
      → Fresh k items
      → lib.at k (merge_items lib items js) ≡ lib.at k js
  unfolding merge_items get_json
  at-merge_items-Fresh k [] js f = refl
  at-merge_items-Fresh k (i ∷ is) js (n, f) =
      at-merge_items-Fresh k is _ f
      ∙ lib.at-merge_patch_none k js _
          (lib.at-set_other k i.id (lib.to_json i.val) lib.empty n ∙ lib.at-empty k)

  Carries-merge_items :
      (items : List (Item D)) (js : J)
      → Distinct items
      → All (Carries (merge_items lib items js)) items
  unfolding merge_items get_json
  Carries-merge_items [] js d = tt
  Carries-merge_items (i ∷ is) js (f, d) = (
    at-merge_items-Fresh i.id is _ f
        ∙ lib.at-merge_patch_some i.id js _ i.val (lib.at-set i.id (lib.to_json i.val) lib.empty),
    Carries-merge_items is _ d,
  )

  pub at-build_json_from_map :
      (m : ItemMap D)
      → Fresh "id" m.ti_map
      → lib.at "id" (build_json_from_map lib m) ≡ some (lib.to_json (string m.id))
  unfolding build_json_from_map
  at-build_json_from_map m f =
      at-merge_items-Fresh "id" m.ti_map (lib.set "id" (lib.to_json (string m.id)) lib.empty) f
      ∙ lib.at-set "id" (lib.to_json (string m.id)) lib.empty

  pub id-build_json_from_map :
      (m : ItemMap D)
      → Fresh "id" m.ti_map
      → (lib.at "id" (build_json_from_map lib m) >>= lib.get is_string) ≡ some (string m.id)
  unfolding build_json_from_map
  id-build_json_from_map m f =
      rw
        (
          at-merge_items-Fresh "id" m.ti_map (lib.set "id" (lib.to_json (string m.id)) lib.empty) f,
          lib.at-set "id" (lib.to_json (string m.id)) lib.empty,
          lib.get-to_json (string m.id),
        )
        refl

  id-build :
      (m : ItemMap D)
      → Fresh "id" m.ti_map
      → check_id_correct lib (build_json_from_map lib m) m.id ≡ true
  unfolding check_id_correct is_id
  id-build m f = rw (id-build_json_from_map m f) (eq_refl m.id)

  -- Read what was written: from the object of one map of items, a map with the same id whose items
  -- have the same ids, sizes and types becomes that map, and the answer is true. The ids of the items
  -- are distinct and none is "id".
  pub set_map_from_json-build_json_from_map :
      (a b : ItemMap D)
      → a.id ≡ b.id
      → Distinct a.ti_map
      → Fresh "id" a.ti_map
      → AllAlike a.ti_map b.ti_map
      → set_map_from_json lib (build_json_from_map lib a) b ≡ (a, ok true)
  unfolding set_map_from_json build_json_from_map
  set_map_from_json-build_json_from_map a b e d f h =
      let js = build_json_from_map lib a in
      let read =
        Carries-set_items js a.ti_map b.ti_map
          (Carries-merge_items a.ti_map (lib.set "id" (lib.to_json (string a.id)) lib.empty) d) h in
      rw (sym e, id-build a f, read) refl
