-- ===== src/Telemetry/Compare/Laws.antt =====
-- Two maps of the telemetry compare as equal exactly when they are.
use Prim.Native.String.{String}
use text.Mathlib.Text
use text.Mathlib.TextEquality.{eq_iff}
use text.Mathlib.TextPositions.{eq_refl}
use ts_m2cellcpp.Prelude.{
  ℕ, ◌≡◌, ◌↔◌, refl, sym, ap, ◌∙◌, subst, Bool, true, false, List, [], ◌∷◌, All, ℤ, pos, negsuc,
  arith,
}
use ts_m2cellcpp.Util.NamedValue.{same_bool, same_int}
use ts_m2cellcpp.Telemetry.Json.{Value, double, boolean, string, doubles, ints}
use ts_m2cellcpp.Telemetry.TelemetryItem.{Item, ItemMap}
use ts_m2cellcpp.Telemetry.Compare.{
  same_list, compare_value, compare_item, item_id, map_id, class_of, compare_telemetry_item_maps,
  compare_items_template, compare_maps,
}
use ts_m2cellcpp.Telemetry.Compare.Sorted.{Order, Sorted, compare_telemetry_item_maps_iff}

same_bool_iff : (x y : Bool) → (same_bool x y ≡ true) ↔ (x ≡ y)
same_bool_iff true true = (λ h. refl, λ e. refl)
same_bool_iff true false = (λ h. sym h, λ e. sym e)
same_bool_iff false true = (λ h. h, λ e. e)
same_bool_iff false false = (λ h. refl, λ e. refl)

same_int_iff : (x y : ℤ) → (same_int x y ≡ true) ↔ (x ≡ y)
same_int_iff (pos m) (pos n) = (λ h. ground (arith, h), λ e. ground (arith, e))
same_int_iff (negsuc m) (negsuc n) = (λ h. ground (arith, h), λ e. ground (arith, e))
same_int_iff (pos m) (negsuc n) = (λ h. ground (arith, h), λ e. ground (arith, e))
same_int_iff (negsuc m) (pos n) = (λ h. ground (arith, h), λ e. ground (arith, e))

same_list_iff :
    {A : Type 0} (same : A → A → Bool)
    → ((x y : A) → (same x y ≡ true) ↔ (x ≡ y))
    → (xs ys : List A) → (same_list same xs ys ≡ true) ↔ (xs ≡ ys)
same_list_iff same s [] [] = (λ h. refl, λ e. refl)
same_list_iff same s [] (y ∷ ys) = (λ h. ground (arith, h), λ e. ground (arith, e))
same_list_iff same s (x ∷ xs) [] = (λ h. ground (arith, h), λ e. ground (arith, e))
same_list_iff same s (x ∷ xs) (y ∷ ys) =
    let (f, g) = s x y in
    let (i, j) = same_list_iff same s xs ys in
    (
      λ h.
          let e : x ≡ y = f (ground (arith, h)) in
          let k : xs ≡ ys = i (ground (arith, h)) in ground (arith, e, k),
      λ e.
          let p : same x y ≡ true = g (ground (arith, e)) in
          let q : same_list same xs ys ≡ true = j (ground (arith, e)) in ground (arith, p, q),
    )

-- Only a vector has a size.
abbrev pub SizeOf : {D : Type 0} → ℕ → Value D → Type 0
SizeOf n (doubles xs) = Unit
SizeOf n (ints xs) = Unit
SizeOf n _ = n ≡ 0

-- `eq` is the equality of the doubles, of which none is a NaN or a negative zero.
module _ {D : Type 0} (eq : D → D → Bool) (same : (x y : D) → (eq x y ≡ true) ↔ (x ≡ y)) where
  compare_value_iff :
      (m n : ℕ) (v w : Value D)
      → SizeOf m v
      → SizeOf n w
      → (compare_value eq m n v w ≡ true) ↔ (m ≡ n) × (v ≡ w)
  compare_value_iff m n (double x) (double y) p q =
      (λ h. (p ∙ sym q, ap double ((same x y).0 h)), λ (e, k). (same x y).1 (ground (arith, k)))
  compare_value_iff m n (boolean x) (boolean y) p q = (
    λ h. (p ∙ sym q, ap boolean ((same_bool_iff x y).0 h)),
    λ (e, k). (same_bool_iff x y).1 (ground (arith, k)),
  )
  compare_value_iff m n (string x) (string y) p q = (
    λ h. (p ∙ sym q, ap string (ground (arith, eq_iff x y, h))),
    λ (e, k). ground (arith, eq_iff x y, k),
  )
  compare_value_iff m n (doubles xs) (doubles ys) p q =
      let (f, g) = same_list_iff eq same xs ys in
      (
        λ h. (ground (arith, h), ap doubles (f (ground (arith, h)))),
        λ (e, k). let r : same_list eq xs ys ≡ true = g (ground (arith, k)) in ground (arith, e, r),
      )
  compare_value_iff m n (ints xs) (ints ys) p q =
      let (f, g) = same_list_iff same_int same_int_iff xs ys in
      (
        λ h. (ground (arith, h), ap ints (f (ground (arith, h)))),
        λ (e, k).
            let r : same_list same_int xs ys ≡ true = g (ground (arith, k)) in ground (arith, e, r),
      )
  compare_value_iff m n _ _ p q = (λ h. ground (arith, h), λ (e, k). ground (arith, k))

  abbrev pub Sized : Item D → Type 0
  Sized a = SizeOf a.size a.val

  compare_item_iff : (a b : Item D) → Sized a → Sized b → (compare_item eq a b ≡ true) ↔ (a ≡ b)
  unfolding compare_item
  compare_item_iff a b p q =
      let (f, g) = compare_value_iff a.size b.size a.val b.val p q in
      (
        λ h.
            let i : a.id ≡ b.id = ground (arith, eq_iff a.id b.id, h) in
            let (n, v) = f (ground (arith, h)) in λ t. record { id = i t; size = n t; val = v t },
        λ e. ground (
          arith,
          eq_iff a.id b.id,
          ap (λ (x : Item D). x.id) e,
          g (ap (λ (x : Item D). x.size) e, ap (λ (x : Item D). x.val) e),
        ),
      )

  module _ (lt : String → String → Type 0) (order : Order lt) where
    -- The values are in the order of their keys.
    abbrev pub WellFormed : ItemMap D → Type 0
    WellFormed m = Sorted item_id lt order m.ti_map × All Sized m.ti_map

    values_iff :
        (a b : ItemMap D)
        → WellFormed a
        → WellFormed b
        → (compare_telemetry_item_maps item_id (compare_item eq) a.ti_map b.ti_map ≡ true)
          ↔ (a.ti_map ≡ b.ti_map)
    values_iff a b (s, p) (t, q) =
        compare_telemetry_item_maps_iff item_id lt order (compare_item eq) Sized
          (λ a b e. compare_item_iff a b) a.ti_map b.ti_map s t p q

    compare_items_template_iff :
        (a b : ItemMap D)
        → a.id ≡ b.id
        → WellFormed a
        → WellFormed b
        → (compare_items_template eq a b ≡ true) ↔ (a ≡ b)
    unfolding compare_items_template
    compare_items_template_iff a b i p q =
        let (f, g) = values_iff a b p q in
        let same_class : Text.◌==◌ (class_of a.id) (class_of b.id) ≡ true =
          subst (λ k. Text.◌==◌ (class_of a.id) (class_of k) ≡ true) i (eq_refl (class_of a.id)) in
        rw same_class (
          λ h. let v = f h in λ t. record { id = i t; ti_map = v t },
          λ e. g (ap (λ (x : ItemMap D). x.ti_map) e),
        )

    -- Two maps of telemetry compare as equal exactly when they have the same items with the same
    -- values, if both are in the order of their keys, as are the values of each item, only vectors
    -- have a size, and the comparison of doubles tells exactly those apart that differ.
    pub compare_maps_iff :
        (ms ns : List (ItemMap D))
        → Sorted map_id lt order ms
        → Sorted map_id lt order ns
        → All WellFormed ms
        → All WellFormed ns
        → (compare_maps eq ms ns ≡ true) ↔ (ms ≡ ns)
    unfolding compare_maps
    compare_maps_iff ms ns =
        compare_telemetry_item_maps_iff map_id lt order (compare_items_template eq) WellFormed
          compare_items_template_iff ms ns
