-- ===== src/Telemetry/Compare/Sorted.antt =====
-- Maps in the order of their keys: two of one size, of which one holds the other, are equal.
use Prim.Native.String.{String}
use text.Mathlib.Text
use text.Mathlib.TextEquality.{eq_iff}
use text.Mathlib.TextPositions.{eq_refl}
use ts_m2cellcpp.Prelude.{
  ◌≡◌, ◌≤◌, ◌↔◌, refl, sym, ap, ◌∙◌, subst, inl, inr, Bool, true, false, Bool-cases, List, [], ◌∷◌,
  length, some, All, arith,
}
use ts_m2cellcpp.Telemetry.Compare.{find_id, matches, compare_elements, compare_telemetry_item_maps}

-- The order of the keys of a map.
pub record Order (lt : String → String → Type 0) : Type 0 where
  pub irreflexive : (k : String) → ¬ lt k k
  pub transitive : (i j k : String) → lt i j → lt j k → lt i k

module _ {A : Type 0} (id_of : A → String) (lt : String → String → Type 0) (order : Order lt) where
  abbrev pub Above : String → List A → Type 0
  Above k xs = All (λ (a : A). lt k (id_of a)) xs

  abbrev pub Sorted : List A → Type 0
  Sorted [] = Unit
  Sorted (a ∷ xs) = Above (id_of a) xs × Sorted xs

  abbrev pub FoundIn : List A → List A → Type 0
  FoundIn ys xs = All (λ (a : A). find_id id_of (id_of a) ys ≡ some a) xs

  lt_not_eq : (i j : String) → lt i j → Text.◌==◌ i j ≡ false
  lt_not_eq i j h = elim (Bool-cases (Text.◌==◌ i j)) [
    | inl e ↦
        let same : i ≡ j = ground (arith, eq_iff i j, e) in
        elim (order.irreflexive i (subst (λ k. lt i k) (sym same) h)) [ ]
    | inr e ↦ e
  ]

  Above-trans : (i j : String) (xs : List A) → lt i j → Above j xs → Above i xs
  Above-trans i j [] h k = tt
  Above-trans i j (a ∷ xs) h (k, ks) = (order.transitive i j (id_of a) h k, Above-trans i j xs h ks)

  -- An element that is found stands above what its map stands above.
  find_id-lt :
      (k i : String) (a : A) (ys : List A)
      → Above i ys
      → find_id id_of k ys ≡ some a
      → lt i (id_of a)
  unfolding find_id
  find_id-lt k i a [] h e = ground (arith, e)
  find_id-lt k i a (b ∷ ys) (h, hs) e = elim (Bool-cases (Text.◌==◌ (id_of b) k)) [
    | inl c ↦ subst (λ x. lt i (id_of x)) (ground (arith, e, c)) h
    | inr c ↦ find_id-lt k i a ys hs (rw c at e)
  ]

  FoundIn-tail : (b : A) (ys xs : List A) → Above (id_of b) xs → FoundIn (b ∷ ys) xs → FoundIn ys xs
  unfolding find_id
  FoundIn-tail b ys [] h f = tt
  FoundIn-tail b ys (a ∷ xs) (h, hs) (f, fs) =
      (rw (lt_not_eq (id_of b) (id_of a) h) at f, FoundIn-tail b ys xs hs fs)

  -- `xs` has no more elements than `ys`, which holds them, and the same ones if it has xs many.
  FoundIn-Sorted :
      (ys xs : List A)
      → Sorted xs
      → Sorted ys
      → FoundIn ys xs
      → (length xs ≤ length ys) × (length xs ≡ length ys → xs ≡ ys)
  unfolding find_id
  FoundIn-Sorted [] [] p q f = (omega arith, λ e. refl)
  FoundIn-Sorted [] (a ∷ xs) p q (f, fs) = ground (arith, f)
  FoundIn-Sorted (b ∷ ys) [] p q f = (omega arith, λ e. ground (arith, e))
  FoundIn-Sorted (b ∷ ys) (a ∷ xs) (p, ps) (q, qs) (f, fs) =
      elim (Bool-cases (Text.◌==◌ (id_of b) (id_of a))) [
        | inl c ↦
            let e : b ≡ a = ground (arith, f, c) in
            let above : Above (id_of b) xs = subst (λ x. Above (id_of x) xs) (sym e) p in
            let (h, k) = FoundIn-Sorted ys xs ps qs (FoundIn-tail b ys xs above fs) in
            (omega arith, λ n. ap (λ zs. a ∷ zs) (k (ground (arith, n))) ∙ ap (λ x. x ∷ ys) (sym e))
        | inr c ↦
            let g : find_id id_of (id_of a) ys ≡ some a = rw c at f in
            let l = find_id-lt (id_of a) (id_of b) a ys q g in
            let (h, k) =
              FoundIn-Sorted ys (a ∷ xs) (p, ps) qs
                (g, FoundIn-tail b ys xs (Above-trans (id_of b) (id_of a) xs l p) fs) in
            (omega arith, λ n. ground (arith, h, n))
      ]

  FoundIn-behind :
      (b : A) (ys xs : List A) → Above (id_of b) xs → FoundIn ys xs → FoundIn (b ∷ ys) xs
  unfolding find_id
  FoundIn-behind b ys [] h f = tt
  FoundIn-behind b ys (a ∷ xs) (h, hs) (f, fs) =
      (rw (lt_not_eq (id_of b) (id_of a) h) f, FoundIn-behind b ys xs hs fs)

  FoundIn-self : (xs : List A) → Sorted xs → FoundIn xs xs
  unfolding find_id
  FoundIn-self [] h = tt
  FoundIn-self (a ∷ xs) (h, hs) =
      (rw (eq_refl (id_of a)) refl, FoundIn-behind a xs xs h (FoundIn-self xs hs))

  -- Of elements with `P`, those are the same that `compare` says are.
  module _ (compare : A → A → Bool) (P : A → Type 0)
      (same : (a b : A) → id_of a ≡ id_of b → P a → P b → (compare a b ≡ true) ↔ (a ≡ b)) where
    matches_iff :
        (a : A) (ys : List A)
        → P a
        → All P ys
        → (matches compare a (find_id id_of (id_of a) ys) ≡ true)
          ↔ (find_id id_of (id_of a) ys ≡ some a)
    unfolding find_id
    matches_iff a [] p q = (λ h. ground (arith, h), λ h. ground (arith, h))
    matches_iff a (b ∷ ys) p (q, qs) = elim (Bool-cases (Text.◌==◌ (id_of b) (id_of a))) [
      | inl c ↦
          let e : id_of a ≡ id_of b = ground (arith, eq_iff (id_of b) (id_of a), c) in
          rw c
            (λ h. ap some (sym ((same a b e p q).0 h)), λ h. (same a b e p q).1 (ground (arith, h)))
      | inr c ↦ rw c (matches_iff a ys p qs)
    ]

    compare_elements-FoundIn :
        (xs ys : List A)
        → All P xs
        → All P ys
        → (compare_elements id_of compare xs ys ≡ true) ↔ FoundIn ys xs
    unfolding compare_elements
    compare_elements-FoundIn [] ys p q = (λ h. tt, λ h. refl)
    compare_elements-FoundIn (a ∷ xs) ys (p, ps) q =
        let (f, g) = matches_iff a ys p q in
        let (i, j) = compare_elements-FoundIn xs ys ps q in
        (λ h. (f (ground (arith, h)), i (ground (arith, h))), λ (e, h). ground (arith, g e, j h))

    -- Two maps in the order of their keys compare as equal exactly when they are.
    pub compare_telemetry_item_maps_iff :
        (xs ys : List A)
        → Sorted xs
        → Sorted ys
        → All P xs
        → All P ys
        → (compare_telemetry_item_maps id_of compare xs ys ≡ true) ↔ (xs ≡ ys)
    unfolding compare_telemetry_item_maps
    compare_telemetry_item_maps_iff xs ys s t p q =
        let (f, g) = compare_elements-FoundIn xs ys p q in
        (
          λ h. (FoundIn-Sorted ys xs s t (f (ground (arith, h)))).1 (ground (arith, h)),
          λ e.
              let i : FoundIn ys xs = subst (λ zs. FoundIn zs xs) e (FoundIn-self xs s) in
              ground (arith, ap length e, g i),
        )
