-- ===== src/Telemetry/Compare/Examples.antt =====
-- A comparison of concrete items.
use Prim.Native.String.{String}
use text.Mathlib.Text
use ts_m2cellcpp.Prelude.{
  ℕ, ◌≡◌, ◌<◌, ◌↔◌, refl, true, ◌==◌, List, [], ◌∷◌, All, if◌then◌else◌, arith,
}
use ts_m2cellcpp.Telemetry.TelemetryItem.{ItemMap}
use ts_m2cellcpp.Telemetry.TelemetryMap.{net_moments_total}
use ts_m2cellcpp.Telemetry.Examples.{forces}
use ts_m2cellcpp.Telemetry.Compare.{compare_maps}
use ts_m2cellcpp.Telemetry.Compare.Sorted.{Order}
use ts_m2cellcpp.Telemetry.Compare.Laws.{WellFormed, compare_maps_iff}

-- The order of the keys that occur.
rank : String → ℕ
rank k =
    if Text.◌==◌ k "fx"
    then 1
    else if Text.◌==◌ k "fy"
    then 2
    else if Text.◌==◌ k "fz"
    then 3
    else if Text.◌==◌ k "mx"
    then 4
    else if Text.◌==◌ k "my"
    then 5
    else if Text.◌==◌ k "mz"
    then 6
    else if Text.◌==◌ k "netForcesTotal"
    then 7
    else 8

abbrev Ranked : String → String → Type 0
Ranked i j = rank i < rank j

same_number : (x y : ℕ) → ((x == y) ≡ true) ↔ (x ≡ y)
same_number x y = ground arith

ranked-Order : Order Ranked
ranked-Order = record { irreflexive = λ k h. omega arith; transitive = λ i j k h g. omega arith }

abbrev two_items : List (ItemMap ℕ)
two_items = forces ∷ net_moments_total 7 ∷ []

two_items-WellFormed :
    All (WellFormed (λ (x y : ℕ). x == y) same_number Ranked ranked-Order) two_items
unfolding rank
two_items-WellFormed = (
  (((omega arith, (omega arith, tt)), ((omega arith, tt), (tt, tt))), (refl, (refl, (refl, tt)))),
  (
    (((omega arith, (omega arith, tt)), ((omega arith, tt), (tt, tt))), (refl, (refl, (refl, tt)))),
    tt,
  ),
)

compare_maps_iff_example : compare_maps (λ (x y : ℕ). x == y) two_items two_items ≡ true
unfolding rank
compare_maps_iff_example =
    (compare_maps_iff (λ (x y : ℕ). x == y) same_number Ranked ranked-Order two_items two_items
        ((omega arith, tt), (tt, tt)) ((omega arith, tt), (tt, tt)) two_items-WellFormed
        two_items-WellFormed).1
      refl
