-- ===== src/Vis/Examples.antt =====
-- The check of the tangential loads on concrete numbers.
use ts_m2cellcpp.Prelude.{
  ℕ, ◌+◌, ◌*◌, ◌≡◌, refl, Bool, true, false, not, ltb, List, [], ◌∷◌, Option, none, some, inl, inr,
  if◌then◌else◌, arith,
}
use ts_m2cellcpp.Util.CsvFile.{Text, same_text}
use ts_m2cellcpp.Util.NamedValue.{NamedValue, named_double, set_value_read, set_from_string}
use ts_m2cellcpp.Util.Examples.{numbers, digits}
use ts_m2cellcpp.Config.{config_exception, Checked, value, throws}
use ts_m2cellcpp.Vis.{globals, set_const_from_config}
use ts_m2cellcpp.Vis.Laws.{set_const_from_config_iff}
use ts_m2cellcpp.Vis.TangentLoadCell.{Doubles, Inputs, Constants, run}
use ts_m2cellcpp.Vis.TangentLoadCell.Laws.{Ieee, run-nan}

-- The section of the check, named "T", has "b"; the globals have "a" and "b".
get_key : Text → Text → Checked Text
get_key section key =
    if same_text section globals
    then value (49 ∷ [])
    else if same_text key (98 ∷ [])
    then value (50 ∷ [])
    else throws config_exception

abbrev const_map : ℕ → ℕ → List (NamedValue ℕ)
const_map a b =
    named_double (97 ∷ []) 1 (set_value_read a) ∷ named_double (98 ∷ []) 1 (set_value_read b) ∷ []

set_const_from_config_iff_example :
    set_const_from_config numbers get_key (84 ∷ []) (const_map 0 0) ≡ (const_map 1 2, none)
unfolding get_key digits set_from_string
set_const_from_config_iff_example =
    (set_const_from_config_iff numbers get_key (84 ∷ []) (const_map 0 0) (const_map 1 2)).1
      (inr (refl, (49 ∷ [], refl, refl)), (inl (50 ∷ [], refl, refl), tt))

-- A number a - b as the pair of a and b, and `none` for a NaN.
abbrev Number : Type 0
Number = Option (ℕ × ℕ)

both : (ℕ × ℕ → ℕ × ℕ → ℕ × ℕ) → Number → Number → Number
both f none y = none
both f (some x) none = none
both f (some x) (some y) = some (f x y)

one : (ℕ × ℕ → ℕ × ℕ) → Number → Number
one f none = none
one f (some x) = some (f x)

above : Number → Number → Bool
above none y = false
above (some x) none = false
above (some (a, b)) (some (c, d)) = ltb (c + b) (a + d)

-- Not below.
at_least : Number → Number → Bool
at_least none y = false
at_least (some x) none = false
at_least (some (a, b)) (some (c, d)) = not (ltb (a + d) (c + b))

is_none : Number → Bool
is_none none = true
is_none (some x) = false

magnitude : ℕ × ℕ → ℕ × ℕ
magnitude (a, b) = if ltb a b then (b, a) else (a, b)

-- The mirror lies flat, so its weight bears on no tangential actuator; thousandths, and a
-- cosine of one for simplicity.
doubles : Doubles Number
doubles = record {
  add = both (λ (a, b) (c, d). (a + c, b + d));
  sub = both (λ (a, b) (c, d). (a + d, b + c));
  mul = both (λ (a, b) (c, d). (a * c + b * d, a * d + b * c));
  div = both (λ x y. x);
  neg = one (λ (a, b). (b, a));
  fabs = one magnitude;
  sin = one (λ x. (0, 0));
  ge = at_least;
  gt = above;
  isnan = is_none;
  cos30_deg = some (1, 0);
  half_pi = some (1571, 0);
  four = some (4, 0);
}

both-none :
    (f : ℕ × ℕ → ℕ × ℕ → ℕ × ℕ) (x y : Number) → is_none x ≡ true → is_none (both f x y) ≡ true
unfolding both is_none
both-none f none y h = refl
both-none f (some x) y h = ground (arith, h)

both-none_right :
    (f : ℕ × ℕ → ℕ × ℕ → ℕ × ℕ) (x y : Number) → is_none y ≡ true → is_none (both f x y) ≡ true
unfolding both is_none
both-none_right f none y h = refl
both-none_right f (some x) none h = refl
both-none_right f (some x) (some y) h = ground (arith, h)

one-none : (f : ℕ × ℕ → ℕ × ℕ) (x : Number) → is_none x ≡ true → is_none (one f x) ≡ true
unfolding one is_none
one-none f none h = refl
one-none f (some x) h = ground (arith, h)

at_least-none : (x y : Number) → is_none x ≡ true → at_least x y ≡ false
unfolding at_least is_none
at_least-none none y h = refl
at_least-none (some x) y h = ground (arith, h)

above-none : (x y : Number) → is_none x ≡ true → above x y ≡ false
unfolding above is_none
above-none none y h = refl
above-none (some x) y h = ground (arith, h)

at_least-above :
    (x y : Number) → is_none x ≡ false → is_none y ≡ false → at_least x y ≡ not (above y x)
unfolding at_least above is_none
at_least-above none y h k = ground (arith, h)
at_least-above (some x) none h k = ground (arith, k)
at_least-above (some (a, b)) (some (c, d)) h k = refl

ieee : Ieee doubles
unfolding doubles
ieee = record {
  nan-add = both-none _;
  nan-sub = both-none _;
  nan-mul = both-none _;
  nan-mul_right = both-none_right _;
  nan-neg = one-none _;
  nan-fabs = one-none _;
  ge-nan = at_least-none;
  gt-nan = above-none;
  ge-gt = at_least-above;
}

abbrev limits : Constants Number
limits = record {
  const_tan_weight_error_n = some (2000, 0);
  const_load_bearing_error_n = some (1500, 0);
  const_net_moment_error_n = some (1000, 0);
  const_not_load_bearing_error_n = some (1000, 0);
  const_mirror_weight_n = some (15140, 0);
}

abbrev forces : Number → Inputs Number
forces f = record {
  in_fa1_n = f;
  in_fa2_n = f;
  in_fa3_n = f;
  in_fa4_n = f;
  in_fa5_n = f;
  in_fa6_n = f;
  in_elevation_angle = some (1571, 0);
}

run-nan_example : (run doubles limits (forces none)).out_tan_load_cell_bool ≡ false
unfolding doubles is_none
run-nan_example = run-nan doubles ieee limits (forces none) refl refl refl refl refl refl
