-- ===== src/Vis/TangentLoadCell/Laws.antt =====
-- What the check of the tangential loads detects.
use ts_m2cellcpp.Prelude.{◌≡◌, refl, Bool, true, false, not, ◌||◌}
use ts_m2cellcpp.Vis.TangentLoadCell.{Doubles, Inputs, Constants, run}

-- IEEE 754: an operation on a NaN gives one, every comparison with a NaN is false, and two numbers
-- are in an order. Only what `run` needs of it.
pub record Ieee {D : Type 0} (lib : Doubles D) : Type 0 where
  pub nan-add : (x y : D) → lib.isnan x ≡ true → lib.isnan (lib.add x y) ≡ true
  pub nan-sub : (x y : D) → lib.isnan x ≡ true → lib.isnan (lib.sub x y) ≡ true
  pub nan-mul : (x y : D) → lib.isnan x ≡ true → lib.isnan (lib.mul x y) ≡ true
  pub nan-mul_right : (x y : D) → lib.isnan y ≡ true → lib.isnan (lib.mul x y) ≡ true
  pub nan-neg : (x : D) → lib.isnan x ≡ true → lib.isnan (lib.neg x) ≡ true
  pub nan-fabs : (x : D) → lib.isnan x ≡ true → lib.isnan (lib.fabs x) ≡ true
  pub ge-nan : (x y : D) → lib.isnan x ≡ true → lib.ge x y ≡ false
  pub gt-nan : (x y : D) → lib.isnan x ≡ true → lib.gt x y ≡ false
  pub ge-gt : (x y : D) → lib.isnan x ≡ false → lib.isnan y ≡ false → lib.ge x y ≡ not (lib.gt y x)

-- The tests of `run`: the weight, the four bearing forces, the two others and the moment.
abbrev pub any_test : (a b c d e f g h : Bool) → Bool
any_test a b c d e f g h = a || (b || c || d || e) || (f || g) || h

any_test-false :
    (a b c d e f g h : Bool)
    → a ≡ false
    → b ≡ false
    → c ≡ false
    → d ≡ false
    → e ≡ false
    → f ≡ false
    → g ≡ false
    → h ≡ false
    → any_test a b c d e f g h ≡ false
any_test-false a b c d e f g h p q r s t u v w = rw (p, q, r, s, t, u, v, w) refl

module _ {D : Type 0} (lib : Doubles D) (ieee : Ieee lib) where
  abbrev pub IsNan : D → Type 0
  IsNan x = lib.isnan x ≡ true

  abbrev pub IsNumber : D → Type 0
  IsNumber x = lib.isnan x ≡ false

  fabs-ge : (x c : D) → IsNan x → lib.ge (lib.fabs x) c ≡ false
  fabs-ge x c h = ieee.ge-nan (lib.fabs x) c (ieee.nan-fabs x h)

  fabs-gt : (x c : D) → IsNan x → lib.gt (lib.fabs x) c ≡ false
  fabs-gt x c h = ieee.gt-nan (lib.fabs x) c (ieee.nan-fabs x h)

  -- The weights of the actuators, with the operations of `run` from the left.
  total-IsNan :
      (a b c d e : D)
      → IsNan a
      → IsNan (lib.sub (lib.add (lib.add (lib.add (lib.mul (lib.neg a) lib.cos30_deg) b) c) d) e)
  total-IsNan a b c d e h = ieee.nan-sub _ e (
      ieee.nan-add _ d (
        ieee.nan-add _ c
          (ieee.nan-add _ b (ieee.nan-mul (lib.neg a) lib.cos30_deg (ieee.nan-neg a h)))))

  net-IsNan :
      (a b c d e f : D)
      → IsNan a
      → IsNan (lib.add (lib.add (lib.add (lib.add (lib.add a b) c) d) e) f)
  net-IsNan a b c d e f h =
      ieee.nan-add _ f (ieee.nan-add _ e (ieee.nan-add _ d (ieee.nan-add _ c (ieee.nan-add a b h))))

  bearing-IsNan : (a : D) → IsNan a → IsNan (lib.mul lib.cos30_deg a)
  bearing-IsNan a h = ieee.nan-mul_right lib.cos30_deg a h

  -- If the six forces are NaN, no fault is detected.
  pub run-nan :
      (k : Constants D) (i : Inputs D)
      → IsNan i.in_fa1_n
      → IsNan i.in_fa2_n
      → IsNan i.in_fa3_n
      → IsNan i.in_fa4_n
      → IsNan i.in_fa5_n
      → IsNan i.in_fa6_n
      → (run lib k i).out_tan_load_cell_bool ≡ false
  unfolding run
  run-nan k i n1 n2 n3 n4 n5 n6 =
      any_test-false _ _ _ _ _ _ _ _ (fabs-ge _ _ (total-IsNan i.in_fa2_n _ _ _ _ n2))
        (fabs-ge _ _ (ieee.nan-add _ _ (bearing-IsNan i.in_fa2_n n2)))
        (fabs-ge _ _ (ieee.nan-add _ _ (bearing-IsNan i.in_fa3_n n3)))
        (fabs-ge _ _ (ieee.nan-sub _ _ (bearing-IsNan i.in_fa5_n n5)))
        (fabs-ge _ _ (ieee.nan-sub _ _ (bearing-IsNan i.in_fa6_n n6))) (fabs-gt _ _ n1)
        (fabs-gt _ _ n4) (fabs-gt _ _ (net-IsNan i.in_fa1_n _ _ _ _ _ n1))

  -- The part of the mirror's weight along the tangential actuators at an elevation, and the share of
  -- it that each of the four bearing actuators has.
  abbrev pub weight_along : Constants D → Inputs D → D
  weight_along k i =
      lib.mul (lib.sin (lib.sub lib.half_pi i.in_elevation_angle)) k.const_mirror_weight_n

  abbrev pub share : Constants D → Inputs D → D
  share k i = lib.div (weight_along k i) lib.four

  -- What the four bearing actuators carry less the weight, from the left.
  abbrev pub excess : Constants D → Inputs D → D
  excess k i =
      let up2 = lib.mul (lib.neg i.in_fa2_n) lib.cos30_deg in
      let up23 = lib.add up2 (lib.mul (lib.neg i.in_fa3_n) lib.cos30_deg) in
      let up235 = lib.add up23 (lib.mul i.in_fa5_n lib.cos30_deg) in
      lib.sub (lib.add up235 (lib.mul i.in_fa6_n lib.cos30_deg)) (weight_along k i)

  -- The load of an actuator that pulls down or up, beside its share.
  abbrev pub load_down : Constants D → Inputs D → D → D
  load_down k i force = lib.add (lib.mul lib.cos30_deg force) (share k i)

  abbrev pub load_up : Constants D → Inputs D → D → D
  load_up k i force = lib.sub (lib.mul lib.cos30_deg force) (share k i)

  -- The six forces from the left.
  abbrev pub net_force : Inputs D → D
  net_force i =
      let three = lib.add (lib.add i.in_fa1_n i.in_fa2_n) i.in_fa3_n in
      lib.add (lib.add (lib.add three i.in_fa4_n) i.in_fa5_n) i.in_fa6_n

  -- A magnitude is below a limit, or at most reaches it.
  abbrev pub Under : D → D → Type 0
  Under limit x = lib.gt limit (lib.fabs x) ≡ true

  abbrev pub UpTo : D → D → Type 0
  UpTo limit x = lib.ge limit (lib.fabs x) ≡ true

  pub record Within (k : Constants D) (i : Inputs D) : Type 0 where
    pub weight : Under k.const_tan_weight_error_n (excess k i)
    pub fa2 : Under k.const_load_bearing_error_n (load_down k i i.in_fa2_n)
    pub fa3 : Under k.const_load_bearing_error_n (load_down k i i.in_fa3_n)
    pub fa5 : Under k.const_load_bearing_error_n (load_up k i i.in_fa5_n)
    pub fa6 : Under k.const_load_bearing_error_n (load_up k i i.in_fa6_n)
    pub moment : UpTo k.const_net_moment_error_n (net_force i)
    pub fa1 : UpTo k.const_not_load_bearing_error_n i.in_fa1_n
    pub fa4 : UpTo k.const_not_load_bearing_error_n i.in_fa4_n

  -- The limits and the magnitudes that are compared.
  pub record Numeric (k : Constants D) (i : Inputs D) : Type 0 where
    pub weight_limit : IsNumber k.const_tan_weight_error_n
    pub bearing_limit : IsNumber k.const_load_bearing_error_n
    pub moment_limit : IsNumber k.const_net_moment_error_n
    pub other_limit : IsNumber k.const_not_load_bearing_error_n
    pub weight : IsNumber (lib.fabs (excess k i))
    pub fa2 : IsNumber (lib.fabs (load_down k i i.in_fa2_n))
    pub fa3 : IsNumber (lib.fabs (load_down k i i.in_fa3_n))
    pub fa5 : IsNumber (lib.fabs (load_up k i i.in_fa5_n))
    pub fa6 : IsNumber (lib.fabs (load_up k i i.in_fa6_n))
    pub moment : IsNumber (lib.fabs (net_force i))
    pub fa1 : IsNumber (lib.fabs i.in_fa1_n)
    pub fa4 : IsNumber (lib.fabs i.in_fa4_n)
