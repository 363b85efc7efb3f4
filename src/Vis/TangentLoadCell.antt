-- ===== src/Vis/TangentLoadCell.antt =====
-- vis/TangentLoadCellFaultDetection.cpp: the check of the loads of the six tangential actuators,
-- of which 2, 3, 5 and 6 bear the weight of the mirror.
pub mod Laws
use ts_m2cellcpp.Prelude.{Bool, ◌||◌}

-- The arithmetic of doubles and the C library; `ge` and `gt` are >= and >.
pub record Doubles (D : Type 0) : Type 0 where
  pub add : D → D → D
  pub sub : D → D → D
  pub mul : D → D → D
  pub div : D → D → D
  pub neg : D → D
  pub fabs : D → D
  pub sin : D → D
  pub ge : D → D → Bool
  pub gt : D → D → Bool
  pub isnan : D → Bool
  pub cos30_deg : D
  pub half_pi : D
  pub four : D

-- The elevation is in radians.
pub record Inputs (D : Type 0) : Type 0 where
  pub in_fa1_n : D
  pub in_fa2_n : D
  pub in_fa3_n : D
  pub in_fa4_n : D
  pub in_fa5_n : D
  pub in_fa6_n : D
  pub in_elevation_angle : D

pub record Constants (D : Type 0) : Type 0 where
  pub const_tan_weight_error_n : D
  pub const_load_bearing_error_n : D
  pub const_net_moment_error_n : D
  pub const_not_load_bearing_error_n : D
  pub const_mirror_weight_n : D

pub record Outputs (D : Type 0) : Type 0 where
  pub out_tangential_total_weight_n : D
  pub out_load_bearing_fa2_n : D
  pub out_load_bearing_fa3_n : D
  pub out_load_bearing_fa5_n : D
  pub out_load_bearing_fa6_n : D
  pub out_net_moment_forces_n : D
  pub out_fa1_n : D
  pub out_fa4_n : D
  pub out_tan_weight_bool : Bool
  pub out_load_bearing_bool : Bool
  pub out_net_moment_bool : Bool
  pub out_non_load_bearing_bool : Bool
  pub out_tan_load_cell_bool : Bool

module _ {D : Type 0} (lib : Doubles D) where
  unfoldable pub run : Constants D → Inputs D → Outputs D
  run k i =
      let zeta = lib.sub lib.half_pi i.in_elevation_angle in
      let elevation_comp = lib.mul (lib.sin zeta) k.const_mirror_weight_n in
      let mirror_weight_comp_div4 = lib.div elevation_comp lib.four in
      let fa2_w = lib.mul (lib.neg i.in_fa2_n) lib.cos30_deg in
      let fa3_w = lib.mul (lib.neg i.in_fa3_n) lib.cos30_deg in
      let fa5_w = lib.mul i.in_fa5_n lib.cos30_deg in
      let fa6_w = lib.mul i.in_fa6_n lib.cos30_deg in
      let total = lib.sub (lib.add (lib.add (lib.add fa2_w fa3_w) fa5_w) fa6_w) elevation_comp in
      let tan_weight = lib.ge (lib.fabs total) k.const_tan_weight_error_n in
      let fa2 = lib.add (lib.mul lib.cos30_deg i.in_fa2_n) mirror_weight_comp_div4 in
      let fa3 = lib.add (lib.mul lib.cos30_deg i.in_fa3_n) mirror_weight_comp_div4 in
      let fa5 = lib.sub (lib.mul lib.cos30_deg i.in_fa5_n) mirror_weight_comp_div4 in
      let fa6 = lib.sub (lib.mul lib.cos30_deg i.in_fa6_n) mirror_weight_comp_div4 in
      let load_bearing =
        lib.ge (lib.fabs fa2) k.const_load_bearing_error_n
        || lib.ge (lib.fabs fa3) k.const_load_bearing_error_n
        || lib.ge (lib.fabs fa5) k.const_load_bearing_error_n
        || lib.ge (lib.fabs fa6) k.const_load_bearing_error_n in
      let net =
        lib.add
          (lib.add (lib.add (lib.add (lib.add i.in_fa1_n i.in_fa2_n) i.in_fa3_n) i.in_fa4_n)
            i.in_fa5_n)
          i.in_fa6_n in
      let net_moment = lib.gt (lib.fabs net) k.const_net_moment_error_n in
      let non_load_bearing =
        lib.gt (lib.fabs i.in_fa1_n) k.const_not_load_bearing_error_n
        || lib.gt (lib.fabs i.in_fa4_n) k.const_not_load_bearing_error_n in
      record {
        out_tangential_total_weight_n = total;
        out_load_bearing_fa2_n = fa2;
        out_load_bearing_fa3_n = fa3;
        out_load_bearing_fa5_n = fa5;
        out_load_bearing_fa6_n = fa6;
        out_net_moment_forces_n = net;
        out_fa1_n = i.in_fa1_n;
        out_fa4_n = i.in_fa4_n;
        out_tan_weight_bool = tan_weight;
        out_load_bearing_bool = load_bearing;
        out_net_moment_bool = net_moment;
        out_non_load_bearing_bool = non_load_bearing;
        out_tan_load_cell_bool = tan_weight || load_bearing || non_load_bearing || net_moment;
      }
