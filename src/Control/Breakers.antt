-- ===== src/Control/Breakers.antt =====
-- BreakerFeedGroup of control/PowerSubsystem.cpp. The text of the low inputs is the list of them;
-- Feed::_feedBitmap, which only the log reads, is left out.
pub mod Laws
use ts_m2cellcpp.Prelude.{ℕ, ◌+◌, Bool, true, false, ◌==◌, ltb, if◌then◌else◌, List, [], ◌∷◌, ◌++◌}
use ts_m2cellcpp.Control.Defs.{SysStatus, fault, warn, good, status_value}
use ts_m2cellcpp.Control.Ports.{InputBit, get_input}

pub record Feed : Type 0 where
  pub bit0_pos : InputBit
  pub bit1_pos : InputBit
  pub bit2_pos : InputBit

pub record BreakerFeedGroup : Type 0 where
  pub feed1 : Feed
  pub feed2 : Feed
  pub feed3 : Feed

-- One of the three tests of Feed::checkBreakers: what it adds to the count and to the text.
abbrev pub count_bit : Bool → ℕ
count_bit high = if high then 1 else 0

abbrev pub if_low : Bool → InputBit → List InputBit
if_low high b = if high then [] else b ∷ []

unfoldable pub feed_check_breakers : ℕ → Feed → SysStatus × List InputBit
feed_check_breakers input feed =
    let bit0 = get_input input feed.bit0_pos in
    let bit1 = get_input input feed.bit1_pos in
    let bit2 = get_input input feed.bit2_pos in
    let count = count_bit bit0 + count_bit bit1 + count_bit bit2 in
    let inactive =
      if_low bit0 feed.bit0_pos ++ (if_low bit1 feed.bit1_pos ++ if_low bit2 feed.bit2_pos) in
    (if count == 3 then good else if count == 2 then warn else fault, inactive)

-- The loop over the feeds, from the result so far.
unfoldable pub check_feeds : ℕ → SysStatus × List InputBit → List Feed → SysStatus × List InputBit
unfolding feed_check_breakers
check_feeds input (result, inactive_inputs) [] = (result, inactive_inputs)
check_feeds input (result, inactive_inputs) (feed ∷ feeds) =
    let (status, low) = feed_check_breakers input feed in
    check_feeds input
      (
        if ltb (status_value status) (status_value result) then status else result,
        inactive_inputs ++ low,
      )
      feeds

unfoldable pub check_breakers : ℕ → BreakerFeedGroup → SysStatus × List InputBit
unfolding check_feeds
check_breakers input group =
    check_feeds input (good, []) (group.feed1 ∷ group.feed2 ∷ group.feed3 ∷ [])
