-- ===== src/Control/Breakers/Laws.antt =====
-- What the breaker checks decide.
use ts_m2cellcpp.Prelude.{ℕ, ◌+◌, ◌≡◌, not, leb, ◌||◌, if◌then◌else◌, arith}
use ts_m2cellcpp.Control.Defs.{SysStatus, fault, warn, good}
use ts_m2cellcpp.Control.Ports.{get_input}
use ts_m2cellcpp.Control.Breakers.{
  Feed, BreakerFeedGroup, count_bit, feed_check_breakers, check_feeds, check_breakers,
}

-- How many of a feed's inputs are low.
abbrev pub low_count : ℕ → Feed → ℕ
low_count input f =
    count_bit (not (get_input input f.bit0_pos))
    + count_bit (not (get_input input f.bit1_pos))
    + count_bit (not (get_input input f.bit2_pos))

-- The worst feed decides: two low inputs of one feed are a fault, one is a warning.
abbrev pub group_status : ℕ → BreakerFeedGroup → SysStatus
group_status input g =
    let low1 = low_count input g.feed1 in
    let low2 = low_count input g.feed2 in
    let low3 = low_count input g.feed3 in
    if leb 2 low1 || (leb 2 low2 || leb 2 low3)
    then fault
    else if leb 1 low1 || (leb 1 low2 || leb 1 low3)
    then warn
    else good

feed_status :
    (input : ℕ) (f : Feed)
    → (feed_check_breakers input f).0 ≡ (
        if leb 2 (low_count input f)
        then fault
        else if leb 1 (low_count input f)
        then warn
        else good)
unfolding feed_check_breakers
feed_status input f = ground arith

-- The group reports the status of its worst feed.
pub check_breakers-group_status :
    (input : ℕ) (g : BreakerFeedGroup) → (check_breakers input g).0 ≡ group_status input g
unfolding check_breakers check_feeds
check_breakers-group_status input g =
    ground (arith, feed_status input g.feed1, feed_status input g.feed2, feed_status input g.feed3)
