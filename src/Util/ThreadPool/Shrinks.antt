-- ===== src/Util/ThreadPool/Shrinks.antt =====
-- A pool with too many threads reaches its target.
use ts_m2cellcpp.Prelude.{
  ℕ, ◌+◌, ◌-◌, ◌<◌, ◌≡◌, ◌∙◌, true, ltb, ◌&&◌, List, [], ◌∷◌, length, some, if_both, if_true, arith,
}
use ts_m2cellcpp.Util.ThreadPool.{
  ThreadPool, add_thread, grow, que_end, resize_to_target, release_found, release, contains,
  answer_end,
}
use ts_m2cellcpp.Util.ThreadPool.Counts.{
  Books, Counted, grow-GrownBy, Erased, contains-erase, answered-Counted,
}

-- _resize leaves the target, and a pool that is large enough its size.
record Resized (p q : ThreadPool) : Type 0 where
  target : q.target_thrd_count ≡ p.target_thrd_count
  size : length q.pool ≡ length p.pool + (p.target_thrd_count - length p.pool)

que_end-Resized : (p q : ThreadPool) → Resized p q → Resized p (que_end q)
unfolding que_end
que_end-Resized p q r = record { target = r.target; size = r.size }

resize_to_target-Resized : (p : ThreadPool) → Resized p (resize_to_target p)
unfolding resize_to_target
resize_to_target-Resized p =
    let g = grow-GrownBy (p.target_thrd_count - length p.pool) p in
    let grown = grow (p.target_thrd_count - length p.pool) p in
    let r : Resized p grown = record { target = g.target; size = g.size } in
    if_both (Resized p) (ltb grown.target_thrd_count (length grown.pool))
      (que_end-Resized p grown r) r

-- One thread less, towards the same target.
record Answered (p q : ThreadPool) : Type 0 where
  counted : Counted q
  target : q.target_thrd_count ≡ p.target_thrd_count
  size : length q.pool + 1 ≡ length p.pool

release_some-Resized :
    (thrd : ℕ) (rest : List ℕ) (p : ThreadPool)
    → Resized (record p { pool = rest }) (release_found thrd (some rest) p).0
unfolding release_found
release_some-Resized thrd rest p =
    let joiner = add_thread (some thrd) p.joiner_thread in
    let r = resize_to_target-Resized (record p { pool = rest; joiner_thread = joiner }) in
    record { target = r.target; size = r.size }

released-Answered :
    (thrd : ℕ) (p : ThreadPool)
    → Erased thrd p.pool
    → Books p
    → p.target_thrd_count < length p.pool
    → Answered p (release thrd (record p { end_msgs = p.end_msgs - 1 })).0
unfolding release
released-Answered thrd p r b h =
    let q = record p { end_msgs = p.end_msgs - 1 } in
    let z = release_some-Resized thrd r.rest q in
    record {
      counted = answered-Counted thrd p r b;
      target = rw r.found z.target;
      size = rw r.found (omega (arith, z.size, r.less, h));
    }

answer_end-Answered :
    (thrd : ℕ) (p : ThreadPool)
    → contains thrd p.pool ≡ true
    → Counted p
    → p.target_thrd_count < length p.pool
    → Answered p (answer_end thrd p)
unfolding answer_end
answer_end-Answered thrd p e c h =
    if_true (Answered p) (ltb 0 p.end_msgs && contains thrd p.pool) _ _
      (ground (arith, e, c.asked, h))
      (released-Answered thrd p (contains-erase thrd p.pool e) c.books h)

-- Threads answer one after the other.
unfoldable pub answer_all : List ℕ → ThreadPool → ThreadPool
answer_all [] p = p
answer_all (t ∷ ts) p = answer_all ts (answer_end t p)

-- Each is in the pool when its turn comes.
abbrev pub InPool : List ℕ → ThreadPool → Type 0
InPool [] p = Unit
InPool (t ∷ ts) p = (contains t p.pool ≡ true) × InPool ts (answer_end t p)

-- A pool with too many threads has exactly its target of them once as many have answered a MsgEnd
-- as it has too many, whichever threads these are.
pub length-answer_all :
    (ts : List ℕ) (p : ThreadPool)
    → Counted p
    → InPool ts p
    → length p.pool ≡ length ts + p.target_thrd_count
    → length (answer_all ts p).pool ≡ p.target_thrd_count
unfolding answer_all
length-answer_all [] p c i e = omega (arith, e)
length-answer_all (t ∷ ts) p c (h, i) e =
    let a = answer_end-Answered t p h c (omega (arith, e)) in
    length-answer_all ts (answer_end t p) a.counted i (omega (arith, e, a.size, a.target))
    ∙ a.target
