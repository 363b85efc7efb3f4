-- ===== src/Util/ThreadPool.antt =====
-- The pool of threads of util/ThreadPool.h and ThreadPool.cpp, and the joiner of EventThread.h that
-- takes the threads that leave it. A thread is a number.
pub mod Counts
pub mod Shrinks
use ts_m2cellcpp.Prelude.{
  ℕ, zero, suc, ◌+◌, ◌-◌, ◌%◌, ◌^◌, Bool, true, false, leb, ltb, ◌==◌, List, [], ◌∷◌, ◌++◌, length,
  Option, none, some, ◌>>=◌, ◌&&◌, any, if◌then◌else◌,
}

pub record EventThreadJoiner : Type 0 where
  pub event_threads : List ℕ
  pub count : ℕ
  pub continue : Bool

-- `end_msgs` is the number of MsgEnd in the shared queue, and `next` the number of the next thread.
pub record ThreadPool : Type 0 where
  pub pool : List ℕ
  pub target_thrd_count : ℕ
  pub shutdown : Bool
  pub pool_thread_count : ℕ
  pub max_thread_count : ℕ
  pub joiner_thread : EventThreadJoiner
  pub end_msgs : ℕ
  pub next : ℕ

-- addThread; `none` is nullptr.
unfoldable pub add_thread : Option ℕ → EventThreadJoiner → EventThreadJoiner
add_thread none j = j
add_thread (some thrd) j = record j {
  event_threads = j.event_threads ++ thrd ∷ [];
  count = j.count + 1;
}

-- newPoolEventThread, whose constructor counts it, and push_back.
unfoldable pub new_pool_event_thread : ThreadPool → ThreadPool
new_pool_event_thread p = record p {
  pool = p.pool ++ p.next ∷ [];
  pool_thread_count = p.pool_thread_count + 1;
  next = p.next + 1;
}

-- The loop of _resize, by the number of its turns.
unfoldable pub grow : ℕ → ThreadPool → ThreadPool
grow zero p = p
grow (suc n) p = grow n (new_pool_event_thread p)

-- queEnd of a thread of the pool, to the queue that all threads share.
unfoldable pub que_end : ThreadPool → ThreadPool
que_end p = record p { end_msgs = p.end_msgs + 1 }

unfoldable pub resize_to_target : ThreadPool → ThreadPool
resize_to_target p =
    let grown = grow (p.target_thrd_count - length p.pool) p in
    if ltb grown.target_thrd_count (length grown.pool) then que_end grown else grown

-- The counts are unsigned ints: the maximum wraps.
unfoldable pub set_target : ℕ → ThreadPool → ThreadPool
set_target target p =
    let max = if leb p.max_thread_count target then (target + 1) % 2 ^ 32 else p.max_thread_count in
    record p { max_thread_count = max; target_thrd_count = if p.shutdown then 0 else target }

-- resize.
unfoldable pub resize : ℕ → ThreadPool → ThreadPool
resize target p = resize_to_target (set_target target p)

-- endAll, and shutdownPool up to its waits.
unfoldable pub end_all : ThreadPool → ThreadPool
end_all p = resize 0 p

unfoldable pub shutdown_pool : ThreadPool → ThreadPool
shutdown_pool p = end_all (record p { shutdown = true })

-- newThreadPool.
unfoldable pub new_thread_pool : ℕ → ℕ → ThreadPool
new_thread_pool thrd_count max_pool_threads = resize_to_target (record {
  pool = [];
  target_thrd_count = thrd_count;
  shutdown = false;
  pool_thread_count = 0;
  max_thread_count = max_pool_threads;
  joiner_thread = record { event_threads = []; count = 0; continue = true };
  end_msgs = 0;
  next = 0;
})

unfoldable pub new_thread_pool_default : ℕ → ThreadPool
new_thread_pool_default thrd_count = new_thread_pool thrd_count ((thrd_count + 1) % 2 ^ 32)

-- `find_if` and `erase`: the list without the thread, if it is there.
abbrev pub erase : ℕ → List ℕ → Option (List ℕ)
erase thrd [] = none
erase thrd (t ∷ ts) = if t == thrd then some ts else (erase thrd ts >>= λ us. some (t ∷ us))

unfoldable pub release_found : ℕ → Option (List ℕ) → ThreadPool → ThreadPool × Bool
release_found thrd none p = (p, false)
release_found thrd (some rest) p =
    let joiner = add_thread (some thrd) p.joiner_thread in
    (resize_to_target (record p { pool = rest; joiner_thread = joiner }), true)

-- release.
unfoldable pub release : ℕ → ThreadPool → ThreadPool × Bool
release thrd p = release_found thrd (erase thrd p.pool) p

abbrev pub contains : ℕ → List ℕ → Bool
contains thrd ts = any (λ t. t == thrd) ts

-- A thread of the pool answers a MsgEnd of the queue and is released when its loop has ended.
unfoldable pub answer_end : ℕ → ThreadPool → ThreadPool
answer_end thrd p =
    if ltb 0 p.end_msgs && contains thrd p.pool
    then (release thrd (record p { end_msgs = p.end_msgs - 1 })).0
    else p

-- atMaxThreadPoolCount, and the wait of _waitIfAtMaxThreadPoolCount as its condition.
unfoldable pub at_max_thread_pool_count : ThreadPool → Bool
at_max_thread_pool_count p = ltb p.max_thread_count p.pool_thread_count

unfoldable pub may_leave : ThreadPool → Bool
may_leave p = leb p.pool_thread_count p.max_thread_count

-- leavePool of a thread, once it no longer waits.
unfoldable pub leave_pool : ℕ → ThreadPool → ThreadPool
leave_pool thrd p = if may_leave p then (release thrd p).0 else p

-- One turn of joinLoop: the first thread is joined, and its destructor counts it down.
join_first : List ℕ → ThreadPool → ThreadPool
join_first [] p = p
join_first (thrd ∷ rest) p = record p {
  pool_thread_count = p.pool_thread_count - 1;
  joiner_thread = record (p.joiner_thread) {
    event_threads = rest;
    count = p.joiner_thread.count - 1;
  };
}

unfoldable pub join_turn : ThreadPool → ThreadPool
unfolding join_first
join_turn p = join_first p.joiner_thread.event_threads p

-- What happens to a pool.
pub data Step : Type 0 where
  resized : ℕ → Step
  shut_down join : Step
  ended leaves : ℕ → Step

unfoldable pub step : Step → ThreadPool → ThreadPool
step (resized n) p = resize n p
step shut_down p = shutdown_pool p
step (ended thrd) p = answer_end thrd p
step (leaves thrd) p = leave_pool thrd p
step join p = join_turn p

unfoldable pub steps : List Step → ThreadPool → ThreadPool
steps [] p = p
steps (s ∷ ss) p = steps ss (step s p)
