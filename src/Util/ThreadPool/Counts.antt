-- ===== src/Util/ThreadPool/Counts.antt =====
-- The threads of a pool are counted, whatever happens to it.
use ts_m2cellcpp.Prelude.{
  ℕ, zero, suc, ◌+◌, ◌-◌, ◌^◌, ◌≤◌, ◌<◌, ◌≡◌, refl, ap, ◌⊎◌, inl, inr, true, false, ltb, ◌==◌, ◌&&◌,
  List, [], ◌∷◌, ◌++◌, length, Option, none, some, ◌>>=◌, Bool-cases, if_both, if_true, if_false,
  All, if◌then◌else◌, arith,
}
use ts_m2cellcpp.Util.ThreadPool.{
  ThreadPool, add_thread, new_pool_event_thread, grow, que_end, resize_to_target, set_target,
  resize, end_all, shutdown_pool, new_thread_pool, erase, release_found, release, contains,
  answer_end, may_leave, leave_pool, join_first, join_turn, Step, resized, shut_down, join, ended,
  leaves, step, steps,
}

-- Every thread is in the pool or with the joiner, and a pool that was shut down wants none.
pub record Books (p : ThreadPool) : Type 0 where
  pub joined : p.joiner_thread.count ≡ length p.joiner_thread.event_threads
  pub threads : p.pool_thread_count ≡ length p.pool + length p.joiner_thread.event_threads
  pub closed : (p.shutdown ≡ false) ⊎ (p.target_thrd_count ≡ 0)
  pub room : p.target_thrd_count < p.max_thread_count

-- As many threads as wanted, and while there are more, a MsgEnd in the queue.
pub record Counted (p : ThreadPool) : Type 0 where
  pub books : Books p
  pub filled : p.target_thrd_count ≤ length p.pool
  pub asked : (length p.pool ≤ p.target_thrd_count) ⊎ (0 < p.end_msgs)

length-snoc : {A : Type 0} (xs : List A) (x : A) → length (xs ++ x ∷ []) ≡ length xs + 1
length-snoc [] x = omega arith
length-snoc (y ∷ ys) x = omega (arith, length-snoc ys x)

-- What the loop of _resize changes.
pub record GrownBy (n : ℕ) (p q : ThreadPool) : Type 0 where
  pub size : length q.pool ≡ length p.pool + n
  counted : q.pool_thread_count ≡ p.pool_thread_count + n
  pub target : q.target_thrd_count ≡ p.target_thrd_count
  max : q.max_thread_count ≡ p.max_thread_count
  shutdown : q.shutdown ≡ p.shutdown
  joiner : q.joiner_thread ≡ p.joiner_thread

pub grow-GrownBy : (n : ℕ) (p : ThreadPool) → GrownBy n p (grow n p)
unfolding grow new_pool_event_thread
grow-GrownBy zero p = record {
  size = omega arith;
  counted = omega arith;
  target = refl;
  max = refl;
  shutdown = refl;
  joiner = refl;
}
grow-GrownBy (suc n) p =
    let g = grow-GrownBy n (new_pool_event_thread p) in
    record {
      size = omega (arith, g.size, length-snoc p.pool p.next);
      counted = omega (arith, g.counted);
      target = g.target;
      max = g.max;
      shutdown = g.shutdown;
      joiner = g.joiner;
    }

grown-Books : (n : ℕ) (p q : ThreadPool) → GrownBy n p q → Books p → Books q
grown-Books n p q g b = record {
  joined = rw g.joiner b.joined;
  threads = rw g.joiner (omega (arith, g.size, g.counted, b.threads));
  closed = rw (g.shutdown, g.target) b.closed;
  room = rw (g.max, g.target) b.room;
}

asked-Counted :
    (q : ThreadPool)
    → q.target_thrd_count ≤ length q.pool
    → Books q
    → Counted (if ltb q.target_thrd_count (length q.pool) then que_end q else q)
unfolding que_end
asked-Counted q h b = elim (Bool-cases (ltb q.target_thrd_count (length q.pool))) [
  | inl e ↦ rw e (record {
    books = record { joined = b.joined; threads = b.threads; closed = b.closed; room = b.room };
    filled = h;
    asked = inr (omega arith);
  })
  | inr e ↦ rw e (record { books = b; filled = h; asked = inl (ground (arith, e)) })
]

pub resize_to_target-Counted : (p : ThreadPool) → Books p → Counted (resize_to_target p)
unfolding resize_to_target
resize_to_target-Counted p b =
    let n = p.target_thrd_count - length p.pool in
    let g = grow-GrownBy n p in
    asked-Counted (grow n p) (omega (arith, g.size, g.target)) (grown-Books n p (grow n p) g b)

-- The target of a resize, whose successor is the new maximum.
abbrev pub Fits : Step → Type 0
Fits (resized n) = n + 1 < 2 ^ 32
Fits _ = Unit

set_target-Books : (n : ℕ) (p : ThreadPool) → n + 1 < 2 ^ 32 → Books p → Books (set_target n p)
unfolding set_target
set_target-Books n p h b = record {
  joined = b.joined;
  threads = b.threads;
  closed = ground (arith, b.closed);
  room = ground (arith, h, b.room);
}

pub resize-Counted : (n : ℕ) (p : ThreadPool) → n + 1 < 2 ^ 32 → Books p → Counted (resize n p)
unfolding resize
resize-Counted n p h b = resize_to_target-Counted (set_target n p) (set_target-Books n p h b)

-- A pool that shuts down wants nothing, since `shutdown` is set before the target.
shutdown_pool-Counted : (p : ThreadPool) → Books p → Counted (shutdown_pool p)
unfolding shutdown_pool end_all resize set_target
shutdown_pool-Counted p b = resize_to_target-Counted _ (record {
  joined = b.joined;
  threads = b.threads;
  closed = inr refl;
  room = ground (arith, b.room);
})

abbrev OneLess : List ℕ → Option (List ℕ) → Type 0
OneLess ts none = Unit
OneLess ts (some rest) = length ts ≡ length rest + 1

OneLess-cons :
    (t : ℕ) (ts : List ℕ) (r : Option (List ℕ))
    → OneLess ts r
    → OneLess (t ∷ ts) (r >>= λ us. some (t ∷ us))
OneLess-cons t ts none h = tt
OneLess-cons t ts (some rest) h = omega (arith, h)

pub erase-OneLess : (thrd : ℕ) (ts : List ℕ) → OneLess ts (erase thrd ts)
erase-OneLess thrd [] = tt
erase-OneLess thrd (t ∷ ts) =
    if_both (OneLess (t ∷ ts)) (t == thrd) (omega arith)
      (OneLess-cons t ts (erase thrd ts) (erase-OneLess thrd ts))

pub release_some-Counted :
    (thrd : ℕ) (rest : List ℕ) (p : ThreadPool)
    → length p.pool ≡ length rest + 1
    → Books p
    → Counted (release_found thrd (some rest) p).0
unfolding release_found add_thread
release_some-Counted thrd rest p o b =
    let grown = length-snoc p.joiner_thread.event_threads thrd in
    resize_to_target-Counted _ (record {
      joined = omega (arith, b.joined, grown);
      threads = omega (arith, o, b.threads, grown);
      closed = b.closed;
      room = b.room;
    })

release_found-Counted :
    (thrd : ℕ) (r : Option (List ℕ)) (p : ThreadPool)
    → OneLess p.pool r
    → Counted p
    → Counted (release_found thrd r p).0
unfolding release_found
release_found-Counted thrd none p o c = c
release_found-Counted thrd (some rest) p o c = release_some-Counted thrd rest p o c.books

-- A thread of the pool is found.
pub record Erased (thrd : ℕ) (ts : List ℕ) : Type 0 where
  pub rest : List ℕ
  pub found : erase thrd ts ≡ some rest
  pub less : length ts ≡ length rest + 1

pub contains-erase : (thrd : ℕ) (ts : List ℕ) → contains thrd ts ≡ true → Erased thrd ts
contains-erase thrd [] h = ground (arith, h)
contains-erase thrd (t ∷ ts) h = elim (Bool-cases (t == thrd)) [
  | inl e ↦ record { rest = ts; found = rw e refl; less = omega arith }
  | inr e ↦
      (let r = contains-erase thrd ts (ground (arith, h, e)) in
        record { rest = t ∷ r.rest; found = rw (e, r.found) refl; less = omega (arith, r.less) })
]

pub answered-Counted :
    (thrd : ℕ) (p : ThreadPool)
    → Erased thrd p.pool
    → Books p
    → Counted (release thrd (record p { end_msgs = p.end_msgs - 1 })).0
unfolding release
answered-Counted thrd p r b = rw r.found (
    release_some-Counted thrd r.rest (record p { end_msgs = p.end_msgs - 1 }) r.less
      (record { joined = b.joined; threads = b.threads; closed = b.closed; room = b.room }))

answer_end-Counted : (thrd : ℕ) (p : ThreadPool) → Counted p → Counted (answer_end thrd p)
unfolding answer_end
answer_end-Counted thrd p c = elim (Bool-cases (ltb 0 p.end_msgs && contains thrd p.pool)) [
  | inl e ↦
      if_true Counted _ _ _ e
        (answered-Counted thrd p (contains-erase thrd p.pool (ground (arith, e))) c.books)
  | inr e ↦ if_false Counted _ _ _ e c
]

leave_pool-Counted : (thrd : ℕ) (p : ThreadPool) → Counted p → Counted (leave_pool thrd p)
unfolding leave_pool release
leave_pool-Counted thrd p c =
    if_both Counted (may_leave p)
      (release_found-Counted thrd (erase thrd p.pool) p (erase-OneLess thrd p.pool) c) c

join_first-Counted :
    (ts : List ℕ) (p : ThreadPool)
    → p.joiner_thread.event_threads ≡ ts
    → Counted p
    → Counted (join_first ts p)
unfolding join_first
join_first-Counted [] p e c = c
join_first-Counted (t ∷ ts) p e c =
    let count = ap length e in
    record {
      books = record {
        joined = omega (arith, c.books.joined, count);
        threads = omega (arith, c.books.threads, count);
        closed = c.books.closed;
        room = c.books.room;
      };
      filled = c.filled;
      asked = c.asked;
    }

step-Counted : (s : Step) (p : ThreadPool) → Fits s → Counted p → Counted (step s p)
unfolding step join_turn
step-Counted (resized n) p h c = resize-Counted n p h c.books
step-Counted shut_down p h c = shutdown_pool-Counted p c.books
step-Counted join p h c = join_first-Counted p.joiner_thread.event_threads p refl c
step-Counted (ended thrd) p h c = answer_end-Counted thrd p c
step-Counted (leaves thrd) p h c = leave_pool-Counted thrd p c

steps-Counted : (ss : List Step) (p : ThreadPool) → All Fits ss → Counted p → Counted (steps ss p)
unfolding steps
steps-Counted [] p h c = c
steps-Counted (s ∷ ss) p (h, hs) c = steps-Counted ss (step s p) hs (step-Counted s p h c)

-- A pool built for fewer threads than its maximum keeps its books through every sequence of
-- resizes, each to less than 4294967295, shutdowns, threads that end or leave, and joins: each
-- thread is in the pool or with the joiner, the counts agree, no thread is missing, the target stays
-- below the maximum and is 0 after a shutdown, and while there are too many threads a MsgEnd is in
-- the queue.
pub new_thread_pool-Counted :
    (ss : List Step) (thrd_count max : ℕ)
    → thrd_count < max
    → All Fits ss
    → Counted (steps ss (new_thread_pool thrd_count max))
unfolding new_thread_pool
new_thread_pool-Counted ss thrd_count max h k = steps-Counted ss _ k (
    resize_to_target-Counted _
      (record { joined = refl; threads = refl; closed = inl refl; room = h }))
