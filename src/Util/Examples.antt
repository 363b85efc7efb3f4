-- ===== src/Util/Examples.antt =====
-- A thread, a pool, a file and its named values on concrete steps.
use ts_m2cellcpp.Prelude.{
  ℕ, ◌+◌, ◌≡◌, refl, true, false, ◌≢◌, List, [], ◌∷◌, ◌++◌, length, none, some, Option, ◌>>=◌, ◌-◌,
  ◌*◌, leb, ◌&&◌, pos, ok, if◌then◌else◌, arith,
}
use ts_m2cellcpp.Util.CsvFile.{CsvFile, Text, organize, read, dump_str}
use ts_m2cellcpp.Util.CsvFile.Laws.{Plain, Complete, read-dump_str}
use ts_m2cellcpp.Util.NamedValue.{Numbers}
use ts_m2cellcpp.Util.EventThread
use ts_m2cellcpp.Util.EventThread.{
  Command, func, leaving, msg_end, EventThread, event_thread, queue, loop, turns,
}
use ts_m2cellcpp.Util.EventThread.Fifo.{finished, line, queued, steps-line}
use ts_m2cellcpp.Util.EventThread.Loop.{turns-msg_end}
use ts_m2cellcpp.Util.ThreadPool
use ts_m2cellcpp.Util.ThreadPool.{
  ThreadPool, resized, shut_down, ended, join, new_thread_pool, new_pool_event_thread, grow,
  que_end, resize_to_target, set_target, resize, end_all, shutdown_pool, release_found, release,
  add_thread, answer_end,
}
use ts_m2cellcpp.Util.ThreadPool.Counts.{Counted, new_thread_pool-Counted}
use ts_m2cellcpp.Util.ThreadPool.Shrinks.{InPool, answer_all, length-answer_all}

-- A command, one that leaves the pool, and one that no longer runs.
abbrev script : List (EventThread.Step ℕ)
script = queue (func 1) ∷ queue (leaving 2) ∷ loop ∷ loop ∷ queue (func 3) ∷ loop ∷ []

steps-line_example :
    line finished (EventThread.steps script event_thread)
    ≡ line finished event_thread ++ queued script
steps-line_example = steps-line finished script event_thread

-- A thread with MsgEnd behind one command.
abbrev ending : EventThread ℕ
ending = record {
  qu = func 1 ∷ msg_end ∷ func 2 ∷ [];
  e_loop = true;
  command_finish_called = false;
  finishup_once = false;
  calls = [];
}

turns-msg_end_example : (turns 2 ending).e_loop ≡ false
turns-msg_end_example = turns-msg_end (func 1 ∷ []) (func 2 ∷ []) ending refl

abbrev busy : List ThreadPool.Step
busy = resized 3 ∷ resized 1 ∷ ended 0 ∷ join ∷ shut_down ∷ []

new_thread_pool-Counted_example : Counted (ThreadPool.steps busy (new_thread_pool 2 5))
new_thread_pool-Counted_example =
    new_thread_pool-Counted busy 2 5 (omega arith)
      (omega arith, (omega arith, (tt, (tt, (tt, tt)))))

-- Two threads, and a shutdown.
abbrev closing : ThreadPool
closing = ThreadPool.steps (shut_down ∷ []) (new_thread_pool 2 3)

closing-Counted : Counted closing
closing-Counted = new_thread_pool-Counted (shut_down ∷ []) 2 3 (omega arith) (tt, tt)

closing-InPool : InPool (1 ∷ 0 ∷ []) closing
unfolding ThreadPool.steps ThreadPool.step new_thread_pool new_pool_event_thread grow que_end
    resize_to_target set_target resize end_all shutdown_pool release_found release add_thread
    answer_end
closing-InPool = (refl, (refl, tt))

closing_size : length closing.pool ≡ 2 + closing.target_thrd_count
unfolding ThreadPool.steps ThreadPool.step new_thread_pool new_pool_event_thread grow que_end
    resize_to_target set_target resize end_all shutdown_pool
closing_size = refl

length-answer_all_example :
    length (answer_all (1 ∷ 0 ∷ []) closing).pool ≡ closing.target_thrd_count
length-answer_all_example =
    length-answer_all (1 ∷ 0 ∷ []) closing closing-Counted closing-InPool closing_size

-- Two columns "a" and "b" with a row of 1 and 2.
abbrev table : CsvFile
table = record {
  column_names = (97 ∷ []) ∷ (98 ∷ []) ∷ [];
  column_count = 2;
  row_strings = ((49 ∷ []) ∷ (50 ∷ []) ∷ []) ∷ [];
  row_count = 1;
  col_index = (98 ∷ [], 1) ∷ (97 ∷ [], 0) ∷ [];
}

single : (c : ℕ) → (c ∷ []) ≢ []
single c = ground arith

names-Plain : Plain table.column_names
names-Plain = ((refl, tt), (refl, tt), ((refl, tt), (refl, tt), single 98))

rows-Complete : Complete (length table.column_names) table.row_strings
rows-Complete = ((((refl, tt), (refl, tt), ((refl, tt), (refl, tt), single 50)), refl), tt)

table_index : organize 0 table.column_names [] ≡ ok table.col_index
unfolding organize
table_index = refl

read-dump_str_example : read (some (dump_str table)) ≡ ok table
read-dump_str_example = read-dump_str table names-Plain rows-Complete table_index refl refl

-- Decimal digits, in place of the conversions of the C library.
unfoldable pub digits : Text → ℕ → Option ℕ
digits [] n = some n
digits (c ∷ s) n =
    let rest = digits s (10 * n + (c - 48)) in if leb 48 c && leb c 57 then rest else none

abbrev pub numbers : Numbers ℕ
numbers = record {
  strtol = λ s. digits s 0 >>= λ n. some (pos n);
  strtod = λ s. digits s 0;
  sub = λ a b. a - b;
  mul = λ a b. a * b;
  le = leb;
  rad_per_deg = 1;
  void_val = 0;
}
