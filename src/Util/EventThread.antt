-- ===== src/Util/EventThread.antt =====
-- The queue and the event loop of util/EventThread.h and EventThread.cpp, with the commands of
-- util/Command.h. A command is the label `C` of what it does.
pub mod Fifo
pub mod Loop
use ts_m2cellcpp.Prelude.{
  ℕ, Bool, true, false, List, [], ◌∷◌, ◌++◌, Option, none, some, Result, ok, err, Exception, bug,
  if◌then◌else◌,
}

-- A plain command, one whose action has the thread leave its pool, and MsgEnd of queEnd.
pub data Command (C : Type 0) : Type 0 where
  func leaving : C → Command C
  msg_end : Command C

-- What a thread calls, in the order of the calls.
pub data Call (C : Type 0) : Type 0 where
  command_start special_actions action command_finish reset_func : Command C → Call C
  finishup : Call C

-- The thread with its queue; `calls` is newest first.
pub record EventThread (C : Type 0) : Type 0 where
  pub qu : List (Command C)
  pub e_loop : Bool
  pub command_finish_called : Bool
  pub finishup_once : Bool
  pub calls : List (Call C)

module _ {C : Type 0} where
  unfoldable pub event_thread : EventThread C
  event_thread = record {
    qu = [];
    e_loop = true;
    command_finish_called = false;
    finishup_once = false;
    calls = [];
  }

  -- CommandQueue::queCmd.
  unfoldable pub push_back : Command C → EventThread C → EventThread C
  push_back c t = record t { qu = t.qu ++ c ∷ [] }

  -- EventThread::queCmd; `none` is nullptr.
  unfoldable pub que_cmd : Option (Command C) → EventThread C → Result (EventThread C)
  que_cmd none t = err bug
  que_cmd (some c) t = ok (push_back c t)

  got : List (Command C) → EventThread C → Option (Command C × EventThread C)
  got [] t = none
  got (c ∷ cs) t = some (c, record t { qu = cs })

  -- CommandQueue::getCmd; `none` where it would wait.
  unfoldable pub get_cmd : EventThread C → Option (Command C × EventThread C)
  unfolding got
  get_cmd t = got t.qu t

  abbrev pub call : Call C → EventThread C → EventThread C
  call x t = record t { calls = x ∷ t.calls }

  unfoldable pub call_command_finish : Command C → EventThread C → EventThread C
  call_command_finish c t =
      if t.command_finish_called
      then t
      else call (command_finish c) (record t { command_finish_called = true })

  -- PoolEventThread::finishup, which releases the thread once.
  unfoldable pub call_finishup : EventThread C → EventThread C
  call_finishup t = if t.finishup_once then t else call finishup (record t { finishup_once = true })

  -- PoolEventThread::leavePool, of the command that runs.
  unfoldable pub leave_pool : Command C → EventThread C → EventThread C
  leave_pool c t = call_finishup (call_command_finish c (record t { e_loop = false }))

  -- runAction.
  unfoldable pub run_action : Command C → EventThread C → EventThread C
  run_action (func x) t = call (action (func x)) t
  run_action (leaving x) t = leave_pool (leaving x) (call (action (leaving x)) t)
  run_action msg_end t = call (action msg_end) (record t { e_loop = false })

  -- The body of the loop with a command.
  unfoldable pub handle_cmd : Command C → EventThread C → EventThread C
  handle_cmd c t =
      let fresh = record t { command_finish_called = false } in
      let started = call (special_actions c) (call (command_start c) fresh) in
      call (reset_func c) (call_command_finish c (run_action c started))

  -- After the body: the test of the loop, and what stands behind the loop.
  unfoldable pub end_turn : EventThread C → EventThread C
  end_turn t = if t.e_loop then t else call_finishup t

  unfoldable pub handle_got : Option (Command C × EventThread C) → EventThread C → EventThread C
  handle_got none t = t
  handle_got (some (c, popped)) t = end_turn (handle_cmd c popped)

  -- One turn of _handleCmds; a thread that has ended, or that waits, does nothing.
  unfoldable pub turn : EventThread C → EventThread C
  turn t = if t.e_loop then handle_got (get_cmd t) t else t

  unfoldable pub turns : ℕ → EventThread C → EventThread C
  turns ℕ.zero t = t
  turns (ℕ.suc n) t = turns n (turn t)

-- What happens to a thread: a command is queued, by any thread, or its loop turns.
pub data Step (C : Type 0) : Type 0 where
  queue : Command C → Step C
  loop : Step C

module _ {C : Type 0} where
  unfoldable pub step : Step C → EventThread C → EventThread C
  step (queue c) t = push_back c t
  step loop t = turn t

  unfoldable pub steps : List (Step C) → EventThread C → EventThread C
  steps [] t = t
  steps (s ∷ ss) t = steps ss (step s t)
