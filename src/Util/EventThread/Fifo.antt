-- ===== src/Util/EventThread/Fifo.antt =====
-- The order in which a thread runs its commands.
use ts_m2cellcpp.Prelude.{
  ◌≡◌, refl, sym, ap, ◌∙◌, List, [], ◌∷◌, ◌++◌, append_assoc, append-nil, Option, none, some, arith,
  if_both,
}
use ts_m2cellcpp.Util.EventThread.{
  Command, func, leaving, msg_end, Call, command_start, action, command_finish, EventThread,
  push_back, get_cmd, got, call_command_finish, call_finishup, leave_pool, run_action, handle_cmd,
  end_turn, handle_got, turn, Step, queue, loop, step, steps,
}

-- Three of the calls that a thread makes for a command.
pub data Kind : Type 0 where
  started acted finished : Kind

module _ {C : Type 0} where
  abbrev of_kind : Kind → Call C → Option (Command C)
  of_kind started (command_start c) = some c
  of_kind acted (action c) = some c
  of_kind finished (command_finish c) = some c
  of_kind _ _ = none

  abbrev snoc : Option (Command C) → List (Command C) → List (Command C)
  snoc none cs = cs
  snoc (some c) cs = cs ++ c ∷ []

  -- The commands of the calls of one kind, oldest first.
  abbrev pub commands : Kind → List (Call C) → List (Command C)
  commands k [] = []
  commands k (x ∷ xs) = snoc (of_kind k x) (commands k xs)

  -- The commands that were queued, in their order.
  abbrev pub queued : List (Step C) → List (Command C)
  queued [] = []
  queued (queue c ∷ ss) = c ∷ queued ss
  queued (loop ∷ ss) = queued ss

  handle_cmd-commands :
      (k : Kind) (c : Command C) (t : EventThread C)
      → commands k (handle_cmd c t).calls ≡ commands k t.calls ++ c ∷ []
  unfolding handle_cmd run_action leave_pool call_command_finish call_finishup
  handle_cmd-commands started (func x) t = refl
  handle_cmd-commands started (leaving x) t = ground arith
  handle_cmd-commands started msg_end t = refl
  handle_cmd-commands acted (func x) t = refl
  handle_cmd-commands acted (leaving x) t = ground arith
  handle_cmd-commands acted msg_end t = refl
  handle_cmd-commands finished (func x) t = refl
  handle_cmd-commands finished (leaving x) t = ground arith
  handle_cmd-commands finished msg_end t = refl

  handle_cmd-qu : (c : Command C) (t : EventThread C) → (handle_cmd c t).qu ≡ t.qu
  unfolding handle_cmd run_action leave_pool call_command_finish call_finishup
  handle_cmd-qu (func x) t = refl
  handle_cmd-qu (leaving x) t = ground arith
  handle_cmd-qu msg_end t = refl

  -- The commands of a kind, and then those that wait.
  abbrev pub line : Kind → EventThread C → List (Command C)
  line k t = commands k t.calls ++ t.qu

  end_turn-line : (k : Kind) (t : EventThread C) → line k (end_turn t) ≡ line k t
  unfolding end_turn call_finishup
  end_turn-line started t = ground arith
  end_turn-line acted t = ground arith
  end_turn-line finished t = ground arith

  handle_got-line :
      (k : Kind) (q : List (Command C)) (t : EventThread C)
      → t.qu ≡ q
      → line k (handle_got (got q t) t) ≡ line k t
  unfolding handle_got got
  handle_got-line k [] t e = refl
  handle_got-line k (c ∷ cs) t e =
      end_turn-line k (handle_cmd c (record t { qu = cs }))
      ∙ rw
          (
            handle_cmd-commands k c (record t { qu = cs }),
            handle_cmd-qu c (record t { qu = cs }),
            e,
          )
          (append_assoc (commands k t.calls) (c ∷ []) cs)

  turn-line : (k : Kind) (t : EventThread C) → line k (turn t) ≡ line k t
  unfolding turn get_cmd
  turn-line k t = if_both (λ r. line k r ≡ line k t) t.e_loop (handle_got-line k t.qu t refl) refl

  -- However the queueing of commands and the turns of the loop interleave, for each of
  -- commandStart, the action and commandFinish: the commands it was called for, followed by those
  -- that wait, are all the commands in the order in which they were queued. So each is called once
  -- for a command, also where the action has already left the pool.
  pub steps-line :
      (k : Kind) (ss : List (Step C)) (t : EventThread C)
      → line k (steps ss t) ≡ line k t ++ queued ss
  unfolding steps step push_back
  steps-line k [] t = sym (append-nil (line k t))
  steps-line k (queue c ∷ ss) t =
      steps-line k ss (push_back c t)
      ∙ ap (λ l. l ++ queued ss) (sym (append_assoc (commands k t.calls) t.qu (c ∷ [])))
      ∙ append_assoc (line k t) (c ∷ []) (queued ss)
  steps-line k (loop ∷ ss) t = steps-line k ss (turn t) ∙ ap (λ l. l ++ queued ss) (turn-line k t)
