-- ===== src/Util/EventThread/Loop.antt =====
-- The end of the loop of a thread.
use ts_m2cellcpp.Prelude.{
  ℕ, ◌≡◌, refl, true, false, List, [], ◌∷◌, ◌++◌, length, arith, Bool-cases, inl, inr, if_true,
  if_false, if◌then◌else◌,
}
use ts_m2cellcpp.Util.EventThread.{
  Command, func, leaving, msg_end, Call, finishup, EventThread, event_thread, push_back, get_cmd,
  got, call_command_finish, call_finishup, leave_pool, run_action, handle_cmd, end_turn, handle_got,
  turn, turns, Step, queue, loop, step, steps,
}

module _ {C : Type 0} where
  -- How often finishup released the thread.
  abbrev pub releases : List (Call C) → ℕ
  releases [] = 0
  releases (finishup ∷ xs) = ℕ.suc (releases xs)
  releases (x ∷ xs) = releases xs

  -- A thread has been released once if its loop has ended, and not before.
  pub record Released (t : EventThread C) : Type 0 where
    pub once : releases t.calls ≡ (if t.finishup_once then 1 else 0)
    pub ended : t.finishup_once ≡ (if t.e_loop then false else true)

  handle_cmd-Released :
      (c : Command C) (t : EventThread C)
      → t.e_loop ≡ true
      → Released t
      → Released (end_turn (handle_cmd c t))
  unfolding handle_cmd end_turn run_action leave_pool call_command_finish call_finishup
  handle_cmd-Released (func x) t e r = record {
    once = ground (arith, e, r.once, r.ended);
    ended = ground (arith, e, r.once, r.ended);
  }
  handle_cmd-Released (leaving x) t e r = record {
    once = ground (arith, e, r.once, r.ended);
    ended = ground (arith, e, r.once, r.ended);
  }
  handle_cmd-Released msg_end t e r = record {
    once = ground (arith, e, r.once, r.ended);
    ended = ground (arith, e, r.once, r.ended);
  }

  handle_got-Released :
      (q : List (Command C)) (t : EventThread C)
      → t.e_loop ≡ true
      → Released t
      → Released (handle_got (got q t) t)
  unfolding handle_got got
  handle_got-Released [] t e r = r
  handle_got-Released (c ∷ cs) t e r =
      handle_cmd-Released c (record t { qu = cs }) e (record { once = r.once; ended = r.ended })

  turn-Released : (t : EventThread C) → Released t → Released (turn t)
  unfolding turn get_cmd
  turn-Released t r = elim (Bool-cases t.e_loop) [
    | inl e ↦ if_true Released t.e_loop _ _ e (handle_got-Released t.qu t e r)
    | inr e ↦ if_false Released t.e_loop _ _ e r
  ]

  steps-Released : (ss : List (Step C)) (t : EventThread C) → Released t → Released (steps ss t)
  unfolding steps step push_back
  steps-Released [] t r = r
  steps-Released (queue c ∷ ss) t r =
      steps-Released ss (push_back c t) (record { once = r.once; ended = r.ended })
  steps-Released (loop ∷ ss) t r = steps-Released ss (turn t) (turn-Released t r)

  -- From its start on, a thread is released from its pool once its loop has ended, exactly once, and
  -- not before, whether a command has left the pool or MsgEnd has ended the loop.
  pub releases-steps :
      (ss : List (Step C))
      → releases (steps ss event_thread).calls ≡ (if (steps ss event_thread).e_loop then 0 else 1)
  unfolding event_thread
  releases-steps ss =
      let r = steps-Released ss event_thread (record { once = refl; ended = refl }) in
      ground (arith, r.once, r.ended)

  turns_ended : (n : ℕ) (t : EventThread C) → t.e_loop ≡ false → (turns n t).e_loop ≡ false
  unfolding turns turn
  turns_ended ℕ.zero t e = e
  turns_ended (ℕ.suc n) t e =
      if_false (λ (r : EventThread C). (turns n r).e_loop ≡ false) t.e_loop _ t e
        (turns_ended n t e)

  end_turn-qu : (c : Command C) (t : EventThread C) → (end_turn (handle_cmd c t)).qu ≡ t.qu
  unfolding handle_cmd end_turn run_action leave_pool call_command_finish call_finishup
  end_turn-qu (func x) t = ground arith
  end_turn-qu (leaving x) t = ground arith
  end_turn-qu msg_end t = ground arith

  end_turn-msg_end : (t : EventThread C) → (end_turn (handle_cmd msg_end t)).e_loop ≡ false
  unfolding handle_cmd end_turn run_action call_command_finish call_finishup
  end_turn-msg_end t = ground arith

  turn-cons :
      (t : EventThread C) (c : Command C) (cs : List (Command C))
      → t.e_loop ≡ true
      → t.qu ≡ c ∷ cs
      → turn t ≡ end_turn (handle_cmd c (record t { qu = cs }))
  unfolding turn get_cmd got handle_got
  turn-cons t c cs e q = rw (e, q)

  -- MsgEnd ends the loop: after a turn for each command before it and one for itself, if no command
  -- has left the pool before.
  pub turns-msg_end :
      (before after : List (Command C)) (t : EventThread C)
      → t.qu ≡ before ++ msg_end ∷ after
      → (turns (ℕ.suc (length before)) t).e_loop ≡ false
  unfolding turns
  turns-msg_end [] after t q = elim (Bool-cases t.e_loop) [
    | inl e ↦ rw (turn-cons t msg_end after e q) (end_turn-msg_end (record t { qu = after }))
    | inr e ↦ turns_ended 1 t e
  ]
  turns-msg_end (c ∷ cs) after t q = elim (Bool-cases t.e_loop) [
    | inl e ↦ turns-msg_end cs after (turn t) (
        rw (turn-cons t c (cs ++ msg_end ∷ after) e q)
          (end_turn-qu c (record t { qu = cs ++ msg_end ∷ after })))
    | inr e ↦ turns_ended (ℕ.suc (length (c ∷ cs))) t e
  ]
