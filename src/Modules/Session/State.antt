-- ===== src/Modules/Session/State.antt =====
-- Properties of the module data that every handler keeps.
use zerver.Prelude.{ℕ, Option, none, some, List, [], ◌∷◌, get_elem?}
use zerver.Modules.Session.{
  Ec, armed, queued, Status, Effect, start_op, set_timer, cancel_timer, cancel_socket, notify,
  exit_context, resume, Session, Handlers, Event, op_done, timer_due, run_op, run_timer, perform,
  perform_all, dispatch_op, dispatch_timer, step, run, remove_at,
}

module _ {Op Timer M : Type 0} (P : M → Type 0) where
  perform_all-keeps :
      (es : List (Effect Op Timer)) (s : Session Op Timer M)
      → P s.state
      → P (perform_all es s).state
  unfolding perform_all perform
  perform_all-keeps [] s p = p
  perform_all-keeps (start_op op ∷ es) s p = perform_all-keeps es _ p
  perform_all-keeps (set_timer t ms ∷ es) s p = perform_all-keeps es _ p
  perform_all-keeps (cancel_timer ∷ es) s p = perform_all-keeps es _ p
  perform_all-keeps (cancel_socket ∷ es) s p = perform_all-keeps es _ p
  perform_all-keeps (notify ∷ es) s p = perform_all-keeps es _ p
  perform_all-keeps (exit_context ∷ es) s p = perform_all-keeps es _ p
  perform_all-keeps (resume m ∷ es) s p = perform_all-keeps es _ p

module _ {Op Timer A M : Type 0} (h : Handlers Op Timer A M) (P : M → Type 0) where
  pub record IsKept : Type 0 where
    pub op_keeps : (op : Op) (ec : Ec) (a : A) (m : M) → P m → P (h.on_op op ec a m).0
    pub timer_keeps : (t : Timer) (ec : Ec) (a : A) (m : M) → P m → P (h.on_timer t ec a m).0

  dispatch_op-keeps :
      IsKept
      → (entry : Option (Op × Status)) (i : ℕ) (a : A) (s : Session Op Timer M) → P s.state
      → P (dispatch_op h entry i a s).state
  unfolding dispatch_op
  dispatch_op-keeps kept none i a s p = p
  dispatch_op-keeps kept (some (op, armed)) i a s p = p
  dispatch_op-keeps kept (some (op, queued ec)) i a s p =
      perform_all-keeps P (h.on_op op ec a s.state).1
        (record s { ops = remove_at s.ops i; state = (h.on_op op ec a s.state).0 })
        (kept.op_keeps op ec a s.state p)

  dispatch_timer-keeps :
      IsKept
      → (entry : Option (Timer × Status)) (i : ℕ) (a : A) (s : Session Op Timer M) → P s.state
      → P (dispatch_timer h entry i a s).state
  unfolding dispatch_timer
  dispatch_timer-keeps kept none i a s p = p
  dispatch_timer-keeps kept (some (t, armed)) i a s p = p
  dispatch_timer-keeps kept (some (t, queued ec)) i a s p =
      perform_all-keeps P (h.on_timer t ec a s.state).1
        (record s { timers = remove_at s.timers i; state = (h.on_timer t ec a s.state).0 })
        (kept.timer_keeps t ec a s.state p)

  -- What holds of the data at first, and what every handler keeps, holds after any events.
  pub run-keeps :
      IsKept → (s : Session Op Timer M) (es : List (Event A)) → P s.state → P (run h s es).state
  unfolding run step
  run-keeps kept s [] p = p
  run-keeps kept s (op_done i ec ∷ es) p = run-keeps kept (step h s (op_done i ec)) es p
  run-keeps kept s (timer_due i ∷ es) p = run-keeps kept (step h s (timer_due i)) es p
  run-keeps kept s (run_op i a ∷ es) p =
      run-keeps kept (step h s (run_op i a)) es (dispatch_op-keeps kept (get_elem? s.ops i) i a s p)
  run-keeps kept s (run_timer i a ∷ es) p =
      run-keeps kept (step h s (run_timer i a)) es
        (dispatch_timer-keeps kept (get_elem? s.timers i) i a s p)

module _ {Op Timer A M : Type 0} (h : Handlers Op Timer A M) (R : M → M → Type 0) where
  dispatch_op-relates :
      ((m : M) → R m m)
      → ((op : Op) (ec : Ec) (a : A) (m : M) → R m (h.on_op op ec a m).0)
      → (entry : Option (Op × Status)) (i : ℕ) (a : A) (s : Session Op Timer M)
      → R s.state (dispatch_op h entry i a s).state
  unfolding dispatch_op
  dispatch_op-relates same ops none i a s = same s.state
  dispatch_op-relates same ops (some (op, armed)) i a s = same s.state
  dispatch_op-relates same ops (some (op, queued ec)) i a s =
      perform_all-keeps (R s.state) (h.on_op op ec a s.state).1
        (record s { ops = remove_at s.ops i; state = (h.on_op op ec a s.state).0 })
        (ops op ec a s.state)

  dispatch_timer-relates :
      ((m : M) → R m m)
      → ((t : Timer) (ec : Ec) (a : A) (m : M) → R m (h.on_timer t ec a m).0)
      → (entry : Option (Timer × Status)) (i : ℕ) (a : A) (s : Session Op Timer M)
      → R s.state (dispatch_timer h entry i a s).state
  unfolding dispatch_timer
  dispatch_timer-relates same timers none i a s = same s.state
  dispatch_timer-relates same timers (some (t, armed)) i a s = same s.state
  dispatch_timer-relates same timers (some (t, queued ec)) i a s =
      perform_all-keeps (R s.state) (h.on_timer t ec a s.state).1
        (record s { timers = remove_at s.timers i; state = (h.on_timer t ec a s.state).0 })
        (timers t ec a s.state)

  -- A reflexive relation that every handler's change of the data is in holds across an event.
  pub step-relates :
      ((m : M) → R m m)
      → ((op : Op) (ec : Ec) (a : A) (m : M) → R m (h.on_op op ec a m).0)
      → ((t : Timer) (ec : Ec) (a : A) (m : M) → R m (h.on_timer t ec a m).0)
      → (s : Session Op Timer M) (e : Event A) → R s.state (step h s e).state
  unfolding step
  step-relates same ops timers s (op_done i ec) = same s.state
  step-relates same ops timers s (timer_due i) = same s.state
  step-relates same ops timers s (run_op i a) =
      dispatch_op-relates same ops (get_elem? s.ops i) i a s
  step-relates same ops timers s (run_timer i a) =
      dispatch_timer-relates same timers (get_elem? s.timers i) i a s
