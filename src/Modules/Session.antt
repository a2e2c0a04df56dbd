-- ===== src/Modules/Session.antt =====
-- The asynchronous operations of one module in one context, as boost::asio documents them: an
-- operation or a timer is armed until it is done, due or cancelled; its handler then stands in the queue
-- with an error code and is run later, and nothing takes it back out of the queue. `expires_from_now`
-- and `cancel` of a timer, and `cancel` of a socket, put the armed ones into the queue as aborted.
-- The handlers of a class of modules, in the files beside this one, give the effects that they have.
pub mod Once
pub mod State
pub mod Endings
use zerver.Prelude.{
  ℕ, zero, suc, ◌+◌, Bool, true, false, Option, none, some, List, [], ◌∷◌, ◌++◌, map, get_elem?,
  set, length,
}
use zerver.Framework.Module.{ModState}

pub data Ec : Type 0 where
  no_error operation_aborted other_error : Ec

pub data Status : Type 0 where
  armed : Status
  queued : Ec → Status

-- What a handler does, in order. The calls of virtual functions that only tell the application are
-- `notify`.
pub data Effect (Op Timer : Type 0) : Type 0 where
  start_op : Op → Effect Op Timer
  set_timer : Timer → ℕ → Effect Op Timer
  cancel_timer : Effect Op Timer
  cancel_socket : Effect Op Timer
  notify : Effect Op Timer
  exit_context : Effect Op Timer
  resume : ModState → Effect Op Timer

pub record Session (Op Timer M : Type 0) : Type 0 where
  pub ops : List (Op × Status)
  pub timers : List (Timer × Status)
  pub state : M
  pub exited : Bool
  pub resumed : List ModState

-- The handlers of a class: `A` is what its virtual functions and `cancel` answer, `M` its module data.
pub record Handlers (Op Timer A M : Type 0) : Type 0 where
  pub on_op : Op → Ec → A → M → M × List (Effect Op Timer)
  pub on_timer : Timer → Ec → A → M → M × List (Effect Op Timer)

abbrev pub abort : Status → Status
abort armed = queued operation_aborted
abort (queued ec) = queued ec

abbrev pub abort_all {ℓ} : {A : Type ℓ} → List (A × Status) → List (A × Status)
abort_all [] = []
abort_all ((a, s) ∷ l) = (a, abort s) ∷ abort_all l

abbrev pub remove_at {ℓ} : {A : Type ℓ} → List A → ℕ → List A
remove_at [] i = []
remove_at (x ∷ l) zero = l
remove_at (x ∷ l) (suc i) = x ∷ remove_at l i

-- Something happens to the entry at an index: an operation ends, a timer runs out, or a handler that
-- is queued is run.
pub data Event (A : Type 0) : Type 0 where
  op_done : ℕ → Ec → Event A
  timer_due : ℕ → Event A
  run_op : ℕ → A → Event A
  run_timer : ℕ → A → Event A

module _ {Op Timer M : Type 0} where
  unfoldable pub perform : Effect Op Timer → Session Op Timer M → Session Op Timer M
  perform (start_op op) s = record s { ops = s.ops ++ (op, armed) ∷ [] }
  perform (set_timer t ms) s = record s { timers = abort_all s.timers ++ (t, armed) ∷ [] }
  perform cancel_timer s = record s { timers = abort_all s.timers }
  perform cancel_socket s = record s { ops = abort_all s.ops }
  perform notify s = s
  perform exit_context s = record s { exited = true }
  perform (resume state) s = record s { resumed = s.resumed ++ state ∷ [] }

  unfoldable pub perform_all : List (Effect Op Timer) → Session Op Timer M → Session Op Timer M
  unfolding perform
  perform_all [] s = s
  perform_all (e ∷ es) s = perform_all es (perform e s)

-- An entry that is armed is queued with the error code.
abbrev pub finish {ℓ} : {A : Type ℓ} → List (A × Status) → ℕ → Ec → List (A × Status)
finish [] i ec = []
finish ((a, armed) ∷ l) zero ec = (a, queued ec) ∷ l
finish ((a, queued ec') ∷ l) zero ec = (a, queued ec') ∷ l
finish (x ∷ l) (suc i) ec = x ∷ finish l i ec

module _ {Op Timer A M : Type 0} (h : Handlers Op Timer A M) where
  -- The handler of an operation, if it is queued.
  unfoldable pub dispatch_op :
      Option (Op × Status) → ℕ → A → Session Op Timer M → Session Op Timer M
  unfolding perform_all
  dispatch_op none i a s = s
  dispatch_op (some (op, armed)) i a s = s
  dispatch_op (some (op, queued ec)) i a s =
      let (m, effects) = h.on_op op ec a s.state in
      perform_all effects (record s { ops = remove_at s.ops i; state = m })

  unfoldable pub dispatch_timer :
      Option (Timer × Status) → ℕ → A → Session Op Timer M → Session Op Timer M
  unfolding perform_all
  dispatch_timer none i a s = s
  dispatch_timer (some (t, armed)) i a s = s
  dispatch_timer (some (t, queued ec)) i a s =
      let (m, effects) = h.on_timer t ec a s.state in
      perform_all effects (record s { timers = remove_at s.timers i; state = m })

  unfoldable pub step : Session Op Timer M → Event A → Session Op Timer M
  unfolding dispatch_op dispatch_timer
  step s (op_done i ec) = record s { ops = finish s.ops i ec }
  step s (timer_due i) = record s { timers = finish s.timers i no_error }
  step s (run_op i a) = dispatch_op (get_elem? s.ops i) i a s
  step s (run_timer i a) = dispatch_timer (get_elem? s.timers i) i a s

  unfoldable pub run : Session Op Timer M → List (Event A) → Session Op Timer M
  run s [] = s
  run s (e ∷ es) = run (step s e) es
