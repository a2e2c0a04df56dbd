-- ===== src/Modules/Session/Endings.antt =====
-- Classes whose modules have one operation under way until they end.
use zerver.Prelude.{
  ℕ, zero, suc, Bool, false, Option, none, some, List, [], ◌∷◌, ◌++◌, ◌≡◌, refl, sym, subst,
  get_elem?,
}
use zerver.Framework.Module.{ModState}
use zerver.Modules.Session.{
  Ec, armed, queued, Status, Session, Handlers, Event, op_done, timer_due, run_op, run_timer,
  perform_all, dispatch_op, dispatch_timer, step, run, remove_at, Effect,
}

-- The module data while an operation is under way; and for each ending the data, whether the context is
-- at its exit, and the states with which the machine has been resumed.
pub record Endings (M End : Type 0) : Type 0 where
  pub busy_data : M
  pub end_data : End → M
  pub end_exited : End → Bool
  pub end_states : End → List ModState

-- A module is doing an operation, or is over.
pub data Phase (Op End : Type 0) : Type 0 where
  doing : Op → Phase Op End
  over : End → Phase Op End

-- A table gives the phase after an operation, by its error code and the answers. Here are the phases
-- after the handlers of operations have been called one after another.
abbrev pub after_calls :
    {Op A End : Type 0} → (Op → Ec → A → Phase Op End) → Phase Op End → List (Ec × A) → Phase Op End
after_calls table p [] = p
after_calls table (doing op) ((ec, a) ∷ cs) = after_calls table (table op ec a) cs
after_calls table (over e) (c ∷ cs) = over e

abbrev pub call_of : {Op A : Type 0} → Option (Op × Status) → A → List (Ec × A)
call_of none a = []
call_of (some (op, armed)) a = []
call_of (some (op, queued ec)) a = (ec, a) ∷ []

-- The call of an operation's handler at an event, if there is one, and all of them during some events.
abbrev pub call : {Op Timer A M : Type 0} → Session Op Timer M → Event A → List (Ec × A)
call s (run_op i a) = call_of (get_elem? s.ops i) a
call s _ = []

abbrev pub calls :
    {Op Timer A M : Type 0}
    → Handlers Op Timer A M
    → Session Op Timer M
    → List (Event A)
    → List (Ec × A)
calls h s [] = []
calls h s (ev ∷ es) = call s ev ++ calls h (step h s ev) es

after_calls-over :
    {Op A End : Type 0} (table : Op → Ec → A → Phase Op End) (e : End) (cs : List (Ec × A))
    → after_calls table (over e) cs ≡ over e
after_calls-over table e [] = refl
after_calls-over table e (c ∷ cs) = refl

after_calls-append :
    {Op A End : Type 0} (table : Op → Ec → A → Phase Op End) (p : Phase Op End)
    (cs ds : List (Ec × A))
    → after_calls table p (cs ++ ds) ≡ after_calls table (after_calls table p cs) ds
after_calls-append table p [] ds = refl
after_calls-append table (doing op) ((ec, a) ∷ cs) ds =
    after_calls-append table (table op ec a) cs ds
after_calls-append table (over e) (c ∷ cs) ds = sym (after_calls-over table e ds)

module _ {Op Timer M End : Type 0} (ends : Endings M End) where
  abbrev pub under_way : Op → Status → List (Timer × Status) → Session Op Timer M
  under_way op status timers = record {
    ops = (op, status) ∷ [];
    timers = timers;
    state = ends.busy_data;
    exited = false;
    resumed = [];
  }

  abbrev pub ended : End → List (Timer × Status) → Session Op Timer M
  ended e timers = record {
    ops = [];
    timers = timers;
    state = ends.end_data e;
    exited = ends.end_exited e;
    resumed = ends.end_states e;
  }

  -- The session is all that the phase says, with some timers.
  abbrev pub IsIn : Phase Op End → Session Op Timer M → Type 0
  IsIn (doing op) s =
      (status : Status) × (timers : List (Timer × Status)) × (s ≡ under_way op status timers)
  IsIn (over e) s = (timers : List (Timer × Status)) × (s ≡ ended e timers)

  -- The handler of the one operation has the effects, and leaves the data.
  abbrev pub after_op : M × List (Effect Op Timer) → List (Timer × Status) → Session Op Timer M
  after_op (m, effects) timers =
      perform_all effects
        (record { ops = []; timers = timers; state = m; exited = false; resumed = [] })

module _ {Op Timer A M End : Type 0} (h : Handlers Op Timer A M) (ends : Endings M End)
    (table : Op → Ec → A → Phase Op End) where
  -- The handlers of operations follow the table; those of timers leave the phase.
  pub record Follows : Type 0 where
    pub op_follows :
        (op : Op) (ec : Ec) (a : A) (timers : List (Timer × Status))
        → IsIn ends (table op ec a) (after_op ends (h.on_op op ec a ends.busy_data) timers)
    pub timer_busy :
        (t : Timer) (ec : Ec) (a : A) (op : Op) (status : Status) (timers : List (Timer × Status))
        → IsIn ends (doing op) (
            perform_all
              (h.on_timer t ec a ends.busy_data).1
              (record (under_way ends op status timers) {
                state = (h.on_timer t ec a ends.busy_data).0;
              }))
    pub timer_over :
        (t : Timer) (ec : Ec) (a : A) (e : End) (timers : List (Timer × Status))
        → IsIn {Op = Op} ends (over e) (
            perform_all
              (h.on_timer t ec a (ends.end_data e)).1
              (record (ended ends e timers) { state = (h.on_timer t ec a (ends.end_data e)).0 }))

  busy-dispatch_timer :
      Follows
      → (op : Op) (status : Status) (timers : List (Timer × Status))
        (entry : Option (Timer × Status)) (i : ℕ) (a : A)
      → IsIn ends (doing op) (dispatch_timer h entry i a (under_way ends op status timers))
  unfolding dispatch_timer
  busy-dispatch_timer v op status timers none i a = (_, _, refl)
  busy-dispatch_timer v op status timers (some (t, armed)) i a = (_, _, refl)
  busy-dispatch_timer v op status timers (some (t, queued ec)) i a =
      v.timer_busy t ec a op status (remove_at timers i)

  over-dispatch_timer :
      Follows
      → (e : End) (timers : List (Timer × Status)) (entry : Option (Timer × Status)) (i : ℕ) (a : A)
      → IsIn {Op = Op} ends (over e) (dispatch_timer h entry i a (ended ends e timers))
  unfolding dispatch_timer
  over-dispatch_timer v e timers none i a = (_, refl)
  over-dispatch_timer v e timers (some (t, armed)) i a = (_, refl)
  over-dispatch_timer v e timers (some (t, queued ec)) i a =
      v.timer_over t ec a e (remove_at timers i)

  busy-step :
      Follows
      → (op : Op) (status : Status) (timers : List (Timer × Status)) (ev : Event A)
      → IsIn ends
          (after_calls table (doing op) (call (under_way ends op status timers) ev))
          (step h (under_way ends op status timers) ev)
  unfolding step dispatch_op
  busy-step v op armed timers (op_done zero ec) = (_, _, refl)
  busy-step v op (queued ec') timers (op_done zero ec) = (_, _, refl)
  busy-step v op armed timers (op_done (suc i) ec) = (_, _, refl)
  busy-step v op (queued ec') timers (op_done (suc i) ec) = (_, _, refl)
  busy-step v op status timers (timer_due i) = (_, _, refl)
  busy-step v op armed timers (run_op zero a) = (_, _, refl)
  busy-step v op (queued ec) timers (run_op zero a) = v.op_follows op ec a timers
  busy-step v op status timers (run_op (suc i) a) = (_, _, refl)
  busy-step v op status timers (run_timer i a) =
      busy-dispatch_timer v op status timers (get_elem? timers i) i a

  over-step :
      Follows
      → (e : End) (timers : List (Timer × Status)) (ev : Event A)
      → IsIn {Op = Op} ends (over e) (step h (ended ends e timers) ev)
  unfolding step dispatch_op
  over-step v e timers (op_done i ec) = (_, refl)
  over-step v e timers (timer_due i) = (_, refl)
  over-step v e timers (run_op i a) = (_, refl)
  over-step v e timers (run_timer i a) = over-dispatch_timer v e timers (get_elem? timers i) i a

  step-IsIn :
      Follows
      → (p : Phase Op End) (s : Session Op Timer M) (ev : Event A) → IsIn ends p s
      → IsIn ends (after_calls table p (call s ev)) (step h s ev)
  step-IsIn v (doing op) s ev (status, timers, same) =
      subst (λ s'. IsIn ends (after_calls table (doing op) (call s' ev)) (step h s' ev)) (sym same)
        (busy-step v op status timers ev)
  step-IsIn v (over e) s ev (timers, same) =
      subst (λ q. IsIn ends q (step h s ev)) (sym (after_calls-over table e (call s ev)))
        (subst (λ s'. IsIn {Op = Op} ends (over e) (step h s' ev)) (sym same)
          (over-step v e timers ev))

  -- A module that is in a phase is, after any events, in the phase that the table gives for the calls of
  -- the operations' handlers during them.
  pub run-IsIn :
      Follows
      → (p : Phase Op End) (s : Session Op Timer M) (es : List (Event A)) → IsIn ends p s
      → IsIn ends (after_calls table p (calls h s es)) (run h s es)
  unfolding run
  run-IsIn v p s [] k = k
  run-IsIn v p s (ev ∷ es) k =
      subst (λ q. IsIn ends q (run h (step h s ev) es))
        (sym (after_calls-append table p (call s ev) (calls h (step h s ev) es)))
        (run-IsIn v (after_calls table p (call s ev)) (step h s ev) es (step-IsIn v p s ev k))
