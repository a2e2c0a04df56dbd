-- ===== src/Modules/Session/Once.antt =====
-- Classes whose handlers go on in one way: each operation's handler starts the next operation or
-- resumes the machine.
use zerver.Prelude.{
  ℕ, zero, suc, ◌+◌, ◌≤◌, Bool, true, Option, none, some, List, [], ◌∷◌, ◌≡◌, refl, ap, ◌∙◌, ◌⊎◌,
  arith, get_elem?, length, length-append, inl, inr, All,
}
use zerver.Modules.Session.{
  Ec, Status, armed, queued, Effect, start_op, set_timer, cancel_timer, cancel_socket, notify,
  exit_context, resume, Session, Handlers, abort_all, remove_at, Event, op_done, timer_due, run_op,
  run_timer, perform, perform_all, finish, dispatch_op, dispatch_timer, step, run,
}

-- How many operations a handler starts, and how often it resumes the machine.
abbrev starts : {Op Timer : Type 0} → Effect Op Timer → ℕ
starts (start_op op) = 1
starts _ = 0

abbrev resumptions : {Op Timer : Type 0} → Effect Op Timer → ℕ
resumptions (resume s) = 1
resumptions _ = 0

abbrev pub started : {Op Timer : Type 0} → List (Effect Op Timer) → ℕ
started [] = 0
started (e ∷ es) = starts e + started es

abbrev pub resumes : {Op Timer : Type 0} → List (Effect Op Timer) → ℕ
resumes [] = 0
resumes (e ∷ es) = resumptions e + resumes es

length-abort_all {ℓ} : {A : Type ℓ} (l : List (A × Status)) → length (abort_all l) ≡ length l
length-abort_all [] = refl
length-abort_all ((a, s) ∷ l) = ap suc (length-abort_all l)

length-finish {ℓ} :
    {A : Type ℓ} (l : List (A × Status)) (i : ℕ) (ec : Ec) → length (finish l i ec) ≡ length l
length-finish [] i ec = refl
length-finish ((a, armed) ∷ l) zero ec = refl
length-finish ((a, queued e) ∷ l) zero ec = refl
length-finish ((a, armed) ∷ l) (suc i) ec = ap suc (length-finish l i ec)
length-finish ((a, queued e) ∷ l) (suc i) ec = ap suc (length-finish l i ec)

length-remove_at {ℓ} :
    {A : Type ℓ} (l : List A) (i : ℕ) (x : A)
    → get_elem? l i ≡ some x
    → length (remove_at l i) + 1 ≡ length l
length-remove_at [] i x h = cc
length-remove_at (y ∷ l) zero x h = omega arith
length-remove_at (y ∷ l) (suc i) x h = omega (arith, length-remove_at l i x h)

module _ {Op Timer M : Type 0} where
  perform-counts :
      (e : Effect Op Timer) (s : Session Op Timer M)
      → (length (perform e s).ops ≡ length s.ops + starts e)
        × (length (perform e s).resumed ≡ length s.resumed + resumptions e)
        × ((perform e s).state ≡ s.state)
  unfolding perform
  perform-counts (start_op op) s = (length-append s.ops _, omega arith, refl)
  perform-counts (set_timer t ms) s = (omega arith, omega arith, refl)
  perform-counts cancel_timer s = (omega arith, omega arith, refl)
  perform-counts cancel_socket s = (omega (arith, length-abort_all s.ops), omega arith, refl)
  perform-counts notify s = (omega arith, omega arith, refl)
  perform-counts exit_context s = (omega arith, omega arith, refl)
  perform-counts (resume state) s = (omega arith, length-append s.resumed _, refl)

  perform_all-counts :
      (es : List (Effect Op Timer)) (s : Session Op Timer M)
      → (length (perform_all es s).ops ≡ length s.ops + started es)
        × (length (perform_all es s).resumed ≡ length s.resumed + resumes es)
        × ((perform_all es s).state ≡ s.state)
  unfolding perform_all
  perform_all-counts [] s = (omega arith, omega arith, refl)
  perform_all-counts (e ∷ es) s =
      let (o, r, m) = perform_all-counts es (perform e s) in
      let (o', r', m') = perform-counts e s in
      (omega (arith, o, r, o', r'), omega (arith, o, r, o', r'), m ∙ m')

module _ {Op Timer A M : Type 0} (h : Handlers Op Timer A M) (busy : M → Bool)
    (goes : A → Bool) where
  -- `busy` holds of the module data while an operation is under way; `goes` holds of the answers with
  -- which a handler does not give up.
  pub record IsLinear : Type 0 where
    pub op_once :
        (op : Op) (ec : Ec) (a : A) (m : M)
        → busy m ≡ true
        → started (h.on_op op ec a m).1 + resumes (h.on_op op ec a m).1 ≤ 1
    pub op_goes :
        (op : Op) (ec : Ec) (a : A) (m : M)
        → busy m ≡ true
        → goes a ≡ true
        → started (h.on_op op ec a m).1 + resumes (h.on_op op ec a m).1 ≡ 1
    pub op_busy :
        (op : Op) (ec : Ec) (a : A) (m : M)
        → busy m ≡ true
        → (started (h.on_op op ec a m).1 ≡ 0) ⊎ (busy (h.on_op op ec a m).0 ≡ true)
    pub timer_none :
        (t : Timer) (ec : Ec) (a : A) (m : M)
        → started (h.on_timer t ec a m).1 + resumes (h.on_timer t ec a m).1 ≡ 0
    pub timer_busy :
        (t : Timer) (ec : Ec) (a : A) (m : M) → busy m ≡ true → busy (h.on_timer t ec a m).0 ≡ true

  abbrev pub IsBusy : Session Op Timer M → Type 0
  IsBusy s = (length s.ops ≡ 0) ⊎ (busy s.state ≡ true)

  -- Operations under way and resumptions, together.
  abbrev pub weight : Session Op Timer M → ℕ
  weight s = length s.ops + length s.resumed

  -- The answers of an event do not make the handler give up.
  abbrev pub Goes : Event A → Type 0
  Goes (op_done i ec) = Unit
  Goes (timer_due i) = Unit
  Goes (run_op i a) = goes a ≡ true
  Goes (run_timer i a) = goes a ≡ true

  dispatch_op-weight :
      IsLinear
      → (s : Session Op Timer M) (i : ℕ) (a : A) (entry : Option (Op × Status))
      → get_elem? s.ops i ≡ entry
      → length s.ops ≤ 1
      → IsBusy s
      → IsBusy (dispatch_op h entry i a s)
        × (weight (dispatch_op h entry i a s) ≤ weight s)
        × (goes a ≡ true → weight (dispatch_op h entry i a s) ≡ weight s)
  unfolding dispatch_op
  dispatch_op-weight lin s i a none e one b = (b, omega arith, λ g. refl)
  dispatch_op-weight lin s i a (some (op, armed)) e one b = (b, omega arith, λ g. refl)
  dispatch_op-weight lin s i a (some (op, queued ec)) e one b =
      let left = length-remove_at s.ops i (op, queued ec) e in
      let (m, effects) = h.on_op op ec a s.state in
      let (o, r, same) =
        perform_all-counts effects (record s { ops = remove_at s.ops i; state = m }) in
      let busy_ : busy s.state ≡ true = ground arith in
      (
        elim (lin.op_busy op ec a s.state busy_) [
          | inl none_ ↦ inl (omega arith)
          | inr on ↦ inr (ap busy same ∙ on)
        ],
        omega (arith, lin.op_once op ec a s.state busy_),
        λ g. omega (arith, lin.op_goes op ec a s.state busy_ g),
      )

  dispatch_timer-weight :
      IsLinear
      → (s : Session Op Timer M) (i : ℕ) (a : A) (entry : Option (Timer × Status)) → IsBusy s
      → IsBusy (dispatch_timer h entry i a s)
        × (weight (dispatch_timer h entry i a s) ≤ weight s)
        × (goes a ≡ true → weight (dispatch_timer h entry i a s) ≡ weight s)
  unfolding dispatch_timer
  dispatch_timer-weight lin s i a none b = (b, omega arith, λ g. refl)
  dispatch_timer-weight lin s i a (some (t, armed)) b = (b, omega arith, λ g. refl)
  dispatch_timer-weight lin s i a (some (t, queued ec)) b =
      let (m, effects) = h.on_timer t ec a s.state in
      let (o, r, same) =
        perform_all-counts effects (record s { timers = remove_at s.timers i; state = m }) in
      let none_ = lin.timer_none t ec a s.state in
      (
        elim b [
          | inl empty ↦ inl (omega arith)
          | inr on ↦ inr (ap busy same ∙ lin.timer_busy t ec a s.state on)
        ],
        omega arith,
        λ g. omega arith,
      )

  -- What an event keeps: at most one operation, and only while the module is busy.
  pub step-weight :
      IsLinear
      → (s : Session Op Timer M) (e : Event A) → length s.ops ≤ 1
      → IsBusy s
      → IsBusy (step h s e)
        × (weight (step h s e) ≤ weight s)
        × (Goes e → weight (step h s e) ≡ weight s)
  unfolding step
  step-weight lin s (op_done i ec) one b =
      let n = length-finish s.ops i ec in
      (ground (arith, n), omega (arith, n), λ g. omega (arith, n))
  step-weight lin s (timer_due i) one b = (b, omega arith, λ g. refl)
  step-weight lin s (run_op i a) one b = dispatch_op-weight lin s i a (get_elem? s.ops i) refl one b
  step-weight lin s (run_timer i a) one b = dispatch_timer-weight lin s i a (get_elem? s.timers i) b

  run-weight :
      IsLinear
      → (s : Session Op Timer M) (es : List (Event A)) → weight s ≤ 1
      → IsBusy s
      → (weight (run h s es) ≤ 1) × (All Goes es → weight (run h s es) ≡ weight s)
  unfolding run
  run-weight lin s [] one b = (one, λ g. refl)
  run-weight lin s (e ∷ es) one b =
      let (b', le, eq) = step-weight lin s e (omega arith) b in
      let (one', eq') = run-weight lin (step h s e) es (omega arith) b' in
      (one', λ g. eq' g.1 ∙ eq g.0)

  -- A module that has begun one operation resumes the machine at most once, whatever happens in what
  -- order. If no handler gives up, then it has resumed it exactly once as soon as no operation is under
  -- way, and not before.
  pub run-resumes_once :
      IsLinear
      → (s : Session Op Timer M) (es : List (Event A)) → length s.ops ≡ 1
      → s.resumed ≡ []
      → busy s.state ≡ true
      → (length (run h s es).resumed ≤ 1)
        × (All Goes es → length (run h s es).ops + length (run h s es).resumed ≡ 1)
  run-resumes_once lin s es one none_ b =
      let zero_ : length s.resumed ≡ 0 = ap length none_ in
      let (le, eq) = run-weight lin s es (omega arith) (inr b) in
      (omega arith, λ g. omega (arith, eq g))
