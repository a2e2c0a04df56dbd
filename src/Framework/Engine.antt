-- ===== src/Framework/Engine.antt =====
-- framework/fsm.cc: `handle_request`, `resume`, `_run` and `_end_request`, over the store of contexts
-- that the handlers share. `Module::run` is virtual: it is a parameter, which may change the store.
-- `_run` calls itself at the next module and, by way of `_end_request`, at the first module of the
-- next request, so it takes fuel; `Framework/Engine/Total.antt` gives fuel that is enough.
pub mod Runs
pub mod Total
pub mod Exits
pub mod Accept
use zerver.Prelude.{
  ℕ, zero, suc, Bool, true, false, Option, none, some, List, [], ◌∷◌, ◌++◌, if◌then◌else◌, ◌==◌,
  get_elem?, set, length, ◌≡◌, refl,
}
use zerver.Framework.Module.{Module, ModState, mod_async, mod_start, same_module}
use zerver.Framework.Fsm.{Fsm, get_next_module}
use zerver.Framework.Context.{DataOps, FsmContext, new_context, exit, init, reset}

-- A `FsmContextPtr` is the index of its context. `env` is the rest of the program's state.
pub record World (D M E : Type 0) : Type 0 where
  pub fsm : Fsm
  pub contexts : List (FsmContext D M)
  pub env : E

-- The virtual functions of the application, and the draw of `rand_r`.
pub record App (D M E : Type 0) : Type 0 where
  pub ops : DataOps D M
  pub rand : E → ℕ × E
  pub run : Module → ℕ → ModState → World D M E → ModState × World D M E

-- `crash` is a call through a null pointer.
pub data Outcome {ℓ} (A : Type ℓ) : Type ℓ where
  done : A → Outcome A
  crash : Outcome A
  out_of_fuel : Outcome A

infixl 5 ◌>>=◌
abbrev pub ◌>>=◌ {ℓ κ} : {A : Type ℓ} {B : Type κ} → Outcome A → (A → Outcome B) → Outcome B
done a >>= f = f a
crash >>= f = crash
out_of_fuel >>= f = out_of_fuel

abbrev pub deref {ℓ} : {A : Type ℓ} → Option A → Outcome A
deref none = crash
deref (some a) = done a

-- The type of `_run`: module, context, state of the last module, store.
abbrev pub Runner : Type 0 → Type 0 → Type 0 → Type 0
Runner D M E = Module → ℕ → ModState → World D M E → Outcome (World D M E)

-- The value that a pointer leads to, or that a step which succeeds gives.
pub deref-done {ℓ} : {A : Type ℓ} (o : Option A) {a : A} → deref o ≡ done a → o ≡ some a
deref-done none h = cc
deref-done (some b) h = cc

pub >>=-done {ℓ κ} :
    {A : Type ℓ} {B : Type κ} (m : Outcome A) (f : A → Outcome B) {b : B}
    → (m >>= f) ≡ done b
    → (a : A) × (m ≡ done a) × (f a ≡ done b)
>>=-done (done a) f h = (a, refl, h)
>>=-done crash f h = cc
>>=-done out_of_fuel f h = cc

module _ {D M E : Type 0} where
  abbrev pub set_context : World D M E → ℕ → FsmContext D M → World D M E
  set_context w i c = record w { contexts = set w.contexts i c }

  abbrev pub is_end : World D M E → Module → Bool
  is_end w mo = elim w.fsm.end_mod [ none ↦ false | some e ↦ same_module mo e ]

module _ {D M E : Type 0} (app : App D M E) where
  -- Each function takes the `_run` that it calls.
  unfoldable pub handle_request : Runner D M E → ℕ → World D M E → Outcome (World D M E)
  handle_request again i w = do
    c ← deref (get_elem? w.contexts i)
    let (drawn, env') = app.rand w.env
    c' ← deref (reset app.ops drawn c)
    start ← deref w.fsm.start_mod
    again start i mod_start (record (set_context w i c') { env = env' })

  unfoldable pub end_request : Runner D M E → ℕ → World D M E → Outcome (World D M E)
  unfolding handle_request
  end_request again i w = do
    c ← deref (get_elem? w.contexts i)
    elim c.exited [
      | true ↦ done w
      | false ↦ do
        fresh ← deref (init app.ops w.fsm (new_context c.conn))
        handle_request again (length w.contexts) (record w { contexts = w.contexts ++ fresh ∷ [] })
    ]

  -- What `_run` and `resume` do with the module that `_get_next_module` gives.
  unfoldable pub advance :
      Runner D M E → ModState → ℕ → World D M E → Option Module × Fsm → Outcome (World D M E)
  advance again state i w (none, fsm') = do
    c ← deref (get_elem? w.contexts i)
    end_request again i (set_context (record w { fsm = fsm' }) i (exit c))
  advance again state i w (some mo, fsm') = again mo i state (record w { fsm = fsm' })

  unfoldable pub resume : Runner D M E → Module → ModState → ℕ → World D M E → Outcome (World D M E)
  unfolding end_request advance
  resume again last state i w = elim (is_end w last) [
    | true ↦ end_request again i w
    | false ↦ advance again state i w (get_next_module w.fsm last state)
  ]

  -- What `_run` does after `run` has given a state, as `resume` does.
  unfoldable pub after_run :
      Runner D M E → Module → ℕ → ModState × World D M E → Outcome (World D M E)
  unfolding resume
  after_run again mo i (state, w) = elim (state == mod_async) [
    | true ↦ done w
    | false ↦ resume again mo state i w
  ]

  unfoldable pub run_fuel : ℕ → Runner D M E
  run_fuel zero mo i last w = out_of_fuel
  run_fuel (suc k) mo i last w = after_run (run_fuel k) mo i (app.run mo i last w)
