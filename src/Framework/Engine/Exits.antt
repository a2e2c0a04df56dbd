-- ===== src/Framework/Engine/Exits.antt =====
-- framework/fsm.cc: what `resume` does in each of its cases, for any `_run` that it calls.
use zerver.Prelude.{
  ℕ, String, true, false, none, some, [], ◌∷◌, ◌++◌, ◌≡◌, refl, get_elem?, length,
  get_elem?-set_self, get_elem?-lt, string_eq, get_elem?-append_length, set-append_length,
}
use zerver.Prelude.Maps.{find}
use zerver.Framework.Module.{Module, ModState, mod_start}
use zerver.Framework.Fsm.Links.{target, get_next_module-target, get_next_module-none}
use zerver.Framework.Context.{FsmContext, new_context, exit, init, reset}
use zerver.Framework.Engine.{
  World, App, Runner, done, set_context, is_end, handle_request, end_request, resume,
}

module _ {D M E : Type 0} (app : App D M E) (again : Runner D M E) where
  -- A request whose context is at its exit ends, and no further one is begun on its connection.
  pub end_request-exited :
      (i : ℕ) (w : World D M E) (c : FsmContext D M)
      → get_elem? w.contexts i ≡ some c
      → c.exited ≡ true
      → end_request app again i w ≡ done w
  unfolding end_request
  end_request-exited i w c e x = rw (e, end_request, x)

  -- A request whose context is not at its exit is followed by one in a new context for the same
  -- connection, where `init` and `reset` of that context succeed and there is a start module.
  pub end_request-restarts :
      (i : ℕ) (w : World D M E) (c fresh fresh' : FsmContext D M) (start : Module)
      → get_elem? w.contexts i ≡ some c
      → c.exited ≡ false
      → init app.ops w.fsm (new_context c.conn) ≡ some fresh
      → reset app.ops (app.rand w.env).0 fresh ≡ some fresh'
      → w.fsm.start_mod ≡ some start
      → end_request app again i w
        ≡ again start
            (length w.contexts)
            mod_start
            (record w { contexts = w.contexts ++ fresh' ∷ []; env = (app.rand w.env).1 })
  unfolding end_request handle_request
  end_request-restarts i w c fresh fresh' start e x ini res st = rw (
    e,
    end_request,
    x,
    ini,
    handle_request,
    get_elem?-append_length w.contexts fresh,
    res,
    st,
    set-append_length w.contexts fresh fresh',
  )

  pub resume-end :
      (mo : Module) (s : ModState) (i : ℕ) (w : World D M E)
      → is_end w mo ≡ true
      → resume app again mo s i w ≡ end_request app again i w
  unfolding resume
  resume-end mo s i w e = rw (e, resume)

  pub resume-moves :
      (mo next : Module) (s : ModState) (t : String) (i : ℕ) (w : World D M E)
      → is_end w mo ≡ false
      → target w.fsm mo.name s ≡ some t
      → find t w.fsm.mod_map ≡ some (some next)
      → resume app again mo s i w ≡ again next i s w
  unfolding resume
  resume-moves mo next s t i w e tgt found =
      rw (e, resume, get_next_module-target w.fsm mo next s t tgt found)

  -- A module, not the end module, with no link for its state and none for `Mod_else` puts the context
  -- at its exit: the request ends, no module is run and no further request is begun.
  pub resume-exits :
      (mo : Module) (s : ModState) (i : ℕ) (w : World D M E) (c : FsmContext D M)
      → is_end w mo ≡ false
      → target w.fsm mo.name s ≡ none
      → get_elem? w.contexts i ≡ some c
      → resume app again mo s i w ≡ done (set_context w i (exit c))
  unfolding resume exit
  resume-exits mo s i w c e tgt h = rw (
    e,
    resume,
    get_next_module-none w.fsm mo s tgt,
    h,
    end_request-exited i (set_context w i (exit c)) (exit c)
        (get_elem?-set_self w.contexts i (exit c) (get_elem?-lt w.contexts i h)) refl,
  )
