-- ===== src/Program/Config/Crash.antt =====
-- The first look at the default sink where components/pa.c has no context.
use slstatus.Prelude.{ℕ, ◌≡◌, refl, sym, ap, ◌∙◌, true, false, List, [], ◌∷◌, Option, none}
use slstatus.Util.{World}
use slstatus.Util.Float.{Float}
use slstatus.Pool.{TailQueue, empty, find_by}
use slstatus.Pool.Find.{IsLinked, IsLinked-empty}
use slstatus.Nm
use slstatus.Pa
use slstatus.Pa.Init
use slstatus.Pa.Sink
use slstatus.Pa.Sink.{pa_find_by_sink-refused}
use slstatus.Pa.Texts.{pa_line, of_entry, print_line}
use slstatus.Program.{Components, Libraries, connect, setup}
use slstatus.Program.Config.{call_pa_line, pa_result}
use mathlib.Core.Path.{subst}

module _ (F : Float) (T : TailQueue) (new_id : List Nm.Call → ℕ) where
  pa_state_callback_pool :
      (state : Init.ContextState) (c : Init.Connection T)
      → (Init.pa_state_callback T state c).pa.pool ≡ c.pa.pool
  unfolding Init.pa_state_callback
  pa_state_callback_pool Init.ready c = refl
  pa_state_callback_pool Init.terminated c = refl
  pa_state_callback_pool Init.failed c = refl
  pa_state_callback_pool Init.other c = refl

  connect_pool :
      (states : List Init.ContextState) (c : Init.Connection T)
      → (connect F T new_id states c).pa.pool ≡ c.pa.pool
  unfolding connect
  connect_pool [] c = refl
  connect_pool (state ∷ states) c =
      connect_pool states (Init.pa_state_callback T state c) ∙ pa_state_callback_pool state c

  setup_pool :
      (l : Libraries F T new_id) (s : Components F T new_id) (w : World)
      → (setup F T new_id l s w).0.connection.pa.pool ≡ empty T
  unfolding setup
  setup_pool l s w = connect_pool l.states _

  setup_accepts :
      (l : Libraries F T new_id) (s : Components F T new_id) (w : World)
      → (setup F T new_id l s w).0.connection.pa.accepts ≡ (Init.pa_init l.pulse).pa_ctx
  unfolding setup
  setup_accepts l s w = refl

  find_by-empty : find_by T Sink.is_default (empty T) ≡ none
  unfolding find_by empty slstatus.Pool.walk
  find_by-empty = ap (slstatus.Pool.walk Sink.is_default (λ p. none)) (TailQueue.entries-init T)

  refused_lem :
      (s : Components F T new_id) (w : World) (o : Option (ℕ × Pa.Pa T))
      → o ≡ none
      → (pa_result F T new_id s w (of_entry T (print_line T) o w)).1.crashed ≡ true
  unfolding pa_result of_entry
  refused_lem s w o h =
      subst (λ r. (pa_result F T new_id s w (of_entry T (print_line T) r w)).1.crashed ≡ true)
        (sym h) refl

  -- Where `pa_init` fails, on whichever of its error paths, the first call of `pa_line` for the
  -- default sink behind the setup, as the table of config.def.h makes it, ends the program: the
  -- request is made of a context that is NULL.
  pub setup-pa_line :
      (l : Libraries F T new_id) (s : Components F T new_id) (w w' : World)
      → (Init.pa_init l.pulse).pa_ctx ≡ false
      → (call_pa_line F T new_id none (setup F T new_id l s w).0 w').1.crashed ≡ true
  unfolding call_pa_line pa_line
  setup-pa_line l s w w' h =
      let t = (setup F T new_id l s w).0 in
      let pool = sym (setup_pool l s w) in
      refused_lem t w' (Pa.pa_find_by_sink T none t.connection.pa) (
        pa_find_by_sink-refused T t.connection.pa (subst (IsLinked T) pool (IsLinked-empty T))
          (setup_accepts l s w ∙ h)
          (subst (λ q. find_by T Sink.is_default q ≡ none) pool find_by-empty))
