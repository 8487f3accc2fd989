-- ===== src/Gui/Called.antt =====
-- plugins/sdlgui.c, lib/plugins.c and lib/ui.c together: from the call of a script to what is drawn.
use wallyd.Common.{ℕ, ◌≡◌, Bool, false, some, [], ◌∷◌, ◌++◌, Outcome, done, ◌>>=◌}
use wallyd.Common.Str.{Bytes, codes}
use wallyd.Common.Int.{ℤ, IsInt}
use wallyd.External.{HashTable, PriQueue}
use wallyd.Wtx
use wallyd.Call.{Ptr, wtx, PluginHandler, scall, call_event, call_type_wtx}
use wallyd.Ui.{ui_round, to_ptr}
use wallyd.Ui.EndToEnd.{scall-ui_round}
use wallyd.Texture.{hex_to_color}
use wallyd.Gui.{js_draw_box, draw_box}
use wallyd.Gui.Words.{IsWord}
use wallyd.Gui.Commands.{c_draw_box}
use wallyd.Gui.RoundTrip.{js_draw-c_draw}

-- A box that a script asks for, on a texture whose name has no space and no tab, where `g` is the
-- threaded function of the name `gui::drawBox`, the queue is empty, no transaction is open, no mutex
-- is held, and `g` leaves the context of the call as it is: the call posts one event and gives its mutex
-- back, the round of the UI loop that takes the event runs `g` once and then frees the context, and
-- `c_draw_box` with the parameters that `g` is run with draws the box of the call and returns 0.
pub js_draw_box-ui_round :
    {H : HashTable} {Q : PriQueue} (run : ℕ → Ptr → PluginHandler H Q → Outcome (PluginHandler H Q))
    (timed_out : Bytes → ℕ → Bool) (g : ℕ) (tex : Bytes) (x y w h color : ℤ) (s : PluginHandler H Q)
    → IsWord tex
    → IsInt x
    → IsInt y
    → IsInt w
    → IsInt h
    → IsInt color
    → ((p : Bytes) (a b : PluginHandler H Q)
        → run g (to_ptr (some p)) a ≡ done b
        → b.contexts.live s.contexts.next ≡ a.contexts.live s.contexts.next)
    → s.ph_call_locked ≡ false
    → s.contexts.wtx_locked ≡ false
    → s.call_locked ≡ false
    → s.transaction ≡ false
    → s.queue ≡ Q.new
    → H.get s.registry.thr_functions (codes "gui::drawBox") ≡ some g
    → (p : Bytes) × (t : PluginHandler H Q) × (u : PluginHandler H Q) × (scall run timed_out
          (some (js_draw_box tex x y w h color))
          s
        ≡ done t)
      × (t.ph_call_locked ≡ false)
      × (t.events
          ≡ s.events ++ call_event (codes "gui::drawBox") (wtx s.contexts.next) call_type_wtx ∷ [])
      × (u.contexts ≡ t.contexts)
      × (ui_round run
            (some (call_event (codes "gui::drawBox") (wtx s.contexts.next) call_type_wtx))
            t
          ≡ (run g (to_ptr (some p)) u >>= λ v. Wtx.free_wtx s.contexts.next v.contexts >>= λ c.
              done (record v { contexts = c; ta_locked = false })))
      × (c_draw_box p ≡ done (0, draw_box x y w h (hex_to_color color)))
unfolding js_draw_box
js_draw_box-ui_round {Q} run timed_out g tex x y w h color s is_tex is_x is_y is_w is_h is_c keeps
      pfree wfree cfree no_ta empty is_g =
    let (p, (_, is_p), _, drawn, _) =
      js_draw-c_draw tex x y w h color is_tex is_x is_y is_w is_h is_c in
    let (t, u, called, unlocked, pushed, kept, round) =
      scall-ui_round run timed_out g (js_draw_box tex x y w h color) p s is_p (keeps p) pfree wfree
        cfree no_ta empty is_g in
    (p, t, u, called, unlocked, pushed, kept, round, drawn)
