-- ===== src/Evloop/Rounds.antt =====
-- rsvim_core/src/evloop.rs: the rounds of the event loop, and the drawing of the tree of widgets
-- (rsvim_core/src/ui/tree.rs). The locks, the log and the workers are left out, and a write to the
-- terminal succeeds.
pub mod Returns
pub mod Tests
use rsvim.Prelude.{
  ℕ, Bool, true, false, if◌then◌else◌, Option, some, none, List, [], ◌∷◌, ◌++◌, Outcome, ok, ◌>>=◌,
  unwrap,
}
use rsvim.Canvas.Cell.{Crossterm}
use rsvim.Canvas.Diff.{Canvas}
use rsvim.Canvas.Shader.{
  Shader, ShaderCommand, cursor_enable_blinking, cursor_disable_blinking, cursor_hide, cursor_show,
  cursor_set_cursor_style, cursor_move_to,
}
use rsvim.Canvas.Shade.{shade}
use rsvim.Tree.Geo.{Geo}
use rsvim.Tree.Itree.{Inode}
use rsvim.Tree.Iter.{iter}
use rsvim.Tree.Widgets.{TreeNode, root_container, window, cursor, Tree}
use rsvim.Buf.Rope.{Texts}
use rsvim.Buf.Buffer.{FileTypes, Buffer}
use rsvim.Window.Widget.{draw_cursor}
use rsvim.Window.Widget
use rsvim.State.Keys.{KeyTypes, Keys}
use rsvim.State.Fsm
use rsvim.State.Fsm.{Polled, process_event}
use rsvim.Js.Timers.{
  Scripts, TimeoutReq, TimeoutResp, JsLoop, process_js_runtime_request, process_js_runtime_response,
}
use rsvim.Evloop.Start.{widgets}

module _ {g : Geo} {s : Crossterm} {x : Texts} {f : FileTypes} where
  -- `TreeNode::draw`. The buffer of a window is behind a weak reference, here a function on the node's id.
  unfoldable pub draw_node :
      (ℕ → Option (Buffer x f)) → Inode g (TreeNode (widgets g)) → Canvas s → Outcome (Canvas s)
  draw_node upgrade n canvas = elim n.value [
    | root_container r ↦ ok canvas
    | window w ↦ (do buffer ← unwrap (upgrade n.id); Widget.draw buffer w canvas)
    | cursor c ↦ ok (draw_cursor g c n.actual_shape canvas)
  ]

  unfoldable pub draw_nodes :
      (ℕ → Option (Buffer x f))
      → List (Inode g (TreeNode (widgets g)))
      → Canvas s
      → Outcome (Canvas s)
  draw_nodes upgrade [] canvas = ok canvas
  draw_nodes upgrade (n ∷ ns) canvas = do
    drawn ← draw_node upgrade n canvas
    draw_nodes upgrade ns drawn

  -- `Tree::draw`
  unfoldable pub draw :
      (ℕ → Option (Buffer x f)) → Tree g (widgets g) → Canvas s → Outcome (Canvas s)
  draw upgrade tree canvas = do nodes ← iter tree.base; draw_nodes upgrade nodes canvas

module _ (g : Geo) (s : Crossterm) (sc : Scripts) where
  -- The event loop: the state and the tree with the cancellation token, the canvas, what was written to
  -- the terminal, and the tasks of the scripts.
  pub record EventLoop : Type 0 where
    pub fsm : Fsm.EventLoop g (widgets g)
    pub canvas : Canvas s
    pub writer : List ShaderCommand
    pub js : JsLoop sc

-- What `tokio::select!` waits for.
module _ (k : KeyTypes) where
  pub data Branch : Type 0 where
    polled : Polled k → Branch
    worker_notify : Branch
    js_request : Branch
    js_response : Branch
    cancellation : Branch

module _ {sc : Scripts} where
  -- The first request on its way to the event loop is received: none, if the branch is not ready.
  unfoldable pub recv_request : JsLoop sc → Option TimeoutReq × JsLoop sc
  recv_request js = elim js.runtime.requests [
    | [] ↦ (none, js)
    | req ∷ reqs ↦ (some req, record js { runtime = record js.runtime { requests = reqs } })
  ]

  unfoldable pub recv_response : JsLoop sc → Option TimeoutResp × JsLoop sc
  recv_response js = elim js.tick_queue [
    | [] ↦ (none, js)
    | resp ∷ resps ↦ (some resp, record js { tick_queue = resps })
  ]

module _ {g : Geo} {s : Crossterm} {sc : Scripts} where
  unfoldable pub queue_shader : Shader → EventLoop g s sc → EventLoop g s sc
  queue_shader shader l = record l { writer = l.writer ++ shader.commands }

  unfoldable pub render :
      {x : Texts} {f : FileTypes}
      → (ℕ → Option (Buffer x f))
      → EventLoop g s sc
      → Outcome (EventLoop g s sc)
  render upgrade l = do
    drawn ← draw upgrade l.fsm.tree l.canvas
    shaded ← shade drawn
    ok (queue_shader shaded.1 (record l { canvas = shaded.0 }))

  -- The first flush: the cursor of the canvas, and the tree.
  unfoldable pub init_tui_done :
      {x : Texts} {f : FileTypes}
      → (ℕ → Option (Buffer x f))
      → EventLoop g s sc
      → Outcome (EventLoop g s sc)
  init_tui_done upgrade l =
      let c = l.canvas.frame.cursor in
      let blinks = if c.blinking then cursor_enable_blinking else cursor_disable_blinking in
      let hides = if c.hidden then cursor_hide else cursor_show in
      let commands = blinks ∷ hides ∷ cursor_set_cursor_style c.style ∷ cursor_move_to c.pos ∷ [] in
      render upgrade (record l { writer = l.writer ++ commands })

  -- The handler of a branch of `tokio::select!`.
  unfoldable pub dispatch :
      {k : KeyTypes} → Keys k → Branch k → EventLoop g s sc → Outcome (EventLoop g s sc)
  dispatch keys (polled p) l = do fsm ← process_event keys l.fsm p; ok (record l { fsm = fsm })
  dispatch keys worker_notify l = ok l
  dispatch keys js_request l =
      let (req, js) = recv_request l.js in ok (record l { js = process_js_runtime_request req js })
  dispatch keys js_response l =
      let (msg, js) = recv_response l.js in
      do js' ← process_js_runtime_response msg js; ok (record l { js = js' })
  dispatch keys cancellation l = ok l

  -- A round that goes on: the handler of the branch, and the terminal is updated.
  unfoldable pub round :
      {k : KeyTypes} {x : Texts} {f : FileTypes}
      → Keys k
      → (ℕ → Option (Buffer x f))
      → Branch k
      → EventLoop g s sc
      → Outcome (EventLoop g s sc)
  round keys upgrade b l = do handled ← dispatch keys b l; render upgrade handled

  -- `EventLoop::run`, on the branches in the order of their choice: the loop, and whether it ended. The
  -- branch of the cancellation is ready once the token is cancelled.
  unfoldable pub run :
      {k : KeyTypes} {x : Texts} {f : FileTypes}
      → Keys k
      → (ℕ → Option (Buffer x f))
      → List (Branch k)
      → EventLoop g s sc
      → Outcome (EventLoop g s sc × Bool)
  run keys upgrade [] l = ok (l, false)
  run keys upgrade (b ∷ bs) l =
      let go = (do r ← round keys upgrade b l; run keys upgrade bs r) in
      elim b [
        | cancellation ↦ if l.fsm.cancelled then ok (l, true) else run keys upgrade bs l
        | polled p ↦ go
        | worker_notify ↦ go
        | js_request ↦ go
        | js_response ↦ go
      ]
