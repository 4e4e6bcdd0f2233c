-- ===== src/Evloop/Rounds/Returns.antt =====
-- rsvim_core/src/evloop.rs: the handlers of the branches over any sequence of rounds, together with the
-- tasks that wake meanwhile.
use mathlib.Core.Path.{subst, sym, ◌∙◌}
use rsvim.Prelude.{
  ℕ, ◌≡◌, refl, ◌≤◌, ◌^◌, ◌||◌, ◌⊎◌, inl, inr, Bool, false, Option, some, List, [], ◌∷◌, ◌++◌,
  Outcome, ◌>>=◌, >>=-ok, ok, arith,
}
use rsvim.Canvas.Cell.{Crossterm}
use rsvim.Tree.Geo.{Geo}
use rsvim.Buf.Rope.{Texts}
use rsvim.Buf.Buffer.{FileTypes, Buffer}
use rsvim.Canvas.Shade.{shade}
use rsvim.State.Keys.{KeyTypes, Keys}
use rsvim.State.Fsm.Reach.{HasCursor, stops, process_event_lem}
use rsvim.Js.Timers.{
  Scripts, TimeoutReq, TimeoutResp, JsLoop, send_response, process_js_runtime_request,
  process_js_runtime_response,
}
use rsvim.Js.Timers.InFlight.{Reach, request, woken, response, next, Reach-response_returns}
use rsvim.Evloop.Rounds.{
  EventLoop, Branch, polled, worker_notify, js_request, js_response, cancellation, recv_request,
  recv_response, dispatch, draw, render, queue_shader, round,
}

list_cases : {A : Type 0} (xs : List A) → (xs ≡ []) ⊎ ((x : A) × (ys : List A) × (xs ≡ x ∷ ys))
list_cases [] = inl refl
list_cases (x ∷ ys) = inr (x, ys, refl)

module _ {g : Geo} {s : Crossterm} {sc : Scripts} {k : KeyTypes} (keys : Keys k) where
  -- What cancels the token: what the state machine stops at.
  abbrev pub cancels : Branch k → EventLoop g s sc → Bool
  cancels (polled p) l = stops keys l.fsm.state.stateful p
  cancels worker_notify l = false
  cancels js_request l = false
  cancels js_response l = false
  cancels cancellation l = false

  -- The loop between two rounds: the tree has no cursor or one that can be moved, and the tasks are those
  -- of a runtime that began with the heap.
  pub record Inv (heap : sc.Heap) (l : EventLoop g s sc) : Type 0 where
    pub tasks : Reach sc heap l.js
    pub cursor : HasCursor l.fsm.tree

  request_none :
      (l : EventLoop g s sc) → l.js.runtime.requests ≡ [] → dispatch keys js_request l ≡ ok l
  unfolding dispatch recv_request process_js_runtime_request
  request_none l e = ground (arith, e)

  request_some :
      (l : EventLoop g s sc) (req : TimeoutReq) (reqs : List TimeoutReq)
      → l.js.runtime.requests ≡ req ∷ reqs
      → dispatch keys js_request l
        ≡ ok (record l {
          js =
              process_js_runtime_request
                (some req)
                (record l.js { runtime = record l.js.runtime { requests = reqs } });
        })
  unfolding dispatch recv_request
  request_some l req reqs e = rw e refl

  response_none : (l : EventLoop g s sc) → l.js.tick_queue ≡ [] → dispatch keys js_response l ≡ ok l
  unfolding dispatch recv_response process_js_runtime_response
  response_none l e = rw e refl

  response_some :
      (l : EventLoop g s sc) (msg : TimeoutResp) (rest : List TimeoutResp)
      → l.js.tick_queue ≡ msg ∷ rest
      → dispatch keys js_response l ≡ (
          process_js_runtime_response (some msg) (record l.js { tick_queue = rest }) >>= λ js.
          ok (record l { js = js }))
  unfolding dispatch recv_response
  response_some l msg rest e = rw e refl

  same_result :
      (heap : sc.Heap) {r : Outcome (EventLoop g s sc)} (l l' : EventLoop g s sc)
      → Inv heap l
      → r ≡ ok l
      → r ≡ ok l'
      → Inv heap l'
  same_result heap l l' i e eq =
      let same : l ≡ l' = ground (arith, e, eq) in subst (Inv heap) same i

  dispatch-Inv :
      (heap : sc.Heap) (b : Branch k) (l l' : EventLoop g s sc)
      → Inv heap l
      → dispatch keys b l ≡ ok l'
      → Inv heap l'
  unfolding dispatch recv_request recv_response
  dispatch-Inv heap (polled p) l l' i eq =
      let (fsm, e, c, h) = process_event_lem keys l.fsm p i.cursor in
      same_result heap (record l { fsm = fsm }) l' (record { tasks = i.tasks; cursor = h })
        (rw e refl) eq
  dispatch-Inv heap worker_notify l l' i eq = same_result heap l l' i refl eq
  dispatch-Inv heap js_request l l' i eq = elim (list_cases l.js.runtime.requests) [
    | inl none_sent ↦ same_result heap l l' i (request_none l none_sent) eq
    | inr (req, reqs, e) ↦
        let js : JsLoop sc = record l.js { runtime = record l.js.runtime { requests = reqs } } in
        let js' = process_js_runtime_request (some req) js in
        same_result heap (record l { js = js' }) l'
          (record { tasks = next i.tasks (request l.js [] reqs req e); cursor = i.cursor })
          (request_some l req reqs e) eq
  ]
  dispatch-Inv heap js_response l l' i eq = elim (list_cases l.js.tick_queue) [
    | inl none_sent ↦ same_result heap l l' i (response_none l none_sent) eq
    | inr (msg, rest, e) ↦
        let (js', ej, k) =
          >>=-ok (process_js_runtime_response (some msg) (record l.js { tick_queue = rest })) _
            (sym (response_some l msg rest e) ∙ eq) in
        same_result heap (record l { js = js' }) l'
          (record { tasks = next i.tasks (response l.js js' msg rest e ej); cursor = i.cursor })
          refl k
  ]
  dispatch-Inv heap cancellation l l' i eq = same_result heap l l' i refl eq

  render-Inv :
      {x : Texts} {f : FileTypes} (heap : sc.Heap) (upgrade : ℕ → Option (Buffer x f))
      (l l' : EventLoop g s sc)
      → Inv heap l
      → render upgrade l ≡ ok l'
      → Inv heap l'
  unfolding render queue_shader
  render-Inv heap upgrade l l' i eq =
      let (drawn, ed, k) = >>=-ok (draw upgrade l.fsm.tree l.canvas) _ eq in
      let (shaded, es, k') = >>=-ok (shade drawn) _ k in
      same_result heap (queue_shader shaded.1 (record l { canvas = shaded.0 })) l'
        (record { tasks = i.tasks; cursor = i.cursor }) refl k'

  -- The handler of each branch returns from such a loop, and cancels the token exactly for what stops the
  -- state machine.
  dispatch-ok :
      (heap : sc.Heap) (b : Branch k) (l : EventLoop g s sc)
      → Inv heap l
      → l.js.runtime.future_ids ≤ 2 ^ 32
      → (l' : EventLoop g s sc) × (dispatch keys b l ≡ ok l')
        × (l'.fsm.cancelled ≡ (l.fsm.cancelled || cancels b l))
  unfolding dispatch
  dispatch-ok heap (polled p) l i le =
      let (fsm, e, c, h) = process_event_lem keys l.fsm p i.cursor in
      (record l { fsm = fsm }, rw e refl, c)
  dispatch-ok heap worker_notify l i le = (l, refl, ground arith)
  dispatch-ok heap js_request l i le = elim (list_cases l.js.runtime.requests) [
    | inl none_sent ↦ (l, request_none l none_sent, ground arith)
    | inr (req, reqs, e) ↦ (_, request_some l req reqs e, ground arith)
  ]
  dispatch-ok heap js_response l i le = elim (list_cases l.js.tick_queue) [
    | inl none_sent ↦ (l, response_none l none_sent, ground arith)
    | inr (msg, rest, e) ↦
        let (js', ej) = Reach-response_returns sc heap msg rest i.tasks le e in
        (record l { js = js' }, response_some l msg rest e ∙ rw ej refl, ground arith)
  ]
  dispatch-ok heap cancellation l i le = (l, refl, ground arith)

module _ {g : Geo} {s : Crossterm} {sc : Scripts} {k : KeyTypes} {x : Texts} {f : FileTypes}
    (keys : Keys k) (upgrade : ℕ → Option (Buffer x f)) where
  -- Rounds of the event loop, between which sleeping tasks wake, in any order.
  pub data Runs (start : EventLoop g s sc) : EventLoop g s sc → Type 0 where
    here : Runs start start
    next_round :
        {l : EventLoop g s sc} (b : Branch k) (l' : EventLoop g s sc)
        → Runs start l
        → round keys upgrade b l ≡ ok l'
        → Runs start l'
    next_woken :
        {l : EventLoop g s sc} (before after : List TimeoutReq) (req : TimeoutReq)
        → Runs start l
        → l.js.sleeping ≡ before ++ req ∷ after
        → Runs start
            (record l { js = send_response req (record l.js { sleeping = before ++ after }) })

  Runs-Inv :
      (heap : sc.Heap) {start l : EventLoop g s sc}
      → Inv keys heap start
      → Runs start l
      → Inv keys heap l
  unfolding round
  Runs-Inv heap i here = i
  Runs-Inv heap i (next_round {l} b l' r eq) =
      let (mid, em, k) = >>=-ok (dispatch keys b l) _ eq in
      render-Inv keys heap upgrade mid l' (dispatch-Inv keys heap b l mid (Runs-Inv heap i r) em) k
  Runs-Inv heap i (next_woken {l} before after req r e) =
      let j = Runs-Inv heap i r in
      record { tasks = next j.tasks (woken l.js before after req e); cursor = j.cursor }

  -- The event loop starts with the tasks of a runtime that ran scripts, and with a tree that has no
  -- cursor or one with a parent and no children. After any number of rounds, whatever was polled and
  -- however requests, tasks and responses were ordered, as long as fewer than 2 ^ 32 timers were made: the
  -- handler of each branch returns, without a panic, and the token is cancelled exactly if it was or the
  -- event leads to the quit state, is an error or is the end of the events.
  pub Runs-dispatch_returns :
      (heap : sc.Heap) (start : EventLoop g s sc) {l : EventLoop g s sc} (b : Branch k)
      → Reach sc heap start.js
      → HasCursor start.fsm.tree
      → Runs start l
      → l.js.runtime.future_ids ≤ 2 ^ 32
      → (l' : EventLoop g s sc) × (dispatch keys b l ≡ ok l')
        × (l'.fsm.cancelled ≡ (l.fsm.cancelled || cancels keys b l))
  Runs-dispatch_returns heap start {l} b tasks cursor r le =
      dispatch-ok keys heap b l (Runs-Inv heap (record { tasks = tasks; cursor = cursor }) r) le
