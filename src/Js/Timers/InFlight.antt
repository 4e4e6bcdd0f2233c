-- ===== src/Js/Timers/InFlight.antt =====
-- rsvim_core/src/js.rs and evloop.rs: each timer that is pending has one message on its way.
use rsvim.Prelude.{
  ℕ, ◌+◌, ◌^◌, ◌≤◌, ◌≡◌, refl, true, some, List, [], ◌∷◌, ◌++◌, ok, >>=-ok, contains_key, remove,
  arith,
}
use mathlib.Core.Path.{◌∙◌, ap, subst, sym}
use rsvim.Js.Timers.{
  Scripts, Run, TimeoutReq, TimeoutResp, TimeoutFuture, JsRuntimeState, JsLoop, new, exec,
  run_next_tick_callbacks, take_futures, run_futures, run_pending_futures, tick_event_loop,
  fast_forward_imports, process_js_runtime_request, send_response, process_js_runtime_response,
}
use rsvim.Js.Timers.Runs.{
  count_reqs, count_resps, count_reqs-append, count_resps-append, contains_key-remove,
  lookup-contains_key, pending, IsTracked, exec-Keeps, run_futures-Keeps, before_futures-Keeps,
}

ok_inj : {A : Type 0} {a b : A} → ok a ≡ ok b → a ≡ b
ok_inj e = cc

module _ (s : Scripts) where
  -- The runtime once the response `msg` has been taken out of the channel.
  abbrev taken_response : TimeoutResp → JsRuntimeState s → JsRuntimeState s
  taken_response msg r = record r {
    recv_from_master = [];
    pending_futures = remove msg.future_id r.pending_futures;
  }

  run_pending_futures_one :
      (msg : TimeoutResp) (r : JsRuntimeState s)
      → r.recv_from_master ≡ msg ∷ []
      → contains_key msg.future_id r.pending_futures ≡ true
      → (future : TimeoutFuture s) × (run_pending_futures r
          ≡ ok (run_futures (future ∷ []) (taken_response msg r)))
  unfolding run_pending_futures take_futures
  run_pending_futures_one msg r one there =
      let (future, found) = lookup-contains_key msg.future_id r.pending_futures there in
      (future, rw one (rw found refl))

  taken_response-IsTracked :
      (msg : TimeoutResp) (r : JsRuntimeState s) (held : ℕ → ℕ)
      → r.recv_from_master ≡ msg ∷ []
      → contains_key msg.future_id r.pending_futures ≡ true
      → IsTracked s held r
      → IsTracked s held (taken_response msg r)
  unfolding count_resps
  taken_response-IsTracked msg r held one there t = record {
    one_message = λ id.
        let all : held id + count_reqs id r.requests + count_resps id (msg ∷ []) ≡ pending s id r =
          rw one at (t.one_message id) in
        ground (arith, all, contains_key-remove msg.future_id id r.pending_futures);
    handed_out = λ id c.
        ground (arith, t.handed_out id, contains_key-remove msg.future_id id r.pending_futures);
  }

  abbrev outside : JsLoop s → ℕ → ℕ
  outside l id = count_reqs id l.sleeping + count_resps id l.tick_queue

  -- Between two events: nothing is received, and each pending timer has one message, in the runtime, with
  -- a task that sleeps or in the queue.
  pub record Tracks (l : JsLoop s) : Type 0 where
    pub idle : l.runtime.recv_from_master ≡ []
    pub tracked : IsTracked s (outside l) l.runtime

  -- The runtime at the start of a response, and before the timers.
  abbrev received : TimeoutResp → JsRuntimeState s → JsRuntimeState s
  received msg r = record r { recv_from_master = r.recv_from_master ++ msg ∷ [] }

  abbrev ready : TimeoutResp → JsRuntimeState s → JsRuntimeState s
  ready msg r = fast_forward_imports (run_next_tick_callbacks (received msg r))

  module _ (l : JsLoop s) (msg : TimeoutResp) (rest : List TimeoutResp) (tracks : Tracks l)
      (queue : l.tick_queue ≡ msg ∷ rest) where
    received-IsTracked :
        IsTracked s (outside (record l { tick_queue = rest })) (received msg l.runtime)
    unfolding count_resps
    received-IsTracked = record {
      one_message = λ id.
          let all : count_reqs id l.sleeping
                + count_resps id (msg ∷ rest)
                + count_reqs id l.runtime.requests
                + count_resps id []
              ≡ pending s id l.runtime =
            rw (tracks.idle, queue) at (tracks.tracked.one_message id) in
          rw tracks.idle (ground (arith, all));
      handed_out = tracks.tracked.handed_out;
    }

    there : contains_key msg.future_id l.runtime.pending_futures ≡ true
    unfolding count_resps
    there =
        let all : count_reqs msg.future_id l.sleeping
              + count_resps msg.future_id (msg ∷ rest)
              + count_reqs msg.future_id l.runtime.requests
              + count_resps msg.future_id []
            ≡ pending s msg.future_id l.runtime =
          rw (tracks.idle, queue) at (tracks.tracked.one_message msg.future_id) in
        ground (arith, all)

    -- The response of a timer is processed without a panic, and the timers stay tracked.
    pub process_response_lem :
        (l' : JsLoop s) × (process_js_runtime_response (some msg) (record l { tick_queue = rest })
          ≡ ok l')
        × (l'.runtime.future_ids ≤ 2 ^ 32 → Tracks l')
        × (l.runtime.future_ids ≤ l'.runtime.future_ids)
    unfolding process_js_runtime_response tick_event_loop
    process_response_lem =
        let kept = before_futures-Keeps s (received msg l.runtime) in
        let one : (ready msg l.runtime).recv_from_master ≡ msg ∷ [] =
          kept.received ∙ ap (λ xs. xs ++ msg ∷ []) tracks.idle in
        let found = kept.stays msg.future_id there in
        let (future, eq) = run_pending_futures_one msg (ready msg l.runtime) one found in
        let taken = taken_response msg (ready msg l.runtime) in
        let ran = run_futures-Keeps s (future ∷ []) taken in
        (
          record l { tick_queue = rest; runtime = run_futures (future ∷ []) taken },
          rw eq refl,
          λ le. record {
            idle = ran.received;
            tracked = ran.tracked (outside (record l { tick_queue = rest })) le (
                taken_response-IsTracked msg (ready msg l.runtime)
                  (outside (record l { tick_queue = rest })) one found
                  (kept.tracked (outside (record l { tick_queue = rest }))
                    (omega (arith, ran.grows)) received-IsTracked));
          },
          omega (arith, kept.grows, ran.grows),
        )

  -- The events of the loop that are about scripts: a script runs, a request arrives, a task has slept, a
  -- response is processed. Requests and tasks come in any order.
  pub data Step : JsLoop s → JsLoop s → Type 0 where
    script :
        (l : JsLoop s) (run : Run s.values s.Heap)
        → Step l (record l { runtime = (exec run l.runtime).0 })
    request :
        (l : JsLoop s) (before after : List TimeoutReq) (req : TimeoutReq)
        → l.runtime.requests ≡ before ++ req ∷ after
        → Step l (
            process_js_runtime_request
              (some req)
              (record l { runtime = record l.runtime { requests = before ++ after } }))
    woken :
        (l : JsLoop s) (before after : List TimeoutReq) (req : TimeoutReq)
        → l.sleeping ≡ before ++ req ∷ after
        → Step l (send_response req (record l { sleeping = before ++ after }))
    response :
        (l l' : JsLoop s) (msg : TimeoutResp) (rest : List TimeoutResp)
        → l.tick_queue ≡ msg ∷ rest
        → process_js_runtime_response (some msg) (record l { tick_queue = rest }) ≡ ok l'
        → Step l l'

  pub data Reach (heap : s.Heap) : JsLoop s → Type 0 where
    here : Reach heap (new heap)
    next : {l l' : JsLoop s} → Reach heap l → Step l l' → Reach heap l'

  new-Tracks : (heap : s.Heap) → Tracks (new heap)
  unfolding new count_reqs count_resps
  new-Tracks heap = record {
    idle = refl;
    tracked = record { one_message = λ id. refl; handed_out = λ id c. cc };
  }

  -- A response that is processed leaves no smaller counter.
  response_grows :
      (msg : TimeoutResp) (l l' : JsLoop s)
      → process_js_runtime_response (some msg) l ≡ ok l'
      → l.runtime.future_ids ≤ l'.runtime.future_ids
  unfolding process_js_runtime_response tick_event_loop run_pending_futures
  response_grows msg l l' eq =
      let kept = before_futures-Keeps s (received msg l.runtime) in
      let r = ready msg l.runtime in
      let (runtime, er, k) = >>=-ok (run_pending_futures r) _ eq in
      let (taken, et, k') = >>=-ok (take_futures r.recv_from_master r.pending_futures) _ er in
      let ran =
        run_futures-Keeps s taken.0
          (record r { recv_from_master = []; pending_futures = taken.1 }) in
      let same_runtime = ok_inj k' in
      let same_loop = ok_inj k in
      omega (
        arith,
        kept.grows,
        ran.grows,
        ap (λ (x : JsRuntimeState s). x.future_ids) same_runtime,
        ap (λ (x : JsLoop s). x.runtime.future_ids) same_loop,
      )

  Step-Tracks :
      {l l' : JsLoop s}
      → Step l l'
      → (l.runtime.future_ids ≤ 2 ^ 32 → Tracks l)
      → l'.runtime.future_ids ≤ 2 ^ 32
      → Tracks l'
  unfolding process_js_runtime_request send_response count_reqs count_resps
  Step-Tracks (script l run) tracks le =
      let kept = exec-Keeps s run l.runtime in
      let before = tracks (omega (arith, kept.grows)) in
      record {
        idle = kept.received ∙ before.idle;
        tracked = kept.tracked (outside l) le before.tracked;
      }
  Step-Tracks (request l before after req eq) tracks le =
      let old = tracks le in
      record {
        idle = old.idle;
        tracked = record {
          one_message = λ id. omega (
            arith,
            old.tracked.one_message id,
            ap (count_reqs id) eq,
            count_reqs-append id before (req ∷ after),
            count_reqs-append id before after,
            count_reqs-append id l.sleeping (req ∷ []),
          );
          handed_out = old.tracked.handed_out;
        };
      }
  Step-Tracks (woken l before after req eq) tracks le =
      let old = tracks le in
      let resp : TimeoutResp = record { future_id = req.future_id; duration = req.duration } in
      record {
        idle = old.idle;
        tracked = record {
          one_message = λ id. omega (
            arith,
            old.tracked.one_message id,
            ap (count_reqs id) eq,
            count_reqs-append id before (req ∷ after),
            count_reqs-append id before after,
            count_resps-append id l.tick_queue (resp ∷ []),
          );
          handed_out = old.tracked.handed_out;
        };
      }
  Step-Tracks (response l l' msg rest queue eq) tracks le =
      let grows = response_grows msg (record l { tick_queue = rest }) l' eq in
      let (l'', eq', kept, _) =
        process_response_lem l msg rest (tracks (omega (arith, grows))) queue in
      let same : l'' ≡ l' = ok_inj (sym eq' ∙ eq) in subst Tracks same (kept (rw (← same) at le))

  -- As long as fewer than 2 ^ 32 timers were made, whatever scripts run and however requests and tasks are
  -- ordered: nothing is received between two events, and each timer that is pending, and no other, has one
  -- message on its way.
  pub Reach-Tracks :
      (heap : s.Heap) {l : JsLoop s} → Reach heap l → l.runtime.future_ids ≤ 2 ^ 32 → Tracks l
  Reach-Tracks heap here le = new-Tracks heap
  Reach-Tracks heap (next r step) le = Step-Tracks step (Reach-Tracks heap r) le

  -- As long as fewer than 2 ^ 32 timers were made, a response in the queue is processed without a panic:
  -- its timer is pending.
  pub Reach-response_returns :
      (heap : s.Heap) {l : JsLoop s} (msg : TimeoutResp) (rest : List TimeoutResp)
      → Reach heap l
      → l.runtime.future_ids ≤ 2 ^ 32
      → l.tick_queue ≡ msg ∷ rest
      → (l' : JsLoop s) × (process_js_runtime_response (some msg) (record l { tick_queue = rest })
          ≡ ok l')
  Reach-response_returns heap {l} msg rest r le queue =
      let (l', eq, tracks, grows) =
        process_response_lem l msg rest (Reach-Tracks heap r le) queue in
      (l', eq)
