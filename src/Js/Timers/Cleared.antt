-- ===== src/Js/Timers/Cleared.antt =====
-- rsvim_core/src/js/binding/global_this/timeout.rs: what `clear_timeout` does to a timer. The handles
-- that it removes are read by nothing.
use rsvim.Prelude.{
  ℕ, ◌≡◌, refl, List, [], ◌∷◌, ◌++◌, Option, some, none, Outcome, ok, ◌>>=◌, >>=-ok,
}
use mathlib.Core.Path.{◌∙◌, ap, sym}
use rsvim.Js.Exceptions.{capture_exception}
use rsvim.Js.Timers.{
  Scripts, Run, finished, call_set_timeout, call_clear_timeout, reject_with_no_handler,
  handler_added_after_reject, TimeoutResp, TimeoutFuture, JsRuntimeState, JsLoop, set_timeout,
  clear_timeout, remove_handle, exec, run_next_tick_callbacks, run_future, check_exceptions,
  take_futures, run_futures, run_pending_futures, fast_forward_imports, tick_event_loop,
  process_js_runtime_response, next_future_id,
}

module _ (s : Scripts) where
  -- The runtime with other handles.
  abbrev pub with_handles : List ℕ → JsRuntimeState s → JsRuntimeState s
  with_handles handles r = record r { timeout_handles = handles }

  -- What a run makes of a runtime, and how it ends, does not depend on the handles, but for the handles.
  exec-with_handles :
      (run : Run s.values s.Heap) (handles : List ℕ) (r : JsRuntimeState s)
      → (after : List ℕ) × (exec run (with_handles handles r)
          ≡ (with_handles after (exec run r).0, (exec run r).1))
  unfolding exec set_timeout clear_timeout next_future_id
  exec-with_handles (finished heap caught) handles r = (handles, refl)
  exec-with_handles (call_set_timeout callback millis params rest) handles r =
      let set = set_timeout callback millis params r in
      let set' = set_timeout callback millis params (with_handles handles r) in
      exec-with_handles (rest set.1) (set'.0.timeout_handles) set.0
  exec-with_handles (call_clear_timeout timer_id rest) handles r =
      exec-with_handles rest (remove_handle timer_id handles) (clear_timeout timer_id r)
  exec-with_handles (reject_with_no_handler promise reason rest) handles r =
      exec-with_handles rest handles _
  exec-with_handles (handler_added_after_reject promise rest) handles r =
      exec-with_handles rest handles _

  -- A step of the runtime that does not read the handles.
  abbrev IsBlind : (JsRuntimeState s → JsRuntimeState s) → Type 0
  IsBlind f =
      (handles : List ℕ) (r : JsRuntimeState s)
      → (after : List ℕ) × (f (with_handles handles r) ≡ with_handles after (f r))

  IsBlind-then :
      (f g : JsRuntimeState s → JsRuntimeState s) → IsBlind f → IsBlind g → IsBlind (λ r. g (f r))
  IsBlind-then f g blind_f blind_g handles r =
      let (mid, ef) = blind_f handles r in
      let (after, eg) = blind_g mid (f r) in (after, ap g ef ∙ eg)

  run_next_tick_callbacks-IsBlind : IsBlind (λ r. run_next_tick_callbacks r)
  unfolding run_next_tick_callbacks
  run_next_tick_callbacks-IsBlind handles r =
      let (after, e) = exec-with_handles (s.microtask_checkpoint r.heap) handles r in
      (after, ap (λ (p : JsRuntimeState s × Option s.values.Value). p.0) e)

  -- The end of `run_future`, from how the run ended.
  abbrev captured : JsRuntimeState s × Option s.values.Value → JsRuntimeState s
  captured (r, some exception) = record r { exceptions = capture_exception exception r.exceptions }
  captured (r, none) = r

  captured-with_handles :
      (handles : List ℕ) (r : JsRuntimeState s) (caught : Option s.values.Value)
      → captured (with_handles handles r, caught) ≡ with_handles handles (captured (r, caught))
  captured-with_handles handles r none = refl
  captured-with_handles handles r (some exception) = refl

  run_future-captured :
      (future : TimeoutFuture s) (r : JsRuntimeState s)
      → run_future future r ≡ captured (exec (s.call r.heap future.cb future.params) r)
  unfolding run_future
  run_future-captured future r =
      elim (exec (s.call r.heap future.cb future.params) r).1
        as (λ caught.
          elim caught as (λ _. JsRuntimeState s) [
            | some exception ↦ record (exec (s.call r.heap future.cb future.params) r).0 {
              exceptions =
                  capture_exception exception
                    (exec (s.call r.heap future.cb future.params) r).0.exceptions;
            }
            | none ↦ (exec (s.call r.heap future.cb future.params) r).0
          ]
          ≡ captured ((exec (s.call r.heap future.cb future.params) r).0, caught)) [
            | some exception ↦ refl
            | none ↦ refl
          ]

  run_future-IsBlind : (future : TimeoutFuture s) → IsBlind (λ r. run_future future r)
  run_future-IsBlind future handles r =
      let run = s.call r.heap future.cb future.params in
      let (after, e) = exec-with_handles run handles r in
      (
        after,
        run_future-captured future (with_handles handles r)
            ∙ ap captured e
            ∙ captured-with_handles after (exec run r).0 (exec run r).1
            ∙ ap (with_handles after) (sym (run_future-captured future r)),
      )

  check_exceptions-IsBlind : IsBlind (λ r. (check_exceptions r).0)
  unfolding check_exceptions
  check_exceptions-IsBlind handles r = go r.exceptions.exception r.exceptions.uncaught_exception_cb
    where
      taken : JsRuntimeState s → JsRuntimeState s
      taken q = record q { exceptions = record q.exceptions { exception = none } }

      rest :
          Option s.values.Value
          → Option s.values.Function
          → JsRuntimeState s
          → JsRuntimeState s × Option s.values.Value
      rest held callback q = elim held [
        | none ↦ (q, none)
        | some exception ↦ elim callback [
          | some cb ↦ exec (s.call r.heap cb (s.uncaught_args exception)) (taken q)
          | none ↦ (taken q, some exception)
        ]
      ]

      go :
          (held : Option s.values.Value) (callback : Option s.values.Function)
          → (after : List ℕ) × ((rest held callback (with_handles handles r)).0
              ≡ with_handles after (rest held callback r).0)
      go none callback = (handles, refl)
      go (some exception) none = (handles, refl)
      go (some exception) (some cb) =
          let (after, e) =
            exec-with_handles (s.call r.heap cb (s.uncaught_args exception)) handles (taken r) in
          (after, ap (λ (p : JsRuntimeState s × Option s.values.Value). p.0) e)

  run_futures-IsBlind : (futures : List (TimeoutFuture s)) → IsBlind (λ r. run_futures futures r)
  unfolding run_futures
  run_futures-IsBlind [] handles r = (handles, refl)
  run_futures-IsBlind (future ∷ futures) handles r =
      IsBlind-then (λ q. run_future future q)
        (λ q. run_futures futures (run_next_tick_callbacks (check_exceptions q).0))
        (run_future-IsBlind future)
        (IsBlind-then (λ q. (check_exceptions q).0)
          (λ q. run_futures futures (run_next_tick_callbacks q)) check_exceptions-IsBlind
          (IsBlind-then (λ q. run_next_tick_callbacks q) (λ q. run_futures futures q)
            run_next_tick_callbacks-IsBlind (run_futures-IsBlind futures)))
        handles r

  run_pending_futures-with_handles :
      (handles : List ℕ) (r r' : JsRuntimeState s)
      → run_pending_futures r ≡ ok r'
      → (after : List ℕ) × (run_pending_futures (with_handles handles r)
          ≡ ok (with_handles after r'))
  unfolding run_pending_futures
  run_pending_futures-with_handles handles r r' eq =
      let (taken, et, k) = >>=-ok (take_futures r.recv_from_master r.pending_futures) _ eq in
      let ready : JsRuntimeState s = record r {
        recv_from_master = [];
        pending_futures = taken.1;
      } in
      let (after, e) = run_futures-IsBlind taken.0 handles ready in
      (after, rw et (ap ok e ∙ with_ok after (run_futures taken.0 ready) r' k))
    where
      with_ok :
          (after : List ℕ) (q q' : JsRuntimeState s)
          → ok q ≡ ok q'
          → ok (with_handles after q) ≡ ok (with_handles after q')
      with_ok after q q' e = ap (λ o. o >>= λ x. ok (with_handles after x)) e

  -- A timer that was cleared runs like one that was not: clearing a timer, or any change of the handles,
  -- changes the outcome of a response in nothing but the handles.
  pub clear_timeout_ignored :
      (timer_id : ℕ) (msg : TimeoutResp) (l l' : JsLoop s)
      → process_js_runtime_response (some msg) l ≡ ok l'
      → (after : List ℕ) × (process_js_runtime_response
            (some msg)
            (record l { runtime = clear_timeout timer_id l.runtime })
          ≡ ok (record l' { runtime = with_handles after l'.runtime }))
  unfolding process_js_runtime_response tick_event_loop fast_forward_imports clear_timeout
  clear_timeout_ignored timer_id msg l l' eq =
      let sent : JsRuntimeState s = record l.runtime {
        recv_from_master = l.runtime.recv_from_master ++ msg ∷ [];
      } in
      let handles = remove_handle timer_id l.runtime.timeout_handles in
      let (runtime, er, k) = >>=-ok (tick_event_loop sent) _ eq in
      let (mid, eb) =
        IsBlind-then (λ q. run_next_tick_callbacks q) (λ q. run_next_tick_callbacks q)
          run_next_tick_callbacks-IsBlind run_next_tick_callbacks-IsBlind handles sent in
      let ready = run_next_tick_callbacks (run_next_tick_callbacks sent) in
      let (after, e) = run_pending_futures-with_handles mid ready runtime er in
      let ticked : Outcome (JsRuntimeState s) → Outcome (JsLoop s) =
        λ o. o >>= λ r. ok (record l { runtime = r }) in
      let handled : Outcome (JsLoop s) → Outcome (JsLoop s) =
        λ o. o >>= λ x. ok (record x { runtime = with_handles after x.runtime }) in
      (after, ap ticked (ap (λ r. run_pending_futures r) eb ∙ e) ∙ ap handled k)
