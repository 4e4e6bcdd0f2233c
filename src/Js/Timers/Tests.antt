-- ===== src/Js/Timers/Tests.antt =====
-- A timer from the script that sets it to its response.
use rsvim.Prelude.{ℕ, ◌+◌, ◌≡◌, refl, ◌==◌, some, none, List, [], ◌∷◌, ok, arith}
use rsvim.Js.Exceptions
use rsvim.Js.Timers.{
  Scripts, Run, finished, call_set_timeout, TimeoutReq, TimeoutResp, JsLoop, new, set_timeout,
  next_future_id, exec, remove_handle, clear_timeout, process_js_runtime_request, send_response,
  process_js_runtime_response, tick_event_loop, run_pending_futures, run_futures, run_future,
  check_exceptions, take_futures, fast_forward_imports, run_next_tick_callbacks,
}
use rsvim.Js.Timers.InFlight.{Tracks, Reach, here, next, script, request, woken, Reach-Tracks}
use rsvim.Js.Timers.Cleared.{with_handles, clear_timeout_ignored}

-- A call of a function adds it to the heap, a number.
abbrev pub scripts : Scripts
scripts = record {
  values = record {
    Value = ℕ;
    Promise = ℕ;
    Function = ℕ;
    value_eq = λ a b. a == b;
    promise_eq = λ a b. a == b;
  };
  Heap = ℕ;
  call = λ heap callback params. finished (heap + callback) none;
  microtask_checkpoint = λ heap. finished heap none;
  uncaught_args = λ exception. exception ∷ [];
}

abbrev pub config : Run scripts.values scripts.Heap
config = call_set_timeout 7 1000 [] (λ id. finished 0 none)

abbrev pub start : JsLoop scripts
start = new {s = scripts} 0

abbrev configured : JsLoop scripts
configured = record start { runtime = (exec config start.runtime).0 }

abbrev pub req : TimeoutReq
req = record { future_id = 1; duration = 1000 }

abbrev resp : TimeoutResp
resp = record { future_id = 1; duration = 1000 }

abbrev pub asleep : JsLoop scripts
asleep =
    process_js_runtime_request (some req)
      (record configured { runtime = record configured.runtime { requests = [] } })

abbrev awake : JsLoop scripts
awake = send_response req (record asleep { sleeping = [] })

pub asleep-Reach : Reach scripts 0 asleep
unfolding new exec set_timeout next_future_id process_js_runtime_request
asleep-Reach = next (next here (script start config)) (request configured [] [] req refl)

awake-Reach : Reach scripts 0 awake
unfolding new exec set_timeout next_future_id process_js_runtime_request send_response
awake-Reach = next asleep-Reach (woken asleep [] [] req refl)

Reach-Tracks_example : Tracks scripts awake
unfolding new exec set_timeout next_future_id process_js_runtime_request send_response
Reach-Tracks_example = Reach-Tracks scripts 0 awake-Reach (omega arith)

-- The callback ran, and the timer is not pending any more; its handle is still there.
abbrev over : JsLoop scripts
over = record awake {
  tick_queue = [];
  runtime = record awake.runtime { heap = 7; pending_futures = [] };
}

response_runs : process_js_runtime_response (some resp) (record awake { tick_queue = [] }) ≡ ok over
unfolding process_js_runtime_response tick_event_loop run_pending_futures run_futures run_future
    check_exceptions take_futures fast_forward_imports run_next_tick_callbacks new exec set_timeout
    next_future_id process_js_runtime_request send_response Exceptions.new remove_handle
response_runs = refl

-- The timer was cleared, and its callback runs all the same.
clear_timeout_ignored_example :
    (after : List ℕ) × (process_js_runtime_response
        (some resp)
        (record awake { tick_queue = []; runtime = clear_timeout 1 awake.runtime })
      ≡ ok (record over { runtime = with_handles scripts after over.runtime }))
clear_timeout_ignored_example =
    clear_timeout_ignored scripts 1 resp (record awake { tick_queue = [] }) over response_runs
