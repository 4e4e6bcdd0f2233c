-- ===== src/Js/Timers.antt =====
-- The timers of rsvim_core/src/js.rs, js/msg.rs and js/binding/global_this/timeout.rs, with the messages
-- that evloop.rs passes between the runtime and the tasks that sleep. The engine is a parameter: what a
-- run of a script asks the host for is a tree (`Run`), and its heap is the engine's. A channel is the
-- list of the messages in it, and the tasks that send a request or sleep are the list of what they hold.
pub mod Runs
pub mod InFlight
pub mod Cleared
pub mod Tests
use rsvim.Prelude.{
  ℕ, ◌+◌, ◌%◌, ◌^◌, ◌==◌, Bool, true, false, if◌then◌else◌, Option, some, none, List, [], ◌∷◌, ◌++◌,
  Outcome, ok, ◌>>=◌, Map, lookup, insert, remove, unwrap,
}
use rsvim.Js.Exceptions.{
  Values, ExceptionState, capture_exception, capture_promise_rejection, remove_promise_rejection,
}
use rsvim.Js.Exceptions

-- `TimeoutReq` and `TimeoutResp`, with the time in milliseconds.
pub record TimeoutReq : Type 0 where
  pub future_id : ℕ
  pub duration : ℕ

pub record TimeoutResp : Type 0 where
  pub future_id : ℕ
  pub duration : ℕ

module _ (v : Values) (Heap : Type 0) where
  -- A run of a script: it ends, with the exception that was caught, or calls the host. A number that the
  -- host returns is handed to the rest of the run.
  pub data Run : Type 0 where
    finished : Heap → Option v.Value → Run
    call_set_timeout : v.Function → ℕ → List v.Value → (ℕ → Run) → Run
    call_clear_timeout : ℕ → Run → Run
    reject_with_no_handler : v.Promise → v.Value → Run → Run
    handler_added_after_reject : v.Promise → Run → Run

pub record Scripts : Type 1 where
  pub values : Values
  pub Heap : Type 0
  -- `Function::call`
  pub call : Heap → values.Function → List values.Value → Run values Heap
  -- `perform_microtask_checkpoint`
  pub microtask_checkpoint : Heap → Run values Heap
  -- The arguments of an uncaught exception's callback.
  pub uncaught_args : values.Value → List values.Value

-- `HashSet<i32>`
unfoldable pub remove_handle : ℕ → List ℕ → List ℕ
remove_handle id [] = []
remove_handle id (x ∷ xs) = if id == x then remove_handle id xs else (x ∷ remove_handle id xs)

-- `next_future_id`, on how often it was called: the counter is an `i32`, which is read by its bits.
unfoldable pub next_future_id : ℕ → ℕ × ℕ
next_future_id calls = (calls % 2 ^ 32, calls + 1)

module _ (s : Scripts) where
  pub record TimeoutFuture : Type 0 where
    pub future_id : ℕ
    pub cb : s.values.Function
    pub params : List s.values.Value

  -- `JsRuntimeState`, with the requests that are on their way to the event loop.
  pub record JsRuntimeState : Type 0 where
    pub heap : s.Heap
    pub future_ids : ℕ
    pub timeout_handles : List ℕ
    pub pending_futures : Map TimeoutFuture
    pub exceptions : ExceptionState s.values
    pub requests : List TimeoutReq
    pub recv_from_master : List TimeoutResp

  -- The event loop, with the tasks that sleep.
  pub record JsLoop : Type 0 where
    pub runtime : JsRuntimeState
    pub sleeping : List TimeoutReq
    pub tick_queue : List TimeoutResp

module _ {s : Scripts} where
  -- A new runtime, whose counter begins with 1.
  unfoldable pub new : s.Heap → JsLoop s
  new heap = record {
    runtime = record {
      heap = heap;
      future_ids = 1;
      timeout_handles = [];
      pending_futures = [];
      exceptions = Exceptions.new;
      requests = [];
      recv_from_master = [];
    };
    sleeping = [];
    tick_queue = [];
  }

  unfoldable pub set_timeout :
      s.values.Function → ℕ → List s.values.Value → JsRuntimeState s → JsRuntimeState s × ℕ
  unfolding next_future_id
  set_timeout callback millis params r =
      let (timer_id, future_ids) = next_future_id r.future_ids in
      let future : TimeoutFuture s = record {
        future_id = timer_id;
        cb = callback;
        params = params;
      } in
      (
        record r {
          future_ids = future_ids;
          requests = r.requests ++ record { future_id = timer_id; duration = millis } ∷ [];
          pending_futures = insert timer_id future r.pending_futures;
          timeout_handles = timer_id ∷ remove_handle timer_id r.timeout_handles;
        },
        timer_id,
      )

  unfoldable pub clear_timeout : ℕ → JsRuntimeState s → JsRuntimeState s
  clear_timeout timer_id r = record r { timeout_handles = remove_handle timer_id r.timeout_handles }

  -- The calls of a run, one after the other, and how it ends. The last two are `promise_reject_cb`.
  unfoldable pub exec :
      Run s.values s.Heap → JsRuntimeState s → JsRuntimeState s × Option s.values.Value
  exec (finished heap caught) r = (record r { heap = heap }, caught)
  exec (call_set_timeout callback millis params rest) r =
      let (r', timer_id) = set_timeout callback millis params r in exec (rest timer_id) r'
  exec (call_clear_timeout timer_id rest) r = exec rest (clear_timeout timer_id r)
  exec (reject_with_no_handler promise reason rest) r =
      exec rest (record r { exceptions = capture_promise_rejection promise reason r.exceptions })
  exec (handler_added_after_reject promise rest) r =
      exec rest (record r { exceptions = remove_promise_rejection promise r.exceptions })

  -- A caught exception of the checkpoint is dropped.
  unfoldable pub run_next_tick_callbacks : JsRuntimeState s → JsRuntimeState s
  run_next_tick_callbacks r = (exec (s.microtask_checkpoint r.heap) r).0

  -- `TimeoutFuture::run`
  unfoldable pub run_future : TimeoutFuture s → JsRuntimeState s → JsRuntimeState s
  run_future future r =
      let (r', caught) = exec (s.call r.heap future.cb future.params) r in
      elim caught [
        | some exception ↦ record r' { exceptions = capture_exception exception r'.exceptions }
        | none ↦ r'
      ]

  unfoldable pub check_exceptions : JsRuntimeState s → JsRuntimeState s × Option s.values.Value
  check_exceptions r = elim r.exceptions.exception [
    | none ↦ (r, none)
    | some exception ↦
        let taken : JsRuntimeState s = record r {
          exceptions = record r.exceptions { exception = none };
        } in
        elim r.exceptions.uncaught_exception_cb [
          | some callback ↦ exec (s.call r.heap callback (s.uncaught_args exception)) taken
          | none ↦ (taken, some exception)
        ]
  ]

  -- The `while let` over the messages. A message with no future is `unreachable!`.
  unfoldable pub take_futures :
      List TimeoutResp
      → Map (TimeoutFuture s)
      → Outcome (List (TimeoutFuture s) × Map (TimeoutFuture s))
  take_futures [] pending = ok ([], pending)
  take_futures (resp ∷ resps) pending = do
    timeout_cb ← unwrap (lookup resp.future_id pending)
    rest ← take_futures resps (remove resp.future_id pending)
    ok (timeout_cb ∷ rest.0, rest.1)

  unfoldable pub run_futures : List (TimeoutFuture s) → JsRuntimeState s → JsRuntimeState s
  run_futures [] r = r
  run_futures (fut ∷ futures) r =
      run_futures futures (run_next_tick_callbacks (check_exceptions (run_future fut r)).0)

  unfoldable pub run_pending_futures : JsRuntimeState s → Outcome (JsRuntimeState s)
  run_pending_futures r = do
    taken ← take_futures r.recv_from_master r.pending_futures
    ok (run_futures taken.0 (record r { recv_from_master = []; pending_futures = taken.1 }))

  -- No code adds a graph of pending imports, so that `fast_forward_imports` is its last line.
  unfoldable pub fast_forward_imports : JsRuntimeState s → JsRuntimeState s
  fast_forward_imports r = run_next_tick_callbacks r

  unfoldable pub tick_event_loop : JsRuntimeState s → Outcome (JsRuntimeState s)
  tick_event_loop r = run_pending_futures (fast_forward_imports (run_next_tick_callbacks r))

  unfoldable pub process_js_runtime_request : Option TimeoutReq → JsLoop s → JsLoop s
  process_js_runtime_request none l = l
  process_js_runtime_request (some req) l = record l { sleeping = l.sleeping ++ req ∷ [] }

  -- The end of a task that slept.
  unfoldable pub send_response : TimeoutReq → JsLoop s → JsLoop s
  send_response req l = record l {
    tick_queue = l.tick_queue ++ record { future_id = req.future_id; duration = req.duration } ∷ [];
  }

  unfoldable pub process_js_runtime_response : Option TimeoutResp → JsLoop s → Outcome (JsLoop s)
  process_js_runtime_response none l = ok l
  process_js_runtime_response (some msg) l = do
    let sent : JsRuntimeState s = record l.runtime {
      recv_from_master = l.runtime.recv_from_master ++ msg ∷ [];
    }
    runtime ← tick_event_loop sent
    ok (record l { runtime = runtime })
