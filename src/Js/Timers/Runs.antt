-- ===== src/Js/Timers/Runs.antt =====
-- rsvim_core/src/js.rs: what a run of scripts keeps of the timers and of their messages.
use rsvim.Prelude.{
  ℕ, ◌+◌, ◌%◌, ◌^◌, ◌≤◌, ◌<◌, ◌≡◌, refl, ◌==◌, true, false, if◌then◌else◌, Option, some, none, List,
  [], ◌∷◌, ◌++◌, Map, lookup, contains_key, insert, remove, arith,
}
use native.Mathlib.Decide.{ℕ_discrete}
use mathlib.Core.Path.{◌∙◌}
use rsvim.Js.Exceptions.{capture_exception}
use rsvim.Js.Timers.{
  Scripts, Run, finished, call_set_timeout, call_clear_timeout, reject_with_no_handler,
  handler_added_after_reject, TimeoutReq, TimeoutResp, TimeoutFuture, JsRuntimeState, set_timeout,
  exec, clear_timeout, run_next_tick_callbacks, run_future, check_exceptions, run_futures,
  fast_forward_imports, next_future_id,
}

-- How many of the messages are about the timer.
unfoldable pub count_reqs : ℕ → List TimeoutReq → ℕ
count_reqs id [] = 0
count_reqs id (r ∷ rs) = (if id == r.future_id then 1 else 0) + count_reqs id rs

unfoldable pub count_resps : ℕ → List TimeoutResp → ℕ
count_resps id [] = 0
count_resps id (r ∷ rs) = (if id == r.future_id then 1 else 0) + count_resps id rs

pub count_reqs-append :
    (id : ℕ) (xs ys : List TimeoutReq)
    → count_reqs id (xs ++ ys) ≡ count_reqs id xs + count_reqs id ys
unfolding count_reqs
count_reqs-append id [] ys = omega arith
count_reqs-append id (x ∷ xs) ys = omega (arith, count_reqs-append id xs ys)

pub count_resps-append :
    (id : ℕ) (xs ys : List TimeoutResp)
    → count_resps id (xs ++ ys) ≡ count_resps id xs + count_resps id ys
unfolding count_resps
count_resps-append id [] ys = omega arith
count_resps-append id (x ∷ xs) ys = omega (arith, count_resps-append id xs ys)

module _ {V : Type 0} where
  contains_key-insert :
      (k j : ℕ) (v : V) (m : Map V)
      → contains_key j (insert k v m) ≡ (if j == k then true else contains_key j m)
  contains_key-insert k j v [] = refl
  contains_key-insert k j v ((i, w) ∷ m) = ground (arith, contains_key-insert k j v m)

  pub contains_key-remove :
      (k j : ℕ) (m : Map V)
      → contains_key j (remove k m) ≡ (if j == k then false else contains_key j m)
  contains_key-remove k j [] = ground arith
  contains_key-remove k j ((i, w) ∷ m) = ground (arith, contains_key-remove k j m)

  pub lookup-contains_key :
      (k : ℕ) (m : Map V) → contains_key k m ≡ true → (v : V) × (lookup k m ≡ some v)
  lookup-contains_key k [] h = cc
  lookup-contains_key k ((j, w) ∷ m) h = elim (ℕ_discrete k j) [
    | yes e ↦ (w, ground arith)
    | no n ↦ let (v, found) = lookup-contains_key k m (ground arith) in (v, ground arith)
  ]

module _ (s : Scripts) where
  -- Whether the timer is pending, as a number.
  abbrev pub pending : ℕ → JsRuntimeState s → ℕ
  pending id r = if contains_key id r.pending_futures then 1 else 0

  -- The runtime, where `held` counts the messages outside of it: one message for each pending timer, and
  -- the numbers of the pending timers have been handed out.
  pub record IsTracked (held : ℕ → ℕ) (r : JsRuntimeState s) : Type 0 where
    pub one_message :
        (id : ℕ)
        → held id + count_reqs id r.requests + count_resps id r.recv_from_master ≡ pending id r
    pub handed_out : (id : ℕ) → contains_key id r.pending_futures ≡ true → id < r.future_ids

  -- What a run keeps: the counter does not fall, nothing is received, no timer ends, and as long as the counter has not
  -- wrapped, the timers stay tracked.
  pub record Keeps (before after : JsRuntimeState s) : Type 0 where
    pub grows : before.future_ids ≤ after.future_ids
    pub received : after.recv_from_master ≡ before.recv_from_master
    pub stays :
        (id : ℕ)
        → contains_key id before.pending_futures ≡ true
        → contains_key id after.pending_futures ≡ true
    pub tracked :
        (held : ℕ → ℕ) → after.future_ids ≤ 2 ^ 32 → IsTracked held before → IsTracked held after

  Keeps-refl : (r : JsRuntimeState s) → Keeps r r
  Keeps-refl r = record {
    grows = omega arith;
    received = refl;
    stays = λ id c. c;
    tracked = λ held le t. t;
  }

  Keeps-trans : (a b c : JsRuntimeState s) → Keeps a b → Keeps b c → Keeps a c
  Keeps-trans a b c h k = record {
    grows = omega (arith, h.grows, k.grows);
    received = k.received ∙ h.received;
    stays = λ id c. k.stays id (h.stays id c);
    tracked = λ held le t. k.tracked held le (h.tracked held (omega (arith, k.grows)) t);
  }

  -- The runtime after a timer with a number that has not been handed out.
  set_timeout_fresh :
      (callback : s.values.Function) (millis : ℕ) (params : List s.values.Value)
      (r : JsRuntimeState s) (held : ℕ → ℕ)
      → r.future_ids < 2 ^ 32
      → IsTracked held r
      → IsTracked held (set_timeout callback millis params r).0
  unfolding set_timeout next_future_id count_reqs
  set_timeout_fresh callback millis params r held le t =
      let n = r.future_ids % 2 ^ 32 in
      let fresh : n ≡ r.future_ids = omega arith in
      let future : TimeoutFuture s = record { future_id = n; cb = callback; params = params } in
      let req : TimeoutReq = record { future_id = n; duration = millis } in
      record {
        one_message = λ id. ground (
          arith,
          fresh,
          t.one_message id,
          t.handed_out id,
          count_reqs-append id r.requests (req ∷ []),
          contains_key-insert n id future r.pending_futures,
        );
        handed_out = λ id c.
            ground
              (arith, fresh, t.handed_out id, contains_key-insert n id future r.pending_futures);
      }

  set_timeout-Keeps :
      (callback : s.values.Function) (millis : ℕ) (params : List s.values.Value)
      (r : JsRuntimeState s)
      → Keeps r (set_timeout callback millis params r).0
  unfolding set_timeout next_future_id
  set_timeout-Keeps callback millis params r = record {
    grows = omega arith;
    received = refl;
    stays = λ id c.
        let n = r.future_ids % 2 ^ 32 in
        let future : TimeoutFuture s = record { future_id = n; cb = callback; params = params } in
        ground (arith, contains_key-insert n id future r.pending_futures);
    tracked = λ held le t. set_timeout_fresh callback millis params r held (omega arith) t;
  }

  -- Changes of the other fields keep all of this.
  same-Keeps :
      (a b : JsRuntimeState s)
      → b.future_ids ≡ a.future_ids
      → b.recv_from_master ≡ a.recv_from_master
      → b.requests ≡ a.requests
      → b.pending_futures ≡ a.pending_futures
      → Keeps a b
  same-Keeps a b ids recv reqs futures = record {
    grows = omega (arith, ids);
    received = recv;
    stays = λ id c. rw futures c;
    tracked = λ held le t. record {
      one_message = λ id. rw (recv, reqs, futures) (t.one_message id);
      handed_out = λ id c. rw ids (t.handed_out id (rw futures at c));
    };
  }

  pub exec-Keeps : (run : Run s.values s.Heap) (r : JsRuntimeState s) → Keeps r (exec run r).0
  unfolding exec clear_timeout
  exec-Keeps (finished heap caught) r = same-Keeps r _ refl refl refl refl
  exec-Keeps (call_set_timeout callback millis params rest) r =
      let set = set_timeout callback millis params r in
      Keeps-trans r set.0 _ (set_timeout-Keeps callback millis params r)
        (exec-Keeps (rest set.1) set.0)
  exec-Keeps (call_clear_timeout timer_id rest) r =
      Keeps-trans r (clear_timeout timer_id r) _ (same-Keeps r _ refl refl refl refl)
        (exec-Keeps rest _)
  exec-Keeps (reject_with_no_handler promise reason rest) r =
      Keeps-trans r _ _ (same-Keeps r _ refl refl refl refl) (exec-Keeps rest _)
  exec-Keeps (handler_added_after_reject promise rest) r =
      Keeps-trans r _ _ (same-Keeps r _ refl refl refl refl) (exec-Keeps rest _)

  run_next_tick_callbacks-Keeps : (r : JsRuntimeState s) → Keeps r (run_next_tick_callbacks r)
  unfolding run_next_tick_callbacks
  run_next_tick_callbacks-Keeps r = exec-Keeps (s.microtask_checkpoint r.heap) r

  run_future-Keeps :
      (future : TimeoutFuture s) (r : JsRuntimeState s) → Keeps r (run_future future r)
  unfolding run_future
  run_future-Keeps future r =
      let ran = exec (s.call r.heap future.cb future.params) r in
      let kept = exec-Keeps (s.call r.heap future.cb future.params) r in
      elim ran.1
        as (λ caught. Keeps r (elim caught as (λ _. JsRuntimeState s) [
          | some exception ↦ record ran.0 {
            exceptions = capture_exception exception ran.0.exceptions;
          }
          | none ↦ ran.0
        ])) [
          | some exception ↦ Keeps-trans r ran.0 _ kept (same-Keeps ran.0 _ refl refl refl refl)
          | none ↦ kept
        ]

  check_exceptions-Keeps : (r : JsRuntimeState s) → Keeps r (check_exceptions r).0
  unfolding check_exceptions
  check_exceptions-Keeps r = go r.exceptions.exception r.exceptions.uncaught_exception_cb
    where
      taken : JsRuntimeState s
      taken = record r { exceptions = record r.exceptions { exception = none } }

      go :
          (held : Option s.values.Value) (callback : Option s.values.Function)
          → Keeps r
              (elim held as (λ _. JsRuntimeState s × Option s.values.Value) [
                | none ↦ (r, none)
                | some exception ↦
                    elim callback as (λ _. JsRuntimeState s × Option s.values.Value) [
                      | some cb ↦ exec (s.call r.heap cb (s.uncaught_args exception)) taken
                      | none ↦ (taken, some exception)
                    ]
              ]).0
      go none callback = Keeps-refl r
      go (some exception) none = same-Keeps r taken refl refl refl refl
      go (some exception) (some cb) =
          Keeps-trans r taken _ (same-Keeps r taken refl refl refl refl)
            (exec-Keeps (s.call r.heap cb (s.uncaught_args exception)) taken)

  pub run_futures-Keeps :
      (futures : List (TimeoutFuture s)) (r : JsRuntimeState s) → Keeps r (run_futures futures r)
  unfolding run_futures
  run_futures-Keeps [] r = Keeps-refl r
  run_futures-Keeps (future ∷ futures) r =
      let ran = run_future future r in
      let checked = (check_exceptions ran).0 in
      Keeps-trans r checked _
        (Keeps-trans r ran checked (run_future-Keeps future r) (check_exceptions-Keeps ran))
        (Keeps-trans checked (run_next_tick_callbacks checked) _
          (run_next_tick_callbacks-Keeps checked)
          (run_futures-Keeps futures (run_next_tick_callbacks checked)))

  -- Both checkpoints that come before the timers.
  pub before_futures-Keeps :
      (r : JsRuntimeState s) → Keeps r (fast_forward_imports (run_next_tick_callbacks r))
  unfolding fast_forward_imports
  before_futures-Keeps r =
      Keeps-trans r (run_next_tick_callbacks r) _ (run_next_tick_callbacks-Keeps r)
        (run_next_tick_callbacks-Keeps (run_next_tick_callbacks r))
