-- ===== src/Js/Exceptions.antt =====
-- rsvim_core/src/js/exception.rs: the exceptions and the promise rejections that the runtime holds, over
-- the values, promises and functions of the engine.
use rsvim.Prelude.{Bool, true, false, not, if◌then◌else◌, Option, some, none, List, [], ◌∷◌, ◌++◌}

pub record Values : Type 1 where
  pub Value : Type 0
  pub Promise : Type 0
  pub Function : Type 0
  pub value_eq : Value → Value → Bool
  pub promise_eq : Promise → Promise → Bool

module _ (v : Values) where
  pub record ExceptionState : Type 0 where
    pub exception : Option v.Value
    pub promise_rejections : List (v.Promise × v.Value)
    pub uncaught_exception_cb : Option v.Function
    pub unhandled_rejection_cb : Option v.Function

module _ {v : Values} where
  unfoldable pub new : ExceptionState v
  new = record {
    exception = none;
    promise_rejections = [];
    uncaught_exception_cb = none;
    unhandled_rejection_cb = none;
  }

  unfoldable pub capture_exception : v.Value → ExceptionState v → ExceptionState v
  capture_exception exception s = record s {
    exception = elim s.exception [ some e ↦ some e | none ↦ some exception ];
  }

  unfoldable pub capture_promise_rejection :
      v.Promise → v.Value → ExceptionState v → ExceptionState v
  capture_promise_rejection promise reason s = record s {
    promise_rejections = s.promise_rejections ++ (promise, reason) ∷ [];
  }

  unfoldable pub has_promise_rejection : ExceptionState v → Bool
  has_promise_rejection s = elim s.promise_rejections [ [] ↦ false | r ∷ rs ↦ true ]

module _ (v : Values) where
  unfoldable pub retain_promises :
      v.Promise → List (v.Promise × v.Value) → List (v.Promise × v.Value)
  retain_promises promise [] = []
  retain_promises promise ((p, r) ∷ rest) =
      let kept = retain_promises promise rest in
      if not (v.promise_eq p promise) then (p, r) ∷ kept else kept

  unfoldable pub retain_reasons : v.Value → List (v.Promise × v.Value) → List (v.Promise × v.Value)
  retain_reasons exception [] = []
  retain_reasons exception ((p, r) ∷ rest) =
      let kept = retain_reasons exception rest in
      if not (v.value_eq r exception) then (p, r) ∷ kept else kept

module _ {v : Values} where
  unfoldable pub remove_promise_rejection : v.Promise → ExceptionState v → ExceptionState v
  remove_promise_rejection promise s = record s {
    promise_rejections = retain_promises v promise s.promise_rejections;
  }

  unfoldable pub remove_promise_rejection_entry : v.Value → ExceptionState v → ExceptionState v
  remove_promise_rejection_entry exception s = record s {
    promise_rejections = retain_reasons v exception s.promise_rejections;
  }

  unfoldable pub set_uncaught_exception_callback :
      Option v.Function → ExceptionState v → ExceptionState v
  set_uncaught_exception_callback callback s = record s { uncaught_exception_cb = callback }

  unfoldable pub set_unhandled_rejection_callback :
      Option v.Function → ExceptionState v → ExceptionState v
  set_unhandled_rejection_callback callback s = record s { unhandled_rejection_cb = callback }
