-- ===== src/Js/Execute.antt =====
-- `JsRuntime::execute_module` of rsvim_core/src/js.rs: a module is loaded, linked and evaluated. What the
-- engine does between its calls of the hook is a parameter; what it prints is left out.
pub mod Returns
pub mod Tests
use rsvim.Prelude.{ℕ, ◌≡◌, Bool, true, false, if◌then◌else◌, Option, some, none, Outcome, ok, ◌>>=◌}
use rsvim.Js.Names.{Name}
use rsvim.Js.Loader.{Host, AnyErr, AnyResult, done, failed, resolve_import}
use rsvim.Js.Module.{Engine, ModuleMap, fetch_module_tree, module_resolve_cb}
use rsvim.Js.Timers.{Scripts, Run, JsRuntimeState, exec}
use rsvim.Js.Module.Resolves.{IsRequest}

module _ (e : Engine) where
  -- The hook, on a specifier and the module that imports it.
  abbrev pub Hook : Type 0
  Hook = Name → e.Module → Outcome (Option e.Module)

module _ (sc : Scripts) (e : Engine) where
  pub record Linker : Type 1 where
    -- `instantiate_module`; `false`: the engine has caught an exception.
    pub instantiate_module : Hook e → e.Module → Outcome Bool
    -- The engine asks the hook about the imports of the module and of the modules that it was given, and
    -- about nothing else.
    pub instantiate_module-asks :
        (hook : Hook e) (S : e.Module → Type 0) (main : e.Module)
        → S main
        → ((m : e.Module) (s : Name)
            → S m
            → IsRequest s (e.module_requests m)
            → (n : e.Module) × (hook s m ≡ ok (some n)) × S n)
        → (b : Bool) × (instantiate_module hook main ≡ ok b)
    -- `evaluate`, on the heap: the run of the module's script, as far as it ends; `stuck` if it does not.
    pub evaluate : sc.Heap → e.Module → Outcome (Run sc.values sc.Heap)

module _ (E : Type 0) where
  -- The result, with an alternative for each `bail!`.
  pub data Executed : Type 0 where
    executed : Executed
    not_resolved : AnyErr E → Executed
    not_fetched : Executed
    not_instantiated : Executed
    not_evaluated : Executed

module _ (h : Host) where
  -- The path that the module is said to have; nothing but the log reads it.
  unfoldable pub main_path : Name → Option Name → Outcome (AnyResult h.Error Name)
  main_path filename (some source) = ok (done filename)
  main_path filename none = resolve_import h none filename false none

module _ (h : Host) {sc : Scripts} {e : Engine} (l : Linker sc e) where
  -- The module is evaluated: its script changes the runtime, and its status is `Errored` if it ends with
  -- an exception.
  unfoldable pub evaluate_module :
      e.Module → JsRuntimeState sc → Outcome (Executed h.Error × JsRuntimeState sc)
  evaluate_module m r = do
    script ← l.evaluate r.heap m
    let (after, caught) = exec script r
    ok (
      elim caught as (λ _. Executed h.Error) [ none ↦ executed | some exception ↦ not_evaluated ],
      after,
    )

  unfoldable pub instantiate_and_evaluate :
      e.Module
      → ModuleMap e
      → JsRuntimeState sc
      → Outcome (Executed h.Error × ModuleMap e × JsRuntimeState sc)
  instantiate_and_evaluate m map r = do
    instantiated ← l.instantiate_module (λ s referrer. module_resolve_cb h none s referrer map) m
    elim instantiated [
      | true ↦ (do result ← evaluate_module m r; ok (result.0, map, result.1))
      | false ↦ ok (not_instantiated, map, r)
    ]

  -- The source is not passed on to the fetch.
  unfoldable pub execute_module :
      ℕ
      → Name
      → Option Name
      → ModuleMap e
      → JsRuntimeState sc
      → Outcome (Executed h.Error × ModuleMap e × JsRuntimeState sc)
  execute_module fuel filename source map r = do
    path ← main_path h filename source
    elim path [
      | failed error ↦ ok (not_resolved error, map, r)
      | done p ↦ (do
        fetched ← fetch_module_tree h fuel filename none map
        elim fetched.0 [
          | none ↦ ok (not_fetched, fetched.1, r)
          | some m ↦ instantiate_and_evaluate m fetched.1 r
        ])
    ]
