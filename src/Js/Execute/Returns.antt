-- ===== src/Js/Execute/Returns.antt =====
-- rsvim_core/src/js.rs: the execution of a module returns.
use rsvim.Prelude.{◌≡◌, Outcome, Option, some, none, ok}
use rsvim.Js.Names.{Name, lookup_name}
use rsvim.Js.Loader.{Host, AnyErr, done, failed, load_import}
use rsvim.Js.Timers.{Scripts, Run, JsRuntimeState, exec}
use rsvim.Js.Module.{Engine, ModuleMap, new}
use rsvim.Js.Execute.{
  Linker, Executed, executed, not_resolved, not_fetched, not_instantiated, not_evaluated, main_path,
}

module _ (h : Host) (sc : Scripts) (e : Engine) (l : Linker sc e) where
  -- A module of the map.
  abbrev Held : ModuleMap e → e.Module → Type 0
  Held map m = (p : Name) × (lookup_name p map.index ≡ some m)

  -- What the execution of a file did, from the runtime `r`.
  pub data Executes (filename : Name) (source : Option Name) (r : JsRuntimeState sc)
      (o : Outcome (Executed h.Error × ModuleMap e × JsRuntimeState sc)) : Type 0 where
    resolve_failed :
        (error : AnyErr h.Error)
        → main_path h filename source ≡ ok (failed error)
        → o ≡ ok (not_resolved error, new, r)
        → Executes filename source r o
    fetch_failed : (map : ModuleMap e) → o ≡ ok (not_fetched, map, r) → Executes filename source r o
    link_failed :
        (map : ModuleMap e) → o ≡ ok (not_instantiated, map, r) → Executes filename source r o
    ran :
        (text : Name) (m : e.Module) (map : ModuleMap e) (script : Run sc.values sc.Heap)
        → load_import h filename ≡ ok (done text)
        → e.compile_module filename text ≡ some m
        → l.evaluate r.heap m ≡ ok script
        → (exec script r).1 ≡ none
        → o ≡ ok (executed, map, (exec script r).0)
        → Executes filename source r o
    threw :
        (text : Name) (m : e.Module) (map : ModuleMap e) (script : Run sc.values sc.Heap)
        (exception : sc.values.Value)
        → load_import h filename ≡ ok (done text)
        → e.compile_module filename text ≡ some m
        → l.evaluate r.heap m ≡ ok script
        → (exec script r).1 ≡ some exception
        → o ≡ ok (not_evaluated, map, (exec script r).0)
        → Executes filename source r o
