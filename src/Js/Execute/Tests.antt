-- ===== src/Js/Execute/Tests.antt =====
-- The execution of one of two modules that import each other.
use rsvim.Prelude.{◌≡◌, refl, inl, Bool, true, some, Outcome, ok, ◌>>=◌}
use rsvim.Js.Names.{Name}
use rsvim.Js.Loader.{AnyResult, done}
use rsvim.Js.Module.Resolves.{IsRequest}
use rsvim.Js.Sample.{file_a, host, engine}
use rsvim.Js.Timers.Tests.{scripts, config}
use rsvim.Js.Execute.{Hook, Linker}

abbrev Module : Type 0
Module = engine.Module

abbrev instantiate : Hook engine → Module → Outcome Bool
instantiate hook m = do n ← hook m.1 m; ok true

pub instantiate-asks :
    (hook : Hook engine) (S : Module → Type 0) (main : Module)
    → S main
    → ((m : Module) (s : Name)
        → S m
        → IsRequest s (engine.module_requests m)
        → (n : Module) × (hook s m ≡ ok (some n)) × S n)
    → (b : Bool) × (instantiate hook main ≡ ok b)
instantiate-asks hook S main h asks =
    let (n, e, found) = asks main main.1 h (inl refl) in (true, rw e refl)

-- An engine that asks for the import of the first module only, and whose modules set a timer.
abbrev linker : Linker scripts engine
linker = record {
  instantiate_module = instantiate;
  instantiate_module-asks = instantiate-asks;
  evaluate = λ heap m. ok config;
}

abbrev path : AnyResult host.Error Name
path = done file_a
