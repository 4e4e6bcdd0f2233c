-- ===== src/Js/Module.antt =====
-- rsvim_core/src/js/module.rs: the map of the modules, and the loading of a module with all that it
-- imports; and the hook of js/hook.rs by which the engine finds an import. The engine (`v8`) is a
-- parameter. The recursion takes fuel. The log is off, so that no text is cut for it.
pub mod Closed
pub mod Keeps
pub mod Resolves
pub mod Ends
use rsvim.Prelude.{
  ℕ, zero, suc, ◌≡◌, ◌↔◌, Bool, true, false, ◌&&◌, if◌then◌else◌, Option, some, none, List, [], ◌∷◌,
  Outcome, ok, stuck, ◌>>=◌, unwrap,
}
use rsvim.Js.Names.{Name, NameMap, lookup_name, insert_name, has_name}
use rsvim.Js.Loader.{Host, ImportMap, unwrap_result, resolve_import, load_import}

pub record Engine : Type 1 where
  pub Module : Type 0
  -- `compile_module` of a source under its name. `none`: the engine has caught an exception.
  pub compile_module : Name → Name → Option Module
  -- `get_module_requests`: the specifiers of the imports.
  pub module_requests : Module → List Name
  pub module_eq : Module → Module → Bool
  pub module_eq_iff : (m n : Module) → (module_eq m n ≡ true) ↔ (m ≡ n)
  -- A module is compiled under one name.
  pub compile_module-name :
      (s t source source' : Name) (m : Module)
      → compile_module s source ≡ some m
      → compile_module t source' ≡ some m
      → s ≡ t

module _ (e : Engine) where
  -- `ModuleMap`, less the statuses and the graphs of pending imports.
  pub record ModuleMap : Type 0 where
    pub main : Option Name
    pub index : NameMap e.Module

  -- `ModuleMap::get_path`: the path of a module.
  unfoldable pub find_path : e.Module → NameMap e.Module → Option Name
  find_path m [] = none
  find_path m ((p, n) ∷ index) = if e.module_eq n m then some p else find_path m index

module _ {e : Engine} where
  unfoldable pub new : ModuleMap e
  new = record { main = none; index = [] }

  unfoldable pub get : Name → ModuleMap e → Option e.Module
  get key map = lookup_name key map.index

module _ (h : Host) {e : Engine} where
  unfoldable pub insert : Name → e.Module → ModuleMap e → ModuleMap e
  insert path m map = record {
    main = elim map.main [
      | some p ↦ some p
      | none ↦ if h.has_metadata path then some path else none
    ];
    index = insert_name path m map.index;
  }

  -- The loop over the requests of the module `base`; `fetch` is the recursive call. `false` is the
  -- early return by `?`.
  unfoldable pub fetch_requests :
      (Name → ModuleMap e → Outcome (Option e.Module × ModuleMap e))
      → Name
      → List Name
      → ModuleMap e
      → Outcome (Bool × ModuleMap e)
  fetch_requests fetch base [] map = ok (true, map)
  fetch_requests fetch base (request ∷ requests) map = do
    resolved ← resolve_import h (some base) request false none
    specifier ← unwrap_result resolved
    elim (has_name specifier map.index) [
      | true ↦ fetch_requests fetch base requests map
      | false ↦ (do
        fetched ← fetch specifier map
        elim fetched.0 [
          | none ↦ ok (false, fetched.1)
          | some m ↦ fetch_requests fetch base requests fetched.1
        ])
    ]

  -- The compiled module `compiled` goes into the map before its imports are fetched.
  unfoldable pub fetch_compiled :
      (Name → ModuleMap e → Outcome (Option e.Module × ModuleMap e))
      → Name
      → Option e.Module
      → ModuleMap e
      → Outcome (Option e.Module × ModuleMap e)
  fetch_compiled fetch filename none map = ok (none, map)
  fetch_compiled fetch filename (some m) map = do
    r ← fetch_requests fetch filename (e.module_requests m) (insert filename m map)
    ok (if r.0 then some m else none, r.1)

  unfoldable pub fetch_module_tree :
      ℕ → Name → Option Name → ModuleMap e → Outcome (Option e.Module × ModuleMap e)
  fetch_module_tree zero filename source map = stuck
  fetch_module_tree (suc fuel) filename source map = do
    text ← elim source as (λ _. Outcome Name) [
      | some s ↦ ok s
      | none ↦ load_import h filename >>= unwrap_result
    ]
    fetch_compiled (λ specifier. fetch_module_tree fuel specifier none) filename
        (e.compile_module filename text) map

  -- `module_resolve_cb`: the module that the import `specifier` of `referrer` stands for.
  unfoldable pub module_resolve_cb :
      Option ImportMap → Name → e.Module → ModuleMap e → Outcome (Option e.Module)
  module_resolve_cb imports specifier referrer map = do
    resolved ← resolve_import h (find_path e referrer map.index) specifier false imports
    path ← unwrap_result resolved
    m ← unwrap (get path map)
    ok (some m)
