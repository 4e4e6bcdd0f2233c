-- ===== src/Js/Tests.antt =====
-- Concrete runs of the runtime's part of the host.
use rsvim.Prelude.{
  ◌≡◌, refl, ◌⊎◌, inl, inr, sym, true, false, Option, some, none, List, [], ◌∷◌, ok, arith,
}
use mathlib.Core.Path.{subst}
use rsvim.Js.Names.{
  Name, codes, name_eq, name_eq_iff, lookup_name, insert_name, has_name, contains_name, starts_with,
}
use rsvim.Js.Loader.{
  done, fs_load, load_import, resolve_import, fs_resolve, is_core_module, is_windows_path,
  mapped_specifier, load_as_file, load_source, is_json_import, preprocess, load_first,
  with_extensions,
}
use rsvim.Js.Loader.Loads.{Loads}
use rsvim.Js.Module.{
  ModuleMap, new, fetch_module_tree, fetch_compiled, fetch_requests, insert, module_resolve_cb,
}
use rsvim.Js.Module.Resolves.{fetch_module_tree-Resolves}
use rsvim.Js.Module.Ends.{IsComplete, fetch_module_tree_returns}
use rsvim.Js.Sample.{file_a, file_b, import_a, import_b, host, engine}

abbrev pub paths : List Name
paths = file_a ∷ file_b ∷ []

abbrev fetched : ModuleMap engine
fetched = record {
  main = some file_a;
  index = (file_a, (file_a, import_b)) ∷ (file_b, (file_b, import_a)) ∷ [];
}

-- The two modules import each other.
fetch_cycle : fetch_module_tree host 2 file_a none new ≡ ok (some (file_a, import_b), fetched)
unfolding fetch_module_tree fetch_compiled fetch_requests insert new load_import fs_load
    load_as_file load_source is_json_import preprocess is_core_module resolve_import
    mapped_specifier fs_resolve is_windows_path starts_with name_eq lookup_name insert_name has_name
fetch_cycle = refl

fetch_module_tree-Resolves_example :
    (n : engine.Module) × (module_resolve_cb host none import_a (file_b, import_a) fetched
      ≡ ok (some n))
unfolding lookup_name name_eq
fetch_module_tree-Resolves_example =
    fetch_module_tree-Resolves host engine 2 file_a none (file_a, import_b) fetched none file_b
      import_a (file_b, import_a) fetch_cycle refl (inl refl)

path_cases : (p : Name) → contains_name p paths ≡ true → (p ≡ file_a) ⊎ (p ≡ file_b)
unfolding contains_name
path_cases p h = ground (arith, name_eq_iff p file_a, name_eq_iff p file_b)

load_a : load_import host file_a ≡ ok (done import_b)
unfolding load_import fs_load load_as_file load_source is_json_import preprocess is_core_module
    name_eq
load_a = refl

load_b : load_import host file_b ≡ ok (done import_a)
unfolding load_import fs_load load_as_file load_source is_json_import preprocess is_core_module
    name_eq
load_b = refl

resolve_b : resolve_import host (some file_a) import_b false none ≡ ok (done file_b)
unfolding resolve_import mapped_specifier fs_resolve is_core_module is_windows_path starts_with
    name_eq
resolve_b = refl

resolve_a : resolve_import host (some file_b) import_a false none ≡ ok (done file_a)
unfolding resolve_import mapped_specifier fs_resolve is_core_module is_windows_path starts_with
    name_eq
resolve_a = refl

abbrev CanLoad : Name → Type 0
CanLoad p = (text : Name) × (load_import host p ≡ ok (done text))

abbrev Imports : Name → Type 0
Imports p =
    (text : Name) (m : engine.Module)
    → load_import host p ≡ ok (done text)
    → some (p, text) ≡ some m
    → ((q : Name) × (resolve_import host (some p) m.1 false none ≡ ok (done q))
        × (contains_name q paths ≡ true))
      × Unit {0}

Imports-a : Imports file_a
unfolding contains_name name_eq
Imports-a text m loads e =
    let same : import_b ≡ m.1 = ground (arith, load_a, loads, e) in
    (
      (
        file_b,
        subst (λ s. resolve_import host (some file_a) s false none ≡ ok (done file_b)) same
            resolve_b,
        refl,
      ),
      tt,
    )

Imports-b : Imports file_b
unfolding contains_name name_eq
Imports-b text m loads e =
    let same : import_a ≡ m.1 = ground (arith, load_b, loads, e) in
    (
      (
        file_a,
        subst (λ s. resolve_import host (some file_b) s false none ≡ ok (done file_a)) same
            resolve_a,
        refl,
      ),
      tt,
    )

pub paths-IsComplete : IsComplete host engine paths
paths-IsComplete = record {
  loads = λ p h. elim (path_cases p h) [
    | inl e ↦ subst CanLoad (sym e) (import_b, load_a)
    | inr e ↦ subst CanLoad (sym e) (import_a, load_b)
  ];
  imports = λ p text m h. elim (path_cases p h) [
    | inl e ↦ subst Imports (sym e) Imports-a text m
    | inr e ↦ subst Imports (sym e) Imports-b text m
  ];
}

fetch_module_tree_returns_example :
    (o : Option engine.Module) × (after : ModuleMap engine) × (fetch_module_tree host 2 file_a none
        new
      ≡ ok (o, after))
unfolding contains_name name_eq has_name lookup_name new
fetch_module_tree_returns_example =
    fetch_module_tree_returns host engine paths file_a new paths-IsComplete refl refl

load_typescript : fs_load host (codes "/x") ≡ ok (done import_a)
unfolding fs_load load_as_file load_source is_json_import preprocess name_eq load_first
    with_extensions
load_typescript = refl
