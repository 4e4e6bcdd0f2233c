-- ===== src/Js/Module/Resolves.antt =====
-- rsvim_core/src/js/module.rs and js/hook.rs: each import of a module that was fetched is found.
use rsvim.Prelude.{
  ℕ, ◌≡◌, refl, ◌⊎◌, inl, inr, Bool, false, Bool-cases, Option, some, none, List, [], ◌∷◌, ok,
  arith, ap, ◌∙◌,
}
use rsvim.Js.Names.{
  Name, NameMap, name_eq, name_eq_iff, lookup_name, insert_name, has_name, has_name_inv,
  contains_name,
}
use rsvim.Js.Loader.{
  Host, ImportMap, import_map, resolve_import, mapped_specifier, import_map_lookup,
}
use rsvim.Js.Module.{
  Engine, ModuleMap, insert, new, get, find_path, fetch_module_tree, module_resolve_cb,
}
use rsvim.Js.Module.Closed.{AreImported, fetch_module_tree-Fetched}
use rsvim.Js.Module.Keeps.{fetch_module_tree-keeps}

-- A member of a list, as an alternative for each place.
abbrev pub IsRequest : Name → List Name → Type 0
IsRequest s [] = ⊥
IsRequest s (r ∷ requests) = (s ≡ r) ⊎ IsRequest s requests

mapped_specifier_lem : (imports : Option ImportMap) (s : Name) → mapped_specifier imports s ≡ s
unfolding mapped_specifier import_map_lookup
mapped_specifier_lem none s = refl
mapped_specifier_lem (some (import_map entries)) s = refl

-- No import map changes what an import resolves to.
resolve_import-ImportMap :
    (h : Host) (base : Option Name) (s : Name) (b : Bool) (imports : Option ImportMap)
    → resolve_import h base s b imports ≡ resolve_import h base s b none
unfolding resolve_import
resolve_import-ImportMap h base s b imports =
    rw (mapped_specifier_lem imports s) (rw (mapped_specifier_lem none s) refl)

module _ (h : Host) (e : Engine) where
  -- Each module of the map is compiled under its path.
  abbrev pub AreNamed : NameMap e.Module → Type 0
  AreNamed [] = Unit
  AreNamed ((p, m) ∷ index) =
      ((source : Name) × (e.compile_module p source ≡ some m)) × AreNamed index

  AreNamed-insert_name :
      (p source : Name) (m : e.Module) (index : NameMap e.Module)
      → e.compile_module p source ≡ some m
      → AreNamed index
      → AreNamed (insert_name p m index)
  unfolding insert_name
  AreNamed-insert_name p source m [] c named = ((source, c), tt)
  AreNamed-insert_name p source m ((q, n) ∷ index) c (named, rest) =
      elim (Bool-cases (name_eq p q)) [
        | inl same ↦ rw same ((source, c), rest)
        | inr other ↦ rw other (named, AreNamed-insert_name p source m index c rest)
      ]

  lookup_name-AreNamed :
      (p : Name) (m : e.Module) (index : NameMap e.Module)
      → AreNamed index
      → lookup_name p index ≡ some m
      → (source : Name) × (e.compile_module p source ≡ some m)
  unfolding lookup_name
  lookup_name-AreNamed p m [] named l = cc
  lookup_name-AreNamed p m ((q, n) ∷ index) ((source, c), named) l =
      elim (Bool-cases (name_eq p q)) [
        | inl same ↦ let path : p ≡ q = (name_eq_iff p q).0 same in (source, ground (arith, path))
        | inr other ↦ lookup_name-AreNamed p m index named (ground arith)
      ]

  -- A module has one path.
  find_path_lem :
      (p : Name) (m : e.Module) (index : NameMap e.Module)
      → AreNamed index
      → lookup_name p index ≡ some m
      → find_path e m index ≡ some p
  unfolding lookup_name find_path
  find_path_lem p m [] named l = cc
  find_path_lem p m ((q, n) ∷ index) ((source, c), named) l = elim (Bool-cases (e.module_eq n m)) [
    | inl same ↦
        let e1 : n ≡ m = (e.module_eq_iff n m).0 same in
        let (source', c') = lookup_name-AreNamed p m ((q, n) ∷ index) ((source, c), named) l in
        let e2 : q ≡ p = e.compile_module-name q p source source' m (c ∙ ap some e1) c' in
        rw same (ap some e2)
    | inr other ↦ rw other (elim (Bool-cases (name_eq p q)) [
      | inl same ↦ let e1 : n ≡ m = ground arith in absurd (ground (arith, e.module_eq_iff n m))
      | inr different ↦ find_path_lem p m index named (ground arith)
    ])
  ]

  -- The engine asks for an import of a module of the map that is closed.
  resolve_cb_found :
      (map : ModuleMap e) (p s : Name) (m : e.Module) (imports : Option ImportMap)
      (requests : List Name)
      → find_path e m map.index ≡ some p
      → AreImported h e map p requests
      → IsRequest s requests
      → (n : e.Module) × (module_resolve_cb h imports s m map ≡ ok (some n))
  unfolding module_resolve_cb get
  resolve_cb_found map p s m imports [] path imported request = absurd request
  resolve_cb_found map p s m imports (r ∷ requests) path ((q, resolves, has), imported) (inl same) =
      let (n, l) = has_name_inv q map.index has in
      (
        n,
        rw (resolve_import-ImportMap h (find_path e m map.index) s false imports)
            (rw path (rw same (rw resolves (rw l refl)))),
      )
  resolve_cb_found map p s m imports (r ∷ requests) path (first, imported) (inr request) =
      resolve_cb_found map p s m imports requests path imported request

  -- Where the fetch of a module into an empty map returns the module, the hook finds a module for every
  -- import of every module of the map, whatever the import map: it does not panic.
  pub fetch_module_tree-Resolves :
      (fuel : ℕ) (filename : Name) (source : Option Name) (main : e.Module) (after : ModuleMap e)
      (imports : Option ImportMap) (p s : Name) (m : e.Module)
      → fetch_module_tree h fuel filename source new ≡ ok (some main, after)
      → lookup_name p after.index ≡ some m
      → IsRequest s (e.module_requests m)
      → (n : e.Module) × (module_resolve_cb h imports s m after ≡ ok (some n))
  unfolding new has_name lookup_name contains_name insert
  fetch_module_tree-Resolves fuel filename source main after imports p s m eq l request =
      let fetched =
        fetch_module_tree-Fetched h e fuel source [] new after filename main refl
          (λ q n none_there. cc) eq in
      let named =
        fetch_module_tree-keeps h e (λ map. AreNamed map.index)
          (λ q text n map c a. AreNamed-insert_name q text n map.index c a) fuel source filename new
          after (some main) tt eq in
      elim (fetched.closed p m l) [
        | inl waits ↦ cc
        | inr imported ↦
            resolve_cb_found after p s m imports (e.module_requests m)
              (find_path_lem p m after.index named l) imported request
      ]
