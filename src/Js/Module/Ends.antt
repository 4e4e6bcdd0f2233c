-- ===== src/Js/Module/Ends.antt =====
-- rsvim_core/src/js/module.rs: the recursion over the imports ends, cycles of imports included.
use rsvim.Prelude.{
  ℕ, zero, suc, ◌+◌, ◌≤◌, ◌<◌, ◌≡◌, refl, inl, inr, Bool, true, false, ◌||◌, if◌then◌else◌,
  Bool-cases, Option, some, none, List, [], ◌∷◌, length, Outcome, ok, ◌>>=◌, arith,
}
use rsvim.Js.Names.{
  Name, NameMap, name_eq, name_eq_iff, insert_name, has_name, lookup_name-insert_name,
  contains_name,
}
use rsvim.Js.Loader.{Host, done, resolve_import, load_import}
use rsvim.Js.Module.{Engine, ModuleMap, insert, fetch_requests, fetch_compiled, fetch_module_tree}
use rsvim.Js.Module.Keeps.{fetch_module_tree-keeps}

module _ {V : Type 0} where
  -- How many of the paths have no module yet.
  unseen : List Name → NameMap V → ℕ
  unseen [] index = 0
  unseen (p ∷ paths) index = (if has_name p index then 0 else 1) + unseen paths index

  has_name-insert_name :
      (k j : Name) (v : V) (m : NameMap V)
      → has_name j (insert_name k v m) ≡ (name_eq j k || has_name j m)
  unfolding has_name
  has_name-insert_name k j v m = ground (arith, lookup_name-insert_name k j v m)

  unseen-insert_name :
      (paths : List Name) (k : Name) (v : V) (m : NameMap V)
      → unseen paths (insert_name k v m) ≤ unseen paths m
  unfolding unseen
  unseen-insert_name [] k v m = omega arith
  unseen-insert_name (p ∷ paths) k v m =
      ground (arith, has_name-insert_name k p v m, unseen-insert_name paths k v m)

  unseen-insert_name_new :
      (paths : List Name) (k : Name) (v : V) (m : NameMap V)
      → contains_name k paths ≡ true
      → has_name k m ≡ false
      → unseen paths (insert_name k v m) < unseen paths m
  unfolding unseen contains_name
  unseen-insert_name_new [] k v m c new = cc
  unseen-insert_name_new (p ∷ paths) k v m c new = elim (Bool-cases (name_eq k p)) [
    | inl same ↦
        let e : k ≡ p = (name_eq_iff k p).0 same in
        ground
          (arith, e, has_name-insert_name k p v m, name_eq_iff p k, unseen-insert_name paths k v m)
    | inr other ↦
        ground (
          arith,
          has_name-insert_name k p v m,
          unseen-insert_name_new paths k v m (ground arith) new,
        )
  ]

  unseen_pos :
      (paths : List Name) (k : Name) (m : NameMap V)
      → contains_name k paths ≡ true
      → has_name k m ≡ false
      → 0 < unseen paths m
  unfolding unseen contains_name
  unseen_pos [] k m c new = cc
  unseen_pos (p ∷ paths) k m c new = elim (Bool-cases (name_eq k p)) [
    | inl same ↦ let e : k ≡ p = (name_eq_iff k p).0 same in ground (arith, e)
    | inr other ↦ ground (arith, unseen_pos paths k m (ground arith) new)
  ]

  unseen-le-length : (paths : List Name) (m : NameMap V) → unseen paths m ≤ length paths
  unfolding unseen
  unseen-le-length [] m = omega arith
  unseen-le-length (p ∷ paths) m = ground (arith, unseen-le-length paths m)

module _ (h : Host) (e : Engine) (paths : List Name) where
  -- The specifiers, imported by `base`, resolve to some of the paths.
  abbrev pub AllResolve : Name → List Name → Type 0
  AllResolve base [] = Unit
  AllResolve base (s ∷ specifiers) =
      ((q : Name) × (resolve_import h (some base) s false none ≡ ok (done q))
        × (contains_name q paths ≡ true))
      × AllResolve base specifiers

  -- The paths load, and what they import is among them.
  pub record IsComplete : Type 0 where
    pub loads :
        (p : Name)
        → contains_name p paths ≡ true
        → (text : Name) × (load_import h p ≡ ok (done text))
    pub imports :
        (p text : Name) (m : e.Module)
        → contains_name p paths ≡ true
        → load_import h p ≡ ok (done text)
        → e.compile_module p text ≡ some m
        → AllResolve p (e.module_requests m)

  abbrev Returns : {A : Type 0} → Outcome A → Type 0
  Returns {A} r = (a : A) × (r ≡ ok a)

  -- The fetches that have `fuel` rounds left return.
  abbrev Ends : ℕ → (Name → ModuleMap e → Outcome (Option e.Module × ModuleMap e)) → Type 0
  Ends fuel fetch =
      (q : Name) (map : ModuleMap e)
      → contains_name q paths ≡ true
      → has_name q map.index ≡ false
      → unseen paths map.index ≤ fuel
      → (o : Option e.Module) × (after : ModuleMap e) × (fetch q map ≡ ok (o, after))
        × (unseen paths after.index ≤ fuel)

  module _ (fuel : ℕ) (fetch : Name → ModuleMap e → Outcome (Option e.Module × ModuleMap e))
      (ends : Ends fuel fetch) where
    -- The loop at an import that resolves.
    fetch_requests-cons :
        (map : ModuleMap e) (base s q : Name) (specifiers : List Name)
        → resolve_import h (some base) s false none ≡ ok (done q)
        → fetch_requests h fetch base (s ∷ specifiers) map
          ≡ elim (has_name q map.index) as (λ _. Outcome (Bool × ModuleMap e)) [
            | true ↦ fetch_requests h fetch base specifiers map
            | false ↦ (do
              fetched ← fetch q map
              elim fetched.0 [
                | none ↦ ok (false, fetched.1)
                | some m ↦ fetch_requests h fetch base specifiers fetched.1
              ])
          ]
    unfolding fetch_requests
    fetch_requests-cons map base s q specifiers resolves = rw resolves refl

    fetch_requests_ends :
        (map : ModuleMap e) (base : Name) (specifiers : List Name)
        → AllResolve base specifiers
        → unseen paths map.index ≤ fuel
        → Returns (fetch_requests h fetch base specifiers map)
    fetch_requests_ends map base [] all le = ((true, map), unfold fetch_requests in refl)
    fetch_requests_ends map base (s ∷ specifiers) ((q, resolves, among), all) le =
        elim (Bool-cases (has_name q map.index)) [
          | inl has ↦
              let (r, er) = fetch_requests_ends map base specifiers all le in
              (r, rw (fetch_requests-cons map base s q specifiers resolves) (rw has er))
          | inr new ↦
              let (o, after, ef, le') = ends q map among new le in
              fetched o after ef new (fetch_requests_ends after base specifiers all le')
        ]
      where
        fetched :
            (o : Option e.Module) (after : ModuleMap e)
            → fetch q map ≡ ok (o, after)
            → has_name q map.index ≡ false
            → Returns (fetch_requests h fetch base specifiers after)
            → Returns (fetch_requests h fetch base (s ∷ specifiers) map)
        fetched none after ef new rest = (
          (false, after),
          rw (fetch_requests-cons map base s q specifiers resolves) (rw new (rw ef refl)),
        )
        fetched (some m) after ef new (r, er) =
            (r, rw (fetch_requests-cons map base s q specifiers resolves) (rw new (rw ef er)))

    fetch_compiled_ends :
        (map : ModuleMap e) (filename text : Name) (compiled : Option e.Module)
        → IsComplete
        → contains_name filename paths ≡ true
        → load_import h filename ≡ ok (done text)
        → e.compile_module filename text ≡ compiled
        → has_name filename map.index ≡ false
        → unseen paths map.index ≤ suc fuel
        → Returns (fetch_compiled h fetch filename compiled map)
    unfolding fetch_compiled insert
    fetch_compiled_ends map filename text none complete among loads ec new le = ((none, map), refl)
    fetch_compiled_ends map filename text (some m) complete among loads ec new le =
        let fewer = unseen-insert_name_new paths filename m map.index among new in
        let (r, er) =
          fetch_requests_ends (insert h filename m map) filename (e.module_requests m)
            (complete.imports filename text m among loads ec) (omega arith) in
        ((if r.0 then some m else none, r.1), rw er refl)

  fetch_module_tree-Ends :
      IsComplete → (fuel : ℕ) → Ends fuel (λ s. fetch_module_tree h fuel s none)
  unfolding fetch_module_tree insert
  fetch_module_tree-Ends complete zero q map among new le =
      absurd (omega (arith, unseen_pos paths q map.index among new))
  fetch_module_tree-Ends complete (suc fuel) q map among new le =
      let (text, loads) = complete.loads q among in
      let (r, er) =
        fetch_compiled_ends fuel (λ s. fetch_module_tree h fuel s none)
          (fetch_module_tree-Ends complete fuel) map q text (e.compile_module q text) complete among
          loads refl new le in
      let whole : fetch_module_tree h (suc fuel) q none map ≡ ok r = rw loads er in
      (
        r.0,
        r.1,
        whole,
        fetch_module_tree-keeps h e (λ mid. unseen paths mid.index ≤ suc fuel)
            (λ p source m mid c kept. omega (arith, unseen-insert_name paths p m mid.index))
            (suc fuel) none q map r.1 r.0 le whole,
      )

  -- Where a list of paths holds the file, each of them loads, and what they import is among them: the
  -- fetch of a file that is not in the map returns, without a panic, in as many rounds as there are
  -- paths.
  pub fetch_module_tree_returns :
      (filename : Name) (map : ModuleMap e)
      → IsComplete
      → contains_name filename paths ≡ true
      → has_name filename map.index ≡ false
      → (o : Option e.Module) × (after : ModuleMap e) × (fetch_module_tree h
            (length paths)
            filename
            none
            map
          ≡ ok (o, after))
  fetch_module_tree_returns filename map complete among new =
      let (o, after, eq, le) =
        fetch_module_tree-Ends complete (length paths) filename map among new
          (unseen-le-length paths map.index) in
      (o, after, eq)
