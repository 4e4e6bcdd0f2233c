-- ===== src/Js/Module/Closed.antt =====
-- rsvim_core/src/js/module.rs: after the fetch of a module, the map is closed under imports.
use mathlib.Core.Path.{subst, sym}
use rsvim.Prelude.{
  ℕ, zero, suc, ◌≡◌, refl, ◌⊎◌, inl, inr, Bool, true, false, if◌then◌else◌, Bool-cases, Option,
  some, none, List, [], ◌∷◌, ap, ◌∙◌, Outcome, ok, ◌>>=◌, >>=-ok, arith,
}
use rsvim.Js.Names.{
  Name, name_eq, name_eq_iff, lookup_name, has_name, has_name-some, has_name_inv,
  lookup_name-insert_name, contains_name,
}
use rsvim.Js.Loader.{Host, AnyResult, done, failed, unwrap_result, resolve_import, load_import}
use rsvim.Js.Module.{Engine, ModuleMap, insert, fetch_requests, fetch_compiled, fetch_module_tree}

pub unwrap_result-eq-ok :
    {E A : Type 0} (r : AnyResult E A) {a : A} → unwrap_result r ≡ ok a → r ≡ done a
unwrap_result-eq-ok (done a) h = cc
unwrap_result-eq-ok (failed e) h = cc

module _ (h : Host) (e : Engine) where
  -- The map `after` has the modules of `before`.
  abbrev pub Extends : ModuleMap e → ModuleMap e → Type 0
  Extends before after =
      (p : Name) (m : e.Module)
      → lookup_name p before.index ≡ some m
      → lookup_name p after.index ≡ some m

  -- Each of the specifiers, imported by `base`, resolves to a path of the map.
  abbrev pub AreImported : ModuleMap e → Name → List Name → Type 0
  AreImported map base [] = Unit
  AreImported map base (s ∷ specifiers) =
      ((q : Name) × (resolve_import h (some base) s false none ≡ ok (done q))
        × (has_name q map.index ≡ true))
      × AreImported map base specifiers

  -- The imports of each module of the map are in the map, but for the modules that are `waiting`.
  abbrev pub IsClosedBut : List Name → ModuleMap e → Type 0
  IsClosedBut waiting map =
      (p : Name) (m : e.Module)
      → lookup_name p map.index ≡ some m
      → (contains_name p waiting ≡ true) ⊎ AreImported map p (e.module_requests m)

  has_name-Extends :
      (before after : ModuleMap e) (q : Name)
      → Extends before after
      → has_name q before.index ≡ true
      → has_name q after.index ≡ true
  has_name-Extends before after q ext has =
      let (m, er) = has_name_inv q before.index has in has_name-some q after.index m (ext q m er)

  pub AreImported-Extends :
      (before after : ModuleMap e) (base : Name) (specifiers : List Name)
      → Extends before after
      → AreImported before base specifiers
      → AreImported after base specifiers
  AreImported-Extends before after base [] ext a = tt
  AreImported-Extends before after base (s ∷ specifiers) ext ((q, r, has), a) = (
    (q, r, has_name-Extends before after q ext has),
    AreImported-Extends before after base specifiers ext a,
  )

  -- What a fetch of a new module does to the map.
  pub record Fetched (waiting : List Name) (before after : ModuleMap e) (s : Name) (m : e.Module)
      : Type 0 where
    pub extends : Extends before after
    pub fetched : lookup_name s after.index ≡ some m
    pub closed : IsClosedBut waiting after

  pub record FetchedAll (waiting : List Name) (before after : ModuleMap e) (base : Name)
      (specifiers : List Name) : Type 0 where
    pub extends : Extends before after
    pub imported : AreImported after base specifiers
    pub closed : IsClosedBut waiting after

  abbrev Fetches : (Name → ModuleMap e → Outcome (Option e.Module × ModuleMap e)) → Type 0
  Fetches fetch =
      (waiting : List Name) (before after : ModuleMap e) (s : Name) (m : e.Module)
      → has_name s before.index ≡ false
      → IsClosedBut waiting before
      → fetch s before ≡ ok (some m, after)
      → Fetched waiting before after s m

  module _ (fetch : Name → ModuleMap e → Outcome (Option e.Module × ModuleMap e))
      (fetches : Fetches fetch) (waiting : List Name) where
    fetch_requests-FetchedAll :
        (before after : ModuleMap e) (base : Name) (specifiers : List Name)
        → IsClosedBut waiting before
        → fetch_requests h fetch base specifiers before ≡ ok (true, after)
        → FetchedAll waiting before after base specifiers
    unfolding fetch_requests
    fetch_requests-FetchedAll before after base [] closed eq =
        let same : before ≡ after = cc in
        record {
          extends = λ p m l. rw (← same) l;
          imported = tt;
          closed = subst (IsClosedBut waiting) same closed;
        }
    fetch_requests-FetchedAll before after base (s ∷ specifiers) closed eq =
        let (resolved, er, k) = >>=-ok (resolve_import h (some base) s false none) _ eq in
        let (q, eq', k') = >>=-ok (unwrap_result resolved) _ k in
        let resolves : resolve_import h (some base) s false none ≡ ok (done q) =
          er ∙ ap ok (unwrap_result-eq-ok resolved eq') in
        imports q resolves (λ mid. fetch_requests-FetchedAll mid after base specifiers)
          (Bool-cases (has_name q before.index)) k'
      where
        fetched_first :
            (q : Name)
            → resolve_import h (some base) s false none ≡ ok (done q)
            → ((mid : ModuleMap e)
                → IsClosedBut waiting mid
                → fetch_requests h fetch base specifiers mid ≡ ok (true, after)
                → FetchedAll waiting mid after base specifiers)
            → has_name q before.index ≡ false
            → (o : Option e.Module) (mid : ModuleMap e) → fetch q before ≡ ok (o, mid)
            → elim o as (λ _. Outcome (Bool × ModuleMap e)) [
              | none ↦ ok (false, mid)
              | some m ↦ fetch_requests h fetch base specifiers mid
            ]
              ≡ ok (true, after)
            → FetchedAll waiting before after base (s ∷ specifiers)
        fetched_first q resolves rest new none mid ef k = cc
        fetched_first q resolves rest new (some m) mid ef k =
            let first = fetches waiting before mid q m new closed ef in
            let others = rest mid first.closed k in
            record {
              extends = λ p n l. others.extends p n (first.extends p n l);
              imported = (
                (q, resolves, has_name-some q after.index m (others.extends q m first.fetched)),
                others.imported,
              );
              closed = others.closed;
            }

        imports :
            (q : Name)
            → resolve_import h (some base) s false none ≡ ok (done q)
            → ((mid : ModuleMap e)
                → IsClosedBut waiting mid
                → fetch_requests h fetch base specifiers mid ≡ ok (true, after)
                → FetchedAll waiting mid after base specifiers)
            → (has_name q before.index ≡ true) ⊎ (has_name q before.index ≡ false)
            → elim (has_name q before.index) as (λ b. Outcome (Bool × ModuleMap e)) [
              | true ↦ fetch_requests h fetch base specifiers before
              | false ↦ (do
                fetched ← fetch q before
                elim fetched.0 [
                  | none ↦ ok (false, fetched.1)
                  | some m ↦ fetch_requests h fetch base specifiers fetched.1
                ])
            ]
              ≡ ok (true, after)
            → FetchedAll waiting before after base (s ∷ specifiers)
        imports q resolves rest (inl has) k =
            let others = rest before closed (rw has at k) in
            record {
              extends = others.extends;
              imported = (
                (q, resolves, has_name-Extends before after q others.extends has),
                others.imported,
              );
              closed = others.closed;
            }
        imports q resolves rest (inr new) k =
            let (fetched, ef, k') = >>=-ok (fetch q before) _ (rw new at k) in
            fetched_first q resolves rest new fetched.0 fetched.1 ef k'

  module _ (map : ModuleMap e) (filename : Name) (m : e.Module) where
    insert-Extends : has_name filename map.index ≡ false → Extends map (insert h filename m map)
    unfolding insert has_name
    insert-Extends new p n l =
        ground (arith, lookup_name-insert_name filename p m map.index, name_eq_iff p filename)

    lookup_name-insert : lookup_name filename (insert h filename m map).index ≡ some m
    unfolding insert
    lookup_name-insert = ground (
      arith,
      lookup_name-insert_name filename filename m map.index,
      name_eq_iff filename filename,
    )

    -- A new module waits for its imports.
    insert-IsClosedBut :
        (waiting : List Name)
        → has_name filename map.index ≡ false
        → IsClosedBut waiting map
        → IsClosedBut (filename ∷ waiting) (insert h filename m map)
    unfolding insert contains_name
    insert-IsClosedBut waiting new closed p n l = elim (Bool-cases (name_eq p filename)) [
      | inl same ↦ inl (rw same refl)
      | inr other ↦
          let old : lookup_name p map.index ≡ some n =
            ground (arith, lookup_name-insert_name filename p m map.index) in
          elim (closed p n old) [
            | inl waits ↦ inl (ground arith)
            | inr imported ↦ inr (
                AreImported-Extends map (insert h filename m map) p (e.module_requests n)
                  (insert-Extends new) imported)
          ]
    ]

  -- Once its imports are in the map, a module does not wait any more.
  IsClosedBut-imported :
      (waiting : List Name) (map : ModuleMap e) (filename : Name) (m : e.Module)
      → lookup_name filename map.index ≡ some m
      → AreImported map filename (e.module_requests m)
      → IsClosedBut (filename ∷ waiting) map
      → IsClosedBut waiting map
  unfolding contains_name
  IsClosedBut-imported waiting map filename m l imported closed p n lp =
      elim (Bool-cases (name_eq p filename)) [
        | inl same ↦
            let e1 : filename ≡ p = sym ((name_eq_iff p filename).0 same) in
            let e2 : m ≡ n = cc in
            inr (
              subst (λ q. AreImported map q (e.module_requests n)) e1
                (subst (λ o. AreImported map filename (e.module_requests o)) e2 imported))
        | inr other ↦ elim (closed p n lp) [
          | inl waits ↦ inl (ground arith)
          | inr done_before ↦ inr done_before
        ]
      ]

  fetch_compiled-Fetched :
      (fetch : Name → ModuleMap e → Outcome (Option e.Module × ModuleMap e))
      → Fetches fetch
      → (waiting : List Name) (before after : ModuleMap e) (filename : Name)
        (compiled : Option e.Module) (m : e.Module)
      → has_name filename before.index ≡ false
      → IsClosedBut waiting before
      → fetch_compiled h fetch filename compiled before ≡ ok (some m, after)
      → Fetched waiting before after filename m
  unfolding fetch_compiled
  fetch_compiled-Fetched fetch fetches waiting before after filename none m new closed eq = cc
  fetch_compiled-Fetched fetch fetches waiting before after filename (some n) m new closed eq =
      let (r, er, k) =
        >>=-ok (fetch_requests h fetch filename (e.module_requests n) (insert h filename n before))
          _ eq in
      go r.0 r.1 er k
    where
      go :
          (b : Bool) (mid : ModuleMap e)
          → fetch_requests h fetch filename (e.module_requests n) (insert h filename n before)
            ≡ ok (b, mid)
          → ◌≡◌ {A = Outcome (Option e.Module × ModuleMap e)}
              (ok ((if b then some n else none), mid))
              (ok (some m, after))
          → Fetched waiting before after filename m
      go false mid er k = cc
      go true mid er k =
          let same : n ≡ m = cc in
          let ends : mid ≡ after = cc in
          let all =
            fetch_requests-FetchedAll fetch fetches (filename ∷ waiting)
              (insert h filename n before) mid filename (e.module_requests n)
              (insert-IsClosedBut before filename n waiting new closed) er in
          let found = all.extends filename n (lookup_name-insert before filename n) in
          let whole : Fetched waiting before mid filename n = record {
            extends = λ p o l. all.extends p o (insert-Extends before filename n new p o l);
            fetched = found;
            closed = IsClosedBut-imported waiting mid filename n found all.imported all.closed;
          } in
          subst (λ a. Fetched waiting before a filename m) ends
            (subst (λ o. Fetched waiting before mid filename o) same whole)

  pub fetch_module_tree-Fetched :
      (fuel : ℕ) (source : Option Name) (waiting : List Name) (before after : ModuleMap e)
      (filename : Name) (m : e.Module)
      → has_name filename before.index ≡ false
      → IsClosedBut waiting before
      → fetch_module_tree h fuel filename source before ≡ ok (some m, after)
      → Fetched waiting before after filename m
  unfolding fetch_module_tree
  fetch_module_tree-Fetched zero source waiting before after filename m new closed eq = cc
  fetch_module_tree-Fetched (suc fuel) source waiting before after filename m new closed eq =
      let (text, et, k) =
        >>=-ok
          (elim source as (λ _. Outcome Name) [
            | some s ↦ ok s
            | none ↦ load_import h filename >>= unwrap_result
          ])
          _ eq in
      fetch_compiled-Fetched (λ s. fetch_module_tree h fuel s none)
        (λ w b a s o. fetch_module_tree-Fetched fuel none w b a s o) waiting before after filename
        (e.compile_module filename text) m new closed k
