-- ===== src/Js/Module/Keeps.antt =====
-- rsvim_core/src/js/module.rs: what each insertion of a compiled module keeps, a fetch keeps.
use rsvim.Prelude.{
  ℕ, zero, suc, ◌≡◌, refl, Bool, true, false, Option, some, none, List, [], ◌∷◌, Outcome, ok, ◌>>=◌,
  >>=-ok,
}
use mathlib.Core.Path.{subst}
use rsvim.Js.Names.{Name, has_name}
use rsvim.Js.Loader.{Host, unwrap_result, resolve_import, load_import}
use rsvim.Js.Module.{Engine, ModuleMap, insert, fetch_requests, fetch_compiled, fetch_module_tree}

module _ (h : Host) (e : Engine) (P : ModuleMap e → Type 0)
    (insert-keeps : (p source : Name) (m : e.Module) (map : ModuleMap e)
      → e.compile_module p source ≡ some m
      → P map
      → P (insert h p m map)) where
  abbrev Keeps : (Name → ModuleMap e → Outcome (Option e.Module × ModuleMap e)) → Type 0
  Keeps fetch =
      (s : Name) (before after : ModuleMap e) (o : Option e.Module)
      → P before
      → fetch s before ≡ ok (o, after)
      → P after

  fetch_requests-keeps :
      (fetch : Name → ModuleMap e → Outcome (Option e.Module × ModuleMap e))
      → Keeps fetch
      → (before after : ModuleMap e) (b : Bool) (base : Name) (specifiers : List Name) → P before
      → fetch_requests h fetch base specifiers before ≡ ok (b, after)
      → P after
  unfolding fetch_requests
  fetch_requests-keeps fetch keeps before after b base [] p eq =
      let same : before ≡ after = cc in subst P same p
  fetch_requests-keeps fetch keeps before after b base (s ∷ specifiers) p eq =
      let (resolved, er, k) = >>=-ok (resolve_import h (some base) s false none) _ eq in
      let (q, eq', k') = >>=-ok (unwrap_result resolved) _ k in
      split q (has_name q before.index)
        (λ mid. fetch_requests-keeps fetch keeps mid after b base specifiers) k'
    where
      fetched_first :
          (q : Name) (o : Option e.Module) (mid : ModuleMap e)
          → fetch q before ≡ ok (o, mid)
          → ((mid : ModuleMap e)
              → P mid
              → fetch_requests h fetch base specifiers mid ≡ ok (b, after)
              → P after)
          → elim o as (λ _. Outcome (Bool × ModuleMap e)) [
            | none ↦ ok (false, mid)
            | some m ↦ fetch_requests h fetch base specifiers mid
          ]
            ≡ ok (b, after)
          → P after
      fetched_first q none mid ef rest k =
          let same : mid ≡ after = cc in subst P same (keeps q before mid none p ef)
      fetched_first q (some m) mid ef rest k = rest mid (keeps q before mid (some m) p ef) k

      split :
          (q : Name) (has : Bool)
          → ((mid : ModuleMap e)
              → P mid
              → fetch_requests h fetch base specifiers mid ≡ ok (b, after)
              → P after)
          → elim has as (λ _. Outcome (Bool × ModuleMap e)) [
            | true ↦ fetch_requests h fetch base specifiers before
            | false ↦ (do
              fetched ← fetch q before
              elim fetched.0 [
                | none ↦ ok (false, fetched.1)
                | some m ↦ fetch_requests h fetch base specifiers fetched.1
              ])
          ]
            ≡ ok (b, after)
          → P after
      split q true rest k = rest before p k
      split q false rest k =
          let (fetched, ef, k') = >>=-ok (fetch q before) _ k in
          fetched_first q fetched.0 fetched.1 ef rest k'

  fetch_compiled-keeps :
      (fetch : Name → ModuleMap e → Outcome (Option e.Module × ModuleMap e))
      → Keeps fetch
      → (before after : ModuleMap e) (o : Option e.Module) (filename source : Name)
        (compiled : Option e.Module)
      → e.compile_module filename source ≡ compiled
      → P before
      → fetch_compiled h fetch filename compiled before ≡ ok (o, after)
      → P after
  unfolding fetch_compiled
  fetch_compiled-keeps fetch keeps before after o filename source none ec p eq =
      let same : before ≡ after = cc in subst P same p
  fetch_compiled-keeps fetch keeps before after o filename source (some m) ec p eq =
      let (r, er, k) =
        >>=-ok (fetch_requests h fetch filename (e.module_requests m) (insert h filename m before))
          _ eq in
      let kept =
        fetch_requests-keeps fetch keeps (insert h filename m before) r.1 r.0 filename
          (e.module_requests m) (insert-keeps filename source m before ec p) er in
      let same : r.1 ≡ after = cc in subst P same kept

  pub fetch_module_tree-keeps :
      (fuel : ℕ) (source : Option Name) (filename : Name) (before after : ModuleMap e)
      (o : Option e.Module)
      → P before
      → fetch_module_tree h fuel filename source before ≡ ok (o, after)
      → P after
  unfolding fetch_module_tree
  fetch_module_tree-keeps zero source filename before after o p eq = cc
  fetch_module_tree-keeps (suc fuel) source filename before after o p eq =
      let (text, et, k) =
        >>=-ok
          (elim source as (λ _. Outcome Name) [
            | some s ↦ ok s
            | none ↦ load_import h filename >>= unwrap_result
          ])
          _ eq in
      fetch_compiled-keeps (λ s. fetch_module_tree h fuel s none)
        (λ s b a r. fetch_module_tree-keeps fuel none s b a r) before after o filename text
        (e.compile_module filename text) refl p k
