-- ===== src/Js/Graph.antt =====
-- rsvim_core/src/js/module.rs and js.rs: the graphs of the imports that are pending, and how they are
-- moved on until their modules are ready. A module holds its dependencies and its own exception; no two
-- share one.
pub mod Arrived
pub mod Tests
use rsvim.Prelude.{
  Bool, true, false, ◌&&◌, if◌then◌else◌, Option, some, none, List, [], ◌∷◌, ◌++◌, map, Outcome, ok,
  panic, ◌>>=◌, unwrap,
}
use rsvim.Js.Names.{Name, NameMap, lookup_name, insert_name}

pub data ModuleStatus : Type 0 where
  fetching : ModuleStatus
  resolving : ModuleStatus
  duplicate : ModuleStatus
  ready : ModuleStatus

abbrev pub is_ready : ModuleStatus → Bool
is_ready ready = true
is_ready _ = false

abbrev pub is_resolving : ModuleStatus → Bool
is_resolving resolving = true
is_resolving _ = false

-- A module: its path, its status, its dependencies, its exception, and whether its import is dynamic.
mutual
  pub data EsModule : Type 0 where
    es_module : Name → ModuleStatus → EsModules → Option Name → Bool → EsModule

  pub data EsModules : Type 0 where
    nil : EsModules
    cons : EsModule → EsModules → EsModules

unfoldable pub status : EsModule → ModuleStatus
status (es_module path s dependencies exception is_dynamic) = s

unfoldable pub exception : EsModule → Option Name
exception (es_module path s dependencies e is_dynamic) = e

-- `any(|status| status != ModuleStatus::Ready)`, negated.
unfoldable pub all_ready : EsModules → Bool
all_ready nil = true
all_ready (cons m ms) = is_ready (status m) && all_ready ms

-- The end of `fast_forward`, once the dependencies have been moved on.
unfoldable pub settle :
    Name
    → ModuleStatus
    → EsModules
    → Option Name
    → Bool
    → NameMap ModuleStatus
    → EsModule × NameMap ModuleStatus
settle path s nil e is_dynamic seen_modules =
    if is_resolving s
    then (es_module path ready nil e is_dynamic, insert_name path ready seen_modules)
    else (es_module path s nil e is_dynamic, seen_modules)
settle path s (cons m ms) e is_dynamic seen_modules =
    if all_ready (cons m ms)
    then (es_module path ready (cons m ms) e is_dynamic, insert_name path ready seen_modules)
    else (es_module path s (cons m ms) e is_dynamic, seen_modules)

unfoldable mutual
  pub fast_forward : EsModule → NameMap ModuleStatus → Outcome (EsModule × NameMap ModuleStatus)
  fast_forward (es_module path ready dependencies e is_dynamic) seen_modules =
      ok (es_module path ready dependencies e is_dynamic, seen_modules)
  fast_forward (es_module path duplicate dependencies e is_dynamic) seen_modules = do
    status_ref ← unwrap (lookup_name path seen_modules)
    let s = if is_ready status_ref then ready else duplicate
    ok (es_module path s dependencies e is_dynamic, seen_modules)
  fast_forward (es_module path fetching dependencies e is_dynamic) seen_modules = do
    moved ← fast_forward_all dependencies seen_modules
    ok (settle path fetching moved.0 e is_dynamic moved.1)
  fast_forward (es_module path resolving dependencies e is_dynamic) seen_modules = do
    moved ← fast_forward_all dependencies seen_modules
    ok (settle path resolving moved.0 e is_dynamic moved.1)

  pub fast_forward_all :
      EsModules → NameMap ModuleStatus → Outcome (EsModules × NameMap ModuleStatus)
  fast_forward_all nil seen_modules = ok (nil, seen_modules)
  fast_forward_all (cons m ms) seen_modules = do
    first ← fast_forward m seen_modules
    rest ← fast_forward_all ms first.1
    ok (cons first.0 rest.0, rest.1)

module _ (Promise : Type 0) where
  pub data ImportKind : Type 0 where
    static : ImportKind
    dynamic : Promise → ImportKind

  pub record ModuleGraph : Type 0 where
    pub kind : ImportKind
    pub root : EsModule
    pub same_origin : List Promise

  -- What the first loop of `fast_forward_imports` leaves: the pending graphs, those that are ready, the
  -- promises that it rejected with a message, and the statuses that were seen.
  pub record Retained : Type 0 where
    pub pending : List ModuleGraph
    pub ready_imports : List ModuleGraph
    pub rejected : List (Promise × Name)
    pub seen : NameMap ModuleStatus

module _ {Promise : Type 0} where
  unfoldable pub static_import : Name → ModuleGraph Promise
  static_import path = record {
    kind = static;
    root = es_module path fetching nil none false;
    same_origin = [];
  }

  unfoldable pub dynamic_import : Name → Promise → ModuleGraph Promise
  dynamic_import path promise = record {
    kind = dynamic promise;
    root = es_module path fetching nil none true;
    same_origin = [];
  }

  -- The graph `g` in front of what the loop does with the graphs behind it.
  unfoldable pub retain_graph :
      (NameMap ModuleStatus → Outcome (Retained Promise))
      → ModuleGraph Promise
      → NameMap ModuleStatus
      → Outcome (Retained Promise)
  retain_graph rest g seen = elim (exception g.root) [
    | some message ↦ elim g.kind [
      | static ↦ panic
      | dynamic main_promise ↦ (do
        r ← rest seen
        ok (record r {
          rejected = map (λ p. (p, message)) (main_promise ∷ g.same_origin) ++ r.rejected;
        }))
    ]
    | none ↦ elim (is_ready (status g.root)) [
      | true ↦ (do r ← rest seen; ok (record r { ready_imports = g ∷ r.ready_imports }))
      | false ↦ (do
        moved ← fast_forward g.root seen
        r ← rest moved.1
        ok (record r { pending = record g { root = moved.0 } ∷ r.pending }))
    ]
  ]

  -- `pending_graphs.retain`
  unfoldable pub retain_pending :
      List (ModuleGraph Promise) → NameMap ModuleStatus → Outcome (Retained Promise)
  retain_pending [] seen =
      ok (record { pending = []; ready_imports = []; rejected = []; seen = seen })
  retain_pending (g ∷ graphs) seen = retain_graph (λ seen'. retain_pending graphs seen') g seen
