-- ===== src/Js/Graph/Arrived.antt =====
-- rsvim_core/src/js/module.rs: a graph whose modules have arrived gets ready.
use rsvim.Prelude.{◌≡◌, refl, Bool, true, false, ◌&&◌, if◌then◌else◌, Option, ok}
use rsvim.Js.Names.{Name, NameMap}
use rsvim.Js.Graph.{
  ModuleStatus, fetching, resolving, duplicate, ready, is_ready, EsModule, EsModules, es_module,
  nil, cons, status, exception, all_ready, settle, fast_forward, fast_forward_all,
}

unfoldable mutual
  -- Whether everything that a module waits for is there, which `fast_forward` is to find out.
  pub has_arrived : EsModule → Bool
  has_arrived (es_module path ready dependencies e d) = true
  has_arrived (es_module path duplicate dependencies e d) = false
  has_arrived (es_module path fetching nil e d) = false
  has_arrived (es_module path fetching (cons m ms) e d) = has_arrived m && all_arrived ms
  has_arrived (es_module path resolving nil e d) = true
  has_arrived (es_module path resolving (cons m ms) e d) = has_arrived m && all_arrived ms

  pub all_arrived : EsModules → Bool
  all_arrived nil = true
  all_arrived (cons m ms) = has_arrived m && all_arrived ms

unfoldable mutual
  -- No module of the tree stands for one that was seen elsewhere.
  pub HasNoDuplicate : EsModule → Type 0
  HasNoDuplicate (es_module path ready dependencies e d) = Unit
  HasNoDuplicate (es_module path duplicate dependencies e d) = ⊥
  HasNoDuplicate (es_module path fetching dependencies e d) = HaveNoDuplicate dependencies
  HasNoDuplicate (es_module path resolving dependencies e d) = HaveNoDuplicate dependencies

  pub HaveNoDuplicate : EsModules → Type 0
  HaveNoDuplicate nil = Unit
  HaveNoDuplicate (cons m ms) = HasNoDuplicate m × HaveNoDuplicate ms

-- What `fast_forward` makes of a module: its status, ready exactly if everything has arrived, and its
-- exception, which is kept.
pub record Forwarded (m : EsModule) (seen : NameMap ModuleStatus) : Type 0 where
  pub after : EsModule
  pub seen_after : NameMap ModuleStatus
  pub returns : fast_forward m seen ≡ ok (after, seen_after)
  pub settled : status after ≡ (if has_arrived m then ready else status m)
  pub same_exception : exception after ≡ exception m

record ForwardedAll (ms : EsModules) (seen : NameMap ModuleStatus) : Type 0 where
  after : EsModules
  seen_after : NameMap ModuleStatus
  returns : fast_forward_all ms seen ≡ ok (after, seen_after)
  settled : all_ready after ≡ all_arrived ms

is_ready-if :
    (b : Bool) (s : ModuleStatus) → is_ready s ≡ false → is_ready (if b then ready else s) ≡ b
is_ready-if true s h = refl
is_ready-if false s h = h

is_ready-has_arrived :
    (m : EsModule) → is_ready (if has_arrived m then ready else status m) ≡ has_arrived m
unfolding has_arrived status
is_ready-has_arrived (es_module path ready ms e d) = refl
is_ready-has_arrived (es_module path duplicate ms e d) = refl
is_ready-has_arrived (es_module path fetching nil e d) = refl
is_ready-has_arrived (es_module path fetching (cons m ms) e d) = is_ready-if _ fetching refl
is_ready-has_arrived (es_module path resolving nil e d) = refl
is_ready-has_arrived (es_module path resolving (cons m ms) e d) = is_ready-if _ resolving refl

-- How `settle` ends at a module with dependencies.
settle_cons :
    (path : Name) (s : ModuleStatus) (m : EsModule) (ms : EsModules) (e : Option Name) (d : Bool)
    (seen : NameMap ModuleStatus) (b : Bool)
    → all_ready (cons m ms) ≡ b
    → (status (settle path s (cons m ms) e d seen).0 ≡ (if b then ready else s))
      × (exception (settle path s (cons m ms) e d seen).0 ≡ e)
unfolding settle status exception
settle_cons path s m ms e d seen true h = (rw h refl, rw h refl)
settle_cons path s m ms e d seen false h = (rw h refl, rw h refl)

mutual
  unfolding fast_forward fast_forward_all has_arrived HasNoDuplicate all_ready settle status
      exception

  fast_forward_lem :
      (m : EsModule) (seen : NameMap ModuleStatus) → HasNoDuplicate m → Forwarded m seen
  fast_forward_lem (es_module path ready ms e d) seen h = record {
    after = es_module path ready ms e d;
    seen_after = seen;
    returns = refl;
    settled = refl;
    same_exception = refl;
  }
  fast_forward_lem (es_module path duplicate ms e d) seen h = absurd h
  fast_forward_lem (es_module path fetching nil e d) seen h = record {
    after = es_module path fetching nil e d;
    seen_after = seen;
    returns = refl;
    settled = refl;
    same_exception = refl;
  }
  fast_forward_lem (es_module path resolving nil e d) seen h =
      let r = settle path resolving nil e d seen in
      record {
        after = r.0;
        seen_after = r.1;
        returns = refl;
        settled = refl;
        same_exception = refl;
      }
  fast_forward_lem (es_module path fetching (cons m ms) e d) seen h =
      let first = fast_forward_lem m seen h.0 in
      let others = fast_forward_all_lem ms first.seen_after h.1 in
      let r = settle path fetching (cons first.after others.after) e d others.seen_after in
      let arrived : all_ready (cons first.after others.after) ≡ has_arrived m && all_arrived ms =
        rw (first.settled, others.settled) (rw (is_ready-has_arrived m) refl) in
      let ends =
        settle_cons path fetching first.after others.after e d others.seen_after _ arrived in
      record {
        after = r.0;
        seen_after = r.1;
        returns = rw (first.returns, others.returns) refl;
        settled = ends.0;
        same_exception = ends.1;
      }
  fast_forward_lem (es_module path resolving (cons m ms) e d) seen h =
      let first = fast_forward_lem m seen h.0 in
      let others = fast_forward_all_lem ms first.seen_after h.1 in
      let r = settle path resolving (cons first.after others.after) e d others.seen_after in
      let arrived : all_ready (cons first.after others.after) ≡ has_arrived m && all_arrived ms =
        rw (first.settled, others.settled) (rw (is_ready-has_arrived m) refl) in
      let ends =
        settle_cons path resolving first.after others.after e d others.seen_after _ arrived in
      record {
        after = r.0;
        seen_after = r.1;
        returns = rw (first.returns, others.returns) refl;
        settled = ends.0;
        same_exception = ends.1;
      }

  fast_forward_all_lem :
      (ms : EsModules) (seen : NameMap ModuleStatus) → HaveNoDuplicate ms → ForwardedAll ms seen
  fast_forward_all_lem nil seen h = record {
    after = nil;
    seen_after = seen;
    returns = refl;
    settled = refl;
  }
  fast_forward_all_lem (cons m ms) seen h =
      let first = fast_forward_lem m seen h.0 in
      let others = fast_forward_all_lem ms first.seen_after h.1 in
      record {
        after = cons first.after others.after;
        seen_after = others.seen_after;
        returns = rw (first.returns, others.returns) refl;
        settled = rw (first.settled, others.settled) (rw (is_ready-has_arrived m) refl);
      }

-- A tree of modules without duplicates is moved on without a panic: its root is ready exactly if it was
-- or everything that it waits for has arrived, and else keeps its status.
pub fast_forward-Forwarded :
    (m : EsModule) (seen : NameMap ModuleStatus) → HasNoDuplicate m → Forwarded m seen
fast_forward-Forwarded m seen h = fast_forward_lem m seen h
