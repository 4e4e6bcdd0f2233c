-- ===== src/Js/Sample.antt =====
-- A file system with two modules that import each other and a module in TypeScript, and an engine whose
-- sources are the specifier that they import.
use rsvim.Prelude.{
  ◌≡◌, ◌↔◌, Bool, true, ◌&&◌, ◌||◌, if◌then◌else◌, some, none, [], ◌∷◌, ◌++◌, drop, arith,
}
use rsvim.Js.Names.{Name, codes, name_eq, name_eq_iff}
use rsvim.Js.Loader.{Host, done}
use rsvim.Js.Module.{Engine}

abbrev pub file_a : Name
file_a = codes "/a.js"

abbrev pub file_b : Name
file_b = codes "/b.js"

abbrev pub file_x : Name
file_x = codes "/x.ts"

abbrev pub import_a : Name
import_a = codes "./a.js"

abbrev pub import_b : Name
import_b = codes "./b.js"

abbrev pub host : Host
host = record {
  Error = Unit {0};
  is_file = λ p. name_eq p file_a || (name_eq p file_b || name_eq p file_x);
  read_to_string = λ p. done (if name_eq p file_a then import_b else import_a);
  has_metadata = λ p. true;
  current_dir = done (codes "/");
  absolutize = λ p. done p;
  parent = λ p. some (codes "/");
  join = λ dir p. dir ++ drop 2 p;
  extension = λ p.
      if name_eq p (codes "/x")
      then none
      else some (if name_eq p file_x then codes "ts" else codes "js");
  with_extension = λ p ext. p ++ (codes "." ++ ext);
  compile_typescript = λ file source. done [];
  compile_jsx = λ file source. done source;
  parse_wasm = λ source. source;
  infra_source = [];
}

abbrev pub Compiled : Type 0
Compiled = Name × Name

pub compiled_eq : Compiled → Compiled → Bool
compiled_eq m n = name_eq m.0 n.0 && name_eq m.1 n.1

pub compiled_eq_iff : (m n : Compiled) → (compiled_eq m n ≡ true) ↔ (m ≡ n)
unfolding compiled_eq
compiled_eq_iff (s, t) (s', t') = ground (arith, name_eq_iff s s', name_eq_iff t t')

pub compiled_name :
    (s t source source' : Name) (m : Compiled)
    → some (s, source) ≡ some m
    → some (t, source') ≡ some m
    → s ≡ t
compiled_name s t source source' m e e' = ground (arith, e, e')

abbrev pub engine : Engine
engine = record {
  Module = Compiled;
  compile_module = λ name source. some (name, source);
  module_requests = λ m. m.1 ∷ [];
  module_eq = compiled_eq;
  module_eq_iff = compiled_eq_iff;
  compile_module-name = compiled_name;
}
