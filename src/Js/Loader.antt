-- ===== src/Js/Loader.antt =====
-- rsvim_core/src/js/loader.rs and the choice of a loader in js/module.rs: how an import is resolved
-- to a path, and how its source is loaded. The file system, `std::path`, whose rules are those of the
-- platform, and the compilers that js/transpiler.rs calls are parameters (`Host`).
pub mod Candidates
pub mod Loads
use rsvim.Prelude.{
  ◌==◌, ◌&&◌, ◌||◌, ◌≤◌, ℕ, Bool, true, false, not, leb, if◌then◌else◌, Option, some, none, List,
  [], ◌∷◌, ◌++◌, ◌≡◌, Outcome, ok, panic, ◌>>=◌, unwrap,
}
use rsvim.Js.Names.{Name, codes, name_eq, starts_with, contains_name}

-- The errors: `bail!` with the path that was not found, or an error of the host.
pub data AnyErr (E : Type 0) : Type 0 where
  module_not_found : Name → AnyErr E
  host_error : E → AnyErr E

pub data AnyResult (E A : Type 0) : Type 0 where
  done : A → AnyResult E A
  failed : AnyErr E → AnyResult E A

-- `Result::unwrap`
abbrev pub unwrap_result : {E A : Type 0} → AnyResult E A → Outcome A
unwrap_result (done a) = ok a
unwrap_result (failed e) = panic

pub record Host : Type 1 where
  pub Error : Type 0
  pub is_file : Name → Bool
  pub read_to_string : Name → AnyResult Error Name
  -- `std::fs::metadata(path).is_ok()`
  pub has_metadata : Name → Bool
  pub current_dir : AnyResult Error Name
  pub absolutize : Name → AnyResult Error Name
  pub parent : Name → Option Name
  pub join : Name → Name → Name
  pub extension : Name → Option Name
  pub with_extension : Name → Name → Name
  pub compile_typescript : Name → Name → AnyResult Error Name
  pub compile_jsx : Name → Name → AnyResult Error Name
  pub parse_wasm : Name → Name
  -- The text of js/runtime/00__infra.js.
  pub infra_source : Name

abbrev pub file_extensions : List Name
file_extensions =
    codes "js" ∷ codes "jsx" ∷ codes "ts" ∷ codes "tsx" ∷ codes "json" ∷ codes "wasm" ∷ []

abbrev pub infra_module : Name
infra_module = codes "rsvim:ext/infra"

-- Whether `CORE_MODULES` has the key.
unfoldable pub is_core_module : Name → Bool
is_core_module specifier = name_eq specifier infra_module

-- `WINDOWS_REGEX`: a letter, a colon and a backslash.
unfoldable pub is_windows_path : Name → Bool
is_windows_path (a ∷ b ∷ c ∷ rest) =
    ((leb b'a' a && leb a b'z') || (leb b'A' a && leb a b'Z')) && (b == 58 && c == 92)
is_windows_path _ = false

-- `ImportMap`, whose `lookup` finds nothing.
pub data ImportMap : Type 0 where
  import_map : List (Name × Name) → ImportMap

unfoldable pub import_map_lookup : ImportMap → Name → Option Name
import_map_lookup (import_map entries) specifier = none

unfoldable pub mapped_specifier : Option ImportMap → Name → Name
mapped_specifier none specifier = specifier
mapped_specifier (some entries) specifier = elim (import_map_lookup entries specifier) [
  | some target ↦ target
  | none ↦ specifier
]

module _ (h : Host) where
  unfoldable pub is_json_import : Name → Bool
  is_json_import path = elim (h.extension path) [
    | some value ↦ name_eq value (codes "json")
    | none ↦ false
  ]

  unfoldable pub wrap_json : Name → Name
  wrap_json source = codes "export default JSON.parse(`" ++ (source ++ codes "`);")

  unfoldable pub load_source : Name → AnyResult h.Error Name
  load_source path = elim (h.read_to_string path) [
    | failed e ↦ failed e
    | done source ↦ done (if is_json_import path then wrap_json source else source)
  ]

  -- The loops over the extensions: the first file that is there is loaded.
  unfoldable pub load_first : List Name → Name → AnyResult h.Error Name
  load_first [] path = failed (module_not_found path)
  load_first (candidate ∷ candidates) path =
      if h.is_file candidate then load_source candidate else load_first candidates path

  unfoldable pub with_extensions : Name → List Name → List Name
  with_extensions path [] = []
  with_extensions path (ext ∷ exts) = h.with_extension path ext ∷ with_extensions path exts

  unfoldable pub with_indexes : Name → List Name → List Name
  with_indexes path [] = []
  with_indexes path (ext ∷ exts) = h.join path (codes "index." ++ ext) ∷ with_indexes path exts

  unfoldable pub load_as_file : Name → AnyResult h.Error Name
  load_as_file path = if h.is_file path then load_source path else elim (h.extension path) [
    | none ↦ load_first (with_extensions path file_extensions) path
    | some ext ↦ failed (module_not_found path)
  ]

  unfoldable pub load_as_directory : Name → AnyResult h.Error Name
  load_as_directory path = load_first (with_indexes path file_extensions) path

  -- The preprocessor that an extension asks for.
  unfoldable pub preprocess : Name → Name → Name → AnyResult h.Error Name
  preprocess path_extension fname source =
      if name_eq path_extension (codes "wasm")
      then done (h.parse_wasm source)
      else if name_eq path_extension (codes "ts")
      then h.compile_typescript fname source
      else if name_eq path_extension (codes "jsx")
      then h.compile_jsx fname source
      else if name_eq path_extension (codes "tsx")
      then elim (h.compile_jsx fname source) [
        | done output ↦ h.compile_typescript fname output
        | failed e ↦ failed e
      ]
      else done source

  -- `FsModuleLoader::load`
  unfoldable pub fs_load : Name → Outcome (AnyResult h.Error Name)
  fs_load specifier =
      let maybe_source = elim (load_as_file specifier) as (λ _. AnyResult h.Error Name) [
        | done source ↦ done source
        | failed e ↦ load_as_directory specifier
      ] in
      let path = elim (h.extension specifier) as (λ _. Name) [
        | some ext ↦ specifier
        | none ↦ h.with_extension specifier (codes "js")
      ] in
      elim maybe_source [
        | failed e ↦ ok (failed (module_not_found path))
        | done source ↦ (do
          path_extension ← unwrap (h.extension path)
          ok (preprocess path_extension path source))
      ]

  -- `FsModuleLoader::resolve`
  unfoldable pub fs_resolve : Option Name → Name → Outcome (AnyResult h.Error Name)
  fs_resolve base specifier =
      if starts_with specifier (codes "/") || is_windows_path specifier
      then ok (h.absolutize specifier)
      else (do
        cwd ← unwrap_result h.current_dir
        dir ← elim base [ some v ↦ unwrap (h.parent v) | none ↦ ok cwd ]
        ok (
            if starts_with specifier (codes "./") || starts_with specifier (codes "../")
            then h.absolutize (h.join dir specifier)
            else failed (module_not_found specifier)))

  -- `resolve_import`, with the loader of the core modules.
  unfoldable pub resolve_import :
      Option Name → Name → Bool → Option ImportMap → Outcome (AnyResult h.Error Name)
  resolve_import base specifier ignore_core_modules map =
      let target = mapped_specifier map specifier in
      if is_core_module target && not ignore_core_modules
      then ok (done target)
      else fs_resolve base target

  unfoldable pub load_import : Name → Outcome (AnyResult h.Error Name)
  load_import specifier =
      if is_core_module specifier then ok (done h.infra_source) else fs_load specifier
