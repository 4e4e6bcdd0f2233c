-- ===== src/Js/Loader/Loads.antt =====
-- rsvim_core/src/js/loader.rs: what the load of a specifier gives, without the loops of the code.
use rsvim.Prelude.{◌≡◌, ◌≢◌, some, none, List, [], ◌∷◌, ◌++◌, Outcome, ok, panic, ◌>>=◌}
use rsvim.Js.Names.{Name, codes}
use rsvim.Js.Loader.{Host, AnyErr, AnyResult, done, failed, module_not_found}
use rsvim.Js.Loader.Candidates.{first_file, js_path}

module _ (h : Host) where
  -- The files that a specifier may stand for, in their order: itself, with an extension if it has none,
  -- and the index files of a directory.
  abbrev pub files_for : Name → List Name
  files_for path =
      path
      ∷ (elim (h.extension path) as (λ _. List Name) [
        | some ext ↦ []
        | none ↦
            h.with_extension path (codes "js")
            ∷ h.with_extension path (codes "jsx")
            ∷ h.with_extension path (codes "ts")
            ∷ h.with_extension path (codes "tsx")
            ∷ h.with_extension path (codes "json")
            ∷ h.with_extension path (codes "wasm")
            ∷ []
      ]
          ++ h.join path (codes "index.js")
            ∷ h.join path (codes "index.jsx")
            ∷ h.join path (codes "index.ts")
            ∷ h.join path (codes "index.tsx")
            ∷ h.join path (codes "index.json")
            ∷ h.join path (codes "index.wasm")
            ∷ [])

  -- The source of a file with a text: a JSON file is an argument of the parser in a module.
  pub data Sources (file text : Name) (source : Name) : Type 0 where
    json :
        h.extension file ≡ some (codes "json")
        → source ≡ codes "export default JSON.parse(`" ++ (text ++ codes "`);")
        → Sources file text source
    script : h.extension file ≢ some (codes "json") → source ≡ text → Sources file text source

  -- What an extension makes of a source.
  pub data Processed (fname source ext : Name) (r : AnyResult h.Error Name) : Type 0 where
    wasm : ext ≡ codes "wasm" → r ≡ done (h.parse_wasm source) → Processed fname source ext r
    typescript :
        ext ≡ codes "ts" → r ≡ h.compile_typescript fname source → Processed fname source ext r
    jsx : ext ≡ codes "jsx" → r ≡ h.compile_jsx fname source → Processed fname source ext r
    tsx :
        (output : Name)
        → ext ≡ codes "tsx"
        → h.compile_jsx fname source ≡ done output
        → r ≡ h.compile_typescript fname output
        → Processed fname source ext r
    tsx_failed :
        (e : AnyErr h.Error)
        → ext ≡ codes "tsx"
        → h.compile_jsx fname source ≡ failed e
        → r ≡ failed e
        → Processed fname source ext r
    as_it_is :
        ext ≢ codes "wasm"
        → ext ≢ codes "ts"
        → ext ≢ codes "jsx"
        → ext ≢ codes "tsx"
        → r ≡ done source
        → Processed fname source ext r

  -- What a load gives. The preprocessor is chosen by the specifier, as `js` if it has no extension.
  pub data Loads (path : Name) (r : Outcome (AnyResult h.Error Name)) : Type 0 where
    missing :
        first_file h (files_for path) ≡ none
        → r ≡ ok (failed (module_not_found (js_path h path)))
        → Loads path r
    no_extension :
        (file : Name)
        → first_file h (files_for path) ≡ some file
        → h.extension (js_path h path) ≡ none
        → r ≡ panic
        → Loads path r
    loaded :
        (file text source ext : Name) (result : AnyResult h.Error Name)
        → first_file h (files_for path) ≡ some file
        → h.read_to_string file ≡ done text
        → Sources file text source
        → h.extension (js_path h path) ≡ some ext
        → Processed (js_path h path) source ext result
        → r ≡ ok result
        → Loads path r
