-- ===== src/Js/Loader/Candidates.antt =====
-- rsvim_core/src/js/loader.rs: the files that an import may stand for, in their order.
use rsvim.Prelude.{
  ◌≡◌, refl, inl, inr, true, Bool-cases, if◌then◌else◌, Option, some, none, List, [], ◌∷◌, ◌++◌,
  Outcome, ok, ◌>>=◌, unwrap, arith,
}
use rsvim.Js.Names.{Name, codes}
use rsvim.Js.Loader.{
  Host, AnyErr, AnyResult, done, failed, module_not_found, file_extensions, is_json_import,
  wrap_json, load_source, load_first, with_extensions, with_indexes, load_as_file,
  load_as_directory, preprocess, fs_load,
}

module _ (h : Host) where
  -- The path itself, with each extension if it has none, and as a directory with an index file.
  abbrev pub candidates : Name → List Name
  candidates path =
      path
      ∷ (elim (h.extension path) as (λ _. List Name) [
        | some ext ↦ []
        | none ↦ with_extensions h path file_extensions
      ]
          ++ with_indexes h path file_extensions)

  abbrev pub first_file : List Name → Option Name
  first_file [] = none
  first_file (c ∷ cs) = if h.is_file c then some c else first_file cs

  -- The path by whose extension the preprocessor is chosen.
  abbrev pub js_path : Name → Name
  js_path path = elim (h.extension path) as (λ _. Name) [
    | some ext ↦ path
    | none ↦ h.with_extension path (codes "js")
  ]

  abbrev pub CanRead : Type 0
  CanRead = (p : Name) → h.is_file p ≡ true → (text : Name) × (h.read_to_string p ≡ done text)

  -- The source of a candidate, with the preprocessor that the specifier asks for.
  abbrev pub load_candidate : Name → Option Name → Outcome (AnyResult h.Error Name)
  load_candidate path none = ok (failed (module_not_found (js_path path)))
  load_candidate path (some file) = elim (load_source h file) [
    | failed e ↦ ok (failed (module_not_found (js_path path)))
    | done source ↦ (do
      path_extension ← unwrap (h.extension (js_path path))
      ok (preprocess h path_extension (js_path path) source))
  ]

  abbrev found : Name → Option Name → AnyResult h.Error Name
  found path none = failed (module_not_found path)
  found path (some file) = load_source h file

  load_first_lem :
      (cs : List Name) (path : Name) → load_first h cs path ≡ found path (first_file cs)
  unfolding load_first
  load_first_lem [] path = refl
  load_first_lem (c ∷ cs) path = elim (Bool-cases (h.is_file c)) [
    | inl there ↦ rw there refl
    | inr missing ↦ rw missing (load_first_lem cs path)
  ]

  first_file-append :
      (cs ds : List Name)
      → first_file (cs ++ ds)
        ≡ elim (first_file cs) as (λ _. Option Name) [ some f ↦ some f | none ↦ first_file ds ]
  first_file-append [] ds = refl
  first_file-append (c ∷ cs) ds = elim (Bool-cases (h.is_file c)) [
    | inl there ↦ rw there refl
    | inr missing ↦ rw missing (first_file-append cs ds)
  ]

  pub first_file-there : (cs : List Name) (f : Name) → first_file cs ≡ some f → h.is_file f ≡ true
  first_file-there [] f e = cc
  first_file-there (c ∷ cs) f e = elim (Bool-cases (h.is_file c)) [
    | inl there ↦ ground arith
    | inr missing ↦ first_file-there cs f (ground arith)
  ]

  module _ (can_read : CanRead) where
    pub load_source_done :
        (f : Name) → h.is_file f ≡ true → (text : Name) × (load_source h f ≡ done text)
    unfolding load_source
    load_source_done f there =
        let (text, e) = can_read f there in
        (if is_json_import h f then wrap_json h text else text, rw (e, load_source) refl)

    -- `load_as_file` with `load_as_directory` behind it.
    abbrev either : AnyResult h.Error Name → AnyResult h.Error Name → AnyResult h.Error Name
    either (done source) other = done source
    either (failed e) other = other

    -- What the two give together is a candidate's source, or an error.
    abbrev Gives : AnyResult h.Error Name → Option Name → Type 0
    Gives r (some f) = r ≡ load_source h f
    Gives r none = (e : AnyErr h.Error) × (r ≡ failed e)

    Gives-found : (o : Option Name) (path : Name) → Gives (found path o) o
    Gives-found none path = (module_not_found path, refl)
    Gives-found (some f) path = refl

    Gives-either :
        (cs ds : List Name) (path : Name)
        → Gives (either (load_first h cs path) (load_first h ds path)) (first_file (cs ++ ds))
    Gives-either cs ds path =
        rw (load_first_lem cs path)
          (rw (load_first_lem ds path) (rw (first_file-append cs ds) (go (first_file cs) refl)))
      where
        go :
            (o : Option Name)
            → first_file cs ≡ o
            → Gives
                (either (found path o) (found path (first_file ds)))
                (elim o as (λ _. Option Name) [ some f ↦ some f | none ↦ first_file ds ])
        go none e = Gives-found (first_file ds) path
        go (some f) e =
            let (text, loaded) = load_source_done f (first_file-there cs f e) in rw loaded refl

    pub Gives-load :
        (path : Name)
        → Gives
            (either (load_as_file h path) (load_as_directory h path))
            (first_file (candidates path))
    unfolding load_as_file load_as_directory load_first
    Gives-load path = elim (Bool-cases (h.is_file path)) [
      | inl there ↦ let (text, loaded) = load_source_done path there in rw there (rw loaded refl)
      | inr missing ↦ rw missing (go (h.extension path))
    ]
      where
        go :
            (o : Option Name)
            → Gives
                (either
                  (elim o as (λ _. AnyResult h.Error Name) [
                    | none ↦ load_first h (with_extensions h path file_extensions) path
                    | some ext ↦ failed (module_not_found path)
                  ])
                  (load_first h (with_indexes h path file_extensions) path))
                (first_file (
                  elim o as (λ _. List Name) [
                    | some ext ↦ []
                    | none ↦ with_extensions h path file_extensions
                  ]
                  ++ with_indexes h path file_extensions))
        go none =
            Gives-either (with_extensions h path file_extensions)
              (with_indexes h path file_extensions) path
        go (some ext) = Gives-either [] (with_indexes h path file_extensions) path

    -- `load`, from what the two give together.
    pub fs_load-Gives :
        (path : Name) (o : Option Name)
        → Gives (either (load_as_file h path) (load_as_directory h path)) o
        → fs_load h path ≡ load_candidate path o
    unfolding fs_load
    fs_load-Gives path o gives = go (load_as_file h path) o gives
      where
        go :
            (r : AnyResult h.Error Name) (o : Option Name)
            → Gives (either r (load_as_directory h path)) o
            → elim (elim r as (λ _. AnyResult h.Error Name) [
              | done source ↦ done source
              | failed e ↦ load_as_directory h path
            ])
                as (λ _. Outcome (AnyResult h.Error Name)) [
                  | failed e ↦ ok (failed (module_not_found (js_path path)))
                  | done source ↦ (do
                    path_extension ← unwrap (h.extension (js_path path))
                    ok (preprocess h path_extension (js_path path) source))
                ]
              ≡ load_candidate path o
        go (done source) (some f) gives = rw (← gives, load_candidate) refl
        go (done source) none (e, gives) = cc
        go (failed e) (some f) gives = rw (gives, load_candidate) refl
        go (failed e) none (e', gives) = rw gives refl
