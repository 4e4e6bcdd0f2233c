-- ===== src/Canvas/Diff/Rows.antt =====
-- The loops over the rows. The algorithm that goes by the dirty marks prints what the one that
-- compares every cell prints.
use rsvim.Prelude.{
  ℕ, zero, suc, ◌+◌, ◌<◌, ◌≡◌, refl, Bool-cases, inl, inr, Bool, true, false, List, [], ◌∷◌, ◌++◌,
  length, get_elem?, get_elem?-some-lt, some, ok, arith,
}
use rsvim.Cart.{U16Pos, u16_mod}
use rsvim.Canvas.Cell.{Crossterm}
use rsvim.Canvas.Frame
use rsvim.Canvas.Iframe.{zero_sized}
use rsvim.Canvas.Iframe.Valid.{Inside}
use rsvim.Canvas.Shader.{ShaderCommand}
use rsvim.Canvas.Diff.{
  Canvas, size, diff_row, brute_force_rows, brute_force_diff, dirty_marks_rows, dirty_marks_diff,
}
use rsvim.Canvas.Diff.Ready.{IsReady, IsSame, at}
use rsvim.Canvas.Diff.Runs.{AllSame, AreRuns, run_commands, diff_row_lem}

module _ {s : Crossterm} where
  -- A row that is not marked dirty reads as it did in the previous frame.
  abbrev pub IsTracked : Canvas s → Type 0
  IsTracked can =
      (p : U16Pos)
      → Inside can.frame.iframe p
      → get_elem? can.frame.iframe.dirty_rows p.y ≡ some false
      → IsSame can p

  module _ (can : Canvas s) where
    -- The runs of each row from `row` on.
    abbrev pub AreRowRuns : ℕ → List (List (ℕ × ℕ)) → Type 0
    AreRowRuns row [] = row ≡ (size can).height
    AreRowRuns row (runs ∷ rows) = AreRuns can row 0 runs × AreRowRuns (row + 1) rows

    abbrev pub row_commands : ℕ → List (List (ℕ × ℕ)) → List ShaderCommand
    row_commands row [] = []
    row_commands row (runs ∷ rows) = run_commands can row runs ++ row_commands (row + 1) rows

  no_runs :
      (can : Canvas s) (row : ℕ) (runs : List (ℕ × ℕ))
      → AllSame can row 0 (size can).width
      → AreRuns can row 0 runs
      → runs ≡ []
  no_runs can row [] same are = refl
  no_runs can row ((a, b) ∷ runs) same (low, pos, high, before, changed, last, rest) =
      absurd (changed a (omega arith) pos (same a (omega arith) (omega arith)))

  -- A row that reads alike prints nothing.
  diff_row_same :
      (can : Canvas s) (row : ℕ)
      → IsReady can
      → row < (size can).height
      → AllSame can row 0 (size can).width
      → diff_row ((size can).width + 1) can row 0 ≡ ok []
  diff_row_same can row r hr same =
      let (runs, eq, are) =
        diff_row_lem can row r hr ((size can).width + 1) 0 (omega arith) (omega arith) in
      ground (arith, eq, no_runs can row runs same are)

  pub brute_force_rows_lem :
      (can : Canvas s) (rounds row : ℕ)
      → IsReady can
      → rounds + row ≡ (size can).height
      → (rows : List (List (ℕ × ℕ))) × (brute_force_rows rounds can row
          ≡ ok (row_commands can row rows))
        × AreRowRuns can row rows
  unfolding brute_force_rows
  brute_force_rows_lem can zero row r h = ([], refl, omega arith)
  brute_force_rows_lem can (suc rounds) row r h =
      let (runs, eq, are) =
        diff_row_lem can row r (omega arith) ((size can).width + 1) 0 (omega arith) (omega arith) in
      let (rows, eqs, ares) = brute_force_rows_lem can rounds (row + 1) r (omega arith) in
      (runs ∷ rows, ground (arith, eq, eqs), (are, ares))

  dirty_marks_rows_lem :
      (can : Canvas s) (rows : List Bool) (row : ℕ)
      → IsReady can
      → length rows + row ≡ (size can).height
      → (size can).height < u16_mod
      → ((i y : ℕ) → row + i ≡ y → get_elem? rows i ≡ some false → AllSame can y 0 (size can).width)
      → dirty_marks_rows rows can row ≡ brute_force_rows (length rows) can row
  unfolding dirty_marks_rows brute_force_rows
  dirty_marks_rows_lem can [] row r h hh clean = refl
  dirty_marks_rows_lem can (true ∷ rows) row r h hh clean = ground (
    arith,
    dirty_marks_rows_lem can rows (row + 1) r (omega arith) hh
        (λ i y e c. clean (suc i) y (omega arith) c),
  )
  dirty_marks_rows_lem can (false ∷ rows) row r h hh clean =
      let same = diff_row_same can row r (omega arith) (clean 0 row (omega arith) refl) in
      ground (
        arith,
        same,
        dirty_marks_rows_lem can rows (row + 1) r (omega arith) hh
            (λ i y e c. clean (suc i) y (omega arith) c),
      )

  -- On well-formed frames of one size, the algorithm that compares every cell returns, and prints
  -- the maximal runs of changed columns of each row, from the top row to the bottom one.
  pub brute_force_diff-runs :
      (can : Canvas s)
      → IsReady can
      → (rows : List (List (ℕ × ℕ))) × (brute_force_diff can ≡ ok (row_commands can 0 rows))
        × ((zero_sized can.frame.iframe ≡ false → AreRowRuns can 0 rows)
            × (zero_sized can.frame.iframe ≡ true → rows ≡ []))
  unfolding brute_force_diff Frame.zero_sized
  brute_force_diff-runs can r = elim (Bool-cases (zero_sized can.frame.iframe)) [
    | inl void ↦ ([], rw void, (λ e. cc, λ e. refl))
    | inr full ↦
        let (rows, eq, are) = brute_force_rows_lem can (size can).height 0 r (omega arith) in
        (rows, rw full eq, (λ e. are, λ e. cc))
  ]

  -- On well-formed frames of one size, with fewer than 65536 rows, whose unmarked rows read as they
  -- did, the two algorithms return the same.
  pub dirty_marks_diff-eq-brute_force_diff :
      (can : Canvas s)
      → IsReady can
      → (size can).height < u16_mod
      → IsTracked can
      → dirty_marks_diff can ≡ brute_force_diff can
  unfolding dirty_marks_diff brute_force_diff
  dirty_marks_diff-eq-brute_force_diff can r hh t =
      let rows = r.frame.rows in
      let eq =
        dirty_marks_rows_lem can can.frame.iframe.dirty_rows 0 r (omega arith) hh
          (λ i y e c x low high.
            let lt = get_elem?-some-lt can.frame.iframe.dirty_rows i c in
            t (at y x) (high, omega arith) (ground (arith, c))) in
      ground (arith, eq)
