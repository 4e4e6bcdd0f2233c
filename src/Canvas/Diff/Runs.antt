-- ===== src/Canvas/Diff/Runs.antt =====
-- The loops over one row, as the runs of changed columns that they print.
use rsvim.Prelude.{
  ℕ, zero, suc, ◌+◌, ◌-◌, ◌≤◌, ◌<◌, ◌≡◌, ◌⊎◌, inl, inr, Bool-cases, ltb→lt, range_cons, false, ltb,
  List, [], ◌∷◌, ok, arith,
}
use mathlib.Core.Path.{subst}
use native.Mathlib.Decide.{dec_lt}
use rsvim.Canvas.Cell.{Crossterm, Cell, cell_eq}
use rsvim.Canvas.Frame
use rsvim.Canvas.Shader.{ShaderCommand, cursor_move_to, style_print_string}
use rsvim.Canvas.Diff.{Canvas, size, next_same_loop, next_same_cell_in_row, diff_row}
use rsvim.Canvas.Diff.Ready.{IsReady, IsSame, at, compare_cells, run_text, make_print_shaders_lem}

module _ {s : Crossterm} (can : Canvas s) (row : ℕ) where
  abbrev pub AllSame : ℕ → ℕ → Type 0
  AllSame a b = (c : ℕ) → a ≤ c → c < b → IsSame can (at row c)

  abbrev pub AllChanged : ℕ → ℕ → Type 0
  AllChanged a b = (c : ℕ) → a ≤ c → c < b → ¬ IsSame can (at row c)

  -- `runs` are the maximal runs of changed columns from `col` on.
  abbrev pub AreRuns : ℕ → List (ℕ × ℕ) → Type 0
  AreRuns col [] = AllSame col (size can).width
  AreRuns col ((a, b) ∷ runs) =
      (col ≤ a)
      × (a < b)
      × (b ≤ (size can).width)
      × AllSame col a
      × AllChanged a b
      × ((b ≡ (size can).width) ⊎ IsSame can (at row b))
      × AreRuns b runs

  abbrev pub run_commands : List (ℕ × ℕ) → List ShaderCommand
  run_commands [] = []
  run_commands ((a, b) ∷ runs) =
      cursor_move_to (at row a) ∷ style_print_string (run_text can row a b) ∷ run_commands runs

  module _ (r : IsReady can) (hr : row < (size can).height) where
    -- With enough fuel the search returns the first column from `col` on that reads alike.
    pub next_same_loop_lem :
        (fuel col : ℕ)
        → col ≤ (size can).width
        → (size can).width < fuel + col
        → (e : ℕ) × (next_same_loop fuel can row col ≡ ok e)
          × (col ≤ e)
          × (e ≤ (size can).width)
          × AllChanged col e
          × ((e ≡ (size can).width) ⊎ IsSame can (at row e))
    unfolding next_same_loop
    next_same_loop_lem zero col h f = absurd (omega arith)
    next_same_loop_lem (suc fuel) col h f = elim (Bool-cases (ltb col (size can).width)) [
      | inr out ↦ (col, rw out, omega arith, h, λ c p q. absurd (omega arith), inl (ground arith))
      | inl within ↦
          let lt = ltb→lt col (size can).width within in
          let (c, c', g, g', same) = compare_cells can (at row col) r (lt, hr) in
          elim (Bool-cases (cell_eq c c')) [
            | inl e ↦ (
              col,
              ground (arith, g, g'),
              omega arith,
              h,
              λ c p q. absurd (omega arith),
              inr (same.0 e),
            )
            | inr e ↦
                let (end, eq, low, high, changed, last) =
                  next_same_loop_lem fuel (col + 1) (omega arith) (omega arith) in
                (
                  end,
                  ground (arith, g, g', eq),
                  omega arith,
                  high,
                  range_cons (λ c. ¬ IsSame can (at row c)) col end (λ h. cc (same.1 h)) changed,
                  last,
                )
          ]
    ]

    pub next_same_cell_in_row_lem :
        (col : ℕ)
        → col ≤ (size can).width
        → (e : ℕ) × (next_same_cell_in_row can row col ≡ ok e)
          × (col ≤ e)
          × (e ≤ (size can).width)
          × AllChanged col e
          × ((e ≡ (size can).width) ⊎ IsSame can (at row e))
    unfolding next_same_cell_in_row
    next_same_cell_in_row_lem col h =
        next_same_loop_lem ((size can).width - col + 1) col h (omega arith)

  -- One column that reads alike in front of the runs leaves them as they are.
  AreRuns-cons :
      (col : ℕ) (runs : List (ℕ × ℕ))
      → IsSame can (at row col)
      → AreRuns (col + 1) runs
      → AreRuns col runs
  AreRuns-cons col [] same all = range_cons (λ c. IsSame can (at row c)) col _ same all
  AreRuns-cons col ((a, b) ∷ runs) same (low, pos, high, before, changed, last, rest) = (
    omega arith,
    pos,
    high,
    range_cons (λ c. IsSame can (at row c)) col a same before,
    changed,
    last,
    rest,
  )

  -- A changed column makes a run of at least one column.
  run_pos :
      (col e : ℕ)
      → col < (size can).width
      → ¬ IsSame can (at row col)
      → col ≤ e
      → (e ≡ (size can).width) ⊎ IsSame can (at row e)
      → col < e
  run_pos col e lt changed low (inl last) = omega arith
  run_pos col e lt changed low (inr same) = elim (dec_lt col e) [
    | yes l ↦ l
    | no l ↦
        let eq : e ≡ col = omega arith in
        absurd (changed (subst (λ c. IsSame can (at row c)) eq same))
  ]

  module _ (r : IsReady can) (hr : row < (size can).height) where
    diff_row_changed :
        (fuel col e : ℕ) (c c' : Cell s) (rest : List ShaderCommand)
        → col < (size can).width
        → Frame.get_cell can.frame (at row col) ≡ ok c
        → Frame.get_cell can.prev_frame (at row col) ≡ ok c'
        → cell_eq c c' ≡ false
        → next_same_cell_in_row can row col ≡ ok e
        → col < e
        → e ≤ (size can).width
        → diff_row fuel can row e ≡ ok rest
        → diff_row (suc fuel) can row col
          ≡ ok (cursor_move_to (at row col) ∷ style_print_string (run_text can row col e) ∷ rest)
    unfolding diff_row
    diff_row_changed fuel col e c c' rest lt g g' ne next pos high tail =
        ground (arith, make_print_shaders_lem can row col e r hr pos high)

    -- With enough fuel the loop over a row returns, and prints the maximal runs of changed columns.
    pub diff_row_lem :
        (fuel col : ℕ)
        → col ≤ (size can).width
        → (size can).width < fuel + col
        → (runs : List (ℕ × ℕ)) × (diff_row fuel can row col ≡ ok (run_commands runs))
          × AreRuns col runs
    unfolding diff_row
    diff_row_lem zero col h f = absurd (omega arith)
    diff_row_lem (suc fuel) col h f = elim (Bool-cases (ltb col (size can).width)) [
      | inr out ↦ ([], rw out, λ c p q. absurd (ground arith))
      | inl within ↦
          let lt = ltb→lt col (size can).width within in
          let (c, c', g, g', same) = compare_cells can (at row col) r (lt, hr) in
          elim (Bool-cases (cell_eq c c')) [
            | inl e ↦
                let (runs, eq, are) = diff_row_lem fuel (col + 1) (omega arith) (omega arith) in
                (runs, ground (arith, g, g', eq), AreRuns-cons col runs (same.0 e) are)
            | inr e ↦
                let (end, next, low, high, changed, last) = next_same_cell_in_row_lem r hr col h in
                let pos = run_pos col end lt (λ h. cc (same.1 h)) low last in
                let (runs, eq, are) = diff_row_lem fuel end high (omega arith) in
                (
                  (col, end) ∷ runs,
                  diff_row_changed fuel col end c c' _ lt g g' e next pos high eq,
                  (omega arith, pos, high, λ c p q. absurd (omega arith), changed, last, are),
                )
          ]
    ]
