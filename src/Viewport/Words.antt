-- ===== src/Viewport/Words.antt =====
-- rsvim_core/src/ui/widget/window/viewport/sync.rs: the loops over the words of a line, with wrapping at
-- the words.
use rsvim.Prelude.{
  ℕ, ◌+◌, ◌*◌, ◌==◌, leb, ltb, if◌then◌else◌, List, [], ◌∷◌, ◌++◌, length, Outcome, ok, ◌>>=◌, ◌>>◌,
  assert, Map, insert_ordered,
}
use rsvim.Cart.{as_u16, add_u16}
use rsvim.Viewport.Scan.{
  Scan, Flow, next, stop, sub_usize, start, begin, put_row, advance, next_row,
}

-- `char::len_utf8`, the bytes of a character in a `String`.
unfoldable pub len_utf8 : ℕ → ℕ
len_utf8 c = if ltb c 128 then 1 else if ltb c 2048 then 2 else if ltb c 65536 then 3 else 4

-- The loop of `truncate_line`, from the character `i` on: `len` is the bytes of the text built so far.
unfoldable pub truncate_chars : ℕ → ℕ → List ℕ → ℕ → List ℕ → ℕ → List ℕ
truncate_chars start_column max_bytes [] i builder len = builder
truncate_chars start_column max_bytes (c ∷ cs) i builder len =
    let rest =
      truncate_chars start_column max_bytes cs (i + 1) (builder ++ c ∷ []) (len + len_utf8 c) in
    let skip = truncate_chars start_column max_bytes cs (i + 1) builder len in
    if ltb i start_column then skip else if ltb max_bytes len then builder else rest

unfoldable pub truncate_line : List ℕ → ℕ → ℕ → List ℕ
truncate_line line start_column max_bytes = truncate_chars start_column max_bytes line 0 [] 0

-- The local variables of the loop over the words: `bchars` is the characters before the current one.
pub record WordScan : Type 0 where
  pub scan : Scan
  pub bchars : ℕ

-- A row without characters at the same place.
unfoldable pub clear_row : ℕ → Scan → Scan
clear_row idx s = record s { wcol = 0; start_dcol = s.end_dcol; start_c_idx = idx; ch2dcols = [] }

module _ (char_width : ℕ → Outcome ℕ) where
  -- The fold that counts the characters and the columns of a word.
  unfoldable pub word_size : List ℕ → ℕ × ℕ → Outcome (ℕ × ℕ)
  word_size [] init = ok init
  word_size (c ∷ cs) init = do c_width ← char_width c; word_size cs (init.0 + 1, init.1 + c_width)

  -- The loop for `tmp_wcol`: how far the characters of a word still fit in the row.
  unfoldable pub fit_chars : ℕ → List ℕ → ℕ → Outcome ℕ
  fit_chars width [] tmp_wcol = ok tmp_wcol
  fit_chars width (c ∷ cs) tmp_wcol = do
    c_width ← char_width c
    if ltb width (tmp_wcol + c_width) then ok tmp_wcol else (do
      next_wcol ← add_u16 tmp_wcol (as_u16 c_width)
      if leb width next_wcol then ok next_wcol else fit_chars width cs next_wcol)

  -- The columns of the characters of a word, from the character `idx` and the column `tmp_start_dcol`.
  unfoldable pub put_chars : List ℕ → ℕ → ℕ → Map (ℕ × ℕ) → Outcome (Map (ℕ × ℕ))
  put_chars [] idx tmp_start_dcol ch2dcols = ok ch2dcols
  put_chars (c ∷ cs) idx tmp_start_dcol ch2dcols = do
    c_width ← char_width c
    let tmp_end_dcol = tmp_start_dcol + c_width
    put_chars cs (idx + 1) tmp_end_dcol (insert_ordered idx (tmp_start_dcol, tmp_end_dcol) ch2dcols)

  -- The whole word goes to the row.
  unfoldable pub put_word : List ℕ → ℕ → ℕ → WordScan → Outcome WordScan
  put_word wd wd_chars wd_width b = do
    let s = b.scan
    let dcol = s.dcol + wd_width
    let bchars = b.bchars + wd_chars
    wcol ← add_u16 s.wcol (as_u16 wd_width)
    ch2dcols ← put_chars wd b.bchars s.dcol s.ch2dcols
    ok (record {
      scan = record s {
        dcol = dcol;
        end_dcol = dcol;
        end_c_idx = bchars;
        wcol = wcol;
        ch2dcols = ch2dcols;
      };
      bchars = bchars;
    })

  module _ (width height : ℕ) where
    -- The row is full: it is put away where the loop goes on below.
    unfoldable pub full_row : Scan → Outcome (Flow Scan)
    full_row s =
        if leb width s.wcol
        then (do
          assert (s.wcol == width)
          s1 ← next_row s.end_c_idx (put_row s)
          if leb height s1.wrow then ok (stop s1) else ok (next s1))
        else ok (next s)

    -- The character `c` of a word, after the check that it fits.
    unfoldable pub put_char : ℕ → WordScan → Outcome (Flow WordScan)
    put_char c_width b = do
      s ← advance b.bchars c_width b.scan
      r ← full_row s
      elim r [
        | next s1 ↦ ok (next (record { scan = s1; bchars = b.bchars + 1 }))
        | stop s1 ↦ ok (stop (record { scan = s1; bchars = b.bchars + 1 }))
      ]

    -- A round of the loop over the characters of a word that is wider than the window: the character
    -- `j` of the word.
    unfoldable pub break_char : ℕ → ℕ → WordScan → Outcome (Flow WordScan)
    break_char j c b = do
      let s = b.scan
      c_width ← char_width c
      if ltb width (s.wcol + c_width)
          then (do
            saved_end_fills ← sub_usize width s.wcol
            wrow ← if ltb 0 j then add_u16 s.wrow 1 else ok s.wrow
            let s1 = record (clear_row b.bchars (put_row s)) { wrow = wrow }
            if leb height wrow
                then ok (stop (record b { scan = record s1 { end_fills = saved_end_fills } }))
                else put_char c_width (record b { scan = s1 }))
          else put_char c_width b

    unfoldable pub break_word : List ℕ → ℕ → WordScan → Outcome WordScan
    break_word [] j b = ok b
    break_word (c ∷ cs) j b = do
      r ← break_char j c b
      elim r [ next b1 ↦ break_word cs (j + 1) b1 | stop b1 ↦ ok b1 ]

    -- A word that does not fit behind the row: the row ends, and the word starts the next one.
    unfoldable pub long_word : List ℕ → WordScan → Outcome (Flow WordScan)
    long_word wd b = do
      let s = b.scan
      if ltb 0 s.wcol
          then (do
            tmp_wcol ← fit_chars width wd s.wcol
            saved_end_fills ← sub_usize width tmp_wcol
            s1 ← next_row b.bchars (put_row s)
            if leb height s1.wrow
                then ok (stop (record b { scan = record s1 { end_fills = saved_end_fills } }))
                else (do b1 ← break_word wd 0 (record b { scan = s1 }); ok (next b1)))
          else (do b1 ← break_word wd 0 b; ok (next b1))

    module _ (start_dcolumn len : ℕ) where
      -- The end of a round: the last word ends the line, and a full row ends here.
      unfoldable pub end_word : ℕ → WordScan → Outcome (Flow WordScan)
      end_word i b = if i + 1 == len then ok (stop (record b { scan = put_row b.scan })) else (do
        r ← full_row b.scan
        elim r [
          | next s ↦ ok (next (record b { scan = s }))
          | stop s ↦ ok (stop (record b { scan = s }))
        ])

      -- A round of the loop over the words.
      unfoldable pub word_round : ℕ → List ℕ → WordScan → Outcome (Flow WordScan)
      word_round i wd b = do
        size ← word_size wd (0, 0)
        if ltb (b.scan.dcol + size.1) start_dcolumn
            then (let dcol = b.scan.dcol + size.1 in
                let bchars = b.bchars + size.0 in
                ok (
                  next (record {
                    scan = record b.scan { dcol = dcol; end_dcol = dcol; end_c_idx = bchars };
                    bchars = bchars;
                  })))
            else (do
              s ← begin start_dcolumn b.bchars b.scan
              if ltb width (s.wcol + size.1)
                  then (do
                    r ← long_word wd (record b { scan = s })
                    elim r [ next b1 ↦ end_word i b1 | stop b1 ↦ ok (stop b1) ])
                  else (do b1 ← put_word wd size.0 size.1 (record b { scan = s }); end_word i b1))

      unfoldable pub scan_words : List (List ℕ) → ℕ → WordScan → Outcome WordScan
      scan_words [] i b = ok b
      scan_words (wd ∷ wds) i b = do
        r ← word_round i wd b
        elim r [ next b1 ↦ scan_words wds (i + 1) b1 | stop b1 ↦ ok b1 ]

    -- A line of `_sync_from_top_left_wrap_linebreak`.
    unfoldable pub linebreak_line : (List ℕ → List (List ℕ)) → ℕ → List ℕ → ℕ → Outcome Scan
    linebreak_line split_word_bounds start_dcolumn line wrow = do
      let words =
          split_word_bounds
            (truncate_line line start_dcolumn (height * width * 2 + height * 2 + 16))
      b ← scan_words start_dcolumn (length words) words 0 (record { scan = start wrow; bchars = 0 })
      ok b.scan
