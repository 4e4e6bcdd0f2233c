-- ===== src/Buf/Symbols.antt =====
-- The widths of characters and texts, and the symbols that print them.
use rsvim.Prelude.{
  ℕ, ◌+◌, ◌≡◌, ltb, refl, inl, inr, ◌==◌, ◌||◌, true, false, if◌then◌else◌, List, [], ◌∷◌, ◌++◌,
  length, replicate, length-replicate, Outcome, ok, panic, stuck, Bool-cases, ◌>>=◌, unwrap, arith,
}
use rsvim.Buf.Rope.{Texts}
use rsvim.Buf.Ascii.{is_ascii_control, fmt, fmt_lem}
use rsvim.Buf.Buffer.{FileTypes, Buffer, tab_stop, char_width, char_symbol}

fmt_del : fmt 127 ≡ panic
unfolding fmt
fmt_del = refl

fmt_length :
    (o : Outcome (List ℕ)) (w : ℕ)
    → (do s ← o; ok (length s)) ≡ ok w
    → (s : List ℕ) × (o ≡ ok s) × (length s ≡ w)
fmt_length (ok s) w e = (s, refl, cc)
fmt_length panic w e = cc
fmt_length stuck w e = cc

module _ {x : Texts} {f : FileTypes} where
  -- The width of a character: the tab stop for a tab, nothing for a line break, two columns for any
  -- other control code but delete, which panics; the width of the Unicode tables otherwise, and a
  -- panic where they have none.
  pub char_width_lem :
      (b : Buffer x f) (c : ℕ)
      → char_width b c ≡ (
          if is_ascii_control c
          then (if c == 9
              then ok (tab_stop b)
              else if c == 10 || c == 13
              then ok 0
              else if c == 127
              then panic
              else ok 2)
          else unwrap (x.width_cjk c))
  unfolding char_width
  char_width_lem b c = ground (arith, fmt_lem c, fmt_del)

  -- The symbol of a character has the character's width, and exists where the width does. Those of
  -- the control codes have as many code points as columns.
  pub record Prints (b : Buffer x f) (c w : ℕ) (r : Outcome (List ℕ × ℕ)) : Type 0 where
    pub symbol : List ℕ
    pub returns : r ≡ ok (symbol, w)
    pub printed : (if is_ascii_control c then length symbol ≡ w else symbol ≡ c ∷ [])

  fmt-ok :
      (b : Buffer x f) (c w : ℕ)
      → is_ascii_control c ≡ true
      → (c == 9) ≡ false
      → (c == 10 || c == 13) ≡ false
      → char_width b c ≡ ok w
      → (s : List ℕ) × (fmt c ≡ ok s) × (length s ≡ w)
  unfolding char_width
  fmt-ok b c w control other code e = fmt_length (fmt c) w (ground (arith, e, control, other, code))

  -- Where a character has a width, it has a symbol of this width. The symbol of a control code has as many
  -- code points as columns, that of any other character is the character.
  pub char_symbol-Prints :
      (b : Buffer x f) (c w : ℕ) → char_width b c ≡ ok w → Prints b c w (char_symbol b c)
  unfolding char_symbol
  char_symbol-Prints b c w e = elim (Bool-cases (is_ascii_control c)) [
    | inl control ↦ elim (Bool-cases (c == 9)) [
      | inl tab ↦ record {
        symbol = replicate (tab_stop b) b' ';
        returns = ground (arith, e, control, tab);
        printed = rw control (
            ground (
              arith,
              e,
              tab,
              control,
              char_width_lem b c,
              length-replicate {A = ℕ} (tab_stop b) b' ',
            ));
      }
      | inr other ↦ elim (Bool-cases (c == 10 || c == 13)) [
        | inl break ↦ record {
          symbol = [];
          returns = ground (arith, e, control, other, break);
          printed = rw control (ground (arith, e, other, break, control, char_width_lem b c));
        }
        | inr code ↦
            let (s, es, el) = fmt-ok b c w control other code e in
            record {
              symbol = s;
              returns = rw (e, char_symbol) (rw control (rw other (rw code (rw es refl))));
              printed = rw control el;
            }
      ]
    ]
    | inr plain ↦ record {
      symbol = c ∷ [];
      returns = ground (arith, e, plain);
      printed = rw plain refl;
    }
  ]

  -- What is printed for a character of width `w`: spaces for a tab, nothing for a line feed or a carriage
  -- return, `^0` and `^N` for shift-out and shift-in, `^` and the character 64 codes on for any other
  -- control code, and else the character.
  abbrev pub printed_of : Buffer x f → ℕ → List ℕ
  printed_of b c =
      if ltb c 32
      then (if c == 9
          then replicate (tab_stop b) b' '
          else if c == 10 || c == 13
          then []
          else if c == 14
          then b'^' ∷ b'0' ∷ []
          else if c == 15
          then b'^' ∷ b'N' ∷ []
          else b'^' ∷ (c + 64) ∷ [])
      else c ∷ []

  abbrev pub printed_text : Buffer x f → List ℕ → List ℕ
  printed_text b [] = []
  printed_text b (c ∷ cs) = printed_of b c ++ printed_text b cs
