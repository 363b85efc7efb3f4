-- ===== src/Util/CsvFile/Laws.antt =====
-- What is dumped is read again.
use ts_m2cellcpp.Prelude.{
  ℕ, ◌≡◌, ◌≢◌, refl, ap, ◌∙◌, false, ◌==◌, ltb, List, [], ◌∷◌, ◌++◌, length, All, some, ok,
  if_false, arith,
}
use ts_m2cellcpp.Util.CsvFile.{
  Text, Row, comma, newline, pieces, read_row, CsvFile, organize, Rows, ended, incomplete, push,
  read_checked, read_rows, index_read, finish_read, read_lines, read, join_row, append_row,
  append_rows, dump_str,
}

-- The text does not have the byte.
abbrev pub Without : ℕ → Text → Type 0
Without c s = All (λ b. (b == c) ≡ false) s

pieces-end : (d : ℕ) (p rest : Text) → Without d p → pieces d (p ++ d ∷ rest) ≡ p ∷ pieces d rest
unfolding pieces
pieces-end d [] rest w = ground arith
pieces-end d (c ∷ p) rest (n, w) = rw (n, pieces-end d p rest w) refl

pieces_last : (d c : ℕ) (p : Text) → Without d (c ∷ p) → pieces d (c ∷ p) ≡ (c ∷ p) ∷ []
unfolding pieces
pieces_last d c [] (n, w) = rw n refl
pieces_last d c (b ∷ p) (n, w) = rw (n, pieces_last d b p w) refl

-- A row that can be told from its line: at least one value, no delimiter in any, and the last one
-- not empty.
abbrev pub Plain : Row → Type 0
Plain [] = ⊥
Plain (v ∷ []) = Without comma v × Without newline v × (v ≢ [])
Plain (v ∷ w ∷ vs) = Without comma v × Without newline v × Plain (w ∷ vs)

Without-++ : (c : ℕ) (s t : Text) → Without c s → Without c t → Without c (s ++ t)
Without-++ c [] t p q = q
Without-++ c (b ∷ s) t (n, p) q = (n, Without-++ c s t p q)

Plain-join_row : (row : Row) → Plain row → Without newline (join_row row)
Plain-join_row [] p = elim p [ ]
Plain-join_row (v ∷ []) (c, n, e) = n
Plain-join_row (v ∷ w ∷ vs) (c, n, p) =
    Without-++ newline v (comma ∷ join_row (w ∷ vs)) n (refl, Plain-join_row (w ∷ vs) p)

read_row-join_row : (row : Row) → Plain row → read_row (join_row row) ≡ row
unfolding read_row
read_row-join_row [] p = elim p [ ]
read_row-join_row ([] ∷ []) (c, n, e) = elim (e refl) [ ]
read_row-join_row ((b ∷ v) ∷ []) (c, n, e) = pieces_last comma b v c
read_row-join_row (v ∷ w ∷ vs) (c, n, p) =
    pieces-end comma v (join_row (w ∷ vs)) c ∙ ap (λ r. v ∷ r) (read_row-join_row (w ∷ vs) p)

pieces-append_row :
    (row : Row) (rest : Text)
    → Plain row
    → pieces newline (append_row row rest) ≡ join_row row ∷ pieces newline rest
unfolding append_row
pieces-append_row row rest p = pieces-end newline (join_row row) rest (Plain-join_row row p)

-- Rows of as many values as there are columns.
abbrev pub Complete : ℕ → List Row → Type 0
Complete n rows = All (λ (r : Row). Plain r × (length r ≡ n)) rows

read_checked-row :
    (n : ℕ) (row : Row) (rest : Rows)
    → Plain row
    → length row ≡ n
    → read_checked n row rest ≡ push row rest
unfolding read_checked
read_checked-row n [] rest p e = elim p [ ]
read_checked-row n (v ∷ vs) rest p e =
    if_false (λ (r : Rows). r ≡ push (v ∷ vs) rest) (ltb (length (v ∷ vs)) n) incomplete
      (push (v ∷ vs) rest) (ground (arith, e)) refl

read_rows-append_rows :
    (n : ℕ) (rows : List Row)
    → Complete n rows
    → read_rows n (pieces newline (append_rows rows)) ≡ ended rows
unfolding append_rows read_rows pieces
read_rows-append_rows n [] c = refl
read_rows-append_rows n (row ∷ rows) ((p, e), c) =
    rw
      (
        pieces-append_row row (append_rows rows) p,
        read_row-join_row row p,
        read_rows-append_rows n rows c,
      )
      (read_checked-row n row (ended rows) p e)

-- Read what was written: the text of a file reads as that file, if every row has one value for each
-- column, no value has a comma or a new line, the last of each row is not empty, and the index is the
-- one that the names give, which are distinct.
pub read-dump_str :
    (f : CsvFile)
    → Plain f.column_names
    → Complete (length f.column_names) f.row_strings
    → organize 0 f.column_names [] ≡ ok f.col_index
    → f.column_count ≡ length f.column_names
    → f.row_count ≡ length f.row_strings
    → read (some (dump_str f)) ≡ ok f
unfolding read read_lines dump_str finish_read index_read
read-dump_str f p c i n m =
    rw
      (
        pieces-append_row f.column_names (append_rows f.row_strings) p,
        read_row-join_row f.column_names p,
        read_rows-append_rows (length f.column_names) f.row_strings c,
      )
      (ap (index_read f.column_names f.row_strings) i ∙ cc (n, m))
