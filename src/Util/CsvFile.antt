-- ===== src/Util/CsvFile.antt =====
-- The reader of CSV files, util/CsvFile.cpp. A text is the list of its bytes.
pub mod Laws
use ts_m2cellcpp.Prelude.{
  ℕ, suc, ◌+◌, Bool, true, false, ◌&&◌, ◌==◌, ltb, leb, List, [], ◌∷◌, ◌++◌, length, map, Option,
  none, some, Result, ok, err, Exception, range_error, if◌then◌else◌,
}

abbrev pub Text : Type 0
Text = List ℕ

abbrev pub Row : Type 0
Row = List Text

abbrev pub comma : ℕ
comma = 44

abbrev pub newline : ℕ
newline = 10

abbrev pub before : ℕ → List Text → List Text
before c [] = (c ∷ []) ∷ []
before c (p ∷ ps) = (c ∷ p) ∷ ps

-- `getline` until it fails: what follows the last delimiter counts only if it is not empty.
unfoldable pub pieces : ℕ → Text → List Text
pieces delimiter [] = []
pieces delimiter (c ∷ s) =
    let rest = pieces delimiter s in if c == delimiter then [] ∷ rest else before c rest

unfoldable pub read_row : Text → Row
read_row line = pieces comma line

abbrev pub same_text : Text → Text → Bool
same_text [] [] = true
same_text (a ∷ s) (b ∷ t) = (a == b) && same_text s t
same_text _ _ = false

abbrev pub find_column : Text → List (Text × ℕ) → Option ℕ
find_column k [] = none
find_column k ((n, j) ∷ index) = if same_text n k then some j else find_column k index

pub record CsvFile : Type 0 where
  pub column_names : Row
  pub column_count : ℕ
  pub row_strings : List Row
  pub row_count : ℕ
  pub col_index : List (Text × ℕ)

insert_column : Option ℕ → Text → ℕ → List (Text × ℕ) → Result (List (Text × ℕ))
insert_column (some old) name j index = err range_error
insert_column none name j index = ok ((name, j) ∷ index)

-- _organize; a runtime_error for a name that is there twice.
unfoldable pub organize : ℕ → Row → List (Text × ℕ) → Result (List (Text × ℕ))
unfolding insert_column
organize j [] index = ok index
organize j (name ∷ names) index = elim (insert_column (find_column name index) name j index) [
  | err e ↦ err e
  | ok more ↦ organize (j + 1) names more
]

-- How the loop over the rows ended: at an empty row, at the end of the file, or with a runtime_error
-- for a row that is too short.
pub data Rows : Type 0 where
  stopped ended : List Row → Rows
  incomplete : Rows

abbrev pub push : Row → Rows → Rows
push row (stopped rows) = stopped (row ∷ rows)
push row (ended rows) = ended (row ∷ rows)
push row incomplete = incomplete

read_checked : ℕ → Row → Rows → Rows
read_checked columns [] rest = stopped []
read_checked columns (v ∷ vs) rest =
    if ltb (length (v ∷ vs)) columns then incomplete else push (v ∷ vs) rest

unfoldable pub read_rows : ℕ → List Text → Rows
unfolding read_checked
read_rows columns [] = ended []
read_rows columns (line ∷ lines) = read_checked columns (read_row line) (read_rows columns lines)

index_read : Row → List Row → Result (List (Text × ℕ)) → Result CsvFile
index_read names rows (err e) = err e
index_read names rows (ok index) = ok (record {
  column_names = names;
  column_count = length names;
  row_strings = rows;
  row_count = length rows;
  col_index = index;
})

-- The end of `read`: the return at an empty row leaves out the count and the index.
unfoldable pub finish_read : Row → Rows → Result CsvFile
unfolding index_read
finish_read names incomplete = err range_error
finish_read names (stopped rows) = ok (record {
  column_names = names;
  column_count = length names;
  row_strings = rows;
  row_count = 0;
  col_index = [];
})
finish_read names (ended rows) = index_read names rows (organize 0 names [])

read_lines : List Text → Result CsvFile
read_lines [] = finish_read [] (ended [])
read_lines (header ∷ lines) =
    let names = read_row header in finish_read names (read_rows (length names) lines)

-- `read` of the text of the file; `none` is a file that cannot be opened.
unfoldable pub read : Option Text → Result CsvFile
unfolding read_lines
read none = err range_error
read (some text) = read_lines (pieces newline text)

abbrev pub join_row : Row → Text
join_row [] = []
join_row (v ∷ []) = v
join_row (v ∷ w ∷ vs) = v ++ comma ∷ join_row (w ∷ vs)

-- appendRow.
unfoldable pub append_row : Row → Text → Text
append_row row rest = join_row row ++ newline ∷ rest

unfoldable pub append_rows : List Row → Text
append_rows [] = []
append_rows (row ∷ rows) = append_row row (append_rows rows)

unfoldable pub dump_str : CsvFile → Text
dump_str f = append_row f.column_names (append_rows f.row_strings)

abbrev pub at : {A : Type 0} → ℕ → List A → Option A
at n [] = none
at ℕ.zero (x ∷ xs) = some x
at (ℕ.suc n) (x ∷ xs) = at n xs

get_found : Option ℕ → Option Row → Result Text
get_found (some j) (some row) = elim (at j row) [ none ↦ err range_error | some v ↦ ok v ]
get_found _ _ = err range_error

-- getValue; the row is not negative, and the column of the index stands in every row.
unfoldable pub get_value : Text → ℕ → CsvFile → Result Text
unfolding get_found
get_value col row f =
    if leb f.row_count row
    then err range_error
    else get_found (find_column col f.col_index) (at row f.row_strings)
