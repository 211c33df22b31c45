-- ===== src/Csv/RoundTrip.antt =====
-- The whole of one_and_dones/compile_time_csv/example.cpp on a text that is a table.
use mathlib.Core.List.{append-nil}
use benchmark_fun.Common.{
  ℕ, ◌%◌, ◌^◌, ◌≤◌, ◌<◌, ◌≡◌, ◌≢◌, refl, sym, ap, ◌∙◌, Bool, true, List, [], ◌∷◌, ◌++◌, map, length,
  arith, length-append,
}
use benchmark_fun.Common.{Text, codes}
use benchmark_fun.Csv.{
  split, sanitize, Member, FieldType, size_type, Result, ok, bind, read_pair, read_header,
  read_headers, read_cells, read_rows, parse_field, parse_size_t, lines_of, read_lines, read_table,
  string_to_type,
}
use benchmark_fun.Csv.Split.{Lacks, AllLack, join, split-join}
use benchmark_fun.Csv.Sanitize.{padded, sanitize-padded}
use benchmark_fun.Csv.Plain.{
  Plain, Lacks-get_or, Lacks-append, Lacks-join, AllSome, join-first, join-last, sanitize-Plain,
  AllDigits, spelled, digits_plain, digits-Plain, parse_size_t_lem,
}

-- How a header and a row are written.
abbrev pub header : Text → Text
header name = name ++ b'.' ∷ codes "size_t"

abbrev pub AllNames : List Text → Type 0
AllNames [] = 0 ≤ 0
AllNames (name ∷ names) = Plain name × AllNames names

-- A row has digits for each name.
abbrev pub IsRow : List Text → List Text → Type 0
IsRow [] [] = 0 ≤ 0
IsRow (name ∷ names) (cell ∷ cells) = (AllDigits cell × 0 < length cell) × IsRow names cells
IsRow _ _ = 1 ≤ 0

abbrev pub AllRows : List Text → List (List Text) → Type 0
AllRows names [] = 0 ≤ 0
AllRows names (row ∷ rows) = IsRow names row × AllRows names rows

abbrev pub render : List Text → List (List Text) → Text
render names rows = join b'\n' (join b',' (map header names) ∷ map (join b',') rows)

abbrev pub member : Text → Member
member name = record { name = name; field_type = size_type }

abbrev pub cell_value : Text → ℕ
cell_value cell = spelled 0 cell % 2 ^ 64

size_t_Plain :
    Lacks b' ' (codes "size_t")
    × Lacks b',' (codes "size_t")
    × Lacks b'.' (codes "size_t")
    × Lacks b'\n' (codes "size_t")
size_t_Plain = omega arith

abbrev typed : Text → FieldType → Result Member
typed name t = ok (record { name = name; field_type = t })

read_header_lem : (name : Text) → Plain name → read_header (header name) ≡ ok (member name)
unfolding read_header read_pair string_to_type
read_header_lem name (space, comma, dot, line, long) =
    let parts = split-join b'.' name (codes "size_t" ∷ []) (dot, (size_t_Plain.2, omega arith)) in
    let type_same : sanitize (codes "size_t") b' ' ≡ codes "size_t" =
      sanitize-Plain (codes "size_t")
        (size_t_Plain.0, size_t_Plain.1, size_t_Plain.2, size_t_Plain.3, omega arith) in
    ap read_pair parts
    ∙ ap (λ t. bind (string_to_type t) (typed (sanitize name b' '))) type_same
    ∙ ap (λ n. ok (member n)) (sanitize-Plain name (space, comma, dot, line, long))

read_headers_lem :
    (names : List Text) → AllNames names → read_headers (map header names) ≡ ok (map member names)
unfolding read_headers
read_headers_lem [] h = refl
read_headers_lem (name ∷ names) h = rw (read_header_lem name h.0, read_headers_lem names h.1) refl

read_cells_lem :
    (names row : List Text)
    → IsRow names row
    → read_cells (map member names) row ≡ ok (map cell_value row)
unfolding read_cells parse_field
read_cells_lem [] [] h = refl
read_cells_lem [] (cell ∷ row) h = absurd (omega arith)
read_cells_lem (name ∷ names) [] h = absurd (omega arith)
read_cells_lem (name ∷ names) (cell ∷ row) ((digits, long), h) =
    let same = sanitize-Plain cell (digits-Plain cell digits long) in
    let value : parse_size_t cell ≡ cell_value cell =
      ap parse_size_t (sym (append-nil cell)) ∙ parse_size_t_lem 0 0 cell digits long in
    rw (same, same, value, read_cells_lem names row h) refl

row-AllLack : (d : ℕ) (names row : List Text) → d < b'0' → IsRow names row → AllLack d row
row-AllLack d [] [] low h = omega arith
row-AllLack d [] (cell ∷ row) low h = absurd (omega arith)
row-AllLack d (name ∷ names) [] low h = absurd (omega arith)
row-AllLack d (name ∷ names) (cell ∷ row) low ((digits, long), h) =
    (digits_plain d cell low digits, row-AllLack d names row low h)

read_row_lem :
    (name : Text) (names row : List Text)
    → IsRow (name ∷ names) row
    → read_cells (map member (name ∷ names)) (split (join b',' row) b',') ≡ ok (map cell_value row)
read_row_lem name names [] h = absurd (omega arith)
read_row_lem name names (cell ∷ row) h =
    ap (read_cells (map member (name ∷ names)))
      (split-join b',' cell row (row-AllLack b',' (name ∷ names) (cell ∷ row) (omega arith) h))
    ∙ read_cells_lem (name ∷ names) (cell ∷ row) h

read_rows_lem :
    (name : Text) (names : List Text) (rows : List (List Text))
    → AllRows (name ∷ names) rows
    → read_rows (map member (name ∷ names)) (map (join b',') rows) ≡ ok (map (map cell_value) rows)
unfolding read_rows
read_rows_lem name names [] h = refl
read_rows_lem name names (row ∷ rows) h =
    rw (read_row_lem name names row h.0, read_rows_lem name names rows h.1) refl

header-Lacks :
    (d : ℕ) (name : Text)
    → Lacks d name
    → d ≢ b'.'
    → Lacks d (codes "size_t")
    → Lacks d (header name)
header-Lacks d name h dot k = Lacks-append d name (b'.' ∷ codes "size_t") h ((λ e. dot (sym e)), k)

headers_commas : (names : List Text) → AllNames names → AllLack b',' (map header names)
headers_commas [] h = omega arith
headers_commas (name ∷ names) h =
    (header-Lacks b',' name h.0.1 (λ e. omega arith) size_t_Plain.1, headers_commas names h.1)

headers_lines : (names : List Text) → AllNames names → AllLack b'\n' (map header names)
headers_lines [] h = omega arith
headers_lines (name ∷ names) h =
    (header-Lacks b'\n' name h.0.3 (λ e. omega arith) size_t_Plain.3, headers_lines names h.1)

headers_some : (names : List Text) → AllNames names → AllSome (map header names)
headers_some [] h = omega arith
headers_some (name ∷ names) h =
    (omega (arith, length-append name (b'.' ∷ codes "size_t")), headers_some names h.1)

row-AllSome : (names row : List Text) → IsRow names row → AllSome row
row-AllSome [] [] h = omega arith
row-AllSome [] (cell ∷ row) h = absurd (omega arith)
row-AllSome (name ∷ names) [] h = absurd (omega arith)
row-AllSome (name ∷ names) (cell ∷ row) (cell_ok, h) = (cell_ok.1, row-AllSome names row h)

same_names : (names : List Text) → map (λ m. m.name) (map member names) ≡ names
same_names [] = refl
same_names (name ∷ names) = ap (λ ns. name ∷ ns) (same_names names)

module _ (name : Text) (names : List Text) where
  row_lines :
      (rows : List (List Text))
      → AllRows (name ∷ names) rows
      → AllLack b'\n' (map (join b',') rows) × AllSome (map (join b',') rows)
  row_lines [] h = (omega arith, omega arith)
  row_lines ([] ∷ rows) h = absurd (let wrong = h.0 in omega arith)
  row_lines ((cell ∷ row) ∷ rows) h =
      let (lacks, some_all) = row_lines rows h.1 in
      (
        (
          Lacks-join b'\n' b',' (cell ∷ row) (λ e. omega arith)
              (row-AllLack b'\n' (name ∷ names) (cell ∷ row) (omega arith) h.0),
          lacks,
        ),
        ((join-first b',' cell row (row-AllSome (name ∷ names) (cell ∷ row) h.0)).0, some_all),
      )

  -- A table of named columns of digits, written out with line ends before and behind it, is read
  -- back: the members are the names, in order, each of type `size_t`, and the rows hold the numbers
  -- that the digits spell, modulo 2 ^ 64. Names hold no space, comma, dot or line end, and are
  -- taken by `define_aggregate` as members of one class.
  pub read_table-render :
      (are_members : List Text → Bool) (before behind : ℕ) (rows : List (List Text))
      → AllNames (name ∷ names)
      → AllRows (name ∷ names) rows
      → are_members (name ∷ names) ≡ true
      → read_table are_members (padded b'\n' before behind (render (name ∷ names) rows))
        ≡ ok (record { members = map member (name ∷ names); rows = map (map cell_value) rows })
  unfolding read_table lines_of read_lines
  read_table-render are_members before behind rows named h taken =
      let top = join b',' (map header (name ∷ names)) in
      let lines = map (join b',') rows in
      let top_some = headers_some (name ∷ names) named in
      let (lacks, some_all) = row_lines rows h in
      let all_lack : AllLack b'\n' (top ∷ lines) = (
        Lacks-join b'\n' b',' (map header (name ∷ names)) (λ e. omega arith)
            (headers_lines (name ∷ names) named),
        lacks,
      ) in
      let all_some : AllSome (top ∷ lines) =
        ((join-first b',' (header name) (map header names) top_some).0, some_all) in
      let (long, begins) = join-first b'\n' top lines all_some in
      let clean : sanitize (padded b'\n' before behind (render (name ∷ names) rows)) b'\n'
          ≡ render (name ∷ names) rows =
        sanitize-padded b'\n' before behind (render (name ∷ names) rows) long
          (λ e. Lacks-get_or b'\n' 0 top all_lack.0 all_some.0 (sym begins ∙ e))
          (join-last b'\n' top lines all_some all_lack) in
      let same = same_names (name ∷ names) in
      let headers =
        ap read_headers
          (split-join b',' (header name) (map header names) (headers_commas (name ∷ names) named))
        ∙ read_headers_lem (name ∷ names) named in
      ap (λ t. read_lines are_members (split t b'\n')) clean
      ∙ ap (read_lines are_members) (split-join b'\n' top lines all_lack)
      ∙ rw (headers, same, taken, read_rows_lem name names rows h) refl
