-- ===== src/Csv/Tests.antt =====
-- one_and_dones/compile_time_csv on its own table, example.csv, and the theorems at it.
use benchmark_fun.Common.{◌%◌, ◌^◌, ◌≡◌, refl, List, [], ◌∷◌, map, arith}
use benchmark_fun.Common.{Text, codes, text_eq, Bool, true, not, ◌&&◌}
use benchmark_fun.Csv.{
  split, split_from, sanitize, skip_front, skip_back, parse_size_t, parse_field, read_pair,
  read_header, read_headers, read_cells, read_rows, read_lines, lines_of, read_table,
  string_to_type, ok, throws, bad_header, bad_members, Member,
}
use benchmark_fun.Csv.Split.{join, split-join}
use benchmark_fun.Csv.Sanitize.{padded}
use benchmark_fun.Csv.Plain.{spelled, parse_size_t_lem}
use benchmark_fun.Csv.RoundTrip.{member, cell_value, render, read_table-render}

abbrev example_csv : Text
example_csv = codes "ID.size_t, NUM.size_t, AGE.size_t\n0, 5, 19\n1, 3, 23\n2, 6, 41\n3, 3, 37\n"

-- Names that differ from the one behind them.
abbrev differ : List Text → Bool
differ [] = true
differ (name ∷ []) = true
differ (name ∷ other ∷ names) =
    let rest = differ (other ∷ names) in not (text_eq name other) && rest

refuses_members : read_table differ (codes "A.size_t,A.size_t\n1,2") ≡ throws bad_members
unfolding read_table read_lines lines_of split split_from sanitize skip_front skip_back read_headers
    read_header read_pair string_to_type
refuses_members = refl

abbrev members : List Member
members = member (codes "ID") ∷ member (codes "NUM") ∷ member (codes "AGE") ∷ []

reads_example :
    read_table differ example_csv
    ≡ ok (record {
      members = members;
      rows = (0 ∷ 5 ∷ 19 ∷ []) ∷ (1 ∷ 3 ∷ 23 ∷ []) ∷ (2 ∷ 6 ∷ 41 ∷ []) ∷ (3 ∷ 3 ∷ 37 ∷ []) ∷ [];
    })
unfolding read_table read_lines lines_of split split_from sanitize skip_front skip_back read_headers
    read_header read_pair string_to_type read_rows read_cells parse_field parse_size_t
reads_example = refl

refuses_header : read_table differ (codes "ID\n1") ≡ throws bad_header
unfolding read_table read_lines lines_of split split_from sanitize skip_front skip_back read_headers
    read_header read_pair
refuses_header = refl

split-join_example :
    split (join b'.' (codes "ID" ∷ codes "size_t" ∷ [])) b'.' ≡ codes "ID" ∷ codes "size_t" ∷ []
split-join_example = split-join b'.' (codes "ID") (codes "size_t" ∷ []) (omega arith)

parse_size_t_lem_example :
    parse_size_t (padded b' ' 2 1 (codes "41")) ≡ spelled 0 (codes "41") % 2 ^ 64
parse_size_t_lem_example = parse_size_t_lem 2 1 (codes "41") (omega arith) (omega arith)

read_table-render_example :
    read_table differ (
      padded b'\n' 0 1
        (render (codes "ID" ∷ codes "AGE" ∷ []) ((codes "0" ∷ codes "19" ∷ []) ∷ [])))
    ≡ ok (record {
      members = map member (codes "ID" ∷ codes "AGE" ∷ []);
      rows = map (map cell_value) ((codes "0" ∷ codes "19" ∷ []) ∷ []);
    })
read_table-render_example =
    read_table-render (codes "ID") (codes "AGE" ∷ []) differ 0 1
      ((codes "0" ∷ codes "19" ∷ []) ∷ []) (omega arith) (omega arith) refl
