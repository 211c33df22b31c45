-- ===== src/Csv.antt =====
-- one_and_dones/compile_time_csv/example.cpp: a table of numbers read at compile time. A `throw` is
-- an error as a value.
pub mod Split
pub mod Sanitize
pub mod Plain
pub mod RoundTrip
pub mod Get
mod Tests
use benchmark_fun.Common.{Text, codes, text_eq}
use benchmark_fun.Common.{
  ℕ, zero, suc, ◌+◌, ◌-◌, ◌*◌, ◌%◌, ◌^◌, Bool, true, false, ◌&&◌, ◌||◌, Option, none, some, List,
  [], ◌∷◌, ◌++◌, length, get_elem?, get_or, take, drop, map, ltb, ◌==◌, if◌then◌else◌,
}

-- `line.substr(start, count)`, where `start` is not past the end
abbrev pub substr : Text → ℕ → ℕ → Text
substr line start count = take count (drop start line)

-- The loop of `split` from `i` on, for `rounds` rounds: what it still pushes.
pub split_from : Text → ℕ → ℕ → ℕ → ℕ → List Text
split_from line delimiter zero start i = []
split_from line delimiter (suc rounds) start i =
    let cut_here =
      substr line start (i - start) ∷ split_from line delimiter rounds (i + 1) (i + 1) in
    let longer = split_from line delimiter rounds start (i + 1) in
    if i == length line || get_or line i 0 == delimiter then cut_here else longer

-- `i` runs from 0 to the size of the line.
pub split : Text → ℕ → List Text
unfolding split_from
split line delimiter = split_from line delimiter (length line + 1) 0 0

-- The two loops of `sanitize`; fuel counts their rounds.
pub skip_front : ℕ → Text → ℕ → ℕ → ℕ → ℕ
skip_front zero line skip begin last = begin
skip_front (suc fuel) line skip begin last =
    let rest = skip_front fuel line skip (begin + 1) last in
    if ltb begin last && get_or line begin 0 == skip then rest else begin

pub skip_back : ℕ → Text → ℕ → ℕ → ℕ → ℕ
skip_back zero line skip begin last = last
skip_back (suc fuel) line skip begin last =
    let rest = skip_back fuel line skip begin (last - 1) in
    if ltb begin last && get_or line (last - 1) 0 == skip then rest else last

pub sanitize : Text → ℕ → Text
unfolding skip_front skip_back
sanitize line skip =
    let begin = skip_front (length line) line skip 0 (length line) in
    let last = skip_back (length line) line skip begin (length line) in
    substr line begin (last - begin)

pub data Error : Type 0 where
  -- The program is ill-formed.
  bad_members : Error
  unknown_type bad_header unknown_field_type missing_field no_member : Error

pub data Result (A : Type 0) : Type 0 where
  ok : A → Result A
  throws : Error → Result A

abbrev pub bind : {A B : Type 0} → Result A → (A → Result B) → Result B
bind (ok a) f = f a
bind (throws e) f = throws e

pub data FieldType : Type 0 where
  size_type int_type double_type float_type string_view_type : FieldType

pub string_to_type : Text → Result FieldType
string_to_type name =
    if text_eq name (codes "size_t")
    then ok size_type
    else if text_eq name (codes "int")
    then ok int_type
    else if text_eq name (codes "double")
    then ok double_type
    else if text_eq name (codes "float")
    then ok float_type
    else if text_eq name (codes "std::string_view")
    then ok string_view_type
    else throws unknown_type

-- A member of `Row`: its identifier and its type.
pub record Member : Type 0 where
  pub name : Text
  pub field_type : FieldType

-- The parts of `name.type`.
pub read_pair : List Text → Result Member
unfolding sanitize string_to_type
read_pair (name ∷ type_name ∷ []) =
    bind (string_to_type (sanitize type_name b' '))
      λ t. ok (record { name = sanitize name b' '; field_type = t })
read_pair _ = throws bad_header

pub read_header : Text → Result Member
unfolding split read_pair
read_header header = read_pair (split header b'.')

pub read_headers : List Text → Result (List Member)
unfolding read_header
read_headers [] = ok []
read_headers (header ∷ headers) =
    bind (read_header header) λ m. bind (read_headers headers) λ ms. ok (m ∷ ms)

-- `result * 10 + (c - '0')` in `size_t`
abbrev pub push_digit : ℕ → ℕ → ℕ
push_digit result c = (result * 10 + (c + 2 ^ 64 - b'0')) % 2 ^ 64

abbrev pub digits_value : ℕ → Text → ℕ
digits_value result [] = result
digits_value result (c ∷ s) = digits_value (push_digit result c) s

pub parse_size_t : Text → ℕ
unfolding sanitize
parse_size_t s = digits_value 0 (sanitize s b' ')

pub parse_field : FieldType → Text → Result ℕ
unfolding parse_size_t sanitize
parse_field size_type field = ok (parse_size_t (sanitize field b' '))
parse_field int_type field = throws unknown_field_type
parse_field double_type field = throws unknown_field_type
parse_field float_type field = throws unknown_field_type
parse_field string_view_type field = throws unknown_field_type

-- The loop over the members, with `j` the first of the elements; a row may have more of them.
pub read_cells : List Member → List Text → Result (List ℕ)
unfolding parse_field sanitize
read_cells [] elements = ok []
read_cells (m ∷ members) [] = throws missing_field
read_cells (m ∷ members) (element ∷ elements) =
    bind (parse_field m.field_type (sanitize element b' '))
      λ cell. bind (read_cells members elements) λ cells. ok (cell ∷ cells)

pub read_rows : List Member → List Text → Result (List (List ℕ))
unfolding read_cells split
read_rows members [] = ok []
read_rows members (line ∷ lines) =
    bind (read_cells members (split line b','))
      λ row. bind (read_rows members lines) λ rows. ok (row ∷ rows)

pub record Table : Type 0 where
  pub members : List Member
  pub rows : List (List ℕ)

pub lines_of : Text → List Text
unfolding split sanitize
lines_of csv = split (sanitize csv b'\n') b'\n'

-- Whether `data_member_spec` and `define_aggregate` of the standard library take members of these
-- names, which have to be identifiers that differ, is an argument.
module _ (are_members : List Text → Bool) where
  -- `define_aggregate(^^Row, specs)`
  abbrev pub define_aggregate : List Member → Result (List Member)
  define_aggregate members =
      if are_members (map (λ m. m.name) members) then ok members else throws bad_members

  -- The first line defines `Row`, and each other line is one value of it.
  pub read_lines : List Text → Result Table
  unfolding read_headers read_rows split
  read_lines [] = throws bad_header
  read_lines (headers ∷ lines) = bind (read_headers (split headers b',')) λ specs.
      bind (define_aggregate specs) λ members.
        bind (read_rows members lines) λ rows. ok (record { members = members; rows = rows })

  pub read_table : Text → Result Table
  unfolding lines_of read_lines
  read_table csv = read_lines (lines_of csv)

-- `get<name>(r)`, over the members of the row and its values.
pub get : Text → List Member → List ℕ → Result ℕ
get name [] row = throws no_member
get name (m ∷ members) [] = throws no_member
get name (m ∷ members) (cell ∷ cells) =
    let rest = get name members cells in if text_eq m.name name then ok cell else rest
