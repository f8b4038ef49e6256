-- ===== src/Operation/Symbol.antt =====
-- operation/symbol.go: the Go symbols that a configuration refers to. The messages of the errors are
-- not told apart further than their causes.
pub mod Laws
use batch_weaver.Base.{
  ℕ, zero, suc, Bool, true, false, not, ◌&&◌, ◌||◌, List, [], ◌∷◌, ◌++◌, Option, none, some, Bytes,
  bytes_eq, ltb, ◌==◌, any, is_empty, guards, or_else, if◌then◌else◌, Result, ok, err,
}
use batch_weaver.Operation.Text.{
  is_lower, is_upper, is_digit, contains_any, contains, split, cut, cut_last, after_prefix,
}

pub data SymbolError : Type 0 where
  empty whitespace control parentheses no_name no_path absolute relative : SymbolError
  filesystem path_segment path_character receiver method_name no_identifier : SymbolError

pub record Symbol : Type 0 where
  pub import_path : Bytes
  pub receiver : Bytes
  pub name : Bytes
  pub pointer : Bool

abbrev pub no_symbol : Symbol
no_symbol = record { import_path = []; receiver = []; name = []; pointer = false }

-- `Symbol.IsZero`
unfoldable pub is_no_symbol : Symbol → Bool
is_no_symbol s =
    is_empty s.import_path && (is_empty s.receiver && (is_empty s.name && not s.pointer))

abbrev pub is_import_path_rune : ℕ → Bool
is_import_path_rune c =
    is_lower c || (is_upper c || (is_digit c || (c == 46 || (c == 95 || (c == 45 || c == 126)))))

-- One segment of an import path: "", "." and ".." are refused, then other characters.
abbrev pub check_path_segment : Bytes → Option SymbolError
check_path_segment s = guards (
    (is_empty s || (bytes_eq s (46 ∷ []) || bytes_eq s (46 ∷ 46 ∷ [])), SymbolError.path_segment)
    ∷ (any (λ c. not (is_import_path_rune c)) s, SymbolError.path_character)
    ∷ [])

unfoldable pub check_path_segments : List Bytes → Option SymbolError
unfolding bytes_eq
check_path_segments [] = none
check_path_segments (s ∷ ss) = or_else (check_path_segment s) (check_path_segments ss)

abbrev pub starts_with : ℕ → Bytes → Bool
starts_with d [] = false
starts_with d (c ∷ s) = c == d

unfoldable pub validate_import_path : Bytes → Option SymbolError
unfolding check_path_segments split
validate_import_path path =
    or_else
      (guards (
        (is_empty path, SymbolError.no_path)
        ∷ (starts_with 47 path, SymbolError.absolute)
        ∷ (starts_with 46 path, SymbolError.relative)
        ∷ (contains_any (92 ∷ 58 ∷ []) path, SymbolError.filesystem)
        ∷ []))
      (check_path_segments (split 47 path))

-- The loop of `validateGoIdentifier` from index `i` on.
unfoldable pub is_identifier_from : ℕ → Bytes → Bool
is_identifier_from i [] = true
is_identifier_from i (c ∷ s) =
    (c == 95 || (is_lower c || (is_upper c || (ltb 0 i && is_digit c))))
    && is_identifier_from (suc i) s

unfoldable pub validate_go_identifier : Bytes → Option SymbolError
unfolding is_identifier_from
validate_go_identifier s =
    guards ((is_empty s || not (is_identifier_from 0 s), SymbolError.no_identifier) ∷ [])

-- The checks that end a parse, and the symbol if they pass.
abbrev pub checked : Option SymbolError → Symbol → Result SymbolError Symbol
checked (some e) s = err e
checked none s = ok s

-- `parseFunctionSymbol`, past its test of parentheses: the value is cut at its last dot, which is
-- neither first nor last.
abbrev pub function_symbol : Option (Bytes × Bytes) → Result SymbolError Symbol
function_symbol none = err SymbolError.no_name
function_symbol (some (path, name)) =
    checked
      (or_else (guards ((is_empty path || is_empty name, SymbolError.no_name) ∷ []))
        (or_else (validate_import_path path) (validate_go_identifier name)))
      record { import_path = path; receiver = []; name = name; pointer = false }

unfoldable pub parse_function_symbol : Bytes → Result SymbolError Symbol
unfolding cut_last validate_import_path validate_go_identifier
parse_function_symbol value =
    if contains_any (40 ∷ 41 ∷ []) value
    then err SymbolError.parentheses
    else function_symbol (cut_last 46 value)

abbrev pub without_star : ℕ → Bytes → Bool → Bytes × Bool
without_star c s true = (s, true)
without_star c s false = (c ∷ s, false)

-- The receiver without its star, and whether it had one.
abbrev pub strip_star : Bytes → Bytes × Bool
strip_star [] = ([], false)
strip_star (c ∷ s) = without_star c s (c == 42)

-- `parseMethodSymbol`, from the import path and the cut of the rest at ").".
abbrev pub method_symbol : Bytes → Option (Bytes × Bytes) → Result SymbolError Symbol
method_symbol path none = err SymbolError.receiver
method_symbol path (some (recv, name)) =
    checked
      (or_else (guards ((contains_any (40 ∷ 41 ∷ 46 ∷ []) name, SymbolError.method_name) ∷ []))
        (or_else (validate_go_identifier (strip_star recv).0) (validate_go_identifier name)))
      record {
        import_path = path;
        receiver = (strip_star recv).0;
        name = name;
        pointer = (strip_star recv).1;
      }

-- `parseMethodSymbol`, from the cut of the value at ".(".
unfoldable pub parse_method_symbol : Option (Bytes × Bytes) → Result SymbolError Symbol
unfolding cut validate_import_path validate_go_identifier
parse_method_symbol none = err SymbolError.parentheses
parse_method_symbol (some (path, rest)) =
    let parsed = method_symbol path (cut (41 ∷ 46 ∷ []) rest) in
    elim (validate_import_path path) [ some e ↦ err e | none ↦ parsed ]

abbrev pub is_control : ℕ → Bool
is_control c = ltb c 32 || c == 127

abbrev pub symbol_shape : Bytes → List (Bool × SymbolError)
symbol_shape value =
    (is_empty value, SymbolError.empty)
    ∷ (contains_any (32 ∷ 9 ∷ 13 ∷ 10 ∷ []) value, SymbolError.whitespace)
    ∷ (any is_control value, SymbolError.control)
    ∷ []

unfoldable pub parse_symbol : Bytes → Result SymbolError Symbol
unfolding cut parse_method_symbol parse_function_symbol
parse_symbol value =
    let method = parse_method_symbol (cut (46 ∷ 40 ∷ []) value) in
    let function = parse_function_symbol value in
    elim (guards (symbol_shape value)) [
      | some e ↦ err e
      | none ↦ if contains (46 ∷ 40 ∷ []) value then method else function
    ]

-- `Symbol.String`
unfoldable pub print_symbol : Symbol → Bytes
print_symbol s =
    if is_empty s.receiver
    then s.import_path ++ (46 ∷ s.name)
    else if s.pointer
    then s.import_path ++ (46 ∷ 40 ∷ 42 ∷ (s.receiver ++ (41 ∷ 46 ∷ s.name)))
    else s.import_path ++ (46 ∷ 40 ∷ (s.receiver ++ (41 ∷ 46 ∷ s.name)))

-- `Symbol.Validate`
unfoldable pub validate_symbol : Symbol → Option SymbolError
unfolding is_no_symbol parse_symbol print_symbol
validate_symbol s =
    if is_no_symbol s
    then some SymbolError.empty
    else elim (parse_symbol (print_symbol s)) [ ok _ ↦ none | err e ↦ some e ]
