-- ===== src/Operation/Symbol/Laws.antt =====
-- Parsing a symbol and printing it (operation/symbol.go).
use batch_weaver.Base.{
  ℕ, ◌≡◌, refl, sym, ap, ◌∙◌, inl, inr, Bool, true, false, ◌||◌, [], ◌∷◌, ◌++◌, Option, none, some,
  arith, Bytes, ◌==◌, Bool-cases, Option-cases, is_empty, guards, or_else, or_else-none, Result, ok,
  err,
}
use batch_weaver.Operation.Text.{contains_any, contains, cut, cut_last}
use batch_weaver.Operation.Text.Laws.{IsCons, IsCutOf, eq_byte, cut-IsCutOf, cut_last-IsCutOf}
use batch_weaver.Operation.Symbol.{
  SymbolError, Symbol, no_symbol, validate_import_path, validate_go_identifier, checked,
  function_symbol, parse_function_symbol, strip_star, without_star, method_symbol,
  parse_method_symbol, symbol_shape, parse_symbol, print_symbol,
}

abbrev symbol_of : Result SymbolError Symbol → Symbol
symbol_of (ok s) = s
symbol_of (err _) = no_symbol

ok_symbol : (s t : Symbol) → Path (Result SymbolError Symbol) (ok s) (ok t) → s ≡ t
ok_symbol s t h = ap symbol_of h

-- The parse, if it succeeds, gives a symbol that prints as the value.
abbrev IsParseOf : Bytes → Result SymbolError Symbol → Type 0
IsParseOf v r = (s : Symbol) → r ≡ ok s → print_symbol s ≡ v

checked-IsParseOf :
    (v : Bytes) (o : Option SymbolError) (t : Symbol)
    → (o ≡ none → print_symbol t ≡ v)
    → IsParseOf v (checked o t)
checked-IsParseOf v none t f s h = ap print_symbol (sym (ok_symbol t s h)) ∙ f refl
checked-IsParseOf v (some e) t f s h = cc

validate_go_identifier-IsCons : (s : Bytes) → validate_go_identifier s ≡ none → IsCons s
unfolding validate_go_identifier
validate_go_identifier-IsCons [] h = ground (arith, h)
validate_go_identifier-IsCons (c ∷ s) h = refl

function_symbol-IsParseOf :
    (v : Bytes) (o : Option (Bytes × Bytes))
    → IsCutOf (46 ∷ []) v o
    → IsParseOf v (function_symbol o)
unfolding print_symbol
function_symbol-IsParseOf v none k s h = cc
function_symbol-IsParseOf v (some (path, name)) k s h =
    checked-IsParseOf v
      (or_else (guards ((is_empty path || is_empty name, SymbolError.no_name) ∷ []))
        (or_else (validate_import_path path) (validate_go_identifier name)))
      record { import_path = path; receiver = []; name = name; pointer = false }
      (λ _. k (path, name) refl) s h

print-starred :
    (path name s : Bytes) (c : ℕ) (b : Bool)
    → (c == 42) ≡ b
    → IsCons (without_star c s b).0
    → print_symbol record {
      import_path = path;
      receiver = (without_star c s b).0;
      name = name;
      pointer = (without_star c s b).1;
    }
      ≡ path ++ (46 ∷ 40 ∷ c ∷ (s ++ (41 ∷ 46 ∷ name)))
unfolding print_symbol
print-starred path name s c true e k =
    rw (k, print_symbol)
      (ap (λ d. path ++ (46 ∷ 40 ∷ d ∷ (s ++ (41 ∷ 46 ∷ name)))) (eq_byte c 42 e))
print-starred path name s c false e k = refl

-- With a receiver, a symbol prints with it, and with its star.
print-receiver :
    (path name recv : Bytes)
    → IsCons (strip_star recv).0
    → print_symbol record {
      import_path = path;
      receiver = (strip_star recv).0;
      name = name;
      pointer = (strip_star recv).1;
    }
      ≡ path ++ (46 ∷ 40 ∷ (recv ++ (41 ∷ 46 ∷ name)))
print-receiver path name [] k = ground (arith, k)
print-receiver path name (c ∷ s) k = print-starred path name s c (c == 42) refl k

-- The rest is a receiver and a name around ").".
method_symbol-IsParseOf :
    (v path rest : Bytes) (o : Option (Bytes × Bytes))
    → path ++ (46 ∷ 40 ∷ rest) ≡ v
    → IsCutOf (41 ∷ 46 ∷ []) rest o
    → IsParseOf v (method_symbol path o)
method_symbol-IsParseOf v path rest none e k s h = cc
method_symbol-IsParseOf v path rest (some (recv, name)) e k s h =
    let bad_name = guards ((contains_any (40 ∷ 41 ∷ 46 ∷ []) name, SymbolError.method_name) ∷ []) in
    let identifiers =
      or_else (validate_go_identifier (strip_star recv).0) (validate_go_identifier name) in
    checked-IsParseOf v (or_else bad_name identifiers)
      record {
        import_path = path;
        receiver = (strip_star recv).0;
        name = name;
        pointer = (strip_star recv).1;
      }
      (λ g.
        print-receiver path name recv (
          validate_go_identifier-IsCons (strip_star recv).0
            (or_else-none (validate_go_identifier (strip_star recv).0) (validate_go_identifier name)
              (or_else-none bad_name identifiers g).1).0)
        ∙ (ap (λ r. path ++ (46 ∷ 40 ∷ r)) (k (recv, name) refl) ∙ e))
      s h

parse_method_symbol-IsParseOf :
    (v : Bytes) (o : Option (Bytes × Bytes))
    → IsCutOf (46 ∷ 40 ∷ []) v o
    → IsParseOf v (parse_method_symbol o)
unfolding parse_method_symbol
parse_method_symbol-IsParseOf v none k s h = cc
parse_method_symbol-IsParseOf v (some (path, rest)) k s h =
    elim (Option-cases (validate_import_path path)) [
      | inl e ↦
          method_symbol-IsParseOf v path rest (cut (41 ∷ 46 ∷ []) rest) (k (path, rest) refl)
            (cut-IsCutOf (41 ∷ 46 ∷ []) rest) s (ground (arith, e, h))
      | inr (x, e) ↦ ground (arith, e, h)
    ]

parse_function_symbol-IsParseOf : (v : Bytes) → IsParseOf v (parse_function_symbol v)
unfolding parse_function_symbol
parse_function_symbol-IsParseOf v s h = elim (Bool-cases (contains_any (40 ∷ 41 ∷ []) v)) [
  | inl e ↦ ground (arith, e, h)
  | inr e ↦
      function_symbol-IsParseOf v (cut_last 46 v) (cut_last-IsCutOf 46 v) s (ground (arith, e, h))
]

-- A symbol that is parsed prints as the value that it was parsed from.
pub print_symbol-parse_symbol :
    (v : Bytes) (s : Symbol) → parse_symbol v ≡ ok s → print_symbol s ≡ v
unfolding parse_symbol
print_symbol-parse_symbol v s h = elim (Option-cases (guards (symbol_shape v))) [
  | inl e ↦ elim (Bool-cases (contains (46 ∷ 40 ∷ []) v)) [
    | inl k ↦
        parse_method_symbol-IsParseOf v (cut (46 ∷ 40 ∷ []) v) (cut-IsCutOf (46 ∷ 40 ∷ []) v) s
          (ground (arith, e, k, h))
    | inr k ↦ parse_function_symbol-IsParseOf v s (ground (arith, e, k, h))
  ]
  | inr (x, e) ↦ ground (arith, e, h)
]
