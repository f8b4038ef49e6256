-- ===== src/Operation/Contracts.antt =====
-- operation/contract.go: the key contract and extensions.
use batch_weaver.Base.{
  Bool, not, ◌&&◌, [], ◌∷◌, Option, none, Bytes, is_empty, guards, if◌then◌else◌, if◌then◌else◌,
}
use batch_weaver.Operation.Text.{contains_any, contains}
use batch_weaver.Operation.Symbol.{Symbol, SymbolError, is_no_symbol, validate_symbol}

pub record KeyContract : Type 0 where
  pub comparable : Bool
  pub canonical_key_symbol : Symbol

-- A symbol that may be left out is validated when it is given.
abbrev pub validate_given : Symbol → Option SymbolError
validate_given s = if is_no_symbol s then none else validate_symbol s

-- `KeyContract.Validate`
unfoldable pub validate_key : KeyContract → Option SymbolError
unfolding is_no_symbol validate_symbol
validate_key c = validate_given c.canonical_key_symbol

pub record Extension : Type 0 where
  pub namespace : Bytes
  pub data_of : Bytes

pub data ExtensionError : Type 0 where
  empty whitespace not_namespaced : ExtensionError

unfoldable pub validate_extension : Extension → Option ExtensionError
unfolding contains
validate_extension e = guards (
    (is_empty e.namespace, ExtensionError.empty)
    ∷ (contains_any (32 ∷ 9 ∷ 13 ∷ 10 ∷ []) e.namespace, ExtensionError.whitespace)
    ∷ (
      not (contains (47 ∷ []) e.namespace) && not (contains (46 ∷ []) e.namespace),
      ExtensionError.not_namespaced,
    )
    ∷ [])
