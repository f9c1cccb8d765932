-- ===== src/Wire/Text.antt =====
-- The identifier and text validators, `unique` and the error type of
-- native/strategy_core_v3/src/decision_v6.rs (without the error that wraps one of V4). A text is a
-- native string, whose `len` counts bytes of UTF-8; a test that every byte is one of certain ASCII
-- bytes is one on the code points.
use Prim.Native.Char.{code}
use Prim.Native.String
use strategy_core.Common.{
  ℕ, Bool, true, false, not, ◌&&◌, ◌||◌, String, Option, List, [], ◌∷◌, Result, ok, err, is_none_or,
  str_eq, leb, ◌==◌, contains,
}
use strategy_core.Wire.Bounds.{max_identifier_bytes, max_provider_client_id_bytes}

pub data DecisionV6Error : Type 0 where
  encode decode bound_exceeded trailing_bytes : DecisionV6Error
  invalid_contract duplicate_identity non_canonical_order : DecisionV6Error

abbrev pub Checked : Type 0
Checked = Result DecisionV6Error (Unit {0})

abbrev pub codes : String → List ℕ
codes String.[] = []
codes (String.◌∷◌ c s) = code c ∷ codes s

abbrev pub all : (ℕ → Bool) → List ℕ → Bool
all p [] = true
all p (c ∷ cs) = p c && all p cs

abbrev pub is_ascii_digit : ℕ → Bool
is_ascii_digit c = leb b'0' c && leb c b'9'

abbrev pub is_ascii_alphanumeric : ℕ → Bool
is_ascii_alphanumeric c =
    is_ascii_digit c || (leb b'A' c && leb c b'Z') || (leb b'a' c && leb c b'z')

abbrev is_identifier_byte : ℕ → Bool
is_identifier_byte c = is_ascii_alphanumeric c || c == b'_' || c == b'-' || c == b'.' || c == b':'

unfoldable pub valid_identifier : String → Bool
valid_identifier value =
    not (str_eq value "")
    && leb (String.len value) max_identifier_bytes
    && all is_identifier_byte (codes value)

unfoldable pub valid_provider_client_id : String → Bool
valid_provider_client_id value =
    valid_identifier value && leb (String.len value) max_provider_client_id_bytes

abbrev pub valid_optional_identifier : Option String → Bool
valid_optional_identifier value = is_none_or value valid_identifier

unfoldable pub valid_text : String → ℕ → Bool
valid_text value max_bytes = not (str_eq value "") && leb (String.len value) max_bytes

abbrev pub valid_optional_text : Option String → ℕ → Bool
valid_optional_text value max_bytes = is_none_or value (λ text. valid_text text max_bytes)

-- `unique`: the scan with the values seen so far.
unfoldable pub unique_from : List String → List String → Checked
unique_from seen [] = ok tt
unique_from seen (x ∷ xs) = elim (contains x seen) [
  | true ↦ err duplicate_identity
  | false ↦ unique_from (x ∷ seen) xs
]

unfoldable pub unique : List String → Checked
unfolding unique_from
unique xs = unique_from [] xs
