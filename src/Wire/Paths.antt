-- ===== src/Wire/Paths.antt =====
-- The HTTP path of an external request (`valid_http_path` in
-- native/strategy_core_v3/src/decision_v6.rs), as the list of its code points: a path that passes
-- is ASCII, whose bytes they are.
use Prim.Native.String
use strategy_core.Common.{
  ℕ, ◌+◌, Bool, true, false, not, ◌&&◌, ◌||◌, String, List, [], ◌∷◌, map, leb, ◌==◌, if◌then◌else◌,
}
use strategy_core.Wire.Bounds.{max_http_path_bytes}
use strategy_core.Wire.Text.{codes, all}

-- `split(separator)`: the first part and the others.
unfoldable pub split : ℕ → List ℕ → List ℕ × List (List ℕ)
split separator [] = ([], [])
split separator (c ∷ cs) =
    let (first, others) = split separator cs in
    if c == separator then ([], first ∷ others) else (c ∷ first, others)

-- `path.split('?').next()`
unfoldable pub route_of : List ℕ → List ℕ
unfolding split
route_of path = (split b'?' path).0

-- `to_ascii_lowercase`
abbrev pub lowered : ℕ → ℕ
lowered c = if leb b'A' c && leb c b'Z' then c + 32 else c

abbrev pub is_prefix : List ℕ → List ℕ → Bool
is_prefix [] cs = true
is_prefix (p ∷ ps) [] = false
is_prefix (p ∷ ps) (c ∷ cs) = (c == p) && is_prefix ps cs

-- `contains` of a text
unfoldable pub contains_codes : List ℕ → List ℕ → Bool
contains_codes p [] = is_prefix p []
contains_codes p (c ∷ cs) = is_prefix p (c ∷ cs) || contains_codes p cs

abbrev pub encoded_dot : List ℕ
encoded_dot = b'%' ∷ b'2' ∷ b'e' ∷ []

abbrev pub is_ascii_graphic : ℕ → Bool
is_ascii_graphic c = leb b'!' c && leb c b'~'

abbrev pub path_byte : ℕ → Bool
path_byte c = is_ascii_graphic c && not (c == b'\\' || c == b'#')

abbrev pub is_dot : List ℕ → Bool
is_dot (a ∷ []) = a == b'.'
is_dot _ = false

abbrev pub is_dot_dot : List ℕ → Bool
is_dot_dot (a ∷ b ∷ []) = (a == b'.') && (b == b'.')
is_dot_dot _ = false

-- `all(|segment| segment != "." && segment != "..")`
abbrev pub no_dots : List (List ℕ) → Bool
no_dots [] = true
no_dots (s ∷ segments) = not (is_dot s) && not (is_dot_dot s) && no_dots segments

unfoldable pub valid_http_codes : List ℕ → Bool
unfolding contains_codes route_of split
valid_http_codes path =
    is_prefix (b'/' ∷ []) path
    && not (is_prefix (b'/' ∷ b'/' ∷ []) path)
    && all path_byte path
    && not (contains_codes encoded_dot (map lowered (route_of path)))
    && no_dots (split b'/' (route_of path)).1

unfoldable pub valid_http_path : String → Bool
unfolding valid_http_codes
valid_http_path path = leb (String.len path) max_http_path_bytes && valid_http_codes (codes path)
