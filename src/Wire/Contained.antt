-- ===== src/Wire/Contained.antt =====
-- Where a valid HTTP path of an external request leads (`valid_http_path` in
-- native/strategy_core_v3/src/decision_v6.rs).
use strategy_core.Common.{
  ℕ, ◌≡◌, refl, sym, ap, ◌∙◌, ◌++◌, inl, inr, Bool, true, false, ◌&&◌, ◌||◌, String, List, [], ◌∷◌,
  map, ok, arith, Bool-cases, ◌==◌,
}
use strategy_core.Wire.Commands.{HttpMethodV6, ExternalRequestKindV6, StrategyCommandV6}
use strategy_core.Wire.Text.{codes}
use strategy_core.Wire.Request.{
  request_bytes, validate_external_request, validate_kind, validate_command,
}
use strategy_core.Wire.Paths.{
  split, route_of, lowered, contains_codes, encoded_dot, is_prefix, is_dot, is_dot_dot, no_dots,
  valid_http_codes, valid_http_path,
}

-- A percent-encoded dot, in either case, as URL parsers read it.
abbrev is_encoded : ℕ → ℕ → ℕ → Bool
is_encoded a b c = (a == b'%') && (b == b'2') && (c == b'e' || c == b'E')

-- The path with its encoded dots read as dots.
unfoldable pub decode_dots : List ℕ → List ℕ
decode_dots [] = []
decode_dots (a ∷ []) = a ∷ []
decode_dots (a ∷ b ∷ []) = a ∷ b ∷ []
decode_dots (a ∷ b ∷ c ∷ cs) = elim (is_encoded a b c) [
  | true ↦ b'.' ∷ decode_dots cs
  | false ↦ a ∷ decode_dots (b ∷ c ∷ cs)
]

-- The segments that a URL parser leaves, last first: `.` stays in place and `..` goes up.
unfoldable pub resolve : List (List ℕ) → List (List ℕ) → List (List ℕ)
resolve kept [] = kept
resolve kept (s ∷ segments) = elim (is_dot s) [
  | true ↦ resolve kept segments
  | false ↦ elim (is_dot_dot s) [
    | true ↦ resolve (elim kept [ [] ↦ [] | _ ∷ up ↦ up ]) segments
    | false ↦ resolve (s ∷ kept) segments
  ]
]

-- The segments put after those kept, last first.
abbrev pub below : List (List ℕ) → List (List ℕ) → List (List ℕ)
below kept [] = kept
below kept (s ∷ segments) = below (s ∷ kept) segments

decode_dots-eq :
    (cs : List ℕ) → contains_codes encoded_dot (map lowered cs) ≡ false → decode_dots cs ≡ cs
unfolding decode_dots contains_codes
decode_dots-eq [] h = refl
decode_dots-eq (a ∷ []) h = refl
decode_dots-eq (a ∷ b ∷ []) h = refl
decode_dots-eq (a ∷ b ∷ c ∷ cs) h = elim (Bool-cases (is_encoded a b c)) [
  | inl encoded ↦ absurd (ground arith)
  | inr plain ↦
      rw (plain, decode_dots) (ap (λ rest. a ∷ rest) (decode_dots-eq (b ∷ c ∷ cs) (ground arith)))
]

resolve-below :
    (kept segments : List (List ℕ))
    → no_dots segments ≡ true
    → resolve kept segments ≡ below kept segments
unfolding resolve
resolve-below kept [] h = refl
resolve-below kept (s ∷ segments) h =
    let first : is_dot s ≡ false = ground arith in
    let second : is_dot_dot s ≡ false = ground arith in
    rw (first, second, resolve) (resolve-below (s ∷ kept) segments (ground arith))

-- The segments of a text, the first with the others.
abbrev pub segments : List ℕ → List (List ℕ)
segments cs = let (first, others) = split b'/' cs in first ∷ others

abbrev head_of : List (List ℕ) → List ℕ
head_of [] = []
head_of (s ∷ rest) = s

abbrev tail_of : List (List ℕ) → List (List ℕ)
tail_of [] = []
tail_of (s ∷ rest) = rest

segments-append :
    (base rest : List ℕ) → segments (base ++ b'/' ∷ rest) ≡ segments base ++ segments rest
unfolding split
segments-append [] rest = refl
segments-append (c ∷ base) rest =
    let later = segments-append base rest in
    elim (Bool-cases (c == b'/')) [
      | inl slash ↦ rw (slash, split) (ap (λ (l : List (List ℕ)). [] ∷ l) later)
      | inr other ↦
          rw (other, split) (ap (λ (l : List (List ℕ)). (c ∷ head_of l) ∷ tail_of l) later)
    ]

resolve-append :
    (kept xs ys : List (List ℕ)) → resolve kept (xs ++ ys) ≡ resolve (resolve kept xs) ys
unfolding resolve
resolve-append kept [] ys = refl
resolve-append kept (s ∷ xs) ys = elim (Bool-cases (is_dot s)) [
  | inl here ↦ rw (here, resolve) (resolve-append kept xs ys)
  | inr other ↦ elim (Bool-cases (is_dot_dot s)) [
    | inl up ↦ rw (other, up, resolve) (resolve-append (elim kept [ [] ↦ [] | _ ∷ up ↦ up ]) xs ys)
    | inr name ↦ rw (other, name, resolve) (resolve-append (s ∷ kept) xs ys)
  ]
]

-- A path that starts with a single slash.
abbrev pub Rooted : List ℕ → Type 0
Rooted path = (rest : List ℕ) × (path ≡ b'/' ∷ rest) × (is_prefix (b'/' ∷ []) rest ≡ false)

valid_http_codes-Rooted : (path : List ℕ) → valid_http_codes path ≡ true → Rooted path
unfolding valid_http_codes
valid_http_codes-Rooted [] h = cc
valid_http_codes-Rooted (c ∷ rest) h =
    let slash : c ≡ b'/' = ground arith in (rest, ap (λ x. x ∷ rest) slash, ground arith)

-- The segments after the first, of a route that starts with a slash.
route-segments :
    (rest : List ℕ)
    → (route_of (b'/' ∷ rest) ≡ b'/' ∷ route_of rest)
      × ((split b'/' (b'/' ∷ route_of rest)).1 ≡ segments (route_of rest))
unfolding route_of split
route-segments rest = (refl, refl)

resolve-valid_http_codes :
    (base path : List ℕ)
    → valid_http_codes path ≡ true
    → resolve [] (segments (base ++ decode_dots (route_of path)))
      ≡ below (resolve [] (segments base)) (split b'/' (route_of path)).1
unfolding valid_http_codes
resolve-valid_http_codes base path valid =
    let (rest, rooted, single) = valid_http_codes-Rooted path valid in
    let plain = decode_dots-eq (route_of path) (ground arith) in
    let (route, others) = route-segments rest in
    let same : route_of path ≡ b'/' ∷ route_of rest = ap route_of rooted ∙ route in
    let tail : (split b'/' (route_of path)).1 ≡ segments (route_of rest) =
      ap (λ r. (split b'/' r).1) same ∙ others in
    ap (λ r. resolve [] (segments (base ++ r))) (plain ∙ same)
    ∙ ap (resolve []) (segments-append base (route_of rest))
    ∙ resolve-append [] (segments base) (segments (route_of rest))
    ∙ ap (resolve (resolve [] (segments base))) (sym tail)
    ∙ resolve-below (resolve [] (segments base)) (split b'/' (route_of path)).1 (ground arith)

external_path :
    (id target path : String) (method : HttpMethodV6) (payload : List ℕ) (timeout_ms : ℕ)
    → validate_command (
        StrategyCommandV6.external_request id
          (ExternalRequestKindV6.http method path)
          target
          payload
          timeout_ms)
      ≡ ok tt
    → valid_http_codes (codes path) ≡ true
unfolding validate_command validate_kind validate_external_request request_bytes valid_http_path
external_path id target path method payload timeout_ms h = ground arith

-- The path of an HTTP request that passes the command check starts with a single slash. Appended to
-- any base URL's path and resolved as URL parsers do (the path's encoded dots read as dots, `.` in
-- place and `..` up), it gives the segments that the base resolves to, followed by the path's own, in
-- order: it never leads above the base, nor changes the base's last segment.
pub resolve-validate_command :
    (base : List ℕ) (id target path : String) (method : HttpMethodV6) (payload : List ℕ)
    (timeout_ms : ℕ)
    → validate_command (
        StrategyCommandV6.external_request id
          (ExternalRequestKindV6.http method path)
          target
          payload
          timeout_ms)
      ≡ ok tt
    → Rooted (codes path)
      × (resolve [] (segments (base ++ decode_dots (route_of (codes path))))
          ≡ below (resolve [] (segments base)) (split b'/' (route_of (codes path))).1)
resolve-validate_command base id target path method payload timeout_ms valid =
    let good = external_path id target path method payload timeout_ms valid in
    (valid_http_codes-Rooted (codes path) good, resolve-valid_http_codes base (codes path) good)
