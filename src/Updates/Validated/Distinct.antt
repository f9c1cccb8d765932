-- ===== src/Updates/Validated/Distinct.antt =====
-- The lists without repetition of the runner section's validator (`unique` and the client ids of
-- `validate_runner_section` in native/strategy_core_v3/src/decision_v6.rs).
use strategy_core.Common.{
  ◌≡◌, ◌⊎◌, ◌↔◌, refl, sym, inl, inr, false, String, Option, none, some, List, [], ◌∷◌, contains,
  All, arith, ok, Bool-cases, str_eq, eq_iff, subst, if◌then◌else◌,
}
use strategy_core.Wire.Orders.{BrokerCommandKindV6, RunnerEntryV6, is_place}
use strategy_core.Wire.Text.{unique, unique_from}
use strategy_core.Wire.Runner.{place_client_ids}
use strategy_core.Updates.Lookup.{unique_from-head}

-- No text stands in a list twice.
abbrev pub NoRepeat : List String → Type 0
NoRepeat [] = Unit
NoRepeat (id ∷ ids) = (contains id ids ≡ false) × NoRepeat ids

-- The entry is of a place with the client order id.
abbrev pub PlaceOf : String → RunnerEntryV6 → Type 0
PlaceOf id e = (e.kind ≡ BrokerCommandKindV6.place_order) × (e.client_order_id ≡ some id)

-- No two places have one client order id.
pub data OncePlaced : List RunnerEntryV6 → Type 0 where
  nothing : OncePlaced []
  place :
      (id : String) (e : RunnerEntryV6) (es : List RunnerEntryV6)
      → PlaceOf id e
      → All (λ f. ¬ (PlaceOf id f)) es
      → OncePlaced es
      → OncePlaced (e ∷ es)
  other :
      (e : RunnerEntryV6) (es : List RunnerEntryV6)
      → ((id : String) → ¬ (PlaceOf id e))
      → OncePlaced es
      → OncePlaced (e ∷ es)

abbrev Unseen : List String → List String → Type 0
Unseen seen ids = All (λ id. contains id seen ≡ false) ids

str_eq-flip : (x y : String) → str_eq y x ≡ false → str_eq x y ≡ false
str_eq-flip x y h = elim (Bool-cases (str_eq x y)) [
  | inl same ↦ let other = (eq_iff y x).1 (sym ((eq_iff x y).0 same)) in cc
  | inr differ ↦ differ
]

Unseen-once :
    (x : String) (seen ids : List String)
    → Unseen (x ∷ seen) ids
    → (contains x ids ≡ false) × Unseen seen ids
Unseen-once x seen [] unseen = (refl, tt)
Unseen-once x seen (y ∷ ys) (first, unseen) =
    let rest = Unseen-once x seen ys unseen in
    let flipped = str_eq-flip y x (ground (arith, first)) in
    (ground (arith, flipped, rest.0), (ground (arith, first), rest.1))

contains-swap :
    (x : String) (seen ids : List String)
    → contains x seen ≡ false
    → contains x ids ≡ false
    → Unseen seen ids
    → Unseen (x ∷ seen) ids
contains-swap x seen [] new once unseen = tt
contains-swap x seen (y ∷ ys) new once (first, unseen) =
    let flipped = str_eq-flip x y (ground (arith, once)) in
    (ground (arith, flipped, first), contains-swap x seen ys new (ground (arith, once)) unseen)

unique_from-NoRepeat :
    (seen ids : List String) → unique_from seen ids ≡ ok tt → NoRepeat ids × Unseen seen ids
unique_from-NoRepeat seen [] u = (tt, tt)
unique_from-NoRepeat seen (x ∷ xs) u =
    let (new, later) = unique_from-head seen x xs u in
    let (rest, unseen) = unique_from-NoRepeat (x ∷ seen) xs later in
    let (once, earlier) = Unseen-once x seen xs unseen in ((once, rest), (new, earlier))

All-Unseen : (ids : List String) → Unseen [] ids
All-Unseen [] = tt
All-Unseen (id ∷ ids) = (refl, All-Unseen ids)

NoRepeat-unique_from :
    (seen ids : List String) → NoRepeat ids → Unseen seen ids → unique_from seen ids ≡ ok tt
unfolding unique_from
NoRepeat-unique_from seen [] once unseen = refl
NoRepeat-unique_from seen (x ∷ xs) (new, once) (first, unseen) =
    rw (first, unique_from)
      (NoRepeat-unique_from (x ∷ seen) xs once (contains-swap x seen xs first new unseen))

kind_client-cases :
    (k : BrokerCommandKindV6) (o : Option String)
    → ((id : String) × ((k ≡ BrokerCommandKindV6.place_order) × (o ≡ some id)))
      ⊎ ((id : String) → ¬ ((k ≡ BrokerCommandKindV6.place_order) × (o ≡ some id)))
kind_client-cases BrokerCommandKindV6.place_order (some id) = inl (id, (refl, refl))
kind_client-cases BrokerCommandKindV6.place_order none = inr (λ id h. cc (h.1))
kind_client-cases _ _ = inr (λ id h. cc (h.0))

place-cases :
    (e : RunnerEntryV6) → ((id : String) × PlaceOf id e) ⊎ ((id : String) → ¬ (PlaceOf id e))
place-cases e = kind_client-cases e.kind e.client_order_id

place_client_ids-place :
    (id : String) (e : RunnerEntryV6) (es : List RunnerEntryV6)
    → PlaceOf id e
    → place_client_ids (e ∷ es) ≡ id ∷ place_client_ids es
unfolding place_client_ids
place_client_ids-place id e es (kind, client) = rw (client, kind) refl

ids-other :
    (k : BrokerCommandKindV6) (o : Option String) (es : List RunnerEntryV6)
    → ((id : String) → ¬ ((k ≡ BrokerCommandKindV6.place_order) × (o ≡ some id)))
    → elim o [
      | none ↦ place_client_ids es
      | some client ↦ if is_place k then client ∷ place_client_ids es else place_client_ids es
    ]
      ≡ place_client_ids es
ids-other BrokerCommandKindV6.place_order (some id) es h = absurd (h id (refl, refl))
ids-other _ none es h = refl
ids-other _ (some id) es h = refl

place_client_ids-other :
    (e : RunnerEntryV6) (es : List RunnerEntryV6)
    → ((id : String) → ¬ (PlaceOf id e))
    → place_client_ids (e ∷ es) ≡ place_client_ids es
place_client_ids-other e es h = unfold place_client_ids in ids-other e.kind e.client_order_id es h

-- A text is the client order id of no place of the list, in both readings.
contains-place_client_ids :
    (id : String) (es : List RunnerEntryV6)
    → (contains id (place_client_ids es) ≡ false) ↔ All (λ f. ¬ (PlaceOf id f)) es
contains-place_client_ids id [] = unfold place_client_ids in (λ h. tt, λ h. refl)
contains-place_client_ids id (e ∷ es) =
    let rest = contains-place_client_ids id es in
    elim (place-cases e) [
      | inl (client, own) ↦ rw (place_client_ids-place client e es own) (
        λ h. (
          λ same.
              let mine = own.1 in
              let theirs = same.1 in
              let equal : client ≡ id = cc in
              let hit = (eq_iff client id).1 equal in
              let none_found = h in absurd (ground (arith, hit, none_found)),
          rest.0 (ground (arith, h)),
        ),
        λ h. elim (Bool-cases (str_eq client id)) [
          | inl same ↦ absurd (h.0 (subst (λ t. PlaceOf t e) ((eq_iff client id).0 same) own))
          | inr differ ↦ let later = rest.1 (h.1) in ground (arith, differ, later)
        ],
      )
      | inr none_there ↦
          rw (place_client_ids-other e es none_there)
            (λ h. (none_there id, rest.0 h), λ h. rest.1 h.1)
    ]

NoRepeat-OncePlaced : (es : List RunnerEntryV6) → NoRepeat (place_client_ids es) → OncePlaced es
NoRepeat-OncePlaced [] once = OncePlaced.nothing
NoRepeat-OncePlaced (e ∷ es) once = elim (place-cases e) [
  | inl (client, own) ↦
      let (first, later) = subst NoRepeat (place_client_ids-place client e es own) once in
      OncePlaced.place client e es own ((contains-place_client_ids client es).0 first)
        (NoRepeat-OncePlaced es later)
  | inr none_there ↦
      OncePlaced.other e es none_there
        (NoRepeat-OncePlaced es (subst NoRepeat (place_client_ids-other e es none_there) once))
]

OncePlaced-NoRepeat : (es : List RunnerEntryV6) → OncePlaced es → NoRepeat (place_client_ids es)
OncePlaced-NoRepeat _ OncePlaced.nothing = unfold place_client_ids in tt
OncePlaced-NoRepeat _ (OncePlaced.place client e es own others later) =
    rw (place_client_ids-place client e es own)
      ((contains-place_client_ids client es).1 others, OncePlaced-NoRepeat es later)
OncePlaced-NoRepeat _ (OncePlaced.other e es none_there later) =
    rw (place_client_ids-other e es none_there) (OncePlaced-NoRepeat es later)

pub unique-NoRepeat : (ids : List String) → (unique ids ≡ ok tt) ↔ NoRepeat ids
unfolding unique
unique-NoRepeat ids = (
  λ u. (unique_from-NoRepeat [] ids u).0,
  λ once. NoRepeat-unique_from [] ids once (All-Unseen ids),
)

pub unique-OncePlaced :
    (es : List RunnerEntryV6) → (unique (place_client_ids es) ≡ ok tt) ↔ OncePlaced es
unique-OncePlaced es =
    let once = unique-NoRepeat (place_client_ids es) in
    (λ u. NoRepeat-OncePlaced es (once.0 u), λ h. once.1 (OncePlaced-NoRepeat es h))
