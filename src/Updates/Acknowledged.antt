-- ===== src/Updates/Acknowledged.antt =====
-- What the acknowledgements hold (`acknowledgements_from_view` and `acknowledgeable` in
-- kernel_v6/updates.rs).
use strategy_core.Common.{
  ◌≡◌, ◌↔◌, refl, sym, ap, ◌∙◌, inl, inr, Bool, true, false, Elem, All, map, some, none, not, ◌&&◌,
  ◌||◌, String, Option, List, [], ◌∷◌, ◌++◌, filter, contains, arith, Bool-cases, str_eq, eq_iff,
}
use strategy_core.Wire.Orders.{
  RunnerEntryV6, BrokerOrderV6, BrokerOrderStatusV6, CommandReceiptV6, is_terminal,
}
use strategy_core.Updates.Compare.{View}
use strategy_core.Updates.Acknowledge.{
  entry_ids, receipt_ids, terminal_ids, response_ids, is_untracked, acknowledgements_from_view,
}

pub contains-append :
    (k : String) (xs ys : List String) → contains k (xs ++ ys) ≡ (contains k xs || contains k ys)
contains-append k [] ys = refl
contains-append k (x ∷ xs) ys = ground (arith, contains-append k xs ys)

contains-filter :
    (p : String → Bool) (k : String) (xs : List String)
    → contains k (filter p xs) ≡ (p k && contains k xs)
contains-filter p k [] = ground arith
contains-filter p k (x ∷ xs) = elim (Bool-cases (str_eq x k)) [
  | inl hit ↦ ground (arith, contains-filter p k xs, ap p ((eq_iff x k).0 hit))
  | inr miss ↦ ground (arith, contains-filter p k xs)
]

acknowledgements_from_view-contains :
    (v : View) (response : Option String) (entries : List RunnerEntryV6) (id : String)
    → contains id (acknowledgements_from_view v response entries) ≡ (
        (not (contains id (entry_ids entries))
          && (contains id (receipt_ids v) || contains id (terminal_ids v)))
        || contains id (response_ids response))
unfolding acknowledgements_from_view
acknowledgements_from_view-contains v response entries id =
    let p = is_untracked entries in
    ground (
      arith,
      contains-append id (filter p (receipt_ids v) ++ filter p (terminal_ids v))
          (response_ids response),
      contains-append id (filter p (receipt_ids v)) (filter p (terminal_ids v)),
      contains-filter p id (receipt_ids v),
      contains-filter p id (terminal_ids v),
    )

-- An item with a key, and an item that passes a test.
Elem-map :
    {A : Type 0} (key : A → String) (id : String) (xs : List A)
    → contains id (map key xs) ≡ true
    → (x : A) × Elem x xs × (key x ≡ id)
Elem-map key id [] h = cc
Elem-map key id (x ∷ xs) h = elim (Bool-cases (str_eq (key x) id)) [
  | inl hit ↦ (x, inl refl, (eq_iff (key x) id).0 hit)
  | inr miss ↦ let (y, there, same) = Elem-map key id xs (ground arith) in (y, inr there, same)
]

map-Elem :
    {A : Type 0} (key : A → String) (id : String) (xs : List A) (x : A)
    → Elem x xs
    → key x ≡ id
    → contains id (map key xs) ≡ true
map-Elem key id [] x none_there same = elim none_there [ ]
map-Elem key id (y ∷ xs) x (inl here) same =
    let hit = (eq_iff (key y) id).1 (ap key (sym here) ∙ same) in ground (arith, hit)
map-Elem key id (y ∷ xs) x (inr there) same = ground (arith, map-Elem key id xs x there same)

Elem-filter :
    {A : Type 0} (p : A → Bool) (x : A) (xs : List A)
    → Elem x (filter p xs)
    → Elem x xs × (p x ≡ true)
Elem-filter p x [] m = elim m [ ]
Elem-filter p x (y ∷ ys) m = elim (Bool-cases (p y)) [
  | inl kept ↦ elim (rw (kept) at m) [
    | inl here ↦ (inl here, ap p here ∙ kept)
    | inr there ↦ let (deep, passes) = Elem-filter p x ys there in (inr deep, passes)
  ]
  | inr dropped ↦ let (deep, passes) = Elem-filter p x ys (rw (dropped) at m) in (inr deep, passes)
]

filter-Elem :
    {A : Type 0} (p : A → Bool) (x : A) (xs : List A)
    → Elem x xs
    → p x ≡ true
    → Elem x (filter p xs)
filter-Elem p x [] none_there passes = elim none_there [ ]
filter-Elem p x (y ∷ ys) (inl here) passes =
    let kept : p y ≡ true = ap p (sym here) ∙ passes in rw (kept) (inl here)
filter-Elem p x (y ∷ ys) (inr there) passes = elim (Bool-cases (p y)) [
  | inl kept ↦ rw (kept) (inr (filter-Elem p x ys there passes))
  | inr dropped ↦ rw (dropped) (filter-Elem p x ys there passes)
]

-- The statuses of an order that has ended.
pub data Ended : BrokerOrderStatusV6 → Type 0 where
  filled : Ended BrokerOrderStatusV6.filled
  cancelled : Ended BrokerOrderStatusV6.cancelled
  expired : Ended BrokerOrderStatusV6.expired
  rejected : Ended BrokerOrderStatusV6.rejected

is_terminal-Ended : (s : BrokerOrderStatusV6) → is_terminal s ≡ true → Ended s
is_terminal-Ended BrokerOrderStatusV6.filled h = Ended.filled
is_terminal-Ended BrokerOrderStatusV6.cancelled h = Ended.cancelled
is_terminal-Ended BrokerOrderStatusV6.expired h = Ended.expired
is_terminal-Ended BrokerOrderStatusV6.rejected h = Ended.rejected
is_terminal-Ended _ h = cc

Ended-is_terminal : (s : BrokerOrderStatusV6) → Ended s → is_terminal s ≡ true
Ended-is_terminal _ Ended.filled = refl
Ended-is_terminal _ Ended.cancelled = refl
Ended-is_terminal _ Ended.expired = refl
Ended-is_terminal _ Ended.rejected = refl

-- What there is to acknowledge of a command: its receipt, or its order that has ended.
pub data Final (v : View) (id : String) : Type 0 where
  receipt : (r : CommandReceiptV6) → Elem r v.receipts → r.command_id ≡ id → Final v id
  order : (o : BrokerOrderV6) → Elem o v.orders → o.command_id ≡ id → Ended o.status → Final v id

-- Why a command is acknowledged.
pub data Acknowledged (v : View) (response : Option String) (entries : List RunnerEntryV6)
    (id : String) : Type 0 where
  responded : response ≡ some id → Acknowledged v response entries id
  told :
      All (λ (e : RunnerEntryV6). str_eq e.command_id id ≡ false) entries
      → Final v id
      → Acknowledged v response entries id

untracked-All :
    (id : String) (es : List RunnerEntryV6)
    → contains id (entry_ids es) ≡ false
    → All (λ (e : RunnerEntryV6). str_eq e.command_id id ≡ false) es
untracked-All id [] h = tt
untracked-All id (e ∷ es) h = (ground arith, untracked-All id es (ground arith))

All-untracked :
    (id : String) (es : List RunnerEntryV6)
    → All (λ (e : RunnerEntryV6). str_eq e.command_id id ≡ false) es
    → contains id (entry_ids es) ≡ false
All-untracked id [] h = refl
All-untracked id (e ∷ es) h = ground (arith, h.0, All-untracked id es h.1)

contains-response :
    (response : Option String) (id : String)
    → contains id (response_ids response) ≡ true
    → response ≡ some id
contains-response none id h = cc
contains-response (some r) id h = ap some ((eq_iff r id).0 (ground arith))

Final-contains :
    (v : View) (id : String)
    → Final v id
    → contains id (receipt_ids v) || contains id (terminal_ids v) ≡ true
Final-contains v id (Final.receipt r there same) =
    let found = map-Elem (λ (x : CommandReceiptV6). x.command_id) id v.receipts r there same in
    ground (arith, found)
Final-contains v id (Final.order o there same ended) =
    let kept =
      filter-Elem (λ (x : BrokerOrderV6). is_terminal x.status) o v.orders there
        (Ended-is_terminal o.status ended) in
    let found = map-Elem (λ (x : BrokerOrderV6). x.command_id) id _ o kept same in
    ground (arith, found)

contains-Final :
    (v : View) (id : String)
    → contains id (receipt_ids v) || contains id (terminal_ids v) ≡ true
    → Final v id
contains-Final v id h = elim (Bool-cases (contains id (receipt_ids v))) [
  | inl received ↦
      let (r, there, same) =
        Elem-map (λ (x : CommandReceiptV6). x.command_id) id v.receipts received in
      Final.receipt r there same
  | inr other ↦
      let (o, kept, same) = Elem-map (λ (x : BrokerOrderV6). x.command_id) id _ (ground arith) in
      let (there, ended) =
        Elem-filter (λ (x : BrokerOrderV6). is_terminal x.status) o v.orders kept in
      Final.order o there same (is_terminal-Ended o.status ended)
]

acknowledged-contains :
    (v : View) (response : Option String) (entries : List RunnerEntryV6) (id : String)
    → Acknowledged v response entries id
    → contains id (acknowledgements_from_view v response entries) ≡ true
acknowledged-contains v response entries id (Acknowledged.responded same) =
    let named : contains id (response_ids response) ≡ true =
      ap (λ r. contains id (response_ids r)) same ∙ ground (arith, (eq_iff id id).1 refl) in
    acknowledgements_from_view-contains v response entries id ∙ ground (arith, named)
acknowledged-contains v response entries id (Acknowledged.told untracked final) =
    let free = All-untracked id entries untracked in
    let found = Final-contains v id final in
    acknowledgements_from_view-contains v response entries id ∙ ground (arith, free, found)

-- A command is acknowledged exactly when the response names it, or when no runner entry tracks it and
-- the view holds a receipt of it or an order of it that is filled, cancelled, expired or rejected.
pub acknowledgements_from_view_lem :
    (v : View) (response : Option String) (entries : List RunnerEntryV6) (id : String)
    → (contains id (acknowledgements_from_view v response entries) ≡ true)
      ↔ Acknowledged v response entries id
acknowledgements_from_view_lem v response entries id =
    let ids = acknowledgements_from_view-contains v response entries id in
    (
      λ h. elim (Bool-cases (contains id (response_ids response))) [
        | inl named ↦ Acknowledged.responded (contains-response response id named)
        | inr silent ↦
            Acknowledged.told (untracked-All id entries (ground (arith, ids, h)))
              (contains-Final v id (ground (arith, ids, h)))
      ],
      λ a. acknowledged-contains v response entries id a,
    )
