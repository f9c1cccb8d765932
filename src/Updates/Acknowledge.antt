-- ===== src/Updates/Acknowledge.antt =====
-- What a result acknowledges (`acknowledgements_from_view` and `acknowledgeable` in
-- kernel_v6/updates.rs).
use strategy_core.Common.{
  Bool, not, String, Option, none, some, List, [], ◌∷◌, ◌++◌, map, filter, contains,
}
use strategy_core.Wire.Orders.{BrokerOrderV6, RunnerEntryV6, is_terminal}
use strategy_core.Updates.Compare.{View}

abbrev pub entry_ids : List RunnerEntryV6 → List String
entry_ids = map λ entry. entry.command_id

abbrev pub receipt_ids : View → List String
receipt_ids v = map (λ r. r.command_id) v.receipts

-- The command ids of the terminal orders.
abbrev pub terminal_ids : View → List String
terminal_ids v =
    map (λ (o : BrokerOrderV6). o.command_id)
      (filter (λ (o : BrokerOrderV6). is_terminal o.status) v.orders)

abbrev pub response_ids : Option String → List String
response_ids none = []
response_ids (some id) = id ∷ []

abbrev pub is_untracked : List RunnerEntryV6 → String → Bool
is_untracked entries id = not (contains id (entry_ids entries))

unfoldable pub acknowledgements_from_view : View → Option String → List RunnerEntryV6 → List String
acknowledgements_from_view v response entries =
    filter (is_untracked entries) (receipt_ids v)
    ++ filter (is_untracked entries) (terminal_ids v)
    ++ response_ids response

unfoldable pub acknowledgeable : View → Option String → List String
acknowledgeable v response = receipt_ids v ++ terminal_ids v ++ response_ids response
