-- ===== src/Host/Admission.antt =====
-- The admission of commands (`next_ordinal`, `check_result_bytes`, `push_command` and
-- `issue_broker_command` in native/strategy_core_v3/src/kernel_v6.rs). The encoded lengths are those
-- of bincode, a parameter. A refusal comes with the host after it, whose `deferrable` it sets.
use strategy_core.Common.{
  take, drop, ℕ, ◌+◌, ◌-◌, min, Bool, true, ◌&&◌, Option, none, some, List, [], ◌∷◌, ◌++◌, length,
  count_if, is_some, is_some_and, leb, ltb, if◌then◌else◌, Result, ok, err, ◌>>=◌,
}
use strategy_core.Wire.Bounds.{
  max_strategy_commands, max_runner_entries, max_decision_plan_rows, result_encoded_budget_bytes,
}
use strategy_core.Wire.Orders.{RunnerEntryV6, is_live}
use strategy_core.Wire.Commands.{StrategyCommandV6}
use strategy_core.Plan.Rows.{total, add, add_all}
use strategy_core.Host.State.{
  KernelError, too_many_commands, result_too_large, too_many_entries, too_many_rows, KernelHost,
}

-- `encoded_len` at the types that the host measures.
pub record EncodedLen : Type 0 where
  pub of_commands : List StrategyCommandV6 → ℕ
  pub of_entries : List RunnerEntryV6 → ℕ
  pub of_command : StrategyCommandV6 → ℕ
  pub of_entry : RunnerEntryV6 → ℕ

abbrev pub Admitted : Type 0 → Type 0
Admitted A = Result (KernelError × KernelHost) A

-- What the updates before the current unit issued, if they issued any command.
unfoldable pub issued_before : KernelHost → Option (List StrategyCommandV6 × List RunnerEntryV6)
issued_before h = elim h.update_start [
  | none ↦ none
  | some start ↦
      if ltb 0 start.commands
      then some (
        take start.commands h.commands,
        take (start.entries - min h.derived_entries start.entries)
            (drop (min h.derived_entries start.entries) h.runner),
      )
      else none
]

-- A refusal for room: it defers the update if the call fits alone.
unfoldable pub capacity_error {ℓ} :
    {A : Type ℓ} → KernelHost → KernelError → Bool → Result (KernelError × KernelHost) A
unfolding issued_before
capacity_error h message alone = err (
  message,
  record h { deferrable = if is_some (issued_before h) && alone then some message else none },
)

unfoldable pub next_ordinal : KernelHost → Admitted ℕ
unfolding capacity_error
next_ordinal h =
    if leb max_strategy_commands (length h.commands)
    then capacity_error h too_many_commands true
    else ok (length h.commands)

abbrev pub sum_commands : EncodedLen → List StrategyCommandV6 → ℕ
sum_commands len [] = 0
sum_commands len (c ∷ cs) = len.of_command c + sum_commands len cs

abbrev pub sum_entries : EncodedLen → List RunnerEntryV6 → ℕ
sum_entries len [] = 0
sum_entries len (e ∷ es) = len.of_entry e + sum_entries len es

abbrev pub entry_len : EncodedLen → Option RunnerEntryV6 → ℕ
entry_len len none = 0
entry_len len (some entry) = len.of_entry entry

-- The encoded bytes of the result with a command and its entry.
abbrev pub result_bytes : EncodedLen → KernelHost → StrategyCommandV6 → Option RunnerEntryV6 → ℕ
result_bytes len h command entry =
    h.fixed_bytes
    + len.of_commands h.commands
    + len.of_entries h.runner
    + len.of_command command
    + entry_len len entry

unfoldable pub check_result_bytes :
    EncodedLen → KernelHost → StrategyCommandV6 → Option RunnerEntryV6 → Admitted (Unit {0})
unfolding capacity_error issued_before
check_result_bytes len h command entry =
    let bytes = result_bytes len h command entry in
    if ltb result_encoded_budget_bytes bytes
    then capacity_error h result_too_large (
        is_some_and (issued_before h) λ earlier.
          leb (bytes - (sum_commands len earlier.0 + sum_entries len earlier.1))
            result_encoded_budget_bytes)
    else ok tt

-- A timer, stop or external command.
unfoldable pub push_command : EncodedLen → KernelHost → StrategyCommandV6 → Admitted KernelHost
unfolding check_result_bytes
push_command len h command = check_result_bytes len h command none >>= λ fits.
    ok (record h { commands = h.commands ++ command ∷ [] })

-- The current unit's commands with this one fit a decision of their own.
unfoldable pub rows_alone : KernelHost → StrategyCommandV6 → Bool
rows_alone h command = is_some_and h.update_start λ start.
    leb
      (total
        (add (add_all h.empty_rows (drop start.commands h.commands) h.broker) command h.broker))
      max_decision_plan_rows

unfoldable pub issue_broker_command :
    EncodedLen → KernelHost → StrategyCommandV6 → RunnerEntryV6 → Admitted KernelHost
unfolding check_result_bytes capacity_error rows_alone
issue_broker_command len h command entry = check_result_bytes len h command (some entry) >>= λ fits.
    let rows = add h.rows command h.broker in
    if ltb max_decision_plan_rows (total rows)
    then capacity_error h (too_many_rows (total rows)) (rows_alone h command)
    else if leb max_runner_entries (count_if is_live h.runner + h.reinstatable_live)
    then err (too_many_entries, h)
    else ok (record h {
      rows = rows;
      runner = h.runner ++ entry ∷ [];
      commands = h.commands ++ command ∷ [];
    })
