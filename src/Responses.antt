-- ===== src/Responses.antt =====
-- What the page does with the reply to an ajax request: `_processAjax`, `_processAjax2`,
-- `_enqueueFinalCommand` and `_processFinalCommands` of assets/js/goradd.js.
-- What a command calls is in Responses/Invoke.
pub mod Loading
pub mod Order
pub mod Replace
pub mod Invoke
pub mod Whole
use serve.Base.{
  ◌≡◌, refl, ◌≢◌, sym, ap, ◌∙◌, ℕ, zero, suc, ◌+◌, ◌-◌, ◌≤◌, ◌<◌, max, String, str_eq, str_append,
  eq_iff, eq_refl, Bool, true, false, not, ◌&&◌, ◌||◌, List, [], ◌∷◌, ◌++◌, arith, if◌then◌else◌,
  ◌==◌, ==_iff, ltb, leb, Bool-cases, Option-cases, inl, inr, ◌⊎◌, ◌↔◌, All, All-append, Option,
  none, some, append-nil, append_assoc, map, reverse, length,
}
use serve.Value.{Value, undefined}

-- `loadCount`, the files that are being loaded, and how often `_processAjax2` was called
pub record Loads : Type 0 where
  pub load_count : ℕ
  pub loading : List String
  pub processed : ℕ

-- `fWait`
unfoldable pub f_wait : Loads → Loads
f_wait s =
    let count = s.load_count - 1 in
    record s { load_count = count; processed = if count == 0 then suc s.processed else s.processed }

-- The loops over `json.ss` and `json.js`: each file is counted and begins to load.
unfoldable pub load_files : List String → Loads → Loads
load_files [] s = s
load_files (file ∷ rest) s =
    load_files rest (record s { load_count = suc s.load_count; loading = s.loading ++ file ∷ [] })

-- `_processAjax`, after the alerts
unfoldable pub process_ajax : List String → List String → Loads
process_ajax ss js =
    f_wait (load_files js (load_files ss (record { load_count = 1; loading = []; processed = 0 })))

-- The first file of that name leaves the files that are being loaded.
unfoldable pub take_out : String → List String → Option (List String)
take_out file [] = none
take_out file (f ∷ fs) =
    let rest = take_out file fs in
    if str_eq f file then some fs else elim rest [ none ↦ none | some gs ↦ some (f ∷ gs) ]

-- The browser calls `fWait` once for each file, when it is loaded or fails.
unfoldable pub file_done : String → Loads → Loads
file_done file s = elim (take_out file s.loading) [
  | none ↦ s
  | some fs ↦ f_wait (record s { loading = fs })
]

unfoldable pub files_done : List String → Loads → Loads
files_done [] s = s
files_done (file ∷ rest) s = files_done rest (file_done file s)

-- The commands that were processed, in order, and `_finalCommands`
pub record Commands {ℓ} (C : Type ℓ) : Type ℓ where
  pub ran : List C
  pub final_commands : List C

module _ {ℓ} {C : Type ℓ} where
  -- `_enqueueFinalCommand`
  unfoldable pub enqueue_final_command : C → Commands C → Commands C
  enqueue_final_command c s = record s { final_commands = s.final_commands ++ c ∷ [] }

  unfoldable pub run_command : C → Commands C → Commands C
  run_command c s = record s { ran = s.ran ++ c ∷ [] }

  -- The loop over `json.commands`; each command comes with what `isRunning` says when it is reached.
  unfoldable pub process_commands : (C → Bool) → List (C × Bool) → Commands C → Commands C
  process_commands is_final [] s = s
  process_commands is_final (c ∷ cs) s =
      process_commands is_final cs
        (if is_final (c.0) && c.1 then enqueue_final_command (c.0) s else run_command (c.0) s)

  -- `pop`: the last element and those before it
  unfoldable pub pop : List C → Option (List C × C)
  pop [] = none
  pop (x ∷ xs) = elim (pop xs) [ none ↦ some ([], x) | some p ↦ some (x ∷ p.0, p.1) ]

  -- `_processFinalCommands`; the fuel bounds the turns of the loop.
  unfoldable pub process_final_commands : ℕ → Commands C → Commands C
  process_final_commands zero s = s
  process_final_commands (suc fuel) s = elim (pop s.final_commands) [
    | none ↦ s
    | some p ↦ process_final_commands fuel (run_command (p.1) (record s { final_commands = p.0 }))
  ]
