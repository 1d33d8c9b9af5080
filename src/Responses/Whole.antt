-- ===== src/Responses/Whole.antt =====
-- The whole handling of a reply, from the alerts to the end: `_processAjax` and `_processAjax2` of
-- assets/js/goradd.js, as the list of what is done to the page. What the page answers depends on
-- what was done before.
pub mod Phases
pub mod Course
use serve.Base.{
  ◌≡◌, refl, ◌≢◌, sym, ap, ◌∙◌, ℕ, zero, suc, ◌+◌, ◌-◌, ◌≤◌, ◌<◌, max, String, str_eq, str_append,
  eq_iff, eq_refl, Bool, true, false, not, ◌&&◌, ◌||◌, List, [], ◌∷◌, ◌++◌, arith, if◌then◌else◌,
  ◌==◌, ==_iff, ltb, leb, Bool-cases, Option-cases, inl, inr, ◌⊎◌, ◌↔◌, All, All-append, Option,
  none, some, append-nil, append_assoc, map, reverse, length, List-cases, All-get, All-map_at,
}
use serve.Utilities.{Effect, Ending, finish}
use serve.Responses.{Loads, process_ajax, take_out, file_done}
use serve.Responses.Replace.{View, Update, Op, update_control}

pub data Doing (C : Type 0) : Type 0 where
  alerts : String → Doing C
  begins_load : String → Doing C
  -- a file is loaded, or has failed
  ends_load : String → Doing C
  changes : Op → Doing C
  registers : Doing C
  runs : C → Doing C
  queues : C → Doing C
  ends : Effect → Doing C

-- What a reply says
pub record Reply (C : Type 0) : Type 0 where
  pub alert : List String
  pub ss : List String
  pub js : List String
  pub controls : List Update
  pub commands : List C
  pub ending : Ending

-- What the page answers, after what was done
pub record Answers (C : Type 0) : Type 0 where
  pub view_of : List (Doing C) → Update → View
  pub is_running : List (Doing C) → Bool
  pub has_client : List (Doing C) → Bool
  pub has_pane : List (Doing C) → Bool

module _ {C : Type 0} (page : Answers C) (is_final : C → Bool) where
  -- The loop over `json.controls`
  unfoldable pub update_all : List Update → List (Doing C) → List (Doing C)
  update_all [] done = done
  update_all (u ∷ us) done =
      update_all us (done ++ map changes (update_control (page.view_of done u) u))

  -- The loop over `json.commands`
  unfoldable pub command_all : List C → List (Doing C) → List (Doing C)
  command_all [] done = done
  command_all (c ∷ cs) done =
      command_all cs
        (done ++ (if is_final c && page.is_running done then queues c else runs c) ∷ [])

  -- `_processAjax2`
  unfoldable pub end_all : Ending → List (Doing C) → List (Doing C)
  end_all ending done = done ++ map ends (finish (page.has_client done) (page.has_pane done) ending)

  unfoldable pub process_ajax2 : Reply C → List (Doing C) → List (Doing C)
  process_ajax2 r done =
      end_all r.ending (command_all r.commands (update_all r.controls done ++ registers ∷ []))

  unfoldable pub process_times : ℕ → Reply C → List (Doing C) → List (Doing C)
  process_times zero r done = done
  process_times (suc n) r done = process_times n r (process_ajax2 r done)

  -- The files are loaded or fail, one after the other; the last one lets the reply be processed.
  unfoldable pub load_all : Reply C → List String → Loads → List (Doing C) → List (Doing C)
  load_all r [] s done = done
  load_all r (file ∷ order) s done = elim (take_out file s.loading) [
    | none ↦ load_all r order s done
    | some fs ↦
        let t : Loads = file_done file s in
        load_all r order t
          (process_times (t.processed - s.processed) r (done ++ ends_load file ∷ []))
  ]

  -- `_processAjax`, and what comes of it when files are loaded or fail in an order
  unfoldable pub process_reply : Reply C → List String → List (Doing C)
  process_reply r order =
      let s : Loads = process_ajax r.ss r.js in
      load_all r order s
        (process_times s.processed r (map alerts r.alert ++ map begins_load (r.ss ++ r.js)))
