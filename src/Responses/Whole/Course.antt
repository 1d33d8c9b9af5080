-- ===== src/Responses/Whole/Course.antt =====
-- The course that the handling of a reply takes. assets/js/goradd.js.
use serve.Base.{
  ◌≡◌, refl, sym, ap, ◌∙◌, ℕ, ◌-◌, none, ◌≤◌, String, Bool, true, false, ◌&&◌, List, [], ◌∷◌, ◌++◌,
  arith, if◌then◌else◌, ◌==◌, append-nil, append_assoc, map, length, subst, some, Option-cases, inl,
  inr,
}
use serve.Utilities.{finish}
use serve.Responses.{Loads, process_ajax, take_out, file_done, files_done}
use serve.Responses.Loading.{
  IsCounted, file_done-IsCounted, process_ajax-IsCounted, take_out-length,
}
use serve.Responses.Replace.{Update, update_control}
use serve.Responses.Whole.{
  Doing, alerts, begins_load, ends_load, changes, registers, runs, queues, ends, Reply, Answers,
  update_all, command_all, end_all, process_ajax2, process_times, load_all, process_reply,
}
use serve.Responses.Whole.Phases.{
  phase, IsSorted, commands_in, UpTo, All-weaken, alike, extend, map-phase, commands_in-append,
  commands_in-map,
}

module _ {C : Type 0} (page : Answers C) (is_final : C → Bool) where
  -- What a loop keeps: the phases, and the commands, to which it adds some
  abbrev Adds : ℕ → List (Doing C) → List (Doing C) → List C → Type 0
  Adds m before after cs = UpTo m after × (commands_in after ≡ commands_in before ++ cs)

  weaken : (k m : ℕ) (ds : List (Doing C)) → k ≤ m → UpTo k ds → UpTo m ds
  weaken k m ds h u = (u.0, All-weaken k m h ds u.1)

  update_all-Adds :
      (us : List Update) (done : List (Doing C))
      → UpTo 3 done
      → Adds 3 done (update_all page is_final us done) []
  unfolding update_all
  update_all-Adds [] done u = (u, sym (append-nil _))
  update_all-Adds (x ∷ us) done u =
      let ops = map changes (update_control (page.view_of done x) x) in
      let rest = update_all-Adds us (done ++ ops) (
        extend 3 3 done ops (omega arith) u (
          map-phase {C = C} changes 3 (λ op. unfold phase in refl)
            (update_control (page.view_of done x) x))) in
      (
        rest.0,
        rest.1
            ∙ ap (λ cs. cs ++ [])
                (commands_in-append done ops
                  ∙ ap (λ cs. commands_in done ++ cs)
                      (commands_in-map {C = C} changes (λ op ds. unfold commands_in in refl)
                        (update_control (page.view_of done x) x))
                  ∙ append-nil _),
      )

  command_all-Adds :
      (cs : List C) (done : List (Doing C))
      → UpTo 5 done
      → Adds 5 done (command_all page is_final cs done) cs
  unfolding command_all
  command_all-Adds [] done u = (u, sym (append-nil _))
  command_all-Adds (c ∷ cs) done u =
      let one = if is_final c && page.is_running done then queues c else runs c in
      let is_one = chosen (is_final c && page.is_running done) in
      let rest =
        command_all-Adds cs (done ++ one ∷ [])
          (extend 5 5 done (one ∷ []) (omega arith) u (is_one.0, tt)) in
      (
        rest.0,
        rest.1
            ∙ ap (λ xs. xs ++ cs)
                (commands_in-append done (one ∷ []) ∙ ap (λ xs. commands_in done ++ xs) is_one.1)
            ∙ append_assoc (commands_in done) (c ∷ []) cs,
      )
    where
      chosen :
          (b : Bool)
          → (phase {C = C} (if b then queues c else runs c) ≡ 5)
            × (commands_in ((if b then queues c else runs c) ∷ []) ≡ c ∷ [])
      chosen true = unfold phase commands_in in (refl, refl)
      chosen false = unfold phase commands_in in (refl, refl)

  registers_quiet : commands_in {C = C} (registers ∷ []) ≡ []
  registers_quiet = unfold commands_in in refl

  process_ajax2-Adds :
      (r : Reply C) (done : List (Doing C))
      → UpTo 2 done
      → Adds 6 done (process_ajax2 page is_final r done) r.commands
  unfolding process_ajax2 end_all
  process_ajax2-Adds r done u =
      let drawn = update_all page is_final r.controls done in
      let registered = drawn ++ registers ∷ [] in
      let commanded = command_all page is_final r.commands registered in
      let effects = finish (page.has_client commanded) (page.has_pane commanded) r.ending in
      let a = update_all-Adds r.controls done (weaken 2 3 done (omega arith) u) in
      let b = extend 3 4 drawn (registers ∷ []) (omega arith) a.0 (unfold phase in refl, tt) in
      let c = command_all-Adds r.commands registered (weaken 4 5 registered (omega arith) b) in
      (
        extend 5 6 commanded (map ends effects) (omega arith) c.0
            (map-phase {C = C} ends 6 (λ e. unfold phase in refl) effects),
        commands_in-append commanded (map ends effects)
            ∙ ap (λ xs. commands_in commanded ++ xs)
                (commands_in-map {C = C} ends (λ e ds. unfold commands_in in refl) effects)
            ∙ append-nil _
            ∙ c.1
            ∙ ap (λ xs. xs ++ r.commands)
                (commands_in-append drawn (registers ∷ [])
                  ∙ ap (λ xs. commands_in drawn ++ xs) registers_quiet
                  ∙ append-nil _
                  ∙ a.1
                  ∙ append-nil _),
      )

  -- How far the handling has come when these files are being loaded
  abbrev HasCome : Reply C → Bool → List (Doing C) → Type 0
  HasCome r true done = IsSorted done × (commands_in done ≡ r.commands)
  HasCome r false done = UpTo 2 done × (commands_in done ≡ [])

  abbrev nothing_loading : Loads → Bool
  nothing_loading s = length s.loading == 0

  process_times-HasCome :
      (r : Reply C) (done : List (Doing C)) (b : Bool)
      → HasCome r false done
      → HasCome r b (process_times page is_final (if b then 1 else 0) r done)
  unfolding process_times
  process_times-HasCome r done true (u, quiet) =
      let a = process_ajax2-Adds r done u in (a.0.0, a.1 ∙ ap (λ xs. xs ++ r.commands) quiet)
  process_times-HasCome r done false h = h

  ends_load-HasCome :
      (r : Reply C) (file : String) (done : List (Doing C))
      → HasCome r false done
      → HasCome r false (done ++ ends_load file ∷ [])
  unfolding phase commands_in
  ends_load-HasCome r file done (u, quiet) = (
    extend 2 2 done (ends_load file ∷ []) (omega arith) u (unfold phase in refl, tt),
    commands_in-append done (ends_load file ∷ []) ∙ append-nil _ ∙ quiet,
  )

  -- What was not processed before, since files were being loaded, is processed once they are not.
  due :
      (r : Reply C) (done : List (Doing C)) (s t : Loads)
      → IsCounted s
      → IsCounted t
      → nothing_loading s ≡ false
      → HasCome r false done
      → HasCome r
          (nothing_loading t)
          (process_times page is_final (t.processed - s.processed) r done)
  due r done s t k m busy h =
      subst (λ n. HasCome r (nothing_loading t) (process_times page is_final n r done)) (sym amount)
        (process_times-HasCome r done (nothing_loading t) h)
    where
      amount : t.processed - s.processed ≡ (if nothing_loading t then 1 else 0)
      amount = let none_yet : s.processed ≡ 0 = k.1 ∙ rw (busy) refl in let now = m.1 in omega arith

  busy_of :
      (file : String) (s : Loads) (fs : List String)
      → take_out file s.loading ≡ some fs
      → nothing_loading s ≡ false
  busy_of file s fs e = let l = take_out-length file s.loading fs e in ground arith

  file_done-none :
      (file : String) (s : Loads) → take_out file s.loading ≡ none → file_done file s ≡ s
  unfolding file_done
  file_done-none file s e = rw (file_done, e) refl

  load_all-HasCome :
      (r : Reply C) (order : List String) (s : Loads) (done : List (Doing C))
      → IsCounted s
      → HasCome r (nothing_loading s) done
      → HasCome r (nothing_loading (files_done order s)) (load_all page is_final r order s done)
  unfolding load_all files_done
  load_all-HasCome r [] s done k h = h
  load_all-HasCome r (file ∷ order) s done k h = elim (Option-cases (take_out file s.loading)) [
    | inl e ↦
        rw (load_all, e, files_done, file_done-none file s e) (load_all-HasCome r order s done k h)
    | inr (fs, e) ↦
        let busy = busy_of file s fs e in
        let m = file_done-IsCounted file s k in
        let idle = subst (λ b. HasCome r b done) busy h in
        rw (load_all, e)
          (load_all-HasCome r order (file_done file s) _ m (
            due r (done ++ ends_load file ∷ []) s (file_done file s) k m busy
              (ends_load-HasCome r file done idle)))
  ]

  -- Whatever files a reply asks for and in whatever order they are loaded or fail: the alerts come
  -- first, then all files begin to load, nothing else is done until the last of them is loaded or has
  -- failed, and then the controls are changed before all of them are registered, that before any
  -- command, and the commands, each once and in order, run or queued, before the end of the reply;
  -- while some file is still being loaded no command has been.
  pub process_reply-IsSorted :
      (r : Reply C) (order : List String)
      → IsSorted (process_reply page is_final r order)
        × (commands_in (process_reply page is_final r order) ≡ (
            if length (files_done order (process_ajax r.ss r.js)).loading == 0
            then r.commands
            else []))
  unfolding process_reply
  process_reply-IsSorted r order = come (nothing_loading (files_done order loads)) _ (
      load_all-HasCome r order loads _ counted (
        subst (λ n. HasCome r (nothing_loading loads) (process_times page is_final n r begun))
          (sym counted.1) (process_times-HasCome r begun (nothing_loading loads) begun-HasCome)))
    where
      loads : Loads
      loads = process_ajax r.ss r.js

      counted : IsCounted loads
      counted = process_ajax-IsCounted r.ss r.js

      begun : List (Doing C)
      begun = map alerts r.alert ++ map begins_load (r.ss ++ r.js)

      begun-HasCome : HasCome r false begun
      begun-HasCome = (
        weaken 1 2 begun (omega arith) (
            extend 0 1 (map alerts r.alert) (map begins_load (r.ss ++ r.js)) (omega arith)
              (alike 0 (map alerts r.alert)
                (map-phase {C = C} alerts 0 (λ s. unfold phase in refl) r.alert))
              (map-phase {C = C} begins_load 1 (λ s. unfold phase in refl) (r.ss ++ r.js))),
        commands_in-append (map alerts r.alert) (map begins_load (r.ss ++ r.js))
            ∙ ap (λ xs. xs ++ commands_in (map begins_load (r.ss ++ r.js)))
                (commands_in-map {C = C} alerts (λ s ds. unfold commands_in in refl) r.alert)
            ∙ commands_in-map {C = C} begins_load (λ s ds. unfold commands_in in refl)
                (r.ss ++ r.js),
      )

      come :
          (b : Bool) (done : List (Doing C))
          → HasCome r b done
          → IsSorted done × (commands_in done ≡ (if b then r.commands else []))
      come true done h = h
      come false done h = (h.0.0, h.1)
