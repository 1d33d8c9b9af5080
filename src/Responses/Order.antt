-- ===== src/Responses/Order.antt =====
-- The order in which the commands of replies run. `_processAjax2` and `_processFinalCommands` of
-- assets/js/goradd.js.
use serve.Base.{
  length-append, ◌≡◌, refl, ℕ, zero, suc, ◌≤◌, Bool, ◌&&◌, List, [], ◌∷◌, ◌++◌, arith,
  if◌then◌else◌, Bool-cases, inl, inr, some, append-nil, append_assoc, reverse, length, subst,
}
use mathlib.Core.List.{reverse-cons, reverse-reverse}
use serve.Responses.{
  Commands, enqueue_final_command, run_command, process_commands, pop, process_final_commands,
}

module _ {ℓ} {C : Type ℓ} where
  -- The commands that wait for the end of the queue, and the others.
  unfoldable pub waiting : (C → Bool) → List (C × Bool) → List C
  waiting is_final [] = []
  waiting is_final (c ∷ cs) =
      if is_final (c.0) && c.1 then c.0 ∷ waiting is_final cs else waiting is_final cs

  unfoldable pub at_once : (C → Bool) → List (C × Bool) → List C
  at_once is_final [] = []
  at_once is_final (c ∷ cs) =
      if is_final (c.0) && c.1 then at_once is_final cs else c.0 ∷ at_once is_final cs

  -- The commands of a reply run in their order, but for the final ones that come while a request is
  -- in flight, which are queued in theirs.
  pub process_commands_lem :
      (is_final : C → Bool) (cs : List (C × Bool)) (s : Commands C)
      → process_commands is_final cs s ≡ record {
        ran = s.ran ++ at_once is_final cs;
        final_commands = s.final_commands ++ waiting is_final cs;
      }
  unfolding process_commands at_once waiting run_command enqueue_final_command
  process_commands_lem is_final [] s = rw (append-nil, append-nil) refl
  process_commands_lem is_final (c ∷ cs) s = elim (Bool-cases (is_final (c.0) && c.1)) [
    | inl e ↦
        rw (process_commands, at_once, waiting, e, process_commands_lem is_final cs, append_assoc)
          refl
    | inr e ↦
        rw (process_commands, at_once, waiting, e, process_commands_lem is_final cs, append_assoc)
          refl
  ]

  pop-append : (xs : List C) (x : C) → pop (xs ++ x ∷ []) ≡ some (xs, x)
  unfolding pop
  pop-append [] x = refl
  pop-append (y ∷ ys) x = rw (pop-append ys x) refl

  drains :
      (xs ran : List C) (fuel : ℕ)
      → length xs ≤ fuel
      → process_final_commands fuel (record { ran = ran; final_commands = reverse xs })
        ≡ record { ran = ran ++ xs; final_commands = [] }
  unfolding process_final_commands pop run_command
  drains [] ran zero h = rw (append-nil) refl
  drains [] ran (suc fuel) h = rw (append-nil) refl
  drains (x ∷ xs) ran zero h = absurd (omega arith)
  drains (x ∷ xs) ran (suc fuel) h =
      rw
        (
          reverse-cons,
          process_final_commands,
          pop-append,
          drains xs (ran ++ x ∷ []) fuel (omega arith),
          append_assoc,
        )
        refl

  length-reverse : (xs : List C) → length (reverse xs) ≡ length xs
  length-reverse [] = refl
  length-reverse (x ∷ xs) =
      rw (reverse-cons, length-append {A = C} (reverse xs) (x ∷ []), length-reverse xs)
        (omega arith)

  -- With as much fuel as there are final commands or more, all of them run, the last queued first,
  -- and none is left.
  pub process_final_commands_lem :
      (s : Commands C) (fuel : ℕ)
      → length s.final_commands ≤ fuel
      → process_final_commands fuel s
        ≡ record { ran = s.ran ++ reverse s.final_commands; final_commands = [] }
  process_final_commands_lem s fuel h =
      subst
        (λ fs.
          process_final_commands fuel (record { ran = s.ran; final_commands = fs })
          ≡ record { ran = s.ran ++ reverse s.final_commands; final_commands = [] })
        (reverse-reverse s.final_commands)
        (drains (reverse s.final_commands) s.ran fuel (rw (length-reverse s.final_commands) h))
