-- ===== src/Responses/Whole/Phases.antt =====
-- The phases of the handling of a reply. assets/js/goradd.js.
use serve.Base.{◌≡◌, refl, ap, ◌∙◌, ℕ, ◌≤◌, List, [], ◌∷◌, ◌++◌, arith, All, All-append, map}
use serve.Responses.Whole.{
  Doing, alerts, begins_load, ends_load, changes, registers, runs, queues, ends,
}

module _ {C : Type 0} where
  -- The phases: alerts, the beginning of loading, its ends, controls, their registration, commands, the end
  unfoldable pub phase : Doing C → ℕ
  phase (alerts s) = 0
  phase (begins_load s) = 1
  phase (ends_load s) = 2
  phase (changes op) = 3
  phase registers = 4
  phase (runs c) = 5
  phase (queues c) = 5
  phase (ends e) = 6

  -- No phase comes before an earlier one.
  abbrev pub IsSorted : List (Doing C) → Type 0
  IsSorted [] = Unit
  IsSorted (d ∷ ds) = All (λ e. phase d ≤ phase e) ds × IsSorted ds

  -- The commands that are run or queued
  unfoldable pub commands_in : List (Doing C) → List C
  commands_in [] = []
  commands_in (runs c ∷ ds) = c ∷ commands_in ds
  commands_in (queues c ∷ ds) = c ∷ commands_in ds
  commands_in (alerts s ∷ ds) = commands_in ds
  commands_in (begins_load s ∷ ds) = commands_in ds
  commands_in (ends_load s ∷ ds) = commands_in ds
  commands_in (changes op ∷ ds) = commands_in ds
  commands_in (registers ∷ ds) = commands_in ds
  commands_in (ends e ∷ ds) = commands_in ds

  -- Sorted, and in no phase after some
  abbrev pub UpTo : ℕ → List (Doing C) → Type 0
  UpTo k ds = IsSorted ds × All (λ d. phase d ≤ k) ds

  pub All-weaken :
      (k m : ℕ)
      → k ≤ m
      → (ds : List (Doing C)) → All (λ d. phase d ≤ k) ds
      → All (λ d. phase d ≤ m) ds
  All-weaken k m h [] a = tt
  All-weaken k m h (d ∷ ds) (a, more) = (omega (arith, h, a), All-weaken k m h ds more)

  pub above :
      (n m : ℕ)
      → n ≤ m
      → (ds : List (Doing C)) → All (λ d. phase d ≡ m) ds
      → All (λ d. n ≤ phase d) ds
  above n m h [] a = tt
  above n m h (d ∷ ds) (a, more) = (omega (arith, h, a), above n m h ds more)

  pub alike : (m : ℕ) (ds : List (Doing C)) → All (λ d. phase d ≡ m) ds → UpTo m ds
  alike m [] a = (tt, tt)
  alike m (d ∷ ds) (a, q) =
      let rest = alike m ds q in
      ((above (phase d) m (omega (arith, a)) ds q, rest.0), (omega (arith, a), rest.1))

  -- What is done in a later phase goes behind.
  pub extend :
      (k m : ℕ) (ds es : List (Doing C))
      → k ≤ m
      → UpTo k ds
      → All (λ d. phase d ≡ m) es
      → UpTo m (ds ++ es)
  extend k m [] es h u a = alike m es a
  extend k m (d ∷ ds) es h ((s, ss), (l, ls)) a =
      let rest = extend k m ds es h (ss, ls) a in
      (
        (All-append _ ds es s (above (phase d) m (omega (arith, h, l)) es a), rest.0),
        (omega (arith, h, l), rest.1),
      )

  pub map-phase :
      {A : Type 0} (f : A → Doing C) (m : ℕ)
      → ((a : A) → phase (f a) ≡ m)
      → (xs : List A) → All (λ d. phase d ≡ m) (map f xs)
  map-phase f m h [] = tt
  map-phase f m h (x ∷ xs) = (h x, map-phase f m h xs)

  pub commands_in-append :
      (ds es : List (Doing C)) → commands_in (ds ++ es) ≡ commands_in ds ++ commands_in es
  unfolding commands_in
  commands_in-append [] es = refl
  commands_in-append (runs c ∷ ds) es = ap (λ cs. c ∷ cs) (commands_in-append ds es)
  commands_in-append (queues c ∷ ds) es = ap (λ cs. c ∷ cs) (commands_in-append ds es)
  commands_in-append (alerts s ∷ ds) es = commands_in-append ds es
  commands_in-append (begins_load s ∷ ds) es = commands_in-append ds es
  commands_in-append (ends_load s ∷ ds) es = commands_in-append ds es
  commands_in-append (changes op ∷ ds) es = commands_in-append ds es
  commands_in-append (registers ∷ ds) es = commands_in-append ds es
  commands_in-append (ends e ∷ ds) es = commands_in-append ds es

  pub commands_in-map :
      {A : Type 0} (f : A → Doing C)
      → ((a : A) (ds : List (Doing C)) → commands_in (f a ∷ ds) ≡ commands_in ds)
      → (xs : List A) → commands_in (map f xs) ≡ []
  commands_in-map f h [] = unfold commands_in in refl
  commands_in-map f h (x ∷ xs) = h x (map f xs) ∙ commands_in-map f h xs
