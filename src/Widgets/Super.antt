-- ===== src/Widgets/Super.antt =====
-- What `this._super` comes to. `extendWidget` of assets/js/goradd.js.
use serve.Base.{
  ◌≡◌, refl, sym, ap, ◌∙◌, ℕ, zero, suc, ◌≤◌, Bool, true, false, List, [], ◌∷◌, ◌++◌, arith, Option,
  none, some, subst,
}
use serve.Base.Dict.{lookup}
use serve.Widgets.{
  Step, does, super_call, fails, Member, function, Class, root, extended, Ended, returned, threw,
  out_of_fuel, Run, super_step, after_end, run_steps, call_override, run_constructor, construct,
  after_end,
}

-- What the constructor of a class of the language does, in which `super` is fixed where it is written: the
-- trace, and whether it throws.
unfoldable pub go_on : Bool → (List ℕ → List ℕ × Bool) → List ℕ → List ℕ × Bool
go_on false f trace = f trace
go_on true f trace = (trace, true)

unfoldable pub run_fixed : (List ℕ → List ℕ × Bool) → List Step → List ℕ → List ℕ × Bool
run_fixed super [] trace = (trace, false)
run_fixed super (does n ∷ steps) trace = run_fixed super steps (trace ++ n ∷ [])
run_fixed super (fails ∷ steps) trace = (trace, true)
run_fixed super (super_call ∷ steps) trace =
    go_on (super trace).1 (run_fixed super steps) (super trace).0

unfoldable pub fixed_constructor : (List ℕ → List ℕ × Bool) → Option Member → List ℕ → List ℕ × Bool
fixed_constructor super (some (function steps)) trace = run_fixed super steps trace
fixed_constructor super _ trace = super trace

unfoldable pub fixed : Class → List ℕ → List ℕ × Bool
fixed root trace = (trace ++ 0 ∷ [], false)
fixed (extended base prototype) trace =
    fixed_constructor (fixed base) (lookup "constructor" prototype) trace

unfoldable pub depth : Class → ℕ
depth root = 1
depth (extended base prototype) = suc (depth base)

-- How often `super` is written in a constructor
unfoldable pub count_super : List Step → ℕ
count_super [] = 0
count_super (super_call ∷ steps) = suc (count_super steps)
count_super (step ∷ steps) = count_super steps

-- Every class of the chain has a constructor, which is a function with one call of `super`: the
-- language lets a constructor neither leave it out nor repeat it.
unfoldable pub HasConstructors : Class → Type 0
HasConstructors root = Unit
HasConstructors (extended base prototype) =
    ((steps : List Step) × (lookup "constructor" prototype ≡ some (function steps))
      × (count_super steps ≡ 1))
    × HasConstructors base

unfoldable pub ended_of : Bool → Ended
ended_of true = threw
ended_of false = returned

-- A call did what the fixed one does, and if it returned, `_super` is what it was.
abbrev pub Mimics : Run → Run → List ℕ × Bool → Type 0
Mimics before after reference =
    (after.trace ≡ reference.0)
    × (after.ended ≡ ended_of reference.1)
    × (after.ended ≡ returned → after.super ≡ before.super)

-- Where the call of the base did what the fixed one does, so does what follows.
after_end-Mimics :
    (before s : Run) (next : Run → Run) (reference : List ℕ × Bool)
    (next_fixed : List ℕ → List ℕ × Bool) (x : Ended) (y : Bool)
    → s.ended ≡ x
    → reference.1 ≡ y
    → Mimics before s reference
    → (s.ended ≡ returned → s.super ≡ before.super → Mimics before (next s) (next_fixed s.trace))
    → Mimics before (after_end x next s) (go_on y next_fixed reference.0)
unfolding after_end go_on ended_of
after_end-Mimics before s next reference f returned false p q (t, e, k) h =
    subst (λ z. Mimics before (next s) (f z)) t (h p (k p))
after_end-Mimics before s next reference f threw true p q (t, e, k) h = (t, p, k)
after_end-Mimics before s next reference f returned true p q (t, e, k) h =
    let z = e ∙ ap ended_of q in cc
after_end-Mimics before s next reference f threw false p q (t, e, k) h =
    let z = e ∙ ap ended_of q in cc
after_end-Mimics before s next reference f out_of_fuel true p q (t, e, k) h =
    let z = e ∙ ap ended_of q in cc
after_end-Mimics before s next reference f out_of_fuel false p q (t, e, k) h =
    let z = e ∙ ap ended_of q in cc

super_step-Mimics :
    (call : Class → Run → Run) (base : Class) (super : List ℕ → List ℕ × Bool) (next : Run → Run)
    (next_fixed : List ℕ → List ℕ × Bool) (r : Run) (o : Option Class)
    → Mimics r (call base r) (super r.trace)
    → ((q : Run)
        → q.ended ≡ returned
        → q.super ≡ some base
        → Mimics q (next q) (next_fixed q.trace))
    → o ≡ some base
    → r.super ≡ some base
    → Mimics r (super_step call next o r) (go_on (super r.trace).1 next_fixed (super r.trace).0)
unfolding super_step
super_step-Mimics call base super next f r none m ih p s = cc
super_step-Mimics call base super next f r (some c) m ih p s =
    subst
      (λ b.
        Mimics r (super_step call next (some b) r) (go_on (super r.trace).1 f (super r.trace).0))
      (the_same (sym p))
      (after_end-Mimics r (call base r) next (super r.trace) f (call base r).ended (super r.trace).1
        refl refl m followed)
  where
    the_same : {a b : Class} → some a ≡ some b → a ≡ b
    the_same q = cc

    followed :
        (call base r).ended ≡ returned
        → (call base r).super ≡ r.super
        → Mimics r (next (call base r)) (f (call base r).trace)
    followed q k = let n = ih (call base r) q (k ∙ s) in (n.0, n.1, λ z. n.2 z ∙ k)

run_steps-Mimics :
    (call : Class → Run → Run) (base : Class) (super : List ℕ → List ℕ × Bool)
    → ((r : Run) → r.ended ≡ returned → Mimics r (call base r) (super r.trace))
    → (steps : List Step) (r : Run) → r.ended ≡ returned
    → r.super ≡ some base
    → Mimics r (run_steps call steps r) (run_fixed super steps r.trace)
unfolding run_steps run_fixed ended_of
run_steps-Mimics call base super h [] r e s = (refl, e, λ q. refl)
run_steps-Mimics call base super h (does n ∷ steps) r e s =
    run_steps-Mimics call base super h steps (record r { trace = r.trace ++ n ∷ [] }) e s
run_steps-Mimics call base super h (fails ∷ steps) r e s = (refl, refl, λ q. refl)
run_steps-Mimics call base super h (super_call ∷ steps) r e s =
    super_step-Mimics call base super (run_steps call steps) (run_fixed super steps) r r.super
      (h r e) (λ q. run_steps-Mimics call base super h steps q) s s

-- A constructor that runs with its base as `_super` leaves `_super` as it was, if it returns.
override-Mimics :
    (call : Class → Run → Run) (base : Class) (super : List ℕ → List ℕ × Bool)
    → ((r : Run) → r.ended ≡ returned → Mimics r (call base r) (super r.trace))
    → (steps : List Step) (r : Run) → r.ended ≡ returned
    → Mimics r (call_override call base steps r) (run_fixed super steps r.trace)
unfolding call_override after_end
override-Mimics call base super h steps r e =
    let inner = record r { super = some base } in
    let m = run_steps-Mimics call base super h steps inner e refl in
    restored (run_steps call steps inner) (run_steps call steps inner).ended refl m.0 m.1
  where
    restored :
        (s : Run) (x : Ended)
        → s.ended ≡ x
        → s.trace ≡ (run_fixed super steps r.trace).0
        → s.ended ≡ ended_of (run_fixed super steps r.trace).1
        → Mimics r
            (after_end x (λ q. record q { super = r.super }) s)
            (run_fixed super steps r.trace)
    restored s returned p t q = (t, q, λ z. refl)
    restored s threw p t q = (t, q, λ z. cc)
    restored s out_of_fuel p t q = (t, q, λ z. cc)

-- If every class of a chain has a constructor, in which `super` is called in one place and `this` is not
-- used before, that which `extendWidget` makes does what the
-- constructor of a class of the language with the same code does, and throws if that throws; with a
-- fuel of the length of the chain it does not run out, and `_super` is left as it was, if it
-- returns.
pub construct-fixed :
    (c : Class) (fuel : ℕ) (r : Run)
    → HasConstructors c
    → depth c ≤ fuel
    → r.ended ≡ returned
    → Mimics r (construct fuel c r) (fixed c r.trace)
unfolding construct fixed HasConstructors depth run_constructor call_override fixed_constructor
    run_fixed ended_of
construct-fixed root zero r h k e = absurd (omega arith)
construct-fixed root (suc fuel) r h k e = (refl, e, λ z. refl)
construct-fixed (extended base prototype) zero r h k e = absurd (omega arith)
construct-fixed (extended base prototype) (suc fuel) r ((steps, found, once), h) k e =
    rw (construct, fixed, found)
      (override-Mimics (construct fuel) base (fixed base)
        (λ q. construct-fixed base fuel q h (omega arith)) steps r e)
