-- ===== src/Timers.antt =====
-- The named timers of assets/js/goradd.js: `setTimer`, `clearTimer`, `hasTimer`, `throttle` and the
-- timers of a control. The browser is part of the state: its clock in milliseconds, and the timers
-- that it has pending. An action is opaque; while it runs, the page makes calls of these functions.

pub mod Owned
pub mod Throttle
use serve.Base.{
  ℕ, suc, ◌+◌, ◌-◌, ltb, ◌==◌, String, str_append, Bool, true, false, List, [], ◌∷◌, ◌++◌, Option,
  none, some, if◌then◌else◌, ◌≡◌, ◌⊎◌, ◌≤◌,
}
use serve.Base.Dict.{lookup, insert}

-- An entry of `_timers`; `t` is the handle of the browser, `null` once the timer is over.
pub record Timer : Type 0 where
  pub i : ℕ
  pub d : ℕ
  pub p : Bool
  pub s : ℕ
  pub e : ℕ
  pub t : Option ℕ

-- A timer that the browser will fire when `due` has come.
pub record Pending {ℓ} (A : Type ℓ) : Type ℓ where
  pub handle : ℕ
  pub id : String
  pub action : A
  pub due : ℕ
  pub interval : ℕ
  pub periodic : Bool

pub record Timers {ℓ} (A : Type ℓ) : Type ℓ where
  -- `_timers`
  pub table : List (String × Timer)
  pub pending : List (Pending A)
  pub next_handle : ℕ
  pub now : ℕ

-- The calls that an action can make.
pub data Call {ℓ} (A : Type ℓ) : Type ℓ where
  sets : String → A → ℕ → Bool → Call A
  clears : String → Call A
  throttles : String → ℕ → A → Call A

-- `_timers[id].t`
abbrev pub handle_of : String → List (String × Timer) → Option ℕ
handle_of id table = elim (lookup id table) [ none ↦ none | some r ↦ r.t ]

module _ {ℓ} {A : Type ℓ} where
  -- `clearTimeout` and `clearInterval`
  unfoldable pub drop_pending : ℕ → List (Pending A) → List (Pending A)
  drop_pending h [] = []
  drop_pending h (p ∷ ps) = if p.handle == h then drop_pending h ps else p ∷ drop_pending h ps

  -- `hasTimer`
  unfoldable pub has_timer : String → Timers A → Bool
  has_timer id s = elim (handle_of id s.table) [ none ↦ false | some h ↦ true ]

  -- `clearTimer`
  unfoldable pub clear_timer : String → Timers A → Timers A
  clear_timer id s = elim (lookup id s.table) [
    | none ↦ s
    | some r ↦ elim r.t [
      | none ↦ s
      | some h ↦ record s {
        pending = drop_pending h s.pending;
        table = insert id (record r { t = none }) s.table;
      }
    ]
  ]

  unfoldable pub set_timer : String → A → ℕ → Bool → Timers A → Timers A
  set_timer id action delay periodic s =
      let s1 = clear_timer id s in
      let entry : Timer = record {
        i = s1.now;
        d = delay;
        p = periodic;
        s = 0;
        e = 0;
        t = some s1.next_handle;
      } in
      let timer : Pending A = record {
        handle = s1.next_handle;
        id = id;
        action = action;
        due = s1.now + delay;
        interval = delay;
        periodic = periodic;
      } in
      record s1 {
        table = insert id entry s1.table;
        pending = s1.pending ++ timer ∷ [];
        next_handle = suc s1.next_handle;
      }

  -- `startControlTimer` and `stopControlTimer`
  unfoldable pub start_control_timer : String → A → ℕ → Bool → Timers A → Timers A
  start_control_timer control_id action delay periodic s =
      set_timer (str_append control_id "_ct") action delay periodic s

  unfoldable pub stop_control_timer : String → Timers A → Timers A
  stop_control_timer control_id s = clear_timer (str_append control_id "_ct") s

  -- When the function under `id` last started, as `throttle` reads it: 0 unless it has ended.
  unfoldable pub prev_time : String → Timers A → ℕ
  prev_time id s = elim (lookup id s.table) [ none ↦ 0 | some r ↦ if ltb 0 r.e then r.s else 0 ]

  -- `throttle`. The subtraction from `minInterval` stops at 0, as `Math.max(…, 0)` does; the clock
  -- does not run backwards, so the inner one is exact.
  unfoldable pub throttle : String → ℕ → A → Timers A → Timers A
  throttle id min_interval f s =
      if has_timer id s then s else set_timer id f (min_interval - (s.now - prev_time id s)) false s

  unfoldable pub call : Call A → Timers A → Timers A
  call (sets id a d periodic) s = set_timer id a d periodic s
  call (clears id) s = clear_timer id s
  call (throttles id n a) s = throttle id n a s

  unfoldable pub call_all : List (Call A) → Timers A → Timers A
  call_all [] s = s
  call_all (c ∷ cs) s = call_all cs (call c s)

  -- `_timers[id].s = …` and `_timers[id].e = …`; without an entry the source throws there.
  unfoldable pub mark_start : String → Timers A → Timers A
  mark_start id s = elim (lookup id s.table) [
    | none ↦ s
    | some r ↦ record s { table = insert id (record r { s = s.now }) s.table }
  ]

  unfoldable pub mark_end : String → Timers A → Timers A
  mark_end id s = elim (lookup id s.table) [
    | none ↦ s
    | some r ↦ record s { table = insert id (record r { e = s.now }) s.table }
  ]

  unfoldable pub pass : ℕ → Timers A → Timers A
  pass n s = record s { now = s.now + n }

  -- The function given to `setTimeout`; its action makes `calls` and takes `spent` milliseconds.
  unfoldable pub on_timeout : String → List (Call A) → ℕ → Timers A → Timers A
  on_timeout id calls spent s =
      mark_end id (pass spent (call_all calls (clear_timer id (mark_start id s))))

  -- The browser's part: a timeout is over when it fires, an interval starts anew.
  unfoldable pub restart : ℕ → ℕ → List (Pending A) → List (Pending A)
  restart h now [] = []
  restart h now (p ∷ ps) =
      (if p.handle == h then record p { due = now + p.interval } else p) ∷ restart h now ps

  unfoldable pub fire : Pending A → List (Call A) → ℕ → Timers A → Timers A
  fire p calls spent s =
      if p.periodic
      then pass spent (call_all calls (record s { pending = restart p.handle s.now s.pending }))
      else on_timeout p.id calls spent (record s { pending = drop_pending p.handle s.pending })

pub data IsPending {ℓ} {A : Type ℓ} (p : Pending A) : List (Pending A) → Type ℓ where
  first : {x : Pending A} {ps : List (Pending A)} → p ≡ x → IsPending p (x ∷ ps)
  later : {x : Pending A} {ps : List (Pending A)} → IsPending p ps → IsPending p (x ∷ ps)

-- One thing that happens: time passes, the page calls, or a pending timer that is due fires.
pub data Step {ℓ} {A : Type ℓ} : Timers A → Timers A → Type ℓ where
  passes : (n : ℕ) (s : Timers A) → Step s (pass n s)
  calls : (c : Call A) (s : Timers A) → Step s (call c s)
  fires :
      (p : Pending A) (cs : List (Call A)) (spent : ℕ) (s : Timers A)
      → IsPending p s.pending
      → p.due ≤ s.now
      → Step s (fire p cs spent s)

pub data Reach {ℓ} {A : Type ℓ} (s : Timers A) : Timers A → Type ℓ where
  here : Reach s s
  next : {t u : Timers A} → Reach s t → Step t u → Reach s u
