-- ===== src/Redraw/Spaced.antt =====
-- How often `updateForm` of assets/js/goradd.js posts.
use serve.Base.{
  ◌≡◌, refl, sym, ap, subst, ℕ, ◌+◌, ◌≤◌, String, Bool, List, [], ◌∷◌, ◌++◌, arith, ltb, leb,
  Bool-cases, inl, inr, ◌⊎◌,
}
use serve.Value.{Value, Fields}
use serve.Posting.{Page}
use serve.Timers.{Timers, throttle, pass, has_timer, prev_time}
use serve.Watchers.{Watch}
use serve.Redraw.{
  Client, update_name, leave, Turn, watches, hears, refreshes, waits, goes_on, turn, Beat, turns,
  fires, beat, starts_of, starts_of_all, fire_update,
}
use serve.Redraw.Due.{throttle_set}
use serve.Redraw.Interval.{IsWaiting, IsSpaced, throttle-IsWaiting, fire-IsIdle}

throttle-IsSpaced :
    (last : ℕ) (s : Timers (Unit {0}))
    → IsSpaced last s
    → IsSpaced last (throttle update_name 500 tt s)
unfolding has_timer
throttle-IsSpaced last s (inl idle) = inr (throttle-IsWaiting last s idle)
throttle-IsSpaced last s (inr h) =
    inr (subst (IsWaiting last) (sym (throttle_set s (rw (has_timer, h.own) refl))) h)

pass-IsSpaced : (n last : ℕ) (s : Timers (Unit {0})) → IsSpaced last s → IsSpaced last (pass n s)
unfolding pass has_timer prev_time
pass-IsSpaced n last s (inl h) = inl (record {
  unset = h.unset;
  none_pending = h.none_pending;
  known = h.known;
  past = omega (arith, h.past);
})
pass-IsSpaced n last s (inr h) = inr (record {
  timer = h.timer;
  one_pending = h.one_pending;
  own = h.own;
  name = h.name;
  once = h.once;
  later = h.later;
})

leave-IsSpaced :
    (last : ℕ) (w : Watch) (c : Client) → IsSpaced last c.timers → IsSpaced last (leave w c).timers
unfolding leave serve.Redraw.update_form
leave-IsSpaced last w c h = elim (Bool-cases (ltb 0 w.updates)) [
  | inl e ↦ rw (e) (throttle-IsSpaced last c.timers h)
  | inr e ↦ rw (e) h
]

-- Each time is half a second after the one before, or later.
abbrev pub Spaced : ℕ → List ℕ → Type 0
Spaced last [] = Unit
Spaced last (t ∷ ts) = (last + 500 ≤ t) × Spaced t ts

module _ (encode : Fields → String) (tz : Value) (posting : Page → Page)
    (parses : String → Bool) where
  turn-IsSpaced :
      (t : Turn) (last : ℕ) (c : Client)
      → IsSpaced last c.timers
      → IsSpaced last (turn encode tz posting parses t c).timers
  unfolding turn
  turn-IsSpaced (watches id channel) last c h = leave-IsSpaced last _ c h
  turn-IsSpaced (hears present msg) last c h = leave-IsSpaced last _ c h
  turn-IsSpaced (refreshes id) last c h = leave-IsSpaced last _ c h
  turn-IsSpaced (waits n) last c h = pass-IsSpaced n last c.timers h
  turn-IsSpaced (goes_on x) last c h = h

  -- Whether a timer fires or not, the history goes on spaced.
  fires-Spaced :
      (spent last : ℕ) (c : Client)
      → IsSpaced last c.timers
      → ((starts_of encode tz posting parses (fires spent) c ≡ [])
          × IsSpaced last (beat encode tz posting parses (fires spent) c).timers)
        ⊎ ((last + 500 ≤ c.timers.now)
            × (starts_of encode tz posting parses (fires spent) c ≡ c.timers.now ∷ [])
            × IsSpaced c.timers.now (beat encode tz posting parses (fires spent) c).timers)
  unfolding starts_of beat fire_update
  fires-Spaced spent last c (inl h) =
      inl (rw (starts_of, h.none_pending) refl, rw (beat, h.none_pending) (inl h))
  fires-Spaced spent last c (inr h) = elim (Bool-cases (leb h.timer.due c.timers.now)) [
    | inl due ↦
        let le : h.timer.due ≤ c.timers.now = ground (arith, due) in
        inr (
          omega (arith, h.later),
          rw (starts_of, h.one_pending, due) refl,
          rw (beat, h.one_pending, due) (inl (fire-IsIdle last spent c.timers h le)),
        )
    | inr early ↦
        inl (rw (starts_of, h.one_pending, early) refl, rw (beat, h.one_pending, early) (inr h))
  ]

  -- If at the start either no update is pending and the start of the last one is known, or one is
  -- pending, due half a second after that start or later, then however many messages come and controls
  -- ask to be drawn again, whenever the browser fires the timer, however long its function takes, and
  -- whatever else happens to the page, the updates start half a second apart, or more.
  pub starts-Spaced :
      (bs : List Beat) (last : ℕ) (c : Client)
      → IsSpaced last c.timers
      → Spaced last (starts_of_all encode tz posting parses bs c)
  unfolding starts_of_all starts_of beat
  starts-Spaced [] last c h = tt
  starts-Spaced (turns t ∷ bs) last c h =
      starts-Spaced bs last (turn encode tz posting parses t c) (turn-IsSpaced t last c h)
  starts-Spaced (fires spent ∷ bs) last c h =
      let next = beat encode tz posting parses (fires spent) c in
      let rest = starts_of_all encode tz posting parses bs next in
      elim (fires-Spaced spent last c h) [
        | inl (e, k) ↦
            subst (Spaced last) (sym (ap (λ ts. ts ++ rest) e)) (starts-Spaced bs last next k)
        | inr (le, e, k) ↦
            subst (Spaced last) (sym (ap (λ ts. ts ++ rest) e))
              (le, starts-Spaced bs c.timers.now next k)
      ]
