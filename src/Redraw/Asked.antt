-- ===== src/Redraw/Asked.antt =====
-- What a message of the server leads to, in assets/js/goradd.js: the controls that watch are asked for,
-- and the update that asks is due within half a second.
use serve.Base.{
  List-cases, ◌≡◌, refl, ap, ◌∙◌, ℕ, ◌+◌, String, eq_iff, Bool, true, ◌||◌, List, [], ◌∷◌, ◌++◌,
  arith, ltb, Bool-cases, Option-cases, inl, inr, keep_if,
}
use serve.Value.{Value, Fields}
use serve.Posting.{Page}
use serve.Watchers.{Watch, Message, process_watcher_message, contains, update_form, push_present}
use serve.Base.Dict.{lookup}
use serve.Watchers.Lists.{watchers_of}
use serve.Watchers.Refresh as Marks
use serve.Watchers.Refresh.{
  IsUpdate, refresh-process_watcher_message, refresh_grows, adds, receives,
}
use serve.Exchange.{on_page}
use serve.Exchange.Refresh.{KeepsRefresh, happen-refresh}
use serve.Redraw.{
  Client, update_name, watch_of, leave, Turn, watches, hears, refreshes, waits, goes_on, turn,
  turn_all,
}
use serve.Redraw.Due.{
  IsDue, IsPrompt, throttle-IsDue, throttle-IsPrompt, throttle_set, pass-IsDue, pass-IsPrompt,
}

-- A control is asked for, and an update is due at a time or before.
pub record IsAsked (id : String) (time : ℕ) (c : Client) : Type 0 where
  pub asked : contains c.world.page.refresh id ≡ true
  pub due : IsDue time c.timers

contains-append :
    (xs ys : List String) (id : String)
    → contains (xs ++ ys) id ≡ (contains xs id || contains ys id)
unfolding contains
contains-append [] ys id = refl
contains-append (x ∷ xs) ys id = ground (arith, contains-append xs ys id)

contains-keep_if :
    (p : String → Bool) (xs : List String) (id : String)
    → p id ≡ true
    → contains xs id ≡ true
    → contains (keep_if p xs) id ≡ true
unfolding contains
contains-keep_if p [] id h k = k
contains-keep_if p (x ∷ xs) id h k = ground (arith, eq_iff x id, contains-keep_if p xs id h)

leave-refresh : (w : Watch) (c : Client) → (leave w c).world.page.refresh ≡ w.refresh
unfolding leave on_page serve.Redraw.update_form
leave-refresh w c = elim (Bool-cases (ltb 0 w.updates)) [
  | inl e ↦ rw (e) refl
  | inr e ↦ rw (e) refl
]

leave-IsPrompt : (w : Watch) (c : Client) → IsPrompt c.timers → IsPrompt (leave w c).timers
unfolding leave on_page serve.Redraw.update_form
leave-IsPrompt w c h = elim (Bool-cases (ltb 0 w.updates)) [
  | inl e ↦ rw (e) (throttle-IsPrompt c.timers h)
  | inr e ↦ rw (e) h
]

leave-IsDue :
    (time : ℕ) (w : Watch) (c : Client) → IsDue time c.timers → IsDue time (leave w c).timers
unfolding leave on_page serve.Redraw.update_form
leave-IsDue time w c h = elim (Bool-cases (ltb 0 w.updates)) [
  | inl e ↦ rw (e, throttle_set c.timers h.set) h
  | inr e ↦ rw (e) h
]

leave-updated :
    (w : Watch) (c : Client)
    → ltb 0 w.updates ≡ true
    → IsPrompt c.timers
    → IsDue (c.timers.now + 500) (leave w c).timers
unfolding leave on_page serve.Redraw.update_form
leave-updated w c e h = rw (e) (throttle-IsDue c.timers h)

-- A message for a watcher that is on the page updates the form.
updates-process :
    (present : String → Bool) (msg : Message) (id : String) (w : Watch)
    → (¬ IsUpdate msg)
    → contains (watchers_of msg.channel w) id ≡ true
    → contains (process_watcher_message present msg w).refresh id ≡ true
    → ltb 0 (process_watcher_message present msg w).updates ≡ true
unfolding process_watcher_message update_form contains
updates-process present msg id w h k e = elim (Option-cases (lookup msg.channel w.watchers)) [
  | inl x ↦ cc (rw (x, watchers_of) at k)
  | inr (ids, x) ↦ elim (List-cases (push_present present ids w.refresh)) [
    | inl y ↦ ground (arith, eq_iff msg.message "U", eq_iff msg.channel "redraw", x, y, h, e)
    | inr (z, zs, y) ↦ ground (arith, eq_iff msg.message "U", eq_iff msg.channel "redraw", x, y, h)
  ]
]

-- A message asks for a watcher of its channel that is on the page.
asked-process :
    (present : String → Bool) (msg : Message) (id : String) (w : Watch)
    → (¬ IsUpdate msg)
    → contains (watchers_of msg.channel w) id ≡ true
    → present id ≡ true
    → contains (process_watcher_message present msg w).refresh id ≡ true
asked-process present msg id w h k p =
    ap (λ r. contains r id) ((refresh-process_watcher_message present msg w).1 h)
    ∙ contains-append w.refresh (keep_if present (watchers_of msg.channel w)) id
    ∙ ground (arith, contains-keep_if present (watchers_of msg.channel w) id)

-- What was asked for before is still asked for.
kept-asked :
    (a : Marks.Action) (id : String) (w : Watch)
    → contains w.refresh id ≡ true
    → contains (Marks.act a w).refresh id ≡ true
unfolding Marks.act_all
kept-asked a id w h =
    let (more, e) = refresh_grows (a ∷ []) w in
    ap (λ r. contains r id) e ∙ contains-append w.refresh more id ∙ ground (arith, h)

module _ (encode : Fields → String) (tz : Value) (posting : Page → Page)
    (parses : String → Bool) where
  turn-IsPrompt :
      (t : Turn) (c : Client)
      → IsPrompt c.timers
      → IsPrompt (turn encode tz posting parses t c).timers
  unfolding turn
  turn-IsPrompt (watches id channel) c h = leave-IsPrompt _ c h
  turn-IsPrompt (hears present msg) c h = leave-IsPrompt _ c h
  turn-IsPrompt (refreshes id) c h = leave-IsPrompt _ c h
  turn-IsPrompt (waits n) c h = pass-IsPrompt n c.timers h
  turn-IsPrompt (goes_on x) c h = h

  module _ (keeps : KeepsRefresh posting) where
    turn-IsAsked :
        (t : Turn) (id : String) (time : ℕ) (c : Client)
        → IsAsked id time c
        → IsAsked id time (turn encode tz posting parses t c)
    unfolding turn watch_of Marks.act
    turn-IsAsked (watches other channel) id time c h = record {
      asked =
          ap (λ r. contains r id) (leave-refresh _ c)
          ∙ kept-asked (adds other channel) id (watch_of c) h.asked;
      due = leave-IsDue time _ c h.due;
    }
    turn-IsAsked (hears present msg) id time c h = record {
      asked =
          ap (λ r. contains r id) (leave-refresh _ c)
          ∙ kept-asked (receives present msg) id (watch_of c) h.asked;
      due = leave-IsDue time _ c h.due;
    }
    turn-IsAsked (refreshes other) id time c h = record {
      asked =
          ap (λ r. contains r id) (leave-refresh _ c)
          ∙ kept-asked (Marks.refreshes other) id (watch_of c) h.asked;
      due = leave-IsDue time _ c h.due;
    }
    turn-IsAsked (waits n) id time c h = record {
      asked = h.asked;
      due = pass-IsDue n time c.timers h.due;
    }
    turn-IsAsked (goes_on x) id time c h = record {
      asked =
          ap (λ r. contains r id) (happen-refresh encode tz posting keeps parses x c.world)
          ∙ h.asked;
      due = h.due;
    }

    turn_all-IsAsked :
        (ts : List Turn) (id : String) (time : ℕ) (c : Client)
        → IsAsked id time c
        → IsAsked id time (turn_all encode tz posting parses ts c)
    unfolding turn_all
    turn_all-IsAsked [] id time c h = h
    turn_all-IsAsked (t ∷ ts) id time c h =
        turn_all-IsAsked ts id time (turn encode tz posting parses t c) (turn-IsAsked t id time c h)

    -- If a timer of `updateForm` that is set is due within half a second, the handlers of posting leave
    -- `_refresh` as it is, and a message comes, not that which updates the form, on a channel that a
    -- control on the page watches, then from then on, whatever happens until the timer fires, the
    -- control is among those that requests ask for, and an update is due within half a second of the
    -- message.
    pub hears-IsAsked :
        (present : String → Bool) (msg : Message) (id : String) (c : Client) (ts : List Turn)
        → IsPrompt c.timers
        → (¬ IsUpdate msg)
        → contains (watchers_of msg.channel (watch_of c)) id ≡ true
        → present id ≡ true
        → IsAsked id
            (c.timers.now + 500)
            (turn_all encode tz posting parses (hears present msg ∷ ts) c)
    unfolding turn_all turn watch_of
    hears-IsAsked present msg id c ts prompt h k p =
        let asked = asked-process present msg id (watch_of c) h k p in
        turn_all-IsAsked ts id (c.timers.now + 500)
          (turn encode tz posting parses (hears present msg) c)
          (record {
            asked = ap (λ r. contains r id) (leave-refresh _ c) ∙ asked;
            due =
                leave-updated (process_watcher_message present msg (watch_of c)) c
                  (updates-process present msg id (watch_of c) h k asked) prompt;
          })
