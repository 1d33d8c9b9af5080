-- ===== src/Exchange/Settled.antt =====
-- Histories of the page, the queue of assets/js/goradd.js and the server: what the server holds in the
-- end.
use serve.Base.{
  ◌≡◌, refl, ℕ, String, Bool, true, false, List, [], ◌∷◌, if◌then◌else◌, ◌==◌, Bool-cases, inl, inr,
  some,
}
use serve.Value.{Value, Fields, has}
use serve.Posting.{Page, Request, on_success, display_ajax_error, post_ajax}
use serve.Session.{IsCoherent, Synced}
use serve.Ajaxq.{Reply, Callback, settle, escapes, tell, release_request, is_idle}
use serve.Exchange.{
  World, Action, posts, receive_all, act, calls_success, tells_error, respond, go_on, finish,
  on_page, on_queue, call_back, count_complete, Happening, acts, receives, loses, draws, replies,
  breaks, times_out, happen, receive_next,
}
use serve.Exchange.Drawn.{MayDraw}
use serve.Exchange.Kept.{
  held, IsKept, KeepsProper, MayAct, MayActAll, act_all-IsKept, send_next-IsKept, unblock-IsKept,
  error-IsKept, same-IsKept, put_in-IsKept,
}

module _ (encode : Fields → String) (tz : Value) (posting : Page → Page) (parses : String → Bool)
    (quiet : Bool) where
  -- No request is lost, and what the page does may be done when it does it.
  abbrev pub May : Happening → World → Type 0
  May (acts a) w = MayAct encode tz posting quiet a w
  May receives w = Unit
  May loses w = ⊥
  May (draws drawn cs) w = MayDraw drawn cs w
  May (replies id r actions finals) w =
      (calls_success (settle parses r) ≡ true
        → MayActAll encode tz posting quiet actions (on_queue (tell id (settle parses r)) w))
      × (is_idle (call_back encode tz posting parses id r actions w).queue ≡ true
          → MayActAll encode tz posting quiet finals
              (count_complete (call_back encode tz posting parses id r actions w)))
  May (breaks id) w = Unit
  May (times_out id) w = Unit

  abbrev pub MayAll : List Happening → World → Type 0
  MayAll [] w = Unit
  MayAll (h ∷ hs) w = May h w × MayAll hs (happen encode tz posting parses h w)

module _ (encode : Fields → String) (tz : Value) (posting : Page → Page)
    (keeps : KeepsProper posting) (quiet : Bool) where
  respond-IsKept :
      (cs : List Callback) (actions : List Action) (w : World)
      → (calls_success cs ≡ true → MayActAll encode tz posting quiet actions w)
      → IsKept quiet w
      → IsKept quiet (respond encode tz posting cs actions w)
  unfolding respond
  respond-IsKept cs actions w m h = elim (Bool-cases (calls_success cs)) [
    | inl s ↦ rw s (ends (act_all-IsKept encode tz posting keeps quiet actions w (m s) h))
    | inr s ↦ rw s (ends h)
  ]
    where
      ends :
          {u : World}
          → IsKept quiet u
          → IsKept quiet
              (if tells_error cs then on_page display_ajax_error u else on_page on_success u)
      ends {u} k = elim (Bool-cases (tells_error cs)) [
        | inl e ↦ rw (e) (error-IsKept encode tz posting keeps quiet u k)
        | inr e ↦ rw (e) (unblock-IsKept encode tz posting keeps quiet u k)
      ]

  go_on-IsKept :
      (finals : List Action) (w : World)
      → (is_idle w.queue ≡ true → MayActAll encode tz posting quiet finals (count_complete w))
      → IsKept quiet w
      → IsKept quiet (go_on encode tz posting finals w)
  unfolding go_on
  go_on-IsKept finals w m h = elim (Bool-cases (is_idle w.queue)) [
    | inl idle ↦ rw idle (
        send_next-IsKept encode tz posting keeps quiet _ (
          act_all-IsKept encode tz posting keeps quiet finals (count_complete w) (m idle)
            (same-IsKept encode tz posting keeps quiet _ w refl h)))
    | inr busy ↦ rw busy (send_next-IsKept encode tz posting keeps quiet w h)
  ]

  pub receive_next-IsKept : (w : World) → IsKept quiet w → IsKept quiet (receive_next w)
  unfolding receive_next receive_all
  receive_next-IsKept w h = from w.wire h
    where
      from :
          (bodies : List (List (String × serve.Posting.Part)))
          → IsKept quiet (record w { wire = bodies })
          → IsKept quiet (receive_next (record w { wire = bodies }))
      from [] h = h
      from (body ∷ bodies) h = record { coherent = h.coherent; synced = h.synced; due = h.due }

  module _ (parses : String → Bool) where
    pub finish-IsKept :
        (id : ℕ) (r : Reply) (actions finals : List Action) (w : World)
        → May encode tz posting parses quiet (replies id r actions finals) w
        → IsKept quiet w
        → IsKept quiet (finish encode tz posting parses id r actions finals w)
    unfolding finish tell release_request
    finish-IsKept id r actions finals w (m, n) k = elim (Bool-cases (r.ready_state == 4)) [
      | inr not_yet ↦ rw not_yet k
      | inl ready ↦
          let answered =
            respond-IsKept (settle parses r) actions (on_queue (tell id (settle parses r)) w) m
              (same-IsKept encode tz posting keeps quiet (tell id (settle parses r)) w refl k) in
          elim (Bool-cases (escapes parses r)) [
            | inl out ↦ rw (ready, out) answered
            | inr on ↦
                rw (ready, on)
                  (go_on-IsKept finals (call_back encode tz posting parses id r actions w) n (
                    same-IsKept encode tz posting keeps quiet (release_request id) _ refl answered))
          ]
    ]

-- A post that is not blocked is queued.
pub post_ajax_free :
    (params : Fields) (page : Page)
    → page.block_events ≡ false
    → post_ajax params page ≡ some (record { params = params; is_async = has "async" params })
unfolding post_ajax
post_ajax_free params page free = rw free refl

module _ (encode : Fields → String) (tz : Value) (posting : Page → Page) (parses : String → Bool)
    (keeps : KeepsProper posting) where
  pub post-IsKept :
      (params : Fields) (w : World)
      → w.page.block_events ≡ false
      → IsCoherent w.page
      → Synced w.page (held w)
      → IsKept true (act encode tz posting (posts params) w)
  unfolding act
  post-IsKept params w free c h =
      rw (post_ajax_free params w.page free, act)
        (put_in-IsKept encode tz posting keeps true _ _ w c h)
