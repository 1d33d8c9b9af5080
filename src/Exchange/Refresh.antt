-- ===== src/Exchange/Refresh.antt =====
-- `_refresh` of assets/js/goradd.js, which requests carry and nothing but the watchers changes.
use serve.Base.{
  ◌≡◌, refl, ◌∙◌, ℕ, String, Bool, true, false, List, [], ◌∷◌, ◌==◌, Bool-cases, Option-cases, inl,
  inr,
}
use serve.Value.{Value, Fields}
use serve.Posting.{
  Page, Request, get_ajax_data, post_ajax, on_success, display_ajax_error, form_obj_changed,
}
use serve.Session.{edit, tell_all}
use serve.Ajaxq.{Reply, Callback, settle, escapes, is_running, is_idle}
use serve.Exchange.{
  World, Action, edits, posts, send, send_next, put_in, act, act_all, calls_success, tells_error,
  respond, go_on, finish, on_page, on_queue, call_back, count_complete, Happening, acts, receives,
  loses, draws, draw, replies, breaks, times_out, happen, receive_next, lose_next, Part,
}

tell_all-refresh : (ids : List String) (page : Page) → (tell_all ids page).refresh ≡ page.refresh
unfolding tell_all form_obj_changed
tell_all-refresh [] page = refl
tell_all-refresh (id ∷ ids) page = tell_all-refresh ids (form_obj_changed id page)

-- The handlers of `posting` leave it as it is: they do not call `goradd.refresh`.
abbrev pub KeepsRefresh : (Page → Page) → Type 0
KeepsRefresh posting = (page : Page) → (posting page).refresh ≡ page.refresh

module _ (encode : Fields → String) (tz : Value) (posting : Page → Page)
    (keeps : KeepsRefresh posting) where
  send-refresh :
      (f : Request) (w : World) → (send encode tz posting f w).page.refresh ≡ w.page.refresh
  unfolding send get_ajax_data
  send-refresh f w = keeps w.page

  send_next-refresh : (w : World) → (send_next encode tz posting w).page.refresh ≡ w.page.refresh
  unfolding send_next
  send_next-refresh w = from w.queue.q
    where
      from :
          (q : List Request)
          → (send_next encode tz posting
              (record w { queue = record w.queue { q = q } })).page.refresh
            ≡ w.page.refresh
      from [] = refl
      from (f ∷ q) = send-refresh f _

  put_in-refresh :
      (f : Request) (b : Bool) (w : World)
      → (put_in encode tz posting f b w).page.refresh ≡ w.page.refresh
  unfolding put_in
  put_in-refresh f true w = send-refresh f w
  put_in-refresh f false w = elim (Bool-cases (is_running w.queue)) [
    | inl busy ↦ rw busy refl
    | inr free ↦ rw free (send_next-refresh _)
  ]

  pub act-refresh :
      (a : Action) (w : World) → (act encode tz posting a w).page.refresh ≡ w.page.refresh
  unfolding act on_page edit
  act-refresh (edits cs ids) w = tell_all-refresh ids (record w.page { inputs = cs })
  act-refresh (posts params) w = elim (Option-cases (post_ajax params w.page)) [
    | inl e ↦ rw (e, act) refl
    | inr (f, e) ↦ rw (e, act) (put_in-refresh f f.is_async w)
  ]

  act_all-refresh :
      (more : List Action) (w : World)
      → (act_all encode tz posting more w).page.refresh ≡ w.page.refresh
  unfolding act_all
  act_all-refresh [] w = refl
  act_all-refresh (a ∷ more) w = act_all-refresh more (act encode tz posting a w) ∙ act-refresh a w

  respond-refresh :
      (cs : List Callback) (actions : List Action) (w : World)
      → (respond encode tz posting cs actions w).page.refresh ≡ w.page.refresh
  unfolding respond on_page on_success display_ajax_error
  respond-refresh cs actions w = elim (Bool-cases (calls_success cs)) [
    | inl s ↦ elim (Bool-cases (tells_error cs)) [
      | inl e ↦ rw (s, e) (act_all-refresh actions w)
      | inr e ↦ rw (s, e) (act_all-refresh actions w)
    ]
    | inr s ↦ elim (Bool-cases (tells_error cs)) [ inl e ↦ rw (s, e) refl | inr e ↦ rw (s, e) refl ]
  ]

  go_on-refresh :
      (finals : List Action) (w : World)
      → (go_on encode tz posting finals w).page.refresh ≡ w.page.refresh
  unfolding go_on on_queue
  go_on-refresh finals w = elim (Bool-cases (is_idle w.queue)) [
    | inl idle ↦ rw idle (send_next-refresh _ ∙ act_all-refresh finals (count_complete w))
    | inr busy ↦ rw busy (send_next-refresh w)
  ]

  module _ (parses : String → Bool) where
    finish-refresh :
        (id : ℕ) (r : Reply) (actions finals : List Action) (w : World)
        → (finish encode tz posting parses id r actions finals w).page.refresh ≡ w.page.refresh
    unfolding finish on_queue
    finish-refresh id r actions finals w = elim (Bool-cases (r.ready_state == 4)) [
      | inr not_yet ↦ rw not_yet refl
      | inl ready ↦ elim (Bool-cases (escapes parses r)) [
        | inl out ↦ rw (ready, out) (respond-refresh (settle parses r) actions _)
        | inr on ↦
            rw (ready, on)
              (go_on-refresh finals (call_back encode tz posting parses id r actions w)
                ∙ respond-refresh (settle parses r) actions _)
      ]
    ]

    -- Nothing that happens to the page, the queue and the server changes it.
    pub happen-refresh :
        (h : Happening) (w : World)
        → (happen encode tz posting parses h w).page.refresh ≡ w.page.refresh
    unfolding happen draw on_page on_queue display_ajax_error receive_next lose_next
    happen-refresh (acts a) w = act-refresh a w
    happen-refresh receives w = from w.wire
      where
        from :
            (bodies : List (List (String × Part)))
            → (receive_next (record w { wire = bodies })).page.refresh ≡ w.page.refresh
        from [] = refl
        from (_ ∷ _) = refl
    happen-refresh loses w = from w.wire
      where
        from :
            (bodies : List (List (String × Part)))
            → (lose_next (record w { wire = bodies })).page.refresh ≡ w.page.refresh
        from [] = refl
        from (_ ∷ _) = refl
    happen-refresh (draws drawn cs) w = refl
    happen-refresh (replies id r actions finals) w = finish-refresh id r actions finals w
    happen-refresh (breaks id) w = refl
    happen-refresh (times_out id) w = refl
