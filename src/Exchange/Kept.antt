-- ===== src/Exchange/Kept.antt =====
-- The server and the page agree, but for the changes that are noted, once all that is on the way is
-- received: through the queue of assets/js/goradd.js, whatever the replies are.
use serve.Base.{
  ◌≡◌, refl, ◌≢◌, sym, ◌∙◌, String, Bool, true, false, List, [], ◌∷◌, ◌++◌, Bool-cases,
  Option-cases, inl, inr,
}
use serve.Value.{Value, Fields}
use serve.Posting.{
  Page, Input, Part, Request, post_key, posted_value, get_ajax_data, post_ajax, on_success,
  display_ajax_error, parts_of,
}
use serve.Session.{ServerView, receive, edit, IsCoherent, IsProper, Synced, Agrees, any_modified}
use serve.Session.Sync.{get_ajax_data-Agrees, told-Synced, All-map}
use serve.Ajaxq.{Ajaxq, is_running}
use serve.Exchange.{
  World, Action, edits, posts, receive_all, send, send_next, put_in, act, act_all, on_page,
  on_queue,
}

-- What the server holds once it has received all that is on the way
abbrev pub held : World → ServerView
held w = receive_all w.wire w.view

pub receive_all-append :
    (bodies : List (List (String × Part))) (body : List (String × Part)) (view : ServerView)
    → receive_all (bodies ++ body ∷ []) view ≡ receive body (receive_all bodies view)
unfolding receive_all
receive_all-append [] body view = refl
receive_all-append (b ∷ bodies) body view = receive_all-append bodies body (receive b view)

-- The page is coherent and synced; and if it is `quiet`, since nothing is edited, and nothing waits,
-- then the server holds all of it.
pub record IsKept (quiet : Bool) (w : World) : Type 0 where
  pub coherent : IsCoherent w.page
  pub synced : Synced w.page (held w)
  pub due : quiet ≡ true → w.queue.q ≡ [] → Agrees w.page (held w)

Agrees-Synced : (page : Page) (view : ServerView) → Agrees page view → Synced page view
Agrees-Synced page view h = All-map _ _ (λ c e ctl. inr (e ctl)) page.inputs h

-- The handlers of the event `posting` keep a coherent page coherent and tell of what they change.
abbrev pub KeepsProper : (Page → Page) → Type 0
KeepsProper posting = (page : Page) → IsCoherent page → IsProper page (posting page)

append_ne_nil {ℓ} : {A : Type ℓ} (x : A) (xs : List A) → xs ++ x ∷ [] ≢ []
append_ne_nil x [] e = cc
append_ne_nil x (y ∷ xs) e = cc

module _ (encode : Fields → String) (tz : Value) (posting : Page → Page) (quiet : Bool) where
  -- An edit is proper, and there is none while nothing is to be edited.
  abbrev pub MayAct : Action → World → Type 0
  MayAct (edits cs ids) w = (quiet ≡ false) × IsProper w.page (edit cs ids w.page)
  MayAct (posts params) w = Unit

  abbrev pub MayActAll : List Action → World → Type 0
  MayActAll [] w = Unit
  MayActAll (a ∷ more) w = MayAct a w × MayActAll more (act encode tz posting a w)

module _ (encode : Fields → String) (tz : Value) (posting : Page → Page)
    (keeps : KeepsProper posting) (quiet : Bool) where
  sent-IsCoherent :
      (f : Request) (w : World) → IsCoherent w.page → IsCoherent (send encode tz posting f w).page
  unfolding send get_ajax_data posted_value
  sent-IsCoherent f w h =
      let c = (keeps w.page h).coherent in
      record { one_value = c.one_value; has_parts = c.has_parts }

  -- Once a request is sent, all of the page is on the way.
  sent-Agrees :
      (f : Request) (w : World)
      → IsCoherent w.page
      → Synced w.page (held w)
      → Agrees (send encode tz posting f w).page (held (send encode tz posting f w))
  unfolding send
  sent-Agrees f w c h =
      rw (receive_all-append w.wire)
        (get_ajax_data-Agrees encode tz posting f.params w.page (held w) (keeps w.page c) h)

  send-IsKept :
      (f : Request) (w : World)
      → IsCoherent w.page
      → Synced w.page (held w)
      → IsKept quiet (send encode tz posting f w)
  send-IsKept f w c h =
      let now = sent-Agrees f w c h in
      record {
        coherent = sent-IsCoherent f w c;
        synced =
            Agrees-Synced (send encode tz posting f w).page (held (send encode tz posting f w)) now;
        due = λ q e. now;
      }

  pub send_next-IsKept : (w : World) → IsKept quiet w → IsKept quiet (send_next encode tz posting w)
  unfolding send_next
  send_next-IsKept w h = from w.queue.q h
    where
      from :
          (q : List Request)
          → IsKept quiet (record w { queue = record w.queue { q = q } })
          → IsKept quiet
              (send_next encode tz posting (record w { queue = record w.queue { q = q } }))
      from [] h = h
      from (f ∷ q) h = send-IsKept f _ h.coherent h.synced

  push-IsKept :
      (f : Request) (w : World)
      → IsCoherent w.page
      → Synced w.page (held w)
      → IsKept quiet (record w { queue = record w.queue { q = w.queue.q ++ f ∷ [] } })
  push-IsKept f w c h = record {
    coherent = c;
    synced = h;
    due = λ q e. absurd (append_ne_nil f w.queue.q e);
  }

  -- Whether it is sent or waits, a request that is put in will carry all of the page.
  pub put_in-IsKept :
      (f : Request) (b : Bool) (w : World)
      → IsCoherent w.page
      → Synced w.page (held w)
      → IsKept quiet (put_in encode tz posting f b w)
  unfolding put_in
  put_in-IsKept f true w c h = send-IsKept f w c h
  put_in-IsKept f false w c h = elim (Bool-cases (is_running w.queue)) [
    | inl busy ↦ rw busy (push-IsKept f w c h)
    | inr free ↦ rw free (send_next-IsKept _ (push-IsKept f w c h))
  ]

  pub act-IsKept :
      (a : Action) (w : World)
      → MayAct encode tz posting quiet a w
      → IsKept quiet w
      → IsKept quiet (act encode tz posting a w)
  unfolding act on_page
  act-IsKept (edits cs ids) w (loud, p) h = record {
    coherent = p.coherent;
    synced = told-Synced w.page (edit cs ids w.page) (held w) p h.synced;
    due = λ q e. cc;
  }
  act-IsKept (posts params) w m h = elim (Option-cases (post_ajax params w.page)) [
    | inl e ↦ rw (e, act) h
    | inr (f, e) ↦ rw (e, act) (put_in-IsKept f f.is_async w h.coherent h.synced)
  ]

  pub act_all-IsKept :
      (more : List Action) (w : World)
      → MayActAll encode tz posting quiet more w
      → IsKept quiet w
      → IsKept quiet (act_all encode tz posting more w)
  unfolding act_all
  act_all-IsKept [] w m h = h
  act_all-IsKept (a ∷ more) w m h =
      act_all-IsKept more (act encode tz posting a w) m.1 (act-IsKept a w m.0 h)

  -- What the end of a request does to the page, and to the queue but for those that wait
  pub unblock-IsKept : (w : World) → IsKept quiet w → IsKept quiet (on_page on_success w)
  unfolding on_page on_success posted_value any_modified serve.Posting.is_modified
  unblock-IsKept w h =
      let c = h.coherent in
      record {
        coherent = record { one_value = c.one_value; has_parts = c.has_parts };
        synced = h.synced;
        due = h.due;
      }

  pub error-IsKept : (w : World) → IsKept quiet w → IsKept quiet (on_page display_ajax_error w)
  unfolding on_page display_ajax_error posted_value any_modified serve.Posting.is_modified
  error-IsKept w h =
      let c = h.coherent in
      record {
        coherent = record { one_value = c.one_value; has_parts = c.has_parts };
        synced = h.synced;
        due = h.due;
      }

  pub same-IsKept :
      (f : Ajaxq Request → Ajaxq Request) (w : World)
      → (f w.queue).q ≡ w.queue.q
      → IsKept quiet w
      → IsKept quiet (on_queue f w)
  unfolding on_queue
  same-IsKept f w e h = record {
    coherent = h.coherent;
    synced = h.synced;
    due = λ q k. h.due q (sym e ∙ k);
  }
