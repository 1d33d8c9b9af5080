-- ===== src/Redraw/Fired.antt =====
-- What the timer of `updateForm` of assets/js/goradd.js does when it fires.
use serve.Base.{
  All, length, ◌≡◌, refl, sym, ap, ◌∙◌, ℕ, ◌<◌, String, Bool, true, false, List, [], ◌∷◌, ◌++◌,
  arith, Bool-cases, inl, inr, none, append_assoc,
}
use serve.Value.{Value, Fields, end, has}
use serve.Posting.{Page, Request, post_ajax}
use serve.Timers.{Pending, has_timer}
use serve.Watchers.{contains}
use serve.Ajaxq.{Ajaxq, Reply, enqueue, is_running}
use serve.Ajaxq.Progress.{IsAnswer, load, all_of, dequeue_moves, answer_all_drains, enqueue-running}
use serve.Exchange.{World, posts, act, finish, receive_next, receives, replies, happen}
use serve.Exchange.Queue.{put_in-queue}
use serve.Exchange.Refresh.{KeepsRefresh, happen-refresh, act-refresh}
use serve.Exchange.Settled.{post_ajax_free}
use serve.Exchange.Answered.{round, rounds, rounds-queue, enqueue-load}
use serve.Redraw.{Client, update_name, fire_update}
use serve.Redraw.Due.{fire-unset}
use serve.Redraw.Asked.{IsAsked}

-- What the update posts
abbrev pub update : Request
update = record { params = end; is_async = false }

-- A function that is to wait stands behind all others.
all_of-enqueue : (f : Request) (s : Ajaxq Request) → all_of (enqueue f false s) ≡ all_of s ++ f ∷ []
unfolding enqueue
all_of-enqueue f s = elim (Bool-cases (is_running s)) [
  | inl busy ↦ rw busy (sym (append_assoc s.sent s.q (f ∷ [])))
  | inr free ↦
      rw free (
        (dequeue_moves (record s { q = s.q ++ f ∷ [] })).1 ∙ sym (append_assoc s.sent s.q (f ∷ [])))
]

module _ (encode : Fields → String) (tz : Value) (posting : Page → Page) where
  fired-queue :
      (p : Pending (Unit {0})) (spent : ℕ) (c : Client)
      → c.world.page.block_events ≡ false
      → (fire_update encode tz posting p spent c).world.queue ≡ enqueue update false c.world.queue
  unfolding fire_update act has
  fired-queue p spent c free =
      rw (post_ajax_free end c.world.page free, act)
        (put_in-queue encode tz posting update false c.world)

  -- If the timer fires while events are blocked, nothing is posted, and the timer is not set any more:
  -- what was asked for waits for some other post.
  pub fire_update-blocked :
      (p : Pending (Unit {0})) (spent : ℕ) (c : Client)
      → p.periodic ≡ false
      → p.id ≡ update_name
      → c.world.page.block_events ≡ true
      → ((fire_update encode tz posting p spent c).world ≡ c.world)
        × (has_timer update_name (fire_update encode tz posting p spent c).timers ≡ false)
  unfolding fire_update act post_ajax
  fire_update-blocked p spent c once name blocked =
      (rw (blocked_lem c.world.page blocked, act) refl, fire-unset p spent c.timers once name)
    where
      blocked_lem : (page : Page) → page.block_events ≡ true → post_ajax end page ≡ none
      blocked_lem page e = rw (e) refl

module _ (encode : Fields → String) (tz : Value) (posting : Page → Page) (parses : String → Bool)
    (keeps : KeepsRefresh posting) where
  round-refresh :
      (r : Reply) (w : World) → (round encode tz posting parses r w).page.refresh ≡ w.page.refresh
  unfolding round happen
  round-refresh r w = from w.queue.current
    where
      from :
          (rs : List (ℕ × Request))
          → (elim rs as (λ _. World) [
            | [] ↦ receive_next w
            | (id, f) ∷ _ ↦ finish encode tz posting parses id r [] [] (receive_next w)
          ]).page.refresh
            ≡ w.page.refresh
      from [] = happen-refresh encode tz posting keeps parses receives w
      from ((id, f) ∷ rs) =
          happen-refresh encode tz posting keeps parses (replies id r [] []) (receive_next w)
          ∙ happen-refresh encode tz posting keeps parses receives w

  rounds-refresh :
      (rs : List Reply) (w : World)
      → (rounds encode tz posting parses rs w).page.refresh ≡ w.page.refresh
  unfolding rounds
  rounds-refresh [] w = refl
  rounds-refresh (r ∷ rs) w =
      rounds-refresh rs (round encode tz posting parses r w) ∙ round-refresh r w

  -- If the update is due for a control that was asked for, the timer fires while events are not
  -- blocked, the page then does nothing but handle replies, in which it posts nothing, the handlers
  -- of posting ask for no refresh, and the requests are received and then answered, the oldest
  -- first, each with a reply of its own, whatever it is, for which no exception of `error` escapes:
  -- then after as many answers as there were functions waiting and requests in flight before, and
  -- one, all that waited has been sent in order, and the update last; the control is still among
  -- those that are asked for, and the timer is not set, so that the next message sets it.
  pub fire_update-rounds :
      (p : Pending (Unit {0})) (spent time : ℕ) (rs : List Reply) (id : String) (c : Client)
      → All (IsAnswer parses) rs
      → p.periodic ≡ false
      → p.id ≡ update_name
      → c.world.page.block_events ≡ false
      → load c.world.queue < length rs
      → IsAsked id time c
      → let c1 = fire_update encode tz posting p spent c in
        let t = rounds encode tz posting parses rs c1.world in
        (t.queue.q ≡ [])
        × (t.queue.current ≡ [])
        × (t.queue.sent ≡ (c.world.queue.sent ++ c.world.queue.q) ++ update ∷ [])
        × (contains t.page.refresh id ≡ true)
        × (has_timer update_name c1.timers ≡ false)
  unfolding fire_update
  fire_update-rounds p spent time rs id c answers once name free more h =
      let w1 : World = (fire_update encode tz posting p spent c).world in
      let posted = fired-queue encode tz posting p spent c free in
      let drained =
        answer_all_drains parses rs w1.queue answers
          (inr (ap is_running posted ∙ enqueue-running update false c.world.queue))
          (omega (arith, ap load posted, enqueue-load update false c.world.queue)) in
      let same = rounds-queue encode tz posting parses rs w1 in
      let kept = rounds-refresh rs w1 ∙ act-refresh encode tz posting keeps (posts end) c.world in
      (
        ap (λ s. s.q) same ∙ drained.0,
        ap (λ s. s.current) same ∙ drained.1,
        ap (λ s. s.sent) same ∙ drained.2 ∙ ap all_of posted ∙ all_of-enqueue update c.world.queue,
        ap (λ rs. contains rs id) kept ∙ h.asked,
        fire-unset p spent c.timers once name,
      )
