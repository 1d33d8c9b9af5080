-- ===== src/Exchange/Drawn.antt =====
-- What the server draws again it holds. The controls that a reply of assets/js/goradd.js replaces.
use serve.Base.{
  ◌≡◌, refl, sym, ap, subst, ◌∙◌, ℕ, zero, suc, String, str_eq, eq_refl, Bool, true, false, List,
  [], ◌∷◌, Bool-cases, inl, inr, ◌⊎◌, All, All-get, none, some, get_elem?,
}
use serve.Posting.{Page, Input, Posted, Part, post_key, posted_value, parts_of}
use serve.Session.{ServerView, IsCoherent, IsControl, Synced, Agrees, any_modified}
use serve.Session.Sync.{All-at, control_of}
use serve.Exchange.{World, find_key, hold, draw, receive_all}
use serve.Exchange.Kept.{held, IsKept}

-- A control that was not drawn is as it was, and so are the changes noted under its key.
abbrev pub IsUntouched : (String → Bool) → Page → Page → Input → Type 0
IsUntouched drawn old new c =
    (d : Input) × (i : ℕ) × (get_elem? old.inputs i ≡ some d)
    × (post_key d ≡ post_key c)
    × (posted_value old d ≡ posted_value new c)
    × (any_modified new (post_key c) new.inputs ≡ any_modified old (post_key c) old.inputs)
    × (drawn (post_key c) ≡ false)

-- All that was sent is received, and each control is drawn or untouched.
pub record MayDraw (drawn : String → Bool) (cs : List Input) (w : World) : Type 0 where
  pub received : w.wire ≡ []
  pub coherent : IsCoherent (record w.page { inputs = cs })
  pub each :
      All
        (λ c.
          (drawn (post_key c) ≡ true) ⊎ IsUntouched drawn w.page (record w.page { inputs = cs }) c)
        cs

find_key-parts :
    (page : Page) (k : String) (v : Posted) (other : List (String × Part)) (cs : List Input) (i : ℕ)
    {c : Input}
    → All (λ d. str_eq (post_key d) k ≡ true → posted_value page d ≡ v) cs
    → get_elem? cs i ≡ some c
    → str_eq (post_key c) k ≡ true
    → (elim (find_key k cs) as (λ _. List (String × Part)) [
      | none ↦ other
      | some d ↦ parts_of k (posted_value page d)
    ])
      ≡ parts_of k v
unfolding find_key
find_key-parts page k v other [] i h at e = cc
find_key-parts page k v other (d ∷ cs) zero h at e = elim (Bool-cases (str_eq (post_key d) k)) [
  | inl same ↦ rw (same, find_key) (ap (parts_of k) (h.0 same))
  | inr not_same ↦ cc
]
find_key-parts page k v other (d ∷ cs) (suc i) h at e = elim (Bool-cases (str_eq (post_key d) k)) [
  | inl same ↦ rw (same, find_key) (ap (parts_of k) (h.0 same))
  | inr not_same ↦ rw (not_same, find_key) (find_key-parts page k v other cs i h.1 at e)
]

hold-drawn :
    (drawn : String → Bool) (page : Page) (view : ServerView) (i : ℕ) (c : Input)
    → IsCoherent page
    → get_elem? page.inputs i ≡ some c
    → drawn (post_key c) ≡ true
    → hold drawn page view (post_key c) ≡ parts_of (post_key c) (posted_value page c)
unfolding hold
hold-drawn drawn page view i c h at e =
    rw (e, hold)
      (find_key-parts page (post_key c) (posted_value page c) (view (post_key c)) page.inputs i
        (All-get _ page.inputs i h.one_value at) at (eq_refl (post_key c)))

hold-untouched :
    (drawn : String → Bool) (page : Page) (view : ServerView) (k : String)
    → drawn k ≡ false
    → hold drawn page view k ≡ view k
unfolding hold
hold-untouched drawn page view k e = rw (e, hold) refl

module _ (drawn : String → Bool) (cs : List Input) (w : World) (may : MayDraw drawn cs w) where
  -- The page with the controls that were drawn
  abbrev new : Page
  new = record w.page { inputs = cs }

  drawn-Synced : Synced w.page w.view → Synced new (hold drawn new w.view)
  drawn-Synced h = All-at _ cs one
    where
      untouched :
          (c : Input)
          → IsControl c
          → IsUntouched drawn w.page new c
          → (any_modified new (post_key c) cs ≡ true)
            ⊎ (hold drawn new w.view (post_key c) ≡ parts_of (post_key c) (posted_value new c))
      untouched c ctl (d, i, at, key, value, notes, other) =
          elim (All-get _ w.page.inputs i h at (control_of c d key ctl)) [
            | inl m ↦ inl (notes ∙ ap (λ k. any_modified w.page k w.page.inputs) (sym key) ∙ m)
            | inr v ↦ inr (hold-untouched drawn new w.view (post_key c) other ∙ cc)
          ]

      one :
          (i : ℕ) (c : Input)
          → get_elem? cs i ≡ some c
          → IsControl c
          → (any_modified new (post_key c) cs ≡ true)
            ⊎ (hold drawn new w.view (post_key c) ≡ parts_of (post_key c) (posted_value new c))
      one i c at ctl = elim (All-get _ cs i may.each at) [
        | inl e ↦ inr (hold-drawn drawn new w.view i c may.coherent at e)
        | inr u ↦ untouched c ctl u
      ]

  drawn-Agrees : Agrees w.page w.view → Agrees new (hold drawn new w.view)
  drawn-Agrees h = All-at _ cs one
    where
      untouched :
          (c : Input)
          → IsControl c
          → IsUntouched drawn w.page new c
          → hold drawn new w.view (post_key c) ≡ parts_of (post_key c) (posted_value new c)
      untouched c ctl (d, i, at, key, value, notes, other) =
          let v = All-get _ w.page.inputs i h at (control_of c d key ctl) in
          hold-untouched drawn new w.view (post_key c) other ∙ cc

      one :
          (i : ℕ) (c : Input)
          → get_elem? cs i ≡ some c
          → IsControl c
          → hold drawn new w.view (post_key c) ≡ parts_of (post_key c) (posted_value new c)
      one i c at ctl = elim (All-get _ cs i may.each at) [
        | inl e ↦ hold-drawn drawn new w.view i c may.coherent at e
        | inr u ↦ untouched c ctl u
      ]

  -- What is drawn keeps the page and the server in step.
  pub draw-IsKept : (quiet : Bool) → IsKept quiet w → IsKept quiet (draw drawn cs w)
  unfolding draw receive_all
  draw-IsKept quiet k =
      let arrived : held w ≡ w.view = rw (may.received, receive_all) refl in
      let still : held (draw drawn cs w) ≡ hold drawn new w.view =
        rw (may.received, receive_all) refl in
      record {
        coherent = may.coherent;
        synced =
            subst (Synced new) (sym still) (drawn-Synced (subst (Synced w.page) arrived k.synced));
        due = λ q e.
            subst (Agrees new) (sym still)
              (drawn-Agrees (subst (Agrees w.page) arrived (k.due q e)));
      }
