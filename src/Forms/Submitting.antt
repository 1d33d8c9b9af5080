-- ===== src/Forms/Submitting.antt =====
-- What is submitted. `postBack` and the handler of `submit` in assets/js/goradd.js.
use serve.Base.{
  ◌≡◌, refl, ap, ◌∙◌, String, str_eq, Bool, true, false, ◌||◌, arith, if◌then◌else◌, some,
}
use serve.Forms.{
  Form, judge, lets_through, default_action, submit, on_submit, send_params, user_submits,
}

judged :
    (f : Form) (b : Bool)
    → str_eq f.params "" ≡ false
    → lets_through f ≡ b
    → on_submit f ≡ judge false b f
unfolding on_submit
judged f b h e = ap (λ a. judge a (lets_through f) f) h ∙ ap (λ a. judge false a f) e

-- What `postBack` puts into the form is submitted if the form lets it through, and else not; it stays
-- in the form in both cases.
pub send_params_lem :
    (value : String) (f : Form)
    → str_eq value "" ≡ false
    → ((send_params (some value) f).planned ≡ (if lets_through f then some value else f.planned))
      × ((send_params (some value) f).params ≡ value)
unfolding send_params submit lets_through judge
send_params_lem value f h = by (lets_through f) refl
  where
    filled : Form
    filled = record f { params = value }

    by :
        (b : Bool)
        → lets_through f ≡ b
        → ((on_submit filled).0.planned ≡ (if b then some value else f.planned))
          × ((on_submit filled).0.params ≡ value)
    by true e = let j = judged filled true h e in (ap (λ r. r.0.planned) j, ap (λ r. r.0.params) j)
    by false e =
        let j = judged filled false h e in (ap (λ r. r.0.planned) j, ap (λ r. r.0.params) j)

-- If `postBack` finds fields that are not valid, its parameters stay in the form: once the fields are
-- valid, a submission of the user sends them.
pub user_submits-send_params :
    (value : String) (f : Form)
    → str_eq value "" ≡ false
    → f.reports_validity ≡ true
    → f.novalidate ≡ false
    → f.valid ≡ false
    → (user_submits (record (send_params (some value) f) { valid = true })).planned ≡ some value
unfolding user_submits send_params submit lets_through judge default_action
user_submits-send_params value f h r n v =
    ap (λ g. (user_submits (record g { valid = true })).planned) (ap (λ q. q.0) first)
    ∙ ap (λ b. (if b then default_action (on_submit mended) else mended).planned)
        (free f.novalidate)
    ∙ ap (λ q. (default_action q).planned) (judged mended true h passes)
  where
    free : (b : Bool) → b || true ≡ true
    free b = ground arith

    filled : Form
    filled = record f { params = value }

    mended : Form
    mended = record filled { valid = true }

    first : on_submit filled ≡ (filled, false)
    first = judged filled false h (ground (arith, r, n, v))

    passes : lets_through mended ≡ true
    passes = ground arith
