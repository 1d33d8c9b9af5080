-- ===== src/Forms/Radio.antt =====
-- What `setRadioInGroup` of assets/js/goradd.js tells of the buttons that it changes.
use serve.Base.{
  [], ◌∷◌, All-map_at, ◌≡◌, refl, sym, ap, ◌∙◌, ℕ, String, str_eq, eq_iff, eq_refl, Bool, true,
  false, arith, Bool-cases, inl, inr, All, some, map, get_elem?, and_true, All-get,
}
use serve.Posting.{
  Page, Input, Kind, radio, checkbox, other, post_key, posted_value, is_modified, form_obj_changed,
}
use serve.Session.Sync.{All-map}
use serve.Value.{Value, Fields}
use serve.Session.{IsTold, IsCoherent, ServerView, Step, edits, edit, tell_all, any_modified}
use serve.Forms.{
  find_input, is_radio, checked_in_group, check_one, check_radio, set_radio_of, set_radio_in_group,
}
use serve.Forms.Marking.{
  IsOnly, in_group, check_one-other, check_one-key, posted_value-other, is_modified-insert,
  any_modified-check, any_modified-found,
}

module _ (id : String) (page : Page) (el : Input) where
  abbrev pub changed : Page
  changed = form_obj_changed el.id (check_radio el page)

  key_of_radio : (c : Input) → is_radio c.kind ≡ true → post_key c ≡ c.name
  unfolding post_key is_radio
  key_of_radio c h = by c.kind refl
    where
      clash : is_radio c.kind ≡ false → ⊥
      clash e = cc

      by : (k : Kind) → c.kind ≡ k → post_key c ≡ c.name
      by radio e = rw (e) refl
      by checkbox e = absurd (clash (ap is_radio e))
      by other e = absurd (clash (ap is_radio e))

  -- Every input of the page is told of once the button is checked.
  check-IsTold :
      find_input id page.inputs ≡ some el
      → IsOnly el page.inputs
      → is_radio el.kind ≡ true
      → str_eq id "" ≡ false
      → All (IsTold page changed) (map (check_one el) page.inputs)
  unfolding form_obj_changed check_radio
  check-IsTold f u r n = All-map_at (IsTold page changed) (check_one el) page.inputs one
    where
      group : in_group el el ≡ true
      group = ground (arith, r, eq_refl el.name)

      noted_now : is_modified el.id changed ≡ true
      noted_now = ground (arith, is_modified-insert el page changed el.id refl, eq_refl el.id)

      both : {b : Bool} → b ≡ false → b ≡ true → ⊥
      both p q = cc

      same_key : (c : Input) → in_group el c ≡ true → post_key (check_one el c) ≡ post_key el
      same_key c e =
          let k = and_true (is_radio c.kind) (str_eq c.name el.name) e in
          (check_one-key el c).0
          ∙ key_of_radio c k.0
          ∙ (eq_iff c.name el.name).0 k.1
          ∙ sym (key_of_radio el r)

      value :
          (i : ℕ) (c : Input)
          → get_elem? page.inputs i ≡ some c
          → in_group el c ≡ false
          → posted_value page c ≡ posted_value changed (check_one el c)
      value i c at g = sym (
          ap (posted_value changed) (check_one-other el c (All-get _ page.inputs i u at) group g)
          ∙ posted_value-other el page changed c refl group u g)

      quiet_before :
          (key : String)
          → any_modified changed key changed.inputs ≡ false
          → any_modified page key page.inputs ≡ false
      quiet_before key e = elim (Bool-cases (any_modified page key page.inputs)) [
        | inl m ↦ absurd (both e (any_modified-check el page changed key page.inputs refl m))
        | inr m ↦ m
      ]

      apart :
          (c : Input)
          → any_modified changed (post_key (check_one el c)) changed.inputs ≡ false
          → in_group el c ≡ false
      apart c quiet = elim (Bool-cases (in_group el c)) [
        | inl e ↦ absurd (
            both quiet (
              ap (λ k. any_modified changed k changed.inputs) (same_key c e)
              ∙ any_modified-found el changed id page.inputs f u n noted_now))
        | inr e ↦ e
      ]

      one :
          (i : ℕ) (c : Input)
          → get_elem? page.inputs i ≡ some c
          → IsTold page changed (check_one el c)
      one i c at =
          elim (Bool-cases (any_modified changed (post_key (check_one el c)) changed.inputs)) [
            | inl e ↦ inl e
            | inr e ↦ inr (
              c,
              i,
              at,
              sym (check_one-key el c).0,
              value i c at (apart c e),
              quiet_before (post_key (check_one el c)) e,
            )
          ]

  -- If a radio button of its group is checked, the id is not empty and no other input has it, and the
  -- page is coherent afterwards, then `setRadioInGroup` is a step of the page with the server: an
  -- edit of which every changed input is told.
  pub set_radio_in_group-Step :
      (encode : Fields → String) (tz : Value) (view : ServerView)
      → find_input id page.inputs ≡ some el
      → IsOnly el page.inputs
      → is_radio el.kind ≡ true
      → str_eq id "" ≡ false
      → str_eq el.name "" ≡ false
      → checked_in_group el.name page.inputs ≡ true
      → IsCoherent changed
      → (new : Page) × (set_radio_in_group id page ≡ some new) × Step encode tz page view new view
  unfolding edit tell_all check_radio form_obj_changed set_radio_in_group set_radio_of
  set_radio_in_group-Step encode tz view f u r n named chosen coherent = (
    changed,
    ap (λ o. set_radio_of o page) f ∙ ground (arith, r, named, chosen),
    edits (map (check_one el) page.inputs) (el.id ∷ []) (record {
      coherent = coherent;
      told = All-map (IsTold page changed) _ (λ c t ctl. t) changed.inputs (check-IsTold f u r n);
    }),
  )
