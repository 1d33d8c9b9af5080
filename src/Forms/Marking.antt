-- ===== src/Forms/Marking.antt =====
-- What marking a radio button changes, of values and of the changes noted. assets/js/goradd.js.
use serve.Base.{
  ◌≡◌, refl, sym, ap, ◌∙◌, String, str_eq, eq_iff, eq_refl, Bool, true, false, not, ◌&&◌, ◌||◌,
  List, [], ◌∷◌, arith, if◌then◌else◌, Bool-cases, inl, inr, All, none, some, map, subst,
}
use serve.Base.Dict.{lookup, insert, lookup-insert}
use serve.Posting.{
  Page, Input, Kind, radio, checkbox, other, post_key, posted_value, checked_radio, is_modified,
}
use serve.Session.{any_modified}
use serve.Forms.{find_input, is_radio, check_one}

module _ (el : Input) where
  -- No two inputs share the id of the button.
  abbrev pub IsOnly : List Input → Type 0
  IsOnly xs = All (λ c. str_eq c.id el.id ≡ true → c ≡ el) xs

  abbrev pub in_group : Input → Bool
  in_group c = is_radio c.kind && str_eq c.name el.name

  -- An input that is not of the group stays as it is.
  pub check_one-other :
      (c : Input)
      → (str_eq c.id el.id ≡ true → c ≡ el)
      → in_group el ≡ true
      → in_group c ≡ false
      → check_one el c ≡ c
  unfolding check_one
  check_one-other c u e h = elim (Bool-cases (str_eq c.id el.id)) [
    | inl q ↦ absurd (differ (ap in_group (u q)))
    | inr q ↦ rw (q) (ground (arith, h))
  ]
    where
      differ : in_group c ≡ in_group el → ⊥
      differ q = cc

  -- The key under which an input is posted stays, and so does its id.
  pub check_one-key :
      (c : Input)
      → (post_key (check_one el c) ≡ post_key c)
        × ((check_one el c).id ≡ c.id)
        × ((check_one el c).name ≡ c.name)
  unfolding check_one post_key
  check_one-key c =
      by (str_eq c.id el.id) (is_radio c.kind && str_eq c.name el.name && not (str_eq el.name ""))
    where
      marked : Bool → Bool → Input
      marked a b =
          if a then record c { checked = true } else if b then record c { checked = false } else c

      by :
          (a b : Bool)
          → (post_key (marked a b) ≡ post_key c)
            × ((marked a b).id ≡ c.id)
            × ((marked a b).name ≡ c.name)
      by true b = (refl, refl, refl)
      by false true = (refl, refl, refl)
      by false false = (refl, refl, refl)

  -- What is chosen under another name stays chosen.
  pub checked_radio-other :
      (name : String) (xs : List Input)
      → in_group el ≡ true
      → IsOnly xs
      → str_eq name el.name ≡ false
      → checked_radio name (map (check_one el) xs) ≡ checked_radio name xs
  unfolding checked_radio
  checked_radio-other name [] g u h = refl
  checked_radio-other name (c ∷ xs) g (u, us) h = elim (Bool-cases (str_eq c.name name)) [
    | inl q ↦ rw (check_one-other c u g (apart q), checked_radio-other name xs g us h) refl
    | inr q ↦ rw ((check_one-key c).2, q, checked_radio-other name xs g us h) refl
  ]
    where
      apart : str_eq c.name name ≡ true → in_group c ≡ false
      apart q =
          ground (arith, subst (λ z. str_eq z el.name ≡ false) (sym ((eq_iff c.name name).0 q)) h)

  -- ... and so is the value of an input that is not of the group.
  pub posted_value-other :
      (old new : Page) (c : Input)
      → new.inputs ≡ map (check_one el) old.inputs
      → in_group el ≡ true
      → IsOnly old.inputs
      → in_group c ≡ false
      → posted_value new c ≡ posted_value old c
  unfolding posted_value is_radio
  posted_value-other old new c i g u h = by c.kind refl
    where
      named : c.kind ≡ radio → str_eq c.name el.name ≡ false
      named q = let r = ap is_radio q in ground (arith, h, r)

      by : (k : Kind) → c.kind ≡ k → posted_value new c ≡ posted_value old c
      by radio q = rw (posted_value, q, i, checked_radio-other c.name old.inputs g u (named q)) refl
      by checkbox q = rw (posted_value, q) refl
      by other q = rw (posted_value, q) refl

  abbrev pub noted : Page → String → Input → Bool
  noted page key c = str_eq (post_key c) key && (not (str_eq c.id "") && is_modified c.id page)

  pub is_modified-insert :
      (old new : Page) (id : String)
      → new.modified ≡ insert el.id true old.modified
      → is_modified id new ≡ (if str_eq el.id id then true else is_modified id old)
  unfolding is_modified
  is_modified-insert old new id m =
      ap (λ d. elim (lookup id d) [ some b ↦ b | none ↦ false ]) m
      ∙ ap (λ o. elim o [ some b ↦ b | none ↦ false ]) (lookup-insert el.id id true old.modified)
      ∙ by (str_eq el.id id)
    where
      by :
          (b : Bool)
          → (elim (if b then some true else lookup id old.modified) [ some b ↦ b | none ↦ false ])
            ≡ (if b then true else is_modified id old)
      by true = refl
      by false = refl

  pub noted-check :
      (page : Page) (key : String) (c : Input) → noted page key (check_one el c) ≡ noted page key c
  noted-check page key c =
      let k = check_one-key c in
      ap
        (λ z.
          str_eq z key
          && (not (str_eq (check_one el c).id "") && is_modified (check_one el c).id page))
        k.0
      ∙ ap (λ z. str_eq (post_key c) key && (not (str_eq z "") && is_modified z page)) k.1

  or_true : (b : Bool) → (b || true) ≡ true
  or_true b = ground arith

  -- What is noted of a key is noted of it afterwards.
  pub any_modified-check :
      (old new : Page) (key : String) (xs : List Input)
      → new.modified ≡ insert el.id true old.modified
      → any_modified old key xs ≡ true
      → any_modified new key (map (check_one el) xs) ≡ true
  unfolding any_modified
  any_modified-check old new key [] m h = cc
  any_modified-check old new key (c ∷ xs) m h = elim (Bool-cases (noted old key c)) [
    | inl e ↦
        ap (λ b. b || any_modified new key (map (check_one el) xs)) (noted-check new key c ∙ more e)
    | inr e ↦
        ap (λ b. noted new key (check_one el c) || b)
          (any_modified-check old new key xs m (sym (ap (λ b. b || any_modified old key xs) e) ∙ h))
        ∙ or_true _
  ]
    where
      more : noted old key c ≡ true → noted new key c ≡ true
      more e = ground (arith, e, is_modified-insert old new c.id m)

  -- The button is found, so a change is noted of its key.
  pub any_modified-found :
      (new : Page) (id : String) (xs : List Input)
      → find_input id xs ≡ some el
      → IsOnly xs
      → str_eq id "" ≡ false
      → is_modified el.id new ≡ true
      → any_modified new (post_key el) (map (check_one el) xs) ≡ true
  unfolding any_modified find_input
  any_modified-found new id [] f u n m = cc
  any_modified-found new id (c ∷ xs) f (u, us) n m = elim (Bool-cases (str_eq c.id id)) [
    | inl e ↦
        ap (λ b. b || any_modified new (post_key el) (map (check_one el) xs))
          (noted-check new (post_key el) c
            ∙ found (the_same (sym (ap (λ b. if b then some c else find_input id xs) e) ∙ f)) e)
    | inr e ↦
        ap (λ b. noted new (post_key el) (check_one el c) || b)
          (any_modified-found new id xs
            (sym (ap (λ b. if b then some c else find_input id xs) e) ∙ f) us n m)
        ∙ or_true _
  ]
    where
      the_same : some c ≡ some el → c ≡ el
      the_same q = cc

      found : c ≡ el → str_eq c.id id ≡ true → noted new (post_key el) c ≡ true
      found q e =
          subst (λ z. str_eq z.id id ≡ true → noted new (post_key el) z ≡ true) (sym q)
            (λ k. ground (
              arith,
              eq_refl (post_key el),
              m,
              subst (λ z. str_eq z "" ≡ false) (sym ((eq_iff el.id id).0 k)) n,
            ))
            e
