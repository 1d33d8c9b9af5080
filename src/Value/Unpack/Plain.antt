-- ===== src/Value/Unpack/Plain.antt =====
-- What unpacking in assets/js/goradd.js leaves alone, and what it loses.
use mathlib.Core.Path.{ap₂}
use serve.Base.{
  and_true, ◌≡◌, refl, ap, ◌∙◌, Bool, true, false, not, ◌&&◌, arith, Option-cases, inl, inr, none,
  some,
}
use serve.Value.{Value, num, arr, obj, Items, nil, cons, Fields, end, field, get, array_like}
use serve.Value.Unpack.{
  Browser, truthy, refill, fill_indices, unpack_fields_of, unpack_obj, unpack_items, unpack_fields,
  unpack_array, unpack_entries,
}

-- An object that is neither marked as special nor looks like an array.
unfoldable pub is_ordinary : Fields → Bool
is_ordinary o =
    not (truthy (get "goraddObject" o)) && (elim (array_like o) [ none ↦ true | some n ↦ false ])

-- Values in which, at every depth, each object is ordinary.
unfoldable mutual
  pub is_plain_json : Value → Bool
  is_plain_json (arr items) = are_plain_items items
  is_plain_json (obj o) = is_ordinary o && are_plain_fields o
  is_plain_json v = true

  pub are_plain_items : Items → Bool
  are_plain_items nil = true
  are_plain_items (cons v vs) = is_plain_json v && are_plain_items vs

  pub are_plain_fields : Fields → Bool
  are_plain_fields end = true
  are_plain_fields (field k v fs) = is_plain_json v && are_plain_fields fs

module _ (b : Browser) where
  pub ordinary_lem :
      (o unpacked : Fields) → is_ordinary o ≡ true → unpack_fields_of b o unpacked ≡ obj unpacked
  unfolding is_ordinary unpack_fields_of refill
  ordinary_lem o unpacked h = elim (Option-cases (array_like o)) [
    | inl e ↦ ground (arith, e)
    | inr (n, e) ↦ ground (arith, e)
  ]

  mutual
    unfolding unpack_obj is_plain_json

    unpack_obj_plain : (v : Value) → is_plain_json v ≡ true → unpack_obj b v ≡ v
    unpack_obj_plain (arr items) h = ap arr (unpack_items_plain items h)
    unpack_obj_plain (obj o) h =
        let (ordinary, plain) = and_true (is_ordinary o) (are_plain_fields o) h in
        ordinary_lem o (unpack_fields b o) ordinary ∙ ap obj (unpack_fields_plain o plain)
    unpack_obj_plain _ h = refl

    unpack_items_plain : (vs : Items) → are_plain_items vs ≡ true → unpack_items b vs ≡ vs
    unpack_items_plain nil h = refl
    unpack_items_plain (cons v vs) h =
        let (p, q) = and_true (is_plain_json v) (are_plain_items vs) h in
        ap₂ cons (unpack_obj_plain v p) (unpack_items_plain vs q)

    unpack_fields_plain : (fs : Fields) → are_plain_fields fs ≡ true → unpack_fields b fs ≡ fs
    unpack_fields_plain end h = refl
    unpack_fields_plain (field k v fs) h =
        let (p, q) = and_true (is_plain_json v) (are_plain_fields fs) h in
        ap₂ (field k) (unpack_obj_plain v p) (unpack_fields_plain fs q)

  -- Values with no special object, and with no object that `each` takes for an array, come through
  -- unpacking as they are, at any depth; so do the parameters of a command.
  pub unpack_plain :
      (items : Items)
      → are_plain_items items ≡ true
      → (unpack_array b (arr items) ≡ arr items) × (unpack_obj b (arr items) ≡ arr items)
  unfolding unpack_array unpack_entries truthy unpack_obj
  unpack_plain items h = (ap arr (unpack_items_plain items h), ap arr (unpack_items_plain items h))

  array_like_zero : (o : Fields) → get "length" o ≡ num 0 → array_like o ≡ some 0
  unfolding array_like
  array_like_zero o e = rw (array_like, e)

  length_zero_lem :
      (o unpacked : Fields)
      → truthy (get "goraddObject" o) ≡ false
      → get "length" o ≡ num 0
      → unpack_fields_of b o unpacked ≡ obj end
  unfolding unpack_fields_of refill fill_indices
  length_zero_lem o unpacked h e = rw (h, array_like_zero o e)

  -- An object with the entry `length: 0` loses all its entries, since `each` takes it for an empty
  -- array.
  pub unpack_obj_length_zero :
      (o : Fields)
      → truthy (get "goraddObject" o) ≡ false
      → get "length" o ≡ num 0
      → unpack_obj b (obj o) ≡ obj end
  unfolding unpack_obj
  unpack_obj_length_zero o h e = length_zero_lem o (unpack_fields b o) h e
