-- ===== src/Value/Unpack.antt =====
-- Unpacking the values that the server packs into JSON: `_unpackArray`, `_unpackObj` and
-- `unpackJsonDate` of assets/js/goradd.js. What the browser makes of code, dates, names and calls is
-- a parameter. Unpacking an entry twice or in another order gives the same value, so the entries of
-- an object are unpacked where they stand and then chosen as `each` visits them.
pub mod Plain
pub mod Typed
use serve.Base.{
  ◌≡◌, refl, ◌≢◌, sym, ap, ◌∙◌, ℕ, zero, suc, ◌+◌, ◌-◌, ◌≤◌, ◌<◌, max, String, str_eq, str_append,
  eq_iff, eq_refl, Bool, true, false, not, ◌&&◌, ◌||◌, List, [], ◌∷◌, ◌++◌, arith, if◌then◌else◌,
  ◌==◌, ==_iff, ltb, leb, Bool-cases, Option-cases, inl, inr, ◌⊎◌, ◌↔◌, All, All-append, Option,
  none, some, append-nil, append_assoc, map, reverse, length,
}
use serve.Value.{
  Value, undefined, null, bool, num, str, arr, obj, ref, Items, nil, cons, Fields, end, field, get,
  has, put, array_like, index_key,
}

-- The browser's part: `new Function`, `new Date` with and without `Date.UTC`, a property of a
-- value, `apply`, and `split(".")`.
pub record Browser : Type 0 where
  pub new_function : Items → Value → Value
  pub local_date : Fields → Value
  pub utc_date : Fields → Value
  pub window : Value
  pub property : Value → String → Value
  pub apply : Value → Value → Items → Value
  pub split_dots : String → List String

-- What the source's tests take for true.
unfoldable pub truthy : Value → Bool
truthy undefined = false
truthy null = false
truthy (bool b) = b
truthy (num n) = not (n == 0)
truthy (str s) = not (str_eq s "")
truthy (arr items) = true
truthy (obj fs) = true
truthy (ref n) = true

-- The new object that a loop by `each` fills, from the unpacked fields of the old one.
unfoldable pub fill_indices : ℕ → ℕ → Fields → Fields
fill_indices zero i fs = end
fill_indices (suc n) i fs = field (index_key i) (get (index_key i) fs) (fill_indices n (suc i) fs)

unfoldable pub refill : Option ℕ → Fields → Fields
refill none fs = fs
refill (some n) fs = fill_indices n 0 fs

unfoldable pub values_of : Fields → Items
values_of end = nil
values_of (field k v fs) = cons v (values_of fs)

module _ (b : Browser) where
  open b use {new_function, local_date, utc_date, window, property, apply, split_dots}

  -- `unpackJsonDate`
  unfoldable pub unpack_json_date : Fields → Value
  unpack_json_date o =
      if truthy (get "z" o) then null else if truthy (get "t" o) then utc_date o else local_date o

  -- The loop that follows a path of names.
  unfoldable pub walk : Value → List String → Value
  walk v [] = v
  walk v (name ∷ names) = walk (property v name) names

  unfoldable pub text_of : Value → String
  text_of (str s) = s
  text_of v = ""

  -- The parameters of a closure or a call, which come as an array or not at all.
  unfoldable pub params_of : Value → Items
  params_of (arr items) = items
  params_of v = nil

  -- The branches on `obj.goraddObject`, given the object and its unpacked fields.
  unfoldable pub unpack_special : String → Fields → Fields → Value
  unpack_special kind o unpacked =
      if str_eq kind "closure"
      then new_function (params_of (get "params" unpacked)) (get "func" o)
      else if str_eq kind "date"
      then unpack_json_date o
      else if str_eq kind "varName"
      then walk window (split_dots (text_of (get "varName" o)))
      else if str_eq kind "func"
      then (let target =
            if truthy (get "context" o)
            then walk window (split_dots (text_of (get "context" o)))
            else window in
          apply (property target (text_of (get "func" o))) target
            (params_of (get "params" unpacked)))
      else obj o

  -- An object: a special one if `goraddObject` is set, and else a new one.
  unfoldable pub unpack_fields_of : Fields → Fields → Value
  unpack_fields_of o unpacked =
      if truthy (get "goraddObject" o)
      then unpack_special (text_of (get "goraddObject" o)) o unpacked
      else obj (refill (array_like o) unpacked)

  unfoldable mutual
    -- `_unpackObj`
    pub unpack_obj : Value → Value
    unpack_obj (arr items) = arr (unpack_items items)
    unpack_obj (obj o) = unpack_fields_of o (unpack_fields o)
    unpack_obj v = v

    -- The loop of `_unpackArray`: an array or an object in it is unpacked as `_unpackObj` does.
    pub unpack_items : Items → Items
    unpack_items nil = nil
    unpack_items (cons v vs) = cons (unpack_obj v) (unpack_items vs)

    pub unpack_fields : Fields → Fields
    unpack_fields end = end
    unpack_fields (field k v fs) = field k (unpack_obj v) (unpack_fields fs)

  -- `_unpackArray`. An object is read by `each` too, and any other value has no entries.
  unfoldable pub unpack_entries : Value → Items
  unpack_entries (arr items) = unpack_items items
  unpack_entries (obj o) = values_of (refill (array_like o) (unpack_fields o))
  unpack_entries v = nil

  unfoldable pub unpack_array : Value → Value
  unpack_array params = if truthy params then arr (unpack_entries params) else null
