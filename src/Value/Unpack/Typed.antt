-- ===== src/Value/Unpack/Typed.antt =====
-- The types of what `_unpackArray` of assets/js/goradd.js makes of the values that the server packs:
-- dates and closures come as marked objects, and all else as JSON. What the language
-- takes for a date or a function is a parameter.
use serve.Base.{◌≡◌, refl, sym, subst, ap, ◌∙◌, ℕ, String, Bool, true, false, Bool-cases, inl, inr}
use serve.Value.{Value, null, bool, num, str, arr, obj, Items, nil, cons, Fields, end, field, get}
use serve.Value.Unpack.{
  Browser, truthy, unpack_obj, unpack_items, unpack_fields, unpack_fields_of, unpack_special,
  unpack_array, unpack_entries, unpack_json_date, text_of,
}
use serve.Value.Unpack.Plain.{is_ordinary, ordinary_lem}

mutual
  pub data Ty : Type 0 where
    text : Ty
    number : Ty
    flag : Ty
    nothing : Ty
    date : Ty
    function : Ty
    -- an array, with the type of each item
    list : Types → Ty
    -- an object, with the names and types of its entries
    object : Row → Ty

  pub data Types : Type 0 where
    none_left : Types
    more : Ty → Types → Types

  pub data Row : Type 0 where
    close : Row
    entry : String → Ty → Row → Row

module _ (is_date is_function : Value → Bool) where
  -- The type of a value of the language
  mutual
    pub data HasType : Value → Ty → Type 0 where
      text : {s : String} → HasType (str s) Ty.text
      number : {n : ℕ} → HasType (num n) Ty.number
      flag : {b : Bool} → HasType (bool b) Ty.flag
      nothing : HasType null Ty.nothing
      date : {v : Value} → is_date v ≡ true → HasType v Ty.date
      function : {v : Value} → is_function v ≡ true → HasType v Ty.function
      list : {vs : Items} {ts : Types} → HaveTypes vs ts → HasType (arr vs) (Ty.list ts)
      object : {fs : Fields} {row : Row} → Fits fs row → HasType (obj fs) (Ty.object row)

    pub data HaveTypes : Items → Types → Type 0 where
      none_left : HaveTypes nil Types.none_left
      more :
          {v : Value} {vs : Items} {t : Ty} {ts : Types}
          → HasType v t
          → HaveTypes vs ts
          → HaveTypes (cons v vs) (Types.more t ts)

    pub data Fits : Fields → Row → Type 0 where
      close : Fits end Row.close
      entry :
          {k : String} {v : Value} {fs : Fields} {t : Ty} {row : Row}
          → HasType v t
          → Fits fs row
          → Fits (field k v fs) (Row.entry k t row)

-- What the server packs for a value of a type
mutual
  pub data Packs : Value → Ty → Type 0 where
    text : {s : String} → Packs (str s) Ty.text
    number : {n : ℕ} → Packs (num n) Ty.number
    flag : {b : Bool} → Packs (bool b) Ty.flag
    nothing : Packs null Ty.nothing
    -- a date, and the zero date of Go, for which the page has none
    date :
        {o : Fields}
        → get "goraddObject" o ≡ str "date"
        → truthy (get "z" o) ≡ false
        → Packs (obj o) Ty.date
    zero_date :
        {o : Fields}
        → get "goraddObject" o ≡ str "date"
        → truthy (get "z" o) ≡ true
        → Packs (obj o) Ty.nothing
    closure : {o : Fields} → get "goraddObject" o ≡ str "closure" → Packs (obj o) Ty.function
    list : {vs : Items} {ts : Types} → AllPack vs ts → Packs (arr vs) (Ty.list ts)
    object :
        {fs : Fields} {row : Row}
        → is_ordinary fs ≡ true
        → RowPacks fs row
        → Packs (obj fs) (Ty.object row)

  pub data AllPack : Items → Types → Type 0 where
    none_left : AllPack nil Types.none_left
    more :
        {v : Value} {vs : Items} {t : Ty} {ts : Types}
        → Packs v t
        → AllPack vs ts
        → AllPack (cons v vs) (Types.more t ts)

  pub data RowPacks : Fields → Row → Type 0 where
    close : RowPacks end Row.close
    entry :
        {k : String} {v : Value} {fs : Fields} {t : Ty} {row : Row}
        → Packs v t
        → RowPacks fs row
        → RowPacks (field k v fs) (Row.entry k t row)

-- `new Function` makes functions, and `new Date` dates.
pub record IsLawful (is_date is_function : Value → Bool) (b : Browser) : Type 0 where
  pub makes_function :
      (params : Items) (code : Value) → is_function (b.new_function params code) ≡ true
  pub makes_local : (o : Fields) → is_date (b.local_date o) ≡ true
  pub makes_utc : (o : Fields) → is_date (b.utc_date o) ≡ true

module _ (is_date is_function : Value → Bool) (b : Browser)
    (lawful : IsLawful is_date is_function b) where
  unpack_date :
      (o unpacked : Fields)
      → get "goraddObject" o ≡ str "date"
      → unpack_fields_of b o unpacked ≡ unpack_json_date b o
  unfolding unpack_fields_of unpack_special truthy text_of
  unpack_date o unpacked e = rw (e) refl

  unpack_closure :
      (o unpacked : Fields)
      → get "goraddObject" o ≡ str "closure"
      → is_function (unpack_fields_of b o unpacked) ≡ true
  unfolding unpack_fields_of unpack_special truthy text_of
  unpack_closure o unpacked e = rw (e) (lawful.makes_function _ _)

  json_date-date : (o : Fields) → truthy (get "z" o) ≡ false → is_date (unpack_json_date b o) ≡ true
  unfolding unpack_json_date
  json_date-date o z = elim (Bool-cases (truthy (get "t" o))) [
    | inl t ↦ rw (z, t) (lawful.makes_utc o)
    | inr t ↦ rw (z, t) (lawful.makes_local o)
  ]

  json_date-zero : (o : Fields) → truthy (get "z" o) ≡ true → unpack_json_date b o ≡ null
  unfolding unpack_json_date
  json_date-zero o z = rw (z) refl

  abbrev Typed : Value → Ty → Type 0
  Typed = HasType is_date is_function

  mutual
    unfolding unpack_obj

    unpack_obj-HasType : (v : Value) (t : Ty) → Packs v t → Typed (unpack_obj b v) t
    unpack_obj-HasType _ _ text = HasType.text
    unpack_obj-HasType _ _ number = HasType.number
    unpack_obj-HasType _ _ flag = HasType.flag
    unpack_obj-HasType _ _ nothing = HasType.nothing
    unpack_obj-HasType _ _ (date {o} e z) =
        HasType.date (ap is_date (unpack_date o (unpack_fields b o) e) ∙ json_date-date o z)
    unpack_obj-HasType _ _ (zero_date {o} e z) =
        subst (λ v. Typed v Ty.nothing)
          (sym (unpack_date o (unpack_fields b o) e ∙ json_date-zero o z)) HasType.nothing
    unpack_obj-HasType _ _ (closure {o} e) =
        HasType.function (unpack_closure o (unpack_fields b o) e)
    unpack_obj-HasType _ _ (list {vs} {ts} h) = HasType.list (unpack_items-HaveTypes vs ts h)
    unpack_obj-HasType _ _ (object {fs} {row} ordinary h) =
        subst (λ v. Typed v (Ty.object row)) (sym (ordinary_lem b fs (unpack_fields b fs) ordinary))
          (HasType.object (unpack_fields-Fits fs row h))

    unpack_items-HaveTypes :
        (vs : Items) (ts : Types)
        → AllPack vs ts
        → HaveTypes is_date is_function (unpack_items b vs) ts
    unpack_items-HaveTypes _ _ none_left = HaveTypes.none_left
    unpack_items-HaveTypes _ _ (more {v} {vs} {t} {ts} h k) =
        HaveTypes.more (unpack_obj-HasType v t h) (unpack_items-HaveTypes vs ts k)

    unpack_fields-Fits :
        (fs : Fields) (row : Row)
        → RowPacks fs row
        → Fits is_date is_function (unpack_fields b fs) row
    unpack_fields-Fits _ _ close = Fits.close
    unpack_fields-Fits _ _ (entry {k} {v} {fs} {t} {row} h r) =
        Fits.entry (unpack_obj-HasType v t h) (unpack_fields-Fits fs row r)

  -- If `new Function` makes functions and `new Date` dates, then an array of values that the server
  -- packs, each for a value of its type, comes out of `_unpackArray` as an array of values of these
  -- types, at any depth: texts, numbers, Booleans, dates, closures, arrays, and objects with named
  -- entries, of which none is marked as special or looks like an array. The zero date comes out as
  -- null.
  pub unpack_array-HasType :
      (vs : Items) (ts : Types) → AllPack vs ts → Typed (unpack_array b (arr vs)) (Ty.list ts)
  unfolding unpack_array unpack_entries truthy
  unpack_array-HasType vs ts h = HasType.list (unpack_items-HaveTypes vs ts h)
