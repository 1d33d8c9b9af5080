-- ===== src/Value.antt =====
-- The values of the source's language as far as assets/js/goradd.js looks into them, and its helpers
-- over objects: `each`, `isEmptyObject`, `isPlainObject`. An object lists its own keys in the order in
-- which `for … in` visits them; no key stands twice. Numbers are natural numbers.
pub mod Keys
pub mod Extend
pub mod Unpack
use serve.Base.{
  ◌/◌, ◌%◌, get_elem?, ◌≡◌, refl, ◌≢◌, sym, ap, ◌∙◌, ℕ, zero, suc, ◌+◌, ◌-◌, ◌≤◌, ◌<◌, max, String,
  str_eq, str_append, eq_iff, eq_refl, Bool, true, false, not, ◌&&◌, ◌||◌, List, [], ◌∷◌, ◌++◌,
  arith, if◌then◌else◌, ◌==◌, ==_iff, ltb, leb, Bool-cases, Option-cases, inl, inr, ◌⊎◌, ◌↔◌, All,
  All-append, Option, none, some, append-nil, append_assoc, map, reverse, length, get_elem?,
}

mutual
  pub data Value : Type 0 where
    undefined : Value
    null : Value
    bool : Bool → Value
    num : ℕ → Value
    str : String → Value
    arr : Items → Value
    -- a plain object
    obj : Fields → Value
    -- any other object or function, by reference
    ref : ℕ → Value

  pub data Items : Type 0 where
    nil : Items
    cons : Value → Items → Items

  pub data Fields : Type 0 where
    end : Fields
    field : String → Value → Fields → Fields

-- `obj[key]`
unfoldable pub get : String → Fields → Value
get k end = undefined
get k (field j v fs) = if str_eq j k then v else get k fs

-- `obj.hasOwnProperty(key)`
unfoldable pub has : String → Fields → Bool
has k end = false
has k (field j v fs) = if str_eq j k then true else has k fs

-- `obj[key] = value`
unfoldable pub put : String → Value → Fields → Fields
put k v end = field k v end
put k v (field j w fs) = if str_eq j k then field j v fs else field j w (put k v fs)

-- The text of an index, `String(n)`; the fuel bounds the number of digits.
digits : ℕ → ℕ → String
digits zero n = ""
digits (suc fuel) n =
    let rest = digits fuel (n / 10) in
    let digit = nth_digit (n % 10) in if ltb n 10 then digit else str_append rest digit
  where
    nth_digit : ℕ → String
    nth_digit n =
        elim (get_elem? {A = String}
          ("0" ∷ "1" ∷ "2" ∷ "3" ∷ "4" ∷ "5" ∷ "6" ∷ "7" ∷ "8" ∷ "9" ∷ []) n) [
            | none ↦ ""
            | some c ↦ c
          ]

unfoldable pub index_key : ℕ → String
unfolding digits
index_key n = digits (suc n) n

-- What `each` takes for an array: `"length" in obj && typeof obj.length === "number" && …`
unfoldable pub array_like : Fields → Option ℕ
array_like fs = elim (get "length" fs) [
  | num n ↦ if n == 0 then some 0 else if has (index_key (n - 1)) fs then some n else none
  | _ ↦ none
]

-- The entries that `each` visits in an array, from an index on, and in an array-like object.
unfoldable pub item_entries : ℕ → Items → List (String × Value)
item_entries i nil = []
item_entries i (cons v vs) = (index_key i, v) ∷ item_entries (suc i) vs

unfoldable pub index_entries : ℕ → ℕ → Fields → List (String × Value)
index_entries zero i fs = []
index_entries (suc n) i fs = (index_key i, get (index_key i) fs) ∷ index_entries n (suc i) fs

unfoldable pub field_entries : Fields → List (String × Value)
field_entries end = []
field_entries (field k v fs) = (k, v) ∷ field_entries fs

-- The entries that `each` passes to its function, if that never returns false.
unfoldable pub each : Value → List (String × Value)
each (arr items) = item_entries 0 items
each (obj fs) = elim (array_like fs) [ some n ↦ index_entries n 0 fs | none ↦ field_entries fs ]
each _ = []

-- `isPlainObject`
unfoldable pub is_plain_object : Value → Bool
is_plain_object (obj fs) = true
is_plain_object _ = false
