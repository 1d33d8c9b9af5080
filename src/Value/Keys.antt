-- ===== src/Value/Keys.antt =====
-- Keys of objects, and the loops over objects of assets/js/goradd.js.
use serve.Base.{◌≡◌, refl, String, str_eq, eq_iff, false, ◌||◌, [], arith, if◌then◌else◌, none}
use serve.Value.{
  Value, undefined, num, obj, Fields, end, field, get, has, put, array_like, each, field_entries,
  index_entries,
}

-- No key stands twice.
abbrev pub Keyed : Fields → Type 0
Keyed end = Unit
Keyed (field k v fs) = (has k fs ≡ false) × Keyed fs

pub get-put :
    (k j : String) (v : Value) (fs : Fields)
    → get j (put k v fs) ≡ (if str_eq k j then v else get j fs)
unfolding get put
get-put k j v end = refl
get-put k j v (field i w fs) = ground (arith, eq_iff k j, eq_iff i k, eq_iff i j, get-put k j v fs)

pub has-put :
    (k j : String) (v : Value) (fs : Fields) → has j (put k v fs) ≡ (str_eq k j || has j fs)
unfolding has put
has-put k j v end = ground arith
has-put k j v (field i w fs) = ground (arith, eq_iff k j, eq_iff i k, eq_iff i j, has-put k j v fs)

pub get_missing : (k : String) (fs : Fields) → has k fs ≡ false → get k fs ≡ undefined
unfolding get has
get_missing k end h = refl
get_missing k (field j v fs) h = ground (arith, get_missing k fs)

-- `each` visits every field of an object that does not look like an array, and of one with the
-- length 0 it visits none.
pub each-obj :
    (fs : Fields)
    → (array_like fs ≡ none → each (obj fs) ≡ field_entries fs)
      × (get "length" fs ≡ num 0 → each (obj fs) ≡ [])
unfolding each array_like index_entries
each-obj fs = (λ e. rw (each, e), λ e. rw (each, array_like, e))
