-- ===== src/Value/Extend/Options.antt =====
-- What `goradd.extendOptions` of assets/js/goradd.js makes of defaults and given options.
use serve.Base.{◌≡◌, refl, ◌∙◌, String, eq_iff, true, false, [], ◌∷◌, arith, if◌then◌else◌, none}
use serve.Value.{
  Value, undefined, null, bool, num, str, arr, obj, ref, Fields, end, field, get, has, put,
  array_like, field_entries,
}
use serve.Value.Keys.{Keyed, each-obj, get-put, get_missing}
use serve.Value.Extend.{
  is_undefined, merged, merge, merge_all, extend, option_value, put_options, extend_options,
}
use serve.Value.Extend.Merge.{get-merge, is_undefined_undefined}

get-put_options :
    (k : String) (defaults user options : Fields)
    → Keyed user
    → get k (put_options defaults (field_entries user) options)
      ≡ (if has k user then option_value defaults k (get k user) else get k options)
unfolding put_options field_entries has get
get-put_options k defaults end options d = refl
get-put_options k defaults (field j v fs) options d =
    get-put_options k defaults fs (put j (option_value defaults j v) options) d.1
    ∙ ground (arith, eq_iff j k, get-put j k (option_value defaults j v) options)

merged_defined : (old v : Value) → is_undefined v ≡ true → merged old v ≡ undefined
unfolding merged is_undefined
merged_defined old undefined h = refl
merged_defined old (obj fs) h = cc
merged_defined old (bool b) h = cc
merged_defined old null h = cc
merged_defined old (num n) h = cc
merged_defined old (str s) h = cc
merged_defined old (arr items) h = cc
merged_defined old (ref n) h = cc

get-merge_end : (k : String) → get k (merge end end) ≡ undefined
unfolding merge get
get-merge_end k = refl

get-defaults :
    (k : String) (defaults user : Fields)
    → Keyed defaults
    → Keyed user
    → has k user ≡ false
    → get k (extend end (defaults ∷ user ∷ [])) ≡ merged undefined (get k defaults)
unfolding extend merge_all
get-defaults k defaults user d e h = ground (
  arith,
  get-merge k (merge (merge end end) defaults) user e,
  get-merge k (merge end end) defaults d,
  get_missing k user h,
  is_undefined_undefined,
  merged_defined undefined (get k defaults),
  get-merge_end k,
)

-- An option that the user gives has the user's value, except that `true` for an option whose
-- default is a text means the empty text; any other option has a copy of its default. The user's
-- options must not look like an array, as `each` sees it.
pub get-extend_options :
    (k : String) (defaults user : Fields)
    → Keyed defaults
    → Keyed user
    → array_like user ≡ none
    → get k (extend_options defaults user) ≡ (
        if has k user
        then option_value defaults k (get k user)
        else merged undefined (get k defaults))
unfolding extend_options
get-extend_options k defaults user d e a = rw ((each-obj user).0 a) (
    get-put_options k defaults user (extend end (defaults ∷ user ∷ [])) e
    ∙ ground (arith, get-defaults k defaults user d e))
