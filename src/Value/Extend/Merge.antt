-- ===== src/Value/Extend/Merge.antt =====
-- What `goradd.extend` of assets/js/goradd.js leaves under each key.
use serve.Base.{
  ◌≡◌, refl, ap, ◌∙◌, String, str_eq, eq_iff, eq_refl, Bool, true, false, not, ◌&&◌, List, arith,
  if◌then◌else◌, Bool-cases, inl, inr, and_true, false_of_not,
}
use serve.Value.{Value, undefined, obj, Fields, end, field, get, has, put}
use serve.Value.Keys.{Keyed, get-put, get_missing}
use serve.Value.Extend.{
  is_undefined, clone, clone_fields, plain_or_empty, merged, merge, merge_all, extend,
}

merge-field :
    (k : String) (v : Value) (target fs : Fields)
    → merge target (field k v fs)
      ≡ merge (if is_undefined v then target else put k (merged (get k target) v) target) fs
unfolding merge
merge-field k v target fs = refl

pub is_undefined_undefined : is_undefined undefined ≡ true
unfolding is_undefined
is_undefined_undefined = refl

get-field :
    (j k : String) (v : Value) (fs : Fields)
    → get k (field j v fs) ≡ (if str_eq j k then v else get k fs)
unfolding get
get-field j k v fs = refl

-- The key of the first field, and any other key.
get-field_same : (k : String) (v : Value) (fs : Fields) → get k (field k v fs) ≡ v
unfolding get
get-field_same k v fs = rw (eq_refl k)

-- What one source leaves under a key: the target's value if the source has none there, and else the
-- source's, merged into the target's where both are plain objects.
pub get-merge :
    (k : String) (target source : Fields)
    → Keyed source
    → get k (merge target source)
      ≡ (if is_undefined (get k source) then get k target else merged (get k target) (get k source))
get-merge k target end d = get-merge_end k target
  where
    get-merge_end :
        (k : String) (target : Fields)
        → get k (merge target end)
          ≡ (if is_undefined (get k end) then get k target else merged (get k target) (get k end))
    get-merge_end k target = unfold merge get is_undefined in refl
get-merge k target (field j v fs) d = elim (Bool-cases (is_undefined v)) [
  | inl blank ↦
      rw (merge-field, blank)
        (get-merge k target fs d.1
          ∙ ground
              (arith, eq_iff j k, get-field j k v fs, get_missing k fs, is_undefined_undefined))
  | inr given ↦
      rw (merge-field, given)
        (get-merge k (put j (merged (get j target) v) target) fs d.1
          ∙ ground (
            arith,
            eq_iff j k,
            get-field j k v fs,
            get_missing k fs,
            is_undefined_undefined,
            get-put j k (merged (get j target) v) target,
          ))
]

-- Objects in which, at every depth, no key stands twice and none has the value `undefined`.
unfoldable mutual
  pub is_clean : Value → Bool
  is_clean undefined = false
  is_clean (obj fs) = are_clean fs
  is_clean _ = true

  pub are_clean : Fields → Bool
  are_clean end = true
  are_clean (field k v fs) = not (has k fs) && is_clean v && are_clean fs

clean_field :
    (k : String) (v : Value) (fs : Fields)
    → are_clean (field k v fs) ≡ true
    → (has k fs ≡ false) × (is_clean v ≡ true) × (are_clean fs ≡ true)
unfolding is_clean
clean_field k v fs h =
    let (a, b) = and_true (not (has k fs) && is_clean v) (are_clean fs) h in
    let (c, d) = and_true (not (has k fs)) (is_clean v) a in (false_of_not (has k fs) c, d, b)

clean_defined : (v : Value) → is_clean v ≡ true → is_undefined v ≡ false
unfolding is_clean is_undefined
clean_defined undefined h = cc
clean_defined _ h = refl

mutual
  unfolding clone is_clean

  clone_clean : (v : Value) → is_clean v ≡ true → clone v ≡ v
  clone_clean (obj fs) h = ap obj (clone_fields_clean fs h)
  clone_clean _ h = refl

  clone_fields_clean : (fs : Fields) → are_clean fs ≡ true → clone_fields fs ≡ fs
  clone_fields_clean end h = refl
  clone_fields_clean (field k v fs) h =
      let (_, c, d) = clean_field k v fs h in
      rw (clean_defined v c, clone_clean v c, clone_fields_clean fs d)

-- Each field of an object, as another object has it.
abbrev pub Within : Fields → Fields → Type 0
Within target end = Unit
Within target (field k v fs) = (has k target ≡ true) × (get k target ≡ v) × Within target fs

Within-field :
    (k : String) (v : Value) (target fs : Fields)
    → has k fs ≡ false
    → Within target fs
    → Within (field k v target) fs
unfolding has get
Within-field k v target end n w = tt
Within-field k v target (field j u fs) n w = (
  ground (arith, eq_iff k j, eq_iff j k),
  ground (arith, eq_iff k j, eq_iff j k),
  Within-field k v target fs (ground arith) w.2,
)

put_same : (k : String) (fs : Fields) → has k fs ≡ true → put k (get k fs) fs ≡ fs
unfolding put has get
put_same k end h = cc
put_same k (field j v fs) h = ground (arith, put_same k fs)

has-field : (k : String) (v : Value) (fs : Fields) → has k (field k v fs) ≡ true
unfolding has
has-field k v fs = rw (eq_refl k)

Within-self : (fs : Fields) → are_clean fs ≡ true → Within fs fs
Within-self end h = tt
Within-self (field k v fs) h =
    let (n, _, d) = clean_field k v fs h in
    (has-field k v fs, get-field_same k v fs, Within-field k v fs fs n (Within-self fs d))

mutual
  unfolding merge is_clean plain_or_empty

  merged_self : (v : Value) → is_clean v ≡ true → merged v v ≡ v
  merged_self (obj fs) h =
      rw (clone_fields_clean fs h) (ap obj (merge-Within fs fs h (Within-self fs h)))
  merged_self undefined h = refl
  merged_self _ h = refl

  merge-Within :
      (target fs : Fields) → are_clean fs ≡ true → Within target fs → merge target fs ≡ target
  merge-Within target end h w = refl
  merge-Within target (field k v fs) h w =
      let (_, c, d) = clean_field k v fs h in
      rw (clean_defined v c, w.1, merged_self v c)
        (ap (λ t. merge t fs) (rw w.1 at (put_same k target w.0)) ∙ merge-Within target fs d w.2)

-- `extend` copies the target into itself before the sources. For a clean target that changes
-- nothing: the result is that of the sources alone.
pub extend_self :
    (target : Fields) (sources : List Fields)
    → are_clean target ≡ true
    → extend target sources ≡ merge_all target sources
unfolding extend merge_all
extend_self target sources h = rw (merge-Within target target h (Within-self target h))
