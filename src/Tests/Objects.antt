-- ===== src/Tests/Objects.antt =====
-- Runs of merging and unpacking objects of assets/js/goradd.js.
use serve.Base.{◌≡◌, refl, ◌==◌, ltb, Bool, true, false, [], ◌∷◌}
use serve.Value.{
  Value, undefined, null, bool, num, str, arr, obj, ref, Items, nil, cons, Fields, end, field, get,
  has, put, array_like, each, field_entries, index_key,
}
use serve.Value.Extend.{
  is_undefined, merged, merge, merge_all, extend, option_value, extend_options,
}
use serve.Value.Unpack.{Browser, unpack_array, truthy}
use serve.Value.Unpack.Plain.{is_ordinary}
use serve.Value.Unpack.Typed.{
  Ty, Types, Row, HasType, AllPack, Packs, RowPacks, IsLawful, unpack_array-HasType,
}

abbrev defaults : Fields
defaults = field "selectedId" (str "") (field "scrollable" (bool false) end)

abbrev given : Fields
given = field "selectedId" (bool true) (field "extra" (num 3) end)

-- Nested plain objects.
abbrev nested : Fields
nested = field "a" (obj (field "x" (num 1) (field "y" (num 2) end))) end

abbrev patch : Fields
patch = field "a" (obj (field "y" (num 5) end)) (field "b" undefined end)

deep_run : merge nested patch ≡ field "a" (obj (field "x" (num 1) (field "y" (num 5) end))) end
unfolding merge is_undefined put serve.Value.Extend.plain_or_empty get
    serve.Value.Extend.clone_fields
deep_run = refl

-- A browser in which nothing has a meaning.
abbrev blank : Browser
blank = record {
  new_function = λ params code. ref 1;
  local_date = λ o. ref 2;
  utc_date = λ o. ref 3;
  window = ref 0;
  property = λ v name. undefined;
  apply = λ f target params. undefined;
  split_dots = λ s. s ∷ [];
}

abbrev command_params : Items
command_params = cons (obj nested) (cons (str "t") nil)

-- In that browser the references are a function and two dates.
abbrev is_function : Value → Bool
is_function (ref n) = n == 1
is_function v = false

abbrev is_date : Value → Bool
is_date (ref n) = ltb 1 n
is_date v = false

blank-IsLawful : IsLawful is_date is_function blank
blank-IsLawful = record {
  makes_function = λ params code. refl;
  makes_local = λ o. refl;
  makes_utc = λ o. refl;
}

-- A date, a closure and an object with a name, as the server packs them
abbrev packed_date : Fields
packed_date = field "goraddObject" (str "date") (field "y" (num 2020) end)

abbrev packed_closure : Fields
packed_closure = field "goraddObject" (str "closure") (field "func" (str "return 1") end)

abbrev packed : Items
packed =
    cons (obj packed_date)
      (cons (obj packed_closure) (cons (obj (field "name" (str "Ann") end)) nil))

abbrev wanted : Types
wanted = Types.more Ty.date (
    Types.more Ty.function
      (Types.more (Ty.object (Row.entry "name" Ty.text Row.close)) Types.none_left))

packed-AllPack : AllPack packed wanted
unfolding get truthy is_ordinary array_like
packed-AllPack = AllPack.more (Packs.date refl refl) (
    AllPack.more (Packs.closure refl) (
      AllPack.more (Packs.object refl (RowPacks.entry Packs.text RowPacks.close))
        AllPack.none_left))

unpack_array-HasType_example :
    HasType is_date is_function (unpack_array blank (arr packed)) (Ty.list wanted)
unpack_array-HasType_example =
    unpack_array-HasType is_date is_function blank blank-IsLawful packed wanted packed-AllPack
