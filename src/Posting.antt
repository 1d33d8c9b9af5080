-- ===== src/Posting.antt =====
-- What an ajax request carries: `_formObjChanged`, `_getAjaxData`, `_getParamsValue`,
-- `setControlValue`, `postBack` and `postAjax` of assets/js/goradd.js, and `displayAjaxError` of
-- assets/js/goradd-debug.js. The encoding of the parameters (JSON, UTF-8, base64), the time zone and
-- the handlers of the event `posting` are parameters. Names in selectors are taken to need no quotes.
pub mod Sent
pub mod Reset
use serve.Base.{
  ◌≡◌, refl, ◌≢◌, sym, ap, ◌∙◌, ℕ, zero, suc, ◌+◌, ◌-◌, ◌≤◌, ◌<◌, max, String, str_eq, str_append,
  eq_iff, eq_refl, Bool, true, false, not, ◌&&◌, ◌||◌, List, [], ◌∷◌, ◌++◌, arith, if◌then◌else◌,
  ◌==◌, ==_iff, ltb, leb, Bool-cases, Option-cases, inl, inr, ◌⊎◌, ◌↔◌, All, All-append, Option,
  none, some, append-nil, append_assoc, map, reverse, length,
}
use serve.Base.Dict.{Dict, lookup, insert, remove, keys}
use serve.Value.{
  Value, undefined, null, bool, num, str, arr, obj, ref, Items, Fields, end, field, get, has, put,
  nil, cons,
}
use text.Mathlib.Text.{starts_with}

-- What is kept for a control: a value, or the files of a `FileList`.
pub data Posted : Type 0 where
  plain : Value → Posted
  files : List ℕ → Posted

pub data Kind : Type 0 where
  radio : Kind
  checkbox : Kind
  other : Kind

-- An `input`, `select` or `textarea` of the form; the id "" stands for none.
pub record Input : Type 0 where
  pub id : String
  pub kind : Kind
  pub name : String
  -- the property `value`
  pub text : String
  pub checked : Bool
  -- what `g$(c).val()` returns
  pub val : Posted
  -- `g$(c).data("grPost") === ""`
  pub gr_post : Bool

pub record Page : Type 0 where
  pub inputs : List Input
  -- the private `_controlValues`, `_formObjsModified`, `_ajaxError`, `_inputSupport`, `_refresh`
  pub control_values : Fields
  pub modified : Dict Bool
  pub ajax_error : Bool
  pub input_support : Bool
  pub refresh : List String
  -- `goradd.blockEvents`
  pub block_events : Bool
  -- the globals `_ajaxError` and `_blockEvents` that the debug script assigns
  pub global_ajax_error : Bool
  pub global_block_events : Bool

-- `_formObjChanged`, with the id of the target of the event
unfoldable pub form_obj_changed : String → Page → Page
form_obj_changed id page = record page { modified = insert id true page.modified }

-- The object of a control, or the new `{}` if it has none.
unfoldable pub own_values : Value → Fields
own_values (obj inner) = inner
own_values _ = end

unfoldable pub set_value : String → String → Value → Fields → Fields
set_value id property value values =
    put id (obj (put property value (own_values (get id values)))) values

-- `setControlValue`
unfoldable pub set_control_value : String → String → Value → Page → Page
set_control_value id property value page = record page {
  control_values = set_value id property value page.control_values;
}

-- `querySelector('input[name=' + n + ']:checked')`
unfoldable pub checked_radio : String → List Input → Option Input
checked_radio n [] = none
checked_radio n (c ∷ cs) = if str_eq c.name n && c.checked then some c else checked_radio n cs

-- `!!_formObjsModified[id]`
unfoldable pub is_modified : String → Page → Bool
is_modified id page = elim (lookup id page.modified) [ some b ↦ b | none ↦ false ]

-- `blnPost || blnForm`
unfoldable pub always_posted : Input → Bool
always_posted c = c.gr_post || (not (str_eq c.id "") && starts_with c.id "Goradd__")

unfoldable pub is_posted : Page → Input → Bool
is_posted page c =
    not page.input_support
    || page.ajax_error
    || (not (str_eq c.id "") && is_modified c.id page)
    || always_posted c

-- The key under which a control is posted, and what is posted.
unfoldable pub post_key : Input → String
post_key c = elim c.kind [ radio ↦ c.name | _ ↦ c.id ]

unfoldable pub posted_value : Page → Input → Posted
posted_value page c = elim c.kind [
  | radio ↦ elim (checked_radio c.name page.inputs) [
    | none ↦ plain null
    | some r ↦ plain (str r.text)
  ]
  | checkbox ↦ plain (bool c.checked)
  | other ↦ c.val
]

-- The loop over the controls that fills `postData`.
unfoldable pub post_data : Page → List Input → Dict Posted → Dict Posted
post_data page [] posted = posted
post_data page (c ∷ cs) posted =
    post_data page cs
      (if is_posted page c then insert (post_key c) (posted_value page c) posted else posted)

-- What is appended to the `FormData`.
pub data Part : Type 0 where
  text_part : Value → Part
  file_part : ℕ → Part

unfoldable pub parts_of : String → Posted → List (String × Part)
parts_of k (plain v) = (k, text_part v) ∷ []
parts_of k (files fs) = map (λ f. (k, file_part f)) fs

unfoldable pub form_data : Dict Posted → List (String × Part)
form_data [] = []
form_data (entry ∷ rest) = parts_of (entry.0) (entry.1) ++ form_data rest

unfoldable pub strings : List String → Items
strings [] = nil
strings (s ∷ ss) = cons (str s) (strings ss)

-- `isEmptyObject`
unfoldable pub is_empty_object : Fields → Bool
is_empty_object end = true
is_empty_object (field k v fs) = false

-- The parameters that `_getParamsValue` encodes.
unfoldable pub full_params : Value → Fields → Page → Fields
full_params tz params page =
    let params1 = put "tz" tz params in
    if not (is_empty_object page.control_values)
    then put "controlValues" (obj page.control_values) params1
    else params1

-- The parameters of a request, with the array of `_refresh` that `postAjax` has put among them as it
-- is when the request is sent.
unfoldable pub sent_params : Fields → Page → Fields
sent_params params page = put "refresh" (arr (strings page.refresh)) params

-- What a call of `postAjax` queues.
pub record Request : Type 0 where
  pub params : Fields
  pub is_async : Bool

module _ (encode : Fields → String) (tz : Value) (posting : Page → Page) where
  -- `_getParamsValue`
  unfoldable pub get_params_value : Fields → Page → String
  get_params_value params page = encode (full_params tz params page)

  -- `_getAjaxData`
  unfoldable pub get_ajax_data : Fields → Page → List (String × Part) × Page
  get_ajax_data params page =
      let page1 = posting page in
      let posted = post_data page1 page1.inputs [] in
      let posted1 =
        insert "Goradd__Params" (plain (str (get_params_value (sent_params params page1) page1)))
          posted in
      (form_data posted1, record page1 { ajax_error = false; modified = []; control_values = end })

  -- `postBack`: the value that `Goradd__Params` gets before the form is submitted, if it is.
  unfoldable pub post_back : Fields → Page → Option String × Page
  post_back params page =
      if page.block_events
      then (none, page)
      else (let page1 = posting page in (some (get_params_value params page1), page1))

-- `postAjax`: the request that is queued, if one is. The array of `_refresh` itself is put into the
-- parameters: `sent_params` reads it.
unfoldable pub post_ajax : Fields → Page → Option Request
post_ajax params page =
    if page.block_events
    then none
    else some (record { params = params; is_async = has "async" params })

-- What `displayAjaxError` of the debug script does with the text. It takes an error page of the server
-- to a popup; when the browser opens none, `window.open` gives null and `focus` throws.
unfoldable pub is_document : String → Bool
is_document text = starts_with text "<!DOCTYPE html>"

unfoldable pub display_throws : Bool → String → Bool
display_throws popup_opens text = is_document text && not popup_opens

-- `success` of the options, after `_processAjax`, and `error` with the debug script's
-- `displayAjaxError`: what they do to the page, which is done before `displayAjaxError` can throw.
unfoldable pub on_success : Page → Page
on_success page = record page { block_events = false }

unfoldable pub display_ajax_error : Page → Page
display_ajax_error page = record page { global_ajax_error = true; global_block_events = false }
