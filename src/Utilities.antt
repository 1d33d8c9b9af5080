-- ===== src/Utilities.antt =====
-- Small functions of assets/js/goradd.js: `findNamedObject`, `setCookie`, `proxyVal`, the elements that load
-- files, and the end of `_processAjax2`. What the properties of functions, arrays and texts are,
-- how a text is encoded for a cookie and what the data of an element is are parameters.
pub mod Naming
use serve.Base.{
  ◌≡◌, refl, ◌≢◌, sym, ap, ◌∙◌, ℕ, zero, suc, ◌+◌, ◌-◌, ◌≤◌, ◌<◌, max, String, str_eq, str_append,
  eq_iff, eq_refl, Bool, true, false, not, ◌&&◌, ◌||◌, List, [], ◌∷◌, ◌++◌, arith, if◌then◌else◌,
  ◌==◌, ==_iff, ltb, leb, Bool-cases, Option-cases, inl, inr, ◌⊎◌, ◌↔◌, All, All-append, Option,
  none, some, append-nil, append_assoc, map, reverse, length, List-cases, All-get, All-map_at,
}
use serve.Base.Words.{split}
use serve.Value.{Value, undefined, null, bool, num, str, obj, ref, Fields, end, field, get}
use serve.Value.Extend.{extend, is_undefined}
use serve.Widgets.{is_truthy}

module _ (property_of : Value → String → Value) where
  -- `obj[v]`, `none` where it throws
  unfoldable pub property : Value → String → Option Value
  property undefined name = none
  property null name = none
  property (obj fs) name = some (get name fs)
  property v name = some (property_of v name)

  -- The loop of `findNamedObject`, which ends where nothing is found
  unfoldable pub go_on : (Value → Option Value) → Option Value → Option Value
  go_on next none = none
  go_on next (some v) = if is_undefined v then some undefined else next v

  unfoldable pub walk : List String → Value → Option Value
  walk [] v = some v
  walk (name ∷ names) v = go_on (walk names) (property v name)

  -- `findNamedObject`, with the window
  unfoldable pub find_named_object : Value → String → Value → Option Value
  find_named_object window name base =
      if str_eq name ""
      then some base
      else walk (split 46 name) (if is_truthy base then base else window)

unfoldable pub when : Bool → String → String
when b s = if b then s else ""

-- `setCookie`, with the encoded value and the texts that are not given left empty
unfoldable pub cookie : String → String → String → String → String → Bool → String
cookie name value expires path dom secure = str_append name (
    str_append "=" (
      str_append value (
        str_append "; " (
          str_append
            (when (not (str_eq expires "")) (str_append "expires=" (str_append expires "; ")))
            (str_append (when (not (str_eq path "")) (str_append "path=" (str_append path "; "))) (
              str_append (when (not (str_eq dom "")) (str_append "domain=" (str_append dom "; ")))
                (when secure "secure;")))))))

-- `proxyVal`: the data of the element that the event matched, or else of its target
unfoldable pub proxy_val : (ℕ → Value) → Option ℕ → ℕ → Value
proxy_val grav none target = grav target
proxy_val grav (some match) target = grav match

-- `loadJavaScriptFile` and `loadStyleSheetFile`: the properties of the element that is put into the head;
-- the attributes come over them.
unfoldable pub script_element : String → Fields → ℕ → Fields
script_element file attributes done =
    extend
      (field "src" (str file) (
        field "type" (str "text/javascript")
          (field "onload" (ref done) (field "onerror" (ref done) end))))
      (attributes ∷ [])

unfoldable pub link_element : String → Fields → ℕ → Fields
link_element file attributes done =
    extend
      (field "rel" (str "stylesheet")
        (field "href" (str file) (field "onload" (ref done) (field "onerror" (ref done) end))))
      (attributes ∷ [])

-- The end of `_processAjax2`: what becomes of the window, and where the profile is shown
pub data Effect : Type 0 where
  closes_window : Effect
  closes_socket : Effect
  reloads : Effect
  goes_to : String → Effect
  makes_pane : Effect
  shows_profile : String → Effect
  steps_test : Effect

pub record Ending : Type 0 where
  pub winclose : Bool
  pub loc : String
  pub profile_html : String

unfoldable pub unless_empty : String → List Effect → List Effect
unless_empty s effects = if str_eq s "" then [] else effects

-- ... with whether the page has a client of the web socket, and a pane for the profile
unfoldable pub finish : Bool → Bool → Ending → List Effect
finish has_client has_pane j =
    (if j.winclose then closes_window ∷ [] else [])
    ++ (unless_empty j.loc (
          (if has_client then closes_socket ∷ [] else [])
          ++ (if str_eq j.loc "reload" then reloads else goes_to j.loc) ∷ [])
        ++ (unless_empty j.profile_html
              ((if has_pane then [] else makes_pane ∷ []) ++ shows_profile j.profile_html ∷ [])
            ++ steps_test ∷ []))
