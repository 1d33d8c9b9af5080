-- ===== src/Posting/Reset.antt =====
-- What a post of assets/js/goradd.js leaves behind on the page.
use serve.Base.{◌≡◌, refl, String, str_eq, Bool, true, false, not, ◌&&◌, ◌||◌, arith, some}
use serve.Base.Dict.{lookup, insert}
use serve.Value.{Value, Fields, put}
use serve.Value.{bool}
use serve.Value.Keys.{has-put}
use serve.Posting.{
  Page, Input, always_posted, is_posted, is_modified, get_ajax_data, display_ajax_error,
  form_obj_changed, post_ajax, bool,
}

module _ (encode : Fields → String) (tz : Value) (posting : Page → Page) where
  -- With the event `input` supported, once a request is built and its answer is an error, a control
  -- is posted again only if it is one that is always posted: what had changed is not. And an event
  -- that blocked the others still does.
  pub lost_after_error :
      (params : Fields) (page : Page) (c : Input)
      → (posting page).input_support ≡ true
      → (is_posted (display_ajax_error (get_ajax_data encode tz posting params page).1) c
          ≡ always_posted c)
        × ((display_ajax_error (get_ajax_data encode tz posting params page).1).block_events
            ≡ (posting page).block_events)
  unfolding is_posted get_ajax_data is_modified display_ajax_error lookup
  lost_after_error params page c h = (ground arith, refl)

  -- With the event `input` supported, after a request was built the next one posts the control whose
  -- change is told in between and the controls that are always posted, and no other.
  pub is_posted-form_obj_changed :
      (params : Fields) (page : Page) (id : String) (c : Input)
      → (posting page).input_support ≡ true
      → is_posted (form_obj_changed id (get_ajax_data encode tz posting params page).1) c
        ≡ ((not (str_eq c.id "") && str_eq id c.id) || always_posted c)
  unfolding is_posted get_ajax_data is_modified form_obj_changed lookup insert
  is_posted-form_obj_changed params page id c h = ground arith

-- A post whose parameters have the key `async` is queued as one that does not wait its turn,
-- whatever the value of that key is, `false` too.
pub post_ajax-async :
    (b : Bool) (params : Fields) (page : Page)
    → page.block_events ≡ false
    → post_ajax (put "async" (bool b) params) page
      ≡ some (record { params = put "async" (bool b) params; is_async = true })
unfolding post_ajax
post_ajax-async b params page h = rw (h, has-put) refl
