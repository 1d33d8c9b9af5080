-- ===== src/FileSelect.antt =====
-- The widget of assets/js/file_select.js: what a post sends for a file selector. The files are taken
-- as their descriptions, and `JSON.stringify` is a parameter.
use serve.Base.{◌≡◌, refl, ℕ, String, Bool, true, false, List, if◌then◌else◌}

-- The fields of a `File` that are posted
pub record FileInfo : Type 0 where
  pub last_modified : ℕ
  pub name : String
  pub size : ℕ
  pub type : String

pub record Selector : Type 0 where
  -- `_files` and `_readyToUpload`
  pub files : List FileInfo
  pub ready_to_upload : Bool

-- The value of the widget: the files themselves, or a text about them
pub data Answer : Type 0 where
  uploads : List FileInfo → Answer
  describes : String → Answer

-- `_handleChange`
unfoldable pub handle_change : List FileInfo → Selector → Selector
handle_change chosen s = record s { files = chosen }

-- `upload`, up to the two events that it triggers
unfoldable pub upload : Selector → Selector
upload s = record s { ready_to_upload = true }

-- `val`, whether it is called with a value or not
unfoldable pub val : (List FileInfo → String) → Selector → Answer × Selector
val stringify s =
    if s.ready_to_upload
    then (uploads s.files, record s { ready_to_upload = false })
    else (describes (stringify s.files), s)

-- The files are sent once for each call of `upload`: the next value is the files, and the values
-- after it describe them, until files are chosen or uploaded anew.
pub val-upload :
    (stringify : List FileInfo → String) (s : Selector)
    → ((val stringify (upload s)).0 ≡ uploads s.files)
      × ((val stringify (val stringify (upload s)).1).0 ≡ describes (stringify s.files))
unfolding val upload
val-upload stringify s = (refl, refl)
