-- ===== src/Responses/Loading.antt =====
-- When a reply is processed: once all the files it asks for are loaded. `_processAjax` of
-- assets/js/goradd.js.
use serve.Base.{
  ◌≡◌, refl, suc, String, List, [], ◌∷◌, ◌++◌, arith, if◌then◌else◌, ◌==◌, Option-cases, inl, inr,
  some, length, length-append,
}
use serve.Responses.{Loads, f_wait, load_files, process_ajax, take_out, file_done, files_done}

-- The count is that of the files being loaded, and the reply is processed, once, exactly if there
-- are none.
abbrev pub IsCounted : Loads → Type 0
IsCounted s =
    (s.load_count ≡ length s.loading) × (s.processed ≡ (if length s.loading == 0 then 1 else 0))

-- Before `_processAjax` calls `fWait`, the count is one ahead.
abbrev IsAhead : Loads → Type 0
IsAhead s = (s.load_count ≡ suc (length s.loading)) × (s.processed ≡ 0)

load_files-IsAhead : (files : List String) (s : Loads) → IsAhead s → IsAhead (load_files files s)
unfolding load_files
load_files-IsAhead [] s h = h
load_files-IsAhead (f ∷ fs) s h =
    load_files-IsAhead fs
      (record s { load_count = suc s.load_count; loading = s.loading ++ f ∷ [] })
      (ground (arith, length-append s.loading (f ∷ [])), h.1)

f_wait-IsCounted : (s : Loads) → IsAhead s → IsCounted (f_wait s)
unfolding f_wait
f_wait-IsCounted s h = ground arith

pub take_out-length :
    (file : String) (fs gs : List String) → take_out file fs ≡ some gs → length fs ≡ suc (length gs)
unfolding take_out
take_out-length file [] gs h = ground arith
take_out-length file (f ∷ fs) gs h = elim (Option-cases (take_out file fs)) [
  | inl e ↦ ground arith
  | inr (rest, e) ↦ (let l = take_out-length file fs rest e in ground arith)
]

pub file_done-IsCounted : (file : String) (s : Loads) → IsCounted s → IsCounted (file_done file s)
unfolding file_done f_wait
file_done-IsCounted file s h = elim (Option-cases (take_out file s.loading)) [
  | inl e ↦ rw (file_done, e) h
  | inr (gs, e) ↦ (let l = take_out-length file s.loading gs e in rw (file_done, e) (ground arith))
]

pub process_ajax-IsCounted : (ss js : List String) → IsCounted (process_ajax ss js)
unfolding process_ajax
process_ajax-IsCounted ss js =
    f_wait-IsCounted _ (load_files-IsAhead js _ (load_files-IsAhead ss _ (refl, refl)))

-- Whatever files a reply asks for and in whatever order they are loaded or fail, the reply is
-- processed once when none of them is being loaded any more, and not before.
pub files_done-IsCounted :
    (ss js order : List String) → IsCounted (files_done order (process_ajax ss js))
unfolding files_done
files_done-IsCounted ss js order = from order (process_ajax ss js) (process_ajax-IsCounted ss js)
  where
    from : (order : List String) (s : Loads) → IsCounted s → IsCounted (files_done order s)
    from [] s h = h
    from (f ∷ fs) s h = from fs (file_done f s) (file_done-IsCounted f s h)
