-- ===== src/Escape.antt =====
-- `textToHtml` of assets/js/goradd.js. A text given to `replace` stands for its first occurrence.
use Prim.Native.Char.{code}
use serve.Base.{◌≡◌, refl, ℕ, suc, ◌+◌, ◌-◌, String, str_append, false, arith, if◌then◌else◌, ◌==◌}
use text.Mathlib.TextLemmas.{nil-append, cons-append}

-- `text.replace(target, by)`, for a target of one character, given by its number
unfoldable pub replace_first : ℕ → String → String → String
replace_first target by String.[] = ""
replace_first target by (String.◌∷◌ c s) =
    let rest = replace_first target by s in
    if code c == target then str_append by s else String.◌∷◌ c rest

-- `textToHtml`
unfoldable pub text_to_html : String → String
text_to_html text =
    let text1 = replace_first 38 "&amp;" text in
    let text2 = replace_first 60 "&lt;" text1 in
    let text3 = replace_first 62 "&gt;" text2 in
    let text4 = replace_first 34 "&quot;" text3 in replace_first 39 "&apos;" text4

-- How often a character stands in a text
unfoldable pub count_char : ℕ → String → ℕ
count_char n String.[] = 0
count_char n (String.◌∷◌ c s) = let rest = count_char n s in if code c == n then suc rest else rest

count-append :
    (n : ℕ) (s t : String) → count_char n (str_append s t) ≡ count_char n s + count_char n t
unfolding count_char
count-append n String.[] t = rw (nil-append t) (omega arith)
count-append n (String.◌∷◌ c s) t = rw (cons-append c s t) (ground (arith, count-append n s t))

count-replace_other :
    (n target : ℕ) (by s : String)
    → count_char n by ≡ 0
    → (target == n) ≡ false
    → count_char n (replace_first target by s) ≡ count_char n s
unfolding count_char replace_first
count-replace_other n target by String.[] h k = refl
count-replace_other n target by (String.◌∷◌ c s) h k =
    ground (arith, count-replace_other n target by s, count-append n by s)

count-replace_same :
    (n : ℕ) (by s : String)
    → count_char n by ≡ 0
    → count_char n (replace_first n by s) ≡ count_char n s - 1
unfolding count_char replace_first
count-replace_same n by String.[] h = refl
count-replace_same n by (String.◌∷◌ c s) h =
    ground (arith, count-replace_same n by s, count-append n by s)

-- Of the characters < and > of a text, `textToHtml` replaces one each, if there is one: all others
-- stay in the result as they are.
pub count-text_to_html :
    (text : String)
    → (count_char 60 (text_to_html text) ≡ count_char 60 text - 1)
      × (count_char 62 (text_to_html text) ≡ count_char 62 text - 1)
unfolding text_to_html count_char
count-text_to_html text = (
  rw
      (
        count-replace_other 60 39 "&apos;" _ refl refl,
        count-replace_other 60 34 "&quot;" _ refl refl,
        count-replace_other 60 62 "&gt;" _ refl refl,
        count-replace_same 60 "&lt;" _ refl,
        count-replace_other 60 38 "&amp;" _ refl refl,
      )
      refl,
  rw
      (
        count-replace_other 62 39 "&apos;" _ refl refl,
        count-replace_other 62 34 "&quot;" _ refl refl,
        count-replace_same 62 "&gt;" _ refl,
        count-replace_other 62 60 "&lt;" _ refl refl,
        count-replace_other 62 38 "&amp;" _ refl refl,
      )
      refl,
)
