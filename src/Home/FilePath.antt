-- ===== src/Home/FilePath.antt =====
-- The functions of path/filepath and strings that the program uses, on slash-separated paths.
pub mod Below
pub mod Plain
pub mod Up
use Prim.Native.Char.{Char, code}
use Prim.Native.String.{◌∷◌ as push}
use famfun.Prelude.{
  ℕ, ◌+◌, String, List, [], ◌∷◌, ◌++◌, map, Option, none, some, Bool, true, false, not, ◌&&◌, ◌||◌,
  Result, ok, err, library, leb, nat_eq, ◌==◌, if◌then◌else◌,
}
use mathlib.Core.List.{reverse}
use famfun.Prelude.Text.{◌⧺◌}

xor : Bool → Bool → Bool
xor true b = not b
xor false b = b

is_slash : Char → Bool
is_slash c = nat_eq (code c) b'/'

extend_head : Char → List String → List String
extend_head c [] = push c "" ∷ []
extend_head c (w ∷ ws) = push c w ∷ ws

-- strings.Split(s, "/")
unfoldable pub split : String → List String
unfolding extend_head is_slash
split String.[] = "" ∷ []
split (String.◌∷◌ c s) = let rest = split s in if is_slash c then "" ∷ rest else extend_head c rest

-- strings.Join(words, "/")
unfoldable pub join_slash : List String → String
join_slash [] = ""
join_slash (w ∷ []) = w
join_slash (w ∷ v ∷ ws) = w ⧺ ("/" ⧺ join_slash (v ∷ ws))

-- `..` takes back the last step; at the start it stays in a relative path, and goes in a rooted one.
unfoldable pub step_up : Bool → List String → List String
step_up rooted [] = if rooted then [] else ".." ∷ []
step_up rooted (w ∷ ws) = if w == ".." then ".." ∷ w ∷ ws else ws

-- The steps of a cleaned path, the last first.
unfoldable pub resolve : Bool → List String → List String → List String
unfolding step_up
resolve rooted done [] = done
resolve rooted done (w ∷ ws) =
    resolve rooted
      (if w == "" || w == "." then done else if w == ".." then step_up rooted done else w ∷ done) ws

pub starts_with_slash : String → Bool
starts_with_slash String.[] = false
starts_with_slash (String.◌∷◌ c s) = is_slash c

pub or_dot : List String → String
or_dot [] = "."
or_dot (w ∷ ws) = join_slash (w ∷ ws)

-- The steps of a cleaned path.
unfoldable pub steps : String → List String
unfolding split resolve starts_with_slash is_slash
steps p = reverse (resolve (starts_with_slash p) [] (split p))

-- filepath.Clean
unfoldable pub clean : String → String
unfolding steps join_slash starts_with_slash is_slash or_dot
clean p = let ws = steps p in if starts_with_slash p then "/" ⧺ join_slash ws else or_dot ws

nonempty : List String → List String
nonempty [] = []
nonempty (w ∷ ws) = if w == "" then nonempty ws else w ∷ nonempty ws

cleaned : List String → String
cleaned [] = ""
cleaned (w ∷ ws) = clean (join_slash (w ∷ ws))

-- filepath.Join
unfoldable pub join : List String → String
unfolding nonempty cleaned clean
join ws = cleaned (nonempty ws)

-- What is left of a path behind another: their common steps are dropped, and each further step of the
-- other is taken back. `none` is a step `..` that cannot be taken back.
unfoldable pub steps_behind : List String → List String → Option (List String)
steps_behind [] target = some target
steps_behind (b ∷ bs) [] = some (map (λ _. "..") (b ∷ bs))
steps_behind (b ∷ bs) (t ∷ ts) =
    if b == t
    then steps_behind bs ts
    else if b == ".."
    then none
    else some (map (λ _. "..") (b ∷ bs) ++ t ∷ ts)

-- The steps of a target; the empty relative path is the step `.` there.
target_steps : String → List String
target_steps p =
    let ws = steps p in
    if starts_with_slash p then ws else elim ws [ [] ↦ "." ∷ [] | w ∷ rest ↦ w ∷ rest ]

cannot_relate : String → String → Result String
cannot_relate from to = err (library ("Rel: can't make " ⧺ (to ⧺ (" relative to " ⧺ from))))

-- filepath.Rel
unfoldable pub rel : String → String → Result String
unfolding clean steps_behind target_steps starts_with_slash cannot_relate xor
rel from to =
    if clean from == clean to
    then ok "."
    else if xor (starts_with_slash from) (starts_with_slash to)
    then cannot_relate from to
    else elim (steps_behind (steps from) (target_steps to)) [
      | none ↦ cannot_relate from to
      | some ws ↦ ok (join_slash ws)
    ]

-- filepath.Ext: from the last dot of the last step on.
ext_from : String → String → String
ext_from found String.[] = found
ext_from found (String.◌∷◌ c s) =
    ext_from (if nat_eq (code c) b'.' then push c s else if is_slash c then "" else found) s

unfoldable pub ext : String → String
unfolding ext_from is_slash
ext p = ext_from "" p

last_nonempty : String → List String → String
last_nonempty found [] = found
last_nonempty found (w ∷ ws) = last_nonempty (if w == "" then found else w) ws

-- filepath.Base
unfoldable pub base : String → String
unfolding last_nonempty split
base p = if p == "" then "." else let w = last_nonempty "" (split p) in if w == "" then "/" else w

-- strings.TrimSuffix
unfoldable pub trim_suffix : String → String → String
trim_suffix String.[] suffix = ""
trim_suffix (String.◌∷◌ c s) suffix =
    let rest = trim_suffix s suffix in if push c s == suffix then "" else push c rest

-- unicode.ToLower, as far as it can yield an ASCII character: besides A to Z that are U+0130 and
-- the Kelvin sign U+212A.
unfoldable pub lower : ℕ → ℕ
lower c =
    if leb b'A' c && leb c b'Z'
    then c + 32
    else if nat_eq c 0x130
    then b'i'
    else if nat_eq c 0x212a
    then b'k'
    else c

-- strings.ToLower(s) == t, for an ASCII text `t`.
unfoldable pub lower_equals : String → String → Bool
unfolding lower
lower_equals String.[] String.[] = true
lower_equals String.[] (String.◌∷◌ d t) = false
lower_equals (String.◌∷◌ c s) String.[] = false
lower_equals (String.◌∷◌ c s) (String.◌∷◌ d t) =
    nat_eq (lower (code c)) (code d) && lower_equals s t

-- A table of extensions, asked for strings.ToLower(e).
unfoldable pub lower_in : String → List String → Bool
unfolding lower_equals
lower_in e [] = false
lower_in e (t ∷ ts) = lower_equals e t || lower_in e ts
