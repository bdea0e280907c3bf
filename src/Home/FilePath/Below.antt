-- ===== src/Home/FilePath/Below.antt =====
-- path/filepath: a path with plain steps behind it, such as the program makes from the directories of its
-- configuration and the identifiers of a request.
use Prim.Native.Char.{Char}
use Prim.Native.String.{◌∷◌ as push}
use text.Mathlib.TextLemmas.{nil-append, cons-append, append_assoc as text_assoc, cons-ne-nil}
use mathlib.Core.List.{reverse, reverse-cons}
use famfun.Prelude.{
  ◌≡◌, ◌≢◌, refl, sym, ap, ap₂, ◌∙◌, String, List, [], ◌∷◌, ◌++◌, Bool, true, false, arith, ◌==◌,
  test_of_ne, Bool-cases, inl, inr, ◌||◌, if◌then◌else◌,
}
use famfun.Prelude.Text.{◌⧺◌, SlashFree, slash}
use famfun.Home.FilePath.{
  split, extend_head, is_slash, join_slash, resolve, step_up, starts_with_slash, steps, clean,
  or_dot, nonempty, cleaned, join,
}

-- A name of a file or a directory: no slash in it, and neither empty nor a dot or two.
pub record IsStep (w : String) : Type 0 where
  pub slash_free : SlashFree w
  pub not_empty : w ≢ ""
  pub not_dot : w ≢ "."
  pub not_up : w ≢ ".."

pub split-SlashFree : (w : String) → SlashFree w → split w ≡ w ∷ []
unfolding split is_slash extend_head
split-SlashFree String.[] h = refl
split-SlashFree (String.◌∷◌ c w) h = ground (arith, split-SlashFree w h.1, h.0)

split-nonempty : (s : String) → (w : String) × (ws : List String) × (split s ≡ w ∷ ws)
unfolding split is_slash extend_head
split-nonempty String.[] = ("", [], refl)
split-nonempty (String.◌∷◌ c s) = elim (Bool-cases (is_slash c)) [
  | inl e ↦ ("", split s, rw (e, split))
  | inr e ↦
      let (w, ws, p) = split-nonempty s in (push c w, ws, rw (e, split) (ap (extend_head c) p))
]

extend_head-append :
    (c : Char) (w : String) (ws ys : List String)
    → extend_head c ((w ∷ ws) ++ ys) ≡ extend_head c (w ∷ ws) ++ ys
unfolding extend_head
extend_head-append c w ws ys = refl

pub split-append : (s t : String) → split (s ⧺ ("/" ⧺ t)) ≡ split s ++ split t
unfolding split is_slash extend_head
split-append String.[] t = rw (nil-append ("/" ⧺ t)) (rw (slash t) refl)
split-append (String.◌∷◌ c s) t =
    let (w, ws, p) = split-nonempty s in
    let ih = split-append s t in
    rw (cons-append c s ("/" ⧺ t)) (elim (Bool-cases (is_slash c)) [
      | inl e ↦ rw (e, split) (ap (◌∷◌ "") ih)
      | inr e ↦
          rw (e, split)
            (ap (extend_head c) (ih ∙ ap (λ l. l ++ split t) p)
              ∙ extend_head-append c w ws (split t)
              ∙ ap (λ l. extend_head c l ++ split t) (sym p))
    ])

pub resolve-append :
    (r : Bool) (done : List String) (xs ys : List String)
    → resolve r done (xs ++ ys) ≡ resolve r (resolve r done xs) ys
unfolding resolve
resolve-append r done [] ys = refl
resolve-append r done (x ∷ xs) ys =
    resolve-append r
      (if x == "" || x == "." then done else if x == ".." then step_up r done else x ∷ done) xs ys

pub resolve-IsStep :
    (r : Bool) (done : List String) (w : String) → IsStep w → resolve r done (w ∷ []) ≡ w ∷ done
unfolding resolve
resolve-IsStep r done w h =
    ground
      (arith, test_of_ne w "" h.not_empty, test_of_ne w "." h.not_dot, test_of_ne w ".." h.not_up)

pub starts-append : (s t : String) → s ≢ "" → starts_with_slash (s ⧺ t) ≡ starts_with_slash s
unfolding starts_with_slash
starts-append String.[] t h = absurd (h refl)
starts-append (String.◌∷◌ c s) t h = rw (cons-append c s t) refl

-- A directory that is neither the root nor the working directory nor empty: its cleaned path has steps.
abbrev pub HasSteps : String → Type 0
HasSteps dir = (dir ≢ "") × (steps dir ≢ [])

steps-below : (dir w : String) → dir ≢ "" → IsStep w → steps (dir ⧺ ("/" ⧺ w)) ≡ steps dir ++ w ∷ []
unfolding steps
steps-below dir w h plain =
    let r = starts_with_slash dir in
    let done = resolve r [] (split dir) in
    rw (starts-append dir ("/" ⧺ w) h) (
      ap (λ l. reverse (resolve r [] l))
        (split-append dir w ∙ ap (λ l. split dir ++ l) (split-SlashFree w plain.slash_free))
      ∙ ap reverse (resolve-append r [] (split dir) (w ∷ []) ∙ resolve-IsStep r done w plain)
      ∙ reverse-cons w done)

join_slash-snoc :
    (v w : String) (vs : List String)
    → join_slash ((v ∷ vs) ++ w ∷ []) ≡ join_slash (v ∷ vs) ⧺ ("/" ⧺ w)
unfolding join_slash
join_slash-snoc v w [] = refl
join_slash-snoc v w (u ∷ vs) =
    ap (λ t. v ⧺ ("/" ⧺ t)) (join_slash-snoc u w vs)
    ∙ ap (λ t. v ⧺ t) (sym (text_assoc "/" (join_slash (u ∷ vs)) ("/" ⧺ w)))
    ∙ sym (text_assoc v ("/" ⧺ join_slash (u ∷ vs)) ("/" ⧺ w))

pub below-nonempty : (dir w : String) → dir ≢ "" → dir ⧺ ("/" ⧺ w) ≢ ""
below-nonempty String.[] w h e = h refl
below-nonempty (String.◌∷◌ c s) w h e =
    cons-ne-nil c (s ⧺ ("/" ⧺ w)) (sym (cons-append c s ("/" ⧺ w)) ∙ e)

pub HasSteps-below : (dir w : String) → HasSteps dir → IsStep w → HasSteps (dir ⧺ ("/" ⧺ w))
HasSteps-below dir w h plain = (
  below-nonempty dir w h.0,
  λ e. snoc-ne-nil (steps dir) w (sym (steps-below dir w h.0 plain) ∙ e),
)
  where
    snoc-ne-nil : (xs : List String) (x : String) → xs ++ x ∷ [] ≢ []
    snoc-ne-nil [] x e = cc
    snoc-ne-nil (y ∷ xs) x e = cc

-- A cleaned path from its steps.
abbrev pub shaped : Bool → List String → String
shaped r vs = if r then "/" ⧺ join_slash vs else or_dot vs

pub clean_lem : (p : String) → clean p ≡ shaped (starts_with_slash p) (steps p)
unfolding clean
clean_lem p = refl

-- To clean a path with a plain step at its end is to clean what stands before the step.
pub clean-below :
    (dir w : String) → HasSteps dir → IsStep w → clean (dir ⧺ ("/" ⧺ w)) ≡ clean dir ⧺ ("/" ⧺ w)
unfolding or_dot
clean-below dir w h plain =
    clean_lem (dir ⧺ ("/" ⧺ w))
    ∙ ap₂ shaped (starts-append dir ("/" ⧺ w) h.0) (steps-below dir w h.0 plain)
    ∙ go (starts_with_slash dir) (steps dir) h.1
    ∙ ap (λ t. t ⧺ ("/" ⧺ w)) (sym (clean_lem dir))
  where
    go : (r : Bool) (vs : List String) → vs ≢ [] → shaped r (vs ++ w ∷ []) ≡ shaped r vs ⧺ ("/" ⧺ w)
    go r [] k = absurd (k refl)
    go true (v ∷ vs) k =
        ap (λ t. "/" ⧺ t) (join_slash-snoc v w vs)
        ∙ sym (text_assoc "/" (join_slash (v ∷ vs)) ("/" ⧺ w))
    go false (v ∷ vs) k = join_slash-snoc v w vs

-- filepath.Join of a directory and a plain step.
pub join-below :
    (dir w : String) → HasSteps dir → IsStep w → join (dir ∷ w ∷ []) ≡ clean dir ⧺ ("/" ⧺ w)
unfolding join nonempty cleaned join_slash
join-below dir w h plain =
    rw (test_of_ne dir "" h.0) (rw (test_of_ne w "" plain.not_empty) (clean-below dir w h plain))

pub regroup : (p q r : String) → p ⧺ ("/" ⧺ (q ⧺ ("/" ⧺ r))) ≡ (p ⧺ ("/" ⧺ q)) ⧺ ("/" ⧺ r)
regroup p q r =
    ap (λ t. p ⧺ t) (sym (text_assoc "/" q ("/" ⧺ r))) ∙ sym (text_assoc p ("/" ⧺ q) ("/" ⧺ r))

-- And of two of them.
pub join-below_two :
    (dir v w : String)
    → HasSteps dir
    → IsStep v
    → IsStep w
    → join (dir ∷ v ∷ w ∷ []) ≡ clean dir ⧺ ("/" ⧺ (v ⧺ ("/" ⧺ w)))
unfolding join nonempty cleaned join_slash
join-below_two dir v w h plain plain' =
    let split_at : dir ⧺ ("/" ⧺ (v ⧺ ("/" ⧺ w))) ≡ (dir ⧺ ("/" ⧺ v)) ⧺ ("/" ⧺ w) =
      regroup dir v w in
    rw (test_of_ne dir "" h.0) (
      rw (test_of_ne v "" plain.not_empty) (
        rw (test_of_ne w "" plain'.not_empty) (
          ap clean split_at
          ∙ clean-below (dir ⧺ ("/" ⧺ v)) w (HasSteps-below dir v h plain) plain'
          ∙ ap (λ t. t ⧺ ("/" ⧺ w)) (clean-below dir v h plain)
          ∙ sym (regroup (clean dir) v w))))
