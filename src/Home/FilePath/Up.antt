-- ===== src/Home/FilePath/Up.antt =====
-- path/filepath: a path that goes back up by two dots.
use mathlib.Core.List.{reverse}
use famfun.Prelude.{
  ◌≡◌, ◌≢◌, refl, sym, ap, ap₂, ◌∙◌, String, List, [], ◌∷◌, ◌++◌, Bool, arith, test_of_ne,
}
use famfun.Prelude.Text.{◌⧺◌, SlashFree}
use famfun.Home.FilePath.{
  split, resolve, step_up, starts_with_slash, steps, clean, nonempty, cleaned, join_slash, join,
}
use famfun.Home.FilePath.Below.{
  IsStep, HasSteps, below-nonempty, split-SlashFree, split-append, resolve-append, resolve-IsStep,
  starts-append, clean_lem, shaped, clean-below, regroup,
}

resolve-up :
    (r : Bool) (done : List String) (q : String)
    → IsStep q
    → resolve r (q ∷ done) (".." ∷ []) ≡ done
unfolding resolve step_up
resolve-up r done q h = rw (test_of_ne q ".." h.not_up) refl

two_dots-SlashFree : SlashFree ".."
two_dots-SlashFree = (λ e. absurd (omega (arith, e)), (λ e. absurd (omega (arith, e)), tt))

module _ (parent q : String) (h : HasSteps parent) (plain : IsStep q) where
  dir : String
  dir = parent ⧺ ("/" ⧺ q)

  up : String
  unfolding dir
  up = dir ⧺ ("/" ⧺ "..")

  dir-not_empty : dir ≢ ""
  unfolding dir
  dir-not_empty = below-nonempty parent q h.0

  starts-up : starts_with_slash up ≡ starts_with_slash parent
  unfolding dir up
  starts-up = starts-append dir ("/" ⧺ "..") dir-not_empty ∙ starts-append parent ("/" ⧺ q) h.0

  split-up : split up ≡ (split parent ++ q ∷ []) ++ ".." ∷ []
  unfolding dir up
  split-up =
      split-append dir ".."
      ∙ ap₂ ◌++◌
          (split-append parent q ∙ ap (λ l. split parent ++ l) (split-SlashFree q plain.slash_free))
          (split-SlashFree ".." two_dots-SlashFree)

  resolved : (r : Bool) → resolve r [] (split up) ≡ resolve r [] (split parent)
  resolved r =
      let done = resolve r [] (split parent) in
      ap (resolve r []) split-up
      ∙ resolve-append r [] (split parent ++ q ∷ []) (".." ∷ [])
      ∙ ap (λ l. resolve r l (".." ∷ []))
          (resolve-append r [] (split parent) (q ∷ []) ∙ resolve-IsStep r done q plain)
      ∙ resolve-up r done q plain

  steps-up : steps up ≡ steps parent
  unfolding steps
  steps-up =
      ap reverse (ap (λ r. resolve r [] (split up)) starts-up ∙ resolved (starts_with_slash parent))

  clean-up : clean up ≡ clean parent
  clean-up = clean_lem up ∙ ap₂ shaped starts-up steps-up ∙ sym (clean_lem parent)

  up-HasSteps : HasSteps up
  unfolding dir up
  up-HasSteps = (below-nonempty dir ".." dir-not_empty, λ e. h.1 (sym steps-up ∙ e))

  -- filepath.Join of a directory, two dots, and a plain step: the step stands beside the directory.
  pub join-up :
      (w : String)
      → IsStep w
      → join ((parent ⧺ ("/" ⧺ q)) ∷ ".." ∷ w ∷ []) ≡ clean parent ⧺ ("/" ⧺ w)
  unfolding join nonempty cleaned join_slash dir up
  join-up w plain' = rw (test_of_ne dir "" dir-not_empty) (
      rw (test_of_ne w "" plain'.not_empty) (
        ap clean (regroup dir ".." w)
        ∙ clean-below up w up-HasSteps plain'
        ∙ ap (λ t. t ⧺ ("/" ⧺ w)) clean-up))
