-- ===== src/Home/Server/Upload/Naming.antt =====
-- internal/home/server.go: uniqueFilePath finds a name that no file has.

use Prim.Native.String.{◌∷◌ as push}
use text.Mathlib.TextLemmas.{nil-append, cons-append, append_cancel_left, append_cancel_right}
use famfun.Prelude.{
  ℕ, zero, suc, ◌+◌, ◌≤◌, ◌<◌, ◌≡◌, ◌≢◌, refl, sym, ap, ◌∙◌, subst, String, [], ◌∷◌, none, some,
  true, false, Bool-cases, Option-cases, inl, inr, length, arith, test_of_ne,
}
use famfun.Prelude.Dict.{Dict, lookup, delete, lookup-delete}
use famfun.Protocol.Message.{Bytes}
use famfun.Prelude.Text.{◌⧺◌, SlashFree}
use famfun.Prelude.Decimal.{decimal}
use famfun.Prelude.Decimal.Injective.{decimal-injective, decimal-SlashFree}
use famfun.Home.FilePath.{clean, ext, trim_suffix, join}
use famfun.Home.FilePath.Below.{IsStep, HasSteps, join-below}
use famfun.Home.FilePath.Plain.{
  SlashFree-append, trim_suffix-SlashFree, ext-SlashFree, bracket-IsStep,
}
use famfun.Home.Disk.{Disk, exists}
use famfun.Home.Server.{HomeServer}
use famfun.Home.Server.Upload.{candidate, first_free, unique_file_path}

-- What stands behind the name of a candidate's number.
numbered : String → ℕ → String
numbered filename i =
    let e = ext filename in trim_suffix filename e ⧺ ("(" ⧺ (decimal i ⧺ (")" ⧺ e)))

numbered_bracket :
    (filename : String) (i : ℕ)
    → numbered filename i
      ≡ trim_suffix filename (ext filename) ⧺ push "(" (decimal i ⧺ (")" ⧺ ext filename))
unfolding numbered
numbered_bracket filename i =
    let e = ext filename in
    ap (λ t. trim_suffix filename e ⧺ t)
      (cons-append "(" "" (decimal i ⧺ (")" ⧺ e))
        ∙ ap (push "(") (nil-append (decimal i ⧺ (")" ⧺ e))))

numbered-IsStep : (filename : String) (i : ℕ) → SlashFree filename → IsStep (numbered filename i)
numbered-IsStep filename i free =
    let e = ext filename in
    let e_free = ext-SlashFree filename free in
    subst IsStep (sym (numbered_bracket filename i)) (
      bracket-IsStep (trim_suffix filename e) (decimal i ⧺ (")" ⧺ e))
        (trim_suffix-SlashFree filename e free)
        (SlashFree-append (decimal i) (")" ⧺ e) (decimal-SlashFree i)
          (SlashFree-append ")" e ((λ h. absurd (omega (arith, h))), tt) e_free)))

-- A file of the disk is one of its files.
delete-length-le : (p : String) (files : Dict Bytes) → length (delete p files) ≤ length files
unfolding delete
delete-length-le p [] = omega arith
delete-length-le p ((q, b) ∷ files) = ground (arith, delete-length-le p files)

lookup-length :
    (p : String) (files : Dict Bytes) (b : Bytes)
    → lookup p files ≡ some b
    → length (delete p files) + 1 ≤ length files
unfolding delete lookup
lookup-length p [] b h = absurd cc
lookup-length p ((q, c) ∷ files) b h =
    ground (arith, lookup-length p files b, delete-length-le p files)

exists-length :
    (p : String) (d : Disk) → exists p d ≡ true → length (delete p d.files) + 1 ≤ length d.files
unfolding exists
exists-length p d h = elim (Option-cases (lookup p d.files)) [
  | inl gone ↦ absurd (let e : false ≡ true = rw (gone, exists) at h in cc)
  | inr (b, found) ↦ lookup-length p d.files b found
]

module _ (dir filename : String) where
  found :
      (n i : ℕ) (d : Disk)
      → exists (candidate dir filename i) d ≡ false
      → first_free (suc n) i dir filename d ≢ none
  unfolding first_free
  found n i d gone e = ground arith

  onward :
      (n i : ℕ) (d : Disk)
      → exists (candidate dir filename i) d ≡ true
      → first_free (suc n) i dir filename d ≡ first_free n (i + 1) dir filename d
  unfolding first_free
  onward n i d there = ground arith

  -- What is found is a candidate that is not there.
  first_free-Free :
      (n i : ℕ) (d : Disk) (p : String)
      → first_free n i dir filename d ≡ some p
      → (exists p d ≡ false) × ((k : ℕ) × (p ≡ candidate dir filename k))
  unfolding first_free
  first_free-Free zero i d p h = absurd cc
  first_free-Free (suc n) i d p h = elim (Bool-cases (exists (candidate dir filename i) d)) [
    | inl there ↦ first_free-Free n (i + 1) d p (sym (onward n i d there) ∙ h)
    | inr gone ↦
        let same : candidate dir filename i ≡ p = ground (arith, gone, h) in
        (subst (λ q. exists q d ≡ false) same gone, (i, sym same))
  ]

-- A file name without a slash, and a directory with steps.
module _ (dir filename : String) (h : HasSteps dir) (free : SlashFree filename) where
  candidate_lem : (i : ℕ) → candidate dir filename i ≡ clean dir ⧺ ("/" ⧺ numbered filename i)
  unfolding candidate numbered
  candidate_lem i = join-below dir (numbered filename i) h (numbered-IsStep filename i free)

  candidate-injective : (i j : ℕ) → candidate dir filename i ≡ candidate dir filename j → i ≡ j
  unfolding numbered
  candidate-injective i j e =
      let x = ext filename in
      let below = sym (candidate_lem i) ∙ e ∙ candidate_lem j in
      let same = append_cancel_left "/" _ _ (append_cancel_left (clean dir) _ _ below) in
      let digits =
        append_cancel_left "(" _ _ (append_cancel_left (trim_suffix filename x) _ _ same) in
      decimal-injective i j (append_cancel_right (decimal i) (decimal j) (")" ⧺ x) digits)

  -- The disk without the file of one candidate.
  without : ℕ → Disk → Disk
  without i d = record d { files = delete (candidate dir filename i) d.files }

  exists-without :
      (i j : ℕ) (d : Disk)
      → i < j
      → exists (candidate dir filename j) (without i d) ≡ exists (candidate dir filename j) d
  unfolding exists without
  exists-without i j d less =
      let other =
        test_of_ne (candidate dir filename i) (candidate dir filename j)
          (λ e. absurd (omega (arith, less, candidate-injective i j e))) in
      rw (lookup-delete (candidate dir filename i) (candidate dir filename j) d.files, exists)
        (rw other refl)

  first_free-without :
      (n i j : ℕ) (d : Disk)
      → i < j
      → first_free n j dir filename (without i d) ≡ first_free n j dir filename d
  unfolding first_free
  first_free-without zero i j d less = refl
  first_free-without (suc n) i j d less =
      ground
        (arith, exists-without i j d less, first_free-without n i (j + 1) d (omega (arith, less)))

  -- Fuel for one candidate more than there are files is enough.
  first_free-none : (n i : ℕ) (d : Disk) → first_free n i dir filename d ≡ none → n ≤ length d.files
  unfolding first_free without
  first_free-none zero i d e = omega arith
  first_free-none (suc n) i d e = elim (Bool-cases (exists (candidate dir filename i) d)) [
    | inl there ↦
        let later =
          first_free-without n i (i + 1) d (omega arith)
          ∙ sym (onward dir filename n i d there)
          ∙ e in
        omega (
          arith,
          first_free-none n (i + 1) (without i d) later,
          exists-length (candidate dir filename i) d there,
        )
    | inr gone ↦ absurd (found dir filename n i d gone e)
  ]

-- A free path of a file with a plain name below a directory.
pub record IsFreeBelow (dir : String) (d : Disk) (p : String) : Type 0 where
  pub name : String
  pub plain : IsStep name
  pub below : p ≡ clean dir ⧺ ("/" ⧺ name)
  pub gone : exists p d ≡ false

-- Below a directory with steps, the search for the path of an upload with a plain name ends with a path
-- that no file has.
pub unique_file_path-IsFreeBelow :
    (filename : String) (s : HomeServer)
    → HasSteps s.video_dir
    → IsStep filename
    → (p : String) × (unique_file_path filename s ≡ some p) × IsFreeBelow s.video_dir s.disk p
unfolding unique_file_path
unique_file_path-IsFreeBelow filename s h plain =
    let dir = s.video_dir in
    let dest = join (dir ∷ filename ∷ []) in
    let n = suc (length s.disk.files) in
    elim (Bool-cases (exists dest s.disk)) [
      | inr gone ↦ (
        dest,
        rw (gone, unique_file_path) refl,
        record {
          name = filename;
          plain = plain;
          below = join-below dir filename h plain;
          gone = gone;
        },
      )
      | inl there ↦ elim (Option-cases (first_free n 1 dir filename s.disk)) [
        | inl nothing ↦
            absurd
              (omega (arith, first_free-none dir filename h plain.slash_free n 1 s.disk nothing))
        | inr (p, got) ↦
            let (gone, (k, same)) = first_free-Free dir filename n 1 s.disk p got in
            (
              p,
              rw (there, unique_file_path) got,
              record {
                name = numbered filename k;
                plain = numbered-IsStep filename k plain.slash_free;
                below = same ∙ candidate_lem dir filename h plain.slash_free k;
                gone = gone;
              },
            )
      ]
    ]
