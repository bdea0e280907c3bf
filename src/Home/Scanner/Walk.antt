-- ===== src/Home/Scanner/Walk.antt =====
-- internal/home/scanner.go: the walk over the directory of videos, and the scan of what it finds.
use famfun.Prelude.{
  String, List, [], ◌∷◌, Option, none, some, Bool, Result, ok, err, panic, Error, ◌++◌,
  if◌then◌else◌,
}
use famfun.Model.{Video}
use famfun.Home.Disk.{Disk}
use famfun.Home.Scanner.{Tools, is_supported_video, probe_video}

-- A call of the function that filepath.WalkDir is given: a path, whether it is a directory, and the
-- error of reading it.
pub record Visit : Type 0 where
  pub path : String
  pub is_dir : Bool
  pub failure : Option Error

-- The walk ends at the first error that the function returns.
unfoldable pub find_from : List Visit → List String → Result (List String)
find_from [] files = ok files
find_from (v ∷ vs) files =
    let rest = find_from vs (
      if v.is_dir
      then files
      else if is_supported_video v.path
      then files ++ v.path ∷ []
      else files) in
    elim v.failure [ some e ↦ err e | none ↦ rest ]

unfoldable pub find_video_files : List Visit → Result (List String)
find_video_files visits = find_from visits []

abbrev pub with_probed : Result Video → List Video → List Video
with_probed (ok v) vs = v ∷ vs
with_probed (err e) vs = vs
with_probed panic vs = vs

-- The loop over the files. One that cannot be probed is skipped.
unfoldable pub scan_files : Tools → String → String → List String → Disk → List Video × Disk
scan_files t video_dir stream_dir [] d = ([], d)
scan_files t video_dir stream_dir (path ∷ files) d =
    let (r, d') = probe_video t video_dir stream_dir path d in
    let (vs, d'') = scan_files t video_dir stream_dir files d' in (with_probed r vs, d'')

abbrev pub scanned : List Video × Disk → Result (List Video) × Disk
scanned (vs, d) = (ok vs, d)

-- `visits` is what the walk of the video directory visits.
unfoldable pub scan : Tools → String → String → List Visit → Disk → Result (List Video) × Disk
scan t video_dir stream_dir visits d = elim (find_video_files visits) [
  | ok files ↦ scanned (scan_files t video_dir stream_dir files d)
  | err e ↦ (err e, d)
  | panic ↦ (panic, d)
]
