-- ===== src/Home/Disk.antt =====
-- The file system of the home server, as far as the program reads and writes whole files.
use famfun.Prelude.{String, Bool, none, some, Result, ok, err, library, if◌then◌else◌}
use famfun.Prelude.Dict.{Dict, lookup, insert}
use famfun.Prelude.Text.{◌⧺◌}
use famfun.Protocol.Message.{Bytes}

-- `writable p` says whether the system lets the program create or change the file `p`.
pub record Disk : Type 0 where
  pub files : Dict Bytes
  pub writable : String → Bool

unfoldable pub read_file : String → Disk → Result Bytes
read_file p d = elim (lookup p d.files) [
  | some b ↦ ok b
  | none ↦ err (library ("open " ⧺ (p ⧺ ": no such file or directory")))
]

-- os.WriteFile, its directory made before; the program drops its error.
unfoldable pub write_file : String → Bytes → Disk → Disk
write_file p b d = if d.writable p then record d { files = insert p b d.files } else d

-- os.Stat without an error; here it fails only where there is no such file.
unfoldable pub exists : String → Disk → Bool
exists p d = elim (lookup p d.files) [ some _ ↦ Bool.true | none ↦ Bool.false ]
