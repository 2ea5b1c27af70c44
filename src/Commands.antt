-- ===== src/Commands.antt =====
-- src/main.rs: the commands that read files and end, `dump`, `compare` and `lsn`, over a disk. A file
-- that is opened is read as it stands then; what a command logs as its result is a value.
pub mod Lsn
pub mod Effects
pub mod Total
use pgr.Prelude.{
  ℕ, ◌/◌, ◌%◌, ◌^◌, Bool, true, false, ◌||◌, Option, none, some, [], ◌∷◌, ◌++◌, Bytes, codes, ◌==◌,
  if◌then◌else◌,
}
use pgr.Prelude.Panic.{◌>>=◌}
use pgr.Prelude.Decimal.{decimal}
use pgr.Prelude.Io.{IoError, Result, ok, err}
use pgr.Prelude.Maps.{Map, lookup, insert, Bytes_key}
use pgr.Capture.Reader.{CaptureReader}
use pgr.Capture.Reader
use pgr.Compare.Loop.{compare}
use pgr.Dump.{Dumped, dump}
use pgr.Commands.Lsn.{lsn_text}

-- The path of a file: what precedes its name, with the last slash, and the name, which is neither
-- `.` nor `..`.
pub record FilePath : Type 0 where
  pub parent : Bytes
  pub name : Bytes

abbrev pub full : FilePath → Bytes
full p = p.parent ++ p.name

-- The files with their bytes, which file a path leads to, once its links and other spellings are
-- followed, and at which paths the system lets the program create or open one for writing.
pub record Disk : Type 0 where
  pub resolve : Bytes → Bytes
  pub files : Map Bytes Bytes
  pub can_create : Bytes → Bool

pub data CommandError : Type 0 where
  open_failed : FilePath → CommandError
  create_failed : FilePath → CommandError
  failed : IoError → CommandError

-- `anyhow::Result`
pub data Tried (A : Type 0) : Type 0 where
  got : A → Tried A
  gave_up : CommandError → Tried A

abbrev pub of_result : {A : Type 0} → Result A → Tried A
of_result (ok a) = got a
of_result (err e) = gave_up (failed e)

abbrev found_at : FilePath → Option Bytes → Tried Bytes
found_at p none = gave_up (open_failed p)
found_at p (some file) = got file

unfoldable pub try_open : Disk → FilePath → Tried Bytes
try_open disk p = found_at p (lookup (disk.resolve (full p)) disk.files)

abbrev pub dot : ℕ
dot = 0x2e

abbrev pub has_dot : Bytes → Bool
has_dot [] = false
has_dot (b ∷ bs) = (b == dot) || has_dot bs

-- `path.extension().is_some()`: a dot at the start of the name does not count.
abbrev pub has_extension : Bytes → Bool
has_extension [] = false
has_extension (b ∷ bs) = has_dot bs

-- `with_extension` of a name that has none.
abbrev pub with_extension : FilePath → Bytes → FilePath
with_extension p ext = record p { name = p.name ++ dot ∷ ext }

unfoldable pub created_path : FilePath → Bytes → FilePath
created_path p ext = if has_extension p.name then p else with_extension p ext

abbrev create : Disk → FilePath → Bool → Tried (FilePath × Disk)
create disk p true = got (p, record disk { files = insert (disk.resolve (full p)) [] disk.files })
create disk p false = gave_up (create_failed p)

-- The path of the created file, and the disk with it.
unfoldable pub try_create : Disk → FilePath → Bytes → Tried (FilePath × Disk)
try_create disk path ext = let p = created_path path ext in create disk p (disk.can_create (full p))

unfoldable pub default_username : (Bytes → Option Bytes) → Bytes
default_username env = elim (env (codes "USER")) [
  | some user ↦ user
  | none ↦ elim (env (codes "LOGNAME")) [ some user ↦ user | none ↦ codes "postgres" ]
]

-- The cases of `Commands` that read files and end.
pub data Command : Type 0 where
  dump_csv : FilePath → FilePath → Command
  compare_timing : FilePath → FilePath → Command
  print_lsn : FilePath → Command

-- What a command that succeeds logs at its end: nothing of its own, the numbers of the records that
-- were matched and not, or the position and the time of the start.
pub data Report : Type 0 where
  dumped : Report
  compared : ℕ → ℕ → Report
  position : Bytes → Bytes → Report

abbrev reader_of : Tried Bytes → Tried CaptureReader
reader_of (got file) = of_result (Reader.new file)
reader_of (gave_up e) = gave_up e

-- `CaptureReader::new(try_open(&input)?)?`
unfoldable pub open_capture : Disk → FilePath → Tried CaptureReader
open_capture disk p = reader_of (try_open disk p)

-- What a command comes to: the disk after it, with its report or its error; `none` is a panic.
abbrev pub Outcome : Type 0
Outcome = Option (Disk × Tried Report)

abbrev dump_ended : Option IoError → Tried Report
dump_ended none = got dumped
dump_ended (some e) = gave_up (failed e)

abbrev after_dump : Disk → FilePath → Dumped → Disk × Tried Report
after_dump disk p d =
    (record disk { files = insert (disk.resolve (full p)) d.output disk.files }, dump_ended d.error)

abbrev dump_into : Disk → CaptureReader → Tried (FilePath × Disk) → Outcome
dump_into disk reader (gave_up e) = some (disk, gave_up e)
dump_into disk reader (got (p, disk')) = do d ← dump reader; some (after_dump disk' p d)

abbrev dump_from : Disk → FilePath → Tried CaptureReader → Outcome
dump_from disk output (gave_up e) = some (disk, gave_up e)
dump_from disk output (got reader) = dump_into disk reader (try_create disk output (codes "csv"))

abbrev compare_ended : Result (ℕ × ℕ) → Tried Report
compare_ended (ok (matched, unmatched)) = got (compared matched unmatched)
compare_ended (err e) = gave_up (failed e)

abbrev compare_with : Disk → CaptureReader → Tried Bytes → Outcome
compare_with disk reader (gave_up e) = some (disk, gave_up e)
compare_with disk reader (got timing) = do r ← compare reader timing; some (disk, compare_ended r)

abbrev compare_from : Disk → FilePath → Tried CaptureReader → Outcome
compare_from disk timing (gave_up e) = some (disk, gave_up e)
compare_from disk timing (got reader) = compare_with disk reader (try_open disk timing)

abbrev print_from : Tried CaptureReader → Tried Report
print_from (gave_up e) = gave_up e
print_from (got reader) = got (position (lsn_text reader.lsn) (decimal reader.start_ts))

unfoldable pub run_command : Disk → Command → Outcome
run_command disk (dump_csv input output) = dump_from disk output (open_capture disk input)
run_command disk (compare_timing capture timing) =
    compare_from disk timing (open_capture disk capture)
run_command disk (print_lsn input) = some (disk, print_from (open_capture disk input))
