-- ===== src/Commands/Effects.antt =====
-- What the commands of src/main.rs do to the files, and what they report.
use pgr.Prelude.{
  ◌==◌, ◌≢◌, refl, ap, subst, false, ◌∷◌, arith, Bool-cases, inl, inr, ℕ, ◌≡◌, ◌∙◌, true, false,
  some, List, [], ◌++◌, Bytes, codes, All,
}
use pgr.Prelude.Panic.{◌>>=◌}
use pgr.Prelude.Decimal.{decimal}
use pgr.Prelude.Maps.{lookup, insert, lookup-insert, lookup-insert_other, same_bytes, Bytes_key}
use pgr.Capture.{CaptureMessage}
use pgr.Capture.Format.{encode, encode_all, Fits}
use pgr.Capture.Reader.{CaptureReader}
use pgr.Capture.File.{IsCut, start_message, open_and_read}
use pgr.Dump.Format.{heading}
use pgr.Dump.Lines.{lines, dump-lines}
use pgr.Commands.{
  FilePath, full, Disk, got, try_open, try_create, created_path, has_dot, has_extension,
  open_capture, dump_csv, print_lsn, dumped, position, run_command,
}
use pgr.Commands.Lsn.{lsn_text, IsLsnText, lsn_text-IsLsnText}

-- The path that `dump` writes to.
abbrev pub csv_path : FilePath → Bytes
csv_path output = full (created_path output (codes "csv"))

-- Where a dump to a path is written: a name with a dot behind its first character, so with a stem
-- before an extension, is taken as it is; any other gets `.csv`.
pub data WritesTo : FilePath → Bytes → Type 0 where
  as_named :
      (parent stem ext : Bytes)
      → stem ≢ []
      → WritesTo
          (record { parent = parent; name = stem ++ b'.' ∷ ext })
          (parent ++ (stem ++ b'.' ∷ ext))
  with_csv :
      (parent name : Bytes)
      → ((stem ext : Bytes) → name ≡ stem ++ b'.' ∷ ext → stem ≡ [])
      → WritesTo (record { parent = parent; name = name }) (parent ++ (name ++ codes ".csv"))

pub has_dot-append : (stem ext : Bytes) → has_dot (stem ++ b'.' ∷ ext) ≡ true
has_dot-append [] ext = refl
has_dot-append (b ∷ stem) ext = elim (Bool-cases (b == b'.')) [
  | inl found ↦ rw found refl
  | inr other ↦ rw other (has_dot-append stem ext)
]

has_dot-split :
    (bs : Bytes) → has_dot bs ≡ true → (stem : Bytes) × (ext : Bytes) × (bs ≡ stem ++ b'.' ∷ ext)
has_dot-split [] h = absurd (cc h)
has_dot-split (b ∷ bs) h = elim (Bool-cases (b == b'.')) [
  | inl found ↦ ([], bs, ap (λ d. d ∷ bs) (ground (arith, found)))
  | inr other ↦
      let (stem, ext, e) = has_dot-split bs (rw other at h) in
      (b ∷ stem, ext, ap (λ (r : Bytes). b ∷ r) e)
]

has_extension-stem : (stem ext : Bytes) → stem ≢ [] → has_extension (stem ++ b'.' ∷ ext) ≡ true
has_extension-stem [] ext h = absurd (h refl)
has_extension-stem (b ∷ stem) ext h = has_dot-append stem ext

has_extension-none :
    (name : Bytes)
    → ((stem ext : Bytes) → name ≡ stem ++ b'.' ∷ ext → stem ≡ [])
    → has_extension name ≡ false
has_extension-none [] h = refl
has_extension-none (b ∷ bs) h = elim (Bool-cases (has_dot bs)) [
  | inl found ↦
      let (stem, ext, e) = has_dot-split bs found in
      absurd (cc (h (b ∷ stem) ext (ap (λ (r : Bytes). b ∷ r) e)))
  | inr none_found ↦ none_found
]

WritesTo-csv_path :
    (output : FilePath) (target : Bytes) → WritesTo output target → csv_path output ≡ target
unfolding created_path
WritesTo-csv_path _ _ (as_named parent stem ext h) = rw (has_extension-stem stem ext h) refl
WritesTo-csv_path _ _ (with_csv parent name h) = rw (has_extension-none name h) refl

module _ (disk : Disk) (input : FilePath) (id t l : ℕ) (ms : List CaptureMessage) (cut : Bytes)
    (first_Fits : Fits (start_message id t l)) (ms_Fit : All Fits ms) (cut_IsCut : IsCut cut)
    (there : lookup (disk.resolve (full input)) disk.files
      ≡ some (encode (start_message id t l) ++ (encode_all encode ms ++ cut))) where
  abbrev reader : CaptureReader
  reader = record { buf = encode_all encode ms ++ cut; lsn = l; start_ts = t }

  open_capture-encoded : open_capture disk input ≡ got reader
  unfolding open_capture try_open
  open_capture-encoded = rw (there, (open_and_read id t l ms cut first_Fits ms_Fit cut_IsCut).0)

  -- On a file that starts with a log position and goes on with messages that fit the format, and
  -- perhaps a cut-off one, the command lsn prints the position as the upper half in at most eight
  -- hexadecimal digits without leading zeros, a slash, and the lower half in exactly eight, and the
  -- time of the start; it changes no file.
  pub print_lsn-position :
      (s : Bytes) × (run_command disk (print_lsn input) ≡ some (disk, got (position s (decimal t))))
      × IsLsnText l s
  unfolding run_command
  print_lsn-position = (lsn_text l, rw open_capture-encoded, lsn_text-IsLsnText l first_Fits.event)

  -- After the dump the file at `target` has the lines, and the others are as they were.
  abbrev pub DumpedTo : FilePath → Bytes → Type 0
  DumpedTo output target =
      (disk' : Disk) × (run_command disk (dump_csv input output) ≡ some (disk', got dumped))
      × (lookup (disk.resolve target) disk'.files ≡ some (heading l ++ lines t ms))
      × (lookup (disk.resolve (full input)) disk'.files
          ≡ lookup (disk.resolve (full input)) disk.files)
      × ((q : Bytes)
          → same_bytes q (disk.resolve target) ≡ false
          → lookup q disk'.files ≡ lookup q disk.files)

  dump_csv-csv_path :
      (output : FilePath)
      → disk.can_create (csv_path output) ≡ true
      → same_bytes (disk.resolve (full input)) (disk.resolve (csv_path output)) ≡ false
      → DumpedTo output (csv_path output)
  unfolding run_command try_create
  dump_csv-csv_path output may other = (
    record disk {
      files =
          insert (disk.resolve (csv_path output)) (heading l ++ lines t ms)
            (insert (disk.resolve (csv_path output)) [] disk.files);
    },
    rw (open_capture-encoded, may, dump-lines ms cut l t ms_Fit cut_IsCut, ◌>>=◌),
    lookup-insert _ _ _,
    same (disk.resolve (full input)) other,
    same,
  )
    where
      same :
          (q : Bytes)
          → same_bytes q (disk.resolve (csv_path output)) ≡ false
          → lookup q (
              insert
                (disk.resolve (csv_path output))
                (heading l ++ lines t ms)
                (insert (disk.resolve (csv_path output)) [] disk.files))
            ≡ lookup q disk.files
      same q h = lookup-insert_other q _ _ _ h ∙ lookup-insert_other q _ _ _ h

  -- From a file that starts with a log position and goes on with messages that fit the format, and
  -- perhaps a cut-off one, where the system lets the program create the output, another file than
  -- the input, the command dump leaves at the output's path, with .csv where the name has no
  -- extension, the line of the column names, the line of the log position and a line for each whole
  -- message, and every other file, the input too, as it was.
  pub dump_csv-lines :
      (output : FilePath) (target : Bytes)
      → WritesTo output target
      → disk.can_create target ≡ true
      → same_bytes (disk.resolve (full input)) (disk.resolve target) ≡ false
      → DumpedTo output target
  dump_csv-lines output target writes =
      subst
        (λ p.
          disk.can_create p ≡ true
          → same_bytes (disk.resolve (full input)) (disk.resolve p) ≡ false
          → DumpedTo output p)
        (WritesTo-csv_path output target writes) (dump_csv-csv_path output)
