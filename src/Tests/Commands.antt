-- ===== src/Tests/Commands.antt =====
-- Tests of src/main.rs.
use pgr.Prelude.{
  ap, ◌∙◌, ℕ, ◌+◌, ◌*◌, ◌^◌, ◌<◌, ◌≡◌, refl, inl, true, some, [], ◌∷◌, ◌++◌, arith, Bytes, codes,
  All, length, to_le,
}
use pgr.Prelude.Panic.{Returns}
use pgr.Prelude.Decimal.{decimal}
use pgr.Prelude.Maps.{lookup, Bytes_key}
use pgr.Capture.{CaptureMessage, disconnect}
use pgr.Capture.Format.{encode, encode_all, Fits}
use pgr.Capture.File.{start_message}
use pgr.Commands.{
  FilePath, full, Disk, got, dump_csv, print_lsn, position, run_command, created_path, has_dot,
}
use pgr.Commands.Lsn.{lsn_text, hex_digits, padded_hex, hex_digit, IsLsnText}
use pgr.Commands.Effects.{
  csv_path, WritesTo, with_csv, has_dot-append, DumpedTo, print_lsn-position, dump_csv-lines,
}
use pgr.Commands.Total.{Leaves, run_command-Leaves}

abbrev capture : FilePath
capture = record { parent = codes "/a/"; name = codes "load" }

abbrev output : FilePath
output = record { parent = codes "/a/"; name = codes "out" }

abbrev timing : FilePath
timing = record { parent = codes "/a/"; name = codes "replay.timing" }

abbrev left : CaptureMessage
left = record { id = 3; ts = 700; event = disconnect }

abbrev log_position : ℕ
log_position = 10 * 2 ^ 32 + 171

abbrev first : CaptureMessage
first = start_message 0 500 log_position

abbrev load : Bytes
load = encode first ++ (encode_all encode (left ∷ []) ++ [])

abbrev disk : Disk
disk = record {
  resolve = λ p. p;
  files = (full capture, load) ∷ (full timing, []) ∷ [];
  can_create = λ p. true;
}

lsn_text-run : lsn_text log_position ≡ codes "A/000000AB"
unfolding lsn_text hex_digits padded_hex hex_digit
lsn_text-run = refl

csv_path-run : csv_path output ≡ codes "/a/out.csv"
unfolding created_path
csv_path-run = refl

first-Fits : Fits first
first-Fits = record { id = omega arith; ts = omega arith; event = omega arith }

left-Fits : Fits left
left-Fits = record { id = omega arith; ts = omega arith; event = tt }

load-there : lookup (full capture) disk.files ≡ some load
unfolding lookup
load-there = refl

print_lsn-position_example :
    (s : Bytes) × (run_command disk (print_lsn capture)
      ≡ some (disk, got (position s (decimal 500))))
    × IsLsnText log_position s
print_lsn-position_example =
    print_lsn-position disk capture 0 500 log_position (left ∷ []) [] first-Fits (left-Fits, tt)
      (inl refl) load-there

-- The name `out` has no extension.
out-WritesTo : WritesTo output (codes "/a/out.csv")
out-WritesTo = with_csv (codes "/a/") (codes "out") (λ stem ext e.
    let dotted : has_dot (codes "out") ≡ true = ap has_dot e ∙ has_dot-append stem ext in
    absurd (cc dotted))

dump_csv-lines_example :
    DumpedTo disk capture 0 500 log_position
      (left ∷ [])
      []
      first-Fits
      (left-Fits, tt)
      (inl refl)
      load-there
      output
      (codes "/a/out.csv")
dump_csv-lines_example =
    dump_csv-lines disk capture 0 500 log_position (left ∷ []) [] first-Fits (left-Fits, tt)
      (inl refl) load-there output (codes "/a/out.csv") out-WritesTo refl refl

disk-small : All (λ (f : Bytes × Bytes). length f.1 < 2 ^ 64) disk.files
unfolding to_le
disk-small = omega arith

run_command-Leaves_example :
    Returns (Leaves (dump_csv capture output) disk) (run_command disk (dump_csv capture output))
run_command-Leaves_example = run_command-Leaves disk (dump_csv capture output) disk-small
