-- ===== src/Commands/Total.antt =====
-- The commands of src/main.rs on any disk.
use pgr.Prelude.{
  ◌<◌, ◌^◌, ◌≡◌, refl, ◌∙◌, ◌⊎◌, inl, inr, Bool, true, false, Option, none, some, [], Bytes, length,
  All,
}
use pgr.Prelude.Panic.{◌>>=◌, Returns, Returns-some}
use pgr.Prelude.Io.{invalid_data}
use pgr.Prelude.Maps.{lookup, insert, lookup-insert_other, lookup-All, same_bytes, Bytes_key}
use pgr.Capture.Reader.{CaptureReader}
use pgr.Compare.Loop.{compare}
use pgr.Compare.Total.{compare-Returns}
use pgr.Dump.{Dumped, dump}
use pgr.Dump.Lines.{dump-Returns}
use pgr.Commands.{
  FilePath, full, Disk, failed, Tried, got, gave_up, try_open, try_create, open_capture, Command,
  dump_csv, compare_timing, print_lsn, Report, dumped, run_command, dump_from, compare_from,
}
use pgr.Commands.Effects.{csv_path}

-- No file but the one at `p` has changed; none has, unless the command has succeeded or has
-- met bad data.
abbrev pub OnlyAt : Bytes → Disk → Disk × Tried Report → Type 0
OnlyAt p disk (disk', r) =
    ((q : Bytes) → same_bytes q p ≡ false → lookup q disk'.files ≡ lookup q disk.files)
    × ((disk' ≡ disk) ⊎ ((r ≡ got dumped) ⊎ (r ≡ gave_up (failed invalid_data))))

abbrev pub Leaves : Command → Disk → Disk × Tried Report → Type 0
Leaves (dump_csv input output) disk o = OnlyAt (disk.resolve (csv_path output)) disk o
Leaves (compare_timing capture timing) disk o = o.0 ≡ disk
Leaves (print_lsn input) disk o = o.0 ≡ disk

dump_from-Returns :
    (disk : Disk) (output : FilePath) (r : Tried CaptureReader)
    → Returns (OnlyAt (disk.resolve (csv_path output)) disk) (dump_from disk output r)
unfolding try_create
dump_from-Returns disk output (gave_up e) = ((λ q h. refl), inl refl)
dump_from-Returns disk output (got reader) = by_create (disk.can_create (csv_path output)) refl
  where
    changed :
        (d : Dumped) (q : Bytes)
        → same_bytes q (disk.resolve (csv_path output)) ≡ false
        → lookup q (
            insert
              (disk.resolve (csv_path output))
              d.output
              (insert (disk.resolve (csv_path output)) [] disk.files))
          ≡ lookup q disk.files
    changed d q h = lookup-insert_other q _ _ _ h ∙ lookup-insert_other q _ _ _ h

    by_create :
        (may : Bool)
        → disk.can_create (csv_path output) ≡ may
        → Returns
            (OnlyAt (disk.resolve (csv_path output)) disk)
            (dump_from disk output (got reader))
    by_create false e = rw e ((λ q h. refl), inl refl)
    by_create true e =
        let (d, returned, ends) = Returns-some _ (dump reader) (dump-Returns reader) in
        elim ends [
          | inl whole ↦ rw (e, returned, ◌>>=◌, whole) (changed d, inr (inl refl))
          | inr bad ↦ rw (e, returned, ◌>>=◌, bad) (changed d, inr (inr refl))
        ]

compare_from-Returns :
    (disk : Disk) (timing : FilePath) (r : Tried CaptureReader)
    → All (λ (f : Bytes × Bytes). length f.1 < 2 ^ 64) disk.files
    → Returns (λ o. o.0 ≡ disk) (compare_from disk timing r)
unfolding try_open
compare_from-Returns disk timing (gave_up e) small = refl
compare_from-Returns disk timing (got reader) small =
    by_file (lookup (disk.resolve (full timing)) disk.files) refl
  where
    by_file :
        (f : Option Bytes)
        → lookup (disk.resolve (full timing)) disk.files ≡ f
        → Returns (λ (o : Disk × Tried Report). o.0 ≡ disk) (compare_from disk timing (got reader))
    by_file none e = rw e refl
    by_file (some file) e =
        let (c, returned, _) = Returns-some _ (compare reader file) (
          compare-Returns reader file (
            lookup-All (λ f. length f < 2 ^ 64) (disk.resolve (full timing)) file disk.files small
              e)) in
        rw (e, returned, ◌>>=◌) refl

-- On any disk with files smaller than 2^64 bytes, no command panics or runs without end: comparing and
-- printing the position change no file, and a dump changes no file but the one at its output's path,
-- and not that one either unless it succeeds or meets bad data.
pub run_command-Leaves :
    (disk : Disk) (c : Command)
    → All (λ (f : Bytes × Bytes). length f.1 < 2 ^ 64) disk.files
    → Returns (Leaves c disk) (run_command disk c)
unfolding run_command
run_command-Leaves disk (dump_csv input output) small =
    dump_from-Returns disk output (open_capture disk input)
run_command-Leaves disk (compare_timing capture timing) small =
    compare_from-Returns disk timing (open_capture disk capture) small
run_command-Leaves disk (print_lsn input) small = refl
