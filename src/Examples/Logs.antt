-- ===== src/Examples/Logs.antt =====
-- Logs of two and of three records.
use lumen.Base.{◌≡◌, refl, List, [], ◌∷◌, ◌++◌, some, none, ok, ◌>>=◌, arith}
use lumen.Core.Log.{SegmentedLog, append, read_all, open_with_segment_max}
use lumen.Base.{◌↔◌, ℕ}
use lumen.Core.Log.Frame.{frame, scan_segment}
use lumen.Core.Log.Frame.Scanned.{Scans, scan_segment_iff}
use lumen.Core.Log.Frame.Scan.{frames, length-frame}
use lumen.Core.Log.Segments.{Segment, Holds, records_of, seg_records, disk_of}
use lumen.Core.Log.Crashes.{lost, target, open_crashed}
use lumen.Core.Log.{write_frame, rotate}
use lumen.Core.Log.Rotation.{append-Holds, grown}
use lumen.Core.Log.Durability.{append_each, empty_log, open-Holds, session_round_trip}
use lumen.Core.Wal.{DecodesBack, open_wal, default_segment_max}
use lumen.Core.Wal.Replay.{append_entries, wal_round_trip, IsNumbered}
use lumen.Core.Log.Ranges.{read_range-Holds}
use lumen.Core.Log.{read_range}
use lumen.Base.{retain}
use lumen.Examples.Instances.{length_sum, length_sum_u32, numbers}

-- The records 5 and 6 in a closed segment and the record 7 in the active one.
abbrev closed_segments : List Segment
closed_segments = record { start = 5; payloads = (1 ∷ 2 ∷ []) ∷ (3 ∷ []) ∷ [] } ∷ []

abbrev last_segment : Segment
last_segment = record { start = 7; payloads = (4 ∷ []) ∷ [] }

abbrev three_log : SegmentedLog
three_log = record {
  disk = disk_of length_sum closed_segments ++ (7, frames length_sum ((4 ∷ []) ∷ [])) ∷ [];
  segment_max_bytes = 16;
  starts = 5 ∷ 7 ∷ [];
  records = records_of closed_segments ++ seg_records last_segment;
  active = some (record { start = 7; bytes = 9 });
}

three_log-Holds : Holds length_sum three_log 5 closed_segments last_segment
unfolding frame
three_log-Holds = record {
  disk = refl;
  starts = refl;
  records = refl;
  active = refl;
  chain = (refl, ((omega arith, (omega arith, tt)), omega arith), omega arith, tt);
  last_start = refl;
  sized = ((omega arith, tt), omega arith);
}

read_range-Holds_example : read_range 6 8 three_log ≡ some (ok ((6, 3 ∷ []) ∷ (7, 4 ∷ []) ∷ []))
unfolding retain
read_range-Holds_example =
    read_range-Holds length_sum three_log 5 closed_segments last_segment 6 8 three_log-Holds
      (omega arith)

append-Holds_example :
    (log' : SegmentedLog) × (append length_sum 8 (9 ∷ []) three_log ≡ ok log')
    × Holds length_sum log' 5
        (grown length_sum 16 closed_segments last_segment (9 ∷ [])).0
        (grown length_sum 16 closed_segments last_segment (9 ∷ [])).1
append-Holds_example =
    append-Holds length_sum three_log 5 closed_segments last_segment (9 ∷ []) three_log-Holds
      (omega arith) (omega arith) (omega arith)

open-Holds_example : open_with_segment_max length_sum three_log.disk 16 ≡ ok three_log
open-Holds_example =
    open-Holds length_sum length_sum_u32 three_log 5 closed_segments last_segment three_log-Holds

-- The active segment is full at nine bytes, so the record goes to a new one, and loses four bytes.
abbrev small_log : SegmentedLog
small_log = record three_log { segment_max_bytes = 9 }

small_log-Holds : Holds length_sum small_log 5 closed_segments last_segment
unfolding frame
small_log-Holds = record {
  disk = refl;
  starts = refl;
  records = refl;
  active = refl;
  chain = (refl, ((omega arith, (omega arith, tt)), omega arith), omega arith, tt);
  last_start = refl;
  sized = ((omega arith, tt), omega arith);
}

abbrev rotated_log : SegmentedLog
rotated_log =
    write_frame length_sum 8 (6 ∷ 6 ∷ []) (record { start = 8; bytes = 0 }) (rotate 8 small_log)

record_written : append length_sum 8 (6 ∷ 6 ∷ []) small_log ≡ ok rotated_log
unfolding append rotate write_frame
record_written = refl

open_crashed_example :
    (open_with_segment_max length_sum (lost 4 rotated_log) 9
      ≡ ok (target length_sum length_sum_u32 small_log last_segment))
    × (read_all (target length_sum length_sum_u32 small_log last_segment) ≡ read_all small_log)
open_crashed_example =
    open_crashed length_sum length_sum_u32 small_log rotated_log 5 closed_segments last_segment
      (6 ∷ 6 ∷ []) 4 small_log-Holds (omega arith) (omega arith) (omega arith) record_written
      (omega arith) (omega (arith, length-frame length_sum (6 ∷ 6 ∷ [])))

session_round_trip_example :
    (do
      log ← append_each length_sum 3 ((1 ∷ []) ∷ (2 ∷ 3 ∷ []) ∷ []) (empty_log 4)
      reopened ← open_with_segment_max length_sum log.disk 4
      read_all reopened)
    ≡ ok ((3, 1 ∷ []) ∷ (4, 2 ∷ 3 ∷ []) ∷ [])
session_round_trip_example =
    session_round_trip length_sum length_sum_u32 4 3 (1 ∷ []) ((2 ∷ 3 ∷ []) ∷ [])
      (omega arith, (omega arith, tt)) (omega arith) (omega arith)

wal_round_trip_example :
    (do
      wal ←
          append_entries numbers
            (record { seq = 4; command = none } ∷ record { seq = 5; command = none } ∷ [])
            (empty_log default_segment_max)
      reopened ← open_wal numbers wal.disk
      ok reopened.1)
    ≡ ok (record { seq = 4; command = none } ∷ record { seq = 5; command = none } ∷ [])
unfolding IsNumbered DecodesBack
wal_round_trip_example =
    wal_round_trip numbers (record { seq = 4; command = none })
      (record { seq = 5; command = none } ∷ []) (refl, (refl, tt)) (refl, (refl, tt))
      (omega arith, (omega arith, tt)) (omega arith)

-- A record, and after it bytes that are no record.
abbrev damaged : List ℕ
damaged = frame length_sum (1 ∷ 2 ∷ []) ++ 9 ∷ 9 ∷ []

scan_segment_iff_example :
    (scan_segment length_sum 5 damaged ≡ ((5, 8, 2) ∷ [], 10))
    ↔ Scans length_sum damaged 5 0 ((5, 8, 2) ∷ []) 10
scan_segment_iff_example = scan_segment_iff length_sum damaged 5 10 ((5, 8, 2) ∷ [])

damaged_scanned : scan_segment length_sum 5 damaged ≡ ((5, 8, 2) ∷ [], 10)
unfolding scan_segment frame
damaged_scanned = refl
