-- ===== src/Output/Truncate.antt =====
-- src/output.rs: byte limiting that never splits a redaction marker.
pub mod Cut
use kpexec.Prelude.{
  ℕ, zero, suc, ◌+◌, ◌-◌, Bool, true, false, leb, ltb, if◌then◌else◌, length, take, drop,
}
use kpexec.Output.Bytes.{Bytes, starts_with}
use kpexec.Output.Redact.{redaction_marker}

abbrev pub marker_len : ℕ
marker_len = 17

-- `while j < cut`, over the rounds left and `bytes[j..]`: the first marker that starts in the window
-- ends the scan, and moves the cut if it also ends behind the cut.
unfoldable pub scan_cut : ℕ → ℕ → Bytes → ℕ → ℕ
unfolding starts_with
scan_cut zero j rest cut = cut
scan_cut (suc rounds) j rest cut =
    let later = scan_cut rounds (j + 1) (drop 1 rest) cut in
    if starts_with rest redaction_marker then if ltb cut (j + marker_len) then j else cut else later

-- Where to cut a text that is longer than `max`.
unfoldable pub cut_point : Bytes → ℕ → ℕ
unfolding scan_cut
cut_point bytes max =
    let scan_start = max - (marker_len - 1) in
    scan_cut (max - scan_start) scan_start (drop scan_start bytes) max

-- `usize` has 64 bits, so the conversion of `max` cannot fail.
unfoldable pub truncate_no_split_marker : Bytes → ℕ → Bytes × Bool
unfolding cut_point
truncate_no_split_marker bytes max =
    if leb (length bytes) max then (bytes, false) else (take (cut_point bytes max) bytes, true)
