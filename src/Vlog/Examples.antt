-- ===== src/Vlog/Examples.antt =====
-- vlog/vlog.go: a log of one segment.
use seol.Base.{true, false, ◌≡◌, refl, arith, some, List, [], ◌∷◌, ◌++◌, length, take}
use seol.Base.Result.{ok, map_result}
use seol.Base.Files.{lookup}
use seol.Record.{Fits, encode, encode_all}
use seol.Vlog.{Segment, Log, Outcome, file_of, has_file}
use seol.Vlog.Ref.{ValueRef}
use seol.Vlog.Read.{Record, read_value, read_record}
use seol.Vlog.Scan.{scan_segment}
use seol.Vlog.Extends.{IsOpen}
use seol.Vlog.Values.{read_value-read_record}
use seol.Vlog.Recovery.{scan_segment_torn}
use seol.Vlog.Appends.{Call, append_all, AllRead, AllFit, append_all-reads}

abbrev segment_five : Segment
segment_five = record { id = 5; is_open = true; size = 0 }

abbrev empty_log : Log
empty_log = record {
  segment_max_bytes = 20;
  active = some segment_five;
  files = (5, true) ∷ [];
  is_closed = false;
  disk = (5, []) ∷ [];
}

empty_log-IsOpen : IsOpen empty_log segment_five
unfolding has_file file_of lookup
empty_log-IsOpen = record {
  open_log = refl;
  is_active = refl;
  open_segment = refl;
  handle = refl;
  size = refl;
  small = omega arith;
  id_fits = omega arith;
}

abbrev all_well : Outcome
all_well = record { now = 9; syncs = true; creates = true; written = 100; writes = true }

-- The third call rotates the segment.
abbrev three_calls : List Call
three_calls =
    record { outcome = all_well; key = 1 ∷ []; value = 7 ∷ 8 ∷ [] }
    ∷ record { outcome = record all_well { writes = false; written = 3 }; key = 2 ∷ []; value = [] }
    ∷ record { outcome = all_well; key = 2 ∷ []; value = [] }
    ∷ []

small-Fits : Fits (2 ∷ []) []
small-Fits = record {
  key_bytes = (omega arith, tt);
  value_bytes = tt;
  key_length = omega arith;
  value_length = omega arith;
}

larger-Fits : Fits (1 ∷ []) (7 ∷ 8 ∷ [])
larger-Fits = record {
  key_bytes = (omega arith, tt);
  value_bytes = (omega arith, (omega arith, tt));
  key_length = omega arith;
  value_length = omega arith;
}

three_calls-AllFit : AllFit three_calls
three_calls-AllFit = (larger-Fits, (small-Fits, (small-Fits, tt)))

append_all-reads_example :
    AllRead (append_all empty_log three_calls).1 three_calls (append_all empty_log three_calls).0
    × ((ref : ValueRef) (r : Record)
        → read_record empty_log ref ≡ ok r
        → read_record (append_all empty_log three_calls).1 ref ≡ ok r)
append_all-reads_example =
    append_all-reads empty_log segment_five three_calls empty_log-IsOpen three_calls-AllFit
      (unfold encode in omega arith)

abbrev some_ref : ValueRef
some_ref = record { segment_id = 5; offset = 0; value_len = 2; checksum = 0 }

read_value-read_record_example :
    read_value empty_log some_ref ≡ map_result (λ r. r.value) (read_record empty_log some_ref)
unfolding file_of lookup
read_value-read_record_example = read_value-read_record empty_log some_ref (omega arith)

scan_segment_torn_example :
    scan_segment (encode_all ((1 ∷ [], 7 ∷ 8 ∷ []) ∷ []) ++ take 12 (encode (2 ∷ []) []))
    ≡ ok (length (encode_all ((1 ∷ [], 7 ∷ 8 ∷ []) ∷ [])), true)
scan_segment_torn_example =
    scan_segment_torn ((1 ∷ [], 7 ∷ 8 ∷ []) ∷ []) (2 ∷ []) [] 12 (larger-Fits, tt) small-Fits
      (omega arith) (unfold encode in omega arith) (unfold encode in omega arith)
