-- ===== src/Stored/Examples.antt =====
-- value_ref.go: a value that goes to the log, and a short one that looks like a reference.
use seol.Base.{◌^◌, true, false, ◌≡◌, refl, arith, Option, some, [], ◌∷◌, if◌then◌else◌}
use seol.Base.Result.{ok}
use seol.Base.Files.{lookup}
use seol.Record.{Fits, encode}
use seol.Base.Order.{bytes_equal}
use seol.Base.Crc.{checksum}
use seol.Vlog.{Segment, Log, Outcome, file_of, has_file, append, append_to, write_record}
use seol.Vlog.Ref.{ValueRef, InRange}
use seol.Vlog.Extends.{IsOpen}
use seol.Stored.{
  encode_value_ref, decode_value_ref, is_tombstone_value, append_value, wrap_append,
  store_value_for_lsm, resolve_stored_value, value, deleted,
}
use seol.Stored.RoundTrip.{decode_value_ref-encode_value_ref, resolve-store}

abbrev first_segment : Segment
first_segment = record { id = 5; is_open = true; size = 0 }

abbrev open_empty : Log
open_empty = record {
  segment_max_bytes = 20;
  active = some first_segment;
  files = (5, true) ∷ [];
  is_closed = false;
  disk = (5, []) ∷ [];
}

open_empty-IsOpen : IsOpen open_empty first_segment
unfolding has_file file_of lookup
open_empty-IsOpen = record {
  open_log = refl;
  is_active = refl;
  open_segment = refl;
  handle = refl;
  size = refl;
  small = omega arith;
  id_fits = omega arith;
}

abbrev good_day : Outcome
good_day = record { now = 9; syncs = true; creates = true; written = 100; writes = true }

two_bytes-Fits : Fits (1 ∷ []) (7 ∷ 8 ∷ [])
two_bytes-Fits = record {
  key_bytes = (omega arith, tt);
  value_bytes = (omega arith, (omega arith, tt));
  key_length = omega arith;
  value_length = omega arith;
}

abbrev far_ref : ValueRef
far_ref = record { segment_id = 5; offset = 2 ^ 32; value_len = 2; checksum = 77 }

far_ref-InRange : InRange far_ref
far_ref-InRange = record {
  segment_fits = omega arith;
  offset_fits = omega arith;
  value_len_fits = omega arith;
  checksum_fits = omega arith;
}

decode_value_ref-encode_value_ref_example :
    decode_value_ref (encode_value_ref far_ref) ≡ some far_ref
decode_value_ref-encode_value_ref_example =
    decode_value_ref-encode_value_ref far_ref far_ref-InRange

-- What the value is stored as, and the log after it.
abbrev near_ref : ValueRef
near_ref = record { segment_id = 5; offset = 0; value_len = 2; checksum = checksum (7 ∷ 8 ∷ []) }

abbrev log_after : Option Log
log_after = (store_value_for_lsm (some open_empty) good_day 1 (1 ∷ []) (7 ∷ 8 ∷ [])).1

put_answer :
    store_value_for_lsm (some open_empty) good_day 1 (1 ∷ []) (7 ∷ 8 ∷ [])
    ≡ (ok (encode_value_ref near_ref), log_after)
unfolding store_value_for_lsm append_value wrap_append is_tombstone_value bytes_equal append
    append_to write_record encode
put_answer = refl

resolve-store_example :
    resolve_stored_value log_after (encode_value_ref near_ref)
    ≡ ok (if is_tombstone_value (7 ∷ 8 ∷ []) then deleted else value (7 ∷ 8 ∷ []))
resolve-store_example =
    resolve-store open_empty good_day first_segment 1 (1 ∷ []) (7 ∷ 8 ∷ [])
      (encode_value_ref near_ref) log_after open_empty-IsOpen two_bytes-Fits
      (unfold encode in omega arith) (λ h. absurd (omega arith)) put_answer
