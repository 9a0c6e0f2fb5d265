-- ===== src/AccessLog/Examples.antt =====
-- The theorems on the access log at concrete inputs.
use wa_gateway.Base.{◌≡◌, refl, [], ◌∷◌, pos, true}
use wa_gateway.Base.Paging.{IsPage, newest_first, put_newest}
use wa_gateway.Api.{AccessLogEntry}
use wa_gateway.AccessLog.{
  AccessLogRow, AccessLogQuery, AccessLogStore, insert_rows, select_rows, is_wanted, query, flush,
}
use wa_gateway.AccessLog.Steps.{
  World, record_one, take_buffer, insert_goes, Reach, here, next, IsConserved, IsConserved-Reach,
}
use wa_gateway.AccessLog.Refine.{
  record_at, flush_now, query_for, run, run_log, log_of, run_refines, query-IsPage,
}

abbrev hit : AccessLogEntry
hit = record {
  key_id = "k1";
  key_name = "shop";
  method = "GET";
  path = "/sessions";
  status_code = 200;
  latency_ms = 3;
  ip = "10.0.0.9";
}

abbrev one_waiting : AccessLogStore
one_waiting = record {
  rows = record { id = 1; entry = hit; created_at = 90 } ∷ [];
  next_id = 2;
  buf = record { id = 0; entry = hit; created_at = 95 } ∷ [];
}

abbrev latest : AccessLogQuery
latest = record { key_id = "k1"; since = pos 0; limit = pos 1; offset = pos 0 }

run_refines_example :
    run (record_at 99 hit ∷ query_for true latest ∷ flush_now ∷ []) one_waiting
    ≡ run_log (record_at 99 hit ∷ query_for true latest ∷ flush_now ∷ []) (log_of one_waiting)
run_refines_example =
    run_refines (record_at 99 hit ∷ query_for true latest ∷ flush_now ∷ []) one_waiting

abbrev newest_hit : AccessLogRow
newest_hit = record { id = 2; entry = hit; created_at = 95 }

query-IsPage_example :
    IsPage (λ r. r.created_at) (is_wanted latest) 1 0 (log_of one_waiting).rows (newest_hit ∷ [])
unfolding query flush insert_rows select_rows newest_first put_newest
query-IsPage_example = query-IsPage latest one_waiting (newest_hit ∷ []) refl

abbrev empty_world : World
empty_world = record {
  store = record { rows = []; next_id = 1; buf = [] };
  flights = [];
  recorded = [];
  gone = [];
}

abbrev waiting_hit : AccessLogRow
waiting_hit = record { id = 0; entry = hit; created_at = 95 }

-- an entry is recorded while the flush of another is still inserting, and is inserted first
abbrev overlapping : World
overlapping = record {
  store = record {
    rows =
        record { id = 1; entry = hit; created_at = 99 }
        ∷ record { id = 2; entry = hit; created_at = 95 }
        ∷ [];
    next_id = 3;
    buf = [];
  };
  flights = [] ∷ [] ∷ [];
  recorded = waiting_hit ∷ record { id = 0; entry = hit; created_at = 99 } ∷ [];
  gone = [];
}

abbrev later_hit : AccessLogRow
later_hit = record { id = 0; entry = hit; created_at = 99 }

overlapped : Reach empty_world overlapping
overlapped =
    let one = next here (record_one empty_world waiting_hit) in
    let two = next one (take_buffer _) in
    let three = next two (record_one _ later_hit) in
    let four = next three (take_buffer _) in
    let five = next four (insert_goes _ [] ((waiting_hit ∷ []) ∷ []) later_hit [] refl) in
    next five (insert_goes _ ([] ∷ []) [] waiting_hit [] refl)

IsConserved-Reach_example : IsConserved overlapping
IsConserved-Reach_example = IsConserved-Reach overlapped (λ p. refl)
