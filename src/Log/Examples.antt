-- ===== src/Log/Examples.antt =====
-- Batches appended to small tables.
use lutra.Prelude.{inr, true, false, List, [], ◌∷◌, Option, none, some, ◌≡◌, refl, arith}
use lutra.Prelude.Bytes.{Bytes, equal, has_prefix}
use lutra.Prelude.Results.{Result, Error, ok, err}
use lutra.Log.Types.{Service, Entry, Tables, Outside, Call}
use lutra.Log.Append.{Range, append_tx}
use lutra.Log.Tables.{seqs, lock_log_stream, get_log_append, get_blob_by_sha256}
use lutra.Log.Check.{CheckpointScope, checkpoint, check_batch, batch_digest}
use lutra.Log.Service.{append}
use lutra.Log.Scope.{Confined, append-Confined}
use lutra.Log.Sequence.Rows.{countdown}
use lutra.Log.Sequence.Streams.{next_of}
use lutra.Log.Sequence.Batch.{Numbered}
use lutra.Log.Sequence.Numbered.{append_tx-Numbered}
use lutra.Log.Total.Append.{append_tx-Succeeds}
use lutra.Log.Retry.Repeat.{here, answer, append_tx-answer}

abbrev no_fault : Call → Option Error
no_fault c = none

-- The text stands for its own digest.
abbrev outside : Outside
outside = record {
  sha256 = λ b. b;
  base64 = λ b. b;
  malformed = λ b. false;
  parse_uuid = λ b. none;
  run_exists = λ r. false;
  fault = no_fault;
}

abbrev service : Service
service = record {
  has_db = true;
  has_store = true;
  inline_limit = 2;
  max_record = 0;
  max_batch = 0;
}

abbrev empty : Tables
empty = record {
  streams = [];
  appends = [];
  records = [];
  blobs = [];
  objects = [];
  fresh = 1;
  notified = [];
}

-- "logs"
abbrev logs : Bytes
logs = 108 ∷ 111 ∷ 103 ∷ 115 ∷ []

-- The second value is above the inline limit.
abbrev batch : List Entry
batch =
    record { key = 1 ∷ []; value = 246 ∷ [] } ∷ record { key = []; value = 130 ∷ 1 ∷ 2 ∷ [] } ∷ []

abbrev id : Bytes
id = 7 ∷ []

abbrev appended : Result (Tables × Range)
appended = append_tx outside service 5 logs id batch empty

abbrev tables_of : Result (Tables × Range) → Tables
tables_of (ok (db, range)) = db
tables_of (err x) = empty

abbrev range_of : Result (Tables × Range) → Range
range_of (ok (db, range)) = range
range_of (err x) = record { first_seq = 0; last_seq = 0 }

appended-ok : appended ≡ ok (tables_of appended, range_of appended)
unfolding append_tx equal seqs get_blob_by_sha256
appended-ok = refl

appended_range : range_of appended ≡ record { first_seq = 1; last_seq = 2 }
unfolding append_tx equal seqs get_blob_by_sha256
appended_range = refl

appended-seqs : seqs 5 logs (tables_of appended).records ≡ 2 ∷ 1 ∷ []
unfolding append_tx seqs equal get_blob_by_sha256
appended-seqs = refl

empty-Numbered : Numbered empty
unfolding next_of seqs countdown lock_log_stream
empty-Numbered run stream = (0, omega arith, refl, refl)

empty_next : next_of 5 logs empty.streams ≡ 1
unfolding next_of lock_log_stream
empty_next = refl

empty_seqs : seqs 5 logs empty.records ≡ countdown 0
unfolding seqs countdown
empty_seqs = refl

append_tx-Numbered_example : Numbered (tables_of appended)
append_tx-Numbered_example =
    append_tx-Numbered outside service 5 logs id batch empty (omega arith) empty-Numbered
      appended-ok

-- Other entries under the same identifier.
abbrev other_batch : List Entry
other_batch = record { key = []; value = 246 ∷ [] } ∷ []

append_tx-answer_example :
    append_tx outside service 5 logs id other_batch (tables_of appended)
    ≡ answer outside other_batch
        (batch_digest outside batch)
        (range_of appended)
        (tables_of appended)
unfolding check_batch
append_tx-answer_example =
    append_tx-answer outside service 5 logs id batch empty (tables_of appended) (tables_of appended)
      (range_of appended) refl appended-ok here outside service other_batch (λ c. refl) refl

-- A task of action 3 in run 5.
abbrev scope : CheckpointScope
scope = record { run = 5; prefix = 3 ∷ 47 ∷ [] }

abbrev known : Outside
known = record outside { parse_uuid = λ b. some 5; run_exists = λ r. true }

abbrev progress : List Entry
progress = record { key = 3 ∷ 47 ∷ 1 ∷ []; value = 246 ∷ [] } ∷ []

abbrev saved : Result (Tables × Range)
saved = append known service (some scope) [] checkpoint [] progress empty

append-Confined_example : Confined known scope [] checkpoint progress empty (tables_of saved)
unfolding append append_tx check_batch equal has_prefix seqs get_blob_by_sha256
append-Confined_example =
    append-Confined known service scope [] checkpoint [] progress empty {db' = tables_of saved}
      {range = range_of saved} refl

append_tx-Succeeds_example :
    (db : Tables) × (range : Range) × (append_tx outside service 5 logs id batch empty
      ≡ ok (db, range))
    × (range.first_seq ≡ 1)
    × (range.last_seq ≡ 2)
    × (seqs 5 logs db.records ≡ countdown 2)
unfolding check_batch get_log_append
append_tx-Succeeds_example =
    append_tx-Succeeds outside service 5 logs id batch empty
      (0, omega arith, empty_next, empty_seqs) (λ c. refl) refl (omega arith) (inr refl)
