-- ===== src/Log/Types.antt =====
-- The data of internal/runlog/service.go: limits, entries, the tables behind the queries.
use lutra.Prelude.{ℕ, ◌*◌, ◌^◌, Bool, String, List, Option, if◌then◌else◌, leb}
use lutra.Prelude.Map.{Map}
use lutra.Prelude.Bytes.{Bytes}
use lutra.Prelude.Results.{Error, new_error, invalid_argument, resource_exhausted}

abbrev default_inline_limit : ℕ
default_inline_limit = 64 * 2 ^ 10

abbrev default_max_record : ℕ
default_max_record = 64 * 2 ^ 20

abbrev default_max_batch : ℕ
default_max_batch = 128 * 2 ^ 20

abbrev pub max_key_size : ℕ
max_key_size = 1024

-- The fields of `Service` that `Append` and `Read` look at. A limit that is not positive is 0 here.
-- `has_db` is `s.DB != nil`, `has_store` is `s.Store != nil && s.Bucket != ""`.
pub record Service : Type 0 where
  pub has_db : Bool
  pub has_store : Bool
  pub inline_limit : ℕ
  pub max_record : ℕ
  pub max_batch : ℕ

abbrev or_default : ℕ → ℕ → ℕ
or_default n default = if leb n 0 then default else n

pub record Limits : Type 0 where
  pub inline : ℕ
  pub record_size : ℕ
  pub batch : ℕ

abbrev pub limits : Service → Limits
limits s = record {
  inline = or_default s.inline_limit default_inline_limit;
  record_size = or_default s.max_record default_max_record;
  batch = or_default s.max_batch default_max_batch;
}

abbrev pub invalid : String → Error
invalid message = new_error invalid_argument message

abbrev pub exhausted : String → Error
exhausted message = new_error resource_exhausted message

pub record Entry : Type 0 where
  pub key : Bytes
  pub value : Bytes

-- The rows. A sequence number is an int64 (Prelude/Int64).
pub record StreamRow : Type 0 where
  pub run : ℕ
  pub stream : Bytes
  pub next_seq : ℕ

pub record AppendRow : Type 0 where
  pub run : ℕ
  pub stream : Bytes
  pub append_id : Bytes
  pub digest : Bytes
  pub first_seq : ℕ
  pub last_seq : ℕ

pub record LogRow : Type 0 where
  pub run : ℕ
  pub stream : Bytes
  pub seq : ℕ
  pub key : Bytes
  pub value : Option Bytes
  pub uri : Option Bytes
  pub payload_size : ℕ

pub record BlobRow : Type 0 where
  pub digest : Bytes
  pub object : ℕ

-- The tables in the order of insertion, newest row first, with the bucket's objects, and the
-- notifications that wait for the commit. `fresh` is the next result of `uuid.New`.
pub record Tables : Type 0 where
  pub streams : List StreamRow
  pub appends : List AppendRow
  pub records : List LogRow
  pub blobs : List BlobRow
  pub objects : Map Bytes
  pub fresh : ℕ
  pub notified : List (ℕ × Bytes)

-- The calls that can fail for a reason outside the model. `insert_record i` stands in
-- the loop's i-th round, as the calls of `storeValue` do.
pub data Call : Type 0 where
  lock_stream create_stream relock_stream get_append update_next_seq insert_append notify : Call
  select_run begin_tx commit_tx : Call
  insert_record get_blob put_object insert_blob : ℕ → Call

-- What the code takes from elsewhere: `sha256.Sum256`, `base64`, whether `cbor.Wellformed` gives an
-- error, `uuid.Parse`, the table of runs, and which calls of the database and of the store fail.
pub record Outside : Type 0 where
  pub sha256 : Bytes → Bytes
  pub base64 : Bytes → Bytes
  pub malformed : Bytes → Bool
  pub parse_uuid : Bytes → Option ℕ
  pub run_exists : ℕ → Bool
  pub fault : Call → Option Error
