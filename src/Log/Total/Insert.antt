-- ===== src/Log/Total/Insert.antt =====
-- The loop that inserts the records meets no record with the same number.
use lutra.Prelude.{
  ℕ, zero, suc, ◌+◌, ◌^◌, ◌<◌, Bool, false, ◌&&◌, List, [], ◌∷◌, Option, none, some, if◌then◌else◌,
  ◌≡◌, refl, sym, ap, subst, ◌∙◌, arith, length, ltb, if_ind,
}
use lutra.Prelude.Bytes.{Bytes}
use lutra.Prelude.Int64.{add64}
use lutra.Prelude.Results.{Result, ok, ◌>>◌, Succeeds, bind-Succeeds}
use lutra.Log.Types.{
  Service, limits, Entry, LogRow, BlobRow, Tables, Outside, Call, insert_record, put_object,
  insert_blob, get_blob,
}
use lutra.Log.Tables.{seqs, get_blob_by_sha256}
use lutra.Log.Append.{
  attempt, add_blob, store_value, has_seq, insert_log_record, row_of, insert_entry, insert_entries,
}
use lutra.Log.Sequence.Rows.{countdown, at_self, add64-countdown}
use lutra.Log.Sequence.Insert.{Added, insert_entry-Added, Added-seqs, row_of-SameLogs}

-- No call fails.
abbrev pub Quiet : Outside → Type 0
Quiet x = (c : Call) → x.fault c ≡ none

pub attempt-Quiet : (x : Outside) (c : Call) → Quiet x → attempt x c ≡ ok tt
attempt-Quiet x c quiet = ground (arith, quiet c)

has_seq-countdown : (m k : ℕ) → m < k → has_seq k (countdown m) ≡ false
unfolding has_seq countdown
has_seq-countdown zero k h = refl
has_seq-countdown (suc m) k h = ground (arith, has_seq-countdown m k (omega (arith, h)))

-- A call before a step that succeeds.
pub attempt-Succeeds {ℓ} :
    {X : Type ℓ} (x : Outside) (c : Call) (next : Result X)
    → Quiet x
    → Succeeds next
    → Succeeds (attempt x c >> next)
attempt-Succeeds x c next quiet rest =
    subst (λ (r : Result (Unit {0})). Succeeds (r >> next)) (sym (attempt-Quiet x c quiet)) rest

add_blob-Succeeds :
    (x : Outside) (i : ℕ) (value digest : Bytes) (db : Tables)
    → Quiet x
    → Succeeds (add_blob x i value digest db)
unfolding add_blob
add_blob-Succeeds x i value digest db quiet =
    attempt-Succeeds x (put_object i) _ quiet (attempt-Succeeds x (insert_blob i) _ quiet (_, refl))

store_value-Succeeds :
    (x : Outside) (i : ℕ) (value : Bytes) (db : Tables)
    → Quiet x
    → Succeeds (store_value x i value db)
unfolding store_value
store_value-Succeeds x i value db quiet =
    attempt-Succeeds x (get_blob i) _ quiet (
      bind-Succeeds _ _ (known (get_blob_by_sha256 (x.sha256 value) db.blobs)) (λ db' e. (_, refl)))
  where
    known :
        (found : Option BlobRow)
        → Succeeds (elim found [ some row ↦ ok db | none ↦ add_blob x i value (x.sha256 value) db ])
    known none = add_blob-Succeeds x i value (x.sha256 value) db quiet
    known (some row) = (db, refl)

row_of-Succeeds :
    (x : Outside) (s : Service) (run : ℕ) (stream : Bytes) (first i : ℕ) (entry : Entry)
    (db : Tables)
    → Quiet x
    → Succeeds (row_of x s run stream first i entry db)
unfolding row_of
row_of-Succeeds x s run stream first i entry db quiet =
    if_ind (λ (r : Result (LogRow × Tables)). Succeeds r)
      (ltb (limits s).inline (length entry.value) && s.has_store)
      (λ large.
        bind-Succeeds _ _ (store_value-Succeeds x i entry.value db quiet) (λ stored e. (_, refl)))
      (λ small. (_, refl))

insert_log_record-Succeeds :
    (row : LogRow) (db : Tables)
    → has_seq row.seq (seqs row.run row.stream db.records) ≡ false
    → Succeeds (insert_log_record row db)
unfolding insert_log_record
insert_log_record-Succeeds row db h = (record db { records = row ∷ db.records }, rw h)

-- With the records numbered up to the entry's number.
insert_entry-Succeeds :
    (x : Outside) (s : Service) (run : ℕ) (stream : Bytes) (base i : ℕ) (entry : Entry)
    (db : Tables)
    → Quiet x
    → base + i + 1 < 2 ^ 63
    → seqs run stream db.records ≡ countdown (base + i)
    → Succeeds (insert_entry x s run stream (base + 1) i entry db)
unfolding insert_entry
insert_entry-Succeeds x s run stream base i entry db quiet bound numbered =
    bind-Succeeds _ _ (row_of-Succeeds x s run stream (base + 1) i entry db quiet)
      (λ (row, mid) made.
        let ((_, _, e), a, b, c) = row_of-SameLogs x s run stream (base + 1) i entry db made in
        attempt-Succeeds x (insert_record i) _ quiet
          (insert_log_record-Succeeds row mid (unused row mid e a b c)))
  where
    unused :
        (row : LogRow) (mid : Tables)
        → mid.records ≡ db.records
        → row.run ≡ run
        → row.stream ≡ stream
        → row.seq ≡ add64 (base + 1) i
        → has_seq row.seq (seqs row.run row.stream mid.records) ≡ false
    unused row mid e a b c =
        ap (λ (k : ℕ). has_seq k (seqs row.run row.stream mid.records)) c
        ∙ ap (λ (r : ℕ). has_seq (add64 (base + 1) i) (seqs r row.stream mid.records)) a
        ∙ ap (λ (t : Bytes). has_seq (add64 (base + 1) i) (seqs run t mid.records)) b
        ∙ ap (λ (l : List LogRow). has_seq (add64 (base + 1) i) (seqs run stream l)) e
        ∙ ap (has_seq (add64 (base + 1) i)) numbered
        ∙ has_seq-countdown (base + i) (add64 (base + 1) i) (omega (arith, bound))

pub insert_entries-Succeeds :
    (x : Outside) (s : Service) (run : ℕ) (stream : Bytes) (base i : ℕ) (entries : List Entry)
    (db : Tables)
    → Quiet x
    → base + i + length entries < 2 ^ 63
    → seqs run stream db.records ≡ countdown (base + i)
    → Succeeds (insert_entries x s run stream (base + 1) i entries db)
unfolding insert_entries
insert_entries-Succeeds x s run stream base i [] db quiet bound numbered = (db, refl)
insert_entries-Succeeds x s run stream base i (entry ∷ entries) db quiet bound numbered =
    bind-Succeeds _ _
      (insert_entry-Succeeds x s run stream base i entry db quiet (omega arith) numbered)
      (λ mid made.
        insert_entries-Succeeds x s run stream base (i + 1) entries mid quiet (omega arith)
          (grown mid (insert_entry-Added x s run stream (base + 1) i entry db made)))
  where
    grown :
        (mid : Tables)
        → Added run stream (add64 (base + 1) i) db mid
        → seqs run stream mid.records ≡ countdown (base + (i + 1))
    grown mid added =
        Added-seqs run stream (add64 (base + 1) i) db mid added run stream
        ∙ ap
            (λ (b : Bool).
              if b
              then add64 (base + 1) i ∷ seqs run stream db.records
              else seqs run stream db.records)
            (at_self run stream)
        ∙ ap (λ (l : List ℕ). add64 (base + 1) i ∷ l) numbered
        ∙ add64-countdown base i (omega arith)
