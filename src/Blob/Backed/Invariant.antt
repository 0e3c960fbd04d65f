-- ===== src/Blob/Backed/Invariant.antt =====
-- The invariant of the tables and the bucket of internal/blob/service.go.
use lutra.Prelude.{
  ℕ, ◌<◌, ◌≢◌, true, false, List, [], ◌∷◌, some, ◌==◌, is_some, ◌≡◌, sym, ap, subst, ◌∙◌, arith,
  Bool-cases, inl, inr, if_ind,
}
use lutra.Prelude.Bytes.{Bytes, equal_self}
use lutra.Prelude.Map.{Map, lookup, insert, delete, lookup-insert, lookup-delete}
use lutra.Log.Types.{BlobRow}
use lutra.Log.Tables.{get_blob_by_sha256}
use lutra.Blob.Types.{Upload, Object, World}
use lutra.Blob.Create.{find_upload}
use lutra.Blob.Complete.{delete_upload}

abbrev pub AllUploads : (Upload → Type 0) → List Upload → Type 0
AllUploads P [] = Unit
AllUploads P (u ∷ us) = P u × AllUploads P us

abbrev pub AllBlobs : (BlobRow → Type 0) → List BlobRow → Type 0
AllBlobs P [] = Unit
AllBlobs P (b ∷ bs) = P b × AllBlobs P bs

-- The object is in the bucket.
abbrev pub Has : Map Object → BlobRow → Type 0
Has objects b = is_some (lookup b.object objects) ≡ true

-- The object's number is below `fresh` and is no blob's.
abbrev pub Staged : ℕ → List BlobRow → Upload → Type 0
Staged fresh blobs u = (u.object < fresh) × AllBlobs (λ b. b.object ≢ u.object) blobs

-- No two sessions share an object.
abbrev pub Unique : List Upload → Type 0
Unique [] = Unit
Unique (u ∷ us) = AllUploads (λ v. v.object ≢ u.object) us × Unique us

-- The digest has a row.
abbrev pub Known : Bytes → List BlobRow → Type 0
Known digest bs = is_some (get_blob_by_sha256 digest bs) ≡ true

-- And what was recorded in `base` still is.
pub record Backed (base : List BlobRow) (w : World) : Type 0 where
  pub kept : (digest : Bytes) → Known digest base → Known digest w.blobs
  pub has : AllBlobs (Has w.objects) w.blobs
  pub old : AllBlobs (λ b. b.object < w.fresh) w.blobs
  pub staged : AllUploads (Staged w.fresh w.blobs) w.uploads
  pub unique : Unique w.uploads

pub AllBlobs-map :
    {P Q : BlobRow → Type 0} (bs : List BlobRow)
    → ((b : BlobRow) → P b → Q b)
    → AllBlobs P bs
    → AllBlobs Q bs
AllBlobs-map [] f h = tt
AllBlobs-map (b ∷ bs) f (h, r) = (f b h, AllBlobs-map bs f r)

pub AllUploads-map :
    {P Q : Upload → Type 0} (us : List Upload)
    → ((u : Upload) → P u → Q u)
    → AllUploads P us
    → AllUploads Q us
AllUploads-map [] f h = tt
AllUploads-map (u ∷ us) f (h, r) = (f u h, AllUploads-map us f r)

pub AllUploads-delete :
    (P : Upload → Type 0) (id : ℕ) (us : List Upload)
    → AllUploads P us
    → AllUploads P (delete_upload id us)
unfolding delete_upload
AllUploads-delete P id [] h = tt
AllUploads-delete P id (u ∷ us) (h, r) =
    if_ind (AllUploads P) (u.session_id == id) (λ _. AllUploads-delete P id us r)
      (λ _. (h, AllUploads-delete P id us r))

find_head :
    (id : ℕ) (v : Upload) (us : List Upload) (u : Upload)
    → (v.session_id == id) ≡ true
    → find_upload id (v ∷ us) ≡ some u
    → v ≡ u
unfolding find_upload
find_head id v us u same e = ground arith

find_tail :
    (id : ℕ) (v : Upload) (us : List Upload) (u : Upload)
    → (v.session_id == id) ≡ false
    → find_upload id (v ∷ us) ≡ some u
    → find_upload id us ≡ some u
unfolding find_upload
find_tail id v us u other e = ground arith

pub AllUploads-find :
    (P : Upload → Type 0) (id : ℕ) (us : List Upload) (u : Upload)
    → find_upload id us ≡ some u
    → AllUploads P us
    → P u
unfolding find_upload
AllUploads-find P id [] u e h = absurd (ground arith)
AllUploads-find P id (v ∷ us) u e (h, r) = elim (Bool-cases (v.session_id == id)) [
  | inl same ↦ subst P (find_head id v us u same e) h
  | inr other ↦ AllUploads-find P id us u (find_tail id v us u other e) r
]

pub Unique-delete : (id : ℕ) (us : List Upload) → Unique us → Unique (delete_upload id us)
unfolding delete_upload
Unique-delete id [] h = tt
Unique-delete id (u ∷ us) (h, r) =
    if_ind Unique (u.session_id == id) (λ _. Unique-delete id us r)
      (λ _. (AllUploads-delete (λ v. v.object ≢ u.object) id us h, Unique-delete id us r))

-- The sessions that stay have other objects than one that goes.
pub Unique-find :
    (id : ℕ) (us : List Upload) (u : Upload)
    → find_upload id us ≡ some u
    → Unique us
    → AllUploads (λ v. v.object ≢ u.object) (delete_upload id us)
unfolding find_upload delete_upload
Unique-find id [] u e h = tt
Unique-find id (v ∷ us) u e (h, r) =
    if_ind (AllUploads (λ w. w.object ≢ u.object)) (v.session_id == id)
      (λ same.
        subst (λ (x : Upload). AllUploads (λ w. w.object ≢ x.object) (delete_upload id us))
          (find_head id v us u same e) (AllUploads-delete (λ w. w.object ≢ v.object) id us h))
      (λ other.
        let e' = find_tail id v us u other e in
        let apart = AllUploads-find (λ w. w.object ≢ v.object) id us u e' h in
        ((λ q. apart (sym q)), Unique-find id us u e' r))

-- Deleting an object that is no blob's.
pub Has-delete :
    (object : ℕ) (objects : Map Object) (bs : List BlobRow)
    → AllBlobs (λ b. b.object ≢ object) bs
    → AllBlobs (Has objects) bs
    → AllBlobs (Has (delete object objects)) bs
Has-delete object objects [] a h = tt
Has-delete object objects (b ∷ bs) (a, q) (h, r) =
    (ground (arith, lookup-delete object b.object objects), Has-delete object objects bs q r)

pub Has-insert :
    (object : ℕ) (made : Object) (objects : Map Object) (b : BlobRow)
    → Has objects b
    → Has (insert object made objects) b
Has-insert object made objects b h = ground (arith, lookup-insert object b.object made objects)

pub find_upload-session_id :
    (id : ℕ) (us : List Upload) (u : Upload) → find_upload id us ≡ some u → u.session_id ≡ id
unfolding find_upload
find_upload-session_id id [] u e = absurd (ground arith)
find_upload-session_id id (v ∷ us) u e = elim (Bool-cases (v.session_id == id)) [
  | inl same ↦ ap (λ (z : Upload). z.session_id) (sym (find_head id v us u same e)) ∙ ground arith
  | inr other ↦ find_upload-session_id id us u (find_tail id v us u other e)
]

pub AllUploads-zip :
    {P Q R : Upload → Type 0} (us : List Upload)
    → ((u : Upload) → P u → Q u → R u)
    → AllUploads P us
    → AllUploads Q us
    → AllUploads R us
AllUploads-zip [] f h k = tt
AllUploads-zip (u ∷ us) f (h, r) (k, q) = (f u h k, AllUploads-zip us f r q)

-- One more row.
pub Known-add :
    (digest : Bytes) (b : BlobRow) (bs : List BlobRow) → Known digest bs → Known digest (b ∷ bs)
unfolding get_blob_by_sha256
Known-add digest b bs h = ground arith

pub Known-self :
    (digest : Bytes) (object : ℕ) (bs : List BlobRow)
    → Known digest (record { digest = digest; object = object } ∷ bs)
unfolding get_blob_by_sha256
Known-self digest object bs = ground (arith, equal_self digest)
