-- ===== src/Samples/Storage.antt =====
-- A compression and an object storage for the concrete runs: no code of the repository, but values at
-- which what is assumed of gzip and of S3 can be seen to hold.
use mathlib.Core.List.{append_assoc}
use bepper.Base.{
  Bool-cases, &&-true, inl, joined, String, ◌≡◌, refl, sym, ap, ◌∙◌, inr, Bool, true, false, ◌&&◌,
  ◌||◌, ◌≢◌, Option, none, some, List, [], ◌∷◌, ◌++◌, length, ◌==◌, eq_iff, eq_refl, if◌then◌else◌,
}
use bepper.Base.Result.{Result, ok, err, ok_inj}
use bepper.Blobstore.{Bytes, Error}
use bepper.Blobstore.Compression.{Gzip, Inflates, decompress, deflated_from}
use bepper.S3.{Service, ServiceError, not_found, reading, Progress}
use bepper.Base.Text.{◌⧺◌}
use bepper.Disk
use bepper.Disk.Reliable.{NeverFails}
use bepper.S3.Laws.{ServiceLaws, object_found, head_found}
use bepper.S3.Bucket.{WaitsForBucket}

abbrev inflated : Bytes → Result Error Bytes
inflated [] = err "unexpected EOF"
inflated (magic ∷ bytes) = ok bytes

-- All is written at Close, behind a byte that marks the format.
abbrev pub plain_gzip : Gzip
plain_gzip = record {
  Writer = Bytes;
  Reader = Bytes;
  new_writer = [];
  write = λ p given. (ok (length p), ([], given ++ p));
  close = λ given. (none, (31 ∷ given) ∷ []);
  new_reader = inflated;
  read_all = λ bytes. ok bytes;
}

deflated_from-plain :
    (chunks : List Bytes) (given : Bytes)
    → deflated_from plain_gzip chunks given [] ≡ ok (31 ∷ (given ++ joined chunks))
unfolding deflated_from
deflated_from-plain [] given = refl
deflated_from-plain (p ∷ chunks) given =
    deflated_from-plain chunks (given ++ p)
    ∙ ap (λ b. ok (31 ∷ b)) (append_assoc given p (joined chunks))

pub plain-Inflates : Inflates plain_gzip
unfolding decompress
plain-Inflates chunks out deflates =
    ap (λ b. decompress plain_gzip (ok b)) (ok_inj (sym deflates ∙ deflated_from-plain chunks []))

-- A disk that permits everything.
abbrev pub plain : Disk.Environment
plain = record {
  gzip = plain_gzip;
  join = λ root name. root ⧺ "/" ⧺ name;
  denied = λ path. none;
  close_error = λ path. none;
}

pub plain-NeverFails : NeverFails plain_gzip
plain-NeverFails = (λ p gz. (length p, refl), λ gz. refl)

pub record Objects : Type 0 where
  pub buckets : String → Bool
  pub contents : String × String → Option Bytes

abbrev set : String × String → Option Bytes → Objects → Objects
set at content s = record s {
  contents = λ other. if other.0 == at.0 && other.1 == at.1 then content else s.contents other;
}

-- A storage that answers every request.
abbrev pub storage : Service
storage = record {
  State = Objects;
  Upload = (String × String) × Bytes;
  head_bucket = λ bucket s. if s.buckets bucket then ok tt else err (not_found "NotFound");
  create_bucket =
      λ bucket s. (ok tt, record s { buckets = λ other. other == bucket || s.buckets other });
  wait_bucket_exists = λ bucket s. (if s.buckets bucket then ok tt else err "timeout", s);
  start = λ bucket key s. reading ((bucket, key), []);
  read = λ block u s. (reading (u.0, u.1 ++ block), s);
  finish = λ u s. (ok tt, set u.0 (some u.1) s);
  fail = λ e u s. s;
  download_object = λ bucket key s. object_found (s.contents (bucket, key)) "NoSuchKey";
  delete_object = λ bucket key s. (ok tt, set (bucket, key) none s);
  wait_object_not_exists = λ bucket key s. (ok tt, s);
  head_object = λ bucket key s. head_found (s.contents (bucket, key)) "NoSuchKey";
}

pub set-same :
    (at : String × String) (content : Option Bytes) (s : Objects)
    → (set at content s).contents at ≡ content
set-same at content s = rw (eq_refl at.0, eq_refl at.1) refl

pub set-other :
    (at other : String × String) (content : Option Bytes) (s : Objects)
    → other ≢ at
    → (set at content s).contents other ≡ s.contents other
set-other at other content s ne = elim (Bool-cases (other.0 == at.0 && other.1 == at.1)) [
  | inr differs ↦ rw differs refl
  | inl equal ↦
      let (buckets, keys) = &&-true (other.0 == at.0) (other.1 == at.1) equal in
      absurd (
        ne (
          ap (λ b. (b, other.1)) ((eq_iff other.0 at.0).0 buckets)
          ∙ ap (λ k. (at.0, k)) ((eq_iff other.1 at.1).0 keys)))
]

pub reading_inj : {A : Type 0} {a b : A} → ◌≡◌ {A = Progress A} (reading a) (reading b) → a ≡ b
reading_inj same = cc

abbrev pub storage_laws : ServiceLaws storage
storage_laws = record {
  object = λ at s. s.contents at;
  target = λ u. u.0;
  received = λ u. u.1;
  started = λ bucket key s u e.
      (sym (ap (λ v. v.0) (reading_inj e)), sym (ap (λ v. v.1) (reading_inj e)));
  taken = λ block u next s e.
      (sym (ap (λ v. v.0) (reading_inj e)), sym (ap (λ v. v.1) (reading_inj e)));
  read_keeps = λ block u s at. refl;
  fail_keeps = λ e u s at. refl;
  finished = λ u s e. set-same u.0 (some u.1) s;
  finish_is_atomic = λ u s. inr (set-same u.0 (some u.1) s);
  finish_keeps = λ u s at ne. set-other u.0 at (some u.1) s ne;
  Answers = λ s. Unit {0};
  absent = λ key. "NoSuchKey";
  downloads = λ bucket key s up. refl;
  heads = λ bucket key s up. refl;
}

head_answers :
    (there : Bool) (timeout : Error) (nf : ServiceError)
    → ◌≡◌ {A = Result Error (Unit {0})} (if there then ok tt else err timeout) (ok tt)
    → ◌≡◌ {A = Result ServiceError (Unit {0})} (if there then ok tt else err nf) (ok tt)
head_answers true timeout nf h = refl
head_answers false timeout nf h = cc

pub storage-WaitsForBucket : WaitsForBucket storage (λ name. name)
storage-WaitsForBucket bucket s h = head_answers (s.buckets bucket) _ _ h
