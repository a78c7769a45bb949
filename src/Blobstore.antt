-- ===== src/Blobstore.antt =====
-- src/blobstore/blobstore.go: the interface `Blobstore`, and what its users rely on.
pub mod Compression
pub mod Memory
use bepper.Base.{ℕ, String, ◌≡◌, ◌≢◌, Bool, true, Option, List, [], ◌++◌}
use bepper.Base.Result.{Result, ok, err}

-- The text of a Go error, and `[]byte`.
abbrev pub Error : Type 0
Error = String

abbrev pub Bytes : Type 0
Bytes = List ℕ

-- The methods act on the state of the store and may fail in any state. `Handle` is the type of the
-- writers that `Writer` returns, with their methods `Write` and `Close`.
pub record Blobstore : Type 1 where
  pub State : Type 0
  pub Handle : Type 0
  pub blob_exists : String → State → Result Error Bool × State
  pub read_blob : String → State → Result Error Bytes × State
  pub write_blob : String → Bytes → State → Result Error ℕ × State
  pub delete_blob : String → State → Result Error (Unit {0}) × State
  pub writer : String → State → Result Error Handle × State
  pub write : Handle → Bytes → State → Result Error ℕ × State
  pub close : Handle → State → Result Error (Unit {0}) × State

-- The contract of the streaming writers: "The blob is only committed to the backing store once
-- Close is called". `Open s h name` says that `h` writes the blob `name`, and `Written s h bytes`
-- that so far every call of `h`'s `Write` succeeded and these bytes were handed over.
pub record WriterLaws (B : Blobstore) : Type 1 where
  pub Open : B.State → B.Handle → String → Type 0
  pub Written : B.State → B.Handle → Bytes → Type 0
  pub writer_opens :
      (name : String) (s : B.State) (h : B.Handle)
      → (B.writer name s).0 ≡ ok h
      → Open (B.writer name s).1 h name × Written (B.writer name s).1 h []
  pub write_appends :
      (h : B.Handle) (name : String) (bytes p : Bytes) (s : B.State) (n : ℕ)
      → (B.write h p s).0 ≡ ok n
      → Open s h name
      → Written s h bytes
      → Written (B.write h p s).1 h (bytes ++ p)
  pub write_keeps_open :
      (h : B.Handle) (name : String) (p : Bytes) (s : B.State)
      → Open s h name
      → Open (B.write h p s).1 h name
  pub close_commits :
      (h : B.Handle) (name : String) (bytes : Bytes) (s : B.State)
      → (B.close h s).0 ≡ ok tt
      → Open s h name
      → Written s h bytes
      → ((B.blob_exists name (B.close h s).1).0 ≡ ok true)
        × ((B.read_blob name (B.blob_exists name (B.close h s).1).1).0 ≡ ok bytes)
  -- What is done for one blob leaves the writers of the others alone.
  pub writer_keeps :
      (name other : String) (g : B.Handle) (s : B.State)
      → other ≢ name
      → Open s g other
      → Open (B.writer name s).1 g other
        × ((bytes : Bytes) → Written s g bytes → Written (B.writer name s).1 g bytes)
  pub write_keeps :
      (h : B.Handle) (name other : String) (p : Bytes) (g : B.Handle) (s : B.State)
      → other ≢ name
      → Open s h name
      → Open s g other
      → Open (B.write h p s).1 g other
        × ((bytes : Bytes) → Written s g bytes → Written (B.write h p s).1 g bytes)
  pub close_keeps :
      (h : B.Handle) (name other : String) (g : B.Handle) (s : B.State)
      → other ≢ name
      → Open s h name
      → Open s g other
      → Open (B.close h s).1 g other
        × ((bytes : Bytes) → Written s g bytes → Written (B.close h s).1 g bytes)

-- The writers of a blob never fail: one opens, and one that is usable can be written to and closed.
pub record Reliable (B : Blobstore) (name : String) : Type 1 where
  pub Usable : B.State → B.Handle → Type 0
  pub opens :
      (s : B.State) → (h : B.Handle) × ((B.writer name s).0 ≡ ok h) × Usable (B.writer name s).1 h
  pub writes :
      (s : B.State) (h : B.Handle) (p : Bytes)
      → Usable s h
      → (n : ℕ) × ((B.write h p s).0 ≡ ok n) × Usable (B.write h p s).1 h
  pub closes : (s : B.State) (h : B.Handle) → Usable s h → (B.close h s).0 ≡ ok tt
