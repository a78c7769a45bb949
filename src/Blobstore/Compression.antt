-- ===== src/Blobstore/Compression.antt =====
-- src/blobstore/blobstore.go: Compress and Decompress, over the package compress/gzip.
use bepper.Base.{joined, ℕ, ◌≡◌, refl, Option, none, some, List, [], ◌∷◌, ◌++◌}
use bepper.Base.Result.{Result, ok, err, ◌>>=◌}
use bepper.Blobstore.{Bytes, Error}

-- A gzip.Writer hands blocks of its output to the writer below it, at a Write and at Close; a
-- gzip.Reader is made of all the compressed bytes here, and read to the end.
pub record Gzip : Type 1 where
  pub Writer : Type 0
  pub Reader : Type 0
  pub new_writer : Writer
  pub write : Bytes → Writer → Result Error ℕ × (List Bytes × Writer)
  pub close : Writer → Option Error × List Bytes
  pub new_reader : Bytes → Result Error Reader
  pub read_all : Reader → Result Error Bytes

module _ (gzip : Gzip) where
  -- A Write to a gzip.Writer over a buffer, which takes all of its output.
  abbrev pub buffered :
      Result Error ℕ × (List Bytes × gzip.Writer) → Bytes → Result Error (Bytes × gzip.Writer)
  buffered (err e, out) buf = err e
  buffered (ok n, (out, w)) buf = ok (buf ++ joined out, w)

  abbrev pub flushed : Option Error × List Bytes → Bytes → Result Error Bytes
  flushed (some e, out) buf = err e
  flushed (none, out) buf = ok (buf ++ joined out)

  unfoldable pub compress : Bytes → Result Error Bytes
  compress bytes = do
    written ← buffered (gzip.write bytes gzip.new_writer) []
    flushed (gzip.close written.1) written.0

  -- What was read before, or the error of reading it, comes in.
  unfoldable pub decompress : Result Error Bytes → Result Error Bytes
  decompress read = do bytes ← read; gz ← gzip.new_reader bytes; gzip.read_all gz

  -- The output of a gzip.Writer that is given these chunks, from a buffer with some output on.
  unfoldable pub deflated_from : List Bytes → gzip.Writer → Bytes → Result Error Bytes
  deflated_from [] w buf = flushed (gzip.close w) buf
  deflated_from (p ∷ chunks) w buf =
      buffered (gzip.write p w) buf >>= λ written. deflated_from chunks written.1 written.0

  abbrev pub deflated : List Bytes → Result Error Bytes
  deflated chunks = deflated_from chunks gzip.new_writer []

  -- Decompression gives back what was compressed, however it was divided into writes.
  abbrev pub Inflates : Type 0
  Inflates =
      (chunks : List Bytes) (out : Bytes)
      → deflated chunks ≡ ok out
      → decompress (ok out) ≡ ok (joined chunks)

  pub compress-deflated : (bytes : Bytes) → compress bytes ≡ deflated (bytes ∷ [])
  unfolding compress deflated_from
  compress-deflated bytes = refl

  pub buffered-ok :
      (out : Result Error ℕ × (List Bytes × gzip.Writer)) (buf : Bytes) (n : ℕ)
      → out.0 ≡ ok n
      → buffered out buf ≡ ok (buf ++ joined out.1.0, out.1.1)
  buffered-ok (err e, out) buf n h = cc
  buffered-ok (ok m, (blocks, gz)) buf n h = refl
