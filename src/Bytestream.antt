-- ===== src/Bytestream.antt =====
-- src/bytestream/bytestream.go: the client of remote caches. net/url and gRPC are parameters: what
-- grpc.NewClient, ByteStream.Read and the calls of Recv give. Errors keep the branch they come from.
pub mod Limit
pub mod Connections
use bepper.Base.{
  ℕ, String, Bool, true, false, not, ◌&&◌, ◌==◌, ◌+◌, Option, none, some, List, [], ◌∷◌, ◌++◌,
  length, if◌then◌else◌,
}
use bepper.Base.Dict.{Dict, lookup, insert}
use bepper.Base.Int.{ℤ, pos, ltb_ℤ}
use bepper.Base.Result.{Result, ok, err, check, or_error, required, ◌>>=◌}
use bepper.Base.Text.{trim_prefix, cut_prefix, cut, trim_space, or_else}
use bepper.Blobstore.{Bytes, Error}
use bepper.Index.GitUrl.{UrlPackage, Url}

pub data StreamError : Type 0 where
  bad_uri wrong_scheme missing_host missing_resource_name too_large : StreamError
  dial_error read_error recv_error write_error : Error → StreamError

-- The target and the resource name of a URI.
module _ (urls : UrlPackage) where
  unfoldable pub split_url : Url urls.Rest → Result StreamError (String × String)
  split_url u = do
    scheme ← check (u.scheme == "bytestream") wrong_scheme
    host ← check (not (u.host == "")) missing_host
    let resource_name = trim_prefix u.path "/"
    resource ← check (not (resource_name == "")) missing_resource_name
    ok (u.host, resource_name)

  unfoldable pub parse_uri : String → Result StreamError (String × String)
  parse_uri uri = do u ← required (urls.parse uri) bad_uri; split_url u

-- What the calls of Recv give: messages, then io.EOF or an error.
pub record Incoming : Type 0 where
  pub chunks : List Bytes
  pub end_error : Option Error

-- grpc.ClientConn: Read with the metadata that goes out, for a resource name.
pub record Connection : Type 0 where
  pub read : Option (String × String) → String → Result Error Incoming

pub record Client : Type 0 where
  pub insecure : Bool
  pub header : String
  pub max_size_bytes : ℤ
  pub conns : Dict Connection

abbrev trim_both : Option (String × String) → Option (String × String)
trim_both none = none
trim_both (some (key, value)) = some (trim_space key, trim_space value)

-- The metadata of the header "key: value".
unfoldable pub outgoing_metadata : String → Option (String × String)
outgoing_metadata header = if header == "" then none else trim_both (cut b':' header)

unfoldable pub keep_connection :
    String → Client → Result Error Connection → Result Error Connection × Client
keep_connection target c (err e) = (err e, c)
keep_connection target c (ok conn) = (ok conn, record c { conns = insert target conn c.conns })

-- `insecure` tells grpc.NewClient whether to dial without TLS.
module _ (new_client : (insecure : Bool) → String → Result Error Connection) where
  -- From the lookup of the connection on.
  unfoldable pub reuse_or_dial :
      String → Client → Option Connection → Result Error Connection × Client
  reuse_or_dial target c (some conn) = (ok conn, c)
  reuse_or_dial target c none = keep_connection target c (new_client c.insecure target)

  unfoldable pub dial : String → Client → Result Error Connection × Client
  dial target c = reuse_or_dial target c (lookup target c.conns)

-- The limit holds if it is positive.
unfoldable pub exceeds : ℤ → ℕ → Bool
exceeds max_size total = ltb_ℤ (pos 0) max_size && ltb_ℤ max_size (pos total)

module _ {W : Type 0} (write : Bytes → W → Option Error × W) where
  abbrev pub ended : Option Error → Option StreamError
  ended none = none
  ended (some e) = some (recv_error e)

  -- The loop over Recv, after `total` bytes.
  unfoldable pub copy : ℤ → ℕ → List Bytes → Option Error → W → Option StreamError × W
  copy max_size total [] end_error w = (ended end_error, w)
  copy max_size total (chunk ∷ chunks) end_error w =
      let now = total + length chunk in
      let (failure, after) = write chunk w in
      let rest = copy max_size now chunks end_error after in
      if exceeds max_size now
      then (some too_large, w)
      else elim failure [ some e ↦ (some (write_error e), after) | none ↦ rest ]

  unfoldable pub read_to : Client → String → W → Connection → Option StreamError × W
  read_to c resource_name w conn = elim (conn.read (outgoing_metadata c.header) resource_name) [
    | err e ↦ (some (read_error e), w)
    | ok incoming ↦ copy c.max_size_bytes 0 incoming.chunks incoming.end_error w
  ]

  module _ (urls : UrlPackage)
      (new_client : (insecure : Bool) → String → Result Error Connection) where
    -- After the parsing of the URI.
    unfoldable pub stream_resource :
        String → String → Client → W → (Option StreamError × W) × Client
    stream_resource target resource_name c w =
        let (conn, after) = dial new_client target c in
        (
          elim conn [ err e ↦ (some (dial_error e), w) | ok conn ↦ read_to c resource_name w conn ],
          after,
        )

    unfoldable pub stream : String → Client → W → (Option StreamError × W) × Client
    stream uri c w = elim (parse_uri urls uri) [
      | err e ↦ ((some e, w), c)
      | ok parsed ↦ stream_resource parsed.0 parsed.1 c w
    ]

-- bytes.Buffer: it takes everything.
abbrev pub write_buffer : Bytes → Bytes → Option Error × Bytes
write_buffer chunk buf = (none, buf ++ chunk)

abbrev pub buffered : Option StreamError × Bytes → Result StreamError Bytes
buffered (some e, buf) = err e
buffered (none, buf) = ok buf

unfoldable pub fetch :
    UrlPackage
    → ((insecure : Bool) → String → Result Error Connection)
    → String
    → Client
    → Result StreamError Bytes × Client
fetch urls new_client uri c =
    let (result, after) = stream write_buffer urls new_client uri c [] in (buffered result, after)
