-- ===== src/Examples/Transfers.antt =====
-- Blobs that are fetched from a remote cache.
use bepper.Base.{joined, String, ◌≡◌, ◌↔◌, refl, Bool, false, Option, none, some, [], ◌∷◌}
use bepper.Base.Dict.{lookup}
use bepper.Base.Int.{pos}
use bepper.Base.Result.{Result, ok}
use bepper.Base.Text.{cut_prefix}
use bepper.Blobstore.{Bytes, Error}
use bepper.Bytestream.{
  Client, Connection, Incoming, dial, fetch, parse_uri, split_url, reuse_or_dial, keep_connection,
}
use bepper.Bytestream.Limit.{WithinLimit, fetch-joined}
use bepper.Index.GitUrl.{UrlPackage}

abbrev pub cache_urls : UrlPackage
cache_urls = record {
  Rest = Unit {0};
  parse = λ s. some (record {
    scheme = "bytestream";
    user = none;
    host = "cache:443";
    path = "/blobs/1";
    rest = tt;
  });
  to_string = λ u. u.path;
  hostname = λ u. u.host;
  split_host_port = λ s. none;
  join_host_port = λ host port. host;
}

abbrev incoming : Incoming
incoming = record { chunks = (1 ∷ 2 ∷ []) ∷ (3 ∷ []) ∷ []; end_error = none }

abbrev pub connection : Connection
connection = record { read = λ metadata resource_name. ok incoming }

abbrev pub new_client : Bool → String → Result Error Connection
new_client insecure target = ok connection

abbrev pub client : Client
client = record { insecure = false; header = ""; max_size_bytes = pos 3; conns = [] }

fetch-joined_example :
    ((fetch cache_urls new_client "bytestream://cache:443/blobs/1" client).0 ≡ ok (1 ∷ 2 ∷ 3 ∷ []))
    ↔ ((incoming.end_error ≡ none)
        × WithinLimit (pos 3) (1 ∷ 2 ∷ 3 ∷ [])
        × (joined incoming.chunks ≡ 1 ∷ 2 ∷ 3 ∷ []))
unfolding parse_uri split_url cut_prefix dial reuse_or_dial keep_connection lookup
fetch-joined_example =
    fetch-joined cache_urls new_client "bytestream://cache:443/blobs/1" "cache:443" "blobs/1" client
      connection incoming (1 ∷ 2 ∷ 3 ∷ []) refl refl refl

abbrev full_disk : Bytes → Option Error
full_disk log = some "no space left on device"
