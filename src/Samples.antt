-- ===== src/Samples.antt =====
-- Concrete parameters for the concrete runs: an event that counts, with its line of JSON as a row
-- of that many letters, URLs that are only paths, an index that is a list, and Go's clock at two
-- moments.
pub mod Cookies
pub mod Storage
pub mod Ilike
use bepper.Base.{
  ℕ, zero, suc, ◌≡◌, ◌≢◌, refl, sym, ap, none, some, List, [], ◌∷◌, ◌-◌, length, eqb, false, All,
  arith,
}
use bepper.Base.Int.{pos}
use bepper.Base.Result.{Result, ok, err}
use bepper.Blobstore.{Bytes, Error}
use bepper.Events.{BuildEvent, EventId, Payload}
use bepper.Index.GitUrl.{UrlPackage}
use bepper.Index.Indexer.{Indexer}
use bepper.Index.Record.{Record}
use bepper.Server.{Environment}
use bepper.Store.{ProtoJson, newline}
use bepper.Store.Json.{JsonLaws}

abbrev pub counting : ℕ → BuildEvent
counting n = record {
  id = EventId.other;
  children = [];
  payload = Payload.build_metrics (pos n) (pos 0);
}

abbrev letters : ℕ → Bytes
letters zero = 120 ∷ []
letters (suc n) = 120 ∷ letters n

abbrev marshal_fields : EventId → List EventId → Payload → Result Error Bytes
marshal_fields EventId.other [] (Payload.build_metrics (pos n) (pos zero)) = ok (letters n)
marshal_fields _ _ _ = err "not a sample"

abbrev pub count_json : ProtoJson
count_json = record {
  marshal = λ e. marshal_fields e.id e.children e.payload;
  unmarshal = λ bytes. ok (counting (length bytes - 1));
}

length-letters : (n : ℕ) → length (letters n) ≡ suc n
length-letters zero = refl
length-letters (suc n) = ap suc (length-letters n)

letters-count : (n : ℕ) → length (letters n) - 1 ≡ n
letters-count n = omega (arith, length-letters n)

one_line-letters : (n : ℕ) → All (λ b. eqb b newline ≡ false) (letters n)
one_line-letters zero = (refl, tt)
one_line-letters (suc n) = (refl, one_line-letters n)

letters_not_empty : (n : ℕ) → letters n ≢ []
letters_not_empty zero e = cc
letters_not_empty (suc n) e = cc

-- A marshalled event is a counting one.
marshalled :
    (id : EventId) (children : List EventId) (payload : Payload) (line : Bytes)
    → marshal_fields id children payload ≡ ok line
    → (n : ℕ) × (line ≡ letters n)
      × (◌≡◌ {A = BuildEvent}
          (record { id = id; children = children; payload = payload })
          (counting n))
marshalled EventId.other [] (Payload.build_metrics (pos n) (pos zero)) line m = (n, cc, refl)
marshalled _ _ _ line m = cc

pub count_json_laws : JsonLaws count_json
count_json_laws = record {
  unmarshal-marshal = λ e line m.
      let (n, eq, same) = marshalled e.id e.children e.payload line m in
      rw (eq, letters-count) (ap ok (sym same));
  one_line = λ e line m.
      let (n, eq, same) = marshalled e.id e.children e.payload line m in rw eq (one_line-letters n);
  not_empty = λ e line m.
      let (n, eq, same) = marshalled e.id e.children e.payload line m in
      rw eq (letters_not_empty n);
}

abbrev pub path_urls : UrlPackage
path_urls = record {
  Rest = Unit {0};
  parse = λ s. some (record { scheme = ""; user = none; host = ""; path = s; rest = tt });
  to_string = λ u. u.path;
  hostname = λ u. u.host;
  split_host_port = λ s. none;
  join_host_port = λ host port. host;
}

abbrev pub list_index : Indexer
list_index = record {
  State = List Record;
  upsert = λ r s. (none, r ∷ s);
  get = λ id s. (ok none, s);
  list = λ options s. (ok s, s);
}

abbrev pub sample_environment : Environment
sample_environment = record {
  urls = path_urls;
  json = count_json;
  unmarshal_to = count_json.unmarshal;
  send = λ n. none;
  started_at = pos 1000;
  finished_at = pos 2000;
}
