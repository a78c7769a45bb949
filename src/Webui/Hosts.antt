-- ===== src/Webui/Hosts.antt =====
-- The hosts that `getBlob` of src/webui/webui.go connects to.
use bepper.Base.{String, ◌≡◌, ◌⊎◌, refl, sym, ap, ◌∙◌, Bool, Option, none, some, [], inl, inr}
use bepper.Base.Dict.{lookup, lookup-insert-cases}
use bepper.Base.Result.{Result, ok, err, Result-cases}
use bepper.Blobstore.{Error}
use bepper.Bytestream.{
  StreamError, Client, Connection, stream_resource, stream, parse_uri, dial, reuse_or_dial,
  keep_connection,
}
use bepper.Index.GitUrl.{UrlPackage}
use bepper.Store.{ReadResult}
use bepper.Webui.{get_blob}
use bepper.Webui.Guard.{WasReported, dialed_uri-WasReported}
use bepper.Webui.Remote.{log, stream_blob, after_dial, get_blob_from}

module _ (new_client : (insecure : Bool) → String → Result Error Connection) where
  -- A connection of the client after a call was there before, or is to this target.
  abbrev KeptOr : Client → String → Client → Type 0
  KeptOr c dialed after =
      (target : String) (conn : Connection)
      → lookup target after.conns ≡ some conn
      → (lookup target c.conns ≡ some conn) ⊎ (dialed ≡ target)

  keep_connection-KeptOr :
      (dialed : String) (c : Client) (made : Result Error Connection)
      → KeptOr c dialed (keep_connection dialed c made).1
  unfolding keep_connection
  keep_connection-KeptOr dialed c (err e) target conn h = inl h
  keep_connection-KeptOr dialed c (ok new) target conn h =
      elim (lookup-insert-cases dialed target new conn c.conns h) [
        | inl (same, same_conn) ↦ inr same
        | inr before ↦ inl before
      ]

  reuse_or_dial-KeptOr :
      (dialed : String) (c : Client) (kept : Option Connection)
      → KeptOr c dialed (reuse_or_dial new_client dialed c kept).1
  unfolding reuse_or_dial
  reuse_or_dial-KeptOr dialed c (some old) = λ target conn h. inl h
  reuse_or_dial-KeptOr dialed c none =
      keep_connection-KeptOr dialed c (new_client c.insecure dialed)

  dial-KeptOr : (dialed : String) (c : Client) → KeptOr c dialed (dial new_client dialed c).1
  unfolding dial
  dial-KeptOr dialed c = reuse_or_dial-KeptOr dialed c (lookup dialed c.conns)

  module _ (urls : UrlPackage) (text : StreamError → Error) where
    -- The URI has this host.
    abbrev pub HasHost : String → String → Type 0
    HasHost uri target =
        (resource_name : String) × (parse_uri urls uri ≡ ok (target, resource_name))

    stream-hosts :
        (c : Client) (uri target : String) (conn : Connection)
        → lookup target (stream log urls new_client uri c []).1.conns ≡ some conn
        → (lookup target c.conns ≡ some conn) ⊎ HasHost uri target
    unfolding stream stream_resource
    stream-hosts c uri target conn = elim (Result-cases (parse_uri urls uri)) [
      | inl (e, fails) ↦ rw (fails, stream) (λ h. inl h)
      | inr ((dialed, resource_name), parsed) ↦
          rw (parsed, stream)
            (λ h. elim (dial-KeptOr dialed c target conn h) [
              | inl before ↦ inl before
              | inr same ↦ inr (resource_name, ap (λ d. ok (d, resource_name)) same)
            ])
    ]

    after_dial-hosts :
        (c : Client) (dialed : Option String) (target : String) (conn : Connection)
        → lookup target (after_dial urls new_client text dialed c).conns ≡ some conn
        → (lookup target c.conns ≡ some conn)
          ⊎ ((uri : String) × (dialed ≡ some uri) × HasHost uri target)
    unfolding stream_blob
    after_dial-hosts c none target conn h = inl h
    after_dial-hosts c (some uri) target conn h = elim (stream-hosts c uri target conn h) [
      | inl before ↦ inl before
      | inr host ↦ inr (uri, refl, host)
    ]

    -- A connection that the client has after a request for a blob was there before, or is to the host
    -- of the requested URI, which some event of the invocation lists for a file.
    pub connects_to_reported_hosts :
        (c : Client) (uri target : String) (r : ReadResult) (conn : Connection)
        → lookup target (get_blob_from urls new_client text c uri r).1.conns ≡ some conn
        → (lookup target c.conns ≡ some conn)
          ⊎ (((name : String) × WasReported r.events uri name) × HasHost uri target)
    unfolding get_blob_from
    connects_to_reported_hosts c uri target r conn h =
        let blob = λ (u : String). (stream_blob urls new_client text c u).0 in
        elim (after_dial-hosts c (get_blob (some blob) uri r).dialed target conn h) [
          | inl before ↦ inl before
          | inr (dialed, is_dialed, (resource_name, parsed)) ↦
              let (same, reported) = dialed_uri-WasReported (some blob) uri r dialed is_dialed in
              inr (reported, (resource_name, ap (parse_uri urls) (sym same) ∙ parsed))
        ]
