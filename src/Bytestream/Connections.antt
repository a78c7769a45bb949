-- ===== src/Bytestream/Connections.antt =====
-- The connections that the client of src/bytestream/bytestream.go keeps.
use bepper.Base.{String, ◌≡◌, refl, ap, ◌∙◌, Bool, Option, none, some, eq_refl, if◌then◌else◌}
use bepper.Base.Dict.{Dict, lookup, insert, lookup-insert}
use bepper.Base.Result.{Result, ok, err, ok_inj}
use bepper.Blobstore.{Error}
use bepper.Bytestream.{Client, Connection, dial, keep_connection, reuse_or_dial}

lookup-inserted :
    (target : String) (conn : Connection) (conns : Dict Connection)
    → lookup target (insert target conn conns) ≡ some conn
lookup-inserted target conn conns =
    lookup-insert target target conn conns
    ∙ ap (λ b. if b then some conn else lookup target conns) (eq_refl target)

lookup-keep_connection :
    (target : String) (c : Client) (made : Result Error Connection) (conn : Connection)
    → (keep_connection target c made).0 ≡ ok conn
    → lookup target (keep_connection target c made).1.conns ≡ some conn
unfolding keep_connection
lookup-keep_connection target c (err e) conn h = cc
lookup-keep_connection target c (ok new) conn h =
    lookup-inserted target new c.conns ∙ ap some (ok_inj h)

reused :
    (new_client : (insecure : Bool) → String → Result Error Connection) (target : String)
    (c : Client) (conn : Connection)
    → reuse_or_dial new_client target c (some conn) ≡ (ok conn, c)
unfolding reuse_or_dial
reused new_client target c conn = refl

module _ (new_client : (insecure : Bool) → String → Result Error Connection) where
  lookup-reuse_or_dial :
      (target : String) (c : Client) (kept : Option Connection) (conn : Connection)
      → lookup target c.conns ≡ kept
      → (reuse_or_dial new_client target c kept).0 ≡ ok conn
      → lookup target (reuse_or_dial new_client target c kept).1.conns ≡ some conn
  unfolding reuse_or_dial
  lookup-reuse_or_dial target c none conn found h =
      lookup-keep_connection target c (new_client c.insecure target) conn h
  lookup-reuse_or_dial target c (some old) conn found h = found ∙ ap some (ok_inj h)

  -- A target that was dialed has its connection from then on: a second dial gives the connection of
  -- the first, whatever grpc.NewClient would give now, and changes nothing.
  dial-dial :
      (later_client : (insecure : Bool) → String → Result Error Connection) (target : String)
      (c : Client) (conn : Connection)
      → (dial new_client target c).0 ≡ ok conn
      → dial later_client target (dial new_client target c).1
        ≡ (ok conn, (dial new_client target c).1)
  unfolding dial
  dial-dial later_client target c conn h =
      let after = (dial new_client target c).1 in
      let kept = lookup-reuse_or_dial target c (lookup target c.conns) conn refl h in
      ap (reuse_or_dial later_client target after) kept ∙ reused later_client target after conn
