-- ===== src/Webui/Streaming.antt =====
-- The error path of `getBlob` of src/webui/webui.go.
use bepper.Base.{
  String, ◌≡◌, refl, Bool, true, false, some, List, [], ◌∷◌, if◌then◌else◌, Option-cases, inl, inr,
}
use bepper.Blobstore.{Bytes, Error}
use bepper.Webui.{Transfer, Reply, bad_gateway, content, sent, written, stream_reply}

written-sent : (writes : List Bytes) → written writes ≡ false → sent writes ≡ []
unfolding written sent
written-sent [] h = refl
written-sent ([] ∷ writes) h = written-sent writes h
written-sent ((b ∷ p) ∷ writes) h = cc

-- What a reply to a transfer may be: the bytes of its writes and nothing else, or its error, if
-- its writes had no byte.
pub data Honest (name : String) (t : Transfer) : Reply → Type 0 where
  as_sent : Honest name t (content name (sent t.writes))
  nothing_sent : (e : Error) → t.error ≡ some e → sent t.writes ≡ [] → Honest name t (bad_gateway e)

Honest-reply :
    (name : String) (t : Transfer) (e : Error) (b : Bool)
    → t.error ≡ some e
    → written t.writes ≡ b
    → Honest name t (if b then content name (sent t.writes) else bad_gateway e)
Honest-reply name t e true fails h = as_sent
Honest-reply name t e false fails h = nothing_sent e fails (written-sent t.writes h)

-- The text of an error is never appended to bytes that have gone out: the reply to a transfer has
-- exactly the bytes of its writes, or it is the error and the writes had no byte.
pub stream_reply-Honest : (name : String) (t : Transfer) → Honest name t (stream_reply name t)
unfolding stream_reply
stream_reply-Honest name t = elim (Option-cases t.error) [
  | inl succeeds ↦ simp (stream_reply, succeeds) as_sent
  | inr (e, fails) ↦
      simp (stream_reply, fails) (Honest-reply name t e (written t.writes) fails refl)
]
