-- ===== src/Store/Json.antt =====
-- The lines of a blob: what protojson is relied on for, and the reading of the lines.
use bepper.Base.{◌≡◌, ◌≢◌, refl, ap, ◌∙◌, false, List, [], ◌∷◌, ◌++◌, eqb, All}
use mathlib.Core.List.{append_assoc}
use bepper.Base.Result.{ok}
use bepper.Blobstore.{Bytes}
use bepper.Events.{BuildEvent}
use bepper.Store.Defs.{ProtoJson, newline, cons_byte, split_lines, unmarshal_lines}

-- Without its option `Multiline`, protojson.Marshal writes one line, which is not empty, and
-- protojson.Unmarshal reads it back.
pub record JsonLaws (json : ProtoJson) : Type 0 where
  pub unmarshal-marshal :
      (e : BuildEvent) (line : Bytes) → json.marshal e ≡ ok line → json.unmarshal line ≡ ok e
  pub one_line :
      (e : BuildEvent) (line : Bytes)
      → json.marshal e ≡ ok line
      → All (λ b. eqb b newline ≡ false) line
  pub not_empty : (e : BuildEvent) (line : Bytes) → json.marshal e ≡ ok line → line ≢ []

-- The bytes are the lines of the events.
abbrev pub Encoded : ProtoJson → List BuildEvent → Bytes → Type 0
Encoded json [] bytes = bytes ≡ []
Encoded json (e ∷ events) bytes =
    (line : Bytes) × (rest : Bytes) × (json.marshal e ≡ ok line)
    × (bytes ≡ line ++ (newline ∷ rest))
    × Encoded json events rest

pub Encoded-append :
    (json : ProtoJson) (events : List BuildEvent) (e : BuildEvent) (bytes line : Bytes)
    → Encoded json events bytes
    → json.marshal e ≡ ok line
    → Encoded json (events ++ e ∷ []) (bytes ++ (line ++ newline ∷ []))
Encoded-append json [] e bytes line h m =
    (line, [], m, ap (λ b. b ++ (line ++ newline ∷ [])) h, refl)
Encoded-append json (d ∷ events) e bytes line (first, rest, md, eq, h) m = (
  first,
  rest ++ (line ++ newline ∷ []),
  md,
  ap (λ b. b ++ (line ++ newline ∷ [])) eq ∙ append_assoc first (newline ∷ rest) _,
  Encoded-append json events e rest line h m,
)

split_lines-line :
    (line rest : Bytes)
    → All (λ b. eqb b newline ≡ false) line
    → split_lines (line ++ (newline ∷ rest)) ≡ line ∷ split_lines rest
unfolding split_lines
split_lines-line [] rest h = refl
split_lines-line (b ∷ line) rest (p, h) =
    rw (p, split_lines) (ap (cons_byte b) (split_lines-line line rest h))

pub unmarshal_lines-cons :
    (json : ProtoJson) (line : Bytes) (lines : List Bytes) (e : BuildEvent)
    (events : List BuildEvent)
    → line ≢ []
    → json.unmarshal line ≡ ok e
    → unmarshal_lines json lines ≡ ok events
    → unmarshal_lines json (line ∷ lines) ≡ ok (e ∷ events)
unfolding unmarshal_lines
unmarshal_lines-cons json [] lines e events ne h k = absurd (ne refl)
unmarshal_lines-cons json (b ∷ line) lines e events ne h k = rw h (rw k)

-- Reading the lines gives the events back.
pub unmarshal_lines-Encoded :
    (json : ProtoJson) (laws : JsonLaws json) (events : List BuildEvent) (bytes : Bytes)
    → Encoded json events bytes
    → unmarshal_lines json (split_lines bytes) ≡ ok events
unmarshal_lines-Encoded json laws [] bytes h = rw h (unfold split_lines unmarshal_lines in refl)
unmarshal_lines-Encoded json laws (e ∷ events) bytes (line, rest, m, eq, h) = rw eq (
    rw (split_lines-line line rest (laws.one_line e line m)) (
      unmarshal_lines-cons json line (split_lines rest) e events (laws.not_empty e line m)
        (laws.unmarshal-marshal e line m) (unmarshal_lines-Encoded json laws events rest h)))
