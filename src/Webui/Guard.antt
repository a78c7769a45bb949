-- ===== src/Webui/Guard.antt =====
-- The check of the URI in `getBlob` of src/webui/webui.go.
use bepper.Base.{
  String, ◌==◌, eq_iff, if◌then◌else◌, ◌≡◌, ◌⊎◌, refl, subst, arith, Bool, true, false, Option,
  none, some, List, [], ◌∷◌, ◌++◌, first_some, All, All-append, Bool-cases, inl, inr,
}
use bepper.Blobstore.{Error}
use bepper.Events.{BuildEvent}
use bepper.Index.Targets.{LogFile, parse_targets}
use bepper.Index.Targets.Reported.{Reported, FilesGood, parse_targets-Reported}
use bepper.Store.{ReadResult}
use bepper.Webui.{
  Transfer, Response, Reply, missing_uri, refuses, name_in, name_in_target, file_for_uri, serve,
  serve_events, get_blob,
}

found-cases {ℓ} :
    {B : Type ℓ} (o rest : Option B) (b : B)
    → (elim o [ some c ↦ some c | none ↦ rest ]) ≡ some b
    → (o ≡ some b) ⊎ (rest ≡ some b)
found-cases none rest b e = inr e
found-cases (some c) rest b e = inl e

-- A search finds what holds of every item that it accepts.
first_some-All {ℓ κ μ ν} :
    {A : Type ℓ} {B : Type κ} (P : A → Type μ) (Q : B → Type ν) (f : A → Option B)
    → ((x : A) (b : B) → P x → f x ≡ some b → Q b)
    → (xs : List A) (b : B) → All P xs
    → first_some f xs ≡ some b
    → Q b
first_some-All P Q f step [] b h e = cc
first_some-All P Q f step (x ∷ xs) b (p, h) e = elim (found-cases (f x) (first_some f xs) b e) [
  | inl here ↦ step x b p here
  | inr later ↦ first_some-All P Q f step xs b h later
]

-- Some event of the stream lists a file with this name and this URI, which is not empty.
abbrev pub WasReported : List BuildEvent → String → String → Type 0
WasReported events uri name = Reported events (record { name = name; uri = uri })

name_in-WasReported :
    (events : List BuildEvent) (uri name : String) (f : LogFile)
    → Reported events f
    → name_in uri f ≡ some name
    → WasReported events uri name
unfolding name_in
name_in-WasReported events uri name f reported e = elim (Bool-cases (f.uri == uri)) [
  | inl same ↦
      let p = (eq_iff f.uri uri).0 same in
      let q : f.name ≡ name = ground (arith, same) in
      subst (λ u. WasReported events u name) p (subst (WasReported events f.uri) q reported)
  | inr other ↦ ground (arith, other)
]

pub file_for_uri-WasReported :
    (events : List BuildEvent) (uri name : String)
    → file_for_uri events uri ≡ some name
    → WasReported events uri name
unfolding file_for_uri name_in_target
file_for_uri-WasReported events uri name e =
    first_some-All (FilesGood (Reported events)) (WasReported events uri) (name_in_target uri)
      (λ t b good h.
        first_some-All (Reported events) (WasReported events uri) (name_in uri)
          (λ f c. name_in-WasReported events uri c f) (t.log_files ++ t.output_files) b
          (All-append (Reported events) t.log_files t.output_files good.logs good.outputs) h)
      (parse_targets events) name (parse_targets-Reported events) e

serve-dialed :
    (stream : String → Transfer) (uri dialed : String) (found : Option String)
    → (serve stream uri found).dialed ≡ some dialed
    → (dialed ≡ uri) × ((name : String) × (found ≡ some name))
unfolding serve
serve-dialed stream uri dialed none e = cc
serve-dialed stream uri dialed (some name) e = (cc, (name, refl))

serve_events-dialed :
    (stream : String → Transfer) (uri dialed : String) (error : Option Error) (found : Bool)
    (events : List BuildEvent)
    → (serve_events stream uri (record { events = events; found = found; error = error })).dialed
      ≡ some dialed
    → (dialed ≡ uri) × ((name : String) × (file_for_uri events uri ≡ some name))
unfolding serve_events
serve_events-dialed stream uri dialed (some x) found events e = cc
serve_events-dialed stream uri dialed none false events e = cc
serve_events-dialed stream uri dialed none true events e =
    serve-dialed stream uri dialed (file_for_uri events uri) e

present-dialed :
    (empty : Bool) (refusal : Reply) (served : Response) (dialed : String)
    → (if empty then refuses refusal else served).dialed ≡ some dialed
    → served.dialed ≡ some dialed
present-dialed true refusal served dialed e = cc
present-dialed false refusal served dialed e = e

-- The handler has the client dial a URI only if it is the requested one and some event of the
-- invocation lists a file with it.
pub dialed_uri-WasReported :
    (stream : Option (String → Transfer)) (uri : String) (r : ReadResult) (dialed : String)
    → (get_blob stream uri r).dialed ≡ some dialed
    → (dialed ≡ uri) × ((name : String) × WasReported r.events uri name)
unfolding get_blob
dialed_uri-WasReported none uri r dialed e = cc
dialed_uri-WasReported (some stream) uri r dialed e =
    let h = present-dialed (uri == "") missing_uri (serve_events stream uri r) dialed e in
    let (same, (name, found)) = serve_events-dialed stream uri dialed r.error r.found r.events h in
    (same, (name, file_for_uri-WasReported r.events uri name found))
