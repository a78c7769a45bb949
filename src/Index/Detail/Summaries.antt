-- ===== src/Index/Detail/Summaries.antt =====
-- What the loops of src/index/detail.go compute, described without their state.
use bepper.Base.{
  ℕ, ◌+◌, String, Bool, true, false, not, ◌&&◌, ◌||◌, ◌≡◌, refl, ◌∙◌, List, [], ◌∷◌, ◌++◌, ◌==◌,
  if◌then◌else◌, Option, none, some, first_some, arith, Bool-cases, inl, inr,
}
use bepper.Base.Int.{ℤ}
use bepper.Base.Text.{or_else}
use bepper.Events.{
  Payload, BuildEvent, aborted, finished, configuration, build_metrics, fetch,
  structured_command_line,
}
use bepper.Index.Detail.{
  ErrorStep, go_on, return, error_step, build_error_from, parse_build_error, BuildInfo,
  option_value, info_step, build_info_from, no_info, parse_build_info,
}

-- The last text, or the given one if there is none.
abbrev pub last_text {ℓ} : {A : Type ℓ} → A → List A → A
last_text d [] = d
last_text d (x ∷ xs) = last_text x xs

-- The text, if it is not empty.
abbrev pub present : String → List String
present s = if s == "" then [] else s ∷ []

abbrev pub failure_in : Payload → Option String
failure_in (finished f) = if f.failure_message == "" then none else some f.failure_message
failure_in _ = none

abbrev pub failure_of : BuildEvent → Option String
failure_of e = failure_in e.payload

abbrev pub aborted_in : Payload → List String
aborted_in (aborted description) = present description
aborted_in _ = []

abbrev pub aborts : List BuildEvent → List String
aborts [] = []
aborts (e ∷ events) = aborted_in e.payload ++ aborts events

-- What the loop returns after an event, if it goes on with the function.
abbrev after : (String → String) → ErrorStep → String
after k (go_on last) = k last
after k (return message) = message

abbrev or_first : Option String → Option String → Option String
or_first (some m) o = some m
or_first none o = o

after-error_step :
    (payload : Payload) (last : String) (k : String → String) (texts : List String)
    (o : Option String)
    → ((l : String) → k l ≡ or_else (last_text l texts) o)
    → after k (error_step last payload)
      ≡ or_else (last_text last (aborted_in payload ++ texts)) (or_first (failure_in payload) o)
unfolding error_step
after-error_step (aborted description) last k texts o h = elim (Bool-cases (description == "")) [
  | inl empty ↦ rw empty (h last)
  | inr some_text ↦ rw some_text (h description)
]
after-error_step (finished f) last k texts o h = elim (Bool-cases (f.failure_message == "")) [
  | inl empty ↦ rw empty (h last)
  | inr some_text ↦ rw some_text refl
]
after-error_step _ last k texts o h = h last

build_error_from-cons :
    (last : String) (e : BuildEvent) (events : List BuildEvent)
    → build_error_from last (e ∷ events)
      ≡ after (λ l. build_error_from l events) (error_step last e.payload)
unfolding build_error_from
build_error_from-cons last e events = refl

elim-or_first :
    (o rest : Option String) → (elim o [ some b ↦ some b | none ↦ rest ]) ≡ or_first o rest
elim-or_first none rest = refl
elim-or_first (some b) rest = refl

first_some-cons :
    (e : BuildEvent) (events : List BuildEvent)
    → first_some failure_of (e ∷ events)
      ≡ or_first (failure_in e.payload) (first_some failure_of events)
first_some-cons e events = elim-or_first (failure_in e.payload) (first_some failure_of events)

build_error_from-eq :
    (last : String) (events : List BuildEvent)
    → build_error_from last events
      ≡ or_else (last_text last (aborts events)) (first_some failure_of events)
unfolding build_error_from
build_error_from-eq last [] = refl
build_error_from-eq last (e ∷ events) =
    build_error_from-cons last e events
    ∙ after-error_step e.payload last (λ l. build_error_from l events) (aborts events)
        (first_some failure_of events) (λ l. build_error_from-eq l events)
    ∙ rw (first_some-cons e events) refl

-- The error of a build is the message of the first BuildFinished event that has one, or else the
-- last description of an Aborted event, or else empty.
parse_build_error-eq :
    (events : List BuildEvent)
    → parse_build_error events
      ≡ or_else (last_text "" (aborts events)) (first_some failure_of events)
unfolding parse_build_error
parse_build_error-eq events = build_error_from-eq "" events

abbrev pub cpu_in : Payload → List String
cpu_in (configuration cpu) = present cpu
cpu_in _ = []

abbrev pub packages_in : Payload → List ℤ
packages_in (build_metrics actions packages) = packages ∷ []
packages_in _ = []

abbrev pub fetches_in : Payload → ℕ
fetches_in fetch = 1
fetches_in _ = 0

-- A canonical command line gives the option a value.
abbrev pub has_value : String → Payload → Bool
has_value name (structured_command_line cl) =
    cl.label == "canonical" && not (option_value cl name == "")
has_value name _ = false

abbrev pub gather {ℓ} : {A : Type ℓ} → (Payload → List A) → List BuildEvent → List A
gather f [] = []
gather f (e ∷ events) = f e.payload ++ gather f events

abbrev pub count : (Payload → ℕ) → List BuildEvent → ℕ
count f [] = 0
count f (e ∷ events) = f e.payload + count f events

abbrev pub any : (Payload → Bool) → List BuildEvent → Bool
any f [] = false
any f (e ∷ events) = f e.payload || any f events

-- The facts about a stream, behind those that are known.
abbrev pub facts : BuildInfo → List BuildEvent → BuildInfo
facts info events = record {
  cpu = last_text info.cpu (gather cpu_in events);
  remote_execution_enabled =
      info.remote_execution_enabled || any (has_value "remote_executor") events;
  caching_enabled = info.caching_enabled || any (has_value "remote_cache") events;
  packages_loaded = last_text info.packages_loaded (gather packages_in events);
  fetch_count = info.fetch_count + count fetches_in events;
}

facts_from : BuildInfo → Payload → List BuildEvent → BuildInfo
facts_from info payload events = record {
  cpu = last_text info.cpu (cpu_in payload ++ gather cpu_in events);
  remote_execution_enabled =
      info.remote_execution_enabled
      || (has_value "remote_executor" payload || any (has_value "remote_executor") events);
  caching_enabled =
      info.caching_enabled
      || (has_value "remote_cache" payload || any (has_value "remote_cache") events);
  packages_loaded =
      last_text info.packages_loaded (packages_in payload ++ gather packages_in events);
  fetch_count = info.fetch_count + (fetches_in payload + count fetches_in events);
}

same_facts :
    {cpu cpu' : String} {remote remote' caching caching' : Bool} {packages packages' : ℤ} {n m : ℕ}
    → cpu ≡ cpu'
    → remote ≡ remote'
    → caching ≡ caching'
    → packages ≡ packages'
    → n ≡ m
    → ◌≡◌ {A = BuildInfo}
        (record {
          cpu = cpu;
          remote_execution_enabled = remote;
          caching_enabled = caching;
          packages_loaded = packages;
          fetch_count = n;
        })
        (record {
          cpu = cpu';
          remote_execution_enabled = remote';
          caching_enabled = caching';
          packages_loaded = packages';
          fetch_count = m;
        })
same_facts a b c d e = rw (a, b, c, d, e) refl

-- An option that has a value sets its flag.
set_flag :
    (flag found canonical rest : Bool)
    → (if canonical then (if found then flag else true) else flag) || rest
      ≡ flag || ((canonical && not found) || rest)
set_flag flag found canonical rest = ground arith

facts-step :
    (info : BuildInfo) (payload : Payload) (events : List BuildEvent)
    → facts (info_step payload info) events ≡ facts_from info payload events
unfolding info_step facts_from
facts-step info (configuration cpu) events = elim (Bool-cases (cpu == "")) [
  | inl empty ↦ rw empty (same_facts refl refl refl refl (omega arith))
  | inr some_text ↦ rw some_text (same_facts refl refl refl refl (omega arith))
]
facts-step info (build_metrics actions packages) events =
    same_facts refl refl refl refl (omega arith)
facts-step info fetch events = same_facts refl refl refl refl (omega arith)
facts-step info (structured_command_line cl) events = elim (Bool-cases (cl.label == "canonical")) [
  | inl canonical ↦ rw canonical (
      same_facts refl
        (set_flag info.remote_execution_enabled (option_value cl "remote_executor" == "") true _)
        (set_flag info.caching_enabled (option_value cl "remote_cache" == "") true _) refl
        (omega arith))
  | inr other ↦ rw other (same_facts refl refl refl refl (omega arith))
]
facts-step info _ events = same_facts refl refl refl refl (omega arith)

build_info_from-eq :
    (info : BuildInfo) (events : List BuildEvent) → build_info_from info events ≡ facts info events
unfolding build_info_from facts_from
build_info_from-eq info [] = same_facts refl (ground arith) (ground arith) refl (omega arith)
build_info_from-eq info (e ∷ events) =
    build_info_from-eq (info_step e.payload info) events ∙ facts-step info e.payload events

-- The facts of a build are the last CPU that a Configuration event names, whether some canonical
-- command line gives a value to `remote_executor` and to `remote_cache`, the packages of the last
-- BuildMetrics event, and the number of Fetch events.
parse_build_info-eq : (events : List BuildEvent) → parse_build_info events ≡ facts no_info events
unfolding parse_build_info
parse_build_info-eq events = build_info_from-eq no_info events
