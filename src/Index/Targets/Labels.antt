-- ===== src/Index/Targets/Labels.antt =====
-- The labels of the targets, and their order.
use bepper.Base.{
  String, Bool, true, false, ◌≡◌, refl, sym, ap, ◌∙◌, Option, none, some, List, [], ◌∷◌, ◌++◌, ◌==◌,
  eq_iff, eq_refl, if◌then◌else◌, arith, Option-cases, inl, inr, map, ◌||◌,
}
use bepper.Base.Text.{or_else, is_some}
use bepper.Base.Dict.{Dict, lookup, lookup-insert, lookup-insert-cases}
use bepper.Events.{
  EventId, target_configured, target_completed, NamedSetOfFiles, Payload, configured, completed,
  BuildEvent,
}
use bepper.Index.Tags.{contains_text}
use bepper.Index.Targets.FileSets.{parse_named_sets}
use bepper.Index.Targets.Summary.{
  Target, Targets, no_targets, fresh_target, update, configure, complete, summarize, add_result,
  target_event, apply_event, add_event, add_events, in_order, parse_targets,
}

-- The label of the target that an event is about: events about aspects are about no target.
unfoldable pub label_of : Payload → EventId → Option String
label_of (configured c) (target_configured label aspect) = if aspect == "" then some label else none
label_of (completed c) (target_completed label aspect) = if aspect == "" then some label else none
label_of (Payload.test_summary s) (EventId.test_summary label) = some label
label_of (Payload.test_result r) (EventId.test_result label) = some label
label_of _ _ = none

abbrev pub add_label : List String → Option String → List String
add_label out none = out
add_label out (some label) = if contains_text label out then out else out ++ label ∷ []

-- The distinct labels of a stream, behind those of `out`, each at its first place.
unfoldable pub first_seen : List String → List BuildEvent → List String
first_seen out [] = out
first_seen out (e ∷ events) = first_seen (add_label out (label_of e.payload e.id)) events

contains_text-append :
    (t : String) (xs ys : List String)
    → contains_text t (xs ++ ys) ≡ (contains_text t xs || contains_text t ys)
unfolding contains_text
contains_text-append t [] ys = refl
contains_text-append t (x ∷ xs) ys = ground (arith, contains_text-append t xs ys)

-- The keys of the map are the labels of the order, and every target has the label of its key.
record IsIndexed (ts : Targets) : Type 0 where
  known : (label : String) → contains_text label ts.order ≡ is_some (lookup label ts.by_label)
  named : (label : String) (t : Target) → lookup label ts.by_label ≡ some t → t.label ≡ label

abbrev KeepsLabel : (Target → Target) → Type 0
KeepsLabel f = (t : Target) → (f t).label ≡ t.label

label-or_else :
    (label : String) (ts : Targets)
    → IsIndexed ts
    → (or_else (fresh_target label) (lookup label ts.by_label)).label ≡ label
label-or_else label ts ix = elim (Option-cases (lookup label ts.by_label)) [
  | inl e ↦ rw e
  | inr (t, e) ↦ rw e (ix.named label t e)
]

order-update :
    (label : String) (f : Target → Target) (ts : Targets)
    → IsIndexed ts
    → (update label f ts).order ≡ add_label ts.order (some label)
unfolding update
order-update label f ts ix = ground (arith, ix.known label)

lookup-update :
    (label l : String) (f : Target → Target) (ts : Targets)
    → lookup l (update label f ts).by_label ≡ (
        if label == l
        then some (f (or_else (fresh_target label) (lookup label ts.by_label)))
        else lookup l ts.by_label)
unfolding update
lookup-update label l f ts = lookup-insert label l _ ts.by_label

known-update :
    (label l : String) (f : Target → Target) (ts : Targets)
    → IsIndexed ts
    → contains_text l (update label f ts).order ≡ is_some (lookup l (update label f ts).by_label)
unfolding contains_text
known-update label l f ts ix = rw (order-update label f ts ix) (
    rw (lookup-update label l f ts) (
      ground (
        arith,
        ix.known l,
        ix.known label,
        contains_text-append l ts.order (label ∷ []),
        eq_iff label l,
      )))

named-update :
    (label : String) (f : Target → Target) (ts : Targets)
    → KeepsLabel f
    → IsIndexed ts
    → (l : String) (t : Target) → lookup l (update label f ts).by_label ≡ some t
    → t.label ≡ l
named-update label f ts keeps ix l t e =
    let before = or_else (fresh_target label) (lookup label ts.by_label) in
    let kept : (f before).label ≡ label = keeps before ∙ label-or_else label ts ix in
    elim (lookup-insert-cases label l (f before) t ts.by_label (unfold update in e)) [
      | inl (same, new) ↦ ap (λ x. x.label) (sym new) ∙ kept ∙ same
      | inr old ↦ ix.named l t old
    ]

update-IsIndexed :
    (label : String) (f : Target → Target) (ts : Targets)
    → KeepsLabel f
    → IsIndexed ts
    → IsIndexed (update label f ts)
update-IsIndexed label f ts keeps ix = record {
  known = λ l. known-update label l f ts ix;
  named = named-update label f ts keeps ix;
}

-- What the `switch` makes of an event agrees with its label, and assigns no label.
abbrev Agrees : Option (String × (Target → Target)) → Option String → Type 0
Agrees none none = Unit
Agrees none (some label) = ⊥
Agrees (some _) none = ⊥
Agrees (some (l, f)) (some label) = (l ≡ label) × KeepsLabel f

Agrees-if :
    (b : Bool) (label : String) (f : Target → Target)
    → KeepsLabel f
    → Agrees (if b then some (label, f) else none) (if b then some label else none)
Agrees-if true label f keeps = (refl, keeps)
Agrees-if false label f keeps = tt

target_event-Agrees :
    (sets : Dict NamedSetOfFiles) (payload : Payload) (id : EventId)
    → Agrees (target_event sets payload id) (label_of payload id)
unfolding target_event label_of configure complete summarize add_result
target_event-Agrees sets (configured c) (target_configured label aspect) =
    Agrees-if (aspect == "") label (configure c) (λ t. refl)
target_event-Agrees sets (completed c) (target_completed label aspect) =
    Agrees-if (aspect == "") label (complete sets c) (λ t. refl)
target_event-Agrees sets (Payload.test_summary s) (EventId.test_summary label) = (refl, λ t. refl)
target_event-Agrees sets (Payload.test_result r) (EventId.test_result label) = (refl, λ t. refl)
target_event-Agrees sets _ _ = tt

-- The state after an event: still indexed, with the label at its place in the order.
record After (before after : Targets) (label : Option String) : Type 0 where
  indexed : IsIndexed after
  ordered : after.order ≡ add_label before.order label

apply_event-After :
    (change : Option (String × (Target → Target))) (label : Option String) (ts : Targets)
    → Agrees change label
    → IsIndexed ts
    → After ts (apply_event change ts) label
unfolding apply_event
apply_event-After none none ts a ix = record { indexed = ix; ordered = refl }
apply_event-After none (some label) ts a ix = absurd a
apply_event-After (some c) none ts a ix = absurd a
apply_event-After (some (l, f)) (some label) ts (same, keeps) ix = record {
  indexed = update-IsIndexed l f ts keeps ix;
  ordered = order-update l f ts ix ∙ ap (λ x. add_label ts.order (some x)) same;
}

add_events-order :
    (sets : Dict NamedSetOfFiles) (events : List BuildEvent) (ts : Targets)
    → IsIndexed ts
    → IsIndexed (add_events sets events ts)
      × ((add_events sets events ts).order ≡ first_seen ts.order events)
unfolding add_events add_event first_seen
add_events-order sets [] ts ix = (ix, refl)
add_events-order sets (e ∷ events) ts ix =
    let a =
      apply_event-After (target_event sets e.payload e.id) (label_of e.payload e.id) ts
        (target_event-Agrees sets e.payload e.id) ix in
    let (indexed, ordered) =
      add_events-order sets events (apply_event (target_event sets e.payload e.id) ts) a.indexed in
    (indexed, ordered ∙ ap (λ o. first_seen o events) a.ordered)

-- Every label of the order is found in the map.
labels-in_order :
    (ts : Targets) (order : List String)
    → ((label : String)
        → contains_text label order ≡ true
        → is_some (lookup label ts.by_label) ≡ true)
    → IsIndexed ts
    → map (λ t. t.label) (in_order ts.by_label order) ≡ order
unfolding in_order contains_text
labels-in_order ts [] h ix = refl
labels-in_order ts (l ∷ order) h ix = elim (Option-cases (lookup l ts.by_label)) [
  | inl absent ↦ cc (ap is_some absent, h l (ground (arith, eq_refl l)))
  | inr (t, present) ↦
      rw (present, in_order)
        (cc (
          ix.named l t present,
          labels-in_order ts order (λ label m. h label (ground (arith, m))) ix,
        ))
]

no_targets-IsIndexed : IsIndexed no_targets
unfolding contains_text lookup
no_targets-IsIndexed = record { known = λ label. refl; named = λ label t e. cc }

-- The targets of a stream are, one each and in first-seen order, the targets that its events are
-- about: the labels of TargetConfigured and TargetComplete events that belong to no aspect, and of
-- TestSummary and TestResult events whose id is of that kind.
pub labels-parse_targets :
    (events : List BuildEvent) → map (λ t. t.label) (parse_targets events) ≡ first_seen [] events
unfolding parse_targets
labels-parse_targets events =
    let sets = parse_named_sets events in
    let (ix, ordered) = add_events-order sets events no_targets no_targets-IsIndexed in
    labels-in_order (add_events sets events no_targets) _ (λ label m. sym (ix.known label) ∙ m) ix
    ∙ ordered
