-- ===== src/Index/Parser/Precedence/Winner.antt =====
-- Which write a field ends with.
use mathlib.Core.List.{foldl-append}
use bepper.Base.{ℕ, true, ◌≡◌, refl, ◌∙◌, ap, ◌≤◌, ◌<◌, List, [], ◌∷◌, ◌++◌, arith, All}
use bepper.Base.Text.{split}
use bepper.Events.{BuildEvent}
use bepper.Index.GitUrl.{UrlPackage}
use bepper.Index.Record.{Record}
use bepper.Index.Parser.Setters.{new_event_parser}
use bepper.Index.Parser.Sources.{parse_events}
use bepper.Index.Parser.Precedence.Writes.{
  Field, View, view, Write, apply, apply_all, same, writes_of_events,
}
use bepper.Index.Parser.Precedence.Refinement.{view-parse_events}

-- A write to the field has a priority below `n`; of at most `n`.
abbrev pub Below : Field → ℕ → Write → Type 0
Below f n w = same f w.field ≡ true → w.priority < n

abbrev pub AtMost : Field → ℕ → Write → Type 0
AtMost f n w = same f w.field ≡ true → w.priority ≤ n

apply-Below : (f : Field) (v : View) (w : Write) → Below f v.priority w → apply f v w ≡ v
apply-Below f v w h = ground arith

pub apply_all-Below :
    (f : Field) (v : View) (ws : List Write) → All (Below f v.priority) ws → apply_all f v ws ≡ v
apply_all-Below f v [] h = refl
apply_all-Below f v (w ∷ ws) (b, h) = rw (apply-Below f v w b) (apply_all-Below f v ws h)

apply-AtMost :
    (f : Field) (v : View) (w : Write) (n : ℕ)
    → v.priority ≤ n
    → AtMost f n w
    → (apply f v w).priority ≤ n
apply-AtMost f v w n h k = ground arith

apply_all-AtMost :
    (f : Field) (v : View) (ws : List Write) (n : ℕ)
    → v.priority ≤ n
    → All (AtMost f n) ws
    → (apply_all f v ws).priority ≤ n
apply_all-AtMost f v [] n h k = h
apply_all-AtMost f v (w ∷ ws) n h (a, k) =
    apply_all-AtMost f (apply f v w) ws n (apply-AtMost f v w n h a) k

apply-wins :
    (f : Field) (v : View) (w : Write)
    → same f w.field ≡ true
    → v.priority ≤ w.priority
    → apply f v w ≡ record { priority = w.priority; value = w.value }
apply-wins f v w e h = ground arith

apply_all-wins :
    (f : Field) (v : View) (us : List Write) (w : Write) (vs : List Write)
    → same f w.field ≡ true
    → v.priority ≤ w.priority
    → All (AtMost f w.priority) us
    → All (Below f w.priority) vs
    → apply_all f v (us ++ w ∷ vs) ≡ record { priority = w.priority; value = w.value }
apply_all-wins f v us w vs e low before after =
    foldl-append (apply f) v us (w ∷ vs)
    ∙ ap (λ x. apply_all f x vs)
        (apply-wins f (apply_all f v us) w e (apply_all-AtMost f v us w.priority low before))
    ∙ apply_all-Below f (record { priority = w.priority; value = w.value }) vs after

new_event_parser-low : (f : Field) (r : Record) (n : ℕ) → (view f (new_event_parser r)).priority ≤ n
unfolding new_event_parser
new_event_parser-low f r n = ground arith

-- A fresh parser ends with the last write of the highest priority: where the stream's writes are
-- `us`, then `w` to the field `f`, then `vs`, no write to `f` in `us` has a higher priority than
-- `w`, and every one in `vs` has a lower one, the field has the value and the priority of `w`.
pub last_highest_wins :
    (urls : UrlPackage) (f : Field) (r : Record) (events : List BuildEvent) (us : List Write)
    (w : Write) (vs : List Write)
    → writes_of_events urls events ≡ us ++ w ∷ vs
    → same f w.field ≡ true
    → All (AtMost f w.priority) us
    → All (Below f w.priority) vs
    → view f (parse_events urls (new_event_parser r) events)
      ≡ record { priority = w.priority; value = w.value }
last_highest_wins urls f r events us w vs split e before after =
    view-parse_events f urls events (new_event_parser r)
    ∙ ap (apply_all f (view f (new_event_parser r))) split
    ∙ apply_all-wins f (view f (new_event_parser r)) us w vs e (new_event_parser-low f r w.priority)
        before after
