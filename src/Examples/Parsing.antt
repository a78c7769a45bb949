-- ===== src/Examples/Parsing.antt =====
-- A command line and the metadata of a build that both name the user.
use bepper.Base.{◌≡◌, refl, ℕ, arith, List, [], ◌∷◌, String}
use bepper.Base.Int.{pos}
use bepper.Base.Dict.{lookup}
use bepper.Events.{BuildEvent, EventId, Payload}
use bepper.Index.Parser.{EventParser, new_event_parser, parse_events, set_user}
use bepper.Index.Parser.Precedence.{
  Field, Write, view, rank, view-parse_events, last_highest_wins, outranked_events_change_nothing,
}
use bepper.Samples.{path_urls}
use bepper.Server.{new_record}

abbrev event : Payload → BuildEvent
event payload = record { id = EventId.other; children = []; payload = payload }

abbrev named_events : List BuildEvent
named_events =
    event (Payload.workspace_status (record { key = "BUILD_USER"; value = "root" } ∷ []))
    ∷ event (Payload.build_metadata (("USER", "alice") ∷ []))
    ∷ event (Payload.workspace_status (record { key = "BUILD_USER"; value = "ci" } ∷ []))
    ∷ []

abbrev named_items : List BuildEvent
named_items =
    event (Payload.workspace_status (record { key = "BUILD_USER"; value = "ci" } ∷ [])) ∷ []

abbrev parser : EventParser
parser = new_event_parser (new_record "a" (pos 0))

view-parse_events_example :
    view Field.user (parse_events path_urls parser named_events)
    ≡ record { priority = 4; value = "alice" ∷ [] }
unfolding new_event_parser lookup
view-parse_events_example = view-parse_events Field.user path_urls named_events parser

abbrev write_user : ℕ → String → Write
write_user n value = record { field = Field.user; value = value ∷ []; priority = n }

last_highest_wins_example :
    view Field.user (parse_events path_urls parser named_events)
    ≡ record { priority = 4; value = "alice" ∷ [] }
unfolding lookup
last_highest_wins_example =
    last_highest_wins path_urls Field.user (new_record "a" (pos 0)) named_events
      (write_user 3 "root" ∷ []) (write_user 4 "alice") (write_user 3 "ci" ∷ []) refl refl
      (λ e. omega arith, tt) (λ e. omega arith, tt)

outranked_events_change_nothing_example :
    view Field.user (parse_events path_urls (set_user "alice" 4 parser) named_items)
    ≡ record { priority = 4; value = "alice" ∷ [] }
unfolding rank new_event_parser set_user
outranked_events_change_nothing_example =
    outranked_events_change_nothing path_urls Field.user (set_user "alice" 4 parser) named_items
      (omega arith, tt)
