-- ===== src/Examples/Streaming.antt =====
-- The store and the server on a blobstore in memory: streams of counting events.
use bepper.Base.{◌≡◌, ◌≢◌, eq_iff, refl, true, none, List, [], ◌∷◌, String}
use bepper.Base.Dict.{lookup, insert, delete}
use bepper.Blobstore.Memory.{memory, memory_laws, empty}
use bepper.Samples.{counting, count_json, count_json_laws}
use bepper.Store.{
  Store, new, append_event, append_line, writer_for, register, write_line, wrap, close_result,
  finalize, read_events, blob_name,
}
use bepper.Store.RoundTrip.{
  Op, append, finalize_op, Undisturbed, done, own, foreign, read_events-finalize, run,
}

abbrev build_ops : List Op
build_ops =
    append "a" (counting 1)
    ∷ append "b" (counting 7)
    ∷ finalize_op "b"
    ∷ append "a" (counting 2)
    ∷ []

b_is_not_a : ◌≢◌ {A = String} "b" "a"
b_is_not_a e = cc ((eq_iff "b" "a").1 e)

abbrev first_store : Store memory
first_store = new memory empty

abbrev second_store : Store memory
second_store = (append_event memory count_json "a" (counting 1) first_store).1

abbrev third_store : Store memory
third_store = (append_event memory count_json "b" (counting 7) second_store).1

abbrev fourth_store : Store memory
fourth_store = (finalize memory "b" third_store).1

build_ops-Undisturbed : Undisturbed memory count_json "a" build_ops first_store
unfolding new append_event append_line writer_for register write_line wrap finalize close_result
    lookup insert delete blob_name
build_ops-Undisturbed = own {s = first_store} (counting 1) refl (
    foreign {s = second_store} (append "b" (counting 7)) b_is_not_a (
      foreign {s = third_store} (finalize_op "b") b_is_not_a
        (own {s = fourth_store} (counting 2) refl done)))

read_events-finalize_example :
    (read_events memory count_json "a"
      (finalize memory "a" (run memory count_json build_ops (new memory empty))).1).0
    ≡ record { events = counting 1 ∷ counting 2 ∷ []; found = true; error = none }
unfolding run new append_event append_line writer_for register write_line wrap finalize close_result
    lookup insert delete blob_name
read_events-finalize_example =
    read_events-finalize memory memory_laws count_json count_json_laws "a" build_ops empty
      build_ops-Undisturbed (λ e. cc) refl
