-- ===== src/Postgres/Rows.antt =====
-- Records that are written to the table of src/index/postgres/postgres.go and read back.
use Prim.Native.String.append
use Prim.Native.String.{[], ◌∷◌}
use bepper.Base.{
  String, ◌≡◌, ◌≢◌, refl, sym, ap, ◌∙◌, Option, none, some, ◌==◌, eq_iff, if◌then◌else◌, All,
  Bool-cases, inl, inr,
}
use bepper.Base.Dict.{lookup, lookup-insert}
use bepper.Base.Result.{ok}
use bepper.Base.Text.{◌⧺◌, join, split, Avoids, not_empty}
use bepper.Index.Record.{Record}
use bepper.Postgres.{
  timestamptz, Row, Table, list_separator, row_of, record_of, split_list, on_conflict, upsert,
  scanned, get,
}
use mathlib.Core.List.{List}

separator-append : (t : String) → list_separator ⧺ t ≡ "\u{1f}" ∷ t
separator-append t = append.cons "\u{1f}" [] t ∙ ap (λ s. "\u{1f}" ∷ s) (append.nil t)

split-append :
    (w t : String)
    → Avoids b'\x1f' w
    → split b'\x1f' (w ⧺ ("\u{1f}" ∷ t)) ≡ List.◌∷◌ w (split b'\x1f' t)
unfolding split
split-append [] t avoids = rw (append.nil ("\u{1f}" ∷ t)) refl
split-append (d ∷ w) t (other, avoids) =
    rw (append.cons d w ("\u{1f}" ∷ t), other, split-append w t avoids) refl

split-whole : (w : String) → Avoids b'\x1f' w → split b'\x1f' w ≡ List.◌∷◌ w List.[]
unfolding split
split-whole [] avoids = refl
split-whole (d ∷ w) (other, avoids) = rw (other, split-whole w avoids) refl

split-join :
    (w : String) (ws : List String)
    → Avoids b'\x1f' w
    → All (Avoids b'\x1f') ws
    → split b'\x1f' (join list_separator (List.◌∷◌ w ws)) ≡ List.◌∷◌ w ws
unfolding join
split-join w List.[] first rest = split-whole w first
split-join w (List.◌∷◌ v ws) first (second, rest) =
    ap (λ t. split b'\x1f' (w ⧺ t)) (separator-append (join list_separator (List.◌∷◌ v ws)))
    ∙ split-append w (join list_separator (List.◌∷◌ v ws)) first
    ∙ ap (List.◌∷◌ w) (split-join v ws second rest)

-- No item has the separator, and the list is not the one whose only item is empty.
abbrev pub Storable : List String → Type 0
Storable items = All (Avoids b'\x1f') items × (items ≢ List.◌∷◌ "" List.[])

separated_not_empty : (w t : String) → (w ⧺ ("\u{1f}" ∷ t)) ≢ ""
separated_not_empty [] t e = cc (append.nil ("\u{1f}" ∷ t), e)
separated_not_empty (c ∷ w) t e = cc (append.cons c w ("\u{1f}" ∷ t), e)

join_not_empty :
    (w : String) (ws : List String)
    → (List.◌∷◌ w ws ≢ List.◌∷◌ "" List.[])
    → join list_separator (List.◌∷◌ w ws) ≢ ""
unfolding join
join_not_empty [] List.[] h e = h refl
join_not_empty (c ∷ w) List.[] h e = cc
join_not_empty w (List.◌∷◌ v ws) h e =
    separated_not_empty w (join list_separator (List.◌∷◌ v ws))
      (sym (ap (λ t. w ⧺ t) (separator-append (join list_separator (List.◌∷◌ v ws)))) ∙ e)

split_list-join :
    (items : List String) → Storable items → split_list (join list_separator items) ≡ items
unfolding split_list join
split_list-join List.[] storable = refl
split_list-join (List.◌∷◌ w ws) ((first, rest), other) =
    rw (not_empty (join list_separator (List.◌∷◌ w ws)) (join_not_empty w ws other))
      (split-join w ws first rest)

-- A record as the table has it: with times of whole microseconds.
abbrev pub stored : Record → Record
stored rec = record rec {
  created_at = timestamptz rec.created_at;
  updated_at = timestamptz rec.updated_at;
}

record_of-row :
    (rec : Record) → Storable rec.pattern → Storable rec.tags → record_of (row_of rec) ≡ stored rec
unfolding record_of row_of
record_of-row rec patterns tags =
    rw (split_list-join rec.pattern patterns, split_list-join rec.tags tags) refl

-- What is there before an upsert decides the time of creation.
abbrev pub first_created : Record → Option Record → Record
first_created rec none = rec
first_created rec (some old) = record rec { created_at = old.created_at }

scanned-on_conflict :
    (rec : Record) (old : Option Row)
    → Storable rec.pattern
    → Storable rec.tags
    → record_of (on_conflict old (row_of rec)) ≡ first_created (stored rec) (scanned old)
unfolding on_conflict scanned record_of row_of
scanned-on_conflict rec none patterns tags = record_of-row rec patterns tags
scanned-on_conflict rec (some old) patterns tags =
    ap {A = Record} (λ r. record r { created_at = old.created_at })
      (record_of-row rec patterns tags)

scanned-row :
    (rec : Record) (old : Option Row)
    → Storable rec.pattern
    → Storable rec.tags
    → scanned (some (on_conflict old (row_of rec)))
      ≡ some (first_created (stored rec) (scanned old))
unfolding scanned
scanned-row rec old patterns tags = ap some (scanned-on_conflict rec old patterns tags)

module _ (quote : String → String) where
  -- After an upsert, the index has the new record under its id, its times in whole microseconds, with
  -- the time of creation that the id had before, if any; every other id has what it had. The lists of
  -- the record must be storable.
  pub get-upsert :
      (rec : Record) (id : String) (table : Table)
      → Storable rec.pattern
      → Storable rec.tags
      → get quote none id (upsert quote none rec table).1 ≡ (
          if rec.invocation_id == id
          then ok (some (first_created (stored rec) (scanned (lookup id table))))
          else get quote none id table)
  unfolding get upsert
  get-upsert rec id table patterns tags =
      let row = on_conflict (lookup rec.invocation_id table) (row_of rec) in
      elim (Bool-cases (rec.invocation_id == id)) [
        | inl same ↦
            rw
              (
                lookup-insert rec.invocation_id id row table,
                same,
                ← (eq_iff rec.invocation_id id).0 same,
              )
              (ap ok (scanned-row rec (lookup rec.invocation_id table) patterns tags))
        | inr other ↦ rw (lookup-insert rec.invocation_id id row table, other) refl
      ]
