-- ===== src/Postgres/Selects.antt =====
-- Which rows `List` of src/index/postgres/postgres.go gives, and in which order.
use bepper.Base.{String, ◌≡◌, Bool, List}
use bepper.Base.Text.{◌⧺◌, Avoids}
use bepper.Postgres.Semantics.{holds}

-- Without the wildcards of ILIKE and their escape.
abbrev pub Plain : String → Type 0
Plain sought = Avoids b'%' sought × Avoids b'_' sought × Avoids b'\\' sought

module _ (ilike : (column sought : String) → Bool) where
  -- A pattern of a text without wildcards between two percent signs matches the columns that contain
  -- the text, whatever the case of the letters.
  abbrev pub LikeHolds : (String → String) → Type 0
  LikeHolds fold_case =
      (column sought : String)
      → Plain sought
      → ilike column ("%" ⧺ sought ⧺ "%") ≡ holds fold_case column sought
