-- ===== src/Index/Indexer.antt =====
-- src/index/indexer.go: the interface `Indexer` and the options of its `List`. Its methods act on
-- the state of the index and may fail in any state.
use bepper.Base.{String, Option, List}
use bepper.Base.Int.{ℤ}
use bepper.Base.Result.{Result}
use bepper.Blobstore.{Error}
use bepper.Events.{Time}
use bepper.Index.Record.{Record}

pub record ListOptions : Type 0 where
  pub limit : ℤ
  pub query : String
  pub status : String
  pub before : Option Time
  pub since : Option Time
  pub until : Option Time

pub record Indexer : Type 1 where
  pub State : Type 0
  pub upsert : Record → State → Option Error × State
  pub get : String → State → Result Error (Option Record) × State
  pub list : ListOptions → State → Result Error (List Record) × State
