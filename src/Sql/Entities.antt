-- ===== src/Sql/Entities.antt =====
-- app/adapter/outbound/mysql/entities.py: a row of each table. `created_at` of the tables other than
-- the rejections', which the server fills and nothing reads, is left out. An id that the server gives
-- is `none` before the row is written.
use pipeline_server.Prelude.{String, Bool, Option}
use pipeline_server.Prelude.Int.{ℤ}
use pipeline_server.Python.{Datetime}

pub record SelectionEntity (F : Type 0) : Type 0 where
  pub id : ℤ
  pub task_id : String
  pub recorded_at : Datetime
  pub temperature_celsius : F
  pub wiper_active : Bool
  pub wiper_level : Option ℤ
  pub headlights_on : Bool
  pub source_path : String

pub record OddTagEntity : Type 0 where
  pub id : ℤ
  pub task_id : String
  pub video_id : ℤ
  pub weather : String
  pub time_of_day : String
  pub road_surface : String

pub record LabelEntity (F : Type 0) : Type 0 where
  pub id : Option ℤ
  pub task_id : String
  pub video_id : ℤ
  pub object_class : String
  pub obj_count : ℤ
  pub avg_confidence : F
  pub labeled_at : Datetime

pub record RejectionEntity : Type 0 where
  pub id : Option ℤ
  pub task_id : String
  pub stage : String
  pub reason : String
  pub source_id : String
  pub field : String
  pub detail : String
  pub created_at : Option Datetime
