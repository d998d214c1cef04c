-- ===== src/Sql/Mappers/RoundTrip.antt =====
-- app/adapter/outbound/mysql/mappers.py: a record as a row, and the row read again.
use pipeline_server.Prelude.{str_eq, ◌≡◌, refl, sym, ap, ◌∙◌, false, Option, some, none, arith}
use pipeline_server.Prelude.Int.{ℤ, pos, leb_ℤ}
use pipeline_server.Result.{ok}
use pipeline_server.Domain.Enums.{
  StrEnum, weather_enum, time_of_day_enum, road_surface_enum, object_class_enum, stage_enum,
  rejection_reason_enum,
}
use pipeline_server.Domain.Enums.RoundTrip.{
  IsInverse, Weather-IsInverse, TimeOfDay-IsInverse, RoadSurface-IsInverse, ObjectClass-IsInverse,
  Stage-IsInverse, RejectionReason-IsInverse,
}
use pipeline_server.Domain.Values.{
  Temperature, Confidence, new_video_id, from_celsius, new_wiper_state, source_path_of,
  new_object_count, new_confidence,
}
use pipeline_server.Domain.Models.{Selection, OddTag, Label, Rejection, new_odd_tag, new_rejection}
use pipeline_server.Python.{
  Runtime, Datetime, Entries, find_key, Value, int, string, date, float, bool,
}
use pipeline_server.Sql.Entities.{SelectionEntity, OddTagEntity, LabelEntity}
use pipeline_server.Sql.Mappers.{
  int_or_null, column_enum, selection_to_dict, selection_to_entity, selection_to_domain,
  odd_tag_to_dict, odd_tag_to_domain, label_to_dict, label_to_entity, label_to_domain,
  odd_tag_to_entity, rejection_to_entity, rejection_to_domain,
}

-- What a column of the server keeps of a value: a DATETIME of a time (it has no fraction of a second),
-- and a Float of a number (it may be of single precision).
pub record Columns (F : Type 0) : Type 0 where
  pub kept_date : Datetime → Datetime
  pub kept_float : F → F

-- The row that an INSERT of a dict makes has in each column what it keeps of the entry of its name.
pub record IsSelectionRow {F : Type 0} (columns : Columns F) (d : Entries F) (e : SelectionEntity F)
    : Type 0 where
  pub id : find_key "id" d ≡ some (int e.id)
  pub task_id : find_key "task_id" d ≡ some (string e.task_id)
  pub recorded_at :
      (t : Datetime) × (find_key "recorded_at" d ≡ some (date t))
      × (e.recorded_at ≡ columns.kept_date t)
  pub temperature :
      (x : F) × (find_key "temperature_celsius" d ≡ some (float x))
      × (e.temperature_celsius ≡ columns.kept_float x)
  pub wiper_active : find_key "wiper_active" d ≡ some (bool e.wiper_active)
  pub wiper_level : find_key "wiper_level" d ≡ some (int_or_null e.wiper_level)
  pub headlights_on : find_key "headlights_on" d ≡ some (bool e.headlights_on)
  pub source_path : find_key "source_path" d ≡ some (string e.source_path)

-- The calls of the classes of the domain give the parts of a selection again, and this temperature of
-- what the column keeps of its own.
pub record IsSelection {F : Type 0} ⦃py : Runtime F⦄ (columns : Columns F) (s : Selection F)
    (t : Temperature F) : Type 0 where
  pub id : new_video_id s.id.value ≡ ok s.id
  pub temperature : from_celsius (columns.kept_float s.temperature.celsius) ≡ ok t
  pub wiper : new_wiper_state s.wiper.active s.wiper.level ≡ ok s.wiper
  pub source_path : source_path_of {F = F} (string s.source_path.value) ≡ ok s.source_path

same_level :
    {F : Type 0} (a b : Option ℤ)
    → ◌≡◌ {A = Option (Value F)} (some (int_or_null a)) (some (int_or_null b))
    → a ≡ b
same_level none none h = refl
same_level none (some b) h = cc
same_level (some a) none h = cc
same_level (some a) (some b) h = cc

same_date :
    {F : Type 0} (a b : Datetime)
    → ◌≡◌ {A = Option (Value F)} (some (date a)) (some (date b))
    → a ≡ b
same_date a b h = cc

same_float :
    {F : Type 0} (a b : F) → ◌≡◌ {A = Option (Value F)} (some (float a)) (some (float b)) → a ≡ b
same_float a b h = cc

module _ {F : Type 0} ⦃py : Runtime F⦄ (columns : Columns F) where
  open columns use {kept_date, kept_float}

  -- the entity of a selection, as the columns keep it
  abbrev kept_entity : Selection F → SelectionEntity F
  kept_entity s = record (selection_to_entity s) {
    recorded_at = kept_date s.recorded_at;
    temperature_celsius = kept_float s.temperature.celsius;
  }

  row-eq-entity :
      (s : Selection F) (e : SelectionEntity F)
      → IsSelectionRow columns (selection_to_dict s) e
      → e ≡ kept_entity s
  unfolding selection_to_dict selection_to_entity find_key
  row-eq-entity s e row =
      let level = same_level s.wiper.level e.wiper_level row.wiper_level in
      let (t, at, kept_t) = row.recorded_at in
      let (x, of_x, kept_x) = row.temperature in
      let date_eq : e.recorded_at ≡ kept_date s.recorded_at =
        kept_t ∙ ap kept_date (sym (same_date {F = F} s.recorded_at t at)) in
      let float_eq : e.temperature_celsius ≡ kept_float s.temperature.celsius =
        kept_x ∙ ap kept_float (sym (same_float s.temperature.celsius x of_x)) in
      ground (arith, level, date_eq, float_eq)

  -- The row that an INSERT of a selection's dict makes is read as that selection, with the time that
  -- its column keeps and with the temperature that the domain makes of what its column keeps, where
  -- the domain accepts that temperature and the selection's id, wiper and source path.
  pub selection_to_domain-to_dict :
      (s : Selection F) (e : SelectionEntity F) (t : Temperature F)
      → IsSelectionRow columns (selection_to_dict s) e
      → IsSelection columns s t
      → selection_to_domain e
        ≡ ok (record s { recorded_at = kept_date s.recorded_at; temperature = t })
  unfolding selection_to_domain selection_to_entity
  selection_to_domain-to_dict s e t row v =
      rw (row-eq-entity s e row, v.id, v.temperature, v.wiper, v.source_path)

column_enum-value :
    (F : Type 0) ⦃py : Runtime F⦄ {E : Type 0} (enum : StrEnum E)
    → IsInverse enum
    → (e : E) → column_enum F enum (enum.value e) ≡ ok e
unfolding column_enum
column_enum-value F enum inverse e = rw (inverse e)

pub record IsOddTagRow {F : Type 0} (d : Entries F) (e : OddTagEntity) : Type 0 where
  pub task_id : find_key "task_id" d ≡ some (string e.task_id)
  pub video_id : find_key "video_id" d ≡ some (int e.video_id)
  pub weather : find_key "weather" d ≡ some (string e.weather)
  pub time_of_day : find_key "time_of_day" d ≡ some (string e.time_of_day)
  pub road_surface : find_key "road_surface" d ≡ some (string e.road_surface)

odd_row-eq :
    (F : Type 0) (o : OddTag) (e : OddTagEntity)
    → IsOddTagRow (odd_tag_to_dict {F = F} o) e
    → e ≡ record (odd_tag_to_entity o) { id = e.id }
unfolding odd_tag_to_dict odd_tag_to_entity find_key
odd_row-eq F o e row = ground arith

-- An odd tag is read back from the row that an INSERT of its dict makes, with the id that the row
-- was given.
pub odd_tag_to_domain-to_dict :
    (F : Type 0) ⦃py : Runtime F⦄ (o : OddTag) (e : OddTagEntity)
    → IsOddTagRow (odd_tag_to_dict {F = F} o) e
    → new_video_id o.video_id.value ≡ ok o.video_id
    → leb_ℤ e.id (pos 0) ≡ false
    → odd_tag_to_domain F e ≡ ok (record o { id = e.id })
unfolding odd_tag_to_domain odd_tag_to_entity new_odd_tag
odd_tag_to_domain-to_dict F o e row v given =
    rw (odd_row-eq F o e row, v)
      (rw
        (
          column_enum-value F weather_enum Weather-IsInverse o.weather,
          column_enum-value F time_of_day_enum TimeOfDay-IsInverse o.time_of_day,
          column_enum-value F road_surface_enum RoadSurface-IsInverse o.road_surface,
          given,
        )
        refl)

pub record IsLabelRow {F : Type 0} (columns : Columns F) (d : Entries F) (e : LabelEntity F)
    : Type 0 where
  pub task_id : find_key "task_id" d ≡ some (string e.task_id)
  pub video_id : find_key "video_id" d ≡ some (int e.video_id)
  pub object_class : find_key "object_class" d ≡ some (string e.object_class)
  pub obj_count : find_key "obj_count" d ≡ some (int e.obj_count)
  pub avg_confidence :
      (x : F) × (find_key "avg_confidence" d ≡ some (float x))
      × (e.avg_confidence ≡ columns.kept_float x)
  pub labeled_at :
      (t : Datetime) × (find_key "labeled_at" d ≡ some (date t))
      × (e.labeled_at ≡ columns.kept_date t)

pub record IsLabel {F : Type 0} ⦃py : Runtime F⦄ (columns : Columns F) (lb : Label F)
    (confidence_kept : Confidence F) : Type 0 where
  pub video_id : new_video_id lb.video_id.value ≡ ok lb.video_id
  pub obj_count : new_object_count lb.obj_count.value ≡ ok lb.obj_count
  pub confidence : new_confidence (columns.kept_float lb.confidence.value) ≡ ok confidence_kept

module _ {F : Type 0} ⦃py : Runtime F⦄ (columns : Columns F) where
  open columns use {kept_date, kept_float}

  label_row-eq :
      (lb : Label F) (e : LabelEntity F)
      → IsLabelRow columns (label_to_dict lb) e
      → e ≡ record (label_to_entity lb) {
        id = e.id;
        avg_confidence = kept_float lb.confidence.value;
        labeled_at = kept_date lb.labeled_at;
      }
  unfolding label_to_dict label_to_entity find_key
  label_row-eq lb e row =
      let (x, of_x, kept_x) = row.avg_confidence in
      let (t, at, kept_t) = row.labeled_at in
      let date_eq : e.labeled_at ≡ kept_date lb.labeled_at =
        kept_t ∙ ap kept_date (sym (same_date {F = F} lb.labeled_at t at)) in
      let float_eq : e.avg_confidence ≡ kept_float lb.confidence.value =
        kept_x ∙ ap kept_float (sym (same_float lb.confidence.value x of_x)) in
      ground (arith, date_eq, float_eq)

  -- The same of a label, its time and its confidence.
  pub label_to_domain-to_dict :
      (lb : Label F) (e : LabelEntity F) (c : Confidence F)
      → IsLabelRow columns (label_to_dict lb) e
      → IsLabel columns lb c
      → label_to_domain e ≡ ok (record lb { confidence = c; labeled_at = kept_date lb.labeled_at })
  unfolding label_to_domain label_to_entity
  label_to_domain-to_dict lb e c row v =
      rw (label_row-eq lb e row, v.video_id, v.obj_count, v.confidence)
        (rw (column_enum-value F object_class_enum ObjectClass-IsInverse lb.object_class) refl)

-- Of a rejection whose source and detail are not empty, the row that is made of it in the session is
-- read as that rejection, whatever id it was given and whatever the clock shows.
pub rejection_to_domain-to_entity :
    (F : Type 0) ⦃py : Runtime F⦄ (r : Rejection) (id : Option ℤ) (now : Datetime)
    → str_eq r.source_id "" ≡ false
    → str_eq r.detail "" ≡ false
    → rejection_to_domain F (record (rejection_to_entity r) { id = id }) now ≡ ok r
unfolding rejection_to_domain rejection_to_entity new_rejection
rejection_to_domain-to_entity F r id now h k =
    rw
      (
        column_enum-value F stage_enum Stage-IsInverse r.stage,
        column_enum-value F rejection_reason_enum RejectionReason-IsInverse r.reason,
        h,
        k,
      )
      refl
