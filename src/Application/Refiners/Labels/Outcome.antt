-- ===== src/Application/Refiners/Labels/Outcome.antt =====
-- What the refinement of a label's row gives, and when it raises.
use Prim.Native.String.{◌++◌ as str_append}
use pipeline_server.Prelude.Int.{str_int}
use pipeline_server.Prelude.{
  String, ◌≡◌, refl, Bool, true, false, not, ◌&&◌, ◌||◌, ◌⊎◌, inl, inr, if◌then◌else◌,
}
use pipeline_server.Prelude.Int.{ℤ, pos, leb_ℤ, ltb_ℤ}
use pipeline_server.Result.{Result, ok, err, ◌>>=◌}
use pipeline_server.Domain.Errors.{Exc, domain, invalid_format_error}
use pipeline_server.Domain.Enums.{ObjectClass, object_class_enum}
use pipeline_server.Domain.Values.{
  VideoId, new_video_id, ObjectCount, new_object_count, Confidence, new_confidence,
}
use pipeline_server.Domain.Models.{Rejection, Label}
use pipeline_server.Python.{item, to_int, to_float, int_of_float, Value, Entries, Runtime, Datetime}
use pipeline_server.Application.Refiners.{
  Parsed, Collected, complete, refuse, parse, Place, is_bad_field,
}
use pipeline_server.Application.Refiners.Labels.{
  is_bad_count, label_place, label_video_id, parse_label_video_id, count_of, parse_obj_count,
  parse_confidence, counted, raw_count, whole_count, label_from, refine_label_row,
}
use pipeline_server.Application.Refiners.Outcomes.{
  Belongs, Outcome, Field, value, Fields, values, refusals, Gives, gives, Gives-bind, anything,
  IsRefusalError, is_field_error, bad_field-is_field_error, Yields, yields, fails, Yields-bind,
  Yields-raise_if, Gives-raise_if, reject-Belongs, refuse-Field, refuse_if-Field, parse-Field,
  collect_first-Fields, collect-Fields, new_video_id-positive, parse_enum-Field,
  parse_datetime-Field,
}

-- A confidence from 0 to 1.
abbrev pub InRange : {F : Type 0} ⦃py : Runtime F⦄ → Confidence F → Type 0
InRange ⦃py = py⦄ c =
    (py.le (py.hundredths (pos 0)) c.value ≡ true)
    × (py.le c.value (py.hundredths (pos 100)) ≡ true)

-- What the domain asks of a label.
abbrev pub IsLabelOf : {F : Type 0} ⦃py : Runtime F⦄ → String → Label F → Type 0
IsLabelOf task_id label =
    (label.task_id ≡ task_id)
    × (leb_ℤ label.video_id.value (pos 0) ≡ false)
    × (ltb_ℤ label.obj_count.value (pos 0) ≡ false)
    × InRange label.confidence

-- What a row may raise: what is no ValueError, KeyError or TypeError, or what `int` raises of the
-- number of objects.
abbrev pub LabelEscapes : (F : Type 0) ⦃py : Runtime F⦄ → Exc → Type 0
LabelEscapes F e = (is_field_error e ≡ false) ⊎ ((raw : F) × (int_of_float raw ≡ err e))

both : (a b : Bool) → not (a && b) ≡ false → (a ≡ true) × (b ≡ true)
both true true h = (refl, refl)
both true false h = cc
both false b h = cc

module _ {F : Type 0} ⦃py : Runtime F⦄ (task_id : String) (row : Entries F) (t : Datetime) where
  abbrev place : Place
  place = label_place task_id row t

  abbrev E : Exc → Type 0
  E = LabelEscapes F

  of_refusal : (e : Exc) → IsRefusalError e → E e
  of_refusal e (inl h) = inl (rw h refl)
  of_refusal e (inr h) = inl (rw h refl)

  uncaught : (e : Exc) → is_bad_field e ≡ false → E e
  uncaught e h = inl (bad_field-is_field_error e h)

  label_video_id-positive :
      Gives (λ v. leb_ℤ v.value (pos 0) ≡ false) (label_video_id task_id row t)
  unfolding label_video_id
  label_video_id-positive =
      Gives-bind _ (anything (item row "video_id"))
        λ v _. Gives-bind new_video_id (anything (to_int v)) (λ n _. new_video_id-positive n)

  parse_label_video_id-Field :
      Yields E
        (Field place (λ v. leb_ℤ v.value (pos 0) ≡ false))
        (parse_label_video_id task_id row t)
  unfolding parse_label_video_id
  parse_label_video_id-Field =
      parse-Field E of_refusal place is_bad_field uncaught label_video_id-positive
        (reject-Belongs E of_refusal place "video_id" _ _)

  abbrev IsCount : ObjectCount → Type 0
  IsCount c = ltb_ℤ c.value (pos 0) ≡ false

  -- a count below 0 is the one that is refused
  new_object_count-IsCount :
      (n : ℤ) → Yields (λ e. is_bad_count e ≡ true) IsCount (new_object_count n)
  unfolding new_object_count
  new_object_count-IsCount n = Yields-raise_if (ltb_ℤ n (pos 0)) _ refl (λ h. yields h)

  counted-Field :
      {r : Result ObjectCount}
      → Yields (λ e. is_bad_count e ≡ true) IsCount r
      → Yields E (Field place IsCount) (counted task_id row t r)
  counted-Field (yields p) = yields (value p)
  counted-Field (fails {e = e} h) =
      refuse_if-Field E of_refusal place (is_bad_count e) e (λ k. cc)
        (reject-Belongs E of_refusal place "obj_count" _ _)

  int_of_float-fails : (raw : F) → Yields E (λ _. Unit) (int_of_float raw)
  int_of_float-fails raw = by_result (int_of_float raw) refl
    where
      by_result : (r : Result ℤ) → int_of_float raw ≡ r → Yields E (λ _. Unit) r
      by_result (ok n) h = yields tt
      by_result (err e) h = fails (inr (raw, h))

  whole_or_refused :
      (whole : Bool) {yes : Result (Parsed ObjectCount)} {no : Result Rejection}
      → Yields E (Field place IsCount) yes
      → Yields E (Belongs place) no
      → Yields E (Field place IsCount) (if whole then yes else refuse no)
  whole_or_refused true y n = y
  whole_or_refused false y n = refuse-Field E of_refusal place n

  count_of-Field : (raw : F) → Yields E (Field place IsCount) (count_of task_id row t raw)
  unfolding count_of
  count_of-Field raw = Yields-bind (whole_count task_id row t raw) (int_of_float-fails raw) λ n _.
      whole_or_refused (py.equals_int raw n) (counted-Field (new_object_count-IsCount n))
        (reject-Belongs E of_refusal place "obj_count" _ _)

  raw_count-Field : (r : Result F) → Yields E (Field place IsCount) (raw_count task_id row t r)
  raw_count-Field (ok raw) = count_of-Field raw
  raw_count-Field (err e) =
      refuse_if-Field E of_refusal place (is_bad_field e) e (uncaught e)
        (reject-Belongs E of_refusal place "obj_count" _ _)

  parse_obj_count-Field : Yields E (Field place IsCount) (parse_obj_count task_id row t)
  unfolding parse_obj_count
  parse_obj_count-Field = raw_count-Field (item row "obj_count" >>= to_float)

  new_confidence-InRange : (x : F) → Gives InRange (new_confidence x)
  unfolding new_confidence
  new_confidence-InRange x = Gives-raise_if (py.is_nan x || py.is_inf x) _ λ _.
      Gives-raise_if {Q = InRange}
        (not (py.le (py.hundredths (pos 0)) x && py.le x (py.hundredths (pos 100)))) _
        (λ h. gives (both _ _ h))

  parse_confidence-Field : Yields E (Field place InRange) (parse_confidence task_id row t)
  unfolding parse_confidence
  parse_confidence-Field =
      parse-Field E of_refusal place is_bad_field uncaught
        (Gives-bind _ (anything (item row "avg_confidence" >>= to_float))
          λ x _. new_confidence-InRange x)
        (reject-Belongs E of_refusal place "avg_confidence" _ _)

  label_from-Outcome :
      {c : Collected ((((VideoId × ObjectClass) × ObjectCount) × Confidence F) × Datetime)}
      → Fields place
          (λ x.
            ((((leb_ℤ x.0.0.0.0.value (pos 0) ≡ false) × Unit {0}) × IsCount x.0.0.1)
              × InRange x.0.1)
            × Unit {0})
          c
      → Outcome place (IsLabelOf task_id) (label_from task_id row t c)
  label_from-Outcome (refusals hs) = (λ e. cc, hs)
  label_from-Outcome {c = complete ((((v, o), n), c), l)} (values p) =
      (refl, p.0.0.0.0, p.0.0.1, p.0.1)

  refined_row : Yields E (Outcome place (IsLabelOf task_id)) (refine_label_row task_id row t)
  unfolding refine_label_row
  refined_row = Yields-bind _ parse_label_video_id-Field λ a ha.
      Yields-bind _
        (parse_enum-Field E of_refusal uncaught place row object_class_enum "object_class")
        λ b hb. Yields-bind _ parse_obj_count-Field λ c hc.
          Yields-bind _ parse_confidence-Field λ d hd.
            Yields-bind _ (parse_datetime-Field E of_refusal uncaught place row "labeled_at")
              λ e he. yields (
                label_from-Outcome (
                  collect-Fields place
                    (collect-Fields place
                      (collect-Fields place
                        (collect-Fields place (collect_first-Fields place ha) hb) hc)
                      hd)
                    he))

-- Every row gives a label of the task with a positive video id, a number of objects that is not
-- negative and a confidence from 0 to 1, or a list of rejections that is not empty, all of the task,
-- the stage and the source id of the row, or else raises an exception: one that is no ValueError,
-- KeyError or TypeError, or one that `int` raises of a float.
pub refine_label_row-Outcome :
    {F : Type 0} ⦃py : Runtime F⦄ (task_id : String) (row : Entries F) (t : Datetime)
    → Yields
        (LabelEscapes F)
        (Outcome (label_place task_id row t) (IsLabelOf task_id))
        (refine_label_row task_id row t)
refine_label_row-Outcome task_id row t = refined_row task_id row t

-- A row whose video id is an integer that is not positive gives neither a label nor rejections: the
-- refinement raises the error of `VideoId`.
pub refine_label_row-raises :
    {F : Type 0} ⦃py : Runtime F⦄ (task_id : String) (row : Entries F) (t : Datetime) (v : Value F)
    (n : ℤ)
    → item row "video_id" ≡ ok v
    → to_int v ≡ ok n
    → leb_ℤ n (pos 0) ≡ true
    → refine_label_row task_id row t
      ≡ err (domain invalid_format_error (str_append "VideoId는 양수여야 합니다: " (str_int n)))
unfolding refine_label_row parse_label_video_id label_video_id parse new_video_id
refine_label_row-raises task_id row t v n found number low = rw (found, number, low)
