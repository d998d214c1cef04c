-- ===== src/Application/Refiners/Outcomes.antt =====
-- What the refinement of a row gives, if it gives something: an item that satisfies the rules of
-- the domain, or rejections that belong to the row.
pub use pipeline_server.Result.Gives.{
  Gives, gives, raises, Gives-OnOk, Gives-bind, anything, Gives-raise_if, Yields, yields, fails,
  Yields-bind, Yields-raise_if,
}
use pipeline_server.Prelude.{
  str_eq, String, ◌≡◌, ◌≢◌, refl, ◌⊎◌, inl, inr, Bool, true, false, Option, some, none, List, [],
  ◌∷◌, All, All-append, if◌then◌else◌,
}
use pipeline_server.Prelude.Int.{ℤ, pos, leb_ℤ}
use pipeline_server.Result.{Result, ok, err}
use pipeline_server.Domain.Errors.{
  Exc, domain, builtin, external, invalid_format_error, value_error, key_error, type_error,
  attribute_error, overflow_error,
}
use pipeline_server.Domain.Enums.{StrEnum, RejectionReason}
use pipeline_server.Domain.Values.{new_video_id}
use pipeline_server.Domain.Models.{Rejection, new_rejection}
use pipeline_server.Python.{item, Value, Entries, Runtime, find_key}
use pipeline_server.Application.Phases.{Refined, all_rejected, rejected, refined}
use pipeline_server.Application.Refiners.{
  Parsed, parsed, refused, Collected, complete, incomplete, collect_first, collect, refuse, parse,
  Place, reject, parse_enum, parse_datetime, enum_of, parsed_enum, looked_up, is_bad_field,
}

-- A rejection of this row.
pub record Belongs (place : Place) (r : Rejection) : Type 0 where
  pub task_id : r.task_id ≡ place.task_id
  pub stage : r.stage ≡ place.stage
  pub source_id : r.source_id ≡ place.source_id

abbrev pub Outcome : {Item : Type 0} → Place → (Item → Type 0) → Refined Item → Type 0
Outcome place P (refined item) = P item
Outcome place P (rejected r) = Belongs place r
Outcome place P (all_rejected rs) = (rs ≢ []) × All (Belongs place) rs

pub data Field {A : Type 0} (place : Place) (P : A → Type 0) : Parsed A → Type 0 where
  value : {a : A} → P a → Field place P (parsed a)
  refusal : {r : Rejection} → Belongs place r → Field place P (refused r)

pub data Fields {A : Type 0} (place : Place) (P : A → Type 0) : Collected A → Type 0 where
  values : {a : A} → P a → Fields place P (complete a)
  refusals :
      {r : Rejection} {rs : List Rejection}
      → All (Belongs place) (r ∷ rs)
      → Fields place P (incomplete (r ∷ rs))

-- The errors of `Rejection` itself.
abbrev pub IsRefusalError : Exc → Type 0
IsRefusalError e =
    (e ≡ domain invalid_format_error "source_id는 비어있을 수 없습니다")
    ⊎ (e ≡ domain invalid_format_error "detail은 비어있을 수 없습니다")

-- `E` is what may escape a refiner: the errors of `Rejection`, and others.
module _ (E : Exc → Type 0) (of_refusal : (e : Exc) → IsRefusalError e → E e) (place : Place) where
  pub reject-Belongs :
      (field : String) (reason : RejectionReason) (detail : String)
      → Yields E (Belongs place) (reject place field reason detail)
  unfolding reject new_rejection
  reject-Belongs field reason detail =
      Yields-raise_if (str_eq place.source_id "") _ (of_refusal _ (inl refl)) λ _.
        Yields-raise_if (str_eq detail "") _ (of_refusal _ (inr refl))
          λ _. yields (record { task_id = refl; stage = refl; source_id = refl })

  module _ {A : Type 0} {P : A → Type 0} where
    pub refuse-Field :
        {r : Result Rejection} → Yields E (Belongs place) r → Yields E (Field place P) (refuse r)
    refuse-Field (yields h) = yields (refusal h)
    refuse-Field (fails q) = fails q

    pub refuse_if-Field :
        (b : Bool) {r : Result Rejection} (e : Exc)
        → (b ≡ false → E e)
        → Yields E (Belongs place) r
        → Yields E (Field place P) (if b then refuse r else err e)
    refuse_if-Field true e q h = refuse-Field h
    refuse_if-Field false e q h = fails (q refl)

    pub parse-Field :
        {m : Result A} (catches : Exc → Bool) {rejection : Result Rejection}
        → ((e : Exc) → catches e ≡ false → E e)
        → Gives P m
        → Yields E (Belongs place) rejection
        → Yields E (Field place P) (parse m catches rejection)
    unfolding parse
    parse-Field catches q (gives p) h = yields (value p)
    parse-Field catches q raises h = refuse_if-Field _ _ (q _) h

module _ (place : Place) where
  module _ {A : Type 0} {P : A → Type 0} where
    pub collect_first-Fields : {a : Parsed A} → Field place P a → Fields place P (collect_first a)
    collect_first-Fields (value p) = values p
    collect_first-Fields (refusal h) = refusals (h, tt)

    pub collect-Fields :
        {B : Type 0} {Q : B → Type 0} {a : Collected A} {b : Parsed B}
        → Fields place P a
        → Field place Q b
        → Fields place (λ ab. P ab.0 × Q ab.1) (collect a b)
    collect-Fields (values p) (value q) = values (p, q)
    collect-Fields (values p) (refusal h) = refusals (h, tt)
    collect-Fields (refusals hs) (value q) = refusals hs
    collect-Fields (refusals hs) (refusal h) =
        refusals (hs.0, All-append (Belongs place) _ _ hs.1 (h, tt))

-- `ValueError`, `KeyError` and `TypeError`: what a refiner turns into rejections.
abbrev pub is_field_error : Exc → Bool
is_field_error (builtin value_error message) = true
is_field_error (builtin key_error message) = true
is_field_error (builtin type_error message) = true
is_field_error _ = false

pub bad_field-is_field_error : (e : Exc) → is_bad_field e ≡ false → is_field_error e ≡ false
bad_field-is_field_error (builtin value_error message) h = h
bad_field-is_field_error (builtin key_error message) h = h
bad_field-is_field_error (builtin type_error message) h = h
bad_field-is_field_error (builtin attribute_error message) h = refl
bad_field-is_field_error (builtin overflow_error message) h = refl
bad_field-is_field_error (domain c message) h = refl
bad_field-is_field_error (external message) h = refl

pub new_video_id-positive : (n : ℤ) → Gives (λ v. leb_ℤ v.value (pos 0) ≡ false) (new_video_id n)
unfolding new_video_id
new_video_id-positive n = Gives-raise_if (leb_ℤ n (pos 0)) _ (λ h. gives h)

module _ {F : Type 0} ⦃py : Runtime F⦄ (E : Exc → Type 0)
    (of_refusal : (e : Exc) → IsRefusalError e → E e)
    (uncaught : (e : Exc) → is_bad_field e ≡ false → E e) (place : Place) (row : Entries F) where
  pub parsed_enum-Field :
      {X : Type 0} (field : String) (r : Result X)
      → Yields E (Field place (λ _. Unit)) (parsed_enum place row field r)
  parsed_enum-Field field (ok e) = yields (value tt)
  parsed_enum-Field field (err e) =
      refuse_if-Field E of_refusal place (is_bad_field e) e (uncaught e)
        (reject-Belongs E of_refusal place field _ _)

  pub looked_up-Field :
      {X : Type 0} (enum : StrEnum X) (field : String) (o : Option (Value F))
      → Yields E (Field place (λ _. Unit)) (looked_up place row enum field o)
  looked_up-Field enum field none =
      refuse-Field E of_refusal place (reject-Belongs E of_refusal place field _ _)
  looked_up-Field enum field (some v) = parsed_enum-Field field (enum_of enum v)

  pub parse_enum-Field :
      {X : Type 0} (enum : StrEnum X) (field : String)
      → Yields E (Field place (λ _. Unit)) (parse_enum place row enum field)
  unfolding parse_enum
  parse_enum-Field enum field = looked_up-Field enum field (find_key field row)

  pub parse_datetime-Field :
      (field : String) → Yields E (Field place (λ _. Unit)) (parse_datetime place row field)
  unfolding parse_datetime
  parse_datetime-Field field =
      parse-Field E of_refusal place is_bad_field uncaught (anything _)
        (reject-Belongs E of_refusal place field _ _)
