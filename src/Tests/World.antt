-- ===== src/Tests/World.antt =====
-- A small world to run the program in: floats that are hundredths, a collection with room for one
-- document, a clock that goes forward at each reading, and a broker that is up or down.
use pipeline_server.Prelude.{
  ℕ, zero, suc, ◌+◌, ◌≤◌, ◌<◌, String, ◌≡◌, refl, ◌⊎◌, Bool, true, false, ◌&&◌, Option, some, none,
  List, [], ◌∷◌, All, length, arith, str_eq, eq_iff, eq_refl, Bool-cases, inl, inr, subst,
  if◌then◌else◌,
}
use pipeline_server.Prelude.Int.{pos, ℤ, ltb_ℤ, leb_ℤ, str_int, ◌-ℤ◌, ◌*ℤ◌}
use pipeline_server.Result.{Result, ok, err}
use pipeline_server.Domain.Errors.{external}
use pipeline_server.Domain.Ports.{TaskDispatcher, Clock}
use pipeline_server.Python.{string, int, Value, Runtime, Entries}
use pipeline_server.Mongo.Driver.{Collection, id_of, IfFound}

abbrev pub shown : Value ℤ → String
shown (string s) = s
shown (int n) = str_int n
shown _ = "value"

-- Floats as whole hundredths. Of texts, one integer and one date are read.
abbrev pub hundredths_runtime : Runtime ℤ
hundredths_runtime = record {
  str = shown;
  message = λ b v. "fault";
  parse_int = λ s. if str_eq s "7" then some (pos 7) else none;
  parse_float = λ s. none;
  float_of_int = λ n. some n;
  truncate = λ x. x;
  is_nan = λ x. false;
  is_inf = λ x. false;
  lt = ltb_ℤ;
  le = leb_ℤ;
  hundredths = λ n. n;
  equals_int = λ x n. leb_ℤ x n && leb_ℤ n x;
  minus = ◌-ℤ◌;
  times = ◌*ℤ◌;
  divided = λ x y. x;
  int_ratio = λ a b. a;
  round_1 = λ x. x;
  round_2 = λ x. x;
  from_iso = λ s. if str_eq s "2024-01-01" then some 5 else none;
}

pub record World : Type 0 where
  pub slot : Option (Entries ℤ)
  pub time : ℕ
  pub sent : List String
  pub broker_up : Bool

abbrev pub document_in : Option (Entries ℤ) → String → Option (Entries ℤ)
document_in none k = none
document_in (some d) k = if str_eq (id_of d) k then some d else none

-- What a write makes of the slot: the id of a document may not change, and there is room for one.
abbrev pub replace_in :
    Option (Entries ℤ)
    → String
    → (Entries ℤ → Bool)
    → Entries ℤ
    → Bool
    → Result ℕ × Option (Entries ℤ)
replace_in none id test doc upsert =
    if str_eq (id_of doc) id
    then (if upsert then (ok 0, some doc) else (ok 0, none))
    else (err (external "WriteError"), none)
replace_in (some d) id test doc upsert =
    if str_eq (id_of doc) id
    then (if str_eq (id_of d) id
        then (if test d
            then (ok 1, some doc)
            else if upsert
            then (err (external "DuplicateKeyError"), some d)
            else (ok 0, some d))
        else if upsert
        then (err (external "no room"), some d)
        else (ok 0, some d))
    else (err (external "WriteError"), some d)

abbrev pub find_in : Option (Entries ℤ) → (Entries ℤ → Bool) → List (Entries ℤ)
find_in none test = []
find_in (some d) test = if test d then d ∷ [] else []

same_text : (a b : String) → str_eq a b ≡ true → a ≡ b
same_text a b h = (eq_iff a b).0 h

pub replace_in-writes :
    (slot : Option (Entries ℤ)) (id : String) (test : Entries ℤ → Bool) (doc : Entries ℤ)
    (upsert : Bool) (k : String)
    → (document_in (replace_in slot id test doc upsert).1 k ≡ document_in slot k)
      ⊎ ((id ≡ k)
          × IfFound test (document_in slot k)
          × (document_in (replace_in slot id test doc upsert).1 k ≡ some doc))
replace_in-writes none id test doc upsert k = grind (arith, same_text)
replace_in-writes (some d) id test doc upsert k = grind (arith, same_text)

pub replace_in-upserts :
    (slot : Option (Entries ℤ)) (id : String) (doc : Entries ℤ) (n : ℕ)
    → (replace_in slot id (λ _. true) doc true).0 ≡ ok n
    → document_in (replace_in slot id (λ _. true) doc true).1 id ≡ some doc
replace_in-upserts none id doc n h = grind arith
replace_in-upserts (some d) id doc n h = grind arith

pub replace_in-modified :
    (slot : Option (Entries ℤ)) (id : String) (test : Entries ℤ → Bool) (doc : Entries ℤ) (n : ℕ)
    → (replace_in slot id test doc false).0 ≡ ok (suc n)
    → document_in (replace_in slot id test doc false).1 id ≡ some doc
replace_in-modified none id test doc n h = grind arith
replace_in-modified (some d) id test doc n h = grind arith

pub replace_in-unmodified :
    (slot : Option (Entries ℤ)) (id : String) (test : Entries ℤ → Bool) (doc : Entries ℤ)
    → (replace_in slot id test doc false).0 ≡ ok zero
    → document_in (replace_in slot id test doc false).1 id ≡ document_in slot id
replace_in-unmodified none id test doc h = grind arith
replace_in-unmodified (some d) id test doc h = grind arith

pub find_in-found :
    (slot : Option (Entries ℤ)) (test : Entries ℤ → Bool)
    → All (λ d. (document_in slot (id_of d) ≡ some d) × (test d ≡ true)) (find_in slot test)
find_in-found none test = tt
find_in-found (some d) test = found (test d) refl
  where
    found :
        (b : Bool)
        → test d ≡ b
        → All
            (λ x. (document_in (some d) (id_of x) ≡ some x) × (test x ≡ true))
            (if b then d ∷ [] else [])
    found true h = ((rw eq_refl, h), tt)
    found false h = tt

pub find_in-limit :
    (slot : Option (Entries ℤ)) (test : Entries ℤ → Bool) (limit : ℕ)
    → 0 < limit
    → length (find_in slot test) ≤ limit
find_in-limit none test limit h = omega arith
find_in-limit (some d) test limit h = ground arith

abbrev pub first_in : Option (Entries ℤ) → (Entries ℤ → Bool) → Option (Entries ℤ)
first_in none test = none
first_in (some d) test = if test d then some d else none

abbrev pub kept_in : Option (Entries ℤ) → (Entries ℤ → Bool) → Option (Entries ℤ)
kept_in none test = none
kept_in (some d) test = if test d then none else some d

pub first_in-found :
    (slot : Option (Entries ℤ)) (test : Entries ℤ → Bool) → IfFound test (first_in slot test)
first_in-found none test = tt
first_in-found (some d) test = elim (Bool-cases (test d)) [ inl h ↦ rw h h | inr h ↦ rw h tt ]

held : (x : Entries ℤ) (k : String) (d : Entries ℤ) → document_in (some x) k ≡ some d → x ≡ d
held x k d e = ground arith

not_first :
    (x : Entries ℤ) (b : Bool)
    → ◌≡◌ {A = Result (Option (Entries ℤ))} (ok (if b then some x else none)) (ok none)
    → b ≡ false
not_first x true h = cc
not_first x false h = refl

pub first_in-none :
    (slot : Option (Entries ℤ)) (test : Entries ℤ → Bool) (k : String) (d : Entries ℤ)
    → ◌≡◌ {A = Result (Option (Entries ℤ))} (ok (first_in slot test)) (ok none)
    → document_in slot k ≡ some d
    → test d ≡ false
first_in-none none test k d h e = cc
first_in-none (some x) test k d h e =
    subst (λ y. test y ≡ false) (held x k d e) (not_first x (test x) h)

abbrev pub collection : Collection World ℤ
collection = record {
  document = λ s. document_in s.slot;
  replace_one = λ id test doc upsert s.
      let (r, slot) = replace_in s.slot id test doc upsert in (r, record s { slot = slot });
  find = λ test key limit s. (ok (find_in s.slot test), s);
  find_fields = λ test key s. (ok (find_in s.slot test), s);
  find_one = λ id s. (ok (document_in s.slot id), s);
  find_one_found = λ id s. refl;
  find_first = λ test key s. (ok (first_in s.slot test), s);
  insert_many = λ docs s. (err (external "no room"), s);
  delete_many = λ test s. (ok tt, record s { slot = kept_in s.slot test });
  find_first_reads = λ test key s k. refl;
  find_first_found = λ test key s. first_in-found s.slot test;
  find_first_none = λ test key s k d. first_in-none s.slot test k d;
  replace_writes = λ id test doc upsert s. replace_in-writes s.slot id test doc upsert;
  replace_upserts = λ id doc n s. replace_in-upserts s.slot id doc n;
  replace_modified = λ id test doc n s. replace_in-modified s.slot id test doc n;
  replace_unmodified = λ id test doc s. replace_in-unmodified s.slot id test doc;
  find_reads = λ test key limit s k. refl;
  find_found = λ test key limit s. find_in-found s.slot test;
  find_limit = λ test key limit s h. find_in-limit s.slot test limit h;
}

abbrev pub clock : Clock World
clock = record { read = λ s. (s.time, record s { time = s.time + 60000 }) }

abbrev pub dispatcher : TaskDispatcher World
dispatcher = record {
  dispatch = λ task_id s.
      if s.broker_up
      then (ok tt, record s { sent = task_id ∷ s.sent })
      else (err (external "broker is down"), s);
}
