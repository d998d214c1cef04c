-- ===== src/Rest/Requests/Pagination.antt =====
-- app/adapter/inbound/rest/schemas.py: what a search request that passes its checks satisfies.
use pipeline_server.Prelude.{
  subst, ℕ, ◌≤◌, String, ◌≡◌, refl, Bool, true, false, ◌&&◌, not, Option, some, none, List, [], ◌∷◌,
  ◌++◌, arith,
}
use pipeline_server.Prelude.Int.{ℤ, pos, negsuc, pos_part}
use pipeline_server.Result.{Result, ok, err, is_ok}
use pipeline_server.Python.{Runtime}
use pipeline_server.Rest.Requests.{
  FieldError, Outcome, done, failed, field_error, on_errors, on_page, natural,
  min_obj_count_in_range, min_confidence_in_range, page_in_range, size_in_range, size_or_default,
  validate_pagination, RejectionQuery, RejectionSearchRequest, rejection_request, DataQuery,
  DataSearchRequest, data_request,
}

-- A page from 1 on, or a cursor, and never both.
pub data PagedBy : Option ℕ → Option ℤ → Type 0 where
  by_page : (n : ℕ) → 1 ≤ n → PagedBy (some n) none
  by_cursor : (after : ℤ) → PagedBy none (some after)

abbrev pub is_done : {A : Type 0} → Outcome A → Bool
is_done (done a) = true
is_done (failed f) = false

abbrev pub is_nil : {A : Type 0} → List A → Bool
is_nil [] = true
is_nil (x ∷ xs) = false

abbrev pub is_given : {A : Type 0} → Option A → Bool
is_given none = false
is_given (some a) = true

-- a size from 1 to 100
abbrev pub IsSize : ℕ → Type 0
IsSize n = (1 ≤ n) × (n ≤ 100)

validate_pagination-PagedBy :
    (page : Option ℤ) (after : Option ℤ) (p : Option ℕ)
    → page_in_range page ≡ true
    → validate_pagination (natural page) after ≡ ok p
    → PagedBy p after
unfolding validate_pagination
validate_pagination-PagedBy none none p h e =
    subst (λ q. PagedBy q none) (cc) (by_page 1 (omega arith))
validate_pagination-PagedBy none (some a) p h e = subst (λ q. PagedBy q (some a)) (cc) (by_cursor a)
validate_pagination-PagedBy (some n) none p h e =
    subst (λ q. PagedBy q none) (cc) (by_page (pos_part n) (ground arith))
validate_pagination-PagedBy (some n) (some a) p h e = cc

size_in_range-IsSize :
    (size : Option ℤ) → size_in_range size ≡ true → IsSize (pos_part (size_or_default size))
size_in_range-IsSize none h = (omega arith, omega arith)
size_in_range-IsSize (some (pos n)) h = (ground arith, ground arith)
size_in_range-IsSize (some (negsuc n)) h = (ground arith, ground arith)

-- What the two requests share: bounds that hold, then the page.
pub accepted :
    {A : Type 0} (es : List FieldError) (r : Result (Option ℕ)) (make : Option ℕ → A) (a : A)
    → on_errors es (on_page r make) ≡ done a
    → (es ≡ []) × (p : Option ℕ) × (r ≡ ok p) × (make p ≡ a)
accepted [] (ok p) make a h = (refl, p, refl, cc)
accepted [] (err e) make a h = cc
accepted (e ∷ es) r make a h = cc

no_error :
    (text : String → String) (name : String) (b : Bool) → field_error text name b ≡ [] → b ≡ true
no_error text name true h = refl
no_error text name false h = cc

field_kept :
    (text : String → String) (name : String) (b : Bool) (es : List FieldError)
    → field_error text name b ++ es ≡ []
    → (b ≡ true) × (es ≡ [])
field_kept text name true es h = (refl, h)
field_kept text name false es h = cc

-- A rejection search that is accepted has a page from 1 on or a cursor, never both, and a size from
-- 1 to 100.
pub rejection_request-PagedBy :
    (text : String → String) (q : RejectionQuery) (r : RejectionSearchRequest)
    → rejection_request text q ≡ done r
    → PagedBy r.page r.after × IsSize r.size
unfolding rejection_request
rejection_request-PagedBy text q r h =
    let (none_failed, p, e, made) = accepted _ _ _ r h in
    let (page_ok, size_kept) = field_kept text "page" (page_in_range q.page) _ none_failed in
    let size_ok = no_error text "size" (size_in_range q.size) size_kept in
    subst (λ (r' : RejectionSearchRequest). PagedBy r'.page r'.after × IsSize r'.size) made
      (validate_pagination-PagedBy q.page q.after p page_ok e, size_in_range-IsSize q.size size_ok)

module _ {F : Type 0} ⦃py : Runtime F⦄ where
  -- A search of data that is accepted has a page from 1 on or a cursor, never both, and a size from 1
  -- to 100.
  pub data_request-PagedBy :
      (text : String → String) (q : DataQuery F) (r : DataSearchRequest F)
      → data_request text q ≡ done r
      → PagedBy r.page r.after × IsSize r.size
  unfolding data_request
  data_request-PagedBy text q r h =
      let (none_failed, p, e, made) = accepted _ _ _ r h in
      let (_, more) =
        field_kept text "min_obj_count" (min_obj_count_in_range q.min_obj_count) _ none_failed in
      let (_, rest) =
        field_kept text "min_confidence" (min_confidence_in_range q.min_confidence) _ more in
      let (page_ok, size_kept) = field_kept text "page" (page_in_range q.page) _ rest in
      let size_ok = no_error text "size" (size_in_range q.size) size_kept in
      subst (λ (r' : DataSearchRequest F). PagedBy r'.page r'.after × IsSize r'.size) made
        (
          validate_pagination-PagedBy q.page q.after p page_ok e,
          size_in_range-IsSize q.size size_ok,
        )

is_done-accepted :
    {A : Type 0} (es : List FieldError) (r : Result (Option ℕ)) (make : Option ℕ → A)
    → is_done (on_errors es (on_page r make)) ≡ (is_nil es && is_ok r)
is_done-accepted [] (ok p) make = refl
is_done-accepted [] (err e) make = refl
is_done-accepted (e ∷ es) r make = refl

two_fields :
    (text : String → String) (a b c : Bool)
    → (is_nil (field_error text "page" a ++ field_error text "size" b) && c) ≡ (a && b && c)
two_fields text true true c = refl
two_fields text true false c = refl
two_fields text false b c = refl

is_ok-validate_pagination :
    (page : Option ℤ) (after : Option ℤ)
    → is_ok (validate_pagination (natural page) after) ≡ not (is_given page && is_given after)
unfolding validate_pagination
is_ok-validate_pagination none none = refl
is_ok-validate_pagination none (some a) = refl
is_ok-validate_pagination (some p) none = refl
is_ok-validate_pagination (some p) (some a) = refl

-- A rejection search is accepted exactly if its page and size are in their bounds and it does not
-- give both a page and a cursor.
pub rejection_request-accepts :
    (text : String → String) (q : RejectionQuery)
    → is_done (rejection_request text q)
      ≡ (page_in_range q.page && size_in_range q.size && not (is_given q.page && is_given q.after))
unfolding rejection_request
rejection_request-accepts text q =
    rw (is_done-accepted, is_ok-validate_pagination)
      (two_fields text (page_in_range q.page) (size_in_range q.size) _)
