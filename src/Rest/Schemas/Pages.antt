-- ===== src/Rest/Schemas/Pages.antt =====
-- app/adapter/inbound/rest/schemas.py: the page numbers of `PageApiResponse.of`.
use native.Mathlib.Nat.{div-lt_iff_lt-mul}
use pipeline_server.Prelude.{
  ℕ, suc, ◌+◌, ◌-◌, ◌*◌, ◌/◌, ◌≤◌, ◌<◌, ◌≡◌, ◌↔◌, refl, ap, some, List, leb, arith, leb→le, le→leb,
  Bool-cases, inl, inr,
}
use pipeline_server.Rest.Schemas.{Stamp, of, total_pages_of}

suc-mul : (p size : ℕ) → suc p * size ≡ p * size + size
suc-mul p size = grind arith

total_pages_of_pos :
    (total size : ℕ) → 0 < size → total_pages_of total size ≡ (total + size - 1) / size
unfolding total_pages_of
total_pages_of_pos total size h = ground arith

pub total_pages-least :
    (total size p : ℕ) → 0 < size → (total_pages_of total size ≤ p) ↔ (total ≤ p * size)
total_pages-least total size p h =
    let (fits, covers) = div-lt_iff_lt-mul {k = size} {x = total + size - 1} {y = suc p} h in
    (
      λ few.
          let lt : total + size - 1 < suc p * size =
            fits (omega (arith, total_pages_of_pos total size h)) in
          omega (arith, suc-mul p size),
      λ all.
          let lt : (total + size - 1) / size < suc p = covers (omega (arith, suc-mul p size)) in
          omega (arith, total_pages_of_pos total size h),
    )

leb_eq : (a b c d : ℕ) → (a ≤ b) ↔ (c ≤ d) → leb a b ≡ leb c d
leb_eq a b c d (f, g) = elim (Bool-cases (leb a b)) [
  | inl h ↦ rw (h, le→leb c d (f (leb→le a b h))) refl
  | inr h ↦ ground (arith, g)
]

-- With a size above 0, the number of pages is the least that has room for all items, and a page is
-- the last exactly if it and the pages before it have room for all items, and the first exactly if
-- it is at most 1.
pub of-Pages :
    {T : Type 0} (stamp : Stamp) (items : List T) (total page size : ℕ)
    → 0 < size
    → let r = of stamp items total page size in
      ((p : ℕ) → (total_pages_of total size ≤ p) ↔ (total ≤ p * size))
      × (r.total_pages ≡ some (total_pages_of total size))
      × (r.last ≡ some (leb total (page * size)))
      × (r.first ≡ some (leb page 1))
unfolding of
of-Pages stamp items total page size h = (
  λ p. total_pages-least total size p h,
  refl,
  ap some (leb_eq _ _ _ _ (total_pages-least total size page h)),
  refl,
)
