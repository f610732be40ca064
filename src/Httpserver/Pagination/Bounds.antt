-- ===== src/Httpserver/Pagination/Bounds.antt =====
-- httpserver/pagination.go: what callers can rely on.
use gframework.Base.{
  ℕ, suc, ◌*ℤ◌, ◌+◌, ◌-◌, ◌*◌, ◌/◌, ◌≤◌, ◌<◌, ◌≡◌, refl, true, false, leb_ℤ, ◌⊎◌, ℤ, pos, ltb_ℤ,
  ◌≤ℤ◌, ◌<ℤ◌, wrap_64-small, pos-+ℤ, pos_-ℤ, arith,
}
use gframework.Httpserver.Pagination.{normalize_page, new_pagination}

-- Whatever is asked for, the page is at least 1 and its size between 1 and 100; a page and a size in
-- these bounds stay as they are.
pub normalize_page-bounds :
    (page page_size : ℤ)
    → let (p, s, offset) = normalize_page page page_size in
      (pos 1 ≤ℤ p)
      × (pos 1 ≤ℤ s)
      × (s ≤ℤ pos 100)
      × ((page <ℤ pos 1) ⊎ (p ≡ page))
      × ((page_size <ℤ pos 1) ⊎ ((pos 100 <ℤ page_size) ⊎ (s ≡ page_size)))
unfolding normalize_page
normalize_page-bounds page page_size = ground arith

pos_*ℤ : (a b : ℕ) → pos a *ℤ pos b ≡ pos (a * b)
unfolding ◌*ℤ◌
pos_*ℤ a b = ground arith

-- A page and a size in the bounds keep their values, and the offset is exact if it fits.
pub normalize_page-in_bounds :
    (n size : ℕ)
    → n < 9_223_372_036_854_775_808
    → 0 < size
    → size ≤ 100
    → n * size < 9_223_372_036_854_775_808
    → normalize_page (pos (suc n)) (pos size) ≡ (pos (suc n), pos size, pos (n * size))
unfolding normalize_page
normalize_page-in_bounds n size small h top fits =
    let first : ltb_ℤ (pos (suc n)) (pos 1) ≡ false = ground arith in
    let some_rows : leb_ℤ (pos size) (pos 0) ≡ false = ground arith in
    let few : ltb_ℤ (pos 100) (pos size) ≡ false = ground arith in
    rw (first, some_rows, few, pos_-ℤ (suc n) 1 (omega arith))
      (let back : suc n - 1 ≡ n = omega arith in
        rw (back, wrap_64-small n small, pos_*ℤ n size, wrap_64-small (n * size) fits) refl)

positive : (size : ℕ) → 0 < size → ltb_ℤ (pos 0) (pos size) ≡ true
positive size h = ground arith

room :
    (sum size : ℕ)
    → 0 < size
    → 0 < sum
    → (sum ≤ (sum - 1) / size * size + size) × ((sum - 1) / size * size < sum)
room sum size h fills = (omega arith, omega arith)

-- For a page number and a number of entries that fit, the number of pages is the smallest one that has
-- room for all entries.
pub new_pagination-total_pages :
    (page : ℤ) (size total : ℕ)
    → 0 < size
    → total + size < 9223372036854775808
    → (pages : ℕ) × ((new_pagination page (pos size) (pos total)).total_pages ≡ pos pages)
      × (total ≤ pages * size)
      × (pages * size < total + size)
unfolding new_pagination
new_pagination-total_pages page size total h fits =
    let sum = total + size in
    let fills : 0 < sum = omega arith in
    (
      (sum - 1) / size,
      rw
          (
            positive size h,
            pos-+ℤ total size,
            wrap_64-small sum fits,
            pos_-ℤ sum 1 (omega arith),
            wrap_64-small (sum - 1) (omega arith),
          )
          refl,
      omega (arith, room sum size h fills),
      omega (arith, room sum size h fills),
    )
