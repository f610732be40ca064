-- ===== src/Httpserver/Pagination.antt =====
-- httpserver/pagination.go, with the wrap-around of Go's 64-bit int.
pub mod Bounds
mod Tests
use gframework.Base.{
  ℕ, Bool, if◌then◌else◌, ℤ, pos, negsuc, ltb_ℤ, leb_ℤ, ◌+ℤ◌, ◌-ℤ◌, ◌*ℤ◌, wrap_64, quot_ℤ,
}

pub record Pagination : Type 0 where
  pub page : ℤ
  pub page_size : ℤ
  pub total_count : ℤ
  pub total_pages : ℤ

abbrev pub clamp_page : ℤ → ℤ
clamp_page page = if ltb_ℤ page (pos 1) then pos 1 else page

abbrev pub clamp_size : ℤ → ℤ
clamp_size page_size =
    if leb_ℤ page_size (pos 0)
    then pos 50
    else if ltb_ℤ (pos 100) page_size
    then pos 100
    else page_size

-- The page, its size, and the offset of its first entry.
unfoldable pub normalize_page : ℤ → ℤ → ℤ × ℤ × ℤ
normalize_page page page_size =
    let p = clamp_page page in
    let s = clamp_size page_size in (p, s, wrap_64 (wrap_64 (p -ℤ pos 1) *ℤ s))

unfoldable pub new_pagination : ℤ → ℤ → ℤ → Pagination
new_pagination page page_size total_count = record {
  page = page;
  page_size = page_size;
  total_count = total_count;
  total_pages =
      if ltb_ℤ (pos 0) page_size
      then quot_ℤ (wrap_64 (wrap_64 (total_count +ℤ page_size) -ℤ pos 1)) page_size
      else pos 0;
}
