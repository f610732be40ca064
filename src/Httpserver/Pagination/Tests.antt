-- ===== src/Httpserver/Pagination/Tests.antt =====
-- Runs of httpserver/pagination.go, and concrete uses of what is proved of it.
use gframework.Base.{◌≡◌, refl, pos, negsuc, ◌+ℤ◌, ◌-ℤ◌, ◌*ℤ◌, wrap_64}
use gframework.Httpserver.Pagination.{normalize_page, new_pagination}

-- A huge page number has a negative offset.
runs :
    (normalize_page (pos 3) (pos 500) ≡ (pos 3, pos 100, pos 200))
    × (normalize_page (negsuc 4) (negsuc 0) ≡ (pos 1, pos 50, pos 0))
    × (normalize_page (pos 92233720368547760) (pos 100)
        ≡ (pos 92233720368547760, pos 100, negsuc 9223372036854775715))
    × ((new_pagination (pos 1) (pos 50) (pos 101)).total_pages ≡ pos 3)
    × ((new_pagination (pos 1) (pos 0) (pos 101)).total_pages ≡ pos 0)
unfolding normalize_page new_pagination ◌+ℤ◌ ◌-ℤ◌ ◌*ℤ◌ wrap_64
runs = (refl, refl, refl, refl, refl)
