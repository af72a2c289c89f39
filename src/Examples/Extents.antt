-- ===== src/Examples/Extents.antt =====
-- The theorem on the extent lines of a VMDK descriptor.
use nexus_erofs.Prelude.{◌≡◌, refl, true, [], some, All, codes, nat_eq, ◌==◌, not}
use nexus_erofs.Snapshotter.Vmdk.Extents.{find_extent, is_digit, quote}
use nexus_erofs.Snapshotter.Vmdk.Extents.Lines.{extent_line, find_extent-extent_line}

eight_digits : All (λ c. is_digit c ≡ true) (codes "8")
unfolding is_digit
eight_digits = (refl, tt)

path_unquoted : All (λ c. not (c == quote) ≡ true) (codes "/a")
path_unquoted = (refl, (refl, tt))

find_extent_example :
    find_extent (extent_line (codes "8") (codes "/a") (codes "")) ≡ some (codes "8", codes "/a")
find_extent_example =
    find_extent-extent_line b'8' [] b'/' (codes "a") (codes "") eight_digits path_unquoted
