-- ===== src/Preflight/Order.antt =====
-- The comparison of versions is the lexicographic order of their numbers, and what the check of
-- the kernel accepts.
use nexus_erofs.Prelude.{◌<◌, List, [], ◌∷◌, ◌++◌, ◌≡◌, ◌≢◌, ◌↔◌, ◌⊎◌, refl, arith, Bytes, nat_eq}
use nexus_erofs.Strings.{split, first_part}
use nexus_erofs.Strings.Split.{split-append, split-ne-nil}
use nexus_erofs.Errors.{ok}
use nexus_erofs.Preflight.{
  Version, Sign, less, same, greater, parse_version, parse_numbers, compare_parsed,
  check_kernel_version, check_sign,
}

-- One version comes before another.
abbrev pub Before : Version → Version → Type 0
Before v w =
    (v.major < w.major)
    ⊎ ((v.major ≡ w.major) × ((v.minor < w.minor) ⊎ ((v.minor ≡ w.minor) × (v.patch < w.patch))))

-- What the sign says of two versions.
abbrev pub Says : Sign → Version → Version → Type 0
Says less v w = Before v w
Says same v w = v ≡ w
Says greater v w = Before w v

-- The comparison of two parsed versions says how they stand in the lexicographic order.
pub compare_parsed-Says : (v w : Version) → Says (compare_parsed v w) v w
unfolding compare_parsed
compare_parsed-Says v w = ground arith

abbrev flip : Sign → Sign
flip less = greater
flip same = same
flip greater = less

compare_parsed-flip : (v w : Version) → compare_parsed w v ≡ flip (compare_parsed v w)
unfolding compare_parsed
compare_parsed-flip v w = ground arith

first_part-append : (ps qs : List Bytes) → ps ≢ [] → first_part (ps ++ qs) ≡ first_part ps
unfolding first_part
first_part-append [] qs h = absurd (h refl)
first_part-append (p ∷ ps) qs h = refl

cut_suffix :
    (version suffix : Bytes)
    → first_part (split (version ++ (b'-' ∷ suffix)) b'-') ≡ first_part (split version b'-')
cut_suffix version suffix =
    rw split-append
      (first_part-append (split version b'-') (split suffix b'-') (split-ne-nil version b'-'))

parse_version_lem :
    (version : Bytes)
    → parse_version version ≡ parse_numbers (split (first_part (split version b'-')) b'.')
unfolding parse_version
parse_version_lem version = refl

-- Whatever stands behind the first `-` of a version is ignored.
pub parse_version_suffix :
    (version suffix : Bytes) → parse_version (version ++ (b'-' ∷ suffix)) ≡ parse_version version
parse_version_suffix version suffix =
    rw (parse_version_lem (version ++ (b'-' ∷ suffix)), parse_version_lem version, cut_suffix) refl

check_kernel_version_lem :
    (current min_version : Bytes) {v m : Version}
    → parse_version current ≡ ok v
    → parse_version min_version ≡ ok m
    → check_kernel_version (ok current) min_version ≡ check_sign (compare_parsed v m)
unfolding check_kernel_version
check_kernel_version_lem current min_version hv hm = rw (hv, hm)

accepted_iff : (s : Sign) (v m : Version) → Says s v m → (check_sign s ≡ ok tt) ↔ (¬ Before v m)
unfolding check_kernel_version
accepted_iff less v m says = (λ h. cc, λ h. absurd (h says))
accepted_iff same v m says = (λ h b. ground arith, λ h. refl)
accepted_iff greater v m says = (λ h b. ground arith, λ h. refl)

-- A running kernel is accepted exactly if its version is not before the required one.
pub check_kernel_version_iff :
    (current min_version : Bytes) {v m : Version}
    → parse_version current ≡ ok v
    → parse_version min_version ≡ ok m
    → (check_kernel_version (ok current) min_version ≡ ok tt) ↔ (¬ Before v m)
check_kernel_version_iff current min_version {v} {m} hv hm =
    rw (check_kernel_version_lem current min_version hv hm)
      (accepted_iff (compare_parsed v m) v m (compare_parsed-Says v m))
