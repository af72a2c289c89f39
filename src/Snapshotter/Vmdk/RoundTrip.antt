-- ===== src/Snapshotter/Vmdk/RoundTrip.antt =====
-- The manifest that is written is read back.
use nexus_erofs.Prelude.{
  ◌≡◌, ◌≢◌, ◌<◌, refl, ap, ◌∙◌, true, false, List, [], ◌∷◌, ◌++◌, Option, some, Bytes, length, ◌==◌,
  nat_eq, bytes_eq, eq_iff, arith, All, Bool-cases, inl, inr,
}
use nexus_erofs.Strings.{split, join, has_byte}
use nexus_erofs.Strings.Split.{split-append, split-join}
use nexus_erofs.Errors.{ok}
use nexus_erofs.Snapshotter.FsMeta.{manifest_content}
use nexus_erofs.Snapshotter.Vmdk.{
  newline_code, is_space, trim_start, trim_end, trim_space, drop_cr, scanned_lines, lines_fit,
  max_scan_token_size, digests_of_lines, parse_manifest,
}

-- A digest that stands on a line of its own: it is accepted as it is, and it has no spaces.
pub record IsLine (parse : Bytes → Option Bytes) (d : Bytes) : Type 0 where
  pub accepted : parse d ≡ some d
  pub not_empty : d ≢ []
  pub fits : length d < max_scan_token_size
  pub plain : All (λ c. is_space c ≡ false) d

plain_start : (s : Bytes) → All (λ c. is_space c ≡ false) s → trim_start s ≡ s
unfolding trim_start
plain_start [] h = refl
plain_start (c ∷ s) (hc, h) = rw hc refl

plain_end : (s : Bytes) → All (λ c. is_space c ≡ false) s → trim_end s ≡ s
unfolding trim_end
plain_end [] h = refl
plain_end (c ∷ []) (hc, h) = rw hc refl
plain_end (c ∷ d ∷ s) (hc, h) = rw (plain_end (d ∷ s) h) refl

plain_trim : (s : Bytes) → All (λ c. is_space c ≡ false) s → trim_space s ≡ s
unfolding trim_space
plain_trim s h = rw (plain_start s h) (plain_end s h)

plain_cr : (s : Bytes) → All (λ c. is_space c ≡ false) s → drop_cr s ≡ s
unfolding drop_cr is_space
plain_cr [] h = refl
plain_cr (c ∷ []) (hc, h) = ground arith
plain_cr (c ∷ d ∷ s) (hc, h) = ap (λ (l : Bytes). c ∷ l) (plain_cr (d ∷ s) h)

plain_newline : (s : Bytes) → All (λ c. is_space c ≡ false) s → has_byte s newline_code ≡ false
unfolding has_byte is_space
plain_newline [] h = refl
plain_newline (c ∷ s) (hc, h) = ground (arith, plain_newline s h)

module _ (parse : Bytes → Option Bytes) where
  no_newlines :
      (ds : List Bytes) → All (IsLine parse) ds → All (λ d. has_byte d newline_code ≡ false) ds
  no_newlines [] h = tt
  no_newlines (d ∷ ds) (hd, h) = (plain_newline d hd.plain, no_newlines ds h)

  scanned_plain : (ds : List Bytes) → All (IsLine parse) ds → scanned_lines (ds ++ [] ∷ []) ≡ ds
  unfolding scanned_lines
  scanned_plain [] h = refl
  scanned_plain (d ∷ []) (hd, h) = ap (λ (l : Bytes). l ∷ []) (plain_cr d hd.plain)
  scanned_plain (d ∷ e ∷ ds) (hd, h) =
      rw (plain_cr d hd.plain) (ap (λ (ls : List Bytes). d ∷ ls) (scanned_plain (e ∷ ds) h))

  fit_plain : (ds : List Bytes) → All (IsLine parse) ds → lines_fit (ds ++ [] ∷ []) ≡ true
  unfolding lines_fit
  fit_plain [] h = refl
  fit_plain (d ∷ ds) (hd, h) = ground (arith, hd.fits, fit_plain ds h)

  not_blank : (d : Bytes) → d ≢ [] → (d == []) ≡ false
  not_blank d h = elim (Bool-cases (d == [])) [ inl e ↦ absurd (h ((eq_iff d []).0 e)) | inr e ↦ e ]

  digests_plain : (ds : List Bytes) → All (IsLine parse) ds → digests_of_lines parse ds ≡ ds
  unfolding digests_of_lines
  digests_plain [] h = refl
  digests_plain (d ∷ ds) (hd, h) =
      rw (plain_trim d hd.plain, not_blank d hd.not_empty, hd.accepted, digests_plain ds h) refl

  split_content :
      (d : Bytes) (ds : List Bytes)
      → All (IsLine parse) (d ∷ ds)
      → split (manifest_content (d ∷ ds)) newline_code ≡ (d ∷ ds) ++ [] ∷ []
  unfolding manifest_content
  split_content d ds h =
      split-append (join (d ∷ ds) (newline_code ∷ [])) [] newline_code
      ∙ rw (split-join d ds newline_code (no_newlines (d ∷ ds) h)) (unfold split in refl)

  -- Digests that the parser accepts, without spaces and each shorter than the buffer of the
  -- scanner, are read back from the manifest that is written for them, in the same order.
  pub parse_manifest-manifest_content :
      (d : Bytes) (ds : List Bytes)
      → All (IsLine parse) (d ∷ ds)
      → parse_manifest parse (manifest_content (d ∷ ds)) ≡ ok (d ∷ ds)
  unfolding parse_manifest
  parse_manifest-manifest_content d ds h =
      rw
        (
          split_content d ds h,
          fit_plain (d ∷ ds) h,
          scanned_plain (d ∷ ds) h,
          digests_plain (d ∷ ds) h,
        )
        refl
