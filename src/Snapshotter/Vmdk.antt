-- ===== src/Snapshotter/Vmdk.antt =====
-- internal/snapshotter/vmdk.go: ParseLayerManifest and ExtractLayerDigests. The text is ASCII, so
-- that the spaces that strings.TrimSpace removes are single bytes.
pub mod RoundTrip
pub mod Extents
pub mod Descriptor
use nexus_erofs.Prelude.{
  ℕ, ◌^◌, ◌≤◌, Bool, true, false, ◌&&◌, ◌||◌, List, [], ◌∷◌, Option, none, some, Bytes, length, leb,
  ltb, ◌==◌, nat_eq, bytes_eq, if◌then◌else◌,
}
use nexus_erofs.Strings.{split}
use nexus_erofs.Errors.{Error, Result, ok, err, message}
use nexus_erofs.Os.{World, Exec, wrapping, read_file, lift, ◌>>=◌}

abbrev pub newline_code : ℕ
newline_code = 10

-- tab, newline, vertical tab, form feed, carriage return and space
unfoldable pub is_space : ℕ → Bool
is_space c = (leb 9 c && leb c 13) || c == 32

trim_start : Bytes → Bytes
unfolding is_space
trim_start [] = []
trim_start (c ∷ s) = let rest = trim_start s in if is_space c then rest else c ∷ s

unless_space : ℕ → Bytes → Bytes
unfolding is_space
unless_space c [] = if is_space c then [] else c ∷ []
unless_space c (d ∷ s) = c ∷ d ∷ s

trim_end : Bytes → Bytes
unfolding unless_space
trim_end [] = []
trim_end (c ∷ s) = unless_space c (trim_end s)

-- strings.TrimSpace
unfoldable pub trim_space : Bytes → Bytes
unfolding trim_start trim_end
trim_space s = trim_end (trim_start s)

-- bufio.ScanLines: one carriage return at the end of a line is dropped, and an empty last line.
drop_cr : Bytes → Bytes
drop_cr [] = []
drop_cr (c ∷ []) = if c == 13 then [] else c ∷ []
drop_cr (c ∷ d ∷ s) = c ∷ drop_cr (d ∷ s)

last_line : Bytes → List Bytes
unfolding drop_cr
last_line [] = []
last_line (c ∷ s) = drop_cr (c ∷ s) ∷ []

scanned_lines : List Bytes → List Bytes
unfolding last_line drop_cr
scanned_lines [] = []
scanned_lines (line ∷ []) = last_line line
scanned_lines (line ∷ next ∷ lines) = drop_cr line ∷ scanned_lines (next ∷ lines)

-- bufio.MaxScanTokenSize; a line that fills the buffer ends the scan with an error.
abbrev pub max_scan_token_size : ℕ
max_scan_token_size = 2 ^ 16

lines_fit : List Bytes → Bool
lines_fit [] = true
lines_fit (line ∷ lines) = ltb (length line) max_scan_token_size && lines_fit lines

add_digest : Option Bytes → List Bytes → List Bytes
add_digest none digests = digests
add_digest (some d) digests = d ∷ digests

-- the loop of ParseLayerManifest
digests_of_lines : (Bytes → Option Bytes) → List Bytes → List Bytes
unfolding trim_space add_digest
digests_of_lines parse [] = []
digests_of_lines parse (line ∷ lines) =
    let rest = digests_of_lines parse lines in
    if trim_space line == [] then rest else add_digest (parse (trim_space line)) rest

-- ParseLayerManifest of what the file holds
unfoldable pub parse_manifest : (Bytes → Option Bytes) → Bytes → Result (List Bytes)
unfolding scanned_lines lines_fit digests_of_lines split
parse_manifest parse content =
    if lines_fit (split content newline_code)
    then ok (digests_of_lines parse (scanned_lines (split content newline_code)))
    else err (message "scan manifest")

-- ParseLayerManifest
unfoldable pub parse_layer_manifest :
    {Meta : Type 0} → (Bytes → Option Bytes) → Bytes → Exec Meta (List Bytes)
parse_layer_manifest parse path = do
  content ← wrapping "open manifest" (read_file path)
  lift (parse_manifest parse content)

-- VMDKLayerInfo
pub record LayerInfo : Type 0 where
  pub path : Bytes
  pub digest : Bytes
  pub sectors : ℕ

-- ExtractLayerDigests
unfoldable pub extract_layer_digests : List LayerInfo → List Bytes
extract_layer_digests [] = []
extract_layer_digests (layer ∷ layers) =
    let rest = extract_layer_digests layers in
    if layer.digest == [] then rest else layer.digest ∷ rest
