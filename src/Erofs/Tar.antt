-- ===== src/Erofs/Tar.antt =====
-- internal/erofs/convert.go: mkfs.erofs with a stream at its standard input. The command is a
-- parameter.
pub mod Index
use nexus_erofs.Prelude.{
  ℕ, Bool, true, false, List, [], ◌∷◌, ◌++◌, Option, none, some, Bytes, codes, length, ltb, ◌==◌,
  if◌then◌else◌,
}
use nexus_erofs.Strings.{contains}
use nexus_erofs.Errors.{Error, Result, ok, err, os_error, Errno, enoent, message, wrap}
use nexus_erofs.Os.{
  World, Exec, pure, raise, lift, attempt, deferred, wrapping, system_call, create_exclusive,
  write_file, read_file, remove, ◌>>=◌,
}
use nexus_erofs.Os.Tree.{Node, Files, file, folder, lookup, insert}
use nexus_erofs.FilePath.{join_path}
use nexus_erofs.Erofs.Args.{build_tar_erofs_args, build_tar_index_args}

-- A reader: what can be read from it, and whether it ends without an error.
pub record Reader : Type 0 where
  pub content : Bytes
  pub outcome : Result (Unit {0})

-- What becomes of a run of mkfs.erofs with a text at its standard input: whether the exit status is
-- 0, how much of its input it takes before it ends, and the files behind it.
pub record MkfsRun : Type 0 where
  pub success : Bool
  pub taken : ℕ
  pub files : Files

pub record TarTools : Type 0 where
  pub mkfs_stdin : List Bytes → Bytes → Files → MkfsRun
  -- mkfs.erofs --help: whether the exit status is 0, and the output
  pub mkfs_help : Bool × Bytes
  -- os.TempDir, and the random text of os.CreateTemp
  pub temp_dir : Bytes
  pub random_text : Files → Bytes

counted : Bytes → Result (Unit {0}) → Result ℕ
counted content (ok _) = ok (length content)
counted content (err e) = err e

-- io.Copy to the standard input: a pipe whose other end is closed refuses the rest.
copied : ℕ → Reader → Result ℕ
unfolding counted
copied taken r =
    if ltb taken (length r.content)
    then err (os_error (Errno.eother 32))
    else counted r.content r.outcome

run_result : Bool → Result ℕ → Result ℕ
run_result false n = err (message "mkfs.erofs failed")
run_result true (ok n) = ok n
run_result true (err e) = err (wrap "mkfs.erofs succeeded but pipe failed" e)

append_in :
    Bytes → Bytes → Option Node → {Meta : Type 0} → World Meta → Result (Unit {0}) × World Meta
unfolding insert
append_in p bytes none w = (err (os_error enoent), w)
append_in p bytes (some folder) w = (err (os_error (Errno.eother 21)), w)
append_in p bytes (some (file content)) w =
    (ok tt, record w { files = insert p (file (content ++ bytes)) w.files })

appendable : Option Node → Result (Unit {0})
appendable none = err (os_error enoent)
appendable (some folder) = err (os_error (Errno.eother 21))
appendable (some (file content)) = ok tt

module _ {Meta : Type 0} where
  -- os.OpenFile with O_APPEND
  unfoldable pub open_append : Bytes → Exec Meta (Unit {0})
  unfolding appendable lookup
  open_append p = system_call λ w. (appendable (lookup p w.files), w)

  -- io.Copy to the end of an opened file
  unfoldable pub append_file : Bytes → Bytes → Exec Meta (Unit {0})
  unfolding append_in lookup
  append_file p bytes = system_call λ w. append_in p bytes (lookup p w.files) w

module _ (T : TarTools) {Meta : Type 0} where
  started : List Bytes → Reader → Exec Meta MkfsRun
  started args r =
      system_call λ w.
        let run = T.mkfs_stdin args r.content w.files in (ok run, record w { files = run.files })

  -- runMkfsWithStdin
  unfoldable pub run_mkfs_with_stdin : Reader → List Bytes → Exec Meta ℕ
  unfolding started copied run_result
  run_mkfs_with_stdin r args = do
    run ← wrapping "start mkfs.erofs" (started args r)
    lift (run_result run.success (copied run.taken r))

  -- ConvertTarErofs
  unfoldable pub convert_tar_erofs : Reader → Bytes → Bytes → List Bytes → Exec Meta (Unit {0})
  unfolding build_tar_erofs_args
  convert_tar_erofs r layer_path uuid extra = do
    _ ← run_mkfs_with_stdin r (build_tar_erofs_args layer_path uuid extra)
    pure tt

  create_temp : Exec Meta Bytes
  create_temp w =
      let path = join_path (T.temp_dir ∷ (codes "erofs-tar-" ++ T.random_text w.files) ∷ []) in
      (do _ ← create_exclusive path; pure path) w

  -- What passes through the tee reader is in the temporary file too. Only a run that succeeds, and
  -- so has read everything, uses the file.
  with_temp : Reader → Bytes → List Bytes → Bytes → Exec Meta (Unit {0})
  unfolding build_tar_index_args
  with_temp r layer_path extra temp = do
    _ ← wrapping "tar index generation" (do
      _ ← write_file temp r.content
      run_mkfs_with_stdin r (build_tar_index_args layer_path extra))
    _ ← wrapping "open layer file for appending" (open_append layer_path)
    tar ← wrapping "seek to beginning of tar file" (read_file temp)
    wrapping "append tar to layer" (append_file layer_path tar)

  -- GenerateTarIndexAndAppendTar
  unfoldable pub generate_tar_index_and_append_tar :
      Reader → Bytes → List Bytes → Exec Meta (Unit {0})
  unfolding create_temp with_temp
  generate_tar_index_and_append_tar r layer_path extra = do
    temp ← wrapping "create temporary tar file" create_temp
    deferred (remove temp) (with_temp r layer_path extra temp)

module _ (T : TarTools) where
  help_result : Bool → Bytes → Result Bool
  unfolding contains
  help_result true output = ok (contains output (codes "--tar="))
  help_result false output = err (wrap "failed to run mkfs.erofs --help" (message "exit status"))

  -- SupportGenerateFromTar
  unfoldable pub support_generate_from_tar : Result Bool
  unfolding help_result
  support_generate_from_tar = help_result T.mkfs_help.0 T.mkfs_help.1
