-- ===== src/Erofs/Tar/Index.antt =====
-- GenerateTarIndexAndAppendTar of internal/erofs/convert.go: the layer that it leaves.
use nexus_erofs.Prelude.{
  ◌≡◌, refl, ap, ◌∙◌, eq_refl, true, false, List, [], ◌∷◌, ◌++◌, none, some, Bytes, codes, length,
  ltb, ◌==◌, bytes_eq,
}
use nexus_erofs.Errors.{ok}
use nexus_erofs.FilePath.{join_path}
use nexus_erofs.Os.{
  World, pure, lift, deferred, wrapping, system_call, create_exclusive, write_file, read_file,
  remove, ◌>>=◌,
}
use nexus_erofs.Os.Tree.{
  Node, Files, file, lookup, insert, erase, lookup-insert, lookup-insert_same, lookup-erase,
}
use nexus_erofs.Erofs.Args.{build_tar_index_args}
use nexus_erofs.Erofs.Tar.{
  Reader, TarTools, MkfsRun, copied, run_result, open_append, append_file, run_mkfs_with_stdin,
  with_temp, generate_tar_index_and_append_tar,
}

module _ (T : TarTools) where
  abbrev pub temp_path : Files → Bytes
  temp_path files = join_path (T.temp_dir ∷ (codes "erofs-tar-" ++ T.random_text files) ∷ [])

  -- the files when mkfs.erofs starts
  abbrev pub files_before : Bytes → Files → Files
  files_before content files =
      insert (temp_path files) (file content) (insert (temp_path files) (file []) files)

  abbrev pub index_run : Reader → Bytes → List Bytes → Files → MkfsRun
  index_run r layer_path extra files =
      T.mkfs_stdin (build_tar_index_args layer_path extra) r.content (files_before r.content files)

module _ (T : TarTools) {Meta : Type 0} where
  removed_run :
      (p : Bytes) (n : Node) (w : World Meta) (files : Files)
      → lookup p files ≡ some n
      → remove p (record w { faults = []; files = files })
        ≡ (ok tt, record w { faults = []; files = erase p files })
  unfolding remove system_call
  removed_run p n w files found = rw found refl

  filled_run :
      (r : Reader) (layer_path : Bytes) (extra : List Bytes) (index : Bytes) (w : World Meta)
      → r.outcome ≡ ok tt
      → (index_run T r layer_path extra w.files).success ≡ true
      → ltb (index_run T r layer_path extra w.files).taken (length r.content) ≡ false
      → lookup layer_path (index_run T r layer_path extra w.files).files ≡ some (file index)
      → lookup (temp_path T w.files) (index_run T r layer_path extra w.files).files
        ≡ some (file r.content)
      → with_temp T r layer_path extra
          (temp_path T w.files)
          (record w { faults = []; files = insert (temp_path T w.files) (file []) w.files })
        ≡ (
          ok tt,
          record w {
            faults = [];
            files =
                insert layer_path
                  (file (index ++ r.content))
                  (index_run T r layer_path extra w.files).files;
          },
        )
  unfolding with_temp run_mkfs_with_stdin write_file read_file open_append append_file ◌>>=◌
      wrapping lift system_call copied run_result
  filled_run r layer_path extra index w whole runs taken left kept =
      rw (taken, runs, whole, left, kept, left) refl

  whole_run :
      (r : Reader) (layer_path : Bytes) (extra : List Bytes) (index : Bytes) (w : World Meta)
      → r.outcome ≡ ok tt
      → lookup (temp_path T w.files) w.files ≡ none
      → (layer_path == temp_path T w.files) ≡ false
      → (index_run T r layer_path extra w.files).success ≡ true
      → ltb (index_run T r layer_path extra w.files).taken (length r.content) ≡ false
      → lookup layer_path (index_run T r layer_path extra w.files).files ≡ some (file index)
      → lookup (temp_path T w.files) (index_run T r layer_path extra w.files).files
        ≡ some (file r.content)
      → generate_tar_index_and_append_tar T r layer_path extra (record w { faults = [] }) ≡ (
        ok tt,
        record w {
          faults = [];
          files = erase (temp_path T w.files) (
              insert layer_path
                (file (index ++ r.content))
                (index_run T r layer_path extra w.files).files);
        },
      )
  unfolding generate_tar_index_and_append_tar create_exclusive deferred ◌>>=◌ wrapping pure
      system_call
  whole_run r layer_path extra index w whole new apart runs taken left kept =
      rw
        (
          new,
          filled_run r layer_path extra index w whole runs taken left kept,
          removed_run (temp_path T w.files) (file r.content) w
              (insert layer_path (file (index ++ r.content))
                (index_run T r layer_path extra w.files).files)
              (lookup-insert (temp_path T w.files) layer_path (file (index ++ r.content))
                  (index_run T r layer_path extra w.files).files
                ∙ rw apart kept),
        )
        refl

  -- Where mkfs.erofs takes all of a stream that ends well, leaves an index in the layer's file and
  -- leaves the temporary file, whose name is new and not the layer's, alone, then the layer is the
  -- index and then the stream, and no temporary file is left, while no call is refused.
  pub generate_tar_index :
      (r : Reader) (layer_path : Bytes) (extra : List Bytes) (index : Bytes) (w : World Meta)
      → w.faults ≡ []
      → r.outcome ≡ ok tt
      → lookup (temp_path T w.files) w.files ≡ none
      → (temp_path T w.files == layer_path) ≡ false
      → (layer_path == temp_path T w.files) ≡ false
      → (index_run T r layer_path extra w.files).success ≡ true
      → ltb (index_run T r layer_path extra w.files).taken (length r.content) ≡ false
      → lookup layer_path (index_run T r layer_path extra w.files).files ≡ some (file index)
      → lookup (temp_path T w.files) (index_run T r layer_path extra w.files).files
        ≡ some (file r.content)
      → ((generate_tar_index_and_append_tar T r layer_path extra w).0 ≡ ok tt)
        × (lookup layer_path (generate_tar_index_and_append_tar T r layer_path extra w).1.files
            ≡ some (file (index ++ r.content)))
        × (lookup
              (temp_path T w.files)
              (generate_tar_index_and_append_tar T r layer_path extra w).1.files
            ≡ none)
  generate_tar_index r layer_path extra index w quiet whole new apart apart' runs taken left kept =
      rw
        (ap
            (λ fs.
              generate_tar_index_and_append_tar T r layer_path extra (record w { faults = fs }))
            quiet
          ∙ whole_run r layer_path extra index w whole new apart' runs taken left kept)
        (
          refl,
          lookup-erase layer_path (temp_path T w.files) _
              ∙ rw apart (lookup-insert_same layer_path (file (index ++ r.content)) _),
          lookup-erase (temp_path T w.files) (temp_path T w.files) _
              ∙ rw (eq_refl (temp_path T w.files)) refl,
        )
