-- ===== src/Erofs/Convert.antt =====
-- ConvertErofs: mkfs.erofs run on a directory.
use nexus_erofs.Prelude.{List, Bytes}
use nexus_erofs.Os.{Exec, wrapping}
use nexus_erofs.Storage.{External, run_mkfs_erofs}
use nexus_erofs.Erofs.Args.{convert_erofs_args}

module _ (E : External) where
  unfoldable pub convert_erofs : Bytes → Bytes → List Bytes → Exec E.Meta (Unit {0})
  unfolding convert_erofs_args
  convert_erofs layer_path src_dir extra =
      wrapping "mkfs.erofs failed" (run_mkfs_erofs E (convert_erofs_args layer_path src_dir extra))
