-- ===== src/Mount.antt =====
-- The mount of containerd's package `mount`: the fields that the code reads and writes.
use nexus_erofs.Prelude.{Bytes, List}

pub record Mount : Type 0 where
  pub kind : Bytes
  pub source : Bytes
  pub target : Bytes
  pub options : List Bytes
