-- ===== src/Erofs.antt =====
-- internal/erofs/convert.go, a module for each group of its functions.
pub mod Args
pub mod Blob
pub mod BlockSize
pub mod Layer
pub mod Convert
pub mod Tar
