-- ===== src/Store.antt =====
-- internal/store/namespace.go: the content store that takes the namespace from the context of each
-- call. The store of the containerd client, each of whose operations works in a namespace, is a
-- parameter; of a context, the code reads the namespace.
pub mod Namespaces
use nexus_erofs.Prelude.{List, [], ◌∷◌, Option, none, some, Bytes}
use nexus_erofs.Errors.{Error, Result, ok, err, failed_precondition, wrap}
use nexus_erofs.Os.{World, Exec, lift, ◌>>=◌}
use nexus_erofs.Differ.{Descriptor, ContentInfo}

-- content.Store in a namespace; the readers, the writers and the statuses of uploads are its own.
pub record ClientStore (Meta : Type 0) : Type 1 where
  pub ReaderAt : Type 0
  pub Writer : Type 0
  pub WriterOpt : Type 0
  pub Status : Type 0
  pub reader_at : Bytes → Descriptor → Exec Meta ReaderAt
  pub writer : Bytes → List WriterOpt → Exec Meta Writer
  pub abort : Bytes → Bytes → Exec Meta (Unit {0})
  pub status : Bytes → Bytes → Exec Meta Status
  pub list_statuses : Bytes → List Bytes → Exec Meta (List Status)
  pub info : Bytes → Bytes → Exec Meta ContentInfo
  pub update : Bytes → ContentInfo → List Bytes → Exec Meta ContentInfo
  pub walk : Bytes → (ContentInfo → Exec Meta (Unit {0})) → List Bytes → Exec Meta (Unit {0})
  pub delete : Bytes → Bytes → Exec Meta (Unit {0})

-- the namespace of the context, and the default where the context has none or an empty one
namespace_or : Option Bytes → Bytes → Bytes
namespace_or none default = default
namespace_or (some []) default = default
namespace_or (some (c ∷ cs)) default = c ∷ cs

required : Bytes → Result Bytes
required [] = err (wrap "namespace is required" failed_precondition)
required (c ∷ cs) = ok (c ∷ cs)

-- getNamespacedContext: the namespace that the store sees
unfoldable pub get_namespaced_context : Bytes → Option Bytes → Result Bytes
unfolding namespace_or required
get_namespaced_context default ctx = required (namespace_or ctx default)

module _ {Meta : Type 0} (S : ClientStore Meta) (default : Bytes) (ctx : Option Bytes) where
  -- the methods of NamespaceAwareStore
  unfoldable pub reader_at : Descriptor → Exec Meta S.ReaderAt
  reader_at desc = do ns ← lift (get_namespaced_context default ctx); S.reader_at ns desc

  unfoldable pub writer : List S.WriterOpt → Exec Meta S.Writer
  writer opts = do ns ← lift (get_namespaced_context default ctx); S.writer ns opts

  unfoldable pub abort : Bytes → Exec Meta (Unit {0})
  abort ref = do ns ← lift (get_namespaced_context default ctx); S.abort ns ref

  unfoldable pub status : Bytes → Exec Meta S.Status
  status ref = do ns ← lift (get_namespaced_context default ctx); S.status ns ref

  unfoldable pub list_statuses : List Bytes → Exec Meta (List S.Status)
  list_statuses filters = do
    ns ← lift (get_namespaced_context default ctx)
    S.list_statuses ns filters

  unfoldable pub info : Bytes → Exec Meta ContentInfo
  info digest = do ns ← lift (get_namespaced_context default ctx); S.info ns digest

  unfoldable pub update : ContentInfo → List Bytes → Exec Meta ContentInfo
  update changed paths = do
    ns ← lift (get_namespaced_context default ctx)
    S.update ns changed paths

  unfoldable pub walk : (ContentInfo → Exec Meta (Unit {0})) → List Bytes → Exec Meta (Unit {0})
  walk fn filters = do ns ← lift (get_namespaced_context default ctx); S.walk ns fn filters

  unfoldable pub delete : Bytes → Exec Meta (Unit {0})
  delete digest = do ns ← lift (get_namespaced_context default ctx); S.delete ns digest
