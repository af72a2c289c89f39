-- ===== src/Store/Namespaces.antt =====
-- The namespace that the methods of internal/store/namespace.go pass on.
use nexus_erofs.Prelude.{ℕ, ◌≡◌, refl, List, [], ◌∷◌, Option, none, some, Bytes}
use nexus_erofs.Errors.{Error, err, failed_precondition, wrap}
use nexus_erofs.Os.{World, Exec, lift, ◌>>=◌}
use nexus_erofs.Differ.{Descriptor, ContentInfo}
use nexus_erofs.Store.{
  ClientStore, get_namespaced_context, reader_at, writer, abort, status, list_statuses, info,
  update, walk, delete,
}

-- the error of a call without a namespace
abbrev pub no_namespace : Error
no_namespace = wrap "namespace is required" failed_precondition

module _ {Meta : Type 0} (S : ClientStore Meta) (desc : Descriptor) (opts : List S.WriterOpt)
    (text : Bytes) (texts : List Bytes) (changed : ContentInfo)
    (fn : ContentInfo → Exec Meta (Unit {0})) (w : World Meta) where
  -- With this default and this context, each of the nine methods is the client's own in the namespace.
  abbrev pub Forwarded : Bytes → Option Bytes → Bytes → Type 0
  Forwarded default ctx ns =
      (reader_at S default ctx desc w ≡ S.reader_at ns desc w)
      × (writer S default ctx opts w ≡ S.writer ns opts w)
      × (abort S default ctx text w ≡ S.abort ns text w)
      × (status S default ctx text w ≡ S.status ns text w)
      × (list_statuses S default ctx texts w ≡ S.list_statuses ns texts w)
      × (info S default ctx text w ≡ S.info ns text w)
      × (update S default ctx changed texts w ≡ S.update ns changed texts w)
      × (walk S default ctx fn texts w ≡ S.walk ns fn texts w)
      × (delete S default ctx text w ≡ S.delete ns text w)

  -- Each of the nine methods fails with the same error, and the state stays.
  abbrev pub Refused : Bytes → Option Bytes → Type 0
  Refused default ctx =
      (reader_at S default ctx desc w ≡ (err no_namespace, w))
      × (writer S default ctx opts w ≡ (err no_namespace, w))
      × (abort S default ctx text w ≡ (err no_namespace, w))
      × (status S default ctx text w ≡ (err no_namespace, w))
      × (list_statuses S default ctx texts w ≡ (err no_namespace, w))
      × (info S default ctx text w ≡ (err no_namespace, w))
      × (update S default ctx changed texts w ≡ (err no_namespace, w))
      × (walk S default ctx fn texts w ≡ (err no_namespace, w))
      × (delete S default ctx text w ≡ (err no_namespace, w))

  -- With a namespace in the context, whatever the default is, each of the nine methods is the
  -- client's own in the context's namespace. With none there, or an empty one, it is the client's own
  -- in the default namespace if that is not empty; if it is, each method fails with the same error
  -- and the client's store is not called.
  pub methods_namespaced :
      (c : ℕ) (cs default : Bytes)
      → Forwarded default (some (c ∷ cs)) (c ∷ cs)
        × Forwarded (c ∷ cs) none (c ∷ cs)
        × Forwarded (c ∷ cs) (some []) (c ∷ cs)
        × Refused [] none
        × Refused [] (some [])
  unfolding reader_at writer abort status list_statuses info update walk delete lift ◌>>=◌
      get_namespaced_context
  methods_namespaced c cs default = (
    (refl, refl, refl, refl, refl, refl, refl, refl, refl),
    (refl, refl, refl, refl, refl, refl, refl, refl, refl),
    (refl, refl, refl, refl, refl, refl, refl, refl, refl),
    (refl, refl, refl, refl, refl, refl, refl, refl, refl),
    (refl, refl, refl, refl, refl, refl, refl, refl, refl),
  )
