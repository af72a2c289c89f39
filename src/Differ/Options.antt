-- ===== src/Differ/Options.antt =====
-- internal/differ/differ.go: the options of NewErofsDiffer. A differ is known here by its resolver:
-- none at all, or what the resolver gives, which may be nil.
use nexus_erofs.Prelude.{List, [], ◌∷◌, Option, none, some}
use nexus_erofs.Differ.{Manager}

pub data DifferOpt (Meta : Type 0) : Type 0 where
  with_mount_manager : Option (Manager Meta) → DifferOpt Meta
  with_mount_manager_resolver : Option (Manager Meta) → DifferOpt Meta

module _ {Meta : Type 0} where
  apply_opt : DifferOpt Meta → Option (Option (Manager Meta)) → Option (Option (Manager Meta))
  apply_opt (with_mount_manager mm) resolver = some mm
  apply_opt (with_mount_manager_resolver mm) resolver = some mm

  apply_opts :
      List (DifferOpt Meta) → Option (Option (Manager Meta)) → Option (Option (Manager Meta))
  unfolding apply_opt
  apply_opts [] resolver = resolver
  apply_opts (o ∷ os) resolver = apply_opts os (apply_opt o resolver)

  -- NewErofsDiffer, up to the store
  unfoldable pub new_erofs_differ : List (DifferOpt Meta) → Option (Option (Manager Meta))
  unfolding apply_opts
  new_erofs_differ opts = apply_opts opts none
