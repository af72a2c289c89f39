-- ===== src/Snapshotter/Remove/Directories.antt =====
-- Which directories are removed.
use mathlib.Core.List.{Mem, mem-cons, mem-cons_self, mem-cons_of_mem, not-mem-nil, Mem-prop}
use mathlib.Core.Logic.Or
use mathlib.Core.Logic.{∥∥₁_elim}
use mathlib.Core.Path.{subst}
use mathlib.Core.HLevel.{⊥_prop}
use nexus_erofs.Prelude.{
  ◌≡◌, ◌↔◌, refl, sym, ap, ◌∙◌, arith, true, false, List, [], ◌∷◌, Bytes, Bool-cases, inl, inr, All,
  eq_iff, ◌==◌, bytes_eq,
}
use nexus_erofs.FilePath.{join_path}
use nexus_erofs.Errors.{ok}
use nexus_erofs.Os.{World, pure, wrapping, system_call, read_dir}
use nexus_erofs.Os.Invert.{bind-ok, wrapped-ok, ok-injective}
use nexus_erofs.Os.Tree.{names_in}
use nexus_erofs.Storage.{External, query}
use nexus_erofs.Snapshotter.Types.{Config}
use nexus_erofs.Snapshotter.Paths.{snapshots_dir}
use nexus_erofs.Snapshotter.Remove.{is_known, unreferenced, get_cleanup_directories}

is_known-head :
    (name id : Bytes) (ids : List Bytes)
    → is_known name (id ∷ ids) ≡ false
    → ((id == name) ≡ false) × (is_known name ids ≡ false)
unfolding is_known
is_known-head name id ids h = elim (Bool-cases (id == name)) [
  | inl e ↦ cc (rw e at h)
  | inr e ↦ (e, rw e at h)
]

is_known_sound : (name : Bytes) (ids : List Bytes) → is_known name ids ≡ false → ¬ Mem name ids
is_known_sound name [] h m = not-mem-nil m
is_known_sound name (id ∷ ids) h m =
    let (other, unknown) = is_known-head name id ids h in
    Or.elim ⊥_prop (mem-cons.0 m) (λ e. cc ((eq_iff id name).1 (sym e)))
      (λ below. is_known_sound name ids unknown below)

is_known_complete : (name : Bytes) (ids : List Bytes) → is_known name ids ≡ true → Mem name ids
unfolding is_known
is_known_complete name [] h = cc
is_known_complete name (id ∷ ids) h = elim (Bool-cases (id == name)) [
  | inl e ↦ rw (sym ((eq_iff id name).0 e)) mem-cons_self
  | inr e ↦ mem-cons_of_mem id (is_known_complete name ids (rw e at h))
]

-- The path of a name in the directory that is no identifier.
abbrev pub IsUnreferenced : Bytes → List Bytes → List Bytes → Bytes → Type 0
IsUnreferenced dir ids names d =
    (name : Bytes) × ((d ≡ join_path (dir ∷ name ∷ [])) × (Mem name names × (¬ Mem name ids)))

unreferenced-All :
    (dir : Bytes) (ids names others : List Bytes)
    → ((name : Bytes) → Mem name others → Mem name names)
    → All (IsUnreferenced dir ids names) (unreferenced dir ids others)
unfolding unreferenced
unreferenced-All dir ids names [] below = tt
unreferenced-All dir ids names (name ∷ others) below =
    let rest = unreferenced-All dir ids names others (λ n m. below n (mem-cons_of_mem name m)) in
    elim (Bool-cases (is_known name ids)) [
      | inl known ↦ rw known rest
      | inr unknown ↦
          rw unknown
            ((name, (refl, (below name mem-cons_self, is_known_sound name ids unknown))), rest)
    ]

unreferenced-Mem :
    (dir name : Bytes) (ids names : List Bytes)
    → Mem name names
    → ¬ Mem name ids
    → Mem (join_path (dir ∷ name ∷ [])) (unreferenced dir ids names)
unfolding unreferenced
unreferenced-Mem dir name ids [] m unknown = absurd (not-mem-nil m)
unreferenced-Mem dir name ids (other ∷ names) m unknown =
    Or.elim Mem-prop (mem-cons.0 m)
      (λ e. elim (Bool-cases (is_known other ids)) [
        | inl known ↦ absurd (unknown (rw e (is_known_complete other ids known)))
        | inr fresh ↦ rw fresh (rw e mem-cons_self)
      ])
      (λ below.
        let rest = unreferenced-Mem dir name ids names below unknown in
        elim (Bool-cases (is_known other ids)) [
          | inl known ↦ rw known rest
          | inr fresh ↦ rw fresh (mem-cons_of_mem _ rest)
        ])

unreferenced-IsUnreferenced :
    (dir : Bytes) (ids names : List Bytes)
    → All (IsUnreferenced dir ids names) (unreferenced dir ids names)
unreferenced-IsUnreferenced dir ids names = unreferenced-All dir ids names names (λ n m. m)

All-Mem : (P : Bytes → Type 0) (ds : List Bytes) (d : Bytes) → All P ds → Mem d ds → ∥ P d ∥₁
All-Mem P [] d all m = absurd (not-mem-nil m)
All-Mem P (e ∷ ds) d (first, all) m =
    Or.elim (hlevel) (mem-cons.0 m) (λ same. ∣ subst P (sym same) first ∣₁)
      (λ below. All-Mem P ds d all below)

unreferenced_iff :
    (dir : Bytes) (ids names : List Bytes) (d : Bytes)
    → Mem d (unreferenced dir ids names) ↔ ∥ IsUnreferenced dir ids names d ∥₁
unreferenced_iff dir ids names d = (
  λ m. All-Mem (IsUnreferenced dir ids names) _ d (unreferenced-IsUnreferenced dir ids names) m,
  λ h. ∥∥₁_elim h Mem-prop (λ u.
      subst (λ e. Mem e (unreferenced dir ids names)) (sym u.1.0)
        (unreferenced-Mem dir u.0 ids names u.1.1.0 u.1.1.1)),
)

module _ (E : External) (s : Config) where
  names_read :
      (p : Bytes) (w : World E.Meta) (names : List Bytes)
      → (read_dir p w).0 ≡ ok names
      → names ≡ names_in p w.files
  unfolding read_dir system_call
  names_read p w names h = ground arith

  -- The directories are the unreferenced ones among the entries of the snapshots' directory.
  get_cleanup_directories-unreferenced :
      (w : World E.Meta) (removals : List Bytes)
      → (get_cleanup_directories E s w).0 ≡ ok removals
      → (ids : List Bytes) × (E.id_map w.meta ≡ ok ids)
        × (removals ≡ unreferenced (snapshots_dir s) ids (names_in (snapshots_dir s) w.files))
  unfolding get_cleanup_directories wrapping query pure
  get_cleanup_directories-unreferenced w removals h =
      let (ids, known, at_ids) = bind-ok _ _ w removals h in
      let (names, read, at_names) = bind-ok _ _ _ removals (ap (λ p. p.0) (sym at_ids) ∙ h) in
      (
        ids,
        wrapped-ok _ _ ids known,
        ok-injective _ _ (sym h ∙ ap (λ p. p.0) at_ids ∙ ap (λ p. p.0) at_names)
            ∙ ap (unreferenced (snapshots_dir s) ids)
                (names_read (snapshots_dir s) w names (wrapped-ok _ _ names read)),
      )

  -- the path of an entry of the snapshots' directory that is the identifier of no snapshot
  abbrev pub IsLeftOver : World E.Meta → Bytes → Type 0
  IsLeftOver w d =
      (ids : List Bytes) × (name : Bytes) × (E.id_map w.meta ≡ ok ids)
      × (d ≡ join_path (snapshots_dir s ∷ name ∷ []))
      × Mem name (names_in (snapshots_dir s) w.files)
      × (¬ Mem name ids)

  of_known :
      (w : World E.Meta) (ids : List Bytes) (d : Bytes)
      → E.id_map w.meta ≡ ok ids
      → IsLeftOver w d
      → IsUnreferenced (snapshots_dir s) ids (names_in (snapshots_dir s) w.files) d
  of_known w ids d known (others, name, here, at, mem, fresh) = (
    name,
    (at, (mem, subst (λ l. ¬ Mem name l) (ok-injective others ids (sym here ∙ known)) fresh)),
  )

  -- What getCleanupDirectories returns when it succeeds: exactly the paths of the entries of the
  -- directory `snapshots` that are not the identifier of a snapshot in the metadata.
  pub get_cleanup_directories_iff :
      (w : World E.Meta) (removals : List Bytes) (d : Bytes)
      → (get_cleanup_directories E s w).0 ≡ ok removals
      → Mem d removals ↔ ∥ IsLeftOver w d ∥₁
  get_cleanup_directories_iff w removals d h =
      let (ids, known, same) = get_cleanup_directories-unreferenced w removals h in
      let rule = unreferenced_iff (snapshots_dir s) ids (names_in (snapshots_dir s) w.files) d in
      (
        λ m.
            ∥∥₁_elim (rule.0 (subst (Mem d) same m)) (hlevel)
              (λ u. ∣ (ids, u.0, known, u.1.0, u.1.1.0, u.1.1.1) ∣₁),
        λ l.
            subst (Mem d) (sym same)
              (rule.1 (∥∥₁_elim l (hlevel) (λ u. ∣ of_known w ids d known u ∣₁))),
      )
