-- ===== src/Examples/Differ.antt =====
-- The theorems on the differ, on a small content store: the metadata are the references of the open
-- uploads, or the names of the activations.
use nexus_erofs.Prelude.{
  ℕ, zero, suc, ◌+◌, ◌≡◌, ◌<◌, refl, ap, ◌∙◌, arith, Bool, true, false, List, [], ◌∷◌, none, some,
  Bytes, codes, length, bytes_eq,
}
use mathlib.Core.Path.{subst}
use nexus_erofs.Errors.{Error, Result, ok, err, foreign}
use nexus_erofs.Mount.{Mount}
use nexus_erofs.Os.{Exec, pure}
use nexus_erofs.Os.Keeps.{Keeps, Keeps-pure}
use nexus_erofs.Differ.{Services, Manager, ContentStore, Stream, ActivationInfo}
use nexus_erofs.Differ.Mounted.{write_diff_from_mounts}
use nexus_erofs.Differ.Mounted.Balance.{
  BalancedManager, BalancedIfAny, LeavesAlone, write_diff_from_mounts-Keeps,
}
use nexus_erofs.Differ.Upload.{DiffConfig, compare, mount_manager}
use nexus_erofs.Differ.Upload.Tracks.{holds, without, without-head, QuietStream, TracksIngests}
use nexus_erofs.Differ.Upload.Steps.{Closed}
use nexus_erofs.Differ.Upload.Ingests.{compare-ingests}
use nexus_erofs.Examples.Devices.{longer-unequal, failing_tools}
use nexus_erofs.Examples.Host.{world}

unfoldable pub lengths : List Bytes → ℕ
lengths [] = 0
lengths (s ∷ ss) = length s + lengths ss

unfoldable pub ones : ℕ → Bytes
ones zero = []
ones (suc n) = 1 ∷ ones n

pub length-ones : (n : ℕ) → length (ones n) ≡ n
unfolding ones
length-ones zero = refl
length-ones (suc n) = ap suc (length-ones n)

unfoldable pub new_text : List Bytes → Bytes
unfolding ones lengths
new_text m = ones (suc (lengths m))

pub absent : (ss : List Bytes) (t : Bytes) → lengths ss < length t → holds t ss ≡ false
unfolding lengths holds
absent [] t h = refl
absent (s ∷ ss) t h =
    rw (longer-unequal s t (omega (arith, h)), absent ss t (omega (arith, h))) refl

new_text-absent : (m : List Bytes) → holds (new_text m) m ≡ false
unfolding new_text
new_text-absent m = absent m (ones (suc (lengths m))) (omega (arith, length-ones (suc (lengths m))))

stream : Stream (List Bytes)
stream = record {
  start = λ ref media_type m. (ok tt, m);
  write = λ ref piece m. (ok tt, m);
  close = λ ref m. (ok tt, m);
}

store : ContentStore (List Bytes)
unfolding without
store = record {
  writer = λ ref media_type m. (ok tt, ref ∷ m);
  write = λ ref piece m. (ok tt, m);
  truncate = λ ref m. (ok tt, m);
  close = λ ref m. (ok tt, m);
  digest = λ ref m. codes "sha256:a";
  commit = λ ref digest labels m. (ok tt, without ref m);
  abort = λ ref m. (ok tt, without ref m);
  info = λ digest m. ok (record { digest = digest; size = 3; labels = none });
  update = λ info path m. (ok tt, m);
}

services : Services (List Bytes)
unfolding store stream new_text
services = record {
  store = store;
  with_temp_mount = λ ms f. f (codes "/t");
  with_readonly_temp_mount = λ ms f. f (codes "/t");
  diff_pieces = λ below above files. (codes "a" ∷ codes "b" ∷ [], ok tt);
  unique_text = λ m. (new_text m, m);
  compress = λ kind. stream;
  sha256 = λ bytes. codes "sha256:b";
  is_already_exists = λ e. false;
  temp_dir = codes "/tmp";
  random_texts = codes "1" ∷ [];
  mount_overlay = λ target options points. (ok tt, target ∷ points);
  unmount = λ target points. (ok tt, []);
}

abbrev the_names : List Bytes → List Bytes
the_names m = m

services-LeavesAlone : LeavesAlone the_names services
unfolding services
services-LeavesAlone = record {
  named = λ m. refl;
  temporary = λ ms f h. h (codes "/t");
  read_only = λ ms f h. h (codes "/t");
}

stream-Quiet : QuietStream the_names stream
unfolding stream
stream-Quiet = record { started = λ r t m. refl; written = λ r p m. refl; closed = λ r m. refl }

services-TracksIngests : TracksIngests services the_names
unfolding services
services-TracksIngests = record {
  opened = λ ref t m new h. refl;
  unopened = λ ref t m e h. absurd cc;
  written = λ ref p m. refl;
  closed = λ ref m. refl;
  aborted = λ ref m h. refl;
  unaborted = λ ref m e h. absurd cc;
  ended = λ ref d l m h. refl;
  existing = λ ref d l m e h. absurd cc;
  refused = λ ref d l m e h. absurd cc;
  updated = λ i p m. refl;
  fresh = new_text-absent;
  compressed = λ kind. stream-Quiet;
}

-- A manager that refuses a name that is active.
activated_in : Bool → Bytes → List Bytes → Result ActivationInfo × List Bytes
activated_in true name m = (err (foreign 3), m)
activated_in false name m = (ok (record { active = []; system = [] }), name ∷ m)

manager : Manager (List Bytes)
unfolding activated_in holds without
manager = record {
  activate = λ name ms t m. activated_in (holds name m) name m;
  deactivate = λ name m. (ok tt, without name m);
}

manager_refused :
    (b : Bool) (name : Bytes) (m : List Bytes) (e : Error)
    → (activated_in b name m).0 ≡ err e
    → (activated_in b name m).1 ≡ m
unfolding activated_in
manager_refused true name m e h = refl
manager_refused false name m e h = absurd cc

manager_undone :
    (b : Bool) (name : Bytes) (m n : List Bytes) (i : ActivationInfo)
    → holds name m ≡ b
    → (activated_in b name m).0 ≡ ok i
    → n ≡ (activated_in b name m).1
    → without name n ≡ m
unfolding activated_in
manager_undone true name m n i absent h same = absurd cc
manager_undone false name m n i absent h same = ap (without name) same ∙ without-head name m absent

manager-Balanced : BalancedManager the_names manager
unfolding manager
manager-Balanced = record {
  refused = λ name ms t m e h. manager_refused (holds name m) name m e h;
  undone = λ name ms t m n i h same. manager_undone (holds name m) name m n i refl h same;
}

some-injective : {A : Type 0} (a b : A) → some a ≡ some b → a ≡ b
some-injective a b h = cc

manager-BalancedIfAny : BalancedIfAny the_names (some manager)
manager-BalancedIfAny = record {
  balanced = λ m h. subst (BalancedManager the_names) (some-injective manager m h) manager-Balanced;
}

-- the mounts of a formatted overlay, which the manager resolves
abbrev formatted : List Mount
formatted =
    record {
      kind = codes "format/overlay";
      source = codes "overlay";
      target = [];
      options = codes "lowerdir={{ mount 0 }}" ∷ [];
    }
    ∷ []

dropped : Bytes → Exec (List Bytes) (Unit {0})
dropped piece = pure tt

write_diff_from_mounts-Keeps_example :
    Keeps
      (λ w. the_names w.meta)
      (write_diff_from_mounts failing_tools services formatted formatted (some manager) dropped)
unfolding dropped
write_diff_from_mounts-Keeps_example =
    write_diff_from_mounts-Keeps failing_tools services the_names services-LeavesAlone formatted
      formatted (some manager) dropped manager-BalancedIfAny (λ piece. Keeps-pure tt)

abbrev a_config : DiffConfig (List Bytes)
a_config = record { media_type = []; reference = []; labels = none; compressor = none }

manager_of_resolver : BalancedIfAny the_names (mount_manager (some (some manager)))
unfolding mount_manager
manager_of_resolver = manager-BalancedIfAny

compare-ingests_example :
    let p =
      compare failing_tools services (some (some manager)) a_config formatted formatted world in
    Closed services the_names services-TracksIngests (codes "1" ∷ []) p.0 p.1.meta
compare-ingests_example =
    compare-ingests failing_tools services the_names (some (some manager)) a_config formatted
      formatted world services-TracksIngests services-LeavesAlone manager_of_resolver
      (λ s h. absurd cc) refl
