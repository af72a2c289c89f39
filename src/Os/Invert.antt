-- ===== src/Os/Invert.antt =====
-- What has happened in an action that succeeds: its first part has succeeded too, and the rest has run
-- behind it.
use nexus_erofs.Prelude.{◌≡◌, refl, String}
use nexus_erofs.Errors.{Result, ok, err, wrapped}
use nexus_erofs.Os.{World, Exec, continue, ◌>>=◌}

module _ {Meta A B : Type 0} where
  continue-ok :
      (r : Result A) (f : A → Exec Meta B) (v : World Meta) (b : B)
      → (continue r f v).0 ≡ ok b
      → (a : A) × (r ≡ ok a) × (continue r f v ≡ f a v)
  continue-ok (ok a) f v b h = (a, refl, refl)
  continue-ok (err e) f v b h = absurd cc

  pub bind-ok :
      (m : Exec Meta A) (f : A → Exec Meta B) (w : World Meta) (b : B)
      → ((m >>= f) w).0 ≡ ok b
      → (a : A) × ((m w).0 ≡ ok a) × ((m >>= f) w ≡ f a (m w).1)
  unfolding ◌>>=◌
  bind-ok m f w b h = continue-ok (m w).0 f (m w).1 b h

pub wrapped-ok :
    {A : Type 0} (text : String) (r : Result A) (a : A) → wrapped text r ≡ ok a → r ≡ ok a
wrapped-ok text (ok b) a h = h
wrapped-ok text (err e) a h = cc

pub ok-injective : {A : Type 0} (a b : A) → ok a ≡ ok b → a ≡ b
ok-injective a b h = cc
