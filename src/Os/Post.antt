-- ===== src/Os/Post.antt =====
-- What relates the metadata before and behind an action that succeeds, and its result.
use nexus_erofs.Prelude.{◌≡◌, refl, sym, String}
use mathlib.Core.Path.{subst}
use nexus_erofs.Errors.{Result, ok, err}
use nexus_erofs.Os.{Exec, World, continue, pure, wrapping, ◌>>=◌}
use nexus_erofs.Os.Invert.{wrapped-ok}
use nexus_erofs.Os.Keeps.{Keeps, the_meta}

pub record Post {Meta A : Type 0} (P : Meta → A → Meta → Type 0) (m : Exec Meta A) : Type 0 where
  pub at : (w : World Meta) (a : A) → (m w).0 ≡ ok a → P w.meta a (m w).1.meta

module _ {Meta A : Type 0} where
  pub Post-Keeps : (m : Exec Meta A) → Keeps the_meta m → Post (λ before a after. after ≡ before) m
  Post-Keeps m km = record { at = λ w a h. km.at w }

  pub Post-pure :
      (a : A) → Post {Meta = Meta} (λ before b after. (b ≡ a) × (after ≡ before)) (pure a)
  unfolding pure
  Post-pure a = record { at = λ w b h. (cc, refl) }

  pub Post-wrapping :
      {P : Meta → A → Meta → Type 0} (text : String) (m : Exec Meta A)
      → Post P m
      → Post P (wrapping text m)
  unfolding wrapping
  Post-wrapping text m pm = record { at = λ w a h. pm.at w a (wrapped-ok text (m w).0 a h) }

module _ {Meta A B : Type 0} (P : Meta → A → Meta → Type 0) (Q : A → Meta → B → Meta → Type 0) where
  continue-Post :
      (before : Meta) (r : Result A) (f : A → Exec Meta B) (v : World Meta) (b : B)
      → ((a : A) → r ≡ ok a → P before a v.meta)
      → ((a : A) → Post (Q a) (f a))
      → (continue r f v).0 ≡ ok b
      → (a : A) × P before a v.meta × Q a v.meta b (continue r f v).1.meta
  continue-Post before (ok a) f v b pm pf h = (a, pm a refl, (pf a).at v b h)
  continue-Post before (err e) f v b pm pf h = absurd cc

module _ {Meta A B : Type 0} {P : Meta → A → Meta → Type 0} {Q : A → Meta → B → Meta → Type 0} where
  pub Post-bind :
      (m : Exec Meta A) (f : A → Exec Meta B)
      → Post P m
      → ((a : A) → Post (Q a) (f a))
      → Post
          (λ before b after. (a : A) × (middle : Meta) × P before a middle × Q a middle b after)
          (m >>= f)
  unfolding ◌>>=◌
  Post-bind m f pm pf = record {
    at = λ w b h.
        let all = continue-Post P Q w.meta (m w).0 f (m w).1 b (pm.at w) pf h in
        (all.0, (m w).1.meta, all.1, all.2);
  }

module _ {Meta A B : Type 0} (P : Meta → B → Meta → Type 0) where
  continue_behind :
      (before : Meta) (r : Result A) (f : A → Exec Meta B) (v : World Meta) (b : B)
      → v.meta ≡ before
      → ((a : A) → Post P (f a))
      → (continue r f v).0 ≡ ok b
      → P before b (continue r f v).1.meta
  continue_behind before (ok a) f v b same pf h =
      subst (λ m. P m b (f a v).1.meta) same ((pf a).at v b h)
  continue_behind before (err e) f v b same pf h = absurd cc

  -- a first part that changes no metadata
  pub Post-behind :
      (m : Exec Meta A) (f : A → Exec Meta B)
      → Keeps the_meta m
      → ((a : A) → Post P (f a))
      → Post P (m >>= f)
  unfolding ◌>>=◌
  Post-behind m f km pf = record {
    at = λ w b h. continue_behind w.meta (m w).0 f (m w).1 b (km.at w) pf h;
  }

module _ {Meta A B : Type 0} (P : Meta → A → Meta → Type 0) where
  continue_before :
      (before : Meta) (r : Result A) (f : A → Exec Meta B) (v : World Meta) (b : B)
      → ((a : A) → r ≡ ok a → P before a v.meta)
      → ((a : A) → Keeps the_meta (f a))
      → (continue r f v).0 ≡ ok b
      → (a : A) × P before a (continue r f v).1.meta
  continue_before before (ok a) f v b pm kf h =
      (a, subst (λ m. P before a m) (sym ((kf a).at v)) (pm a refl))
  continue_before before (err e) f v b pm kf h = absurd cc

  -- a last part that changes no metadata
  pub Post-before :
      (m : Exec Meta A) (f : A → Exec Meta B)
      → Post P m
      → ((a : A) → Keeps the_meta (f a))
      → Post (λ before _ after. (a : A) × P before a after) (m >>= f)
  unfolding ◌>>=◌
  Post-before m f pm kf = record {
    at = λ w b h. continue_before w.meta (m w).0 f (m w).1 b (pm.at w) kf h;
  }
