-- ===== src/Os/Ensures.antt =====
-- What an action returns when it succeeds, and what it keeps of the state whether it succeeds or
-- not: a rule for each way to build an action.
use nexus_erofs.Prelude.{◌≡◌, refl, Bool, true, false, if◌then◌else◌, String}
use mathlib.Core.Path.{subst}
use nexus_erofs.Errors.{Error, Result, ok, err}
use nexus_erofs.Os.Invert.{wrapped-ok, ok-injective}
use nexus_erofs.Os.{Exec, World, continue, pure, raise, lift, wrapping, ◌>>=◌}

-- Every result that `m` returns satisfies `P`, from any state and under any refusals.
pub record Ensures {Meta A : Type 0} (P : A → Type 0) (m : Exec Meta A) : Type 0 where
  pub at : (w : World Meta) (a : A) → (m w).0 ≡ ok a → P a

module _ {Meta A : Type 0} {P : A → Type 0} where
  pub Ensures-pure : (a : A) → P a → Ensures {Meta = Meta} P (pure a)
  unfolding pure
  Ensures-pure a p = record { at = λ w b h. subst P (ok-injective a b h) p }

  pub Ensures-raise : (e : Error) → Ensures {Meta = Meta} P (raise e)
  unfolding raise
  Ensures-raise e = record { at = λ w b h. cc }

  pub Ensures-if :
      (b : Bool) (m n : Exec Meta A) → Ensures P m → Ensures P n → Ensures P (if b then m else n)
  Ensures-if true m n km kn = km
  Ensures-if false m n km kn = kn

  pub Ensures-wrapping :
      (text : String) (m : Exec Meta A) → Ensures P m → Ensures P (wrapping text m)
  unfolding wrapping
  Ensures-wrapping text m km = record { at = λ w a h. km.at w a (wrapped-ok text (m w).0 a h) }

pub Ensures-lift : {Meta A : Type 0} (r : Result A) → Ensures {Meta = Meta} (λ a. r ≡ ok a) (lift r)
unfolding lift
Ensures-lift r = record { at = λ w a h. h }

-- Nothing is said of what a call returns.
pub Ensures-any : {Meta A : Type 0} (m : Exec Meta A) → Ensures (λ _. Unit {0}) m
Ensures-any m = record { at = λ w a h. tt }

module _ {Meta A B : Type 0} {Q : B → Type 0} where
  bind-ok :
      (r : Result A) (f : A → Exec Meta B) (w : World Meta) (b : B)
      → ((a : A) → r ≡ ok a → Ensures Q (f a))
      → (continue r f w).0 ≡ ok b
      → Q b
  bind-ok (ok a) f w b kf h = (kf a refl).at w b h
  bind-ok (err e) f w b kf h = cc

module _ {Meta A B : Type 0} {P : A → Type 0} {Q : B → Type 0} where
  pub Ensures-bind :
      (m : Exec Meta A) (f : A → Exec Meta B)
      → Ensures P m
      → ((a : A) → P a → Ensures Q (f a))
      → Ensures Q (m >>= f)
  unfolding ◌>>=◌
  Ensures-bind m f km kf = record {
    at = λ w b h. bind-ok (m w).0 f (m w).1 b (λ a e. kf a (km.at w a e)) h;
  }
