-- ===== src/Effects/Mends.antt =====
-- Actions that clear up after themselves when they fail.
use oakberryio.Prelude.{◌≡◌, refl}
use oakberryio.Prelude.Results.{Error, Result, ok, err}
use oakberryio.Effects.{Exec, on_error, on_error_to, continue, ◌>>=◌}
use oakberryio.Effects.Keeps.{Restores}

-- Where `m` fails, `P` holds then, whatever held before.
pub record Mends {S A : Type 0} (P : S → Type 0) (m : Exec S A) : Type 0 where
  pub at : (s : S) (e : Error) → (m s).0 ≡ err e → P (m s).1

pub Mends-on_error :
    {S A : Type 0} {P : S → Type 0} (m : Exec S A) (k : S → S)
    → ((s : S) → P (k s))
    → Mends P (on_error m k)
unfolding on_error
Mends-on_error {S = S} {A = A} {P = P} m k mend = record { at = λ s e x. go (m s).0 (m s).1 e x }
  where
    go :
        (r : Result A) (s : S) (e : Error) → (on_error_to k r s).0 ≡ err e → P (on_error_to k r s).1
    go (ok a) s e x = cc x
    go (err why) s e x = mend s

pub Restores-then :
    {S A B : Type 0} {P : S → Type 0} (m : Exec S A) (f : A → Exec S B)
    → Restores P m
    → ((a : A) → Mends P (f a))
    → Restores P (m >>= f)
unfolding ◌>>=◌
Restores-then {S = S} {A = A} {B = B} {P = P} m f rm rf = record {
  at = λ s h e x. go (m s).0 (m s).1 (rm.at s h) e x;
}
  where
    go :
        (r : Result A) (s : S)
        → ((e : Error) → r ≡ err e → P s)
        → (e : Error) → (continue r f s).0 ≡ err e
        → P (continue r f s).1
    go (ok a) s bad e x = (rf a).at s e x
    go (err why) s bad e x = bad why refl

-- What follows without a failure of its own changes nothing of that.
pub Mends-total :
    {S A B : Type 0} {P : S → Type 0} (m : Exec S A) (f : A → Exec S B)
    → Mends P m
    → ((a : A) (s : S) → (b : B) × ((f a s).0 ≡ ok b))
    → Mends P (m >>= f)
unfolding ◌>>=◌
Mends-total {S = S} {A = A} {B = B} {P = P} m f mm total = record {
  at = λ s e x. go (m s).0 (m s).1 (mm.at s) e x;
}
  where
    go :
        (r : Result A) (s : S)
        → ((e : Error) → r ≡ err e → P s)
        → (e : Error) → (continue r f s).0 ≡ err e
        → P (continue r f s).1
    go (ok a) s bad e x = let (b, fine) = total a s in cc (fine, x)
    go (err why) s bad e x = bad why refl

pub Restores-on_error :
    {S A : Type 0} {P : S → Type 0} (m : Exec S A) (k : S → S)
    → Restores P m
    → ((s : S) → P s → P (k s))
    → Restores P (on_error m k)
unfolding on_error
Restores-on_error {S = S} {A = A} {P = P} m k rm keeps = record {
  at = λ s h e x. go (m s).0 (m s).1 (rm.at s h) e x;
}
  where
    go :
        (r : Result A) (s : S)
        → ((e : Error) → r ≡ err e → P s)
        → (e : Error) → (on_error_to k r s).0 ≡ err e
        → P (on_error_to k r s).1
    go (ok a) s bad e x = cc x
    go (err why) s bad e x = keeps s (bad why refl)
