-- ===== src/Effects/Keeps.antt =====
-- What an action keeps on every outcome, one rule for each way to build an action; and what holds
-- when it succeeds.
use oakberryio.Prelude.{ap, subst, sym, ◌≡◌, refl, Bool, true, false, if◌then◌else◌}
use oakberryio.Prelude.Results.{Error, Result, ok, err}
use oakberryio.Effects.{
  Exec, pure, fail, lift, gets, asks, finally, on_error, on_error_to, modify, continue, ◌>>=◌,
}

-- The state that an action leaves has `P` where the state before has it, on success and on failure.
pub record Keeps {S A : Type 0} (P : S → Type 0) (act : Exec S A) : Type 0 where
  pub at : (before : S) → P before → P (act before).1

module _ {A S : Type 0} {P : S → Type 0} where
  -- An action that leaves the state that it finds.
  unmoved : (act : Exec S A) → ((w : S) → (act w).1 ≡ w) → Keeps P act
  unmoved act same = record { at = λ w p. subst P (sym (same w)) p }

  pub Keeps-asks : (query : S → Result A) → Keeps P (asks query)
  unfolding asks
  Keeps-asks query = unmoved (asks query) (λ w. refl)

  pub Keeps-gets : (query : S → A) → Keeps P (gets query)
  unfolding gets
  Keeps-gets query = unmoved (gets query) (λ w. refl)

  pub Keeps-fail : (why : Error) → Keeps P (fail {A = A} why)
  unfolding fail
  Keeps-fail why = unmoved (fail why) (λ w. refl)

  pub Keeps-pure : (value : A) → Keeps P (pure value)
  unfolding pure
  Keeps-pure value = unmoved (pure value) (λ w. refl)

  pub Keeps-lift : (outcome : Result A) → Keeps P (lift outcome)
  unfolding lift
  Keeps-lift outcome = unmoved (lift outcome) (λ w. refl)

  pub Keeps-if :
      (test : Bool) (yes_act no_act : Exec S A)
      → Keeps P yes_act
      → Keeps P no_act
      → Keeps P (if test then yes_act else no_act)
  Keeps-if false yes_act no_act ky kn = kn
  Keeps-if true yes_act no_act ky kn = ky

module _ {A B S : Type 0} {P : S → Type 0} where
  after :
      (outcome : Result A) (rest : A → Exec S B) (w : S)
      → ((value : A) → Keeps P (rest value))
      → P w
      → P (continue outcome rest w).1
  after (err why) rest w kr p = p
  after (ok value) rest w kr p = (kr value).at w p

  pub Keeps-bind :
      (act : Exec S A) (rest : A → Exec S B)
      → Keeps P act
      → ((value : A) → Keeps P (rest value))
      → Keeps P (act >>= rest)
  unfolding ◌>>=◌
  Keeps-bind act rest ka kr = record { at = λ w p. after (act w).0 rest (act w).1 kr (ka.at w p) }

pub ruleset keeps_rules =
    (Keeps-if, Keeps-bind, Keeps-asks, Keeps-gets, Keeps-fail, Keeps-lift, Keeps-pure)

continue-eq-ok :
    {S A B : Type 0} (r : Result A) (f : A → Exec S B) (s : S) {b : B} {s'' : S}
    → continue r f s ≡ (ok b, s'')
    → (a : A) × (r ≡ ok a) × (f a s ≡ (ok b, s''))
continue-eq-ok (ok a) f s h = (a, refl, h)
continue-eq-ok (err e) f s h = cc (ap (λ p. p.0) h)

-- Inversion of a bind that succeeded.
pub bind-eq-ok :
    {S A B : Type 0} (m : Exec S A) (f : A → Exec S B) (s : S) {b : B} {s'' : S}
    → (m >>= f) s ≡ (ok b, s'')
    → (a : A) × ((m s).0 ≡ ok a) × (f a (m s).1 ≡ (ok b, s''))
unfolding ◌>>=◌
bind-eq-ok m f s {b} {s''} h = continue-eq-ok (m s).0 f (m s).1 h

module _ {S A : Type 0} {P : S → Type 0} where
  pub Keeps-on_error :
      (m : Exec S A) (k : S → S) → Keeps P m → ((s : S) → P s → P (k s)) → Keeps P (on_error m k)
  unfolding on_error
  Keeps-on_error m k km kk = record { at = λ s h. on_error_at (m s).0 (m s).1 (km.at s h) }
    where
      on_error_at : (r : Result A) (s : S) → P s → P (on_error_to k r s).1
      on_error_at (ok a) s h = h
      on_error_at (err e) s h = kk s h

  pub Keeps-finally :
      (m : Exec S A) (k : S → S) → Keeps P m → ((s : S) → P s → P (k s)) → Keeps P (finally m k)
  unfolding finally
  Keeps-finally m k km kk = record { at = λ s h. kk _ (km.at s h) }

module _ {S : Type 0} {P : S → Type 0} where
  pub Keeps-modify : (f : S → S) → ((s : S) → P s → P (f s)) → Keeps P (modify f)
  unfolding modify
  Keeps-modify f kf = record { at = λ s h. kf s h }

-- What follows a value that was computed apart from the state may use how it was computed.
pub Keeps-lift-bind :
    {S A B : Type 0} {P : S → Type 0} (outcome : Result A) (rest : A → Exec S B)
    → ((value : A) → outcome ≡ ok value → Keeps P (rest value))
    → Keeps P (lift outcome >>= rest)
unfolding ◌>>=◌ lift
Keeps-lift-bind (err why) rest kr = record { at = λ w p. p }
Keeps-lift-bind (ok value) rest kr = record { at = λ w p. (kr value refl).at w p }

-- Where `P` holds before and `m` succeeds, `Q` holds of its value and of the state then.
pub record Ensures {S A : Type 0} (P : S → Type 0) (m : Exec S A) (Q : A → S → Type 0)
    : Type 0 where
  pub at : (s : S) → P s → (a : A) (s' : S) → m s ≡ (ok a, s') → Q a s'

pub Ensures-bind :
    {S A B : Type 0} {P : S → Type 0} {R : A → S → Type 0} {Q : B → S → Type 0} (m : Exec S A)
    (f : A → Exec S B)
    → Ensures P m R
    → ((a : A) → Ensures (R a) (f a) Q)
    → Ensures P (m >>= f) Q
Ensures-bind m f em ef = record {
  at = λ s h b s'' e.
      let (a, e', rest) = bind-eq-ok m f s e in
      (ef a).at (m s).1 (em.at s h a (m s).1 (λ i. (e' i, (m s).1))) b s'' rest;
}

pub Ensures-Keeps :
    {S A : Type 0} {P : S → Type 0} (m : Exec S A) → Keeps P m → Ensures P m (λ _ s. P s)
Ensures-Keeps {P = P} m km = record { at = λ s h a s' e. subst P (ap (λ p. p.1) e) (km.at s h) }

pub Ensures-pure :
    {S A : Type 0} {P : S → Type 0} {Q : A → S → Type 0} (a : A)
    → ((s : S) → P s → Q a s)
    → Ensures P (pure a) Q
unfolding pure
Ensures-pure {Q = Q} a f = record {
  at = λ s h b s' e. subst (λ p. elim p.0 [ ok c ↦ Q c p.1 | err _ ↦ Unit ]) e (f s h);
}

pub Ensures-on_error :
    {S A : Type 0} {P : S → Type 0} {Q : A → S → Type 0} (m : Exec S A) (k : S → S)
    → Ensures P m Q
    → Ensures P (on_error m k) Q
unfolding on_error
Ensures-on_error m k em = record { at = λ s h a s' e. em.at s h a s' (succeeded k (m s) e) }
  where
    succeeded :
        {S A : Type 0} (k : S → S) (p : Result A × S) {a : A} {s' : S}
        → on_error_to k p.0 p.1 ≡ (ok a, s')
        → p ≡ (ok a, s')
    succeeded k (ok b, s) h = h
    succeeded k (err x, s) h = cc (ap (λ p. p.0) h)

pub Ensures-modify :
    {S : Type 0} {P Q : S → Type 0} (f : S → S)
    → ((s : S) → P s → Q (f s))
    → Ensures P (modify f) (λ _ s. Q s)
unfolding modify
Ensures-modify {Q = Q} f g = record { at = λ s h a s' e. subst Q (ap (λ p. p.1) e) (g s h) }

-- Where `m` fails, `P` holds still.
pub record Restores {S A : Type 0} (P : S → Type 0) (m : Exec S A) : Type 0 where
  pub at : (s : S) → P s → (e : Error) → (m s).0 ≡ err e → P (m s).1

pub Restores-pure : {S A : Type 0} {P : S → Type 0} (a : A) → Restores P (pure a)
unfolding pure
Restores-pure a = record { at = λ s h e x. h }

pub Restores-bind :
    {S A B : Type 0} {P : S → Type 0} (m : Exec S A) (f : A → Exec S B)
    → Keeps P m
    → ((a : A) → Restores P (f a))
    → Restores P (m >>= f)
unfolding ◌>>=◌
Restores-bind {S = S} {A = A} {B = B} {P = P} m f km rf = record {
  at = λ s h e x. go (m s).0 (m s).1 (km.at s h) e x;
}
  where
    go :
        (r : Result A) (s : S)
        → P s
        → (e : Error) → (continue r f s).0 ≡ err e
        → P (continue r f s).1
    go (ok a) s h e x = (rf a).at s h e x
    go (err y) s h e x = h

-- An action that may break `P` where it succeeds, and another that then makes up for it.
pub Keeps-bracket :
    {S A B : Type 0} {P : S → Type 0} {R : A → S → Type 0} (m : Exec S A) (f : A → Exec S B)
    → Restores P m
    → Ensures P m R
    → ((a : A) (s : S) → R a s → P (f a s).1)
    → Keeps P (m >>= f)
unfolding ◌>>=◌
Keeps-bracket {S = S} {A = A} {P = P} {R = R} m f rm em g = record {
  at = λ s h.
      go (m s).0 (m s).1 (λ e x. rm.at s h e x) (λ a x. em.at s h a (m s).1 (λ i. (x i, (m s).1)));
}
  where
    go :
        (r : Result A) (s : S)
        → ((e : Error) → r ≡ err e → P s)
        → ((a : A) → r ≡ ok a → R a s)
        → P (continue r f s).1
    go (ok a) s bad good = g a s (good a refl)
    go (err e) s bad good = bad e refl

pub Restores-map :
    {S A B : Type 0} {P : S → Type 0} (m : Exec S A) (f : A → B)
    → Restores P m
    → Restores P (m >>= λ a. pure (f a))
unfolding ◌>>=◌ pure
Restores-map {S = S} {A = A} {P = P} m f rm = record {
  at = λ s h e x. go (m s).0 (m s).1 (λ e y. rm.at s h e y) e x;
}
  where
    go :
        (r : Result A) (s : S)
        → ((e : Error) → r ≡ err e → P s)
        → (e : Error) → (continue r (λ a. pure (f a)) s).0 ≡ err e
        → P (continue r (λ a. pure (f a)) s).1
    go (ok a) s bad e x = cc x
    go (err y) s bad e x = bad y refl

pub Ensures-finally :
    {S A : Type 0} {P : S → Type 0} {T : Type 0} (m : Exec S A) (k : S → S)
    → Ensures P m (λ _ _. T)
    → Ensures P (finally m k) (λ _ _. T)
unfolding finally
Ensures-finally m k em = record { at = λ s h a s' e. em.at s h a (m s).1 (λ i. ((e i).0, (m s).1)) }

-- A part that never succeeds ends the block.
pub Keeps-stop :
    {S A B : Type 0} {P : S → Type 0} (m : Exec S A) (f : A → Exec S B)
    → Keeps P m
    → Ensures P m (λ _ _. false ≡ true)
    → Keeps P (m >>= f)
unfolding ◌>>=◌
Keeps-stop {S = S} {A = A} {P = P} m f km em = record {
  at = λ s h. go (m s).0 (m s).1 (km.at s h) (λ a x. em.at s h a (m s).1 (λ i. (x i, (m s).1)));
}
  where
    go : (r : Result A) (s : S) → P s → ((a : A) → r ≡ ok a → false ≡ true) → P (continue r f s).1
    go (ok a) s h never = cc (never a refl)
    go (err e) s h never = h
