-- ===== src/Result/Related.antt =====
-- Methods on two states that answer alike and keep the states related.
use sher_graphics.Base.{◌≡◌, refl, subst, Bool, true, false}
use sher_graphics.Result.{Result, ok, err, Error, Action, lift, reads, writes, pure, fail_if, ◌>>=◌}

module _ {S T : Type 0} (R : S → T → Type 0) where
  abbrev pub Agree : {A : Type 0} → A × S → A × T → Type 0
  Agree (x, s) (y, t) = (x ≡ y) × R s t

  abbrev pub Related : {A : Type 0} → Action S A → Action T A → Type 0
  Related m n = (s : S) (t : T) → R s t → Agree (m s) (n t)

module _ {S T : Type 0} (R : S → T → Type 0) where
  pub lift-Related : {A : Type 0} (r : Result A) → Related R (lift r) (lift r)
  lift-Related r s t h = (refl, h)

  pub pure-Related : {A : Type 0} (a : A) → Related R (pure a) (pure a)
  pure-Related a s t h = (refl, h)

  pub reads-Related :
      {A : Type 0} (f : S → Result A) (g : T → Result A)
      → ((s : S) (t : T) → R s t → f s ≡ g t)
      → Related R (reads f) (reads g)
  reads-Related f g same s t h = (same s t h, h)

  pub writes-Related :
      (f : S → S) (g : T → T)
      → ((s : S) (t : T) → R s t → R (f s) (g t))
      → Related R (writes f) (writes g)
  writes-Related f g keep s t h = (refl, keep s t h)

  pub fail_if-Related : (b : Bool) (e : Error) → Related R (fail_if b e) (fail_if b e)
  fail_if-Related true e s t h = (refl, h)
  fail_if-Related false e s t h = (refl, h)

  continue :
      {A B : Type 0} (f : A → Action S B) (g : A → Action T B) (x : Result A) (s : S) (t : T)
      → ((a : A) → Related R (f a) (g a))
      → R s t
      → Agree R {A = Result B}
          (elim x [ ok a ↦ f a s | err e ↦ (err e, s) ])
          (elim x [ ok a ↦ g a t | err e ↦ (err e, t) ])
  continue f g (ok a) s t related h = related a s t h
  continue f g (err e) s t related h = (refl, h)

  pub bind-Related :
      {A B : Type 0} (m : Action S A) (n : Action T A) (f : A → Action S B) (g : A → Action T B)
      → Related R m n
      → ((a : A) → Related R (f a) (g a))
      → Related R (m >>= f) (n >>= g)
  bind-Related {B = B} m n f g first next s t h =
      let (same, h') = first s t h in
      subst
        (λ y.
          Agree R {A = Result B} (elim (m s).0 [ ok a ↦ f a (m s).1 | err e ↦ (err e, (m s).1) ])
            (elim y [ ok a ↦ g a (n t).1 | err e ↦ (err e, (n t).1) ]))
        same (continue f g (m s).0 (m s).1 (n t).1 next h')
