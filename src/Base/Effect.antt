-- ===== src/Base/Effect.antt =====
-- Methods that change a shared state and may raise. What was written before a raise stays written,
-- so the state comes back beside the exception too.
use mathlib.Core.Path.{◌≡◌, refl}
use mathlib.Core.Logic.{◌⊎◌, inl, inr}

pub data Result {ℓ} (E A : Type ℓ) : Type ℓ where
  ok : A → Result E A
  err : E → Result E A

pub same_answer {ℓ} : {E A : Type ℓ} (x : Result E A) (a b : A) → x ≡ ok a → x ≡ ok b → a ≡ b
same_answer x a b e f = cc

abbrev pub Effect {ℓ} : Type ℓ → Type ℓ → Type ℓ → Type ℓ
Effect S E A = S → Result E A × S

module _ {ℓ} {S E A B : Type ℓ} where
  abbrev pub after : Result E A × S → (A → Effect S E B) → Result E B × S
  after (ok a, s) f = f a s
  after (err e, s) f = (err e, s)

  -- A chain that succeeds has a first part that does.
  pub after_ok :
      (p : Result E A × S) (f : A → Effect S E B) (b : B)
      → (after p f).0 ≡ ok b
      → (a : A) × (p.0 ≡ ok a) × (after p f ≡ f a p.1)
  after_ok (ok a, s) f b e = (a, refl, refl)
  after_ok (err x, s) f b e = cc

  infixl 10 ◌>>=◌ ◌>>◌
  abbrev pub ◌>>=◌ : Effect S E A → (A → Effect S E B) → Effect S E B
  ◌>>=◌ m f s = after (m s) f

  abbrev pub ◌>>◌ : Effect S E A → Effect S E B → Effect S E B
  ◌>>◌ m n s = after (m s) (λ _. n)

module _ {ℓ} {S E A : Type ℓ} where
  abbrev pub pure : A → Effect S E A
  pure a s = (ok a, s)

  abbrev pub raise : E → Effect S E A
  raise e s = (err e, s)

  abbrev pub gets : (S → A) → Effect S E A
  gets f s = (ok (f s), s)

abbrev pub modify {ℓ} : {S E : Type ℓ} → (S → S) → Effect S E (Unit {ℓ})
modify f s = (ok tt, f s)

-- `except Exception as exc`, where the handler only changes the state.
abbrev pub recover {ℓ} : {S E A : Type ℓ} → (E → S → S) → Result E A × S → S
recover handler (ok a, s) = s
recover handler (err e, s) = handler e s

module _ {ℓ} {S E A B : Type ℓ} where
  -- A step that only rearranges the answer leaves the state, and succeeds where the first part does.
  pub state-after-pure :
      {C : Type ℓ} (field : S → C) (p : Result E A × S) (g : A → B)
      → field (after p (λ a. pure (g a))).1 ≡ field p.1
  state-after-pure field (ok a, s) g = refl
  state-after-pure field (err e, s) g = refl

  pub after-pure-ok :
      (p : Result E A × S) (g : A → B) (b : B)
      → (after p (λ a. pure (g a))).0 ≡ ok b
      → (a : A) × (p.0 ≡ ok a) × (g a ≡ b)
  after-pure-ok (ok a, s) g b e = (a, refl, cc)
  after-pure-ok (err x, s) g b e = cc

pub Result-cases {ℓ} :
    {E A : Type ℓ} (x : Result E A) → ((a : A) × (x ≡ ok a)) ⊎ ((e : E) × (x ≡ err e))
Result-cases (ok a) = inl (a, refl)
Result-cases (err e) = inr (e, refl)
