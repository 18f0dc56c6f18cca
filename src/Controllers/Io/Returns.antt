-- ===== src/Controllers/Io/Returns.antt =====
-- Properties of the value that a successful action returns.
use undermoon_operator.Prelude.{◌≡◌, refl, sym, arith}
use undermoon_operator.Controllers.Io.{
  Io, World, Error, Result, ok, err, pure, raise, continue, handle, ◌>>=◌,
}

-- If `m` succeeds, what it returns satisfies `Q`.
pub record Returns {E A : Type 0} (Q : A → Type 0) (m : Io E A) : Type 0 where
  pub at : (w : World E) (a : A) → (m w).0 ≡ ok a → Q a

-- The value of a success.
ok_inj : {A : Type 0} {a b : A} → ok a ≡ ok b → a ≡ b
ok_inj h = ground (arith, h)

module _ {E A : Type 0} {Q : A → Type 0} where
  pub Returns-pure : (a : A) → Q a → Returns {E = E} Q (pure a)
  unfolding pure
  Returns-pure a q = record { at = λ w b h. rw (sym (ok_inj h)) q }

  pub Returns-raise : (e : Error) → Returns {E = E} Q (raise e)
  unfolding raise
  Returns-raise e = record { at = λ w b h. ground (arith, h) }

module _ {E A B : Type 0} {R : A → Type 0} {Q : B → Type 0} where
  Returns-continue :
      (r : Result A) (f : A → Io E B) (g : Error → Io E B) (w : World E) (b : B)
      → ((a : A) → r ≡ ok a → R a)
      → ((a : A) → R a → Returns Q (f a))
      → ((e : Error) → Returns Q (g e))
      → (continue r f g w).0 ≡ ok b
      → Q b
  Returns-continue (ok a) f g w b hr hf hg h = (hf a (hr a refl)).at w b h
  Returns-continue (err e) f g w b hr hf hg h = (hg e).at w b h

  pub Returns-handle :
      (m : Io E A) (f : A → Io E B) (g : Error → Io E B)
      → Returns R m
      → ((a : A) → R a → Returns Q (f a))
      → ((e : Error) → Returns Q (g e))
      → Returns Q (handle m f g)
  unfolding handle
  Returns-handle m f g hm hf hg = record {
    at = λ w b h. Returns-continue (m w).0 f g (m w).1 b (λ a. hm.at w a) hf hg h;
  }

  pub Returns-bind :
      (m : Io E A) (f : A → Io E B)
      → Returns R m
      → ((a : A) → R a → Returns Q (f a))
      → Returns Q (m >>= f)
  unfolding ◌>>=◌
  Returns-bind m f hm hf = Returns-handle m f raise hm hf (λ e. Returns-raise e)

module _ {E A : Type 0} where
  -- Every action returns something.
  pub Returns-any : (m : Io E A) → Returns (λ _. Unit {0}) m
  Returns-any m = record { at = λ w a h. tt }
