-- ===== src/Controllers/Io/Keeps.antt =====
-- Properties of the requests that an action sends, one rule for each way to build an action.
use undermoon_operator.Prelude.{◌≡◌, refl, Bool, true, false, if◌then◌else◌, List, [], ◌∷◌}
use undermoon_operator.Controllers.Io.{
  Io, World, Event, Error, Result, ok, err, ask, request, pure, raise, lift, continue, handle,
  ◌>>=◌, ◌>>◌,
}

-- All events of a log satisfy `P`.
abbrev pub AllEvents : (Event → Type 0) → List Event → Type 0
AllEvents P [] = Unit
AllEvents P (ev ∷ log) = P ev × AllEvents P log

-- `m` sends only requests that satisfy `P`.
pub record Sends {E A : Type 0} (P : Event → Type 0) (m : Io E A) : Type 0 where
  pub at : (w : World E) → AllEvents P w.log → AllEvents P (m w).1.log

module _ {E A : Type 0} {P : Event → Type 0} where
  pub Sends-pure : (a : A) → Sends {E = E} P (pure a)
  unfolding pure
  Sends-pure a = record { at = λ w h. h }

  pub Sends-raise : (e : Error) → Sends {E = E} {A = A} P (raise e)
  unfolding raise
  Sends-raise e = record { at = λ w h. h }

  pub Sends-lift : (r : Result A) → Sends {E = E} P (lift r)
  unfolding lift
  Sends-lift r = record { at = λ w h. h }

  pub Sends-ask : (f : E → Result A × E) → Sends P (ask f)
  unfolding ask
  Sends-ask f = record { at = λ w h. h }

  pub Sends-request : (ev : Event) (f : E → Result A × E) → P ev → Sends P (request ev f)
  unfolding request
  Sends-request ev f p = record { at = λ w h. (p, h) }

  pub Sends-if :
      (b : Bool) (m n : Io E A)
      → (b ≡ true → Sends P m)
      → (b ≡ false → Sends P n)
      → Sends P (if b then m else n)
  Sends-if true m n hm hn = hm refl
  Sends-if false m n hm hn = hn refl

module _ {E A B : Type 0} {P : Event → Type 0} where
  Sends-continue :
      (r : Result A) (f : A → Io E B) (g : Error → Io E B)
      → ((a : A) → Sends P (f a))
      → ((e : Error) → Sends P (g e))
      → Sends P (continue r f g)
  Sends-continue (ok a) f g hf hg = hf a
  Sends-continue (err e) f g hf hg = hg e

  pub Sends-handle :
      (m : Io E A) (f : A → Io E B) (g : Error → Io E B)
      → Sends P m
      → ((a : A) → Sends P (f a))
      → ((e : Error) → Sends P (g e))
      → Sends P (handle m f g)
  unfolding handle
  Sends-handle m f g hm hf hg = record {
    at = λ w h. let (r, w') = m w in (Sends-continue r f g hf hg).at w' (hm.at w h);
  }

  pub Sends-bind :
      (m : Io E A) (f : A → Io E B) → Sends P m → ((a : A) → Sends P (f a)) → Sends P (m >>= f)
  unfolding ◌>>=◌
  Sends-bind m f hm hf = Sends-handle m f raise hm hf (λ e. Sends-raise e)

  -- What follows a computed result may use that it was a success.
  pub Sends-lift-bind :
      (r : Result A) (f : A → Io E B)
      → ((a : A) → r ≡ ok a → Sends P (f a))
      → Sends P (lift r >>= f)
  unfolding ◌>>=◌
  Sends-lift-bind (ok a) f h = record { at = (h a refl).at }
  Sends-lift-bind (err e) f h = record { at = λ w l. l }

  pub Sends-then : (m : Io E A) (n : Io E B) → Sends P m → Sends P n → Sends P (m >> n)
  unfolding ◌>>◌
  Sends-then m n hm hn = Sends-bind m (λ _. n) hm (λ _. hn)

pub ruleset sends_rules =
    (Sends-pure, Sends-raise, Sends-lift, Sends-ask, Sends-if, Sends-handle, Sends-bind, Sends-then)
