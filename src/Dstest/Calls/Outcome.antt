-- ===== src/Dstest/Calls/Outcome.antt =====
-- What holds when a sequence of calls (gcpapi/datastore/dstest) returned.
use gcp_emulator_pool.Common.{◌≡◌, ◌≢◌, refl, inl, inr, ite, Bool, true, false, if◌then◌else◌}
use gcp_emulator_pool.Dstest.Os.{Answer}
use gcp_emulator_pool.Dstest.Calls.{Try, fail, done, hangs, bind, call, on_error, wrapping}

-- If a call returned, then with an error and `P` of the state, or with a result and `Q`.
pub data Leaves {W E A : Type 0} (P : W → Type 0) (Q : A → W → Type 0) : Try E A × W → Type 0 where
  failed : (e : E) (w : W) → P w → Leaves P Q (fail e, w)
  gave : (a : A) (w : W) → Q a w → Leaves P Q (done a, w)
  hung : (w : W) → Leaves P Q (hangs, w)

module _ {W E A : Type 0} where
  pub Leaves-wrapping :
      {P : W → Type 0} {Q : A → W → Type 0} {p : Try E A × W} (f : E → E)
      → Leaves P Q p
      → Leaves P Q (wrapping f p)
  unfolding wrapping
  Leaves-wrapping f (failed e w h) = failed (f e) w h
  Leaves-wrapping f (gave a w h) = gave a w h
  Leaves-wrapping f (hung w) = hung w

  pub Leaves-on_error :
      {P P' : W → Type 0} {Q : A → W → Type 0} {p : Try E A × W} (f : W → W)
      → Leaves P Q p
      → ((w : W) → P w → P' (f w))
      → Leaves P' Q (on_error f p)
  unfolding on_error
  Leaves-on_error f (failed e w h) k = failed e (f w) (k w h)
  Leaves-on_error f (gave a w h) k = gave a w h
  Leaves-on_error f (hung w) k = hung w

  pub Leaves-ite :
      {P : W → Type 0} {Q : A → W → Type 0} {p q : Try E A × W} {C : Type 0} (d : Dec C)
      → Leaves P Q p
      → Leaves P Q q
      → Leaves P Q (ite d p q)
  Leaves-ite (yes c) h k = h
  Leaves-ite (no nc) h k = k

  pub Leaves-imp :
      {P P' : W → Type 0} {Q Q' : A → W → Type 0} {p : Try E A × W}
      → Leaves P Q p
      → ((w : W) → P w → P' w)
      → ((a : A) (w : W) → Q a w → Q' a w)
      → Leaves P' Q' p
  Leaves-imp (failed e w h) k l = failed e w (k w h)
  Leaves-imp (gave a w h) k l = gave a w (l a w h)
  Leaves-imp (hung w) k l = hung w

  -- A call that may not return.
  pub Leaves-blocking :
      {P : W → Type 0} {Q : A → W → Type 0} {p : Try E A × W} (blocks : Bool) (w : W)
      → Leaves P Q p
      → Leaves P Q (if blocks then (hangs, w) else p)
  Leaves-blocking true w h = hung w
  Leaves-blocking false w h = h

  pub Leaves-always : {P : W → Type 0} (p : Try E A × W) → P p.1 → Leaves P (λ _. P) p
  Leaves-always (fail e, w) h = failed e w h
  Leaves-always (done a, w) h = gave a w h
  Leaves-always (hangs, w) h = hung w

  -- The same by cases on the outcome.
  abbrev pub After : (W → Type 0) → (A → W → Type 0) → Try E A × W → Type 0
  After P Q (fail e, w) = P w
  After P Q (done a, w) = Q a w
  After P Q (hangs, w) = Unit

  pub Leaves-After :
      {P : W → Type 0} {Q : A → W → Type 0} {p : Try E A × W} → Leaves P Q p → After P Q p
  Leaves-After (failed e w h) = h
  Leaves-After (gave a w h) = h
  Leaves-After (hung w) = tt

  pub Leaves-returned :
      {P : W → Type 0} {p : Try E A × W} → Leaves P (λ _. P) p → p.0 ≢ hangs → P p.1
  Leaves-returned (failed e w h) n = h
  Leaves-returned (gave a w h) n = h
  Leaves-returned (hung w) n = elim (n refl) [ ]

module _ {W E A B : Type 0} where
  pub Leaves-bind :
      {P : W → Type 0} {Q : A → W → Type 0} {R : B → W → Type 0} {p : Try E A × W}
      (k : A → W → Try E B × W)
      → Leaves P Q p
      → ((a : A) (w : W) → Q a w → Leaves P R (k a w))
      → Leaves P R (bind p k)
  unfolding bind
  Leaves-bind k (failed e w h) step = failed e w h
  Leaves-bind k (gave a w h) step = step a w h
  Leaves-bind k (hung w) step = hung w

  pub Leaves-call :
      {P : W → Type 0} {R : B → W → Type 0} (f : E → E) (p : Answer E A × W)
      (k : A → W → Try E B × W)
      → ((e : E) → p.0 ≡ inl e → P p.1)
      → ((a : A) → p.0 ≡ inr a → Leaves P R (k a p.1))
      → Leaves P R (call f p k)
  unfolding call
  Leaves-call f (inl e, w) k refused step = failed (f e) w (refused e refl)
  Leaves-call f (inr a, w) k refused step = step a refl
