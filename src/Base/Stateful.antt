-- ===== src/Base/Stateful.antt =====
-- Code that mutates a state `S` and may fail: the state an error leaves behind is kept, as a
-- `?` in Rust keeps what the function has already changed through its `&mut` arguments.
use mathlib.Core.Logic.{◌⊎◌, inl, inr}
use mathlib.Core.Path.{◌≡◌, refl, ap}
use pengwin.Base.Fallible.{Outcome, ok, err, panic}

pub data Run {ℓ κ μ} (S : Type ℓ) (E : Type κ) (A : Type μ) : Type (ℓ ⊔ κ ⊔ μ) where
  done : A → S → Run S E A
  fail : E → S → Run S E A
  abort : Run S E A

abbrev pub M {ℓ κ μ} : Type ℓ → Type κ → Type μ → Type (ℓ ⊔ κ ⊔ μ)
M S E A = S → Run S E A

module _ {ℓ κ μ ν} {S : Type ℓ} {E : Type κ} {A : Type μ} {B : Type ν} where
  infixl 5 ◌>>=◌
  abbrev pub ◌>>=◌ : M S E A → (A → M S E B) → M S E B
  ◌>>=◌ m f s = elim (m s) [ done a s' ↦ f a s' | fail e s' ↦ fail e s' | abort ↦ abort ]

module _ {ℓ κ ν} {S : Type ℓ} {E : Type κ} {B : Type ν} where
  infixl 5 ◌>>◌
  abbrev pub ◌>>◌ : M S E (Unit {0}) → M S E B → M S E B
  m >> k = m >>= λ _. k

module _ {ℓ κ μ} {S : Type ℓ} {E : Type κ} {A : Type μ} where
  abbrev pub pure : A → M S E A
  pure a s = done a s

  abbrev pub throw : E → M S E A
  throw e s = fail e s

  -- A fallible computation that only reads the state.
  abbrev pub reads : (S → Outcome E A) → M S E A
  reads f s = elim (f s) [ ok a ↦ done a s | err e ↦ fail e s | panic ↦ abort ]

-- The conversion of errors, and the operation on a part of the state.
abbrev pub zoom {ℓ κ μ ν ξ} :
    {S : Type ℓ} {T : Type κ} {E : Type μ} {F : Type ν} {A : Type ξ} (get : S → T) (put : T → S → S)
    → (E → F)
    → M T E A
    → M S F A
zoom get put f m s = elim (m (get s)) [
  | done a t ↦ done a (put t s)
  | fail e t ↦ fail (f e) (put t s)
  | abort ↦ abort
]

pub >>=-eq-done {ℓ κ μ ν} :
    {S : Type ℓ} {E : Type κ} {A : Type μ} {B : Type ν} (m : M S E A) (f : A → M S E B) (s : S)
    {b : B} {t : S}
    → (m >>= f) s ≡ done b t
    → (a : A) × (s' : S) × (m s ≡ done a s') × (f a s' ≡ done b t)
>>=-eq-done {S} {E} {A} {B} m f s {b} {t} h = go (m s) refl h
  where
    go :
        (r : Run S E A)
        → m s ≡ r
        → (let k : Run S E B = elim r [
          | done a s' ↦ f a s'
          | fail e s' ↦ fail e s'
          | abort ↦ abort
        ] in
            k)
          ≡ done b t
        → (a : A) × (s' : S) × (m s ≡ done a s') × (f a s' ≡ done b t)
    go (done a s') e k = (a, s', e, k)
    go (fail x s') e k = cc
    go abort e k = cc

pub Run-cases {ℓ κ μ} :
    {S : Type ℓ} {E : Type κ} {A : Type μ} (r : Run S E A)
    → ((a : A) × (s : S) × (r ≡ done a s)) ⊎ (((e : E) × (s : S) × (r ≡ fail e s)) ⊎ (r ≡ abort))
Run-cases (done a s) = inl (a, s, refl)
Run-cases (fail e s) = inr (inl (e, s, refl))
Run-cases abort = inr (inr refl)

pub reads-eq-done {ℓ κ μ} :
    {S : Type ℓ} {E : Type κ} {A : Type μ} (f : S → Outcome E A) (s : S) {a : A} {t : S}
    → reads f s ≡ done a t
    → (f s ≡ ok a) × (s ≡ t)
reads-eq-done {S} {E} {A} f s {a} {t} h = go (f s) refl h
  where
    go :
        (o : Outcome E A)
        → f s ≡ o
        → (let k : Run S E A = elim o [ ok x ↦ done x s | err e ↦ fail e s | panic ↦ abort ] in k)
          ≡ done a t
        → (f s ≡ ok a) × (s ≡ t)
    go (ok x) e k = (cc, cc)
    go (err x) e k = cc
    go panic e k = cc

-- The conversion of errors alone.
abbrev pub map_fail {ℓ κ μ ξ} :
    {S : Type ℓ} {E : Type κ} {F : Type μ} {A : Type ξ} → (E → F) → M S E A → M S F A
map_fail f m s = elim (m s) [ done a t ↦ done a t | fail e t ↦ fail (f e) t | abort ↦ abort ]

-- A step that is known is taken.
pub >>=-done {ℓ κ μ ν} :
    {S : Type ℓ} {E : Type κ} {A : Type μ} {B : Type ν} (m : M S E A) (f : A → M S E B) (s : S)
    {a : A} {s' : S}
    → m s ≡ done a s'
    → (m >>= f) s ≡ f a s'
>>=-done {S} {E} {A} {B} m f s e =
    ap
      (λ (r : Run S E A).
        (let k : Run S E B = elim r [ done x t ↦ f x t | fail x t ↦ fail x t | abort ↦ abort ] in
          k))
      e

pub reads_ok {ℓ κ μ} :
    {S : Type ℓ} {E : Type κ} {A : Type μ} (f : S → Outcome E A) (s : S) {a : A}
    → f s ≡ ok a
    → reads f s ≡ done a s
reads_ok {S} {E} {A} f s e =
    ap
      (λ (o : Outcome E A).
        (let k : Run S E A = elim o [ ok x ↦ done x s | err x ↦ fail x s | panic ↦ abort ] in k))
      e

pub reads_err {ℓ κ μ} :
    {S : Type ℓ} {E : Type κ} {A : Type μ} (f : S → Outcome E A) (s : S) {e : E}
    → f s ≡ err e
    → reads f s ≡ fail e s
reads_err {S} {E} {A} f s e =
    ap
      (λ (o : Outcome E A).
        (let k : Run S E A = elim o [ ok x ↦ done x s | err x ↦ fail x s | panic ↦ abort ] in k))
      e

pub >>=-fail {ℓ κ μ ν} :
    {S : Type ℓ} {E : Type κ} {A : Type μ} {B : Type ν} (m : M S E A) (f : A → M S E B) (s : S)
    {e : E} {s' : S}
    → m s ≡ fail e s'
    → (m >>= f) s ≡ fail e s'
>>=-fail {S} {E} {A} {B} m f s e =
    ap
      (λ (r : Run S E A).
        (let k : Run S E B = elim r [ done x t ↦ f x t | fail x t ↦ fail x t | abort ↦ abort ] in
          k))
      e

pub map_fail-eq-done {ℓ κ μ ξ} :
    {S : Type ℓ} {E : Type κ} {F : Type μ} {A : Type ξ} (f : E → F) (m : M S E A) (s : S) {a : A}
    {t : S}
    → map_fail f m s ≡ done a t
    → m s ≡ done a t
map_fail-eq-done {S} {E} {F} {A} f m s {a} {t} h = go (m s) refl h
  where
    go :
        (r : Run S E A)
        → m s ≡ r
        → (let k : Run S F A = elim r [
          | done x u ↦ done x u
          | fail e u ↦ fail (f e) u
          | abort ↦ abort
        ] in
            k)
          ≡ done a t
        → m s ≡ done a t
    go (done x u) e k = cc
    go (fail x u) e k = cc
    go abort e k = cc
