-- ===== src/Prelude/Outcome.antt =====
-- Rust's `Result<T, E>` and the `?` operator.
use mathlib.Core.Path.{ap, ◌∙◌, ◌≡◌, refl, subst}
use mathlib.Core.List.{List, [], ◌∷◌, Memᴰ}

pub data Result {ℓ κ} (E : Type κ) (T : Type ℓ) : Type (ℓ ⊔ κ) where
  err : E → Result E T
  ok : T → Result E T

infixl 5 ◌>>=◌
abbrev pub ◌>>=◌ {ℓ κ ι} :
    {E : Type κ} {T : Type ℓ} {U : Type ι} → Result E T → (T → Result E U) → Result E U
err e >>= next = err e
ok t >>= next = next t

-- `for x in xs { s = step(s, x)?; }`
unfoldable pub for_each {ℓ κ ι} :
    {E : Type κ} {A : Type ℓ} {S : Type ι} → (S → A → Result E S) → List A → S → Result E S
for_each step [] s = ok s
for_each step (x ∷ xs) s = step s x >>= λ t. for_each step xs t

-- Inversion of a step that succeeds.
pub >>=-eq-ok {ℓ κ ι} :
    {E : Type κ} {T : Type ℓ} {U : Type ι} (result : Result E T) (next : T → Result E U) {u : U}
    → (result >>= next) ≡ ok u
    → (t : T) × (result ≡ ok t) × (next t ≡ ok u)
>>=-eq-ok (err e) next succeeds = cc
>>=-eq-ok (ok t) next succeeds = (t, refl, succeeds)

-- What every round keeps holds at the end of a loop that succeeds.
pub for_each-inv {ℓ κ ι μ} :
    {E : Type κ} {A : Type ℓ} {S : Type ι} (P : S → Type μ) (step : S → A → Result E S)
    (xs : List A) (s : S) {t : S}
    → ((s : S) (x : A) (t : S) → Memᴰ x xs → P s → step s x ≡ ok t → P t)
    → P s
    → for_each step xs s ≡ ok t
    → P t
unfolding for_each
for_each-inv P step [] s {t} keep h e = subst P (cc) h
for_each-inv P step (x ∷ xs) s {t} keep h e =
    let (mid, first, rest) = >>=-eq-ok (step s x) (λ m. for_each step xs m) e in
    for_each-inv P step xs mid (λ r y u m p q. keep r y u (Memᴰ.tail m) p q)
      (keep s x mid (Memᴰ.head refl) h first) rest

-- A loop succeeds if every round keeps what the next one needs to succeed.
pub for_each-ok {ℓ κ ι μ} :
    {E : Type κ} {A : Type ℓ} {S : Type ι} (P : S → Type μ) (step : S → A → Result E S)
    (xs : List A) (s : S)
    → ((s : S) (x : A) → Memᴰ x xs → P s → (t : S) × (step s x ≡ ok t) × P t)
    → P s
    → (t : S) × (for_each step xs s ≡ ok t)
unfolding for_each
for_each-ok P step [] s keep h = (s, refl)
for_each-ok P step (x ∷ xs) s keep h =
    let (mid, first, inv) = keep s x (Memᴰ.head refl) h in
    let (t, rest) = for_each-ok P step xs mid (λ r y m p. keep r y (Memᴰ.tail m) p) inv in
    (t, ap (λ r. r >>= (λ m. for_each step xs m)) first ∙ rest)
