-- ===== src/Base/Outcomes.antt =====
-- What a call of the kernel does to its state: it returns, spins for ever on a lock, or panics.

use mathlib.Core.Path.{◌≡◌, ap, subst}
use mathlib.Core.Bool.{Bool, true, false}
use mcertikos.Base.Tests.{if◌then◌else◌}

pub data Outcome {ℓ} (A : Type ℓ) : Type ℓ where
  ok : A → Outcome A
  hang : Outcome A
  panic : Outcome A

-- A call over the state `S` with result `A`.
abbrev pub Call {ℓ κ} : Type ℓ → Type κ → Type (ℓ ⊔ κ)
Call S A = S → Outcome (A × S)

abbrev pub pure {ℓ κ} : {S : Type ℓ} {A : Type κ} → A → Call S A
pure a s = ok (a, s)

-- A read of the state, and a change of it.
abbrev pub gets {ℓ κ} : {S : Type ℓ} {A : Type κ} → (S → A) → Call S A
gets f s = ok (f s, s)

abbrev pub modify {ℓ} : {S : Type ℓ} → (S → S) → Call S (Unit {0})
modify f s = ok (tt, f s)

infixl 5 ◌>>=◌ ◌>>◌
abbrev pub ◌>>=◌ {ℓ κ μ} :
    {S : Type ℓ} {A : Type κ} {B : Type μ} → Call S A → (A → Call S B) → Call S B
◌>>=◌ m f s = elim (m s) [ ok (a, t) ↦ f a t | hang ↦ hang | panic ↦ panic ]

abbrev pub ◌>>◌ {ℓ κ} : {S : Type ℓ} {B : Type κ} → Call S (Unit {0}) → Call S B → Call S B
m >> k = m >>= λ _. k

-- A call of a lower layer, whose state `T` is a part of `S`.
abbrev pub lift {ℓ κ μ} :
    {S : Type ℓ} {T : Type κ} {A : Type μ} → (S → T) → (S → T → S) → Call T A → Call S A
lift get put m s = elim (m (get s)) [ ok (a, t) ↦ ok (a, put s t) | hang ↦ hang | panic ↦ panic ]

pub ok-injective {ℓ} : {A : Type ℓ} {a b : A} → ok a ≡ ok b → a ≡ b
ok-injective {a} p = ap (λ o. elim o [ ok x ↦ x | hang ↦ a | panic ↦ a ]) p

-- A call that returns, then the rest.
pub bind_ok {ℓ κ μ} :
    {S : Type ℓ} {A : Type κ} {B : Type μ} (m : Call S A) (k : A → Call S B) (s t : S) (a : A)
    → m s ≡ ok (a, t)
    → (m >>= k) s ≡ k a t
bind_ok m k s t a e = ap (λ o. elim o [ ok (b, u) ↦ k b u | hang ↦ hang | panic ↦ panic ]) e

pub lift_ok {ℓ κ μ} :
    {S : Type ℓ} {T : Type κ} {A : Type μ} (get : S → T) (put : S → T → S) (m : Call T A) (s : S)
    (a : A) (t : T)
    → m (get s) ≡ ok (a, t)
    → lift get put m s ≡ ok (a, put s t)
lift_ok get put m s a t e =
    ap (λ o. elim o [ ok (b, u) ↦ ok (b, put s u) | hang ↦ hang | panic ↦ panic ]) e

-- A call keeps a property of the state, if it returns.
abbrev pub Good {ℓ κ μ} : {S : Type ℓ} {A : Type κ} → (S → Type μ) → Outcome (A × S) → Type μ
Good P (ok (a, t)) = P t
Good P hang = Unit
Good P panic = Unit

abbrev pub Keeps {ℓ κ μ} : {S : Type ℓ} {A : Type κ} → (S → Type μ) → Call S A → Type (ℓ ⊔ μ)
Keeps {S} P m = (s : S) → P s → Good P (m s)

pub bind-Keeps {ℓ κ ν μ} :
    {S : Type ℓ} {A : Type κ} {B : Type ν} (P : S → Type μ) (m : Call S A) (k : A → Call S B)
    → Keeps P m
    → ((a : A) → Keeps P (k a))
    → Keeps P (m >>= k)
bind-Keeps {S} {A} {B} P m k hm hk s p = go (m s) (hm s p)
  where
    go :
        (o : Outcome (A × S))
        → Good P o
        → Good P (elim o [ ok (a, t) ↦ k a t | hang ↦ hang | panic ↦ panic ])
    go (ok (a, t)) g = hk a t g
    go hang g = tt
    go panic g = tt

pub if-Keeps {ℓ κ μ} :
    {S : Type ℓ} {A : Type κ} (P : S → Type μ) (b : Bool) (m n : Call S A)
    → Keeps P m
    → Keeps P n
    → Keeps P (if b then m else n)
if-Keeps P true m n hm hn = hm
if-Keeps P false m n hm hn = hn

-- The same for one state, on which the test may depend.
pub if-Good {ℓ κ μ} :
    {S : Type ℓ} {A : Type κ} (P : S → Type μ) (b : Bool) (o o' : Outcome (A × S))
    → Good P o
    → Good P o'
    → Good P (if b then o else o')
if-Good P true o o' h h' = h
if-Good P false o o' h h' = h'

pub lift-Keeps {ℓ κ ν μ ρ} :
    {S : Type ℓ} {T : Type κ} {A : Type ν} (P : S → Type μ) (Q : T → Type ρ) (get : S → T)
    (put : S → T → S) (m : Call T A)
    → ((s : S) → P s → Q (get s))
    → ((s : S) (t : T) → P s → Q t → P (put s t))
    → Keeps Q m
    → Keeps P (lift get put m)
lift-Keeps {S} {T} {A} P Q get put m down up hm s p = go (m (get s)) (hm (get s) (down s p))
  where
    go :
        (o : Outcome (A × T))
        → Good Q o
        → Good P (elim o [ ok (a, t) ↦ ok (a, put s t) | hang ↦ hang | panic ↦ panic ])
    go (ok (a, t)) g = up s t p g
    go hang g = tt
    go panic g = tt

pub Keeps-ok {ℓ κ μ} :
    {S : Type ℓ} {A : Type κ} (P : S → Type μ) (m : Call S A) (s t : S) (a : A)
    → Keeps P m
    → P s
    → m s ≡ ok (a, t)
    → P t
Keeps-ok P m s t a h p e = subst (Good P) e (h s p)

-- Every call keeps what is always so.
pub always-Keeps {ℓ κ μ} :
    {S : Type ℓ} {A : Type κ} (P : S → Type μ) (m : Call S A) → ((s : S) → P s) → Keeps P m
always-Keeps {S} {A} P m h s p = go (m s)
  where
    go : (o : Outcome (A × S)) → Good P o
    go (ok (a, t)) = h t
    go hang = tt
    go panic = tt
