-- ===== src/Thread/Queue/Segment.antt =====
-- Runs of threads linked by `prev` and `next`.
use mcertikos.Base.{ℕ, ◌<◌, ◌≡◌, ◌≢◌, ◌⊎◌, inl, inr, refl, sym, ◌∙◌, List, [], ◌∷◌, ◌++◌}
use mathlib.Core.Path.{subst}
use mcertikos.Pmm.Container.{num_ids}
use mcertikos.Thread.Tcb.{Tcb}

abbrev pub In : ℕ → List ℕ → Type 0
In y [] = ⊥
In y (x ∷ xs) = (y ≡ x) ⊎ In y xs

abbrev pub NoDup : List ℕ → Type 0
NoDup [] = Unit
NoDup (x ∷ xs) = ¬ In x xs × NoDup xs

-- The first thread of a run, or `n`; the last one, or `q`.
abbrev pub first : List ℕ → ℕ → ℕ
first [] n = n
first (x ∷ xs) n = x

abbrev pub final : ℕ → List ℕ → ℕ
final q [] = q
final q (x ∷ xs) = final x xs

-- The threads are linked in this order, from `q` before the first to `n` behind the last.
abbrev pub IsSegment : (ℕ → Tcb) → ℕ → List ℕ → ℕ → Type 0
IsSegment f q [] n = Unit
IsSegment f q (x ∷ xs) n =
    (x < num_ids) × ((f x).prev ≡ q) × ((f x).next ≡ first xs n) × IsSegment f x xs n

abbrev pub SameLinks : (ℕ → Tcb) → (ℕ → Tcb) → ℕ → Type 0
SameLinks f g y = ((g y).prev ≡ (f y).prev) × ((g y).next ≡ (f y).next)

pub segment_same :
    (f g : ℕ → Tcb) (q : ℕ) (xs : List ℕ) (n : ℕ)
    → ((y : ℕ) → In y xs → SameLinks f g y)
    → IsSegment f q xs n
    → IsSegment g q xs n
segment_same f g q [] n same h = tt
segment_same f g q (x ∷ xs) n same (lt, p, e, h) =
    let (sp, se) = same x (inl refl) in
    (lt, sp ∙ p, se ∙ e, segment_same f g x xs n (λ y i. same y (inr i)) h)

pub final-In : (x : ℕ) (xs : List ℕ) → In (final x xs) (x ∷ xs)
final-In x [] = inl refl
final-In x (y ∷ ys) = inr (final-In y ys)

-- The last thread gets another successor.
pub segment_next :
    (f g : ℕ → Tcb) (q x : ℕ) (xs : List ℕ) (n m : ℕ)
    → NoDup (x ∷ xs)
    → ((y : ℕ) → In y (x ∷ xs) → (g y).prev ≡ (f y).prev)
    → ((y : ℕ) → In y (x ∷ xs) → y ≢ final x xs → (g y).next ≡ (f y).next)
    → (g (final x xs)).next ≡ m
    → IsSegment f q (x ∷ xs) n
    → IsSegment g q (x ∷ xs) m
segment_next f g q x [] n m d sp se e (lt, p, _, _) = (lt, sp x (inl refl) ∙ p, e, tt)
segment_next f g q x (y ∷ ys) n m (new, d) sp se e (lt, p, e', h) =
    let apart : x ≢ final y ys = λ z. new (subst (λ u. In u (y ∷ ys)) (sym z) (final-In y ys)) in
    (
      lt,
      sp x (inl refl) ∙ p,
      se x (inl refl) apart ∙ e',
      segment_next f g x y ys n m d (λ z i. sp z (inr i)) (λ z i. se z (inr i)) e h,
    )

-- The first thread gets another predecessor.
pub segment_prev :
    (f g : ℕ → Tcb) (q r x : ℕ) (xs : List ℕ) (n : ℕ)
    → ((y : ℕ) → In y (x ∷ xs) → (g y).next ≡ (f y).next)
    → ((y : ℕ) → In y xs → (g y).prev ≡ (f y).prev)
    → (g x).prev ≡ r
    → IsSegment f q (x ∷ xs) n
    → IsSegment g r (x ∷ xs) n
segment_prev f g q r x xs n se sp e (lt, p, e', h) =
    (lt, e, se x (inl refl) ∙ e', segment_same f g x xs n (λ y i. (sp y i, se y (inr i))) h)

pub first-append : (xs ys : List ℕ) (n : ℕ) → first (xs ++ ys) n ≡ first xs (first ys n)
first-append [] ys n = refl
first-append (x ∷ xs) ys n = refl

pub final-append : (q : ℕ) (xs ys : List ℕ) → final q (xs ++ ys) ≡ final (final q xs) ys
final-append q [] ys = refl
final-append q (x ∷ xs) ys = final-append x xs ys

pub segment_split :
    (f : ℕ → Tcb) (q : ℕ) (xs ys : List ℕ) (n : ℕ)
    → IsSegment f q (xs ++ ys) n
    → IsSegment f q xs (first ys n) × IsSegment f (final q xs) ys n
segment_split f q [] ys n h = (tt, h)
segment_split f q (x ∷ xs) ys n (lt, p, e, h) =
    let (a, b) = segment_split f x xs ys n h in ((lt, p, e ∙ first-append xs ys n, a), b)

pub segment_join :
    (f : ℕ → Tcb) (q : ℕ) (xs ys : List ℕ) (n : ℕ)
    → IsSegment f q xs (first ys n)
    → IsSegment f (final q xs) ys n
    → IsSegment f q (xs ++ ys) n
segment_join f q [] ys n a b = b
segment_join f q (x ∷ xs) ys n (lt, p, e, a) b =
    (lt, p, e ∙ sym (first-append xs ys n), segment_join f x xs ys n a b)

pub segment-bound :
    (f : ℕ → Tcb) (q : ℕ) (xs : List ℕ) (n y : ℕ) → IsSegment f q xs n → In y xs → y < num_ids
segment-bound f q [] n y h i = elim i [ ]
segment-bound f q (x ∷ xs) n y (lt, _, _, h) (inl e) = subst (λ u. u < num_ids) (sym e) lt
segment-bound f q (x ∷ xs) n y (lt, _, _, h) (inr i) = segment-bound f x xs n y h i

pub In-append : (y : ℕ) (xs ys : List ℕ) → In y (xs ++ ys) → In y xs ⊎ In y ys
In-append y [] ys i = inr i
In-append y (x ∷ xs) ys (inl e) = inl (inl e)
In-append y (x ∷ xs) ys (inr i) = elim (In-append y xs ys i) [ inl a ↦ inl (inr a) | inr b ↦ inr b ]

pub In-left : (y : ℕ) (xs ys : List ℕ) → In y xs → In y (xs ++ ys)
In-left y [] ys i = elim i [ ]
In-left y (x ∷ xs) ys (inl e) = inl e
In-left y (x ∷ xs) ys (inr i) = inr (In-left y xs ys i)

pub In-right : (y : ℕ) (xs ys : List ℕ) → In y ys → In y (xs ++ ys)
In-right y [] ys i = i
In-right y (x ∷ xs) ys i = inr (In-right y xs ys i)

-- No thread of a list without repetition is in both of its parts.
pub NoDup-apart : (xs ys : List ℕ) (y : ℕ) → NoDup (xs ++ ys) → In y xs → ¬ In y ys
NoDup-apart [] ys y d i j = elim i [ ]
NoDup-apart (x ∷ xs) ys y (new, d) (inl e) j = new (In-right x xs ys (subst (λ u. In u ys) e j))
NoDup-apart (x ∷ xs) ys y (new, d) (inr i) j = NoDup-apart xs ys y d i j

pub NoDup-split : (xs ys : List ℕ) → NoDup (xs ++ ys) → NoDup xs × NoDup ys
NoDup-split [] ys d = (tt, d)
NoDup-split (x ∷ xs) ys (new, d) =
    let (a, b) = NoDup-split xs ys d in ((λ i. new (In-left x xs ys i), a), b)

pub NoDup-join :
    (xs ys : List ℕ) → NoDup xs → NoDup ys → ((y : ℕ) → In y xs → ¬ In y ys) → NoDup (xs ++ ys)
NoDup-join [] ys a b apart = b
NoDup-join (x ∷ xs) ys (new, a) b apart = (
  λ i. elim (In-append x xs ys i) [ inl j ↦ new j | inr j ↦ apart x (inl refl) j ],
  NoDup-join xs ys a b (λ y i. apart y (inr i)),
)
