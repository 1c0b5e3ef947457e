-- ===== src/Base/Loop.antt =====
-- A `for (;;)` loop: its body goes round again with a new state, or leaves the loop with a result.
use Prim.Native.Nat.{ℕ, zero, suc, ◌<◌}
use mathlib.Core.Path.{◌≡◌, subst}
use mathlib.Core.Bool.{Bool, true, false}
use mathlib.Core.Option.{Option, none, some}
use mathlib.Core.Path.{refl}
use native.Mathlib.Omega.{arith}
use mslang_cc.Base.Tests.{if◌then◌else◌}

pub data Round (S R : Type 0) : Type 0 where
  again : S → Round S R
  leave : R → Round S R

-- `none` means that the fuel ran out.
unfoldable pub loop : {S R : Type 0} → ℕ → (S → Round S R) → S → Option R
loop zero body s = none
loop (suc fuel) body s = elim (body s) [ again s' ↦ loop fuel body s' | leave r ↦ some r ]

infixl 5 ◌>>=◌
abbrev pub ◌>>=◌ : {A B : Type 0} → Option A → (A → Option B) → Option B
none >>= f = none
some a >>= f = f a

-- The computation ends, with a result for which `P` holds.
abbrev pub Returns : {A : Type 0} → Option A → (A → Type 0) → Type 0
Returns none P = ⊥
Returns (some a) P = P a

-- What a round does: the next state or the result.
abbrev pub Does : {S R : Type 0} → Round S R → (S → Type 0) → (R → Type 0) → Type 0
Does (again s) P Q = P s
Does (leave r) P Q = Q r

-- A property of a conditional, branch by branch.
pub if_rule :
    {A : Type 0} (P : A → Type 0) (b : Bool) {x y : A}
    → (b ≡ true → P x)
    → (b ≡ false → P y)
    → P (if b then x else y)
if_rule P true t f = t refl
if_rule P false t f = f refl

-- A property of a split on an optional value, case by case.
pub option_rule {ℓ κ ι} :
    {A : Type ℓ} {B : Type κ} (P : B → Type ι) (o : Option A) {x : B} {f : A → B}
    → (o ≡ none → P x)
    → ((a : A) → o ≡ some a → P (f a))
    → P (elim o [ none ↦ x | some a ↦ f a ])
option_rule P none n s = n refl
option_rule P (some a) n s = s a refl

-- The postcondition of a bind from those of its parts.
pub bind_rule :
    {A B : Type 0} (P : A → Type 0) (Q : B → Type 0) (m : Option A) (f : A → Option B)
    → Returns m P
    → ((a : A) → P a → Returns (f a) Q)
    → Returns (m >>= f) Q
bind_rule P Q none f h k = h
bind_rule P Q (some a) f h k = k a h

pub Returns-some :
    {A : Type 0} (P : A → Type 0) {m : Option A} {a : A} → m ≡ some a → Returns m P → P a
Returns-some P {a = a} e h = subst (λ m. Returns m P) e h

pub Returns-none : {A : Type 0} (P : A → Type 0) {m : Option A} → m ≡ none → Returns m P → ⊥
Returns-none P e h = subst (λ m. Returns m P) e h

-- A loop that is left with an optional value.
pub join_rule :
    {A : Type 0} (P : A → Type 0) (m : Option (Option A))
    → Returns m (λ r. Returns r P)
    → Returns (m >>= λ r. r) P
join_rule P none h = h
join_rule P (some r) h = h

round_rule :
    {S R : Type 0} (I : S → Type 0) (Q : R → Type 0) (r : Round S R) (rest : S → Option R)
    → Does r I Q
    → ((s : S) → I s → Returns (rest s) Q)
    → Returns (elim r [ again s ↦ rest s | leave x ↦ some x ]) Q
round_rule I Q (again s) rest h k = k s h
round_rule I Q (leave x) rest h k = h

-- A loop whose rounds keep the invariant and shrink the state ends, if the fuel is above its size.
pub loop_rule :
    {S R : Type 0} (I : S → Type 0) (Q : R → Type 0) (size : S → ℕ) (body : S → Round S R)
    → ((s : S) → I s → Does (body s) (λ s'. I s' × (size s' < size s)) Q)
    → (fuel : ℕ) (s : S) → size s < fuel
    → I s
    → Returns (loop fuel body s) Q
unfolding loop
loop_rule I Q size body keep zero s m h = absurd (omega arith)
loop_rule I Q size body keep (suc fuel) s m h =
    round_rule (λ s'. I s' × (size s' < size s)) Q (body s) (loop fuel body) (keep s h)
      (λ s' h'. loop_rule I Q size body keep fuel s' (omega (arith, h'.1)) h'.0)

-- From two postconditions of a round, a third.
pub both_rule :
    {S R : Type 0} (P P' P'' : S → Type 0) (Q Q' : R → Type 0) (r : Round S R)
    → ((s : S) → P s → P' s → P'' s)
    → Does r P Q
    → Does r P' Q'
    → Does r P'' (λ x. Q x × Q' x)
both_rule P P' P'' Q Q' (again s) f h k = f s h k
both_rule P P' P'' Q Q' (leave x) f h k = (h, k)

pub Returns-exists :
    {A : Type 0} (P : A → Type 0) (m : Option A) → Returns m P → (a : A) × (m ≡ some a)
Returns-exists P none h = absurd h
Returns-exists P (some a) h = (a, refl)

pub Returns-map :
    {A : Type 0} (P Q : A → Type 0) (m : Option A)
    → ((a : A) → P a → Q a)
    → Returns m P
    → Returns m Q
Returns-map P Q none f h = h
Returns-map P Q (some a) f h = f a h

-- If the computation ends, `P` holds of its result.
abbrev pub Ends : {A : Type 0} → Option A → (A → Type 0) → Type 0
Ends none P = Unit
Ends (some a) P = P a

round_keeps :
    {S R : Type 0} (I : S → Type 0) (Q : R → Type 0) (r : Round S R) (rest : S → Option R)
    → Does r I Q
    → ((s : S) → I s → Ends (rest s) Q)
    → Ends (elim r [ again s ↦ rest s | leave x ↦ some x ]) Q
round_keeps I Q (again s) rest h k = k s h
round_keeps I Q (leave x) rest h k = h

-- A loop whose rounds keep the invariant, and that may go on forever.
pub loop_keeps :
    {S R : Type 0} (I : S → Type 0) (Q : R → Type 0) (body : S → Round S R)
    → ((s : S) → I s → Does (body s) I Q)
    → (fuel : ℕ) (s : S) → I s
    → Ends (loop fuel body s) Q
unfolding loop
loop_keeps I Q body keep zero s h = tt
loop_keeps I Q body keep (suc fuel) s h =
    round_keeps I Q (body s) (loop fuel body) (keep s h)
      (λ s' h'. loop_keeps I Q body keep fuel s' h')

pub Ends-bind :
    {A B : Type 0} (P : A → Type 0) (Q : B → Type 0) (m : Option A) (f : A → B)
    → Ends m P
    → ((a : A) → P a → Q (f a))
    → Ends (m >>= λ a. some (f a)) Q
Ends-bind P Q none f h k = tt
Ends-bind P Q (some a) f h k = k a h
