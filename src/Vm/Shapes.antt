-- ===== src/Vm/Shapes.antt =====
-- src/vm/ms_vm.c: the frames of a run of the loop, over those that were there before.
use mathlib.Core.List.{head-eq_of_cons-eq, tail-eq_of_cons-eq}
use mslang_cc.Base.{
  List, [], ◌∷◌, ◌++◌, ℕ, suc, ◌-◌, ◌≤◌, ◌<◌, ◌≡◌, refl, ap, ◌∙◌, arith, length, drop,
  length-append,
}
use mslang_cc.Vm.{Frame}
use mslang_cc.Vm.Frames.{AllInside}
use mslang_cc.Vm.CallSteps.{Shape, stays, enters, leaves}

-- The lowest of the frames of the run has its base at `b`; without frames, the stack ends there.
abbrev pub Bottom : ℕ → ℕ → List Frame → Type 0
Bottom b top [] = top ≡ b
Bottom b top (f ∷ []) = f.base ≡ b
Bottom b top (f ∷ g ∷ fs) = Bottom b top (g ∷ fs)

Bottom-top :
    (b top top' : ℕ) (f : Frame) (fs : List Frame) → Bottom b top (f ∷ fs) → Bottom b top' (f ∷ fs)
Bottom-top b top top' f [] h = h
Bottom-top b top top' f (g ∷ fs) h = Bottom-top b top top' g fs h

pub Bottom-base :
    (b top : ℕ) (f g : Frame) (fs : List Frame)
    → g.base ≡ f.base
    → Bottom b top (f ∷ fs)
    → Bottom b top (g ∷ fs)
Bottom-base b top f g [] e h = e ∙ h
Bottom-base b top f g (x ∷ fs) e h = h

Bottom-left :
    (b top : ℕ) (f : Frame) (fs : List Frame)
    → top ≡ f.base
    → Bottom b top (f ∷ fs)
    → Bottom b top fs
Bottom-left b top f [] e h = e ∙ h
Bottom-left b top f (g ∷ fs) e h = h

-- The frames of a run over those that it keeps.
pub record Above (b : ℕ) (kept frames : List Frame) (top : ℕ) : Type 0 where
  pub above : List Frame
  pub split : frames ≡ above ++ kept
  pub bottom : Bottom b top above

pub Shape-Above :
    (b : ℕ) (kept above : List Frame) (f : Frame) (t0 : ℕ) {under frames : List Frame} {t : ℕ}
    → under ≡ above ++ kept
    → Bottom b t0 (f ∷ above)
    → Shape f.base under frames t
    → Above b kept frames t
Shape-Above b kept above f t0 e h (stays g {t} same) = record {
  above = g ∷ above;
  split = ap (λ (l : List Frame). g ∷ l) e;
  bottom = Bottom-top b t0 t g above (Bottom-base b t0 f g above same h);
}
Shape-Above b kept above f t0 e h (enters x g {t} same) = record {
  above = x ∷ g ∷ above;
  split = ap (λ (l : List Frame). x ∷ g ∷ l) e;
  bottom = Bottom-top b t0 t g above (Bottom-base b t0 f g above same h);
}
Shape-Above b kept above f t0 e h (leaves {t} at_base) = record {
  above = above;
  split = e;
  bottom = Bottom-left b t f above at_base (Bottom-top b t0 t f above h);
}

pub drop-append : (xs ys : List Frame) → drop (length (xs ++ ys) - length ys) (xs ++ ys) ≡ ys
drop-append [] ys = let none_left : length ys - length ys ≡ 0 = omega arith in rw none_left refl
drop-append (x ∷ xs) ys =
    let one : suc (length (xs ++ ys)) - length ys ≡ suc (length (xs ++ ys) - length ys) =
      omega (arith, length-append xs ys) in
    rw one (drop-append xs ys)

pub AllInside-kept : (n : ℕ) (xs ys : List Frame) → AllInside n (xs ++ ys) → AllInside n ys
AllInside-kept n [] ys h = h
AllInside-kept n (x ∷ xs) ys h = AllInside-kept n xs ys h.2

pub no_frames : (xs ys : List Frame) → length (xs ++ ys) ≤ length ys → xs ≡ []
no_frames [] ys h = refl
no_frames (x ∷ xs) ys h = absurd (omega (arith, length-append xs ys))

-- Of the frames of a run, the one on top.
pub record Top (b : ℕ) (kept : List Frame) (f : Frame) (under : List Frame) (top : ℕ) : Type 0 where
  pub above : List Frame
  pub split : under ≡ above ++ kept
  pub bottom : Bottom b top (f ∷ above)

pub own-Top :
    (b : ℕ) (kept above : List Frame) (f : Frame) (under : List Frame) (top : ℕ)
    → f ∷ under ≡ above ++ kept
    → length kept < length (f ∷ under)
    → Bottom b top above
    → Top b kept f under top
own-Top b kept [] f under top e h bottom = absurd (omega (arith, ap length e))
own-Top b kept (x ∷ xs) f under top e h bottom = record {
  above = xs;
  split = tail-eq_of_cons-eq e;
  bottom = Bottom-base b top x f xs (ap (λ (g : Frame). g.base) (head-eq_of_cons-eq e)) bottom;
}
