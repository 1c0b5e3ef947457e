-- ===== src/Proto/Build.antt =====
-- `msProtoBuild`, and the first error of a builder, which every later operation returns.
use mslang_cc.Base.{
  true, false, Option, none, some, List, [], ℕ, ◌≡◌, refl, ap, ◌≢◌, inl, inr, ◌==◌, Bool-cases,
  length,
}
use mslang_cc.Floats.{Floats}
use mslang_cc.Memory.{Mem, alloc}
use mslang_cc.Proto.{ok, is_ok, Proto, Builder, builder_init, shrink_all, proto_size, arrays, build}
use mslang_cc.Proto.Emit.{is_ok-ok}

-- What building hands over, and what it leaves.
abbrev pub Builds : Builder → Option Proto × Builder × Mem → Type 0
Builds b (some p, b', m') =
    (b.error ≡ ok) × (b.proto.code ≢ []) × (p ≡ b.proto) × (b' ≡ builder_init)
Builds b (none, b', m') = (b'.proto ≡ b.proto) × (is_ok b'.error ≡ false)

-- A build succeeds only on a builder without error that has code: it hands over the proto that was
-- built up, and the builder is as new. Else the proto stays and the builder holds an error.
pub build-Builds : (b : Builder) (m : Mem) → Builds b (build b m)
unfolding build
build-Builds b m =
    let (shrunk, m1) = shrink_all (arrays b) m in
    elim (Bool-cases (is_ok b.error)) [
      | inr failed ↦ rw (failed, build) (refl, failed)
      | inl fine ↦ elim (Bool-cases (length b.proto.code == 0)) [
        | inl empty ↦ rw (fine, empty, build) (refl, refl)
        | inr long ↦
            let some_code = λ (e : b.proto.code ≡ []).
              (let none_left : (length b.proto.code == 0) ≡ true =
                  ap (λ (xs : List ℕ). length xs == 0) e in
                absurd cc) in
            elim (Bool-cases shrunk) [
              | inr stuck ↦ rw (fine, long, stuck, build) (refl, refl)
              | inl exact ↦ elim (Bool-cases (alloc proto_size m1).0) [
                | inr refused ↦ rw (fine, long, exact, refused, build) (refl, refl)
                | inl granted ↦
                    rw (fine, long, exact, granted, build)
                      (is_ok-ok b.error fine, some_code, refl, refl)
              ]
            ]
      ]
    ]
