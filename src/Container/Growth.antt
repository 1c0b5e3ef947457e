-- ===== src/Container/Growth.antt =====
-- Appending to a list: what it holds, and that it never writes past its capacity.
use mslang_cc.Base.{
  some, [], ◌∷◌, ◌++◌, ℕ, ◌≤◌, ◌<◌, ◌≡◌, refl, inl, inr, arith, Option-cases, length, length-append,
}
use mslang_cc.Memory.{Mem}
use mslang_cc.Object.{Ref}
use mslang_cc.Proto.{MsResult, ok, error_oom}
use mslang_cc.Container.{Storage, grow_storage, storage_room, push, list_append}

-- What an append does.
abbrev pub Pushes : {A : Type 0} → A → Storage A → MsResult × Storage A × Mem → Type 0
Pushes a s (ok, s', m') =
    (s'.items ≡ s.items ++ a ∷ []) × (length s'.items ≤ s'.capacity) × (s.capacity ≤ s'.capacity)
Pushes a s (r, s', m') = (r ≡ error_oom) × (s' ≡ s)

storage_room-lt :
    {A : Type 0} (size : ℕ) (s : Storage A) (m : Mem) (c : ℕ)
    → length s.items ≤ s.capacity
    → (storage_room size s m).0 ≡ some c
    → (length s.items < c) × (s.capacity ≤ c)
unfolding storage_room grow_storage
storage_room-lt size s m c h e = ground arith

pub push-Pushes :
    {A : Type 0} (size : ℕ) (a : A) (s : Storage A) (m : Mem)
    → length s.items ≤ s.capacity
    → Pushes a s (push size a s m)
unfolding push
push-Pushes size a s m h = elim (Option-cases (storage_room size s m).0) [
  | inl stop ↦ rw (stop, push) (refl, refl)
  | inr (c, room) ↦
      let (lt, le) = storage_room-lt size s m c h room in
      rw (room, push) (refl, omega (arith, length-append s.items (a ∷ [])), le)
]

-- An append to a list within its capacity adds the value at the end, and the list stays within its
-- capacity, which never shrinks; or memory ran out and the list is as it was.
pub list_append-Pushes :
    (v : Ref) (s : Storage Ref) (m : Mem)
    → length s.items ≤ s.capacity
    → Pushes v s (list_append v s m)
unfolding list_append
list_append-Pushes v s m h = push-Pushes 8 v s m h
