-- ===== src/Client/Inodes/Pairing.antt =====
-- The two directions of the table agree, and a rename onto a path that has an inode breaks this.
use alloyfs.Base.{
  ℕ, ◌+◌, ◌%◌, ◌<◌, ◌≡◌, ◌≢◌, refl, none, some, [], ◌∷◌, ◌++◌, nat_eq, arith, ◌⊎◌, inl, inr,
  Option-cases,
}
use alloyfs.Base.Text.{text_eq, text_beq_iff, strip_prefix}
use alloyfs.Base.Table.{get, insert, remove, get-insert, get-insert_self, get-insert_ne, get-remove}
use alloyfs.Proto.Path.{RelPath, slash}
use alloyfs.Client.Inodes.{
  InodeTable, root_ino, ino_mod, get_or_alloc, path_of, ino_of, retarget, affected, retarget_one,
  retarget_all, rename, forget,
}

pub record IsPairing (t : InodeTable) : Type 0 where
  pub there : (ino : ℕ) (path : RelPath) → path_of t ino ≡ some path → ino_of t path ≡ some ino
  pub back : (ino : ℕ) (path : RelPath) → ino_of t path ≡ some ino → path_of t ino ≡ some path
  pub below : (ino : ℕ) (path : RelPath) → path_of t ino ≡ some path → ino < t.next

next_unused : (t : InodeTable) → IsPairing t → get t.next t.by_ino ≡ none
unfolding path_of
next_unused t h = elim (Option-cases (get t.next t.by_ino)) [
  | inl unused ↦ unused
  | inr (path, used) ↦ ground (arith, h.below t.next path)
]

abbrev allocated : InodeTable → RelPath → InodeTable
allocated t path = record {
  by_ino = insert t.next path t.by_ino;
  by_path = insert path t.next t.by_path;
  next = (t.next + 1) % ino_mod;
}

allocated-IsPairing :
    (t : InodeTable) (path : RelPath)
    → IsPairing t
    → t.next + 1 < ino_mod
    → get path t.by_path ≡ none
    → IsPairing (allocated t path)
unfolding path_of ino_of
allocated-IsPairing t path h room fresh = record {
  there = λ ino p e. ground (
    arith,
    get-insert t.next ino path t.by_ino,
    get-insert path p t.next t.by_path,
    text_beq_iff path p,
    h.there ino p,
  );
  back = λ ino p e. ground (
    arith,
    get-insert t.next ino path t.by_ino,
    get-insert path p t.next t.by_path,
    text_beq_iff path p,
    h.back ino p,
    h.below ino p,
  );
  below = λ ino p e. ground (arith, get-insert t.next ino path t.by_ino, h.below ino p);
}

-- A path gets an inode that leads back to it, the one that it had or one that no path had. The
-- pairing of numbers and paths stays one to one, and no other path gets or loses a number.
pub get_or_alloc_lem :
    (t : InodeTable) (path : RelPath)
    → IsPairing t
    → t.next + 1 < ino_mod
    → let (after, ino) = get_or_alloc t path in
      (path_of after ino ≡ some path)
      × (ino_of after path ≡ some ino)
      × ((ino_of t path ≡ some ino) ⊎ (path_of t ino ≡ none))
      × ((other : RelPath) → path ≢ other → ino_of after other ≡ ino_of t other)
      × IsPairing after
unfolding get_or_alloc path_of ino_of
get_or_alloc_lem t path h room = elim (Option-cases (get path t.by_path)) [
  | inl fresh ↦
      rw (fresh, get_or_alloc)
        (
          get-insert_self t.next path t.by_ino,
          get-insert_self path t.next t.by_path,
          inr (next_unused t h),
          λ other n. get-insert_ne path other t.next t.by_path n,
          allocated-IsPairing t path h room fresh,
        )
  | inr (ino, known) ↦
      rw (known, get_or_alloc) (h.back ino path known, known, inl refl, λ other n. refl, h)
]

forgotten-IsPairing :
    (t : InodeTable) (ino : ℕ) (path : RelPath)
    → IsPairing t
    → get ino t.by_ino ≡ some path
    → IsPairing (record t { by_ino = remove ino t.by_ino; by_path = remove path t.by_path })
unfolding path_of ino_of
forgotten-IsPairing t ino path h known = record {
  there = λ i p e. ground (
    arith,
    get-remove ino i t.by_ino,
    get-remove path p t.by_path,
    text_beq_iff path p,
    h.there i p,
    h.there ino path,
  );
  back = λ i p e. ground (
    arith,
    get-remove ino i t.by_ino,
    get-remove path p t.by_path,
    text_beq_iff path p,
    h.back i p,
    h.back ino path,
  );
  below = λ i p e. ground (arith, get-remove ino i t.by_ino, h.below i p);
}

-- `forget` takes the inode and its path away, except for the root, and keeps every other pair.
pub forget_lem :
    (t : InodeTable) (ino : ℕ)
    → IsPairing t
    → ino ≢ root_ino
    → let after = forget t ino in
      (path_of after ino ≡ none)
      × ((other : ℕ) → ino ≢ other → path_of after other ≡ path_of t other)
      × IsPairing after
unfolding forget path_of ino_of
forget_lem t ino h not_root = elim (Option-cases (get ino t.by_ino)) [
  | inl absent ↦ (ground arith, λ other n. ground arith, ground (arith, h))
  | inr (path, known) ↦ (
    ground (arith, get-remove ino ino t.by_ino),
    λ other n. ground (arith, get-remove ino other t.by_ino),
    ground (arith, forgotten-IsPairing t ino path h known),
  )
]

-- When a path is renamed onto a path that has an inode, two inodes lead to the new path; and when
-- the kernel then forgets the inode that was replaced, the new path has no inode any more, although
-- the inode that was renamed still leads to it.
pub rename_then_forget :
    (a b : ℕ) (from to : RelPath) (next : ℕ)
    → a ≢ b
    → b ≢ root_ino
    → from ≢ to
    → strip_prefix (from ++ slash ∷ []) to ≡ none
    → let t : InodeTable = record {
      by_ino = (a, from) ∷ (b, to) ∷ [];
      by_path = (from, a) ∷ (to, b) ∷ [];
      next = next;
    } in
      let renamed = rename t from to in
      (path_of renamed a ≡ some to)
      × (path_of renamed b ≡ some to)
      × (ino_of (forget renamed b) to ≡ none)
      × (path_of (forget renamed b) a ≡ some to)
unfolding rename affected retarget retarget_all retarget_one forget path_of ino_of get insert remove
rename_then_forget a b from to next ne root diff outside = (
  ground (
    arith,
    text_beq_iff from to,
    text_beq_iff to from,
    text_beq_iff from from,
    text_beq_iff to to,
  ),
  ground (
    arith,
    text_beq_iff from to,
    text_beq_iff to from,
    text_beq_iff from from,
    text_beq_iff to to,
  ),
  ground (
    arith,
    text_beq_iff from to,
    text_beq_iff to from,
    text_beq_iff from from,
    text_beq_iff to to,
  ),
  ground (
    arith,
    text_beq_iff from to,
    text_beq_iff to from,
    text_beq_iff from from,
    text_beq_iff to to,
  ),
)
