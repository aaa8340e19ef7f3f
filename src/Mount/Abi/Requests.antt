-- ===== src/Mount/Abi/Requests.antt =====
-- What the daemon parses, against the layout that the kernel module writes: the fields of the C
-- structure behind each other, its padding included.
use alloyfs.Base.{
  ℕ, ◌+◌, ◌<◌, ◌≡◌, ap, sym, ◌∙◌, none, some, List, [], ◌∷◌, ◌++◌, length, length-append, take,
  drop, take-length-append, drop-length-append, arith, inl, inr, Bool-cases, ◌==◌, if◌then◌else◌,
  leb, ltb, Option-cases, take-append-drop, length-take, length-drop, ◌&&◌, ◌≢◌, not,
}
use native.Mathlib.Nat.{suc-add}
use alloyfs.Proto.Messages.{Bytes, LockKind, shared, exclusive}
use alloyfs.Mount.Abi.Words.{
  ByteOrder, to_ne_bytes, from_ne_bytes, bound, length-to_ne_bytes, from_ne_bytes-to_ne_bytes,
}
use alloyfs.Mount.Abi.{
  InHeader, in_header_len, read_buf_len, parse, parse_rename_in, rename_in_len, two_names,
  parse_symlink_in, parse_setattr_in, SetattrIn, parse_lock_in, lock_shared, lock_exclusive,
}

pub drop-append : (a b : Bytes) (off : ℕ) → drop (length a + off) (a ++ b) ≡ drop off b
drop-append [] b off = ap (λ k. drop k b) (omega arith)
drop-append (x ∷ a) b off =
    ap (λ k. drop k (x ∷ a ++ b)) (suc-add (length a) off) ∙ drop-append a b off

-- Words behind each other, each with its number of bytes.
abbrev pub widths : List (ℕ × ℕ) → ℕ
widths [] = 0
widths ((w, n) ∷ ws) = w + widths ws

module _ (o : ByteOrder) where
  abbrev pub words : List (ℕ × ℕ) → Bytes → Bytes
  words [] rest = rest
  words ((w, n) ∷ ws) rest = to_ne_bytes o w n ++ words ws rest

  abbrev pub word : ℕ → ℕ → Bytes → ℕ
  word w off b = from_ne_bytes o (take w (drop off b))

  pub drop-words :
      (ws : List (ℕ × ℕ)) (off : ℕ) (rest : Bytes)
      → drop (widths ws + off) (words ws rest) ≡ drop off rest
  drop-words [] off rest = ap (λ k. drop k rest) (omega arith)
  drop-words ((w, n) ∷ ws) off rest =
      ap (λ k. drop k (to_ne_bytes o w n ++ words ws rest))
        (omega (arith, length-to_ne_bytes o w n))
      ∙ drop-append (to_ne_bytes o w n) (words ws rest) (widths ws + off)
      ∙ drop-words ws off rest

  pub length-words :
      (ws : List (ℕ × ℕ)) (rest : Bytes) → length (words ws rest) ≡ widths ws + length rest
  length-words [] rest = omega arith
  length-words ((w, n) ∷ ws) rest = omega (
    arith,
    length-append (to_ne_bytes o w n) (words ws rest),
    length-to_ne_bytes o w n,
    length-words ws rest,
  )

  word-front : (w n : ℕ) (rest : Bytes) → n < bound w → word w 0 (to_ne_bytes o w n ++ rest) ≡ n
  word-front w n rest h =
      ap (λ k. from_ne_bytes o (take k (to_ne_bytes o w n ++ rest)))
        (sym (length-to_ne_bytes o w n))
      ∙ ap (from_ne_bytes o) (take-length-append (to_ne_bytes o w n) rest)
      ∙ from_ne_bytes-to_ne_bytes o w n h

  -- The word that stands behind others is read at the sum of their widths.
  pub word-words :
      (ws : List (ℕ × ℕ)) (w n : ℕ) (rest : Bytes)
      → n < bound w
      → word w (widths ws) (words ws (to_ne_bytes o w n ++ rest)) ≡ n
  word-words ws w n rest h =
      ap (λ k. word w k (words ws (to_ne_bytes o w n ++ rest))) (omega arith)
      ∙ ap (λ b. from_ne_bytes o (take w b)) (drop-words ws 0 (to_ne_bytes o w n ++ rest))
      ∙ word-front w n rest h

  -- `struct alloyfs_in_header`, which ends in four bytes of padding.
  abbrev pub in_header_words : InHeader → (pad : ℕ) → List (ℕ × ℕ)
  in_header_words h pad =
      (4, h.len)
      ∷ (4, h.opcode)
      ∷ (8, h.unique)
      ∷ (8, h.nodeid)
      ∷ (8, h.offset)
      ∷ (4, h.size)
      ∷ (4, pad)
      ∷ []

  pub record Fits (h : InHeader) : Type 0 where
    pub len : h.len < bound 4
    pub opcode : h.opcode < bound 4
    pub unique : h.unique < bound 8
    pub nodeid : h.nodeid < bound 8
    pub offset : h.offset < bound 8
    pub size : h.size < bound 4

  -- A request that the kernel module wrote is parsed to its header, whatever stands behind it,
  -- exactly when its length covers the header, is within the limit, and is there.
  pub parse-in_header :
      (h : InHeader) (pad : ℕ) (rest : Bytes)
      → Fits h
      → parse o (words (in_header_words h pad) rest) ≡ (
          if leb in_header_len h.len && (leb h.len (40 + length rest) && leb h.len read_buf_len)
          then some h
          else none)
  unfolding parse
  parse-in_header h pad rest f =
      let behind : ℕ → List (ℕ × ℕ) = λ k. drop k (in_header_words h pad) in
      let front : ℕ → List (ℕ × ℕ) = λ k. take k (in_header_words h pad) in
      ground (
        arith,
        length-words (in_header_words h pad) rest,
        word-words [] 4 h.len (words (behind 1) rest) f.len,
        word-words (front 1) 4 h.opcode (words (behind 2) rest) f.opcode,
        word-words (front 2) 8 h.unique (words (behind 3) rest) f.unique,
        word-words (front 3) 8 h.nodeid (words (behind 4) rest) f.nodeid,
        word-words (front 4) 8 h.offset (words (behind 5) rest) f.offset,
        word-words (front 5) 4 h.size (words (behind 6) rest) f.size,
      )

  -- `struct alloyfs_rename_in` with the two names behind it.
  abbrev pub rename_in : (newparent pad : ℕ) → (name newname : Bytes) → Bytes → Bytes
  rename_in newparent pad name newname rest =
      words ((8, newparent) ∷ (2, length name) ∷ (2, length newname) ∷ (4, pad) ∷ [])
        (name ++ (newname ++ rest))

  -- `struct alloyfs_symlink_in`
  abbrev pub symlink_in : (pad : ℕ) → (name target : Bytes) → Bytes → Bytes
  symlink_in pad name target rest =
      words ((2, length name) ∷ (2, length target) ∷ (4, pad) ∷ []) (name ++ (target ++ rest))

  two_names-append :
      (a b rest : Bytes) → two_names o (length a) (length b) (a ++ (b ++ rest)) ≡ some (a, b)
  two_names-append a b rest = ground (
    arith,
    length-append a (b ++ rest),
    length-append b rest,
    take-length-append a (b ++ rest),
    drop-length-append a (b ++ rest),
    take-length-append b rest,
  )

  -- A rename and a symbolic link that the kernel module wrote are parsed to the names in them, and
  -- what stands behind the names is ignored.
  pub parse-two_names :
      (newparent pad : ℕ) (a b rest : Bytes)
      → newparent < bound 8
      → length a < bound 2
      → length b < bound 2
      → (parse_rename_in o (rename_in newparent pad a b rest) ≡ some (newparent, a, b))
        × (parse_symlink_in o (symlink_in pad a b rest) ≡ some (a, b))
  unfolding parse_rename_in parse_symlink_in
  parse-two_names newparent pad a b rest hp ha hb =
      let names = a ++ (b ++ rest) in
      (
        ground (
          arith,
          two_names-append a b rest,
          length-words ((8, newparent) ∷ (2, length a) ∷ (2, length b) ∷ (4, pad) ∷ []) names,
          drop-words ((8, newparent) ∷ (2, length a) ∷ (2, length b) ∷ (4, pad) ∷ []) 0 names,
          word-words [] 8 newparent (words ((2, length a) ∷ (2, length b) ∷ (4, pad) ∷ []) names)
              hp,
          word-words ((8, newparent) ∷ []) 2 (length a)
              (words ((2, length b) ∷ (4, pad) ∷ []) names) ha,
          word-words ((8, newparent) ∷ (2, length a) ∷ []) 2 (length b)
              (words ((4, pad) ∷ []) names) hb,
        ),
        ground (
          arith,
          two_names-append a b rest,
          length-words ((2, length a) ∷ (2, length b) ∷ (4, pad) ∷ []) names,
          drop-words ((2, length a) ∷ (2, length b) ∷ (4, pad) ∷ []) 0 names,
          word-words [] 2 (length a) (words ((2, length b) ∷ (4, pad) ∷ []) names) ha,
          word-words ((2, length a) ∷ []) 2 (length b) (words ((4, pad) ∷ []) names) hb,
        ),
      )

  two_names-inside :
      (m n : ℕ) (names a b : Bytes)
      → two_names o m n names ≡ some (a, b)
      → (rest : Bytes) × (names ≡ a ++ (b ++ rest)) × (length a ≡ m) × (length b ≡ n)
  two_names-inside m n names a b h = elim (Bool-cases (ltb (length names) (m + n))) [
    | inl short ↦ ground arith
    | inr fits ↦ (
      drop n (drop m names),
      ground (arith, take-append-drop m names, take-append-drop n (drop m names)),
      ground (arith, length-take m names),
      ground (arith, length-drop m names, length-take n (drop m names)),
    )
  ]

  names_there :
      (payload a b : Bytes) (newparent : ℕ)
      → parse_rename_in o payload ≡ some (newparent, a, b)
      → two_names o (word 2 8 payload) (word 2 10 payload) (drop rename_in_len payload)
        ≡ some (a, b)
  unfolding parse_rename_in
  names_there payload a b newparent h =
      elim (Option-cases
        (two_names o (word 2 8 payload) (word 2 10 payload) (drop rename_in_len payload))) [
          | inl nothing ↦ ground arith
          | inr (names, there) ↦ ground arith
        ]

  -- However long the two names are said to be, what is parsed lies in the payload, one behind the
  -- other, with the lengths that are said.
  pub parse_rename_in-inside :
      (payload a b : Bytes) (newparent : ℕ)
      → parse_rename_in o payload ≡ some (newparent, a, b)
      → (rest : Bytes) × (drop rename_in_len payload ≡ a ++ (b ++ rest))
        × (length a ≡ word 2 8 payload)
        × (length b ≡ word 2 10 payload)
  unfolding parse_rename_in
  parse_rename_in-inside payload a b newparent h =
      two_names-inside (word 2 8 payload) (word 2 10 payload) (drop rename_in_len payload) a b
        (names_there payload a b newparent h)

  abbrev pub lock_number : LockKind → ℕ
  lock_number shared = lock_shared
  lock_number exclusive = lock_exclusive

  -- A lock request is read with its kind and its wait, and any other number of a kind is refused.
  pub parse_lock_in_lem :
      (number wait : ℕ) (rest : Bytes)
      → number < bound 4
      → wait < bound 4
      → let parsed = parse_lock_in o (words ((4, number) ∷ (4, wait) ∷ []) rest) in
        ((k : LockKind)
          → number ≡ lock_number k
          → parsed ≡ some (record { kind = k; wait = not (wait == 0) }))
        × (((k : LockKind) → number ≢ lock_number k) → parsed ≡ none)
  unfolding parse_lock_in
  parse_lock_in_lem number wait rest hn hw =
      let e_number = word-words [] 4 number (words ((4, wait) ∷ []) rest) hn in
      let e_wait = word-words ((4, number) ∷ []) 4 wait rest hw in
      let e_length = length-words ((4, number) ∷ (4, wait) ∷ []) rest in
      (
        λ k e. elim k [ shared ↦ ground arith | exclusive ↦ ground arith ],
        λ h. ground (arith, h shared, h exclusive),
      )

  -- The attributes that a setattr request carries are read back.
  pub parse_setattr_in_lem :
      (s : SetattrIn) (rest : Bytes)
      → s.valid < bound 4
      → s.mode < bound 4
      → s.size < bound 8
      → s.mtime_ns < bound 8
      → parse_setattr_in o
          (words ((4, s.valid) ∷ (4, s.mode) ∷ (8, s.size) ∷ (8, s.mtime_ns) ∷ []) rest)
        ≡ some s
  unfolding parse_setattr_in
  parse_setattr_in_lem s rest hv hm hs ht = ground (
    arith,
    length-words ((4, s.valid) ∷ (4, s.mode) ∷ (8, s.size) ∷ (8, s.mtime_ns) ∷ []) rest,
    word-words [] 4 s.valid (words ((4, s.mode) ∷ (8, s.size) ∷ (8, s.mtime_ns) ∷ []) rest) hv,
    word-words ((4, s.valid) ∷ []) 4 s.mode (words ((8, s.size) ∷ (8, s.mtime_ns) ∷ []) rest) hm,
    word-words ((4, s.valid) ∷ (4, s.mode) ∷ []) 8 s.size (words ((8, s.mtime_ns) ∷ []) rest) hs,
    word-words ((4, s.valid) ∷ (4, s.mode) ∷ (8, s.size) ∷ []) 8 s.mtime_ns rest ht,
  )
