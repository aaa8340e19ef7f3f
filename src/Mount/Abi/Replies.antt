-- ===== src/Mount/Abi/Replies.antt =====
-- What the daemon writes, against a reader of the kernel module's structures.
use alloyfs.Base.{
  ℕ, ◌+◌, ◌-◌, ◌%◌, ◌<◌, ◌≤◌, ◌≡◌, refl, ap, sym, ◌∙◌, Bool, true, false, none, some, List, [], ◌∷◌,
  ◌++◌, length, length-append, take, drop, take-length-append, drop-length-append, arith,
  if◌then◌else◌, ltb, ◌==◌, ◌||◌, ◌≢◌, ◌↔◌,
}
use mathlib.Core.List.{append-nil}
use alloyfs.Proto.Messages.{Bytes}
use alloyfs.Mount.Abi.Words.{ByteOrder, bound, zeros, length-zeros}
use alloyfs.Mount.Abi.Requests.{word, words, drop-append, drop-words, length-words, word-words}
use alloyfs.Mount.Abi.{
  push_dirent, dirent_size, dirent_len, max_name, response, out_header_len, Notification, encode,
  notify_f_isdir,
}

length-nil : (b : Bytes) → (length b ≡ 0) → b ≡ []
length-nil [] h = refl
length-nil (x ∷ b) h = ground arith

pub record Dirent : Type 0 where
  pub nodeid : ℕ
  pub off : ℕ
  pub ty : ℕ
  pub name : Bytes

module _ (o : ByteOrder) where
  -- `struct alloyfs_dirent`: the fields, the name, and zeros up to a multiple of eight.
  abbrev pub padding : Bytes → ℕ
  padding name = dirent_size (length name) - dirent_len - length name

  abbrev pub dirent_bytes : Dirent → Bytes → Bytes
  dirent_bytes d rest =
      words o ((8, d.nodeid) ∷ (8, d.off) ∷ (4, length d.name) ∷ (4, d.ty) ∷ [])
        (d.name ++ (zeros (padding d.name) ++ rest))

  -- The kernel module's view of the entry at the front of a buffer, and what is behind it.
  abbrev pub first_dirent : Bytes → Dirent × Bytes
  first_dirent b =
      let namelen = word o 4 16 b in
      (
        record {
          nodeid = word o 8 0 b;
          off = word o 8 8 b;
          ty = word o 4 20 b;
          name = take namelen (drop dirent_len b);
        },
        drop (dirent_size namelen) b,
      )

  abbrev dirent_words : Dirent → List (ℕ × ℕ)
  dirent_words d = (8, d.nodeid) ∷ (8, d.off) ∷ (4, length d.name) ∷ (4, d.ty) ∷ []

  length-dirent_bytes :
      (d : Dirent) (rest : Bytes)
      → length (dirent_bytes d rest) ≡ dirent_size (length d.name) + length rest
  length-dirent_bytes d rest = omega (
    arith,
    length-words o (dirent_words d) (d.name ++ (zeros (padding d.name) ++ rest)),
    length-append d.name (zeros (padding d.name) ++ rest),
    length-append (zeros (padding d.name)) rest,
    length-zeros (padding d.name),
  )

  drop-dirent_bytes :
      (d : Dirent) (rest : Bytes) → drop (dirent_size (length d.name)) (dirent_bytes d rest) ≡ rest
  drop-dirent_bytes d rest =
      ap (λ k. drop k (dirent_bytes d rest)) (omega arith)
      ∙ drop-words o (dirent_words d) (length d.name + padding d.name)
          (d.name ++ (zeros (padding d.name) ++ rest))
      ∙ drop-append d.name (zeros (padding d.name) ++ rest) (padding d.name)
      ∙ ap (λ k. drop k (zeros (padding d.name) ++ rest)) (sym (length-zeros (padding d.name)))
      ∙ drop-length-append (zeros (padding d.name)) rest

  pub record FitsDirent (d : Dirent) : Type 0 where
    pub nodeid : d.nodeid < bound 8
    pub off : d.off < bound 8
    pub ty : d.ty < bound 4

  -- `push_dirent` appends an entry exactly when its name is neither empty nor too long and the entry
  -- stays within the limit, and otherwise appends nothing. The buffer then ends in the entry, which
  -- takes a multiple of eight bytes.
  pub push_dirent_lem :
      (out : Bytes) (limit : ℕ) (d : Dirent)
      → let after = push_dirent o out limit d.nodeid d.off d.ty d.name in
        let size = dirent_size (length d.name) in
        (after.1 ≡ (
          if length d.name == 0 || (ltb max_name (length d.name) || ltb limit (length out + size))
          then false
          else true))
        × (after.0 ≡ (if after.1 then out ++ dirent_bytes d [] else out))
        × (length (dirent_bytes d []) ≡ size)
        × (size % 8 ≡ 0)
  unfolding push_dirent
  push_dirent_lem out limit d = (
    ground arith,
    ground (arith, append-nil (zeros (padding d.name))),
    omega (arith, length-dirent_bytes d []),
    omega arith,
  )

  -- An entry with a name of a file is read back from the front of the buffer, and the reader then
  -- stands on what follows it.
  pub first_dirent-dirent_bytes :
      (d : Dirent) (rest : Bytes)
      → FitsDirent d
      → length d.name ≤ max_name
      → first_dirent (dirent_bytes d rest) ≡ (d, rest)
  first_dirent-dirent_bytes d rest f h =
      let tail = d.name ++ (zeros (padding d.name) ++ rest) in
      let e_nodeid =
        word-words o [] 8 d.nodeid (words o ((8, d.off) ∷ (4, length d.name) ∷ (4, d.ty) ∷ []) tail)
          f.nodeid in
      let e_off =
        word-words o ((8, d.nodeid) ∷ []) 8 d.off
          (words o ((4, length d.name) ∷ (4, d.ty) ∷ []) tail) f.off in
      let e_len =
        word-words o ((8, d.nodeid) ∷ (8, d.off) ∷ []) 4 (length d.name)
          (words o ((4, d.ty) ∷ []) tail) (omega arith) in
      let e_ty =
        word-words o ((8, d.nodeid) ∷ (8, d.off) ∷ (4, length d.name) ∷ []) 4 d.ty tail f.ty in
      let e_name = drop-words o (dirent_words d) 0 tail in
      let e_take = take-length-append d.name (zeros (padding d.name) ++ rest) in
      let e_drop = drop-dirent_bytes d rest in ground arith

  -- `struct alloyfs_out_header`
  abbrev pub out_words : (len error unique : ℕ) → List (ℕ × ℕ)
  out_words len error unique = (4, len) ∷ (4, error) ∷ (8, unique) ∷ []

  -- `struct alloyfs_notify_entry`
  abbrev pub notify_words : Notification → List (ℕ × ℕ)
  notify_words n =
      (8, n.parent)
      ∷ (8, n.parent2)
      ∷ (8, n.size)
      ∷ (4, (if n.isdir then notify_f_isdir else 0))
      ∷ (2, length n.name)
      ∷ (2, length n.name2)
      ∷ []

  -- The kernel module's view of a notification: its length, its code, its request number, and what
  -- it is about.
  abbrev pub read_notification : Bytes → (ℕ × ℕ) × Notification
  read_notification b =
      let entry = drop out_header_len b in
      let names = drop 32 entry in
      let m = word o 2 28 entry in
      (
        (word o 4 0 b, word o 8 8 b),
        record {
          code = word o 4 4 b;
          parent = word o 8 0 entry;
          parent2 = word o 8 8 entry;
          size = word o 8 16 entry;
          isdir = word o 4 24 entry == notify_f_isdir;
          name = take m names;
          name2 = take (word o 2 30 entry) (drop m names);
        },
      )

  pub record FitsNotification (n : Notification) : Type 0 where
    pub code : n.code < bound 4
    pub parent : n.parent < bound 8
    pub parent2 : n.parent2 < bound 8
    pub size : n.size < bound 8

  abbrev names_bytes : Notification → Bytes
  names_bytes n = n.name ++ n.name2

  length-notify_words :
      (n : Notification)
      → length (words o (notify_words n) (names_bytes n)) ≡ 32 + (length n.name + length n.name2)
  length-notify_words n =
      omega (arith, length-words o (notify_words n) (names_bytes n), length-append n.name n.name2)

  encode-words :
      (n : Notification) (b : Bytes)
      → encode o n ≡ some b
      → (b
          ≡ words o
              (out_words (48 + (length n.name + length n.name2)) n.code 0)
              (words o (notify_words n) (names_bytes n)))
        × (length n.name ≤ max_name)
        × (length n.name2 ≤ max_name)
  unfolding encode response
  encode-words n b h = (
    ground (arith, length-notify_words n),
    ground (arith, length-notify_words n),
    ground (arith, length-notify_words n),
  )

  abbrev flag_of : Bool → ℕ
  flag_of isdir = if isdir then notify_f_isdir else 0

  flag_of_lem :
      (isdir : Bool) → (flag_of isdir < bound 4) × ((flag_of isdir == notify_f_isdir) ≡ isdir)
  flag_of_lem true = (omega arith, refl)
  flag_of_lem false = (omega arith, refl)

  read-words :
      (n : Notification) (len : ℕ)
      → FitsNotification n
      → len < bound 4
      → length n.name ≤ max_name
      → length n.name2 ≤ max_name
      → read_notification
          (words o (out_words len n.code 0) (words o (notify_words n) (names_bytes n)))
        ≡ ((len, 0), n)
  read-words n len f hl h1 h2 =
      let entry = words o (notify_words n) (names_bytes n) in
      let behind : ℕ → Bytes = λ k. words o (drop k (notify_words n)) (names_bytes n) in
      let front : ℕ → List (ℕ × ℕ) = λ k. take k (notify_words n) in
      let e_len = word-words o [] 4 len (words o ((4, n.code) ∷ (8, 0) ∷ []) entry) hl in
      let e_code = word-words o ((4, len) ∷ []) 4 n.code (words o ((8, 0) ∷ []) entry) f.code in
      let e_unique = word-words o ((4, len) ∷ (4, n.code) ∷ []) 8 0 entry (omega arith) in
      let e_entry = drop-words o (out_words len n.code 0) 0 entry in
      let e_names = drop-words o (notify_words n) 0 (names_bytes n) in
      let e_parent = word-words o [] 8 n.parent (behind 1) f.parent in
      let e_parent2 = word-words o (front 1) 8 n.parent2 (behind 2) f.parent2 in
      let e_size = word-words o (front 2) 8 n.size (behind 3) f.size in
      let (small, e_isdir) = flag_of_lem n.isdir in
      let e_flag = word-words o (front 3) 4 (flag_of n.isdir) (behind 4) small in
      let e_name = word-words o (front 4) 2 (length n.name) (behind 5) (omega arith) in
      let e_name2 = word-words o (front 5) 2 (length n.name2) (behind 6) (omega arith) in
      let e_take = take-length-append n.name n.name2 in
      let e_drop = drop-length-append n.name n.name2 in
      let e_all = take-length-append n.name2 [] in ground (arith, append-nil n.name2)

  -- A notification is encoded exactly when its first name is not empty and no name is too long. The
  -- kernel module then reads it back as it was, with the number 0 of no request and its own length.
  pub read_notification-encode :
      (n : Notification)
      → FitsNotification n
      → ((encode o n ≢ none)
          ↔ ((n.name ≢ []) × (length n.name ≤ max_name) × (length n.name2 ≤ max_name)))
        × ((b : Bytes) → encode o n ≡ some b → read_notification b ≡ ((length b, 0), n))
  unfolding encode
  read_notification-encode n f = (
    (λ h. (λ e. ground arith, ground arith, ground arith), λ h. ground (arith, length-nil n.name)),
    λ b h.
        let (e, h1, h2) = encode-words n b h in
        let len = 48 + (length n.name + length n.name2) in
        let e_len =
          length-words o (out_words len n.code 0) (words o (notify_words n) (names_bytes n)) in
        ground (arith, read-words n len f (omega arith) h1 h2, length-notify_words n),
  )
