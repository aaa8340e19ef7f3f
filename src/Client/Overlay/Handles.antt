-- ===== src/Client/Overlay/Handles.antt =====
-- The numbers of the overlay's handles.
use alloyfs.Base.{ℕ, ◌≡◌, Bool, true, false, Option, none, some, arith, nat_eq}
use alloyfs.Base.Table.Entries.{AllEntries, insert-AllEntries}
use alloyfs.Proto.Errors.{Result, ok, err}
use alloyfs.Proto.Path.{RelPath}
use alloyfs.Proto.Messages.{Attr, OpenFlags}
use alloyfs.Common.Action.{Action, ◌>>=◌, continue, Keeps, Keeps-bind, Keeps-raise_if}
use alloyfs.Common.Coalesce.Events.{PathBuf}
use alloyfs.Common.Files.{FileSystem}
use alloyfs.Client.Overlay.{
  Overlay, is_overlay_fh, parent, make_dirs, create_file, with_bit, insert_handle, create_parents,
  open_file, create,
}

abbrev pub IfOk : {A : Type 0} → (A → Type 0) → Result A → Type 0
IfOk P (ok a) = P a
IfOk P (err e) = Unit

module _ {S : Type 0} where
  -- Where a computation succeeds, its result has the property.
  abbrev pub Gives : {A : Type 0} → (A → Type 0) → Action S A → Type 0
  Gives P m = (s : S) → IfOk P (m s).0

  Gives-continue :
      {A B : Type 0} (P : B → Type 0) (r : Result A × S) (k : A → Action S B)
      → ((a : A) → Gives P (k a))
      → IfOk P (continue r k).0
  Gives-continue P (ok a, s) k h = h a s
  Gives-continue P (err e, s) k h = tt

  -- The same, where the second computation is given what the first one gives.
  Gives-continue_given :
      {A B : Type 0} (Q : A → Type 0) (P : B → Type 0) (r : Result A × S) (k : A → Action S B)
      → IfOk Q r.0
      → ((a : A) → Q a → Gives P (k a))
      → IfOk P (continue r k).0
  Gives-continue_given Q P (ok a, s) k q h = h a q s
  Gives-continue_given Q P (err e, s) k q h = tt

  pub Gives-bind :
      {A B : Type 0} (P : B → Type 0) (m : Action S A) (k : A → Action S B)
      → ((a : A) → Gives P (k a))
      → Gives P (m >>= k)
  unfolding ◌>>=◌
  Gives-bind P m k h s = Gives-continue P (m s) k h

  pub Gives-bind_given :
      {A B : Type 0} (Q : A → Type 0) (P : B → Type 0) (m : Action S A) (k : A → Action S B)
      → Gives Q m
      → ((a : A) → Q a → Gives P (k a))
      → Gives P (m >>= k)
  unfolding ◌>>=◌
  Gives-bind_given Q P m k g h s = Gives-continue_given Q P (m s) k (g s) h

abbrev pub HasBit : ℕ → Type 0
HasBit fh = is_overlay_fh fh ≡ true

abbrev pub OpenedApart : ℕ × Attr → Type 0
OpenedApart (fh, attr) = HasBit fh

with_bit-HasBit : (n : ℕ) → HasBit (with_bit n)
with_bit-HasBit n = ground arith

module _ (fs : FileSystem) where
  abbrev IsMarked : ℕ → fs.File → Type 0
  IsMarked fh file = HasBit fh

  -- Every handle of the overlay carries the bit.
  pub record IsApart (o : Overlay fs) : Type 0 where
    pub marked : AllEntries IsMarked o.handles

  insert_handle-IsApart : (file : fs.File) → Keeps (IsApart) (insert_handle fs file)
  unfolding insert_handle
  insert_handle-IsApart file o h = record {
    marked =
        insert-AllEntries IsMarked (with_bit o.next_fh) file o.handles (with_bit-HasBit o.next_fh)
          h.marked;
  }

  insert_handle-HasBit : (file : fs.File) → Gives HasBit (insert_handle fs file)
  unfolding insert_handle
  insert_handle-HasBit file o = with_bit-HasBit o.next_fh

  make_dirs-IsApart : (dir : Option PathBuf) → Keeps IsApart (make_dirs fs dir)
  unfolding make_dirs
  make_dirs-IsApart none o h = h
  make_dirs-IsApart (some dir) o h = record { marked = h.marked }

  create_parents-IsApart : (full : PathBuf) → Keeps IsApart (create_parents fs full)
  unfolding create_parents
  create_parents-IsApart full = make_dirs-IsApart (parent full)

  create_file-IsApart :
      (full : PathBuf) (excl truncate : Bool) → Keeps IsApart (create_file fs full excl truncate)
  unfolding create_file
  create_file-IsApart full true truncate o h = record { marked = h.marked }
  create_file-IsApart full false truncate o h = record { marked = h.marked }

  module _ (root : PathBuf) where
    pub open_file-IsApart :
        (path : RelPath) (flags : OpenFlags) → Keeps IsApart (open_file fs root path flags)
    unfolding open_file
    open_file-IsApart path flags =
        Keeps-bind IsApart _ _ (λ o h. record { marked = h.marked })
          λ file.
            Keeps-bind IsApart _ _ (λ o h. h)
              λ md.
                Keeps-bind IsApart _ _ (Keeps-raise_if IsApart _ _)
                  λ u. Keeps-bind IsApart _ _ (insert_handle-IsApart file) λ fh o h. h

    pub open_file-HasBit :
        (path : RelPath) (flags : OpenFlags) → Gives OpenedApart (open_file fs root path flags)
    unfolding open_file
    open_file-HasBit path flags = Gives-bind OpenedApart _ _ λ file.
        Gives-bind OpenedApart _ _ λ md.
          Gives-bind OpenedApart _ _
            λ u. Gives-bind_given HasBit OpenedApart _ _ (insert_handle-HasBit file) λ fh bit o. bit

    pub create-IsApart :
        (path : RelPath) (flags : OpenFlags) (mode : ℕ)
        → Keeps IsApart (create fs root path flags mode)
    unfolding create
    create-IsApart path flags mode = Keeps-bind IsApart _ _ (create_parents-IsApart _) λ u.
        Keeps-bind IsApart _ _ (create_file-IsApart _ flags.excl flags.truncate) λ file.
          Keeps-bind IsApart _ _ (λ o h. h)
            λ md. Keeps-bind IsApart _ _ (insert_handle-IsApart file) λ fh o h. h

    pub create-HasBit :
        (path : RelPath) (flags : OpenFlags) (mode : ℕ)
        → Gives OpenedApart (create fs root path flags mode)
    unfolding create
    create-HasBit path flags mode = Gives-bind OpenedApart _ _ λ u.
        Gives-bind OpenedApart _ _ λ file.
          Gives-bind OpenedApart _ _ λ md.
            Gives-bind_given HasBit OpenedApart _ _ (insert_handle-HasBit file) λ fh bit o. bit
