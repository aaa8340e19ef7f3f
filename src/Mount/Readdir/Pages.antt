-- ===== src/Mount/Readdir/Pages.antt =====
-- Every page of a listing makes progress, but for a name that is too long.
use alloyfs.Base.{
  ℕ, suc, ◌+◌, ◌-◌, ◌≤◌, ◌<◌, ◌≡◌, ◌≢◌, ◌⊎◌, refl, sym, ap, ◌∙◌, Bool, true, false, ◌||◌, Option,
  none, some, List, [], ◌∷◌, ◌++◌, length, length-append, take, drop, min, All, arith, ltb, ◌==◌,
  Bool-cases, inl, inr,
}
use mathlib.Core.List.{append-nil, append_assoc}
use mathlib.Core.Path.{subst}
use alloyfs.Proto.Messages.{Bytes}
use alloyfs.Mount.Abi.{push_dirent, max_payload, max_name, dirent_size}
use alloyfs.Mount.Abi.Words.{ByteOrder}
use alloyfs.Mount.Abi.Replies.{Dirent, dirent_bytes, push_dirent_lem}
use alloyfs.Mount.Readdir.{Entry, dots, type_of, stop, fill, op_readdir}

abbrev pub dirent_of : ℕ → Entry → Dirent
dirent_of i e = record { nodeid = e.nodeid; off = i + dots + 1; ty = type_of e; name = e.name }

-- The entries in the form of the reply, each with the cursor behind it.
abbrev pub page_bytes : ByteOrder → ℕ → List Entry → Bytes
page_bytes o i [] = []
page_bytes o i (e ∷ es) = dirent_bytes o (dirent_of i e) [] ++ page_bytes o (i + 1) es

-- A name that the kernel takes.
pub record IsShort (e : Entry) : Type 0 where
  pub not_empty : 0 < length e.name
  pub not_long : length e.name ≤ max_name

stop-some : (out : Bytes) → 0 < length out → stop out ≡ some out
stop-some [] h = ground arith
stop-some (b ∷ out) h = refl

pair_path : (r : Bytes × Bool) (a : Bytes) (b : Bool) → r.0 ≡ a → r.1 ≡ b → r ≡ (a, b)
pair_path r a b p q = ground (arith, p, q)

abbrev refuses : (limit : ℕ) → (out : Bytes) → Entry → Bool
refuses limit out e =
    length e.name == 0
    || (ltb max_name (length e.name) || ltb limit (length out + dirent_size (length e.name)))

abbrev pushed : ByteOrder → (out : Bytes) → (limit i : ℕ) → Entry → Bytes × Bool
pushed o out limit i e = push_dirent o out limit e.nodeid (i + dots + 1) (type_of e) e.name

pushed-refused :
    (o : ByteOrder) (out : Bytes) (limit i : ℕ) (e : Entry)
    → refuses limit out e ≡ true
    → pushed o out limit i e ≡ (out, false)
pushed-refused o out limit i e r =
    let (flag, bytes, size, aligned) = push_dirent_lem o out limit (dirent_of i e) in
    let off : (pushed o out limit i e).1 ≡ false = flag ∙ (rw r refl) in
    pair_path _ _ _ (bytes ∙ (rw off refl)) off

pushed-taken :
    (o : ByteOrder) (out : Bytes) (limit i : ℕ) (e : Entry)
    → refuses limit out e ≡ false
    → pushed o out limit i e ≡ (out ++ dirent_bytes o (dirent_of i e) [], true)
pushed-taken o out limit i e r =
    let (flag, bytes, size, aligned) = push_dirent_lem o out limit (dirent_of i e) in
    let on : (pushed o out limit i e).1 ≡ true = flag ∙ (rw r refl) in
    pair_path _ _ _ (bytes ∙ (rw on refl)) on

-- What a page is: some of the entries from the index on, in order, at least one if there are any. It
-- stays within the limit, and the entry behind it, if there is one, would not have.
pub record IsPage (o : ByteOrder) (limit i : ℕ) (es : List Entry) (out : Bytes)
    (page : Option Bytes) : Type 0 where
  pub count : ℕ
  pub within : count ≤ length es
  pub holds : page ≡ some (out ++ page_bytes o i (take count es))
  pub progress : out ≡ [] → es ≢ [] → 0 < count
  pub bounded : length (out ++ page_bytes o i (take count es)) ≤ limit
  pub full :
      (e : Entry) (rest : List Entry)
      → drop count es ≡ e ∷ rest
      → limit < length (out ++ page_bytes o i (take count es)) + dirent_size (length e.name)

-- The entry that is refused does not fit.
does_not_fit :
    (limit : ℕ) (out : Bytes) (e : Entry) (es : List Entry) (f : Entry) (rest : List Entry)
    → IsShort e
    → refuses limit out e ≡ true
    → ◌≡◌ {A = List Entry} (e ∷ es) (f ∷ rest)
    → limit < length out + dirent_size (length f.name)
does_not_fit limit out e es f rest short r h =
    let beyond : limit < length out + dirent_size (length e.name) =
      ground (arith, short.not_empty, short.not_long) in
    subst (λ g. limit < length out + dirent_size (length g.name)) (heads e f es rest h) beyond
  where
    heads : (e f : Entry) (es rest : List Entry) → ◌≡◌ {A = List Entry} (e ∷ es) (f ∷ rest) → e ≡ f
    heads e f es rest h = cc

taken_fits :
    (o : ByteOrder) (out : Bytes) (limit i : ℕ) (e : Entry)
    → refuses limit out e ≡ false
    → length (out ++ dirent_bytes o (dirent_of i e) []) ≤ limit
taken_fits o out limit i e r =
    let (flag, bytes, size, aligned) = push_dirent_lem o out limit (dirent_of i e) in
    let fits : length out + dirent_size (length e.name) ≤ limit = ground arith in
    omega (arith, length-append out (dirent_bytes o (dirent_of i e) []), size)

fill-IsPage :
    (o : ByteOrder) (limit i : ℕ) (es : List Entry) (out : Bytes)
    → 280 ≤ limit
    → All IsShort es
    → length out ≤ limit
    → IsPage o limit i es out (fill o limit i es out)
unfolding fill
fill-IsPage o limit i [] out room short le = record {
  count = 0;
  within = omega arith;
  holds = ap some (sym (append-nil out));
  progress = λ e ne. ground (arith, ne refl);
  bounded = rw (append-nil out) le;
  full = λ e rest h. ground arith;
}
fill-IsPage o limit i (e ∷ es) out room short le = elim (Bool-cases (refuses limit out e)) [
  | inl r ↦
      let some_out : 0 < length out = ground (arith, short.0.not_empty, short.0.not_long) in
      record {
        count = 0;
        within = omega arith;
        holds =
            rw (pushed-refused o out limit i e r, fill)
              (stop-some out some_out ∙ ap some (sym (append-nil out)));
        progress = λ nil ne. ground (arith, some_out);
        bounded = rw (append-nil out) le;
        full = λ f rest h. rw (append-nil out) (does_not_fit limit out e es f rest short.0 r h);
      }
  | inr r ↦
      let out' = out ++ dirent_bytes o (dirent_of i e) [] in
      let next = fill-IsPage o limit (i + 1) es out' room short.1 (taken_fits o out limit i e r) in
      let same =
        append_assoc out (dirent_bytes o (dirent_of i e) [])
          (page_bytes o (i + 1) (take next.count es)) in
      record {
        count = suc next.count;
        within = omega (arith, next.within);
        holds = rw (pushed-taken o out limit i e r, fill) (next.holds ∙ ap some same);
        progress = λ nil ne. omega arith;
        bounded = subst (λ page. length page ≤ limit) same next.bounded;
        full = λ f rest h.
            subst (λ page. limit < length page + dirent_size (length f.name)) same
              (next.full f rest h);
      }
]

-- If every name is one that the kernel takes, and the reply has room for one entry at least, a page
-- holds the entries from the cursor on, each with the cursor behind it: at least one if there is one,
-- within the size that was asked for and the greatest payload, and as many as fit, for the next entry,
-- if there is one, would be beyond.
pub op_readdir-IsPage :
    (o : ByteOrder) (entries : List Entry) (offset size : ℕ)
    → 280 ≤ size
    → All IsShort (drop (offset - dots) entries)
    → IsPage o
        (min size max_payload)
        (offset - dots)
        (drop (offset - dots) entries)
        []
        (op_readdir o entries offset size)
unfolding op_readdir
op_readdir-IsPage o entries offset size room short =
    fill-IsPage o (min size max_payload) (offset - dots) (drop (offset - dots) entries) []
      (omega (arith, room)) short (omega arith)

-- What a page comes to that starts before an entry, and does not get past it: none, or some of the
-- entries before.
abbrev pub EndsBefore : ByteOrder → ℕ → List Entry → Bytes → Option Bytes → Type 0
EndsBefore o i before out page =
    (page ≡ none)
    ⊎ ((count : ℕ) × (count ≤ length before)
        × (page ≡ some (out ++ page_bytes o i (take count before)))
        × (out ≡ [] → 0 < count))

stop-EndsBefore :
    (o : ByteOrder) (i : ℕ) (before : List Entry) (out : Bytes)
    → EndsBefore o i before out (stop out)
stop-EndsBefore o i before [] = inl refl
stop-EndsBefore o i before (b ∷ out) =
    inr (0, omega arith, ap some (sym (append-nil (b ∷ out))), λ e. ground arith)

fill-EndsBefore :
    (o : ByteOrder) (limit i : ℕ) (before behind : List Entry) (e : Entry) (out : Bytes)
    → max_name < length e.name
    → EndsBefore o i before out (fill o limit i (before ++ e ∷ behind) out)
unfolding fill
fill-EndsBefore o limit i [] behind e out long =
    rw (pushed-refused o out limit i e (ground (arith, long)), fill) (stop-EndsBefore o i [] out)
fill-EndsBefore o limit i (x ∷ before) behind e out long = elim (Bool-cases (refuses limit out x)) [
  | inl r ↦ rw (pushed-refused o out limit i x r, fill) (stop-EndsBefore o i (x ∷ before) out)
  | inr r ↦
      let x_bytes = dirent_bytes o (dirent_of i x) [] in
      rw (pushed-taken o out limit i x r, fill)
        (elim (fill-EndsBefore o limit (i + 1) before behind e (out ++ x_bytes) long) [
          | inl failed ↦ inl failed
          | inr (count, within, holds, some_there) ↦ inr (
            suc count,
            omega (arith, within),
            holds ∙ ap some (append_assoc out x_bytes (page_bytes o (i + 1) (take count before))),
            λ nil. omega arith,
          )
        ])
]

-- A page that starts at or before an entry whose name is longer than the kernel takes fails, or holds
-- at least one entry, each with the cursor behind it, and none but entries before that one. This
-- holds whatever the size, so that reading on from the cursors of such pages never gets past the
-- entry.
pub long_name_blocks :
    (o : ByteOrder) (entries before behind : List Entry) (e : Entry) (offset size : ℕ)
    → drop (offset - dots) entries ≡ before ++ e ∷ behind
    → max_name < length e.name
    → EndsBefore o (offset - dots) before [] (op_readdir o entries offset size)
unfolding op_readdir
long_name_blocks o entries before behind e offset size at long =
    rw at (fill-EndsBefore o (min size max_payload) (offset - dots) before behind e [] long)
