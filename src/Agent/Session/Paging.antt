-- ===== src/Agent/Session/Paging.antt =====
-- The pages of `readdir`, as a client asks for them: each with the cursor that the last one gave.
use alloyfs.Base.{
  ℕ, zero, suc, ◌+◌, ◌-◌, ◌≤◌, ◌<◌, min, ◌≡◌, refl, ◌∙◌, sym, ap, false, Option, none, some, List,
  [], ◌∷◌, ◌++◌, length, take, drop, ltb, arith, drop-drop, take-append-drop_taken, length-take-min,
  length-drop, Bool-cases, inl, inr,
}
use mathlib.Core.List.{append-nil}
use alloyfs.Proto.Messages.{Response, DirEntry}
use alloyfs.Agent.Session.Requests.{page_of, readdir_page}

abbrev pub after_page : List DirEntry → Option (List DirEntry) → Option (List DirEntry)
after_page page none = none
after_page page (some rest) = some (page ++ rest)

-- All pages from a cursor on, with `none` where the fuel runs out first.
pub all_pages : ℕ → List DirEntry → ℕ → Option (List DirEntry)
all_pages zero entries cursor = none
all_pages (suc fuel) entries cursor = elim (page_of entries cursor) [
  | Response.dir page (some next) ↦ after_page page (all_pages fuel entries next)
  | Response.dir page none ↦ some page
  | _ ↦ none
]

ltb-false→le : (a b : ℕ) → ltb a b ≡ false → b ≤ a
ltb-false→le a b h = ground arith

length-nil : (xs : List DirEntry) → length xs ≡ 0 → xs ≡ []
length-nil [] h = refl
length-nil (x ∷ xs) h = ground arith

abbrev page : List DirEntry → ℕ → List DirEntry
page entries cursor = take readdir_page (drop cursor entries)

page-drop :
    (entries : List DirEntry) (cursor : ℕ)
    → page entries cursor ++ drop (cursor + length (page entries cursor)) entries
      ≡ drop cursor entries
page-drop entries cursor =
    ap (λ t. page entries cursor ++ t)
      (sym (drop-drop (length (page entries cursor)) cursor entries))
    ∙ take-append-drop_taken readdir_page (drop cursor entries)

-- The number of steps is one more than the entries that are left, at most.
pub all_pages_lem :
    (fuel : ℕ) (entries : List DirEntry) (cursor : ℕ)
    → cursor ≤ length entries
    → length entries - cursor < fuel
    → all_pages fuel entries cursor ≡ some (drop cursor entries)
unfolding all_pages page_of
all_pages_lem zero entries cursor le enough = ground arith
all_pages_lem (suc fuel) entries cursor le enough =
    let got = length (page entries cursor) in
    let size : got ≡ min readdir_page (length (drop cursor entries)) =
      length-take-min readdir_page (drop cursor entries) in
    let left = length-drop cursor entries le in
    elim (Bool-cases (ltb (cursor + got) (length entries))) [
      | inl more ↦
          rw (more, all_pages)
            (ap (after_page (page entries cursor)) (
                all_pages_lem fuel entries (cursor + got) (omega (arith, size, left))
                  (ground arith))
              ∙ ap some (page-drop entries cursor))
      | inr last ↦
          let none_left : drop (cursor + got) entries ≡ [] =
            let short = ltb-false→le (cursor + got) (length entries) last in
            let within : cursor + got ≤ length entries = omega (arith, size, left) in
            length-nil _ (omega (arith, length-drop (cursor + got) entries within, short)) in
          rw (last, all_pages)
            (ap some (
              sym (append-nil (page entries cursor))
              ∙ ap (λ t. page entries cursor ++ t) (sym none_left)
              ∙ page-drop entries cursor))
    ]

-- A client that asks for the pages of a listing one after the other, from the beginning, is done after
-- at most one more call than there are entries, and has got every entry once, in order.
pub all_pages_complete :
    (entries : List DirEntry) → all_pages (suc (length entries)) entries 0 ≡ some entries
all_pages_complete entries =
    all_pages_lem (suc (length entries)) entries 0 (omega arith) (omega arith)
