-- ===== src/Client/Remote/Routed/Names.antt =====
-- The operations on names send no path of the overlay.
use alloyfs.Base.{
  ℕ, zero, suc, refl, Bool, true, false, Option, none, some, List, [], ◌∷◌, if◌then◌else◌, is_none,
  nat_eq, Option-cases, inl, inr,
}
use alloyfs.Base.Text.{Text}
use alloyfs.Proto.Path.{RelPath, join}
use alloyfs.Proto.Messages.{Attr, DirEntry, OpenFlags, SystemTime, Request}
use alloyfs.Client.Inodes.{ino_of}
use alloyfs.Client.Local.{LocalTree}
use alloyfs.Client.Remote.{Outside}
use alloyfs.Client.Remote.Calls.{Mount, On, invalidate_attr}
use alloyfs.Client.Remote.Names.{
  Listed, fetch_attr, getattr, lookup, list_entries, list_pages, list_local, list_overlay, readdir,
  create, mkdir, remove_name, rename, setattr, or_fetch, turn_page, add_local, forget_attr,
  written_if,
}
use alloyfs.Client.Remote.Routed.{IsOutside, IsClean, routed-IsRouted, both_routed-IsRouted}
use alloyfs.Client.Remote.Routed.Supervisor.{Routed, ask-IsRouted}
use alloyfs.Client.Remote.Routed.Paths.{
  Stays, then-Stays, quiet-Stays, path_at-Stays, alloc-Stays, on_overlay-Stays, alloc_cached-Stays,
  answered-Stays, local-Stays, track-Stays, mark_path_written-Stays,
}

module _ (t : LocalTree) (overlaid : Bool) (out : Outside) where
  fetch_attr-Stays :
      (ino : ℕ) (path : RelPath)
      → IsOutside t overlaid path
      → Stays t overlaid out (fetch_attr t out ino path)
  unfolding fetch_attr
  fetch_attr-Stays ino path o =
      then-Stays t overlaid out _ _ (ask-IsRouted t overlaid out (Request.getattr path) _ o) λ attr.
        then-Stays t overlaid out _ _ (λ s r. quiet-Stays t overlaid out s _ refl refl refl refl r)
          λ u s r. r

  or_fetch-Stays :
      (ino : ℕ) (path : RelPath) (hit : Option Attr)
      → IsOutside t overlaid path
      → Stays t overlaid out (or_fetch t out ino path hit)
  or_fetch-Stays ino path none o = fetch_attr-Stays ino path o
  or_fetch-Stays ino path (some attr) o = λ s r. r

  pub getattr-Stays : (ino : ℕ) → Stays t overlaid out (getattr t out ino)
  unfolding getattr
  getattr-Stays ino = then-Stays t overlaid out _ _ (path_at-Stays t overlaid out ino) λ path.
      routed-IsRouted t overlaid out path _ _ (on_overlay-Stays t overlaid out (t.getattr path))
        λ o. then-Stays t overlaid out _ _ (λ s r. r) λ hit. or_fetch-Stays ino path hit o

  list_entries-Stays :
      (dir : RelPath) (es : List DirEntry) (acc : List Listed)
      → Stays t overlaid out (list_entries t out dir es acc)
  unfolding list_entries
  list_entries-Stays dir [] acc = λ s r. r
  list_entries-Stays dir (e ∷ es) acc =
      then-Stays t overlaid out _ _
        (routed-IsRouted t overlaid out (join dir e.name) _ _ (λ s r. r)
          λ o.
            then-Stays t overlaid out _ _
              (alloc_cached-Stays t overlaid out (join dir e.name) e.attr) λ ino s r. r)
        λ acc'. list_entries-Stays dir es acc'

  turn_page-Stays :
      (cursor : Option ℕ) (next : ℕ → On t out (Option (List Listed))) (acc : List Listed)
      → ((c : ℕ) → Stays t overlaid out (next c))
      → Stays t overlaid out (turn_page t out cursor next acc)
  turn_page-Stays none next acc h = λ s r. r
  turn_page-Stays (some c) next acc h = h c

  list_pages-Stays :
      (fuel : ℕ) (dir : RelPath) (cursor : ℕ) (acc : List Listed)
      → IsOutside t overlaid dir
      → Stays t overlaid out (list_pages t out fuel dir cursor acc)
  unfolding list_pages
  list_pages-Stays zero dir cursor acc o = λ s r. r
  list_pages-Stays (suc fuel) dir cursor acc o =
      then-Stays t overlaid out _ _ (ask-IsRouted t overlaid out (Request.readdir dir cursor) _ o)
        λ page. then-Stays t overlaid out _ _ (list_entries-Stays dir page.0 acc) λ acc'.
          turn_page-Stays page.1 (λ c. list_pages t out fuel dir c acc') acc'
            λ c. list_pages-Stays fuel dir c acc' o

  list_local-Stays :
      (dir : RelPath) (children : List (Text × Attr)) (acc : List Listed)
      → Stays t overlaid out (list_local t out dir children acc)
  unfolding list_local
  list_local-Stays dir [] acc = λ s r. r
  list_local-Stays dir ((name, attr) ∷ children) acc =
      then-Stays t overlaid out _ _
        (routed-IsRouted t overlaid out (join dir name) _ _
          (then-Stays t overlaid out _ _ (alloc-Stays t overlaid out (join dir name)) λ ino s r. r)
          λ o s r. r)
        λ acc'. list_local-Stays dir children acc'

  list_overlay-Stays :
      (dir : RelPath) (children : List (Text × Attr)) (acc : List Listed)
      → Stays t overlaid out (list_overlay t out dir children acc)
  unfolding list_overlay
  list_overlay-Stays dir [] acc = λ s r. r
  list_overlay-Stays dir ((name, attr) ∷ children) acc =
      then-Stays t overlaid out _ _ (alloc-Stays t overlaid out (join dir name))
        λ ino. list_overlay-Stays dir children _

  add_local-Stays :
      (o : Option t.State) (dir : RelPath) (listed : Option (List Listed))
      → Stays t overlaid out (add_local t out o dir listed)
  add_local-Stays o dir none = λ s r. r
  add_local-Stays none dir (some acc) = λ s r. r
  add_local-Stays (some o) dir (some acc) =
      then-Stays t overlaid out _ _ (on_overlay-Stays t overlaid out (t.readdir_children dir))
        λ children. then-Stays t overlaid out _ _ (list_local-Stays dir children acc) λ all s r. r

  pub readdir-Stays : (fuel ino : ℕ) → Stays t overlaid out (readdir t out fuel ino)
  unfolding readdir
  readdir-Stays fuel ino = then-Stays t overlaid out _ _ (path_at-Stays t overlaid out ino) λ dir.
      routed-IsRouted t overlaid out dir _ _
        (then-Stays t overlaid out _ _ (on_overlay-Stays t overlaid out (t.readdir_children dir))
          λ children.
            then-Stays t overlaid out _ _ (list_overlay-Stays dir children []) λ all s r. r)
        λ o.
          then-Stays t overlaid out _ _ (list_pages-Stays fuel dir 0 [] o)
            λ listed. then-Stays t overlaid out _ _ (λ s r. r) λ x. add_local-Stays x dir listed

  pub lookup-Stays : (parent : ℕ) (name : Text) → Stays t overlaid out (lookup t out parent name)
  unfolding lookup
  lookup-Stays parent name =
      then-Stays t overlaid out _ _ (path_at-Stays t overlaid out parent) λ dir.
        routed-IsRouted t overlaid out (join dir name) _ _
          (local-Stays t overlaid out (join dir name) (t.getattr (join dir name)))
          λ o. answered-Stays t overlaid out (join dir name) (Request.getattr (join dir name)) _ o

  pub mkdir-Stays :
      (parent : ℕ) (name : Text) (mode : ℕ) → Stays t overlaid out (mkdir t out parent name mode)
  unfolding mkdir
  mkdir-Stays parent name mode =
      then-Stays t overlaid out _ _ (path_at-Stays t overlaid out parent) λ dir.
        routed-IsRouted t overlaid out (join dir name) _ _
          (local-Stays t overlaid out (join dir name) (t.mkdir (join dir name)))
          λ o.
            answered-Stays t overlaid out (join dir name) (Request.mkdir (join dir name) mode) _ o

  pub create-Stays :
      (parent : ℕ) (name : Text) (mode : ℕ) (flags : OpenFlags)
      → Stays t overlaid out (create t out parent name mode flags)
  unfolding create
  create-Stays parent name mode flags =
      then-Stays t overlaid out _ _ (path_at-Stays t overlaid out parent) λ dir.
        routed-IsRouted t overlaid out (join dir name) _ _
          (then-Stays t overlaid out _ _
            (on_overlay-Stays t overlaid out (t.create (join dir name) flags mode))
            λ opened.
              then-Stays t overlaid out _ _ (alloc-Stays t overlaid out (join dir name))
                λ ino s r. r)
          λ o.
            then-Stays t overlaid out _ _
              (ask-IsRouted t overlaid out (Request.create (join dir name) flags mode) _ o)
              λ opened.
                then-Stays t overlaid out _ _
                  (alloc_cached-Stays t overlaid out (join dir name) opened.1)
                  λ ino.
                    then-Stays t overlaid out _ _ (track-Stays t overlaid out opened.0 _ o)
                      λ u s r. r

  forget_attr-Stays :
      (path : RelPath) (s : Mount t out)
      → Routed t overlaid out s
      → Routed t overlaid out (forget_attr t out path s)
  unfolding invalidate_attr
  forget_attr-Stays path s r = elim (Option-cases (ino_of s.ino path)) [
    | inl absent ↦ rw (absent, forget_attr) r
    | inr (ino, there) ↦
        rw (there, forget_attr) (quiet-Stays t overlaid out s _ refl refl refl refl r)
  ]

  remove-IsClean :
      (is_dir : Bool) (path : RelPath)
      → IsOutside t overlaid path
      → IsClean t overlaid (if is_dir then Request.rmdir path else Request.unlink path)
  remove-IsClean true path o = o
  remove-IsClean false path o = o

  pub remove_name-Stays :
      (parent : ℕ) (name : Text) (is_dir : Bool)
      → Stays t overlaid out (remove_name t out parent name is_dir)
  unfolding remove_name
  remove_name-Stays parent name is_dir =
      then-Stays t overlaid out _ _ (path_at-Stays t overlaid out parent) λ dir.
        routed-IsRouted t overlaid out (join dir name) _ _ (on_overlay-Stays t overlaid out _) λ o.
          then-Stays t overlaid out _ _
            (ask-IsRouted t overlaid out _ _ (remove-IsClean is_dir (join dir name) o))
            λ u.
              then-Stays t overlaid out _ _ (forget_attr-Stays (join dir name))
                λ v s r. quiet-Stays t overlaid out s _ refl refl refl refl r

  pub rename-Stays :
      (parent : ℕ) (name : Text) (newparent : ℕ) (newname : Text) (replace : Bool)
      → Stays t overlaid out (rename t out parent name newparent newname replace)
  unfolding rename
  rename-Stays parent name newparent newname replace =
      then-Stays t overlaid out _ _ (path_at-Stays t overlaid out parent) λ dir.
        then-Stays t overlaid out _ _ (path_at-Stays t overlaid out newparent) λ newdir.
          both_routed-IsRouted t overlaid out (join dir name) (join newdir newname) _ _
            (then-Stays t overlaid out _ _ (on_overlay-Stays t overlaid out _)
              λ u s r. quiet-Stays t overlaid out s _ refl refl refl refl r)
            λ from to.
              then-Stays t overlaid out _ _
                (ask-IsRouted t overlaid out (Request.rename _ _ replace) _ (from, to))
                λ u.
                  then-Stays t overlaid out _ _
                    (λ s r. quiet-Stays t overlaid out s _ refl refl refl refl r)
                    λ v s r. quiet-Stays t overlaid out s _ refl refl refl refl r

  written_if-Stays :
      (unsized : Bool) (path : RelPath) (s : Mount t out)
      → Routed t overlaid out s
      → Routed t overlaid out (written_if t out unsized path s)
  written_if-Stays true path s r = r
  written_if-Stays false path s r = mark_path_written-Stays t overlaid out path s r

  pub setattr-Stays :
      (ino : ℕ) (size : Option ℕ) (mtime : Option SystemTime) (mode : Option ℕ)
      → Stays t overlaid out (setattr t out ino size mtime mode)
  unfolding setattr
  setattr-Stays ino size mtime mode =
      then-Stays t overlaid out _ _ (path_at-Stays t overlaid out ino) λ path.
        routed-IsRouted t overlaid out path _ _ (on_overlay-Stays t overlaid out _) λ o.
          then-Stays t overlaid out _ _
            (ask-IsRouted t overlaid out (Request.setattr path size mtime mode) _ o)
            λ attr.
              then-Stays t overlaid out _ _
                (λ s r. quiet-Stays t overlaid out s _ refl refl refl refl r)
                λ u. then-Stays t overlaid out _ _ (written_if-Stays (is_none size) path) λ v s r. r
