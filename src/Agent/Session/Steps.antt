-- ===== src/Agent/Session/Steps.antt =====
-- How a property of the world passes through the calls that the requests are made of.
use alloyfs.Base.{arith, ℕ, ◌≡◌, refl, Bool, true, false, Option, none, some, nat_eq}
use alloyfs.Base.Text.{Text, text_eq}
use alloyfs.Base.Table.{get}
use alloyfs.Proto.Errors.{Result, err, not_attached, read_only, bad_handle}
use alloyfs.Common.Action.{◌>>=◌, ◌>>◌, continue, raise_if, or_raise, pure}
use alloyfs.Common.Files.{FileSystem}
use alloyfs.Agent.Export.{Export}
use alloyfs.Agent.Session.{
  World, Act, on_export, put_export, export, writable_export, OpenFile, handle_of,
}

module _ (fs : FileSystem) where
  -- The attached export, with its name.
  abbrev pub Found : World fs → Text → Export → Type 0
  Found w name x = (w.session.attached ≡ some name) × (get name w.exports ≡ some x)

  on_found_cases {ℓ} :
      (P : World fs → Type ℓ) (f : Export → Export) (w : World fs) (name : Text) (g : Option Export)
      → w.session.attached ≡ some name
      → get name w.exports ≡ g
      → P w
      → ((name : Text) (x : Export) → Found w name x → P (put_export fs name (f x) w))
      → P (elim g [ none ↦ w | some x ↦ put_export fs name (f x) w ])
  on_found_cases P f w name none a e p h = p
  on_found_cases P f w name (some x) a e p h = h name x (a, e)

  on_attached_cases {ℓ} :
      (P : World fs → Type ℓ) (f : Export → Export) (w : World fs) (o : Option Text)
      → w.session.attached ≡ o
      → P w
      → ((name : Text) (x : Export) → Found w name x → P (put_export fs name (f x) w))
      → P (elim o [
        | none ↦ w
        | some name ↦ elim (get name w.exports) [ none ↦ w | some x ↦ put_export fs name (f x) w ]
      ])
  on_attached_cases P f w none a p h = p
  on_attached_cases P f w (some name) a p h =
      on_found_cases P f w name (get name w.exports) a refl p h

  -- A change of the attached export changes nothing or puts one export.
  pub on_export_cases {ℓ} :
      (P : World fs → Type ℓ) (f : Export → Export) (w : World fs)
      → P w
      → ((name : Text) (x : Export) → Found w name x → P (put_export fs name (f x) w))
      → P (on_export fs f w)
  on_export_cases P f w p h = on_attached_cases P f w w.session.attached refl p h

  option_cases {ℓ} :
      {A : Type 0} (P : Result A × World fs → Type ℓ) (k : Export → Act fs A) (w : World fs)
      (name : Text) (g : Option Export)
      → w.session.attached ≡ some name
      → get name w.exports ≡ g
      → P (err not_attached, w)
      → ((name : Text) (x : Export) → Found w name x → P (k x w))
      → P (continue (or_raise g not_attached w) k)
  option_cases P k w name none a e p h = p
  option_cases P k w name (some x) a e p h = h name x (a, e)

  attached_cases {ℓ} :
      {A : Type 0} (P : Result A × World fs → Type ℓ) (k : Export → Act fs A) (w : World fs)
      (o : Option Text)
      → w.session.attached ≡ o
      → P (err not_attached, w)
      → ((name : Text) (x : Export) → Found w name x → P (k x w))
      → P (
          continue
            (or_raise (elim o [ none ↦ none | some name ↦ get name w.exports ]) not_attached w)
            k)
  attached_cases P k w none a p h = p
  attached_cases P k w (some name) a p h = option_cases P k w name (get name w.exports) a refl p h

  handle_cases {ℓ} :
      {A : Type 0} (P : Result A × World fs → Type ℓ) (fh : ℕ) (k : OpenFile fs → Act fs A)
      (w : World fs) (g : Option (OpenFile fs))
      → get fh w.session.handles ≡ g
      → P (err bad_handle, w)
      → ((of : OpenFile fs) → get fh w.session.handles ≡ some of → P (k of w))
      → P (continue (or_raise g bad_handle w) k)
  handle_cases P fh k w none e p h = p
  handle_cases P fh k w (some of) e p h = h of e

  -- What comes after `export` is not reached, or has one of the exports.
  pub export_cases {ℓ} :
      {A : Type 0} (P : Result A × World fs → Type ℓ) (k : Export → Act fs A) (w : World fs)
      → P (err not_attached, w)
      → ((name : Text) (x : Export) → Found w name x → P (k x w))
      → P ((export fs >>= k) w)
  unfolding export ◌>>=◌
  export_cases P k w p h = attached_cases P k w w.session.attached refl p h

  gate_cases {ℓ} :
      {A : Type 0} (P : Result A × World fs → Type ℓ) (k : Export → Act fs A) (w : World fs)
      (x : Export) (b : Bool)
      → x.read_only ≡ b
      → P (err read_only, w)
      → (x.read_only ≡ false → P (k x w))
      → P (continue (continue (raise_if b read_only w) (λ _. pure x)) k)
  gate_cases P k w x true e p h = p
  gate_cases P k w x false e p h = h e

  -- What comes after `writable_export` is not reached, or has one of the exports that is writable.
  pub writable_export_cases {ℓ} :
      {A : Type 0} (P : Result A × World fs → Type ℓ) (k : Export → Act fs A) (w : World fs)
      → P (err not_attached, w)
      → P (err read_only, w)
      → ((name : Text) (x : Export) → Found w name x → x.read_only ≡ false → P (k x w))
      → P ((writable_export fs >>= k) w)
  unfolding writable_export ◌>>=◌
  writable_export_cases P k w p q h =
      export_cases (λ r. P (continue r k)) (λ x. raise_if x.read_only read_only >> pure x) w p
        λ name x e. gate_cases P k w x x.read_only refl q (h name x e)

  pub handle_of_cases {ℓ} :
      {A : Type 0} (P : Result A × World fs → Type ℓ) (fh : ℕ) (k : OpenFile fs → Act fs A)
      (w : World fs)
      → P (err bad_handle, w)
      → ((of : OpenFile fs) → get fh w.session.handles ≡ some of → P (k of w))
      → P ((handle_of fs fh >>= k) w)
  unfolding handle_of ◌>>=◌
  handle_of_cases P fh k w p h = handle_cases P fh k w (get fh w.session.handles) refl p h

  pub on_export-Found :
      (f : Export → Export) (w : World fs) (name : Text) (x : Export)
      → Found w name x
      → on_export fs f w ≡ put_export fs name (f x) w
  on_export-Found f w name x (a, e) = ground (arith, a, e)
