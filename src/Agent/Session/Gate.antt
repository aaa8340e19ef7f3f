-- ===== src/Agent/Session/Gate.antt =====
-- The token gate in front of the requests.
use alloyfs.Base.{
  ◌≡◌, refl, ◌∙◌, ap, Bool, true, false, ◌⊎◌, inl, inr, Option, some, List, [], ◌∷◌, All, arith,
}
use alloyfs.Base.Text.{Text}
use alloyfs.Proto.Errors.{err, permission_denied, auth_required}
use alloyfs.Proto.Messages.{Request}
use alloyfs.Common.Exclude.{Globset}
use alloyfs.Common.Files.{FileSystem}
use alloyfs.Agent.Session.{World, touch}
use alloyfs.Agent.Session.Token.{token_eq}
use alloyfs.Agent.Session.Handler.{Reply, answered, handle, handle_all, auth, present, gated}

-- A request that is not the right token.
abbrev pub IsWrong : Text → Request → Type 0
IsWrong expected (Request.auth token) = token_eq token expected ≡ false
IsWrong expected req = Unit

abbrev pub IsRefusal : Reply → Type 0
IsRefusal reply =
    (reply ≡ answered (err auth_required)) ⊎ (reply ≡ answered (err permission_denied))

-- The session requires the token, which has not been presented.
pub record IsShut (fs : FileSystem) (expected : Text) (w : World fs) : Type 0 where
  pub required : w.session.required_token ≡ some expected
  pub outside : w.session.authed ≡ false

module _ (fs : FileSystem) (lib : Globset) (expected : Text) where
  gated-refused :
      (b : Bool) (req : Request) (w : World fs)
      → b ≡ false
      → gated fs lib b req w ≡ (answered (err auth_required), w)
  gated-refused true req w e = ground arith
  gated-refused false req w e = refl

  present-refused :
      (o : Option Text) (token : Text) (w : World fs)
      → o ≡ some expected
      → token_eq token expected ≡ false
      → present fs lib o token w ≡ (answered (err permission_denied), w)
  present-refused o token w e wrong = rw (e, wrong) refl

  touch-IsShut : (w : World fs) → IsShut fs expected w → IsShut fs expected (touch fs w)
  unfolding touch
  touch-IsShut w h = record { required = h.required; outside = h.outside }

  handle-shut :
      (req : Request) (w : World fs)
      → IsShut fs expected w
      → IsWrong expected req
      → IsRefusal (handle fs lib req w).0 × ((handle fs lib req w).1 ≡ touch fs w)
  unfolding handle auth touch
  handle-shut (Request.auth token) w h wrong =
      let e = present-refused w.session.required_token token (touch fs w) h.required wrong in
      (inr (ap (λ r. r.0) e), ap (λ r. r.1) e)
  handle-shut req w h wrong =
      let e = gated-refused w.session.authed req (touch fs w) h.outside in
      (inl (ap (λ r. r.0) e), ap (λ r. r.1) e)

  touch-touch : (w : World fs) → touch fs (touch fs w) ≡ touch fs w
  unfolding touch
  touch-touch w = refl

  -- Until the right token comes, every request is refused with `auth_required` or
  -- `permission_denied`, and nothing changes but the time at which the session was last seen.
  pub handle_all-IsRefusal :
      (reqs : List Request) (w : World fs)
      → IsShut fs expected w
      → All (IsWrong expected) reqs
      → All IsRefusal (handle_all fs lib reqs w).0
        × (touch fs (handle_all fs lib reqs w).1 ≡ touch fs w)
  unfolding handle_all
  handle_all-IsRefusal [] w h wrong = (tt, refl)
  handle_all-IsRefusal (req ∷ reqs) w h wrong =
      let (refused, e) = handle-shut req w h wrong.0 in
      let next = handle_all-IsRefusal reqs (touch fs w) (touch-IsShut w h) wrong.1 in
      rw e ((refused, next.0), next.1 ∙ touch-touch w)
