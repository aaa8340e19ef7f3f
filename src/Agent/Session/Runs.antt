-- ===== src/Agent/Session/Runs.antt =====
-- How a property of the world passes through `handle` and a sequence of requests.
use alloyfs.Base.{ℕ, Bool, true, false, Option, none, some, List, [], ◌∷◌}
use alloyfs.Base.Text.{Text}
use alloyfs.Proto.Messages.{Request}
use alloyfs.Common.Exclude.{Globset}
use alloyfs.Common.Files.{FileSystem}
use alloyfs.Agent.Session.{World, touch, on_session}
use alloyfs.Agent.Session.Token.{token_eq}
use alloyfs.Agent.Session.Handler.{
  handle, handle_all, route, auth, admitted, present, gated, authed,
}

module _ (fs : FileSystem) (lib : Globset) (P : World fs → Type 0)
    (seen : (now : ℕ) (w : World fs)
      → P w
      → P (on_session fs (λ s. record s { last_seen = now }) w))
    (entered : (w : World fs) → P w → P (authed fs lib w))
    (routed : (req : Request) (w : World fs) → P w → P (route fs lib req w).1) where
  admitted-Keeps : (b : Bool) (w : World fs) → P w → P (admitted fs lib b w).1
  admitted-Keeps true w p = entered w p
  admitted-Keeps false w p = p

  present-Keeps :
      (o : Option Text) (token : Text) (w : World fs) → P w → P (present fs lib o token w).1
  present-Keeps none token w p = p
  present-Keeps (some expected) token w p = admitted-Keeps (token_eq token expected) w p

  gated-Keeps : (b : Bool) (req : Request) (w : World fs) → P w → P (gated fs lib b req w).1
  gated-Keeps true req w p = routed req w p
  gated-Keeps false req w p = p

  touch-Keeps : (w : World fs) → P w → P (touch fs w)
  unfolding touch
  touch-Keeps w p = seen w.now w p

  handle-Keeps : (req : Request) (w : World fs) → P w → P (handle fs lib req w).1
  unfolding handle auth
  handle-Keeps (Request.auth token) w p =
      present-Keeps (touch fs w).session.required_token token _ (touch-Keeps w p)
  handle-Keeps req w p = gated-Keeps w.session.authed req _ (touch-Keeps w p)

  -- What a change of the last activity, the admission and every routed request keep, a sequence of
  -- requests keeps.
  pub handle_all-Keeps : (reqs : List Request) (w : World fs) → P w → P (handle_all fs lib reqs w).1
  unfolding handle_all
  handle_all-Keeps [] w p = p
  handle_all-Keeps (req ∷ reqs) w p = handle_all-Keeps reqs _ (handle-Keeps req w p)
