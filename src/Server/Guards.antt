-- ===== src/Server/Guards.antt =====
-- How a predicate of the state goes through guards, early returns and the loop over devices.
use faith.Common.{ℕ, List, [], ◌∷◌, Bool, true, false, Option, none, some, if◌then◌else◌, not, ◌||◌}
use faith.Proto.Codec.Decode.{Decoded}
use faith.Proto.Status.{Status, not_found}
use faith.Server.Client.{ClientConn}
use faith.Server.Devices.{
  Loop, next, returned, and_round, round_on, connection_of, for_each, is_open,
}
use faith.Server.Events.{with_session}
use faith.Server.HashMap.{HashMap}
use faith.Server.Platform.{Platform}
use faith.Server.Reactor.{Reactor}
use faith.Server.SessRegistry.{Session}
use faith.Server.State.{Server}
use faith.Server.Steps.{is_ok, continue, and_then, with_decoded}

module _ {X : Type 0} (P : X → Type 0) where
  pub kept_case : (b : Bool) (x y : X) → P x → P y → P (elim b as (λ z. X) [ true ↦ x | false ↦ y ])
  kept_case true x y h h' = h
  kept_case false x y h h' = h'

  pub kept_either : (b : Bool) (x y : X) → P x → P y → P (if b then x else y)
  kept_either true x y h h' = h
  kept_either false x y h h' = h'

  pub kept_option :
      {A : Type 0} (o : Option A) (x : X) (f : A → X)
      → P x
      → ((a : A) → P (f a))
      → P (elim o as (λ z. X) [ none ↦ x | some a ↦ f a ])
  kept_option none x f h h' = h
  kept_option (some a) x f h h' = h' a

module _ {S : Type 0} (P : S → Type 0) where
  pub kept_if : (b : Bool) (x y : Status × S) → P x.1 → P y.1 → P (if b then x else y).1
  kept_if true x y h h' = h
  kept_if false x y h h' = h'

  pub kept_then :
      (r : Status × S) (k : S → Status × S)
      → P r.1
      → ((s : S) → P s → P (k s).1)
      → P (and_then r k).1
  kept_then (rc, s) k h rest = by_status (is_ok rc)
    where
      by_status : (b : Bool) → P (continue b (rc, s) k).1
      by_status true = rest s h
      by_status false = h

  pub kept_decoded :
      {T : Type 0} (s : S) (d : Decoded T) (k : T → Status × S)
      → P s
      → ((m : T) → P (k m).1)
      → P (with_decoded s d k).1
  kept_decoded {T} s d k h rest = by_status (is_ok d.status)
    where
      by_out :
          (o : Option T) → P (elim o as (λ x. Status × S) [ none ↦ (d.status, s) | some m ↦ k m ]).1
      by_out none = h
      by_out (some m) = rest m

      by_status :
          (b : Bool)
          → P
              (elim b as (λ x. Status × S) [
                | true ↦ elim d.out as (λ x. Status × S) [ none ↦ (d.status, s) | some m ↦ k m ]
                | false ↦ (d.status, s)
              ]).1
      by_status true = by_out d.out
      by_status false = h

  -- At the end of a round, whichever way it ends.
  abbrev pub AtEnd : Loop S → Type 0
  AtEnd (next s) = P s
  AtEnd (returned rc s) = P s

  kept_round :
      (l : Loop S) (k : S → Loop S)
      → AtEnd l
      → ((s : S) → P s → AtEnd (k s))
      → AtEnd (and_round l k)
  kept_round (next s) k h rest = rest s h
  kept_round (returned rc s) k h rest = h

  pub kept_each :
      {W Rt : Type 0} (server : S → Server W Rt) (body : S → ClientConn → Loop S)
      → ((s : S) (cl : ClientConn) → P s → AtEnd (body s cl))
      → (sessions : List Session) (s : S) → P s
      → AtEnd (for_each server body sessions s)
  unfolding for_each
  kept_each server body keeps [] s h = h
  kept_each server body keeps (sess ∷ rest) s h =
      kept_round (round_on server body s (connection_of server body s sess))
        (λ s'. for_each server body rest s') (by_client (connection_of server body s sess))
        (λ s' h'. kept_each server body keeps rest s' h')
    where
      by_guard :
          (cl : ClientConn) (b : Bool)
          → AtEnd (elim b as (λ x. Loop S) [ true ↦ next s | false ↦ body s cl ])
      by_guard cl true = h
      by_guard cl false = keeps s cl h

      by_client : (o : Option ClientConn) → AtEnd (round_on server body s o)
      by_client none = h
      by_client (some cl) =
          by_guard cl (cl.closing || (not cl.authorized || not (is_open cl.state)))

module _ (p : Platform) (r : Reactor) (devices : HashMap (List ℕ) Session)
    (users : HashMap (List ℕ) devices.Map) where
  pub kept_session :
      {S : Type 0} (P : S → Type 0) (s : S) (found : Status × Option Session)
      (k : Session → Status × S)
      → P s
      → ((sess : Session) → P (k sess).1)
      → P (with_session p r devices users s found k).1
  kept_session {S} P s (rc, sess) k h rest = by_status (is_ok rc)
    where
      by_session :
          (o : Option Session)
          → P (elim o as (λ x. Status × S) [ none ↦ (not_found, s) | some found ↦ k found ]).1
      by_session none = h
      by_session (some found) = rest found

      by_status :
          (b : Bool)
          → P
              (elim b as (λ x. Status × S) [
                | true ↦ elim sess as (λ x. Status × S) [
                  | none ↦ (not_found, s)
                  | some found ↦ k found
                ]
                | false ↦ (rc, s)
              ]).1
      by_status true = by_session sess
      by_status false = h
