-- ===== src/Server/Admission.antt =====
-- An invariant of the clients in the server's list, and how the ways to change the list keep it.
pub mod Clients
pub mod Seats
pub mod Sockets
pub mod Events
pub mod Devices
pub mod Responses
pub mod Commands
pub mod Lifecycle
pub mod Loop
pub mod Reachable
use faith.Common.{
  ℕ, List, [], ◌∷◌, Bool, true, false, Option, none, some, ◌==◌, ◌≡◌, refl, ap, sym, ◌∙◌,
  if◌then◌else◌, Bool-cases, inl, inr,
}
use faith.Proto.Status.{Status, unreachable}
use faith.Server.Client.{ClientConn, ClientState}
use faith.Server.ClientIo.Quiet.{Quiet, IsQuiet}
use faith.Server.Devices.{is_open}
use faith.Server.State.{Server, get_client, put_client, on_client, on_seat, stored, seat_stored}
use faith.Server.DeviceLink.{modify_client}

abbrev pub is_some : {A : Type 0} → Option A → Bool
is_some none = false
is_some (some a) = true

-- A client is open only if it is authorized, and a pending device-link request stands together with the
-- connection that made it.
pub record Admitted (cl : ClientConn) : Type 0 where
  pub opened : is_open cl.state ≡ true → cl.authorized ≡ true
  pub paired : is_some cl.pending_device_link_req ≡ is_some cl.pending_device_link_conn

pub Quiet-Admitted : {cl cl' : ClientConn} → Quiet cl cl' → Admitted cl → Admitted cl'
Quiet-Admitted q a = record {
  opened = λ e. q.authorized ∙ a.opened (sym (ap is_open q.state) ∙ e);
  paired = ap is_some q.request ∙ a.paired ∙ sym (ap is_some q.requester);
}

abbrev pub AllAdmitted : List ClientConn → Type 0
AllAdmitted [] = Unit
AllAdmitted (cl ∷ cls) = Admitted cl × AllAdmitted cls

abbrev pub AdmittedIf : Option ClientConn → Type 0
AdmittedIf none = Unit
AdmittedIf (some cl) = Admitted cl

pub get_client-Admitted :
    (id : ℕ) (cls : List ClientConn) → AllAdmitted cls → AdmittedIf (get_client id cls)
get_client-Admitted id [] a = tt
get_client-Admitted id (cl ∷ cls) a = by_id (cl.conn.id == id) (get_client-Admitted id cls a.1)
  where
    by_id :
        (b : Bool)
        → AdmittedIf (get_client id cls)
        → AdmittedIf (if b then some cl else get_client id cls)
    by_id true h = a.0
    by_id false h = h

pub put_client-Admitted :
    (new : ClientConn) (cls : List ClientConn)
    → Admitted new
    → AllAdmitted cls
    → AllAdmitted (put_client new cls)
put_client-Admitted new [] n a = tt
put_client-Admitted new (cl ∷ cls) n a =
    (by_id (cl.conn.id == new.conn.id), put_client-Admitted new cls n a.1)
  where
    by_id : (b : Bool) → Admitted (if b then new else cl)
    by_id true = n
    by_id false = a.0

-- An operation that keeps a client admitted.
module _ {W : Type 0} where
  abbrev pub Keeps : (ClientConn × W → Status × (ClientConn × W)) → Type 0
  Keeps op = (cl : ClientConn) (w : W) → Admitted cl → Admitted (op (cl, w)).1.0

module _ {W Rt : Type 0} where
  abbrev pub Kept : Server W Rt → Type 0
  Kept s = AllAdmitted s.clients

  pub on_client-Kept :
      (s : Server W Rt) (id : ℕ) (op : ClientConn × W → Status × (ClientConn × W))
      → Keeps op
      → Kept s
      → Kept (on_client s id op).1
  unfolding on_client
  on_client-Kept s id op keeps a =
      found (get_client id s.clients) (get_client-Admitted id s.clients a)
    where
      found :
          (o : Option ClientConn)
          → AdmittedIf o
          → Kept
              (elim o as (λ x. Status × Server W Rt) [
                | none ↦ (unreachable, s)
                | some cl ↦ stored s (op (cl, s.world))
              ]).1
      found none h = a
      found (some cl) h =
          put_client-Admitted (op (cl, s.world)).1.0 s.clients (keeps cl s.world h) a

  pub on_seat-Kept :
      (s : Server W Rt) (id : ℕ) (op : (ClientConn × W) × Rt → Status × ((ClientConn × W) × Rt))
      → ((cl : ClientConn) (w : W) (rt : Rt) → Admitted cl → Admitted (op ((cl, w), rt)).1.0.0)
      → Kept s
      → Kept (on_seat s id op).1
  unfolding on_seat
  on_seat-Kept s id op keeps a =
      found (get_client id s.clients) (get_client-Admitted id s.clients a)
    where
      found :
          (o : Option ClientConn)
          → AdmittedIf o
          → Kept
              (elim o as (λ x. Status × Server W Rt) [
                | none ↦ (unreachable, s)
                | some cl ↦ seat_stored s (op ((cl, s.world), s.rt))
              ]).1
      found none h = a
      found (some cl) h =
          put_client-Admitted (op ((cl, s.world), s.rt)).1.0.0 s.clients (keeps cl s.world s.rt h) a

  pub modify_client-Kept :
      (s : Server W Rt) (id : ℕ) (f : ClientConn → ClientConn)
      → ((cl : ClientConn) → Admitted cl → Admitted (f cl))
      → Kept s
      → Kept (modify_client s id f)
  modify_client-Kept s id f keeps a =
      found (get_client id s.clients) (get_client-Admitted id s.clients a)
    where
      found :
          (o : Option ClientConn)
          → AdmittedIf o
          → Kept (elim o as (λ x. Server W Rt) [
            | none ↦ s
            | some cl ↦ record s { clients = put_client (f cl) s.clients }
          ])
      found none h = a
      found (some cl) h = put_client-Admitted (f cl) s.clients (keeps cl h) a
