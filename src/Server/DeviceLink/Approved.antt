-- ===== src/Server/DeviceLink/Approved.antt =====
-- What an answer of a device has shown when its request is granted.
use faith.Proto.Codec.Words.{be}
use faith.Proto.Envelope.Types.{envelope_device_auth_approve}
use faith.Common.{List, [], ◌∷◌, ◌==◌, concat, ℕ, Option, some, ◌≡◌, ◌≤◌, if◌then◌else◌}
use faith.Proto.Status.{Status, ok}
use faith.Proto.Auth.{DeviceLinkReq, DeviceLinkResponse}
use faith.Proto.Crypto.{matches}
use faith.Server.SessRegistry.{Session}
use faith.Server.Platform.{Platform}
use faith.Server.Client.{ClientConn}

-- What is to be signed: the account, id and key of the new device, the code and the expiry of the request,
-- the id of the device that answers, and 1 for an approval or 0, the numbers with the highest byte first.
abbrev pub signed_bytes : ClientConn → ℕ → DeviceLinkReq → List ℕ
signed_bytes cl kind req = concat (
    req.auth_id
    ∷ req.device_id_new
    ∷ req.public_key_new_device
    ∷ req.link_code
    ∷ be 8 req.expires_at_ms
    ∷ cl.ident.device_id
    ∷ be 4 (if kind == envelope_device_auth_approve then 1 else 0)
    ∷ [])

-- The device's session, and the signature by its key of the request and of the answer.
pub record Approved (p : Platform) (cl : ClientConn) (kind : ℕ) (req : DeviceLinkReq)
    (response : DeviceLinkResponse) (now : ℕ) (sess : Status × Option Session) : Type 0 where
  pub in_time : now ≤ req.expires_at_ms
  pub session : Session
  pub registered : sess ≡ (ok, some session)
  pub signed :
      p.digest_verify session.public_key (signed_bytes cl kind req) response.signature_response
      ≡ matches
