-- ===== src/Examples/Registries.antt =====
-- A registry of one account with two devices.
use faith.Server.SessRegistry.Change.{lookup}
use faith.Common.{subst, sym, ℕ, ◌≡◌, ◌≢◌, ap, List, [], ◌∷◌, true, some, inr, arith, replicate}
use faith.Proto.Status.{ok}
use faith.Server.SessRegistry.Occupancy.{
  Occupied, HasDevices, register_session-HasDevices, unregister_session-HasDevices,
}
use faith.Server.HashMap.{HashMap}
use faith.Server.SessRegistry.{
  Client, Session, new_session, register_session, get_session, unregister_session,
}
use faith.Server.SessRegistry.Lookup.{
  IsRemoved, register_session-lookup, register_session-lookup_other, unregister_session-IsRemoved,
  unregister_session-lookup_other,
}
use faith.Examples.Maps.{lists, Entries}

abbrev pub devices : HashMap (List ℕ) Session
devices = lists Session

abbrev pub users : HashMap (List ℕ) (Entries Session)
users = lists (Entries Session)

abbrev an_account : List ℕ
an_account = replicate 16 1

abbrev phone : List ℕ
phone = replicate 16 2

abbrev laptop : List ℕ
laptop = replicate 16 3

abbrev a_client : Client
a_client = record { id = 5; auth_id = an_account; device_id = phone }

abbrev first_of : List ℕ → ℕ
first_of [] = 0
first_of (x ∷ xs) = x

phone≢laptop : phone ≢ laptop
phone≢laptop e = absurd (omega (arith, ap first_of e))

-- The registry with the phone.
abbrev registered : Entries (Entries Session)
registered = (register_session devices users true [] an_account phone a_client (replicate 32 9)).1

register_session-lookup_example :
    get_session devices users registered an_account phone
    ≡ (ok, some (new_session a_client (replicate 32 9)))
register_session-lookup_example =
    register_session-lookup devices users [] an_account phone (replicate 32 9) a_client

register_session-lookup_other_example :
    lookup devices users
      (register_session devices users true registered an_account phone a_client (replicate 32 8)).1
      an_account
      laptop
    ≡ lookup devices users registered an_account laptop
register_session-lookup_other_example =
    register_session-lookup_other devices users registered true an_account phone (replicate 32 8)
      a_client an_account laptop (inr phone≢laptop)

unregister_session-IsRemoved_example :
    IsRemoved devices users registered an_account phone
      (lookup devices users registered an_account phone)
      (unregister_session devices users registered an_account phone)
unregister_session-IsRemoved_example =
    unregister_session-IsRemoved devices users registered an_account phone

unregister_session-lookup_other_example :
    lookup devices users
      (unregister_session devices users registered an_account phone).1
      an_account
      laptop
    ≡ lookup devices users registered an_account laptop
unregister_session-lookup_other_example =
    unregister_session-lookup_other devices users registered an_account phone an_account laptop
      (inr phone≢laptop)

nobody-HasDevices : HasDevices devices users []
nobody-HasDevices auth_id = subst (Occupied devices users) (sym (users.get-empty auth_id)) tt

register_session-HasDevices_example :
    HasDevices devices users
      (register_session devices users true [] an_account phone a_client (replicate 32 9)).1
register_session-HasDevices_example =
    register_session-HasDevices devices users [] true an_account phone (replicate 32 9) a_client
      nobody-HasDevices

registered-HasDevices : HasDevices devices users registered
registered-HasDevices =
    register_session-HasDevices devices users [] true an_account phone (replicate 32 9) a_client
      nobody-HasDevices

unregister_session-HasDevices_example :
    HasDevices devices users (unregister_session devices users registered an_account phone).1
unregister_session-HasDevices_example =
    unregister_session-HasDevices devices users registered an_account phone registered-HasDevices
