-- ===== src/Server/Reactor/Masks.antt =====
-- The two translations of event masks, flag by flag.
use faith.Common.{ℕ, ◌<◌, ◌≡◌, Bool, false, arith, bit_or, subst, sym}
use faith.Server.Reactor.{
  has, set_if, event_mask_from_epoll, reactor_readable, reactor_writable, reactor_error,
  reactor_closed, epollin, epollout, epollrdhup, event_mask_to_epoll, epollerr, epollhup,
}

abbrev reported_by : Bool → Bool → Bool → Bool → ℕ
reported_by r w e c =
    set_if c reactor_closed
      (set_if e reactor_error (set_if w reactor_writable (set_if r reactor_readable 0)))

abbrev asked_by : Bool → Bool → Bool → ℕ
asked_by r w c = set_if c epollrdhup (set_if w epollout (set_if r epollin 0))

-- A mask with given flags.
pub record Flags (mask : ℕ) (r w e c : Bool) : Type 0 where
  pub readable : has mask reactor_readable ≡ r
  pub writable : has mask reactor_writable ≡ w
  pub error : has mask reactor_error ≡ e
  pub closed : has mask reactor_closed ≡ c
  pub within : mask < 16

reported_by-Flags : (r w e c : Bool) → Flags (reported_by r w e c) r w e c
reported_by-Flags r w e c = ground arith

asked_by-reported :
    (r w c : Bool) → event_mask_from_epoll (asked_by r w c) ≡ reported_by r w false c
unfolding event_mask_from_epoll
asked_by-reported r w c = ground arith

event_mask_from_epoll-Flags :
    (mask : ℕ)
    → Flags
        (event_mask_from_epoll mask)
        (has mask epollin)
        (has mask epollout)
        (has mask epollerr)
        (has mask (bit_or epollhup epollrdhup))
unfolding event_mask_from_epoll
event_mask_from_epoll-Flags mask = reported_by-Flags _ _ _ _

-- What a registration asks for comes back: the mask that epoll would report, were all that was asked for
-- to happen, has the flags READABLE, WRITABLE and CLOSED of the interests, never ERROR, and no other flag.
pub event_mask_from_epoll-event_mask_to_epoll :
    (mask : ℕ)
    → Flags
        (event_mask_from_epoll (event_mask_to_epoll mask))
        (has mask reactor_readable)
        (has mask reactor_writable)
        false
        (has mask reactor_closed)
unfolding event_mask_to_epoll
event_mask_from_epoll-event_mask_to_epoll mask =
    subst
      (λ (m : ℕ).
        Flags m (has mask reactor_readable) (has mask reactor_writable) false
          (has mask reactor_closed))
      (sym (
        asked_by-reported (has mask reactor_readable) (has mask reactor_writable)
          (has mask reactor_closed)))
      (reported_by-Flags _ _ _ _)
