-- ===== src/Server/Reactor.antt =====
-- The reactor: faith-server/src/reactor/reactor.c and reactor.h. What epoll answers is a parameter; no
-- pointer is null, and a file descriptor that is negative is `none`.
pub mod Masks
use faith.Common.{
  ℕ, ◌+◌, List, [], ◌∷◌, Bool, not, Option, none, some, bit_and, bit_or, ◌==◌, if◌then◌else◌, ◌||◌,
  length,
}
use faith.Proto.Status.{Status, ok, invalid, io, epoll}

-- reactor_events_t
abbrev pub reactor_readable : ℕ
reactor_readable = 1

abbrev pub reactor_writable : ℕ
reactor_writable = 2

abbrev pub reactor_error : ℕ
reactor_error = 4

abbrev pub reactor_closed : ℕ
reactor_closed = 8

-- The values of sys/epoll.h.
abbrev pub epollin : ℕ
epollin = 0x001

abbrev pub epollout : ℕ
epollout = 0x004

abbrev pub epollerr : ℕ
epollerr = 0x008

abbrev pub epollhup : ℕ
epollhup = 0x010

abbrev pub epollrdhup : ℕ
epollrdhup = 0x2000

-- `mask & bits`, as a condition.
abbrev pub has : ℕ → ℕ → Bool
has mask bits = not (bit_and mask bits == 0)

-- `if (c) events |= bits;`
abbrev pub set_if : Bool → ℕ → ℕ → ℕ
set_if c bits events = if c then bit_or events bits else events

pub event_mask_from_epoll : ℕ → ℕ
event_mask_from_epoll epoll_events =
    let events = set_if (has epoll_events epollin) reactor_readable 0 in
    let events' = set_if (has epoll_events epollout) reactor_writable events in
    let events'' = set_if (has epoll_events epollerr) reactor_error events' in
    set_if (has epoll_events (bit_or epollhup epollrdhup)) reactor_closed events''

pub event_mask_to_epoll : ℕ → ℕ
event_mask_to_epoll events =
    let epoll_events = set_if (has events reactor_readable) epollin 0 in
    let epoll_events' = set_if (has events reactor_writable) epollout epoll_events in
    set_if (has events reactor_closed) epollrdhup epoll_events'

pub data SourceType : Type 0 where
  source_client source_listener : SourceType

-- reactor_source_t; `user_data` is the number of the client, if any.
pub record Source : Type 0 where
  pub fd : Option ℕ
  pub interests : ℕ
  pub kind : SourceType
  pub user_data : Option ℕ

-- reactor_context_t
pub record Reactor : Type 0 where
  pub fd : Option ℕ

pub data CtlOp : Type 0 where
  ctl_add ctl_mod ctl_del : CtlOp

-- What epoll_ctl did: nothing is wrong, or errno.
pub data Answer : Type 0 where
  done : Answer
  failed : ℕ → Answer

abbrev enoent : ℕ
enoent = 2

abbrev eintr : ℕ
eintr = 4

-- `created` is the descriptor of epoll_create1.
pub reactor_init : Option ℕ → Status × Reactor
reactor_init none = (epoll, record { fd = none })
reactor_init (some epoll_fd) = (ok, record { fd = some epoll_fd })

-- `if (ctx->fd < 0 || src->fd < 0) return FAITH_ERR_INVALID;`, else the call on both descriptors.
abbrev pub with_fds : {A : Type 0} → Option ℕ → Option ℕ → A → (ℕ → ℕ → A) → A
with_fds (some epfd) (some fd) bad call = call epfd fd
with_fds (some epfd) none bad call = bad
with_fds none fd bad call = bad

-- A world in which the calls of epoll take effect.
module _ {W : Type 0} (epoll_ctl : W → CtlOp → ℕ → ℕ → ℕ → Answer × W) where
  abbrev added : Source → Answer × W → Status × Source × W
  added src (done, w) = (ok, src, w)
  added src (failed errno, w) = (epoll, src, w)

  unfoldable pub reactor_add : W → Reactor → Source → Status × Source × W
  unfolding event_mask_to_epoll
  reactor_add w r src =
      with_fds r.fd src.fd (invalid, src, w)
        (λ epfd fd. added src (epoll_ctl w ctl_add epfd fd (event_mask_to_epoll src.interests)))

  abbrev pub modified : Source → ℕ → Answer × W → Status × Source × W
  modified src new_interests (done, w) = (ok, record src { interests = new_interests }, w)
  modified src new_interests (failed errno, w) = (epoll, src, w)

  unfoldable pub reactor_modify_interests : W → Reactor → Source → ℕ → Status × Source × W
  unfolding event_mask_to_epoll
  reactor_modify_interests w r src new_interests =
      with_fds r.fd src.fd (invalid, src, w)
        (λ epfd fd.
          modified src new_interests
            (epoll_ctl w ctl_mod epfd fd (event_mask_to_epoll new_interests)))

  abbrev removed : Source → Answer × W → Status × Source × W
  removed src (done, w) = (ok, record src { interests = 0 }, w)
  removed src (failed errno, w) =
      if errno == enoent then (ok, record src { interests = 0 }, w) else (epoll, src, w)

  unfoldable pub reactor_remove : W → Reactor → Source → Status × Source × W
  reactor_remove w r src =
      with_fds r.fd src.fd (invalid, src, w)
        (λ epfd fd. removed src (epoll_ctl w ctl_del epfd fd 0))

-- The events that epoll_wait reports: a mask, and the source that was registered with it.
pub record EventData : Type 0 where
  pub events : ℕ
  pub src : Option Source

pub data Waited : Type 0 where
  ready : List EventData → Waited
  wait_failed : ℕ → Waited

-- The loop over the reported events.
unfoldable pub reported : List EventData → List EventData
unfolding event_mask_from_epoll
reported [] = []
reported (ev ∷ evs) =
    record { events = event_mask_from_epoll ev.events; src = ev.src } ∷ reported evs

abbrev taken : Waited → Status × List EventData
taken (ready evs) = (ok, reported evs)
taken (wait_failed errno) = if errno == eintr then (ok, []) else (epoll, [])

-- The status, and the first `*o_n_events` of `o_events`.
unfoldable pub reactor_wait : Reactor → Waited → Status × List EventData
reactor_wait r answer = elim r.fd [ none ↦ (invalid, []) | some epfd ↦ taken answer ]

-- `closes` says whether close succeeds.
unfoldable pub reactor_destroy : Bool → Reactor → Status × Reactor
reactor_destroy closes r = elim r.fd [
  | none ↦ (ok, record { fd = none })
  | some epfd ↦ (if closes then ok else io, record { fd = none })
]
