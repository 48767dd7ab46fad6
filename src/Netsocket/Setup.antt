-- ===== src/Netsocket/Setup.antt =====
-- The threads and the socket of src/server/netsocket.c.
use sample_sds_storage.Base.{
  ℕ, ◌%◌, ◌^◌, Bool, true, false, Option, none, some, List, [], ◌∷◌, leb, ltb, ◌==◌, ◌||◌,
  if◌then◌else◌, ℤ, pos, negsuc, success, failure, Run, ok, fault, abort, ◌>>=◌, or_fault,
}
use sample_sds_storage.Slice.{Slice, slice_init}
use sample_sds_storage.Slice.Strings.{CharPtr, at, is_null}
use sample_sds_storage.LinkedList.{Ptr, null}

-- `ev_thread`. Its loop is the default one; `ew` is not used.
pub record EvThread : Type 0 where
  pub fd : ℤ
  pub tid : ℕ

-- A `struct ev_io`: the descriptor whose events go to `read_cb`.
pub record EvIo : Type 0 where
  pub fd : ℤ

-- The threads and the watchers in memory, and the watchers that the loop has been given.
pub record Events : Type 0 where
  pub threads : Ptr → Option EvThread
  pub watchers : Ptr → Option EvIo
  pub started : List Ptr

abbrev pub put_at {ℓ} : {A : Type ℓ} → (Ptr → Option A) → Ptr → Option A → Ptr → Option A
put_at m p v q = if p == q then v else m q

-- `fresh` is what `calloc` returns. The assertion fails on NULL.
unfoldable pub ev_thread_create : (fresh : Ptr) (fd : ℤ) → Events → Run (Ptr × Events)
ev_thread_create fresh fd ev =
    if fresh == null
    then abort
    else ok (
      fresh,
      record ev { threads = put_at ev.threads fresh (some (record { fd = fd; tid = 0 })) },
    )

-- The argument points at a pointer, which becomes NULL; `free` of NULL does nothing.
unfoldable pub ev_thread_destroy : Option Ptr → Events → Option Ptr × Events
ev_thread_destroy none ev = (none, ev)
ev_thread_destroy (some p) ev = (some null, record ev { threads = put_at ev.threads p none })

-- `fresh` is what `malloc` returns; through NULL `ev_io_init` writes out of bounds. The thread's
-- descriptor is read before, and its `tid` after it is released.
unfoldable pub netsocket_do_request :
    (fresh : Ptr) → Option Ptr → Events → Run (Option Ptr × Events)
netsocket_do_request fresh none ev = ok (none, ev)
netsocket_do_request fresh (some p) ev =
    if p == null then ok (some p, ev) else if fresh == null then fault else (do
      ev_thd ← or_fault (ev.threads p)
      let w_client : EvIo = record { fd = ev_thd.fd }
      let given = record ev {
        watchers = put_at ev.watchers fresh (some w_client);
        started = fresh ∷ ev.started;
      }
      let (arg, destroyed) = ev_thread_destroy (some p) given
      let freed = record destroyed { watchers = put_at destroyed.watchers fresh none }
      detached ← or_fault (freed.threads p)
      ok (arg, freed))

abbrev pub is_error : ℤ → Bool
is_error (pos n) = false
is_error (negsuc n) = true

-- `error` says that the event is an error, and `accepted` is what `accept` returns. The thread is
-- run to its end at once, while the variable that holds its pointer is there.
unfoldable pub accept_cb :
    (error : Bool) (accepted : ℤ) (fresh_thread fresh : Ptr) → Events → Run Events
accept_cb error accepted fresh_thread fresh ev = if error || is_error accepted then ok ev else (do
  (e_thd, created) ← ev_thread_create fresh_thread accepted ev
  if e_thd == null
      then ok created
      else (do (_, out) ← netsocket_do_request fresh (some e_thd) created; ok out))

-- `netsocket`. Neither `port` nor `backlog` is ever set; the loop is the default one.
pub record Netsocket (Ctx : Type 0) : Type 0 where
  pub addr : Slice
  pub sock : ℤ
  pub ctx : Option Ctx

-- What `listen` has been asked for.
pub record Listening : Type 0 where
  pub port : ℕ
  pub backlog : ℕ

-- `NETSOCKET_DEFAULT_PORT`, `NETSOCKET_DEFAULT_ADDR` and `NETSOCKET_DEFAULT_BACKLOG`
abbrev pub default_port : ℕ
default_port = 8765

abbrev pub default_addr : List ℕ
default_addr = b'1' ∷ b'2' ∷ b'7' ∷ b'.' ∷ b'0' ∷ b'.' ∷ b'0' ∷ b'.' ∷ b'1' ∷ 0 ∷ []

abbrev pub default_backlog : ℕ
default_backlog = 1024

-- `port <= 1024`, and `backlog < NETSOCKET_DEFAULT_BACKLOG`
abbrev pub port_of : ℤ → ℕ
port_of (pos port) = if leb port 1024 then default_port else port
port_of (negsuc n) = default_port

abbrev pub backlog_of : ℤ → ℕ
backlog_of (pos backlog) = if ltb backlog default_backlog then default_backlog else backlog
backlog_of (negsuc n) = default_backlog

-- What the calls of the socket library return, and whether the logger has a descriptor: then a
-- fatal message ends the process.
pub record Sockets : Type 0 where
  pub socket : ℤ
  pub bind : ℤ
  pub listen : ℤ
  pub logs : Bool

abbrev bind_failed : ℤ → Bool
bind_failed (pos n) = if n == 0 then false else true
bind_failed (negsuc n) = true

unfoldable pub log_fatal : Sockets → Run (Unit {0})
log_fatal so = if so.logs then abort else ok tt

module _ {Ctx : Type 0} (strdup : ℕ → Bool) (so : Sockets) where
  -- From `listen` on. `htons` keeps 16 bits of the port.
  unfoldable pub start_listen :
      (port backlog : ℕ)
      → Option Ctx
      → Netsocket Ctx
      → Run (ℤ × Option (Netsocket Ctx) × Option Listening)
  start_listen port backlog ctx ns =
      if is_error so.listen
      then (do _ ← log_fatal so; ok (failure, some ns, none))
      else ok (
        success,
        some (record { addr = ns.addr; sock = so.socket; ctx = ctx }),
        some (record { port = port % 2 ^ 16; backlog = backlog }),
      )

  -- What `slice_init` returns is not looked at. The socket is not closed when `listen` fails.
  unfoldable pub netsocket_init :
      Option (Netsocket Ctx)
      → (saddr : CharPtr) (port backlog : ℤ) → Option Ctx
      → Run (ℤ × Option (Netsocket Ctx) × Option Listening)
  netsocket_init none saddr port backlog ctx = ok (failure, none, none)
  netsocket_init (some ns) saddr port backlog ctx = do
    (_, named) ← slice_init strdup (some ns.addr) (if is_null saddr then at default_addr else saddr)
    addr ← or_fault named
    let inited = record ns { addr = addr }
    if is_error so.socket
        then (do _ ← log_fatal so; ok (failure, some inited, none))
        else if bind_failed so.bind
        then (do _ ← log_fatal so; start_listen (port_of port) (backlog_of backlog) ctx inited)
        else start_listen (port_of port) (backlog_of backlog) ctx inited

-- What `netsocket_deinit` closes: the loop is ended and destroyed with it.
unfoldable pub netsocket_deinit : {Ctx : Type 0} → Option (Netsocket Ctx) → Option ℤ
netsocket_deinit none = none
netsocket_deinit (some ns) = elim ns.sock [
  | pos n ↦ some (pos n)
  | negsuc n ↦ if n == 0 then none else some (negsuc n)
]

-- What the event loop is given: a descriptor whose readiness goes to `accept_cb`, or a timer that
-- goes to `timeout_cb` after so many seconds and then each so many.
pub data Watch : Type 0 where
  accept_watch : (fd : ℤ) → Watch
  timeout_watch : (after repeat : ℕ) → Watch

-- `ev_run` is the event loop, with the watchers started and their context.
unfoldable pub netsocket_run :
    {Ctx Out : Type 0} (ev_run : List Watch → Option Ctx → Run Out) → Netsocket Ctx → Run Out
netsocket_run ev_run ns = ev_run (accept_watch ns.sock ∷ timeout_watch 2 1 ∷ []) ns.ctx

-- The configuration that the timer has written to the log, if any: `cf` is that of a store.
unfoldable pub timeout_cb : {Ctx Conf : Type 0} (cf : Ctx → Option Conf) → Option Ctx → Option Conf
timeout_cb cf none = none
timeout_cb cf (some ss) = cf ss
