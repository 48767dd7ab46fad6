-- ===== src/Netsocket/Sockets.antt =====
-- What the threads and the socket of src/server/netsocket.c come to.
use sample_sds_storage.Base.{
  ℕ, ◌^◌, ◌%◌, ◌≡◌, ◌≢◌, ◌≤◌, refl, Bool, false, Option, some, List, ◌==◌, Bool-cases, Option-cases,
  inl, inr, ==_refl, ==_ne, if◌then◌else◌, arith, ℤ, pos, negsuc, success, ok, fault, ◌>>=◌,
}
use sample_sds_storage.Slice.{Slice, init_string, slice_init}
use sample_sds_storage.Slice.Strings.{CharPtr, null, at, wild, is_null, c_string}
use sample_sds_storage.LinkedList
use sample_sds_storage.LinkedList.{Ptr}
use sample_sds_storage.Netsocket.Setup.{
  Events, accept_cb, ev_thread_create, ev_thread_destroy, put_at, netsocket_do_request, Netsocket,
  Listening, Sockets, port_of, backlog_of, default_addr, start_listen, netsocket_init,
}

netsocket_do_request-fault :
    (fresh p : Ptr) (ev : Events)
    → p ≢ LinkedList.null
    → netsocket_do_request fresh (some p) ev ≡ fault
unfolding netsocket_do_request ev_thread_destroy
netsocket_do_request-fault fresh p ev live = elim (Bool-cases (fresh == LinkedList.null)) [
  | inl out_of_memory ↦ rw (==_ne p LinkedList.null live, out_of_memory) refl
  | inr given ↦ elim (Option-cases (ev.threads p)) [
    | inl absent ↦ rw (==_ne p LinkedList.null live, given, absent) refl
    | inr (ev_thd, present) ↦
        rw (==_ne p LinkedList.null live, given, present, ◌>>=◌, ==_refl p) refl
  ]
]

-- A connection that is accepted ends in a fault, where there is memory for its thread: the thread
-- uses its structure after it has released it.
pub accept_cb-fault :
    (fd : ℕ) (fresh_thread fresh : Ptr) (ev : Events)
    → fresh_thread ≢ LinkedList.null
    → accept_cb false (pos fd) fresh_thread fresh ev ≡ fault
unfolding accept_cb ev_thread_create
accept_cb-fault fd fresh_thread fresh ev live =
    let created : Events = record ev {
      threads = put_at ev.threads fresh_thread (some (record { fd = pos fd; tid = 0 }));
    } in
    rw
      (
        ==_ne fresh_thread LinkedList.null live,
        ◌>>=◌,
        netsocket_do_request-fault fresh fresh_thread created live,
        ==_ne fresh_thread LinkedList.null live,
      )
      refl

backlog_of-least : (backlog : ℤ) → 1024 ≤ backlog_of backlog
backlog_of-least (pos n) = ground arith
backlog_of-least (negsuc n) = omega arith

-- NULL, or a pointer to a string.
abbrev pub HasAddress : CharPtr → Type 0
HasAddress null = Unit
HasAddress (at bs) = (v : List ℕ) × (c_string (at bs) ≡ ok v)
HasAddress wild = ⊥

slice_init-text :
    (strdup : ℕ → Bool) (se : Slice) (bs : List ℕ) {v : List ℕ}
    → c_string (at bs) ≡ ok v
    → slice_init strdup (some se) (at bs) ≡ ok (success, some (init_string strdup v))
unfolding slice_init
slice_init-text strdup se bs e = rw e refl

address-init :
    (strdup : ℕ → Bool) (se : Slice) (saddr : CharPtr)
    → HasAddress saddr
    → (out : Slice) × (slice_init strdup
          (some se)
          (if is_null saddr then at default_addr else saddr)
        ≡ ok (success, some out))
unfolding c_string
address-init strdup se null h =
    let (v, e) : (v : List ℕ) × (c_string (at default_addr) ≡ ok v) = (_, refl) in
    (init_string strdup v, slice_init-text strdup se default_addr e)
address-init strdup se (at bs) (v, e) = (init_string strdup v, slice_init-text strdup se bs e)
address-init strdup se wild h = absurd h

-- Where the socket library does its part, `netsocket_init` succeeds with the socket and the context
-- that it is given, and listens with a backlog of at least 1024, on the default port for one up to
-- 1024, else on the low 16 bits of the port. (The address is NULL or a string, and nothing binds
-- the socket to it.)
pub netsocket_init-listens :
    {Ctx : Type 0} (strdup : ℕ → Bool) (so : Sockets) (ns : Netsocket Ctx) (saddr : CharPtr)
    (port backlog : ℤ) (ctx : Option Ctx) (m n : ℕ)
    → HasAddress saddr
    → so.socket ≡ pos m
    → so.bind ≡ pos 0
    → so.listen ≡ pos n
    → (out : Netsocket Ctx) × (l : Listening) × (netsocket_init strdup so
          (some ns)
          saddr
          port
          backlog
          ctx
        ≡ ok (success, some out, some l))
      × (out.sock ≡ pos m)
      × (out.ctx ≡ ctx)
      × (1024 ≤ l.backlog)
      × (l.port ≡ port_of port % 2 ^ 16)
unfolding netsocket_init start_listen
netsocket_init-listens strdup so ns saddr port backlog ctx m n readable socket bound listens =
    let (se, named) = address-init strdup ns.addr saddr readable in
    (
      record { addr = se; sock = so.socket; ctx = ctx },
      record { port = port_of port % 2 ^ 16; backlog = backlog_of backlog },
      rw named (rw (socket, bound, listens) refl),
      socket,
      refl,
      backlog_of-least backlog,
      refl,
    )
