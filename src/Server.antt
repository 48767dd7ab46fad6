-- ===== src/Server.antt =====
-- src/server/main.c: the main program of the server.
pub mod Stops
use sample_sds_storage.Base.{ℕ, Bool, Option, none, some, List, ℤ, Run, ok, ◌>>=◌, or_fault}
use sample_sds_storage.Slice.{slice_value}
use sample_sds_storage.Slice.Strings.{CharPtr}
use sample_sds_storage.Vector.{Vector}
use sample_sds_storage.LinkedList.{Ptr}
use sample_sds_storage.Conf.{Json, Conf}
use sample_sds_storage.SdsStore.{SdsStore, sds_store_init, sds_store_deinit}
use sample_sds_storage.Netsocket.Setup.{Netsocket, Sockets, Watch, netsocket_init, netsocket_run}

-- The store on the stack, with a `cf` that nothing has set.
abbrev pub fresh_store : (json : Json) → Vector Ptr → SdsStore json
fresh_store json sets = record { sets = sets; cf = none }

abbrev pub conf_of : {json : Json} → Option (SdsStore json) → Option (Conf json)
conf_of none = none
conf_of (some ss) = ss.cf

-- `path` says whether there is an argument, `read` is what the file there gives, `sets` and `net`
-- are what lies on the stack, and `ev_run` is the event loop, which gives the store as it leaves
-- it.
module _ (json : Json) (calloc strdup : ℕ → Bool) (so : Sockets)
    (ev_run : List Watch → Option (SdsStore json) → Run (Option (SdsStore json))) where
  -- The part before the call of `netsocket_init`, with the reads of its arguments.
  unfoldable pub server_start :
      (path : Bool) (read : Option (List ℕ)) → Vector Ptr → Run (Conf json × Option (SdsStore json))
  server_start path read sets = do
    (_, ss) ← sds_store_init json calloc (some (fresh_store json sets)) path read
    cf ← or_fault (conf_of ss)
    ok (cf, ss)

  unfoldable pub server_main :
      (path : Bool) (read : Option (List ℕ))
      → Vector Ptr
      → Netsocket (SdsStore json)
      → Run (Unit {0})
  server_main path read sets net = do
    (cf, ss) ← server_start path read sets
    (_, net', _) ←
        netsocket_init strdup so (some net) (slice_value (some cf.addr)) cf.port cf.backlog ss
    started ← or_fault net'
    ended ← netsocket_run ev_run started
    sds_store_deinit json calloc ended
