-- ===== src/Examples/Nets.antt =====
-- The network loop of src/server/netsocket.c at concrete inputs.
use sample_sds_storage.Base.{
  ℕ, ◌≡◌, refl, true, false, none, some, [], ◌∷◌, pos, ok, failure, replicate,
}
use sample_sds_storage.Slice.{slice, raw}
use sample_sds_storage.Slice.Strings.{at, c_string}
use sample_sds_storage.Utils.{got, failed, read_n}
use sample_sds_storage.Hash.Mix.{gfs_hashfn, quads_loop, tail_loop}
use sample_sds_storage.Netsocket.{
  Store, ev_io_watcher, Response, read_cb, ctx_of, answer, put_object, find_set, put_into, respond,
}
use sample_sds_storage.Netsocket.Setup.{Netsocket, Sockets}
use sample_sds_storage.Netsocket.Served.{
  Serves, done, event, Anything, HasByte, AreRefusals, Serves-refuses,
}
use sample_sds_storage.Vector.{Vector}
use sample_sds_storage.LinkedList.{Ptr}
use sample_sds_storage.Conf.{Json}
use sample_sds_storage.SdsStore.{SdsStore}
use sample_sds_storage.Server.{server_start, server_main}
use sample_sds_storage.Server.Stops.{Stops, server_main-Stops}
use sample_sds_storage.Examples.Transfers.{whole_numbers}
use sample_sds_storage.Examples.Buckets.{disk, plenty, same_name, object, no_lists}

abbrev pub empty_store : Store
empty_store = record {
  sets = record { size = 0; cap = 0; tables = []; cb = false };
  heap = no_lists;
  data_dir = at (b'd' ∷ 0 ∷ []);
  bucket_size = 2;
  set_hash_range = 512;
  data_length = 1;
}

-- A byte arrives, which the callback takes for an error.
ignored :
    read_cb disk plenty same_name whole_numbers 10 20 30 object
      (pos 0)
      []
      []
      (ev_io_watcher empty_store)
      false
      (got (2 ∷ []))
      []
      []
      []
    ≡ ok (some (empty_store, none))
unfolding read_cb ctx_of
ignored = refl

pub one_event : Serves HasByte plenty same_name whole_numbers empty_store [] empty_store []
one_event =
    event disk 10 20 30 object (pos 0) [] [] false (got (2 ∷ [])) [] [] [] refl ignored
      (done empty_store [])

-- No byte arrives, and then the 552 of a request: the put is refused, with the name that lies in
-- the memory of the other request.
abbrev refusal : Response
refusal = record { req_type = 0; name = b'n' ∷ []; ret = failure }

refused :
    read_cb disk plenty same_name whole_numbers 10 20 30 object
      (pos 0)
      []
      (b'n' ∷ 0 ∷ [])
      (ev_io_watcher empty_store)
      false
      (failed 11)
      (got (replicate 552 0) ∷ [])
      []
      []
    ≡ ok (some (empty_store, some refusal))
unfolding read_cb ctx_of answer put_object read_n c_string gfs_hashfn quads_loop tail_loop find_set
    put_into respond
refused = refl

two_events :
    Serves Anything plenty same_name whole_numbers empty_store [] empty_store (refusal ∷ [])
two_events = event disk 10 20 30 object (pos 0) [] [] false (got (2 ∷ [])) [] [] [] tt ignored (
    event disk 10 20 30 object (pos 0) [] (b'n' ∷ 0 ∷ []) false (failed 11)
      (got (replicate 552 0) ∷ []) [] [] tt refused (done empty_store (refusal ∷ [])))

Serves-refuses_example : (empty_store ≡ empty_store) × AreRefusals (refusal ∷ [])
Serves-refuses_example = Serves-refuses refl two_events

abbrev working : Sockets
working = record { socket = pos 4; bind = pos 0; listen = pos 0; logs = true }

abbrev fresh : Netsocket ℕ
fresh = record { addr = slice raw 0; sock = pos 0; ctx = none }

-- A library that parses every text, to an object where each key has the number 99 and the text `h`.
abbrev pub parsing : Json
parsing = record {
  Value = ℕ;
  loads = λ bs. some 1;
  object_get = λ root key. some 2;
  int_value = λ v. pos 99;
  string_value = λ v. at (b'h' ∷ 0 ∷ []);
}

abbrev no_sets : Vector Ptr
no_sets = record { size = 0; cap = 0; tables = []; cb = false }

abbrev net : Netsocket (SdsStore parsing)
net = record { addr = slice raw 0; sock = pos 0; ctx = none }

server_main-Stops_example :
    Stops (
      server_start parsing plenty plenty working
        (λ watches ss. ok ss)
        true
        (some (b'1' ∷ []))
        no_sets)
    × Stops (
        server_main parsing plenty plenty working
          (λ watches ss. ok ss)
          true
          (some (b'1' ∷ []))
          no_sets
          net)
server_main-Stops_example =
    server_main-Stops parsing plenty plenty working (λ watches ss. ok ss) true (some (b'1' ∷ []))
      no_sets net
